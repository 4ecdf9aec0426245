-- ===== src/Stages/Cache/Flags.antt =====
-- The flags of a compile stage: down while it works, up only behind finished work, and then taken for
-- a valid cache by the next run.
use package.text.Mathlib.TextLemmas.{append_cancel_left}
use pronze.Prelude.{
  String, ◌<>◌, ◌≡◌, Bool, true, false, ◌&&◌, inl, inr, List, [], ◌∷◌, ◌==◌, string_eq, arith,
  if◌then◌else◌, Bool-cases, eq_iff,
}
use pronze.Prelude.Texts.Strip.{IsCompact}
use pronze.World.{World, Env, FilePath, ◌/◌, path_eq, path_exists, text}
use pronze.Action.{ok, ⊤, Action, ◌>>=◌, pure}
use pronze.Action.{
  Triple, Keeps, Ends, Triple-bind, Triple-weaken, continue, keeps_rules, Keeps-bind, Keeps-if,
  Keeps-pure, Triple-pure, Triple-gets,
}
use pronze.Prelude.Dict.{erase}
use pronze.Os.{exists, set_fs}
use pronze.Os.Flags.{IsAbsent, exists-absent, exists-Keeps, read_text-Keeps}
use pronze.Stages.Cache.{
  saved_hash, all_exist, is_cached, restore_stage, rebuild_stage, cached_stage,
}
use pronze.Stages.Cache.Rebuild.{IsFlag, AreDown, AreUp, rebuild_stage-Ends, is_cached-AreUp}

module _ {P : World → Type 0} where
  pub saved_hash-Keeps : (p : FilePath) → Keeps P (saved_hash p)
  unfolding saved_hash
  saved_hash-Keeps p = search (keeps_rules, exists-Keeps, read_text-Keeps)

  pub all_exist-Keeps : (ps : List FilePath) → Keeps P (all_exist ps)
  unfolding all_exist
  all_exist-Keeps [] = search keeps_rules
  all_exist-Keeps (p ∷ ps) =
      Keeps-bind (exists p) _ (exists-Keeps p) (λ there.
        Keeps-if there (all_exist ps) (pure false) (all_exist-Keeps ps) (Keeps-pure false))

-- What the first checks of a stage find where the done flag is down: they may raise, never pass.
module _ (d : FilePath) (h f : String) (P : World → Type 0)
    (down : (w : World) → P w → IsAbsent (d / f) w) where
  is_cached-down :
      (hash : String) (cached : List FilePath)
      → Triple P (is_cached (d / h) (d / f) hash cached) (λ b w. P w × (b ≡ false)) P
  unfolding is_cached exists
  is_cached-down hash cached =
      Triple-bind (saved_hash (d / h)) _ (saved_hash-Keeps (d / h)) (λ saved.
        Triple-bind {R = λ b w. P w × (b ≡ false)} (exists (d / f)) _
          (Triple-gets (λ w. path_exists w.fs (d / f)) (λ w p. (p, exists-absent d f w (down w p))))
          (λ has_done.
            Triple-bind (all_exist cached) _
              (Triple-weaken (all_exist cached) (λ w p. p.0) (all_exist-Keeps cached))
              (λ has_cached.
                Triple-pure (saved == hash && has_done && has_cached)
                  (λ w p. (p.0, ground arith)))))

abbrev pub hash_name : String → String
hash_name name = name <> ".hash"

abbrev pub done_name : String → String
done_name name = name <> ".done"

hash_name-ne : (name : String) → (hash_name name == done_name name) ≡ false
hash_name-ne name = elim (Bool-cases (hash_name name == done_name name)) [
  | inl same ↦ absurd (
      suffixes_differ (
        append_cancel_left name ".hash" ".done"
          ((eq_iff (hash_name name) (done_name name)).0 same)))
  | inr other ↦ other
]
  where
    suffixes_differ : ◌≡◌ {A = String} ".hash" ".done" → ⊥
    suffixes_differ e = ground (arith, eq_iff ".hash" ".done")

done_name-ne : (name : String) → (done_name name == hash_name name) ≡ false
done_name-ne name = ground (
  arith,
  hash_name-ne name,
  eq_iff (hash_name name) (done_name name),
  eq_iff (done_name name) (hash_name name),
)

module _ ⦃env : Env⦄ (name hash : String) (cached : List FilePath) (restore work : Action ⊤)
    (w : World) where
  -- `X` is a fact on the state that the removal of a file does not break. A stage whose done flag is
  -- down, and whose work leaves the flags alone where `X` holds, ends with both flags up for its hash,
  -- or raises with the done flag still down.
  pub cached_stage-Ends :
      (X : World → Type 0)
      → ((p : FilePath) (v : World) → X v → X (set_fs (erase p) v))
      → Triple
          (λ v. AreDown w.context.nochanges_dir (hash_name name) (done_name name) v × X v)
          work
          (λ _. AreDown w.context.nochanges_dir (hash_name name) (done_name name))
          (AreDown w.context.nochanges_dir (hash_name name) (done_name name))
      → IsFlag (w.context.nochanges_dir / hash_name name) w
      → IsAbsent (w.context.nochanges_dir / done_name name) w
      → X w
      → Ends
          (λ _. AreUp w.context.nochanges_dir (hash_name name) (done_name name) hash)
          (IsAbsent (w.context.nochanges_dir / done_name name))
          (cached_stage name hash cached restore work w)
  unfolding cached_stage ◌>>=◌
  cached_stage-Ends X removal keeps p q x =
      let d = w.context.nochanges_dir in
      let h = hash_name name in
      let f = done_name name in
      (Triple-bind {P = λ v. IsFlag (d / h) v × IsAbsent (d / f) v × X v}
          (is_cached (d / h) (d / f) hash cached) _
          (Triple-weaken (is_cached (d / h) (d / f) hash cached) (λ v x. x.1)
            (is_cached-down d h f (λ v. IsFlag (d / h) v × IsAbsent (d / f) v × X v) (λ v x. x.1)
              hash cached))
          (λ b. record { at = λ v x. choose b v x.0.0 x.0.1 x.0.2 x.1 })).at
        w (p, q, x)
    where
      choose :
          (b : Bool) (v : World)
          → IsFlag (w.context.nochanges_dir / hash_name name) v
          → IsAbsent (w.context.nochanges_dir / done_name name) v
          → X v
          → b ≡ false
          → Ends
              (λ _. AreUp w.context.nochanges_dir (hash_name name) (done_name name) hash)
              (IsAbsent (w.context.nochanges_dir / done_name name))
              ((if b
                  then restore_stage name (w.context.nochanges_dir / done_name name) restore
                  else rebuild_stage
                      (w.context.nochanges_dir / hash_name name)
                      (w.context.nochanges_dir / done_name name)
                      hash
                      work)
                v)
      choose true v p q x e = absurd (ground arith)
      choose false v p q x e =
          (rebuild_stage-Ends w.context.nochanges_dir (hash_name name) (done_name name)
              (hash_name-ne name) (done_name-ne name) X removal hash work keeps).at
            v (p, inl q, x)

  -- With both flags up for a hash and the cached files there, the stage restores and does no work.
  pub cached_stage-AreUp :
      IsCompact hash
      → AreUp w.context.nochanges_dir (hash_name name) (done_name name) hash w
      → all_exist cached w ≡ (ok true, w)
      → cached_stage name hash cached restore work w
        ≡ restore_stage name (w.context.nochanges_dir / done_name name) restore w
  unfolding cached_stage ◌>>=◌
  cached_stage-AreUp compact up there = rw (
    is_cached-AreUp w.context.nochanges_dir (hash_name name) (done_name name) (hash_name-ne name)
        (done_name-ne name) hash compact cached true w up there,
    continue,
  )

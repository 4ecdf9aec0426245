-- ===== src/Stages/Cache/Rebuild.antt =====
-- The flags of a compile stage through a rebuild: taken down before the work, and set behind it.
use pronze.Prelude.{
  String, ◌<>◌, ◌≡◌, Bool, false, ◌⊎◌, inl, inr, none, some, List, ◌==◌, string_eq, eq_refl,
  beq_refl,
}
use pronze.Prelude.Texts.Strip.{IsCompact, strip-append_newline}
use pronze.Prelude.Dict.{lookup, insert, erase, lookup-insert, lookup-erase}
use pronze.World.{World, Env, FilePath, ◌/◌, path_eq, Content, text, file}
use pronze.Action.{ok, ⊤, Action, ◌>>=◌}
use pronze.Action.{Triple, Ends, Triple-bind, Triple-weaken, continue}
use pronze.Os.{exists, write, write_text, set_fs}
use pronze.Os.Flags.{
  IsAbsent, Holds, exists-absent, exists-Holds, read_text-Holds, write-absent, remove-Holds,
}
use pronze.Stages.Cache.{remove_if_exists, saved_hash, all_exist, is_cached, rebuild_stage}

-- A flag is a file, or is not there.
abbrev pub IsFlag : FilePath → World → Type 0
IsFlag p w = IsAbsent p w ⊎ ((c : Content) × Holds p c w)

module _ (d : FilePath) (a : String) where
  remove_if_exists-absent :
      (w : World) → IsAbsent (d / a) w → remove_if_exists (d / a) w ≡ (ok tt, w)
  unfolding remove_if_exists exists ◌>>=◌
  remove_if_exists-absent w h = rw (exists-absent d a w h)

  remove_if_exists-Holds :
      (c : Content) (w : World)
      → Holds (d / a) c w
      → remove_if_exists (d / a) w ≡ (ok tt, set_fs (erase (d / a)) w)
  unfolding remove_if_exists exists ◌>>=◌
  remove_if_exists-Holds c w h = rw (exists-Holds d a c w h) (remove-Holds d a c w h)

lookup-erase_ne :
    (d : FilePath) (a b : String) (w : World)
    → (a == b) ≡ false
    → lookup (d / b) (erase (d / a) w.fs) ≡ lookup (d / b) w.fs
lookup-erase_ne d a b w e = rw lookup-erase (rw e)

lookup-insert_ne :
    (d : FilePath) (a b : String) (c : Content) (w : World)
    → (a == b) ≡ false
    → lookup (d / b) (insert (d / a) (file c) w.fs) ≡ lookup (d / b) w.fs
lookup-insert_ne d a b c w e = rw lookup-insert (rw e)

lookup-insert_self :
    (p : FilePath) (c : Content) (w : World) → lookup p (insert p (file c) w.fs) ≡ some (file c)
lookup-insert_self p c w = rw lookup-insert (rw (beq_refl p))

lookup-erase_self : (p : FilePath) (w : World) → lookup p (erase p w.fs) ≡ none
lookup-erase_self p w = rw lookup-erase (rw (beq_refl p))

-- Two flags of one directory, under different names.
abbrev pub AreDown : FilePath → String → String → World → Type 0
AreDown d h f w = IsAbsent (d / h) w × IsAbsent (d / f) w

abbrev pub AreUp : FilePath → String → String → String → World → Type 0
AreUp d h f hash w = Holds (d / h) (text (hash <> "\n")) w × Holds (d / f) (text "OK\n") w

module _ (d : FilePath) (h f : String) (hf : (h == f) ≡ false) (fh : (f == h) ≡ false) where
  -- `X` is what else is known of the state, and the removal of a file does not break it.
  module _ (X : World → Type 0)
      (removal : (p : FilePath) (w : World) → X w → X (set_fs (erase p) w)) where
    take_done_down :
        (w : World)
        → IsFlag (d / h) w
        → IsFlag (d / f) w
        → X w
        → Ends
            (λ _ v. IsFlag (d / h) v × IsAbsent (d / f) v × X v)
            (IsAbsent (d / f))
            (remove_if_exists (d / f) w)
    take_done_down w p (inl q) x = rw (remove_if_exists-absent d f w q) (p, q, x)
    take_done_down w (inl p) (inr (c, q)) x =
        rw (remove_if_exists-Holds d f c w q) (
          inl (rw (lookup-erase_ne d f h w fh) p),
          lookup-erase_self (d / f) w,
          removal (d / f) w x,
        )
    take_done_down w (inr (b, p)) (inr (c, q)) x = rw (remove_if_exists-Holds d f c w q) (
      inr (b, rw (lookup-erase_ne d f h w fh) p),
      lookup-erase_self (d / f) w,
      removal (d / f) w x,
    )

    take_hash_down :
        (w : World)
        → IsFlag (d / h) w
        → IsAbsent (d / f) w
        → X w
        → Ends (λ _ v. AreDown d h f v × X v) (IsAbsent (d / f)) (remove_if_exists (d / h) w)
    take_hash_down w (inl p) q x = rw (remove_if_exists-absent d h w p) ((p, q), x)
    take_hash_down w (inr (c, p)) q x =
        rw (remove_if_exists-Holds d h c w p)
          ((lookup-erase_self (d / h) w, rw (lookup-erase_ne d h f w hf) q), removal (d / h) w x)

  put_hash_up :
      (c : Content) (w : World)
      → IsAbsent (d / h) w
      → IsAbsent (d / f) w
      → Ends (λ _ v. Holds (d / h) c v × IsAbsent (d / f) v) (IsAbsent (d / f)) (write (d / h) c w)
  put_hash_up c w p q = elim (write-absent d h c w p) [
    | inl (e, failed) ↦ rw failed q
    | inr written ↦
        rw written (lookup-insert_self (d / h) c w, rw (lookup-insert_ne d h f c w hf) q)
  ]

  put_done_up :
      (b c : Content) (w : World)
      → Holds (d / h) b w
      → IsAbsent (d / f) w
      → Ends (λ _ v. Holds (d / h) b v × Holds (d / f) c v) (IsAbsent (d / f)) (write (d / f) c w)
  put_done_up b c w p q = elim (write-absent d f c w q) [
    | inl (e, failed) ↦ rw failed q
    | inr written ↦
        rw written (rw (lookup-insert_ne d f h c w fh) p, lookup-insert_self (d / f) c w)
  ]

  -- Work that leaves the two flags alone ends with both of them up, or fails with the done flag down.
  pub rebuild_stage-Ends :
      (X : World → Type 0)
      → ((p : FilePath) (w : World) → X w → X (set_fs (erase p) w))
      → (hash : String) (work : Action ⊤)
      → Triple (λ w. AreDown d h f w × X w) work (λ _. AreDown d h f) (AreDown d h f)
      → ⦃env : Env⦄
      → Triple
          (λ w. IsFlag (d / h) w × IsFlag (d / f) w × X w)
          (rebuild_stage (d / h) (d / f) hash work)
          (λ _. AreUp d h f hash)
          (IsAbsent (d / f))
  unfolding rebuild_stage write_text
  rebuild_stage-Ends X removal hash work keeps =
      Triple-bind (remove_if_exists (d / f)) _
        (record { at = λ w p. take_done_down X removal w p.0 p.1 p.2 })
        (λ _.
          Triple-bind (remove_if_exists (d / h)) _
            (record { at = λ w p. take_hash_down X removal w p.0 p.1 p.2 })
            (λ _. Triple-bind work _ (Triple-weaken work (λ w p. p.1) keeps) (λ _.
              Triple-bind (write (d / h) (text (hash <> "\n"))) _
                (record { at = λ w p. put_hash_up (text (hash <> "\n")) w p.0 p.1 })
                (λ _. record {
                  at = λ w p. put_done_up (text (hash <> "\n")) (text "OK\n") w p.0 p.1;
                }))))

  -- With the flags up for a hash, the cache is valid exactly if the cached files are there.
  pub is_cached-AreUp :
      (hash : String)
      → IsCompact hash
      → (cached : List FilePath) (there : Bool) (w : World) → AreUp d h f hash w
      → all_exist cached w ≡ (ok there, w)
      → is_cached (d / h) (d / f) hash cached w ≡ (ok there, w)
  unfolding is_cached saved_hash exists ◌>>=◌
  is_cached-AreUp hash compact cached there w up all =
      rw (exists-Holds d h (text (hash <> "\n")) w up.0) (
        rw (read_text-Holds d h (hash <> "\n") w up.0) (
          rw (exists-Holds d f (text "OK\n") w up.1)
            (rw (all, continue) (rw (strip-append_newline hash compact) (rw (eq_refl hash))))))

-- ===== src/Portal/Rebuild.antt =====
-- /api/rebuild of `do_POST`: no flag of the cache is left.
use pronze.Prelude.{
  ℕ, ◌+◌, not, String, ◌≡◌, refl, sym, ap, ◌∙◌, Bool, true, false, ◌&&◌, Option, none, some,
  string_eq, arith, if◌then◌else◌, contains,
}
use pronze.Prelude.Dict.{lookup}
use pronze.World.{
  World, Env, FilePath, ◌/◌, path_eq, Fs, Node, children, is_dir, real_path, max_links,
}
use pronze.Action.{
  ⊤, Action, pure, modify, gets, ◌>>=◌, ◌>>◌, for_each, continue, Ends-map, Ends, ok, err, Result,
}
use pronze.Os.{listdir, isdir}
use pronze.Os.Flags.{IsAbsent}
use pronze.Portal.Post.{
  is_cache_flag, clear_flag, clear_cache, do_post, dispatch, request_build, enqueue, ok_reply,
}
use pronze.Portal.Requests.{Request, Answer, reply, error_page, is_password}
use pronze.Portal.Cleared.{IsPlain, children-contains, contradiction, Clearing, all_cleared}

-- The state behind the flags: the queue of builds.
abbrev Queues : ℕ → World → Type 0
Queues n w = w.build_queue ≡ n

listed_or_gone :
    (d : FilePath) (a : String) (fs : Fs) (o : Option Node)
    → lookup (d / a) fs ≡ o
    → contains a (children fs d) ≡ false
    → lookup (d / a) fs ≡ none
listed_or_gone d a fs none e h = e
listed_or_gone d a fs (some n) e h = absurd (contradiction (sym (children-contains d a n fs e) ∙ h))

-- The answer 200, one more build in the queue than in `w`, and no file `a` in the cache.
abbrev pub Rebuilds : World → String → Answer → World → Type 0
Rebuilds w a x v =
    (x ≡ ok_reply) × IsAbsent (w.context.nochanges_dir / a) v × (v.build_queue ≡ w.build_queue + 1)

module _ ⦃env : Env⦄ (w : World) (a : String) (flag : is_cache_flag a ≡ true)
    (there : is_dir w.fs w.context.nochanges_dir ≡ true)
    (plain_dir : real_path max_links w.fs w.context.nochanges_dir ≡ some w.context.nochanges_dir)
    (plain : IsPlain (lookup (w.context.nochanges_dir / a) w.fs)) where
  clear_cache-Ends :
      Ends
        (λ _ v. IsAbsent (w.context.nochanges_dir / a) v × Queues w.build_queue v)
        (λ _. ⊥)
        (clear_cache w)
  unfolding clear_cache listdir isdir gets ◌>>=◌
  clear_cache-Ends =
      let d = w.context.nochanges_dir in
      rw (there, there, plain_dir, continue)
        (Ends-map (λ _. Clearing d a flag (Queues w.build_queue) (λ p v q. q) false)
          (λ _ v. IsAbsent (d / a) v × Queues w.build_queue v) (λ _. ⊥)
          (for_each (children w.fs d) (clear_flag d) w) (λ x v h. (h.1 refl, h.2))
          ((all_cleared d a flag (Queues w.build_queue) (λ p v q. q) (children w.fs d)).at w
            (plain, listed_or_gone d a w.fs (lookup (d / a) w.fs) refl, refl)))

  queued :
      (o : Result ⊤ × World)
      → Ends (λ _ v. IsAbsent (w.context.nochanges_dir / a) v × Queues w.build_queue v) (λ _. ⊥) o
      → Ends (Rebuilds w a) (λ _. ⊥) (continue o.0 (λ _. modify enqueue >> pure ok_reply) o.1)
  unfolding modify pure ◌>>=◌
  queued (ok _, v) h = (refl, h.0, ap (λ n. n + 1) h.1)
  queued (err e, v) h = h

  gate :
      (ready active : Bool) (missing busy go : Action Answer)
      → ready ≡ true
      → active ≡ false
      → Ends (Rebuilds w a) (λ _. ⊥) (go w)
      → Ends
          (Rebuilds w a)
          (λ _. ⊥)
          ((if not ready then missing else if active then busy else go) w)
  gate true false missing busy go r i h = h
  gate true true missing busy go r i h = absurd (ground arith)
  gate false active missing busy go r i h = absurd (ground arith)

  -- Between builds, a POST of /api/rebuild with the password is answered with 200 and puts one build
  -- into the queue, and what stood in the cache under a name that ends in .done or .hash, or under
  -- hashes.json, is gone: where the directory of the cache is there and no link, and what stood there
  -- was no directory.
  pub do_post-rebuilds :
      (r : Request)
      → r.path ≡ "/api/rebuild"
      → is_password w r.password_header ≡ true
      → (w.context_ready && w.pipeline_ready) ≡ true
      → w.build_active ≡ false
      → Ends (Rebuilds w a) (λ _. ⊥) (do_post r w)
  unfolding do_post dispatch request_build gets ◌>>=◌
  do_post-rebuilds r path good ready idle =
      rw (path, good)
        (gate (w.context_ready && w.pipeline_ready) w.build_active (pure (error_page 500))
          (pure (reply 400 "{\"error\": \"Build already active\"}"))
          (clear_cache >> (modify enqueue >> pure ok_reply)) ready idle
          (queued (clear_cache w) clear_cache-Ends))

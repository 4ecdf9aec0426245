-- ===== src/Scheduler/Refines/Post.antt =====
-- `do_POST`, whatever the request.
use pronze.Prelude.{
  ℕ, ◌≡◌, refl, String, Bool, true, false, inl, inr, ◌==◌, string_eq, arith, if◌then◌else◌,
  contains, Bool-cases,
}
use pronze.World.{World, Env}
use pronze.Action.{
  Action, pure, gets, ◌>>=◌, ◌⨾◌, Keeps-gets, Ends, Triple, Keeps, Keeps-pure, Keeps-if,
  keeps_rules,
}
use pronze.Portal.{Request, Answer, is_password, do_post, dispatch, clear_cache, prepare_repackage}
use pronze.Portal.Access.{build_paths, path_cases, not_auth}
use pronze.Portal.Frame.{
  Sees, clear_cache-Keeps, prepare_repackage-Keeps, authenticate-Keeps, clean_workspace-Keeps,
  change_settings-Keeps, start_guest-Keeps, stop_guest-Keeps, send_input-Keeps,
}
use pronze.Scheduler.{Scheduler}
use pronze.Scheduler.Refines.{
  Along, Accepted, Waiting, accepted_by, Settled, Refused, request_build-Triple,
}

-- The builds that a POST has put into the queue, by its answer.
abbrev pub accepted_for : Request → Answer → ℕ
accepted_for r a = if contains r.path build_paths then accepted_by a else 0

other_path :
    (p : String)
    → contains p build_paths ≡ false
    → ((p == "/api/rebuild") ≡ false)
      × ((p == "/api/build") ≡ false)
      × ((p == "/api/repackage") ≡ false)
other_path p h = ground arith

-- the branch of a test that fails
skip-Keeps :
    {P : World → Type 0} (b : Bool) (m n : Action Answer)
    → b ≡ false
    → Keeps P n
    → Keeps P (if b then m else n)
skip-Keeps true m n e k = absurd (ground arith)
skip-Keeps false m n e k = k

module _ ⦃env : Env⦄ (s : Scheduler) where
  build-Triple :
      (r : Request)
      → contains r.path build_paths ≡ true
      → Triple (Refused s) (dispatch r) (Settled s) (Refused s)
  unfolding dispatch
  build-Triple r asks = elim (path_cases r.path asks) [
    | inl e ↦ rw e (request_build-Triple s clear_cache (clear_cache-Keeps (Along s (Waiting s))))
    | inr (inl e) ↦ rw e (request_build-Triple s (pure tt) (Keeps-pure tt))
    | inr (inr e) ↦
        rw e
          (request_build-Triple s prepare_repackage (prepare_repackage-Keeps (Along s (Waiting s))))
  ]

  other-Keeps :
      (V : ℕ → Bool → Type 0) (r : Request)
      → contains r.path build_paths ≡ false
      → Keeps (Sees V) (dispatch r)
  unfolding dispatch
  other-Keeps V r h =
      let (rebuild, build, repackage) = other_path r.path h in
      Keeps-if (r.path == "/api/clean") _ _ (clean_workspace-Keeps V _) (
        Keeps-if (r.path == "/api/fclean") _ _ (clean_workspace-Keeps V _) (
          skip-Keeps (r.path == "/api/rebuild") _ _ rebuild (
            skip-Keeps (r.path == "/api/build") _ _ build (
              skip-Keeps (r.path == "/api/repackage") _ _ repackage (
                search
                  (
                    keeps_rules,
                    change_settings-Keeps V,
                    start_guest-Keeps V,
                    stop_guest-Keeps V,
                    send_input-Keeps V,
                  )
                  depth 20)))))

  other_post-Keeps :
      (V : ℕ → Bool → Type 0) (r : Request)
      → contains r.path build_paths ≡ false
      → Keeps (Sees V) (do_post r)
  unfolding do_post
  other_post-Keeps V r h = Keeps-gets _ ⨾ λ good.
      Keeps-if (r.path == "/api/auth") _ _ (authenticate-Keeps V r.body)
        (Keeps-if good _ _ (other-Keeps V r h) (Keeps-pure _))

  build_post-Triple :
      (r : Request) (w : World)
      → contains r.path build_paths ≡ true
      → Refused s w
      → Ends (Settled s) (Refused s) (do_post r w)
  unfolding do_post gets pure ◌>>=◌
  build_post-Triple r w asks h = elim (Bool-cases (is_password w r.password_header)) [
    | inl good ↦ rw (not_auth r.path asks, good) ((build-Triple r asks).at w h)
    | inr wrong ↦ rw (not_auth r.path asks, wrong) h
  ]

  post_by :
      (r : Request) (w : World) (asks : Bool)
      → contains r.path build_paths ≡ asks
      → Refused s w
      → Ends
          (λ a. Sees (Along s (Accepted s (if asks then accepted_by a else 0))))
          (Refused s)
          (do_post r w)
  post_by r w true e h = build_post-Triple r w e h
  post_by r w false e h = (other_post-Keeps (Along s (Accepted s 0)) r e).at w h

  -- A POST, whatever it asks for and whatever becomes of it, does to the queue what a run of the
  -- scheduler does, in which exactly as many builds are accepted as its answer has accepted: one, for
  -- a request for a build that is answered with 200, and else none.
  pub do_post-refines :
      (r : Request) (w : World)
      → Refused s w
      → Ends (λ a. Sees (Along s (Accepted s (accepted_for r a)))) (Refused s) (do_post r w)
  do_post-refines r w h = post_by r w (contains r.path build_paths) refl h

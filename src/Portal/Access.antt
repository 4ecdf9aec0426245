-- ===== src/Portal/Access.antt =====
-- What the password guards, and the requests for builds while one is active, in `do_POST` and `do_GET`.
use pronze.Prelude.{
  String, ◌≡◌, refl, true, false, ◌&&◌, List, [], ◌∷◌, ◌==◌, string_eq, arith, inl, inr, Bool-cases,
  contains, ◌⊎◌, eq_iff,
}
use pronze.World.{World, Env}
use pronze.Action.{⊤, Action, pure, gets, ◌>>=◌}
use pronze.Portal.Requests.{Request, is_password}
use pronze.Portal.Post.{do_post, dispatch, request_build, clear_cache, prepare_repackage}

abbrev pub build_paths : List String
build_paths = "/api/rebuild" ∷ "/api/build" ∷ "/api/repackage" ∷ []

pub path_cases :
    (p : String)
    → contains p build_paths ≡ true
    → (p ≡ "/api/rebuild") ⊎ (p ≡ "/api/build") ⊎ (p ≡ "/api/repackage")
path_cases p h =
    ground (arith, eq_iff p "/api/rebuild", eq_iff p "/api/build", eq_iff p "/api/repackage")

pub not_auth : (p : String) → contains p build_paths ≡ true → (p == "/api/auth") ≡ false
not_auth p h = elim (path_cases p h) [
  | inl e ↦ rw e refl
  | inr (inl e) ↦ rw e refl
  | inr (inr e) ↦ rw e refl
]

module _ ⦃env : Env⦄ where
  request_build-busy :
      (prepare : Action ⊤) (w : World) → w.build_active ≡ true → (request_build prepare w).1 ≡ w
  unfolding request_build gets pure ◌>>=◌
  request_build-busy prepare w active = elim (Bool-cases (w.context_ready && w.pipeline_ready)) [
    | inl ready ↦ rw (ready, active)
    | inr idle ↦ rw idle
  ]

  dispatch-busy :
      (r : Request) (w : World)
      → contains r.path build_paths ≡ true
      → w.build_active ≡ true
      → (dispatch r w).1 ≡ w
  unfolding dispatch
  dispatch-busy r w asks active = elim (path_cases r.path asks) [
    | inl e ↦ rw e (request_build-busy clear_cache w active)
    | inr (inl e) ↦ rw e (request_build-busy (pure tt) w active)
    | inr (inr e) ↦ rw e (request_build-busy prepare_repackage w active)
  ]

  -- While a build is active, a POST that asks for another one changes nothing: neither the queue nor
  -- the cache nor the mode of the build, whatever password it carries.
  pub do_post-busy :
      (r : Request) (w : World)
      → contains r.path build_paths ≡ true
      → w.build_active ≡ true
      → (do_post r w).1 ≡ w
  unfolding do_post gets pure ◌>>=◌
  do_post-busy r w asks active = elim (Bool-cases (is_password w r.password_header)) [
    | inl good ↦ rw (not_auth r.path asks, good) (dispatch-busy r w asks active)
    | inr wrong ↦ rw (not_auth r.path asks, wrong)
  ]

-- ===== src/Portal/Strangers.antt =====
-- What a client without the password can do to the program, by any sequence of requests to `do_GET`
-- and `do_POST`.
use pronze.Prelude.{
  String, ◌≡◌, refl, Bool, true, false, Option, none, some, List, [], ◌∷◌, ◌++◌, All, ◌==◌,
  string_eq, if◌then◌else◌, arith,
}
use pronze.World.{World, Env}
use pronze.Action.{
  Result, ok, err, Action, pure, gets, modify, ◌>>=◌, Ends, Triple, Triple-bind, Triple-gets,
  Triple-pure,
}
use pronze.Os.{exists}
use pronze.Status.Frame.{IsQuiet, get_state_payload-Keeps}
use pronze.Portal.Requests.{
  Request, Body, Answer, reply, error_page, html, stream, download, broken_off, is_password,
}
use pronze.Portal.Post.{do_post, dispatch, authenticate, ok_reply}
use pronze.Portal.Get.{do_get, open_stream, download_image}

pub data Visit : Type 0 where
  posts gets_page : Request → Visit

abbrev pub IsWrong : String → Option String → Type 0
IsWrong password none = Unit
IsWrong password (some p) = (p == password) ≡ false

-- No password that the request carries is the portal's; /api/auth may carry any in its body.
abbrev pub IsStranger : String → Visit → Type 0
IsStranger password (posts r) = IsWrong password r.password_header
IsStranger password (gets_page r) =
    IsWrong password r.password_header × IsWrong password r.query_password

-- No command was run, no build was queued or begun, and the settings, the guest and the password are
-- as in `w`.
abbrev pub IsKept : World → World → Type 0
IsKept w v =
    (v.commands ≡ w.commands)
    × (v.build_queue ≡ w.build_queue)
    × (v.build_active ≡ w.build_active)
    × (v.context ≡ w.context)
    × (v.qemu_process ≡ w.qemu_process)
    × (v.qemu_display_mode ≡ w.qemu_display_mode)
    × (v.qemu_pull_rate ≡ w.qemu_pull_rate)
    × (v.portal_password ≡ w.portal_password)

-- The disk image was not sent, in whole or in part.
abbrev pub IsImageless : Answer → Type 0
IsImageless (reply code text) = Unit
IsImageless (error_page code) = Unit
IsImageless html = Unit
IsImageless (stream events) = Unit
IsImageless (download c) = ⊥
IsImageless broken_off = ⊥

abbrev pub WithoutImage : Result Answer → Type 0
WithoutImage (ok a) = IsImageless a
WithoutImage (err e) = Unit

module _ ⦃env : Env⦄ where
  unfoldable pub answer : Visit → Action Answer
  answer (posts r) = do_post r
  answer (gets_page r) = do_get r

  -- the answers to some requests, one after the other, and the state behind them
  unfoldable pub browse : List Visit → World → List (Result Answer) × World
  browse [] w = ([], w)
  browse (x ∷ xs) w = let (a, v) = answer x w in let (rest, u) = browse xs v in (a ∷ rest, u)

module _ (w : World) where
  kept-IsQuiet : IsQuiet (IsKept w)
  kept-IsQuiet = record {
    framed = record { files = λ f v h. h; clock = λ n v h. h; ids = λ n v h. h };
    progress = λ d v h. h;
    queues = λ qs v h. h;
  }

  wrong_password :
      (v : World) (o : Option String)
      → IsKept w v
      → IsWrong w.portal_password o
      → is_password v o ≡ false
  unfolding is_password
  wrong_password v none h k = refl
  wrong_password v (some p) h k = rw h.7 k

  abbrev Fends : Action Answer → Type 0
  Fends m = Triple (IsKept w) m (λ a v. IsKept w v × IsImageless a) (IsKept w)

  authenticate-IsImageless :
      (good : Bool)
      → IsImageless (if good then ok_reply else reply 401 "{\"error\": \"Invalid password\"}")
  authenticate-IsImageless true = tt
  authenticate-IsImageless false = tt

  choice : (b : Bool) (m n : Action Answer) → Fends m → Fends n → Fends (if b then m else n)
  choice true m n f g = f
  choice false m n f g = g

  authenticate-Fends : (b : Body) → Fends (authenticate b)
  unfolding authenticate
  authenticate-Fends b =
      Triple-bind _ _ (Triple-gets {Q = λ _. IsKept w} _ (λ v h. h))
        (λ good. Triple-pure _ (λ v h. (h, authenticate-IsImageless good)))

  joined :
      Triple
        (IsKept w)
        (modify (λ v. record v { clients = v.clients ++ ([] ∷ []) }))
        (λ _. IsKept w)
        (IsKept w)
  unfolding modify
  joined = record { at = λ v h. h }

  module _ ⦃env : Env⦄ where
    do_post-Fends : (r : Request) → IsWrong w.portal_password r.password_header → Fends (do_post r)
    unfolding do_post
    do_post-Fends r wrong =
        Triple-bind {R = λ good v. IsKept w v × (good ≡ false)} _ _
          (Triple-gets (λ v. is_password v r.password_header)
            (λ v h. (h, wrong_password v r.password_header h wrong)))
          (λ good. record { at = λ v h. guarded good v h.0 h.1 })
      where
        guarded :
            (good : Bool) (v : World)
            → IsKept w v
            → good ≡ false
            → Ends
                (λ a u. IsKept w u × IsImageless a)
                (IsKept w)
                ((if r.path == "/api/auth"
                    then authenticate r.body
                    else if good
                    then dispatch r
                    else pure (reply 401 "{\"error\": \"Unauthorized\"}"))
                  v)
        guarded true v h e = absurd (ground arith)
        guarded false v h e =
            (choice (r.path == "/api/auth") _ _ (authenticate-Fends r.body)
                (Triple-pure _ (λ u k. (k, tt)))).at
              v h

    open_stream-Fends : Fends open_stream
    unfolding open_stream
    open_stream-Fends = Triple-bind _ _ joined (λ _.
        Triple-bind _ _ (get_state_payload-Keeps kept-IsQuiet.framed) (λ payload.
          Triple-bind _ _ (Triple-gets {Q = λ _. IsKept w} (λ u. u) (λ v h. h))
            (λ u. Triple-pure _ (λ v h. (h, tt)))))

    download_image-Fends :
        (r : Request)
        → IsWrong w.portal_password r.password_header
        → IsWrong w.portal_password r.query_password
        → Fends (download_image r)
    unfolding download_image exists gets pure ◌>>=◌
    download_image-Fends r header query = record {
      at = λ v h.
          rw
            (wrong_password v r.password_header h header, wrong_password v r.query_password h query)
            (h, tt);
    }

    do_get-Fends :
        (r : Request)
        → IsWrong w.portal_password r.password_header
        → IsWrong w.portal_password r.query_password
        → Fends (do_get r)
    unfolding do_get
    do_get-Fends r header query = choice _ _ _ (Triple-pure html (λ v h. (h, tt))) (
        choice _ _ _ open_stream-Fends
          (choice _ _ _ (download_image-Fends r header query) (Triple-pure _ (λ v h. (h, tt)))))

    answer-Fends : (x : Visit) → IsStranger w.portal_password x → Fends (answer x)
    unfolding answer
    answer-Fends (posts r) s = do_post-Fends r s
    answer-Fends (gets_page r) s = do_get-Fends r s.0 s.1

    met :
        (o : Result Answer × World)
        → Ends (λ a v. IsKept w v × IsImageless a) (IsKept w) o
        → IsKept w o.1 × WithoutImage o.0
    met (ok a, v) h = h
    met (err e, v) h = (h, tt)

    after_browse :
        (xs : List Visit) (v : World)
        → All (IsStranger w.portal_password) xs
        → IsKept w v
        → IsKept w (browse xs v).1 × All WithoutImage (browse xs v).0
    unfolding browse
    after_browse [] v s h = (h, tt)
    after_browse (x ∷ xs) v s h =
        let one = met (answer x v) ((answer-Fends x s.0).at v h) in
        let rest = after_browse xs (answer x v).1 s.1 one.0 in (rest.0, (one.1, rest.1))

module _ ⦃env : Env⦄ where
  -- A client that never sends the portal's password in a header or a query, whatever requests it makes
  -- and in whatever order, runs no command, queues and begins no build, changes neither the settings
  -- nor the guest nor the password, and is not sent the disk image.
  pub browse-IsKept :
      (xs : List Visit) (w : World)
      → All (IsStranger w.portal_password) xs
      → IsKept w (browse xs w).1 × All WithoutImage (browse xs w).0
  browse-IsKept xs w s = after_browse w xs w s (refl, refl, refl, refl, refl, refl, refl, refl)

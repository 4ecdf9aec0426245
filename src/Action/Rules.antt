-- ===== src/Action/Rules.antt =====
-- Invariants and postconditions of actions, one rule for each way to build an action.
use pronze.Prelude.{Bool, true, false, List, [], ◌∷◌, if◌then◌else◌}
use pronze.World.{World}
use pronze.Action.Defs.{
  Exn, Result, ok, err, ⊤, Action, pure, raise, gets, ◌>>=◌, continue, handle, try_except, try_pass,
  for_each,
}

-- What an outcome satisfies: `Q` if the call returned, `E` if it raised.
abbrev pub Ends : {A : Type 0} → (A → World → Type 0) → (World → Type 0) → Result A × World → Type 0
Ends Q E (ok a, w) = Q a w
Ends Q E (err e, w) = E w

-- From `P` the call ends in `Q`, or raises and leaves `E`.
pub record Triple {A : Type 0} (P : World → Type 0) (m : Action A) (Q : A → World → Type 0)
    (E : World → Type 0) : Type 0 where
  pub at : (w : World) → P w → Ends Q E (m w)

-- `m` keeps `P`, whether it returns or raises.
abbrev pub Keeps : {A : Type 0} → (World → Type 0) → Action A → Type 0
Keeps P m = Triple P m (λ _. P) P

module _ {A : Type 0} {P : World → Type 0} {Q : A → World → Type 0} {E : World → Type 0} where
  pub Triple-pure : (a : A) → ((w : World) → P w → Q a w) → Triple P (pure a) Q E
  unfolding pure
  Triple-pure a h = record { at = h }

  pub Triple-raise : (e : Exn) → ((w : World) → P w → E w) → Triple P (raise e) Q E
  unfolding raise
  Triple-raise e h = record { at = h }

  pub Triple-gets : (f : World → A) → ((w : World) → P w → Q (f w) w) → Triple P (gets f) Q E
  unfolding gets
  Triple-gets f h = record { at = h }

module _ {A B : Type 0} {R : A → World → Type 0} {Q : B → World → Type 0} {E : World → Type 0} where
  Ends-continue :
      (f : A → Action B) (o : Result A × World)
      → ((a : A) → Triple (R a) (f a) Q E)
      → Ends R E o
      → Ends Q E (continue o.0 f o.1)
  Ends-continue f (ok a, w) kf h = (kf a).at w h
  Ends-continue f (err e, w) kf h = h

module _ {A B : Type 0} {P : World → Type 0} {R : A → World → Type 0} {Q : B → World → Type 0}
    {E : World → Type 0} where
  pub Triple-bind :
      (m : Action A) (f : A → Action B)
      → Triple P m R E
      → ((a : A) → Triple (R a) (f a) Q E)
      → Triple P (m >>= f) Q E
  unfolding ◌>>=◌
  Triple-bind m f km kf = record { at = λ w h. Ends-continue f (m w) kf (km.at w h) }

module _ {A : Type 0} {P : World → Type 0} where
  Ends-handle :
      (f : Exn → Action A) (o : Result A × World)
      → ((e : Exn) → Keeps P (f e))
      → Ends (λ _. P) P o
      → Ends (λ _. P) P (handle o.0 f o.1)
  Ends-handle f (ok a, w) kf h = h
  Ends-handle f (err e, w) kf h = (kf e).at w h

module _ {A : Type 0} {P : World → Type 0} where
  pub Keeps-pure : (a : A) → Keeps P (pure a)
  unfolding pure
  Keeps-pure a = record { at = λ w h. h }

  pub Keeps-raise : (e : Exn) → Keeps P (raise {A = A} e)
  unfolding raise
  Keeps-raise e = record { at = λ w h. h }

  pub Keeps-gets : (f : World → A) → Keeps P (gets f)
  unfolding gets
  Keeps-gets f = record { at = λ w h. h }

  pub Keeps-if : (b : Bool) (m n : Action A) → Keeps P m → Keeps P n → Keeps P (if b then m else n)
  Keeps-if true m n km kn = km
  Keeps-if false m n km kn = kn

  pub Keeps-try :
      (m : Action A) (f : Exn → Action A)
      → Keeps P m
      → ((e : Exn) → Keeps P (f e))
      → Keeps P (try_except m f)
  unfolding try_except
  Keeps-try m f km kf = record { at = λ w h. Ends-handle f (m w) kf (km.at w h) }

module _ {A B : Type 0} {P : World → Type 0} where
  pub Keeps-bind :
      (m : Action A) (f : A → Action B) → Keeps P m → ((a : A) → Keeps P (f a)) → Keeps P (m >>= f)
  Keeps-bind m f km kf = Triple-bind m f km kf

  -- the same, for a chain of rules that is written like the `do` block it is about
  infixr 5 ◌⨾◌
  pub ◌⨾◌ :
      {m : Action A} {f : A → Action B} → Keeps P m → ((a : A) → Keeps P (f a)) → Keeps P (m >>= f)
  ◌⨾◌ {m} {f} km kf = Keeps-bind m f km kf

module _ {A : Type 0} {P : World → Type 0} where
  pub Keeps-for_each :
      (xs : List A) (f : A → Action ⊤) → ((x : A) → Keeps P (f x)) → Keeps P (for_each xs f)
  unfolding for_each
  Keeps-for_each [] f kf = Keeps-pure tt
  Keeps-for_each (x ∷ xs) f kf =
      Keeps-bind (f x) (λ _. for_each xs f) (kf x) (λ _. Keeps-for_each xs f kf)

module _ {A : Type 0} (Q : A → World → Type 0) (E F : World → Type 0) where
  pub Ends-weaken : (o : Result A × World) → ((w : World) → E w → F w) → Ends Q E o → Ends Q F o
  Ends-weaken (ok a, w) h e = e
  Ends-weaken (err x, w) h e = h w e

module _ {A : Type 0} {P : World → Type 0} {Q : A → World → Type 0} {E F : World → Type 0} where
  pub Triple-weaken : (m : Action A) → ((w : World) → E w → F w) → Triple P m Q E → Triple P m Q F
  Triple-weaken m h t = record { at = λ w p. Ends-weaken Q E F (m w) h (t.at w p) }

module _ {A : Type 0} (Q R : A → World → Type 0) (E : World → Type 0) where
  pub Ends-map :
      (o : Result A × World) → ((a : A) (w : World) → Q a w → R a w) → Ends Q E o → Ends R E o
  Ends-map (ok a, w) h e = h a w e
  Ends-map (err x, w) h e = e

module _ {P E : World → Type 0} where
  -- what stands under `try: … except Exception: pass` does not raise
  pub Keeps-tried : (m : Action ⊤) → Keeps P m → Triple P (try_pass m) (λ _. P) E
  unfolding try_except pure
  Keeps-tried m k = record { at = λ w h. caught (m w) (k.at w h) }
    where
      caught :
          (o : Result ⊤ × World)
          → Ends (λ _. P) P o
          → Ends (λ _. P) E (handle o.0 (λ _. pure tt) o.1)
      caught (ok a, w) h = h
      caught (err e, w) h = h

pub ruleset keeps_rules =
    (Keeps-pure, Keeps-raise, Keeps-gets, Keeps-if, Keeps-try, Keeps-bind, Keeps-for_each)

-- ===== src/Action/Defs.antt =====
-- Results, and the monad of the pipeline's functions.
use pronze.Prelude.{String, Bool, List, [], ◌∷◌, if◌then◌else◌}
use pronze.Prelude.Int.{ℤ}
use pronze.World.{World, FilePath}

pub data Exn : Type 0 where
  called_process_error : ℤ → String → String → Exn
  file_not_found : FilePath → Exn
  os_error : String → FilePath → Exn
  key_error : String → Exn
  value_error : String → Exn
  exception : String → Exn

pub data Result (A : Type 0) : Type 0 where
  ok : A → Result A
  err : Exn → Result A

abbrev pub ⊤ : Type 0
⊤ = Unit

abbrev pub Action : Type 0 → Type 0
Action A = World → Result A × World

module _ {A : Type 0} where
  unfoldable pub pure : A → Action A
  pure a w = (ok a, w)

  unfoldable pub raise : Exn → Action A
  raise e w = (err e, w)

  unfoldable pub gets : (World → A) → Action A
  gets f w = (ok (f w), w)

unfoldable pub modify : (World → World) → Action ⊤
modify f w = (ok tt, f w)

module _ {A B : Type 0} where
  abbrev pub continue : Result A → (A → Action B) → Action B
  continue (ok a) f w = f a w
  continue (err e) f w = (err e, w)

  infixl 5 ◌>>=◌ ◌>>◌
  unfoldable pub ◌>>=◌ : Action A → (A → Action B) → Action B
  unfolding pure raise gets modify
  ◌>>=◌ m f w = let (r, v) = m w in continue r f v

  abbrev pub ◌>>◌ : Action A → Action B → Action B
  m >> k = m >>= λ _. k

module _ {A : Type 0} where
  abbrev pub handle : Result A → (Exn → Action A) → Action A
  handle (ok a) f w = (ok a, w)
  handle (err e) f w = f e w

  -- `try: m` with `except Exception as e: f(e)`
  unfoldable pub try_except : Action A → (Exn → Action A) → Action A
  try_except m f w = let (r, v) = m w in handle r f v

-- `try: m` with `except Exception: pass`
abbrev pub try_pass : Action ⊤ → Action ⊤
try_pass m = try_except m (λ _. pure tt)

abbrev pub when : Bool → Action ⊤ → Action ⊤
when b m = if b then m else pure tt

-- `for x in xs: f(x)`
unfoldable pub for_each : {A : Type 0} → List A → (A → Action ⊤) → Action ⊤
for_each [] f = pure tt
for_each (x ∷ xs) f = f x >> for_each xs f

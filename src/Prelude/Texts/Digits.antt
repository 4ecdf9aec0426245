-- ===== src/Prelude/Texts/Digits.antt =====
-- A number is read back from its decimal digits.
use Prim.Native.Nat.{ℕ, zero, suc, ◌+◌, ◌-◌, ◌*◌, ◌/◌, ◌%◌, ◌<◌}
use Prim.Native.Char.{code}
use Prim.Native.String.{String, [] as nil, ◌∷◌ as ◌◂◌, ◌++◌ as ◌<>◌}
use mathlib.Core.Path.{◌≡◌, refl, ap, ◌∙◌}
use mathlib.Core.Logic.{inl, inr}
use mathlib.Core.Bool.{Bool, true, false, ◌&&◌}
use mathlib.Core.Option.{Option, none, some}
use native.Mathlib.Omega.{arith}
use text.Mathlib.TextLemmas.{cons-append, nil-append}
use pronze.Prelude.Tests.{nat_eq, leb, ltb, if◌then◌else◌, Bool-cases}
use pronze.Prelude.Texts.Strip.{IsCompact, IsCompact-append, strip_compact}
use pronze.Prelude.Texts.{digit_text, show_digits, show_nat, parse_digits, parse_nat, strip}

-- A text that has a first character.
abbrev IsCons : String → Type 0
IsCons nil = ⊥
IsCons (c ◂ s) = Unit

-- reading goes on behind the number that was read
abbrev go_on : Option ℕ → String → Option ℕ
go_on none t = none
go_on (some m) t = parse_digits m t

parse_digits-append :
    (acc : ℕ) (s t : String) → parse_digits acc (s <> t) ≡ go_on (parse_digits acc s) t
unfolding parse_digits
parse_digits-append acc nil t = rw nil-append
parse_digits-append acc (c ◂ s) t = rw cons-append (
    by_digit (leb 48 (code c) && leb (code c) 57) (parse_digits (acc * 10 + (code c - 48)) s)
      (parse_digits-append (acc * 10 + (code c - 48)) s t))
  where
    by_digit :
        (b : Bool) {x : Option ℕ} (y : Option ℕ)
        → x ≡ go_on y t
        → (if b then x else none) ≡ go_on (if b then y else none) t
    by_digit true y h = h
    by_digit false y h = refl

parse_digits-digit_text :
    (acc d : ℕ) → d < 10 → parse_digits acc (digit_text d) ≡ some (acc * 10 + d)
unfolding parse_digits
parse_digits-digit_text acc zero h = refl
parse_digits-digit_text acc (suc zero) h = refl
parse_digits-digit_text acc (suc (suc zero)) h = refl
parse_digits-digit_text acc (suc (suc (suc zero))) h = refl
parse_digits-digit_text acc (suc (suc (suc (suc zero)))) h = refl
parse_digits-digit_text acc (suc (suc (suc (suc (suc zero))))) h = refl
parse_digits-digit_text acc (suc (suc (suc (suc (suc (suc zero)))))) h = refl
parse_digits-digit_text acc (suc (suc (suc (suc (suc (suc (suc zero))))))) h = refl
parse_digits-digit_text acc (suc (suc (suc (suc (suc (suc (suc (suc zero)))))))) h = refl
parse_digits-digit_text acc (suc (suc (suc (suc (suc (suc (suc (suc (suc zero))))))))) h = refl
parse_digits-digit_text acc (suc (suc (suc (suc (suc (suc (suc (suc (suc (suc d)))))))))) h =
    absurd (omega arith)

parse_digits-show_digits : (fuel n : ℕ) → n < fuel → parse_digits 0 (show_digits fuel n) ≡ some n
unfolding show_digits
parse_digits-show_digits zero n h = absurd (omega arith)
parse_digits-show_digits (suc fuel) n h = elim (Bool-cases (ltb n 10)) [
  | inl small ↦ rw small (parse_digits-digit_text 0 n (ground arith) ∙ ap some (omega arith))
  | inr big ↦ rw big (
      parse_digits-append 0 (show_digits fuel (n / 10)) (digit_text (n % 10))
      ∙ ap (λ o. go_on o (digit_text (n % 10)))
          (parse_digits-show_digits fuel (n / 10) (ground arith))
      ∙ parse_digits-digit_text (n / 10) (n % 10) (omega arith)
      ∙ ap some (omega arith))
]

digit_text-IsCompact : (d : ℕ) → d < 10 → IsCompact (digit_text d)
digit_text-IsCompact zero h = (refl, tt)
digit_text-IsCompact (suc zero) h = (refl, tt)
digit_text-IsCompact (suc (suc zero)) h = (refl, tt)
digit_text-IsCompact (suc (suc (suc zero))) h = (refl, tt)
digit_text-IsCompact (suc (suc (suc (suc zero)))) h = (refl, tt)
digit_text-IsCompact (suc (suc (suc (suc (suc zero))))) h = (refl, tt)
digit_text-IsCompact (suc (suc (suc (suc (suc (suc zero)))))) h = (refl, tt)
digit_text-IsCompact (suc (suc (suc (suc (suc (suc (suc zero))))))) h = (refl, tt)
digit_text-IsCompact (suc (suc (suc (suc (suc (suc (suc (suc zero)))))))) h = (refl, tt)
digit_text-IsCompact (suc (suc (suc (suc (suc (suc (suc (suc (suc zero))))))))) h = (refl, tt)
digit_text-IsCompact (suc (suc (suc (suc (suc (suc (suc (suc (suc (suc d)))))))))) h =
    absurd (omega arith)

-- digits alone, as a number is printed
show_digits-IsCompact : (fuel n : ℕ) → IsCompact (show_digits fuel n)
unfolding show_digits
show_digits-IsCompact zero n = tt
show_digits-IsCompact (suc fuel) n = elim (Bool-cases (ltb n 10)) [
  | inl small ↦ rw small (digit_text-IsCompact n (ground arith))
  | inr big ↦ rw big (
      IsCompact-append (show_digits fuel (n / 10)) (digit_text (n % 10))
        (show_digits-IsCompact fuel (n / 10)) (digit_text-IsCompact (n % 10) (omega arith)))
]

digit_text-IsCons : (d : ℕ) → d < 10 → IsCons (digit_text d)
digit_text-IsCons zero h = tt
digit_text-IsCons (suc zero) h = tt
digit_text-IsCons (suc (suc zero)) h = tt
digit_text-IsCons (suc (suc (suc zero))) h = tt
digit_text-IsCons (suc (suc (suc (suc zero)))) h = tt
digit_text-IsCons (suc (suc (suc (suc (suc zero))))) h = tt
digit_text-IsCons (suc (suc (suc (suc (suc (suc zero)))))) h = tt
digit_text-IsCons (suc (suc (suc (suc (suc (suc (suc zero))))))) h = tt
digit_text-IsCons (suc (suc (suc (suc (suc (suc (suc (suc zero)))))))) h = tt
digit_text-IsCons (suc (suc (suc (suc (suc (suc (suc (suc (suc zero))))))))) h = tt
digit_text-IsCons (suc (suc (suc (suc (suc (suc (suc (suc (suc (suc d)))))))))) h =
    absurd (omega arith)

IsCons-append : (s t : String) → IsCons t → IsCons (s <> t)
IsCons-append nil t h = rw (nil-append t) h
IsCons-append (c ◂ s) t h = rw (cons-append c s t) tt

show_digits-IsCons : (fuel n : ℕ) → IsCons (show_digits (suc fuel) n)
unfolding show_digits
show_digits-IsCons fuel n = elim (Bool-cases (ltb n 10)) [
  | inl small ↦ rw small (digit_text-IsCons n (ground arith))
  | inr big ↦ rw big (
      IsCons-append (show_digits fuel (n / 10)) (digit_text (n % 10))
        (digit_text-IsCons (n % 10) (omega arith)))
]

parse_nat-parse_digits : (s : String) → IsCons s → parse_nat s ≡ parse_digits 0 s
unfolding parse_nat
parse_nat-parse_digits nil h = absurd h
parse_nat-parse_digits (c ◂ s) h = refl

-- A number is read back from its text.
pub parse_nat-show_nat : (n : ℕ) → parse_nat (strip (show_nat n)) ≡ some n
unfolding show_nat
parse_nat-show_nat n =
    rw (strip_compact (show_digits (suc n) n) (show_digits-IsCompact (suc n) n)) (
      parse_nat-parse_digits (show_digits (suc n) n) (show_digits-IsCons n n)
      ∙ parse_digits-show_digits (suc n) n (omega arith))

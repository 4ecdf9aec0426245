-- ===== src/Prelude/Texts/Count.antt =====
-- How long texts are, and how `prefix` and `suffix_from` cut them.
use Prim.Native.Nat.{ℕ, zero, suc, ◌+◌, ◌-◌}
use Prim.Native.String.{String, [] as nil, ◌∷◌ as ◌◂◌, ◌++◌ as ◌<>◌}
use mathlib.Core.Path.{◌≡◌, refl}
use native.Mathlib.Omega.{arith}
use text.Mathlib.TextLemmas.{cons-append, nil-append}
use pronze.Prelude.Texts.{count_chars, prefix, suffix_from}

pub count_chars-append : (s t : String) → count_chars (s <> t) ≡ count_chars s + count_chars t
unfolding count_chars
count_chars-append nil t = rw nil-append (omega arith)
count_chars-append (c ◂ s) t = rw cons-append (omega (arith, count_chars-append s t))

pub prefix-append-suffix_from : (n : ℕ) (s : String) → prefix n s <> suffix_from n s ≡ s
unfolding prefix suffix_from
prefix-append-suffix_from zero s = rw nil-append
prefix-append-suffix_from (suc n) nil = refl
prefix-append-suffix_from (suc n) (c ◂ s) = rw cons-append (rw (prefix-append-suffix_from n s))

pub count_chars-suffix_from :
    (n : ℕ) (s : String) → count_chars (suffix_from n s) ≡ count_chars s - n
unfolding suffix_from count_chars
count_chars-suffix_from zero s = omega arith
count_chars-suffix_from (suc n) nil = omega arith
count_chars-suffix_from (suc n) (c ◂ s) = omega (arith, count_chars-suffix_from n s)

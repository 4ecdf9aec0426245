-- ===== src/Prelude/Texts.antt =====
-- The methods of Python's `str` that the pipeline calls, on native texts.
pub mod Strip
pub mod Count
pub mod Digits
use Prim.Native.Nat.{ℕ, zero, suc, ◌+◌, ◌-◌, ◌*◌, ◌/◌, ◌%◌}
use Prim.Native.Char.{Char, code}
use Prim.Native.String.{String, [] as nil, ◌∷◌ as ◌◂◌, ◌++◌ as ◌<>◌}
use mathlib.Core.Bool.{Bool, true, false, not, ◌&&◌, ◌||◌}
use mathlib.Core.Option.{Option, none, some}
use mathlib.Core.List.{List, [], ◌∷◌, ◌++◌}
use text.Mathlib.Text.{starts_with}
use pronze.Prelude.Tests.{◌==◌, nat_eq, string_eq, leb, ltb, if◌then◌else◌}

-- An f-string, or `"".join(parts)`.
abbrev pub concat : List String → String
concat [] = ""
concat (s ∷ ss) = s <> concat ss

-- `sep.join(parts)`
abbrev pub join : String → List String → String
join sep [] = ""
join sep (s ∷ []) = s
join sep (s ∷ ss) = s <> (sep <> join sep ss)

-- `c.isspace()` for the ASCII white space
abbrev pub is_space : Char → Bool
is_space c =
    code c == 32 || (leb 9 (code c) && leb (code c) 13) || (leb 28 (code c) && leb (code c) 31)

unfoldable pub lstrip_by : (Char → Bool) → String → String
lstrip_by f nil = nil
lstrip_by f (c ◂ s) = if f c then lstrip_by f s else c ◂ s

-- White space is dropped from the right end: nothing is left of a text that has nothing else.
unfoldable pub rstrip_by : (Char → Bool) → String → String
rstrip_by f nil = nil
rstrip_by f (c ◂ s) = let rest = rstrip_by f s in if f c && rest == nil then nil else c ◂ rest

unfoldable pub strip_by : (Char → Bool) → String → String
unfolding lstrip_by rstrip_by
strip_by f s = rstrip_by f (lstrip_by f s)

-- `s.strip()`
unfoldable pub strip : String → String
unfolding strip_by
strip s = strip_by is_space s

-- `s.strip('"').strip("'")`
unfoldable pub strip_quotes : String → String
unfolding strip_by
strip_quotes s = strip_by (λ c. code c == 39) (strip_by (λ c. code c == 34) s)

-- `s.split(c, 1)` where `c` occurs in `s`
unfoldable pub split_once : ℕ → String → Option (String × String)
split_once n nil = none
split_once n (c ◂ s) =
    if code c == n
    then some (nil, s)
    else elim (split_once n s) [ none ↦ none | some (k, v) ↦ some (c ◂ k, v) ]

abbrev pub cons_head : Char → List String → List String
cons_head c [] = (c ◂ nil) ∷ []
cons_head c (s ∷ ss) = (c ◂ s) ∷ ss

-- `s.split(c)`
unfoldable pub split : ℕ → String → List String
split n nil = nil ∷ []
split n (c ◂ s) = let rest = split n s in if code c == n then nil ∷ rest else cons_head c rest

-- the lines of a text file, without their ends
unfoldable pub lines : String → List String
unfolding split
lines s = split 10 s

unfoldable pub count_chars : String → ℕ
count_chars nil = 0
count_chars (c ◂ s) = suc (count_chars s)

-- `s[:n]`
unfoldable pub prefix : ℕ → String → String
prefix zero s = nil
prefix (suc n) nil = nil
prefix (suc n) (c ◂ s) = c ◂ prefix n s

-- `s[n:]`
unfoldable pub suffix_from : ℕ → String → String
suffix_from zero s = s
suffix_from (suc n) nil = nil
suffix_from (suc n) (c ◂ s) = suffix_from n s

-- `s.endswith(t)`
unfoldable pub ends_with : String → String → Bool
ends_with nil t = t == nil
ends_with (c ◂ s) t = (c ◂ s) == t || ends_with s t

-- `t in s`
unfoldable pub has_part : String → String → Bool
has_part nil t = t == nil
has_part (c ◂ s) t = starts_with (c ◂ s) t || has_part s t

abbrev pub digit_text : ℕ → String
digit_text n =
    if n == 0
    then "0"
    else if n == 1
    then "1"
    else if n == 2
    then "2"
    else if n == 3
    then "3"
    else if n == 4
    then "4"
    else if n == 5
    then "5"
    else if n == 6
    then "6"
    else if n == 7
    then "7"
    else if n == 8
    then "8"
    else "9"

unfoldable pub show_digits : ℕ → ℕ → String
show_digits zero n = ""
show_digits (suc fuel) n =
    let front = show_digits fuel (n / 10) in
    if ltb n 10 then digit_text n else front <> digit_text (n % 10)

-- `str(n)`: a number has no more digits than one more than itself.
unfoldable pub show_nat : ℕ → String
unfolding show_digits
show_nat n = show_digits (suc n) n

unfoldable pub parse_digits : ℕ → String → Option ℕ
parse_digits acc nil = some acc
parse_digits acc (c ◂ s) =
    let rest = parse_digits (acc * 10 + (code c - 48)) s in
    if leb 48 (code c) && leb (code c) 57 then rest else none

-- `int(s)` of a text of decimal digits, the only numbers that the pipeline writes to a file
unfoldable pub parse_nat : String → Option ℕ
unfolding parse_digits
parse_nat nil = none
parse_nat (c ◂ s) = parse_digits 0 (c ◂ s)

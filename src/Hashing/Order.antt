-- ===== src/Hashing/Order.antt =====
-- The hash of a directory does not depend on the order in which `os.walk` finds the files.
use Prim.Native.Char.{Char, code}
use Prim.Native.String.{[] as nil, ◌∷◌ as ◌◂◌}
use text.Mathlib.TextEquality.{Char-path}
use pronze.Prelude.{
  String, ◌≡◌, ◌≢◌, refl, sym, ◌∙◌, ap, true, false, ◌⊎◌, inl, inr, List, [], ◌∷◌, ◌++◌, arith,
  Bool-cases, All,
}
use pronze.Hashing.{Hashed, text_leb, insert_hashed, sort_hashed}

text_leb_total : (s t : String) → (text_leb s t ≡ true) ⊎ (text_leb t s ≡ true)
unfolding text_leb
text_leb_total nil t = inl refl
text_leb_total (c ◂ s) nil = inr refl
text_leb_total (c ◂ s) (d ◂ t) = ground (arith, text_leb_total s t)

same_char : (c d : Char) (s t : String) → code c ≡ code d → s ≡ t → c ◂ s ≡ d ◂ t
same_char c d s t e f = ap (λ x. x ◂ s) (Char-path c d e) ∙ ap (λ x. d ◂ x) f

text_leb_antisym : (s t : String) → text_leb s t ≡ true → text_leb t s ≡ true → s ≡ t
unfolding text_leb
text_leb_antisym nil nil h k = refl
text_leb_antisym nil (d ◂ t) h k = absurd (ground arith)
text_leb_antisym (c ◂ s) nil h k = absurd (ground arith)
text_leb_antisym (c ◂ s) (d ◂ t) h k =
    same_char c d s t (ground arith) (text_leb_antisym s t (ground arith) (ground arith))

text_leb_trans : (s t u : String) → text_leb s t ≡ true → text_leb t u ≡ true → text_leb s u ≡ true
unfolding text_leb
text_leb_trans nil t u h k = refl
text_leb_trans (c ◂ s) nil u h k = absurd (ground arith)
text_leb_trans (c ◂ s) (d ◂ t) nil h k = absurd (ground arith)
text_leb_trans (c ◂ s) (d ◂ t) (e ◂ u) h k = ground (arith, text_leb_trans s t u)

one_way :
    (s t : String)
    → s ≢ t
    → ((text_leb s t ≡ true) × (text_leb t s ≡ false))
      ⊎ ((text_leb s t ≡ false) × (text_leb t s ≡ true))
one_way s t ne = elim (Bool-cases (text_leb s t)) [
  | inl up ↦ elim (Bool-cases (text_leb t s)) [
    | inl down ↦ absurd (ne (text_leb_antisym s t up down))
    | inr not_down ↦ inl (up, not_down)
  ]
  | inr not_up ↦ inr (not_up, ground (arith, text_leb_total s t))
]

-- One step of the insertion, on a known comparison.
insert_hashed-front :
    (a c : Hashed) (l : List Hashed) → text_leb a.0 c.0 ≡ true → insert_hashed a (c ∷ l) ≡ a ∷ c ∷ l
unfolding insert_hashed
insert_hashed-front a c l h = rw h

insert_hashed-behind :
    (a c : Hashed) (l : List Hashed)
    → text_leb a.0 c.0 ≡ false
    → insert_hashed a (c ∷ l) ≡ c ∷ insert_hashed a l
unfolding insert_hashed
insert_hashed-behind a c l h = rw h

-- An entry in front of both, and one that is not, meet in the same list.
passes :
    (a b c : Hashed) (l : List Hashed)
    → text_leb b.0 c.0 ≡ true
    → text_leb a.0 c.0 ≡ false
    → insert_hashed a (insert_hashed b (c ∷ l)) ≡ insert_hashed b (insert_hashed a (c ∷ l))
passes a b c l bc ac = rw (
  insert_hashed-front b c l bc,
  insert_hashed-behind a c l ac,
  insert_hashed-front b c (insert_hashed a l) bc,
  insert_hashed-behind a b (c ∷ l) after,
  insert_hashed-behind a c l ac,
)
  where
    after : text_leb a.0 b.0 ≡ false
    after = elim (Bool-cases (text_leb a.0 b.0)) [
      | inl ab ↦ absurd (clash (text_leb_trans a.0 b.0 c.0 ab bc))
      | inr ba ↦ ba
    ]
      where
        clash : text_leb a.0 c.0 ≡ true → ⊥
        clash e = ground arith

pair_up :
    (x y : Hashed)
    → text_leb x.0 y.0 ≡ true
    → text_leb y.0 x.0 ≡ false
    → insert_hashed x (insert_hashed y []) ≡ insert_hashed y (insert_hashed x [])
unfolding insert_hashed
pair_up x y up down = rw (up, down)

both_front :
    (x y c : Hashed) (l : List Hashed)
    → text_leb x.0 c.0 ≡ true
    → text_leb y.0 c.0 ≡ true
    → text_leb x.0 y.0 ≡ true
    → text_leb y.0 x.0 ≡ false
    → insert_hashed x (insert_hashed y (c ∷ l)) ≡ insert_hashed y (insert_hashed x (c ∷ l))
both_front x y c l xc yc up down = rw (
  insert_hashed-front y c l yc,
  insert_hashed-front x c l xc,
  insert_hashed-front x y (c ∷ l) up,
  insert_hashed-behind y x (c ∷ l) down,
  insert_hashed-front y c l yc,
)

-- Two entries with different paths are inserted in either order.
insert_hashed_swap :
    (a b : Hashed) (l : List Hashed)
    → a.0 ≢ b.0
    → insert_hashed a (insert_hashed b l) ≡ insert_hashed b (insert_hashed a l)
insert_hashed_swap a b [] ne = elim (one_way a.0 b.0 ne) [
  | inl e ↦ pair_up a b e.0 e.1
  | inr e ↦ sym (pair_up b a e.1 e.0)
]
insert_hashed_swap a b (c ∷ l) ne = elim (Bool-cases (text_leb b.0 c.0)) [
  | inl bc ↦ elim (Bool-cases (text_leb a.0 c.0)) [
    | inl ac ↦ elim (one_way a.0 b.0 ne) [
      | inl e ↦ both_front a b c l ac bc e.0 e.1
      | inr e ↦ sym (both_front b a c l bc ac e.1 e.0)
    ]
    | inr ac ↦ passes a b c l bc ac
  ]
  | inr bc ↦ elim (Bool-cases (text_leb a.0 c.0)) [
    | inl ac ↦ sym (passes b a c l ac bc)
    | inr ac ↦ rw (
      insert_hashed-behind a c l ac,
      insert_hashed-behind b c l bc,
      insert_hashed-behind a c (insert_hashed b l) ac,
      insert_hashed-behind b c (insert_hashed a l) bc,
      insert_hashed_swap a b l ne,
    )
  ]
]

-- two neighbours exchanged, anywhere in the list
sort_hashed_swap :
    (front : List Hashed) (a b : Hashed) (back : List Hashed)
    → a.0 ≢ b.0
    → sort_hashed (front ++ (a ∷ b ∷ back)) ≡ sort_hashed (front ++ (b ∷ a ∷ back))
unfolding sort_hashed
sort_hashed_swap [] a b back ne = insert_hashed_swap a b (sort_hashed back) ne
sort_hashed_swap (x ∷ front) a b back ne = ap (insert_hashed x) (sort_hashed_swap front a b back ne)

-- No entry of the list stands in front of one with a lesser path.
abbrev pub IsSorted : List Hashed → Type 0
IsSorted [] = Unit
IsSorted (a ∷ l) = All (λ b. text_leb a.0 b.0 ≡ true) l × IsSorted l

insert_hashed-All :
    (p a : Hashed) (l : List Hashed)
    → text_leb p.0 a.0 ≡ true
    → All (λ b. text_leb p.0 b.0 ≡ true) l
    → All (λ b. text_leb p.0 b.0 ≡ true) (insert_hashed a l)
unfolding insert_hashed
insert_hashed-All p a [] h all = (h, tt)
insert_hashed-All p a (c ∷ l) h all = elim (Bool-cases (text_leb a.0 c.0)) [
  | inl ac ↦ rw ac (h, all)
  | inr ca ↦ rw ca (all.0, insert_hashed-All p a l h all.1)
]

All-leb :
    (a c : Hashed) (l : List Hashed)
    → text_leb a.0 c.0 ≡ true
    → All (λ b. text_leb c.0 b.0 ≡ true) l
    → All (λ b. text_leb a.0 b.0 ≡ true) l
All-leb a c [] h all = tt
All-leb a c (b ∷ l) h all = (text_leb_trans a.0 c.0 b.0 h all.0, All-leb a c l h all.1)

insert_hashed-IsSorted : (a : Hashed) (l : List Hashed) → IsSorted l → IsSorted (insert_hashed a l)
unfolding insert_hashed
insert_hashed-IsSorted a [] h = (tt, tt)
insert_hashed-IsSorted a (c ∷ l) h = elim (Bool-cases (text_leb a.0 c.0)) [
  | inl ac ↦ rw ac ((ac, All-leb a c l ac h.0), h)
  | inr ca ↦ rw ca (
    insert_hashed-All c a l (ground (arith, text_leb_total a.0 c.0)) h.0,
    insert_hashed-IsSorted a l h.1,
  )
]

sort_hashed-IsSorted : (l : List Hashed) → IsSorted (sort_hashed l)
unfolding sort_hashed
sort_hashed-IsSorted [] = tt
sort_hashed-IsSorted (a ∷ l) = insert_hashed-IsSorted a (sort_hashed l) (sort_hashed-IsSorted l)

-- Two listings of the same files, which `os.walk` may give in any order: neighbours with different
-- paths are exchanged, some times.
pub data Relisted : List Hashed → List Hashed → Type 0 where
  same : {l : List Hashed} → Relisted l l
  exchange :
      (front : List Hashed) (a b : Hashed) (back : List Hashed) {m : List Hashed}
      → a.0 ≢ b.0
      → Relisted (front ++ (b ∷ a ∷ back)) m
      → Relisted (front ++ (a ∷ b ∷ back)) m

-- Two listings of the same files, whose paths all differ, are sorted into the same list, in which no
-- entry stands in front of one with a lesser path: the text that is hashed for a directory does not
-- depend on the order in which its files are found.
pub sort_hashed-Relisted :
    {l m : List Hashed} → Relisted l m → (sort_hashed l ≡ sort_hashed m) × IsSorted (sort_hashed m)
sort_hashed-Relisted {l} same = (refl, sort_hashed-IsSorted l)
sort_hashed-Relisted (exchange front a b back ne r) =
    let (equal, sorted) = sort_hashed-Relisted r in
    (sort_hashed_swap front a b back ne ∙ equal, sorted)

-- ===== src/Report/Changes.antt =====
-- What the report of changes says, and what it leaves out.
use pronze.Prelude.{
  String, ◌≡◌, refl, ◌↔◌, Bool, true, false, Option, some, List, [], ◌∷◌, ◌==◌, string_eq, eq_iff,
  if◌then◌else◌, All, ap, arith, sym, ◌∙◌, get_or_else, any, ◌||◌,
}
use pronze.Prelude.Dict.{Dict, lookup, insert, lookup-insert}
use pronze.World.{Change}
use pronze.Report.Hashes.{changes, components, hash_of}

cons_iff :
    (b : Bool) (x : Change) (more : List Change) (S R : Type 0)
    → ((b ≡ true) ↔ S)
    → ((more ≡ []) ↔ R)
    → ((if b then more else x ∷ more) ≡ []) ↔ (S × R)
cons_iff true x more S R s r = (λ h. (s.0 refl, r.0 h), λ p. r.1 p.1)
cons_iff false x more S R s r = (λ h. absurd (ground arith), λ p. absurd (never (s.1 p.0)))
  where
    never : false ≡ true → ⊥
    never e = ground arith

-- The report is empty exactly where every input that it is asked about has the hash of the last build.
pub changes-none :
    (old new : Dict String String) (asked : List (String × String))
    → (changes old new asked ≡ []) ↔ All (λ c. hash_of c.0 old ≡ hash_of c.0 new) asked
unfolding changes
changes-none old new [] = (λ _. tt, λ _. refl)
changes-none old new ((key, name) ∷ asked) =
    cons_iff (hash_of key old == hash_of key new) _ _ _ _
      (eq_iff (hash_of key old) (hash_of key new)) (changes-none old new asked)

unlisted :
    (h : String) (d : Dict String String) (asked : List (String × String))
    → any (λ c. "config_setup_dir" == c.0) asked ≡ false
    → All (λ c. hash_of c.0 d ≡ hash_of c.0 (insert "config_setup_dir" h d)) asked
unlisted h d [] others = tt
unlisted h d ((key, name) ∷ asked) others = (
  ap (λ o. get_or_else o "")
      (sym (
        lookup-insert "config_setup_dir" key h d
        ∙ if_other ("config_setup_dir" == key) _ (some h) (lookup key d) others)),
  unlisted h d asked (ground arith),
)
  where
    if_other : (b c : Bool) (x y : Option String) → (b || c) ≡ false → (if b then x else y) ≡ y
    if_other true c x y e = absurd (ground arith)
    if_other false c x y e = refl

-- A new hash of configuration_setup alone is not reported: the report then has no change at all,
-- though that hash is one of the inputs of the master hash.
pub changes-config_setup :
    (h : String) (d : Dict String String)
    → changes d (insert "config_setup_dir" h d) components ≡ []
changes-config_setup h d =
    (changes-none d (insert "config_setup_dir" h d) components).1 (unlisted h d components refl)

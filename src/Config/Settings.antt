-- ===== src/Config/Settings.antt =====
-- Which line of a file decides: the last one in pipeline.conf, the first one in .env.
use pronze.Prelude.{
  String, ◌≡◌, refl, ◌∙◌, ap, Bool, true, false, Option, none, some, List, [], ◌∷◌, ◌==◌, string_eq,
  if◌then◌else◌,
}
use pronze.Prelude.Dict.{Dict, lookup, lookup-insert}
use pronze.Config.{setting, apply_setting, read_settings}

abbrev value_for : String → Option (String × String) → Option String
value_for key none = none
value_for key (some (k, v)) = if k == key then some v else none

abbrev pub or_else : Option String → Option String → Option String
or_else (some v) o = some v
or_else none o = o

-- The value of the last line that sets a key.
unfoldable pub last_value : String → List String → Option String
last_value key [] = none
last_value key (l ∷ ls) = or_else (last_value key ls) (value_for key (setting l))

-- The value of the first line that sets a key.
unfoldable pub first_value : String → List String → Option String
first_value key [] = none
first_value key (l ∷ ls) = or_else (value_for key (setting l)) (first_value key ls)

or_else_assoc : (a b c : Option String) → or_else a (or_else b c) ≡ or_else (or_else a b) c
or_else_assoc none b c = refl
or_else_assoc (some v) b c = refl

lookup-apply_setting :
    (key : String) (o : Option (String × String)) (d : Dict String String)
    → lookup key (apply_setting o d) ≡ or_else (value_for key o) (lookup key d)
lookup-apply_setting key none d = refl
lookup-apply_setting key (some (k, v)) d = lookup-insert k key v d ∙ by_key (k == key)
  where
    by_key :
        (b : Bool)
        → (if b then some v else lookup key d) ≡ or_else (if b then some v else none) (lookup key d)
    by_key true = refl
    by_key false = refl

-- A key read from the lines of pipeline.conf has the value of the last line that sets it, and keeps
-- the value that it had before where no line does; lines that set nothing do not matter.
pub lookup-read_settings :
    (key : String) (ls : List String) (d : Dict String String)
    → lookup key (read_settings ls d) ≡ or_else (last_value key ls) (lookup key d)
unfolding read_settings last_value
lookup-read_settings key [] d = refl
lookup-read_settings key (l ∷ ls) d =
    lookup-read_settings key ls (apply_setting (setting l) d)
    ∙ ap (or_else (last_value key ls)) (lookup-apply_setting key (setting l) d)
    ∙ or_else_assoc (last_value key ls) (value_for key (setting l)) (lookup key d)

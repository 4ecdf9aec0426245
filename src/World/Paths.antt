-- ===== src/World/Paths.antt =====
-- Absolute paths, as their components; `a / b` is `os.path.join(a, b)` at one component `b`.
use pronze.Prelude.Texts.{concat}
use pronze.Prelude.{
  String, ◌≡◌, ◌↔◌, Bool, true, false, ◌&&◌, Option, none, some, List, [], ◌∷◌, ◌++◌, Eq, ◌==◌,
  string_eq, arith, eq_iff, if◌then◌else◌,
}

infixl 70 ◌/◌
pub data FilePath : Type 0 where
  root : FilePath
  ◌/◌ : FilePath → String → FilePath

abbrev pub path_beq : FilePath → FilePath → Bool
path_beq root root = true
path_beq (p / a) (q / b) = a == b && path_beq p q
path_beq _ _ = false

pub path_beq_iff : (p q : FilePath) → (path_beq p q ≡ true) ↔ (p ≡ q)
path_beq_iff root root = ground arith
path_beq_iff root (q / b) = ground arith
path_beq_iff (p / a) root = ground arith
path_beq_iff (p / a) (q / b) = ground (arith, path_beq_iff p q, eq_iff a b)

instance abbrev pub path_eq : Eq FilePath
path_eq = record { same = path_beq; same_iff = path_beq_iff }

-- The text of a path.
unfoldable pub show_path : FilePath → String
show_path root = ""
show_path (p / a) = concat (show_path p ∷ "/" ∷ a ∷ [])

-- `os.path.join(p, "a/b/…")`, the components given one by one.
abbrev pub join_path : FilePath → List String → FilePath
join_path p [] = p
join_path p (a ∷ rest) = join_path (p / a) rest

-- `os.path.basename`
abbrev pub basename : FilePath → String
basename root = ""
basename (p / a) = a

-- `os.path.dirname`
abbrev pub dirname : FilePath → FilePath
dirname root = root
dirname (p / a) = p

-- The components of `p` below the directory `d`, as `os.path.relpath(p, d)` gives them.
unfoldable pub relative_to : FilePath → FilePath → Option (List String)
relative_to d root = if path_beq d root then some [] else none
relative_to d (p / a) =
    let deeper = relative_to d p in
    if path_beq d (p / a)
    then some []
    else elim deeper [ none ↦ none | some parts ↦ some (parts ++ (a ∷ [])) ]

-- The names of the directories on the way to `p`.
abbrev pub dir_names : FilePath → List String
dir_names root = []
dir_names (root / a) = []
dir_names (p / b / a) = b ∷ dir_names (p / b)

-- ===== src/World/Files.antt =====
-- A file system: files, directories and symbolic links by their absolute paths. The JSON documents
-- that the pipeline writes are kept as the values that they encode.
use pronze.Prelude.{
  ℕ, zero, suc, String, Bool, true, false, Option, none, some, List, [], ◌∷◌, ◌==◌, if◌then◌else◌,
  is_some, not,
}
use pronze.Prelude.Int.{ℤ}
use pronze.Prelude.Dict.{Dict, lookup}
use pronze.World.Paths.{FilePath, root, ◌/◌, path_eq, join_path, relative_to, dirname}

-- One stage's entry in .archive/stage_builds.json.
pub record StageBuild : Type 0 where
  pub build_number : ℕ
  pub uuid : String
  pub status : String
  pub timestamp : ℤ

-- .archive/stats.json
pub record BuildStats : Type 0 where
  pub total_builds : ℕ
  pub successful_builds : ℕ
  pub failed_builds : ℕ

-- A meta.json beside archived files; `subject` is its "module" or its "target".
pub record Meta : Type 0 where
  pub uuid : String
  pub build_number : ℕ
  pub subject : String
  pub version : String
  pub timestamp : ℤ
  pub files : List String
  pub versions : Dict String String

pub data Content : Type 0 where
  text : String → Content
  stage_builds : Dict String StageBuild → Content
  build_stats : BuildStats → Content
  hashes : Dict String String → Content
  meta : Meta → Content

-- Where a symbolic link leads: from the directory that holds it, or from the root.
pub data Target : Type 0 where
  relative absolute : List String → Target

pub data Node : Type 0 where
  file : Content → Node
  dir : Node
  symlink : Target → Node

abbrev pub Fs : Type 0
Fs = Dict FilePath Node

abbrev pub target_path : FilePath → Target → FilePath
target_path at (relative names) = join_path (dirname at) names
target_path at (absolute names) = join_path root names

-- What a path leads to, through at most `n` links, as a Linux kernel follows 40.
abbrev pub entry_at : Fs → FilePath → Option Node
entry_at fs root = some dir
entry_at fs (p / a) = lookup (p / a) fs

unfoldable pub follow : ℕ → Fs → FilePath → Option Node
follow zero fs p = none
follow (suc n) fs p = elim (entry_at fs p) [
  | none ↦ none
  | some (file c) ↦ some (file c)
  | some dir ↦ some dir
  | some (symlink t) ↦ follow n fs (target_path p t)
]

-- where the links of an entry at `p` end, by where those of another path do
abbrev pub end_at : (FilePath → Option FilePath) → FilePath → Option Node → Option FilePath
end_at deeper p none = some p
end_at deeper p (some (file c)) = some p
end_at deeper p (some dir) = some p
end_at deeper p (some (symlink t)) = deeper (target_path p t)

-- The path at the end of those links, whether or not something stands there.
unfoldable pub real_path : ℕ → Fs → FilePath → Option FilePath
real_path zero fs p = none
real_path (suc n) fs p = end_at (real_path n fs) p (entry_at fs p)

abbrev pub max_links : ℕ
max_links = 40

abbrev is_dir_node : Option Node → Bool
is_dir_node (some dir) = true
is_dir_node _ = false

abbrev is_file_node : Option Node → Bool
is_file_node (some (file _)) = true
is_file_node _ = false

abbrev is_link_node : Option Node → Bool
is_link_node (some (symlink _)) = true
is_link_node _ = false

-- `os.path.exists`, `isdir`, `isfile`, `islink`
unfoldable pub path_exists : Fs → FilePath → Bool
unfolding follow
path_exists fs p = is_some (follow max_links fs p)

unfoldable pub is_dir : Fs → FilePath → Bool
unfolding follow
is_dir fs p = is_dir_node (follow max_links fs p)

unfoldable pub is_file : Fs → FilePath → Bool
unfolding follow
is_file fs p = is_file_node (follow max_links fs p)

unfoldable pub is_link : Fs → FilePath → Bool
is_link fs p = is_link_node (lookup p fs)

-- `os.listdir`: the names right below a directory
unfoldable pub children : Fs → FilePath → List String
children [] d = []
children ((root, _) ∷ fs) d = children fs d
children ((p / a, _) ∷ fs) d = let rest = children fs d in if p == d then a ∷ rest else rest

-- `shutil.rmtree`: the directory and all below it
unfoldable pub erase_tree : Fs → FilePath → Fs
unfolding relative_to
erase_tree [] d = []
erase_tree ((p, node) ∷ fs) d =
    let rest = erase_tree fs d in if is_some (relative_to d p) then rest else (p, node) ∷ rest

-- A name that `os.walk` meets, with its components below the start.
pub record Walked : Type 0 where
  pub path : FilePath
  pub parts : List String

abbrev is_leaf : Fs → FilePath × Node → Bool
is_leaf fs (p, file c) = true
is_leaf fs (p, dir) = false
is_leaf fs (p, symlink t) = not (is_dir_node (follow max_links fs p))

abbrev walk_entry : Fs → FilePath → FilePath × Node → Option Walked
walk_entry fs d (p, node) =
    if is_leaf fs (p, node)
    then elim (relative_to d p) [
      | none ↦ none
      | some parts ↦ some (record { path = p; parts = parts })
    ]
    else none

abbrev walk_from : Fs → Fs → FilePath → List Walked
walk_from all [] d = []
walk_from all (e ∷ fs) d =
    let rest = walk_from all fs d in elim (walk_entry all d e) [ none ↦ rest | some x ↦ x ∷ rest ]

-- The files that `os.walk(d)` lists, links to directories not followed.
unfoldable pub walk : Fs → FilePath → List Walked
unfolding relative_to follow
walk fs d = walk_from fs fs d

-- ===== src/Hashing.antt =====
-- "Hashing Utilities" of build-pipeline/common.py: hashes of files and directories, and the counts of
-- the files to compile.
pub mod Reads
pub mod Chunks
pub mod Order
use pronze.Prelude.{
  ℕ, zero, suc, ◌+◌, String, ◌<>◌, Bool, true, false, not, ◌&&◌, ◌||◌, Option, none, some, List, [],
  ◌∷◌, ◌++◌, ◌==◌, string_eq, if◌then◌else◌, any, contains, length, keep_if, ltb, nat_beq,
}
use Prim.Native.Char.{code}
use text.Mathlib.Text.{starts_with}
use pronze.Prelude.Texts.{concat, join, ends_with, prefix, suffix_from, count_chars}
use pronze.World.{World, Env, FilePath, ◌/◌, dir_names, basename, Content, Walked, walk, Fs}
use pronze.Action.{Exn, Action, ok, err, Result, pure, gets, ◌>>=◌, ◌>>◌, try_except, ⊤}
use pronze.Os.{exists, isdir, isfile, read}

abbrev pub chunk_size : ℕ
chunk_size = 65536

-- The loop of `get_file_hash`: `seen` is what `h` was fed. A round reads a chunk of `n` characters
-- and stops at an empty one.
unfoldable pub hash_chunks : ℕ → ℕ → String → String → String
unfolding prefix suffix_from
hash_chunks zero n seen rest = seen
hash_chunks (suc fuel) n seen rest =
    let chunk = prefix n rest in
    let more = hash_chunks fuel n (seen <> chunk) (suffix_from n rest) in
    if chunk == "" then seen else more

abbrev ignored_dirs : List String
ignored_dirs = "target" ∷ ".tmp_versions" ∷ "__pycache__" ∷ []

-- the filter on `dirs`, with the names that it leaves out
unfoldable pub keeps_dir : List String → String → Bool
keeps_dir ignored d = not (starts_with d ".") && not (contains d ignored)

-- `name.endswith((…))`
unfoldable pub ends_with_any : List String → String → Bool
unfolding ends_with
ends_with_any suffixes name = any (ends_with name) suffixes

abbrev artefact_suffixes : List String
artefact_suffixes =
    ".o" ∷ ".ko" ∷ ".mod" ∷ ".mod.c" ∷ ".o.d" ∷ ".so" ∷ ".img" ∷ "modules.order" ∷ "Module.symvers"
    ∷ ".pyc" ∷ []

abbrev test_binaries : List String
test_binaries = "test_alloc" ∷ "test_bounds" ∷ "test_zig" ∷ "test_rust" ∷ []

-- All but the last: the directories on the way.
abbrev pub init_of : List String → List String
init_of [] = []
init_of (a ∷ []) = []
init_of (a ∷ b ∷ rest) = a ∷ init_of (b ∷ rest)

abbrev all_kept : List String → List String → Bool
all_kept ignored [] = true
all_kept ignored (d ∷ ds) = keeps_dir ignored d && all_kept ignored ds

-- Whether `get_dir_hash` looks at a file: the pruning of `dirs`, then the four tests on the file.
unfoldable pub is_hashed : Walked → Bool
unfolding keeps_dir ends_with_any
is_hashed x =
    let name = basename x.path in
    all_kept ignored_dirs (init_of x.parts)
    && not (starts_with name ".")
    && not (ends_with_any artefact_suffixes name)
    && not (contains name test_binaries)
    && not (any (λ d. contains d ignored_dirs) (dir_names x.path))

-- `s <= t`, by code points
unfoldable pub text_leb : String → String → Bool
text_leb String.[] t = true
text_leb (String.◌∷◌ c s) String.[] = false
text_leb (String.◌∷◌ c s) (String.◌∷◌ d t) =
    let rest = text_leb s t in
    if ltb (code c) (code d) then true else nat_beq (code c) (code d) && rest

abbrev pub Hashed : Type 0
Hashed = String × String

-- `file_hashes.sort(key=lambda x: x[0])`
unfoldable pub insert_hashed : Hashed → List Hashed → List Hashed
insert_hashed a [] = a ∷ []
insert_hashed a (b ∷ l) =
    let rest = insert_hashed a l in if text_leb a.0 b.0 then a ∷ b ∷ l else b ∷ rest

unfoldable pub sort_hashed : List Hashed → List Hashed
unfolding insert_hashed
sort_hashed [] = []
sort_hashed (a ∷ l) = insert_hashed a (sort_hashed l)

-- what the second loop feeds to `h`
unfoldable pub hashed_lines : List Hashed → String
hashed_lines [] = ""
hashed_lines ((relpath, fhash) ∷ l) = concat (relpath ∷ ":" ∷ fhash ∷ "\n" ∷ []) <> hashed_lines l

abbrev pub compiled_suffixes : List String
compiled_suffixes = ".c" ∷ ".h" ∷ ".cpp" ∷ ".hpp" ∷ ".cc" ∷ ".h" ∷ ".rs" ∷ ".zig" ∷ ".S" ∷ ".s" ∷ []

abbrev is_compilable : Walked → Bool
is_compilable x =
    all_kept ("target" ∷ ".tmp_versions" ∷ "__pycache__" ∷ "node_modules" ∷ []) (init_of x.parts)
    && ends_with_any compiled_suffixes (basename x.path)

unfoldable pub count_compilable_files : FilePath → Action ℕ
count_compilable_files directory = do
  there ← isdir directory
  if there then gets (λ w. length (keep_if is_compilable (walk w.fs directory))) else pure 0

module _ ⦃env : Env⦄ where
  -- `h` is fed with what the loop has read when it ends.
  unfoldable pub content_hash : Content → String
  content_hash c =
      let s = env.bytes c in env.sha256 (hash_chunks (suc (count_chars s)) chunk_size "" s)

  unfoldable pub get_file_hash : FilePath → Action String
  get_file_hash filepath = do
    there ← isfile filepath
    if there
        then try_except (do c ← read filepath; pure (content_hash c)) (λ _. pure "")
        else pure ""

  -- the hashes of the files that are looked at, those with an empty hash left out
  unfoldable pub hash_walked : List Walked → Action (List Hashed)
  hash_walked [] = pure []
  hash_walked (x ∷ xs) = do
    let rest = hash_walked xs
    if is_hashed x
        then (do
          fhash ← get_file_hash x.path
          more ← rest
          pure (if fhash == "" then more else (join "/" x.parts, fhash) ∷ more))
        else rest

  abbrev digest : List Hashed → String
  digest [] = "empty"
  digest (a ∷ l) = env.sha256 (hashed_lines (sort_hashed (a ∷ l)))

  unfoldable pub get_dir_hash : FilePath → Action String
  get_dir_hash directory = do
    there ← isdir directory
    files ← gets (λ w. walk w.fs directory)
    if there then (do hashes ← hash_walked files; pure (digest hashes)) else pure ""

  abbrev matching : Option (List String) → ℕ
  matching none = 0
  matching (some names) = length (keep_if (ends_with_any compiled_suffixes) names)

  unfoldable pub count_tarball_files : FilePath → Action ℕ
  count_tarball_files tar_path = do
    there ← exists tar_path
    if there
        then try_except (do c ← read tar_path; pure (matching (env.members c))) (λ _. pure 0)
        else pure 0

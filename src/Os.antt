-- ===== src/Os.antt =====
-- The operating system calls and the `shutil` functions of Python's library that the pipeline uses,
-- as actions on the file system of the `World`.
pub mod Flags
pub mod Frame
pub mod Links
use pronze.Prelude.{
  ℕ, suc, String, Bool, true, false, not, ◌||◌, Option, none, some, List, [], ◌∷◌, ◌==◌,
  if◌then◌else◌, is_some,
}
use pronze.Prelude.Int.{ℤ}
use pronze.Prelude.Dict.{Dict, lookup, insert, erase}
use pronze.World.{
  World, Env, FilePath, root, ◌/◌, path_eq, show_path, basename, dirname, join_path, relative_to,
  Fs, Node, file, dir, symlink, Content, text, Target, follow, real_path, max_links, entry_at,
  path_exists, is_dir, is_file, is_link, children, erase_tree,
}
use pronze.Action.{
  Exn, file_not_found, os_error, value_error, Result, ok, err, ⊤, Action, pure, raise, gets, modify,
  ◌>>=◌, ◌>>◌, when, for_each,
}

unfoldable pub exists : FilePath → Action Bool
exists p = gets (λ w. path_exists w.fs p)

unfoldable pub isdir : FilePath → Action Bool
isdir p = gets (λ w. is_dir w.fs p)

unfoldable pub isfile : FilePath → Action Bool
isfile p = gets (λ w. is_file w.fs p)

unfoldable pub islink : FilePath → Action Bool
islink p = gets (λ w. is_link w.fs p)

abbrev pub set_fs : (Fs → Fs) → World → World
set_fs f w = record w { fs = f w.fs }

-- `open(p)` and `read()`: the content of the file that `p` leads to
abbrev pub read_from : FilePath → Option Node → Action Content
read_from p none = raise (file_not_found p)
read_from p (some (file c)) = pure c
read_from p (some _) = raise (os_error "is a directory" p)

unfoldable pub read : FilePath → Action Content
read p = do node ← gets (λ w. follow max_links w.fs p); read_from p node

-- a JSON document is never read back as text by the pipeline
abbrev pub text_of : FilePath → Content → Action String
text_of p (text s) = pure s
text_of p _ = raise (value_error "not a text")

unfoldable pub read_text : FilePath → Action String
read_text p = do c ← read p; text_of p c

-- `open(p, "w")` and `write(…)`, at the path where the links end: its directory has to be there.
abbrev pub can_write : Fs → FilePath → Result ⊤
can_write fs p =
    if is_dir fs p
    then err (os_error "is a directory" p)
    else if is_dir fs (dirname p)
    then ok tt
    else err (file_not_found p)

abbrev pub write_if : Result ⊤ → FilePath → Content → Action ⊤
write_if (err e) q c w = (err e, w)
write_if (ok _) q c w = (ok tt, set_fs (insert q (file c)) w)

abbrev pub write_at : Content → Option FilePath → FilePath → Action ⊤
write_at c none p w = (err (os_error "too many links" p), w)
write_at c (some q) p w = write_if (can_write w.fs q) q c w

unfoldable pub write : FilePath → Content → Action ⊤
write p c w = write_at c (real_path max_links w.fs p) p w

unfoldable pub write_text : FilePath → String → Action ⊤
write_text p s = write p (text s)

-- `os.remove`
abbrev pub remove_entry : FilePath → Option Node → Action ⊤
remove_entry p none = raise (file_not_found p)
remove_entry p (some dir) = raise (os_error "is a directory" p)
remove_entry p (some _) = modify (set_fs (erase p))

unfoldable pub remove : FilePath → Action ⊤
remove p = do node ← gets (λ w. lookup p w.fs); remove_entry p node

-- `os.makedirs(p, exist_ok=True)`
unfoldable pub makedirs : FilePath → Action ⊤
makedirs root = pure tt
makedirs (p / a) = do
  here ← isdir (p / a)
  taken ← gets (λ w. is_some (lookup (p / a) w.fs))
  let above = makedirs p
  if here
      then pure tt
      else if taken
      then raise (os_error "file exists" (p / a))
      else do above; modify (set_fs (insert (p / a) dir))

-- `os.symlink`
unfoldable pub make_symlink : Target → FilePath → Action ⊤
make_symlink t p = do
  taken ← gets (λ w. is_some (entry_at w.fs p))
  parent ← isdir (dirname p)
  if taken
      then raise (os_error "file exists" p)
      else if not parent
      then raise (file_not_found p)
      else modify (set_fs (insert p (symlink t)))

abbrev pub target_of : FilePath → Option Node → Action Target
target_of p (some (symlink t)) = pure t
target_of p _ = raise (os_error "not a link" p)

-- `os.readlink`
unfoldable pub readlink : FilePath → Action Target
readlink p = do node ← gets (λ w. lookup p w.fs); target_of p node

-- `os.listdir`
unfoldable pub listdir : FilePath → Action (List String)
listdir p = do
  there ← isdir p
  if there
      then gets (λ w. elim (real_path max_links w.fs p) [ none ↦ [] | some q ↦ children w.fs q ])
      else raise (file_not_found p)

-- `shutil.rmtree`
unfoldable pub rmtree : FilePath → Action ⊤
rmtree p = do
  link ← islink p
  there ← isdir p
  if link || not there
      then raise (os_error "not a directory" p)
      else modify (set_fs (λ fs. erase_tree fs p))

-- `shutil.copy2(src, dst)`: into the directory `dst` under the file's own name, if it is one
unfoldable pub copy2 : FilePath → FilePath → Action ⊤
copy2 src dst = do
  into ← isdir dst
  let q = if into then dst / basename src else dst
  c ← read src
  if src == q then raise (os_error "same file" q) else write q c

abbrev pub set_mode : FilePath → ℕ → World → World
set_mode p m w = record w { modes = insert p m w.modes }

-- `os.chmod`
unfoldable pub chmod : FilePath → ℕ → Action ⊤
chmod p m = do there ← exists p; if there then modify (set_mode p m) else raise (file_not_found p)

-- One entry of the tree below `src`, at its place below `dst`; links are copied as links.
abbrev pub copy_part : FilePath → Node → Action ⊤
copy_part to dir = makedirs to
copy_part to (file c) = makedirs (dirname to) >> write to c
copy_part to (symlink t) = makedirs (dirname to) >> make_symlink t to

abbrev pub copy_below : FilePath → Node → Option (List String) → Action ⊤
copy_below dst node none = pure tt
copy_below dst node (some parts) = copy_part (join_path dst parts) node

abbrev pub copy_entry : FilePath → FilePath → FilePath × Node → Action ⊤
copy_entry src dst (p, node) = copy_below dst node (relative_to src p)

-- `shutil.copytree(src, dst, symlinks=True, dirs_exist_ok=True)`
unfoldable pub copytree : FilePath → FilePath → Action ⊤
copytree src dst = do
  there ← isdir src
  entries ← gets (λ w. w.fs)
  if there
      then makedirs dst >> for_each entries (copy_entry src dst)
      else raise (file_not_found src)

module _ ⦃env : Env⦄ where
  -- `time.time()`
  unfoldable pub time : Action ℤ
  time w = (ok (env.time w.readings), record w { readings = suc w.readings })

  -- `str(uuid.uuid4())`
  unfoldable pub uuid4 : Action String
  uuid4 w = (ok (env.uuid4 w.drawn), record w { drawn = suc w.drawn })

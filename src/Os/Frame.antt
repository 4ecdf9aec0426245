-- ===== src/Os/Frame.antt =====
-- What the operating system calls leave as it is: all of the state but the files and the counters of
-- the clock and of the UUIDs.
use pronze.Prelude.{String, List, ℕ, Option, none, some, is_some}
use pronze.Prelude.Dict.{lookup, insert, erase}
use pronze.World.{
  World, Env, FilePath, root, ◌/◌, path_eq, real_path, max_links, Fs, Node, file, dir, symlink,
  Content, text, Target, is_link, join_path, relative_to,
}
use pronze.Action.{
  Result, ok, err, ⊤, pure, gets, modify, Keeps, Keeps-gets, keeps_rules, Keeps-bind, Keeps-if,
  Keeps-pure, Keeps-raise, Ends,
}
use pronze.Os.{
  isdir, write, write_at, write_if, can_write, remove_entry, remove, makedirs, listdir, time, uuid4,
  set_fs, write_text, copy2, make_symlink, target_of, readlink, islink, rmtree, copy_part,
  copy_below, copy_entry, copytree,
}
use pronze.Os.Flags.{isdir-Keeps, read-Keeps}

-- `Q` reads neither the files nor the two counters.
pub record IsFramed (Q : World → Type 0) : Type 0 where
  pub files : (f : Fs → Fs) (w : World) → Q w → Q (set_fs f w)
  pub clock : (n : ℕ) (w : World) → Q w → Q (record w { readings = n })
  pub ids : (n : ℕ) (w : World) → Q w → Q (record w { drawn = n })

module _ {Q : World → Type 0} (framed : IsFramed Q) where
  set_fs-Keeps : (f : Fs → Fs) → Keeps Q (modify (set_fs f))
  unfolding modify
  set_fs-Keeps f = record { at = λ w h. framed.files f w h }

  outcome-Ends :
      (r : Result ⊤) (q p : FilePath) (c : Content) (w : World)
      → Q w
      → Ends (λ _. Q) Q (write_if r q c w)
  outcome-Ends (ok _) q p c w h = framed.files (insert q (file c)) w h
  outcome-Ends (err e) q p c w h = h

  write_at-Ends :
      (c : Content) (q : Option FilePath) (p : FilePath) (w : World)
      → Q w
      → Ends (λ _. Q) Q (write_at c q p w)
  write_at-Ends c none p w h = h
  write_at-Ends c (some q) p w h = outcome-Ends (can_write w.fs q) q p c w h

  pub write-Keeps : (p : FilePath) (c : Content) → Keeps Q (write p c)
  unfolding write
  write-Keeps p c = record { at = λ w h. write_at-Ends c (real_path max_links w.fs p) p w h }

  remove_entry-Keeps : (p : FilePath) (node : Option Node) → Keeps Q (remove_entry p node)
  remove_entry-Keeps p none = search keeps_rules
  remove_entry-Keeps p (some (file c)) = set_fs-Keeps (erase p)
  remove_entry-Keeps p (some dir) = search keeps_rules
  remove_entry-Keeps p (some (symlink t)) = set_fs-Keeps (erase p)

  pub remove-Keeps : (p : FilePath) → Keeps Q (remove p)
  unfolding remove
  remove-Keeps p =
      Keeps-bind (gets (λ w. lookup p w.fs)) (remove_entry p) (Keeps-gets (λ w. lookup p w.fs))
        (remove_entry-Keeps p)

  pub makedirs-Keeps : (p : FilePath) → Keeps Q (makedirs p)
  unfolding makedirs
  makedirs-Keeps root = search keeps_rules
  makedirs-Keeps (p / a) = Keeps-bind (isdir (p / a)) _ (isdir-Keeps (p / a)) (λ here.
      Keeps-bind (gets (λ w. is_some (lookup (p / a) w.fs))) _
        (Keeps-gets (λ w. is_some (lookup (p / a) w.fs)))
        (λ taken. Keeps-if here (pure tt) _ (Keeps-pure tt) (
          Keeps-if taken _ _ (Keeps-raise _) (
            Keeps-bind (makedirs p) _ (makedirs-Keeps p)
              (λ _. set_fs-Keeps (insert (p / a) dir))))))

  pub write_text-Keeps : (p : FilePath) (t : String) → Keeps Q (write_text p t)
  unfolding write_text
  write_text-Keeps p t = write-Keeps p (text t)

  pub copy2-Keeps : (src dst : FilePath) → Keeps Q (copy2 src dst)
  unfolding copy2
  copy2-Keeps src dst = search (keeps_rules, isdir-Keeps, read-Keeps, write-Keeps) depth 12

  pub make_symlink-Keeps : (t : Target) (p : FilePath) → Keeps Q (make_symlink t p)
  unfolding make_symlink
  make_symlink-Keeps t p = search (keeps_rules, isdir-Keeps, set_fs-Keeps) depth 12

  target_of-Keeps : (p : FilePath) (node : Option Node) → Keeps Q (target_of p node)
  target_of-Keeps p none = search keeps_rules
  target_of-Keeps p (some (file c)) = search keeps_rules
  target_of-Keeps p (some dir) = search keeps_rules
  target_of-Keeps p (some (symlink t)) = search keeps_rules

  pub readlink-Keeps : (p : FilePath) → Keeps Q (readlink p)
  unfolding readlink
  readlink-Keeps p =
      Keeps-bind (gets (λ w. lookup p w.fs)) (target_of p) (Keeps-gets (λ w. lookup p w.fs))
        (target_of-Keeps p)

  pub islink-Keeps : (p : FilePath) → Keeps Q (islink p)
  unfolding islink
  islink-Keeps p = Keeps-gets (λ w. is_link w.fs p)

  pub rmtree-Keeps : (p : FilePath) → Keeps Q (rmtree p)
  unfolding rmtree
  rmtree-Keeps p = search (keeps_rules, islink-Keeps, isdir-Keeps, set_fs-Keeps) depth 12

  copy_part-Keeps : (to : FilePath) (node : Node) → Keeps Q (copy_part to node)
  copy_part-Keeps to dir = makedirs-Keeps to
  copy_part-Keeps to (file c) = search (keeps_rules, makedirs-Keeps, write-Keeps)
  copy_part-Keeps to (symlink t) = search (keeps_rules, makedirs-Keeps, make_symlink-Keeps)

  copy_below-Keeps :
      (dst : FilePath) (node : Node) (o : Option (List String)) → Keeps Q (copy_below dst node o)
  copy_below-Keeps dst node none = search keeps_rules
  copy_below-Keeps dst node (some parts) = copy_part-Keeps (join_path dst parts) node

  copy_entry-Keeps : (src dst : FilePath) (e : FilePath × Node) → Keeps Q (copy_entry src dst e)
  copy_entry-Keeps src dst (p, node) = copy_below-Keeps dst node (relative_to src p)

  pub copytree-Keeps : (src dst : FilePath) → Keeps Q (copytree src dst)
  unfolding copytree
  copytree-Keeps src dst =
      search (keeps_rules, isdir-Keeps, makedirs-Keeps, copy_entry-Keeps) depth 12

  pub listdir-Keeps : (p : FilePath) → Keeps Q (listdir p)
  unfolding listdir
  listdir-Keeps p = search (keeps_rules, isdir-Keeps) depth 12

  module _ ⦃env : Env⦄ where
    pub time-Keeps : Keeps Q time
    unfolding time
    time-Keeps = record { at = λ w h. framed.clock _ w h }

    pub uuid4-Keeps : Keeps Q uuid4
    unfolding uuid4
    uuid4-Keeps = record { at = λ w h. framed.ids _ w h }

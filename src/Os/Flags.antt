-- ===== src/Os/Flags.antt =====
-- Reading, writing and removing a flag file: an entry that is a plain file or is not there.
use pronze.Prelude.{ℕ, suc, String, ◌≡◌, refl, true, false, ◌⊎◌, inl, inr, Option, none, some}
use pronze.Prelude.Dict.{lookup, insert, erase}
use pronze.World.{
  World, FilePath, ◌/◌, path_eq, Fs, Node, file, dir, symlink, Content, text, stage_builds,
  build_stats, hashes, meta, follow, real_path, max_links, entry_at, path_exists, is_dir, is_file,
}
use pronze.Action.{Exn, file_not_found, Result, ok, err, ⊤, ◌>>=◌}
use pronze.Action.{Keeps, Keeps-gets, keeps_rules}
use pronze.Os.{
  exists, isdir, isfile, read, read_text, write, remove, set_fs, write_if, can_write, read_from,
  text_of,
}

-- Nothing stands at `p`.
abbrev pub IsAbsent : FilePath → World → Type 0
IsAbsent p w = lookup p w.fs ≡ none

-- A file with that content stands at `p`.
abbrev pub Holds : FilePath → Content → World → Type 0
Holds p c w = lookup p w.fs ≡ some (file c)

follow-absent : (n : ℕ) (fs : Fs) (p : FilePath) → entry_at fs p ≡ none → follow (suc n) fs p ≡ none
unfolding follow
follow-absent n fs p h = rw (h, follow)

pub follow-file :
    (n : ℕ) (fs : Fs) (p : FilePath) (c : Content)
    → entry_at fs p ≡ some (file c)
    → follow (suc n) fs p ≡ some (file c)
unfolding follow
follow-file n fs p c h = rw (h, follow)

real_path-absent :
    (n : ℕ) (fs : Fs) (p : FilePath) → entry_at fs p ≡ none → real_path (suc n) fs p ≡ some p
unfolding real_path
real_path-absent n fs p h = rw (h, real_path)

pub real_path-file :
    (n : ℕ) (fs : Fs) (p : FilePath) (c : Content)
    → entry_at fs p ≡ some (file c)
    → real_path (suc n) fs p ≡ some p
unfolding real_path
real_path-file n fs p c h = rw (h, real_path)

write_if_cases :
    (p : FilePath) (c : Content) (w : World) (r : Result ⊤)
    → ((e : Exn) × (write_if r p c w ≡ (err e, w)))
      ⊎ (write_if r p c w ≡ (ok tt, set_fs (insert p (file c)) w))
write_if_cases p c w (err e) = inl (e, refl)
write_if_cases p c w (ok _) = inr refl

module _ (d : FilePath) (a : String) where
  pub exists-absent : (w : World) → IsAbsent (d / a) w → path_exists w.fs (d / a) ≡ false
  unfolding path_exists
  exists-absent w h = rw (follow-absent 39 w.fs (d / a) h)

  pub exists-Holds : (c : Content) (w : World) → Holds (d / a) c w → path_exists w.fs (d / a) ≡ true
  unfolding path_exists
  exists-Holds c w h = rw (follow-file 39 w.fs (d / a) c h)

  pub read_text-Holds :
      (s : String) (w : World) → Holds (d / a) (text s) w → read_text (d / a) w ≡ (ok s, w)
  unfolding read_text read ◌>>=◌
  read_text-Holds s w h = rw (follow-file 39 w.fs (d / a) (text s) h)

  -- Where the links do not lead elsewhere, a write fails and changes nothing, or leaves that file.
  pub write_here :
      (c : Content) (w : World)
      → real_path max_links w.fs (d / a) ≡ some (d / a)
      → ((e : Exn) × (write (d / a) c w ≡ (err e, w)))
        ⊎ (write (d / a) c w ≡ (ok tt, set_fs (insert (d / a) (file c)) w))
  unfolding write
  write_here c w h = rw (h, write) (write_if_cases (d / a) c w (can_write w.fs (d / a)))

  pub write-absent :
      (c : Content) (w : World)
      → IsAbsent (d / a) w
      → ((e : Exn) × (write (d / a) c w ≡ (err e, w)))
        ⊎ (write (d / a) c w ≡ (ok tt, set_fs (insert (d / a) (file c)) w))
  write-absent c w h = write_here c w (real_path-absent 39 w.fs (d / a) h)

  pub remove-absent :
      (w : World) → IsAbsent (d / a) w → remove (d / a) w ≡ (err (file_not_found (d / a)), w)
  unfolding remove ◌>>=◌
  remove-absent w h = rw h

  pub remove-Holds :
      (c : Content) (w : World)
      → Holds (d / a) c w
      → remove (d / a) w ≡ (ok tt, set_fs (erase (d / a)) w)
  unfolding remove ◌>>=◌
  remove-Holds c w h = rw h

module _ {P : World → Type 0} where
  pub exists-Keeps : (p : FilePath) → Keeps P (exists p)
  unfolding exists
  exists-Keeps p = Keeps-gets (λ w. path_exists w.fs p)

  read_from-Keeps : (p : FilePath) (node : Option Node) → Keeps P (read_from p node)
  read_from-Keeps p none = search keeps_rules
  read_from-Keeps p (some (file c)) = search keeps_rules
  read_from-Keeps p (some dir) = search keeps_rules
  read_from-Keeps p (some (symlink t)) = search keeps_rules

  pub read-Keeps : (p : FilePath) → Keeps P (read p)
  unfolding read
  read-Keeps p = search (keeps_rules, read_from-Keeps)

  text_of-Keeps : (p : FilePath) (c : Content) → Keeps P (text_of p c)
  text_of-Keeps p (text s) = search keeps_rules
  text_of-Keeps p (stage_builds b) = search keeps_rules
  text_of-Keeps p (build_stats b) = search keeps_rules
  text_of-Keeps p (hashes b) = search keeps_rules
  text_of-Keeps p (meta b) = search keeps_rules

  pub read_text-Keeps : (p : FilePath) → Keeps P (read_text p)
  unfolding read_text
  read_text-Keeps p = search (keeps_rules, read-Keeps, text_of-Keeps)

  pub isdir-Keeps : (p : FilePath) → Keeps P (isdir p)
  unfolding isdir
  isdir-Keeps p = Keeps-gets (λ w. is_dir w.fs p)

  pub isfile-Keeps : (p : FilePath) → Keeps P (isfile p)
  unfolding isfile
  isfile-Keeps p = Keeps-gets (λ w. is_file w.fs p)

-- ===== src/Archive/Counts.antt =====
-- The counts of .archive/stats.json after a build.
use pronze.Prelude.{
  suc, ℕ, refl, if◌then◌else◌, ◌+◌, String, ◌≡◌, true, false, ◌⊎◌, inl, inr, some, ◌==◌, string_eq,
  arith,
}
use pronze.Prelude.Dict.{lookup, insert}
use pronze.World.{
  World, FilePath, ◌/◌, path_eq, Fs, dir, file, build_stats, BuildStats, entry_at, follow, is_dir,
}
use pronze.Action.{ok, pure, gets, ◌>>=◌, try_except}
use pronze.Os.{exists, isdir, read, write, makedirs, set_fs}
use pronze.Os.Flags.{follow-file, real_path-file, Holds, exists-Holds}
use pronze.Archive.{
  get_stats_file, load_build_stats, save_build_stats, update_build_stats, count_build,
}

-- A finished build is one that has succeeded or failed.
abbrev pub IsFinal : String → Type 0
IsFinal status = (status ≡ "Complete") ⊎ (status ≡ "Failed")

-- Every build that was counted has succeeded or failed.
abbrev pub IsBalanced : BuildStats → Type 0
IsBalanced s = s.total_builds ≡ s.successful_builds + s.failed_builds

count_build-IsBalanced :
    (status : String) (s : BuildStats)
    → IsFinal status
    → IsBalanced s
    → IsBalanced (count_build status s)
unfolding count_build
count_build-IsBalanced status s (inl e) h = rw e (omega (arith, h))
count_build-IsBalanced status s (inr e) h = rw e (omega (arith, h))

abbrev pub one_if : String → String → ℕ
one_if status final = if status == final then 1 else 0

count_build-Counts :
    (status : String) (s : BuildStats)
    → IsFinal status
    → ((count_build status s).total_builds ≡ s.total_builds + 1)
      × ((count_build status s).successful_builds ≡ s.successful_builds + one_if status "Complete")
      × ((count_build status s).failed_builds ≡ s.failed_builds + one_if status "Failed")
unfolding count_build
count_build-Counts status s (inl e) = rw e (refl, refl, omega arith)
count_build-Counts status s (inr e) = rw e (refl, omega arith, refl)

follow-dir :
    (n : ℕ) (fs : Fs) (p : FilePath) → entry_at fs p ≡ some dir → follow (suc n) fs p ≡ some dir
unfolding follow
follow-dir n fs p h = rw (h, follow)

module _ (ws : FilePath) (w : World) (here : lookup (ws / ".archive") w.fs ≡ some dir) where
  pub archive-is_dir : is_dir w.fs (ws / ".archive") ≡ true
  unfolding is_dir
  archive-is_dir = rw (follow-dir 39 w.fs (ws / ".archive") here)

  get_stats_file-here : get_stats_file ws w ≡ (ok (ws / ".archive" / "stats.json"), w)
  unfolding get_stats_file makedirs isdir gets pure ◌>>=◌
  get_stats_file-here = rw archive-is_dir

  module _ (old : BuildStats)
      (held : Holds (ws / ".archive" / "stats.json") (build_stats old) w) where
    read-here : read (ws / ".archive" / "stats.json") w ≡ (ok (build_stats old), w)
    unfolding read gets ◌>>=◌
    read-here = rw (follow-file 39 w.fs (ws / ".archive" / "stats.json") (build_stats old) held)

    there : exists (ws / ".archive" / "stats.json") w ≡ (ok true, w)
    unfolding exists gets
    there = rw (exists-Holds (ws / ".archive") "stats.json" (build_stats old) w held)

    load_build_stats-Holds : load_build_stats ws w ≡ (ok old, w)
    unfolding load_build_stats ◌>>=◌ try_except pure
    load_build_stats-Holds = rw get_stats_file-here (rw there (rw read-here))

    no_dir : is_dir w.fs (ws / ".archive" / "stats.json") ≡ false
    unfolding is_dir
    no_dir = rw (follow-file 39 w.fs (ws / ".archive" / "stats.json") (build_stats old) held)

    write-here :
        (s : BuildStats)
        → write (ws / ".archive" / "stats.json") (build_stats s) w
          ≡ (ok tt, set_fs (insert (ws / ".archive" / "stats.json") (file (build_stats s))) w)
    unfolding write
    write-here s =
        rw (real_path-file 39 w.fs (ws / ".archive" / "stats.json") (build_stats old) held)
          (rw (no_dir, archive-is_dir))

    save_build_stats-Holds :
        (s : BuildStats)
        → save_build_stats ws s w
          ≡ (ok tt, set_fs (insert (ws / ".archive" / "stats.json") (file (build_stats s))) w)
    unfolding save_build_stats ◌>>=◌ try_except
    save_build_stats-Holds s = rw get_stats_file-here (rw (write-here s))

    -- Where stats.json can be read and its counts add up, the end of a build that has succeeded or
    -- failed writes back its counts with one build more, one success more exactly if it has succeeded
    -- and one failure more exactly if it has failed, and changes nothing else; the counts add up again.
    pub update_build_stats-IsBalanced :
        (status : String)
        → IsFinal status
        → IsBalanced old
        → (new : BuildStats) × (update_build_stats ws status w
            ≡ (ok tt, set_fs (insert (ws / ".archive" / "stats.json") (file (build_stats new))) w))
          × (new.total_builds ≡ old.total_builds + 1)
          × (new.successful_builds ≡ old.successful_builds + one_if status "Complete")
          × (new.failed_builds ≡ old.failed_builds + one_if status "Failed")
          × IsBalanced new
    unfolding update_build_stats ◌>>=◌
    update_build_stats-IsBalanced status final balanced =
        let (total, succeeded, failures) = count_build-Counts status old final in
        (
          count_build status old,
          rw load_build_stats-Holds (save_build_stats-Holds (count_build status old)),
          total,
          succeeded,
          failures,
          count_build-IsBalanced status old final balanced,
        )

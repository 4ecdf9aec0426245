-- ===== src/Archive/Stages.antt =====
-- The record of a stage in .archive/stage_builds.json after a report on that stage.
use pronze.Prelude.{suc, ◌+◌, String, Bool, true, false, ◌≡◌, refl, some, get_or_else, string_eq}
use pronze.Prelude.Dict.{Dict, lookup, insert}
use pronze.World.{World, Env, FilePath, ◌/◌, path_eq, is_dir, dir, file, stage_builds, StageBuild}
use pronze.Action.{ok, pure, gets, ◌>>=◌, try_except}
use pronze.Os.{exists, isdir, read, write, makedirs, time, uuid4, set_fs}
use pronze.Os.Flags.{Holds, exists-Holds, follow-file, real_path-file}
use pronze.Archive.{
  no_build, get_stage_builds_file, load_stage_builds, save_stage_builds, update_stage_build_info,
}
use pronze.Archive.Counts.{archive-is_dir}

-- What is recorded of a stage before the report.
abbrev pub recorded : String → Dict String StageBuild → StageBuild
recorded name d = get_or_else (lookup name d) no_build

-- A record of a compiled stage has the next number, one of another stage the number and the
-- identifier that were there.
abbrev pub IsCounted : Bool → StageBuild → StageBuild → Type 0
IsCounted true old new = new.build_number ≡ old.build_number + 1
IsCounted false old new = (new.build_number ≡ old.build_number) × (new.uuid ≡ old.uuid)

module _ (ws : FilePath) (w : World) (here : lookup (ws / ".archive") w.fs ≡ some dir)
    (old : Dict String StageBuild)
    (held : Holds (ws / ".archive" / "stage_builds.json") (stage_builds old) w) where
  get_stage_builds_file-here :
      get_stage_builds_file ws w ≡ (ok (ws / ".archive" / "stage_builds.json"), w)
  unfolding get_stage_builds_file makedirs isdir gets pure ◌>>=◌
  get_stage_builds_file-here = rw (archive-is_dir ws w here)

  there : exists (ws / ".archive" / "stage_builds.json") w ≡ (ok true, w)
  unfolding exists gets
  there = rw (exists-Holds (ws / ".archive") "stage_builds.json" (stage_builds old) w held)

  read-here : read (ws / ".archive" / "stage_builds.json") w ≡ (ok (stage_builds old), w)
  unfolding read gets ◌>>=◌
  read-here =
      rw (follow-file 39 w.fs (ws / ".archive" / "stage_builds.json") (stage_builds old) held)

  load_stage_builds-Holds : load_stage_builds ws w ≡ (ok old, w)
  unfolding load_stage_builds ◌>>=◌ try_except pure
  load_stage_builds-Holds = rw get_stage_builds_file-here (rw there (rw read-here))

  no_dir : is_dir w.fs (ws / ".archive" / "stage_builds.json") ≡ false
  unfolding is_dir
  no_dir = rw (follow-file 39 w.fs (ws / ".archive" / "stage_builds.json") (stage_builds old) held)

  abbrev saved : Dict String StageBuild → World
  saved d = set_fs (insert (ws / ".archive" / "stage_builds.json") (file (stage_builds d))) w

  write-here :
      (d : Dict String StageBuild)
      → write (ws / ".archive" / "stage_builds.json") (stage_builds d) w ≡ (ok tt, saved d)
  unfolding write
  write-here d =
      rw (real_path-file 39 w.fs (ws / ".archive" / "stage_builds.json") (stage_builds old) held)
        (rw (no_dir, archive-is_dir ws w here))

  save_stage_builds-Holds :
      (d : Dict String StageBuild) → save_stage_builds ws d w ≡ (ok tt, saved d)
  unfolding save_stage_builds ◌>>=◌ try_except
  save_stage_builds-Holds d = rw get_stage_builds_file-here (rw (write-here d))

module _ ⦃env : Env⦄ (ws : FilePath) (w : World) (here : lookup (ws / ".archive") w.fs ≡ some dir)
    (old : Dict String StageBuild)
    (held : Holds (ws / ".archive" / "stage_builds.json") (stage_builds old) w)
    (name status : String) where
  -- the state in which the dict is written
  abbrev drawn_for : Bool → World
  drawn_for true = record w { drawn = suc w.drawn; readings = suc w.readings }
  drawn_for false = record w { readings = suc w.readings }

  abbrev counted_for : Bool → StageBuild
  counted_for true = record (recorded name old) {
    build_number = (recorded name old).build_number + 1;
    uuid = env.uuid4 w.drawn;
    status = status;
    timestamp = env.time w.readings;
  }
  counted_for false = record (recorded name old) {
    status = status;
    timestamp = env.time w.readings;
  }

  -- Where .archive/stage_builds.json can be read, a report on a stage writes back the dict with the record
  -- of that stage alone replaced: it has the status of the report, and the next build number where
  -- the stage was compiled, or the number and the identifier that it had where it was not.
  pub update_stage_build_info-IsCounted :
      (compiled : Bool)
      → (new : StageBuild) × (v : World) × (update_stage_build_info ws name status compiled w
          ≡ (ok tt, v))
        × (v.fs
            ≡ insert
                (ws / ".archive" / "stage_builds.json")
                (file (stage_builds (insert name new old)))
                w.fs)
        × (new.status ≡ status)
        × IsCounted compiled (recorded name old) new
  unfolding update_stage_build_info ◌>>=◌ pure time uuid4
  update_stage_build_info-IsCounted true = (
    counted_for true,
    saved ws (drawn_for true) here old held (insert name (counted_for true) old),
    rw (load_stage_builds-Holds ws w here old held) (
        save_stage_builds-Holds ws (drawn_for true) here old held
          (insert name (counted_for true) old)),
    refl,
    refl,
    refl,
  )
  update_stage_build_info-IsCounted false = (
    counted_for false,
    saved ws (drawn_for false) here old held (insert name (counted_for false) old),
    rw (load_stage_builds-Holds ws w here old held) (
        save_stage_builds-Holds ws (drawn_for false) here old held
          (insert name (counted_for false) old)),
    refl,
    refl,
    (refl, refl),
  )

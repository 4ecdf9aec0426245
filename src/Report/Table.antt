-- ===== src/Report/Table.antt =====
-- `print_status_table` of build-pipeline/common.py: the rows of the table, and the reports that it
-- brings up to date. How the rows are laid out on the terminal is left out.
use pronze.Prelude.{String, Bool, not, ◌&&◌, List, [], ◌∷◌, ◌==◌, string_eq, if◌then◌else◌}
use pronze.Prelude.Texts.{concat, join, prefix, strip}
use pronze.Prelude.Dict.{Dict}
use pronze.World.{Env, ◌/◌}
use pronze.Action.{Action, pure, gets, ◌>>=◌, ◌>>◌, try_except, try_pass}
use pronze.Os.{exists, read_text}
use pronze.Hashing.{get_file_hash}
use pronze.Report.Hashes.{
  config_at, config_get, tarball, compute_all_hashes, hash_of, or_none, generate_diff_report,
}
use pronze.Report.Analyzer.{
  check_stage_cache, expected_hash, expected_s6_hash, analyze_compilation_files,
}

-- what the table takes for the inputs of the master hash
unfoldable pub table_inputs : Dict String String → List String
table_inputs h =
    hash_of "kernel_dir" h
    ∷ hash_of "sdk_dir" h
    ∷ hash_of "daemon_dir" h
    ∷ hash_of "s6_dir" h
    ∷ hash_of "test_dir" h
    ∷ hash_of "profiles_dir" h
    ∷ hash_of "build_pipeline_dir" h
    ∷ hash_of "pipeline_conf" h
    ∷ hash_of "linux_ver" h
    ∷ hash_of "busybox_ver" h
    ∷ hash_of "skalibs_ver" h
    ∷ hash_of "execline_ver" h
    ∷ hash_of "s6_ver" h
    ∷ hash_of "linux_tar" h
    ∷ hash_of "busybox_tar" h
    ∷ hash_of "skalibs_tar" h
    ∷ hash_of "execline_tar" h
    ∷ hash_of "s6_tar" h
    ∷ []

pub record TableRow : Type 0 where
  pub component : String
  pub version : String
  pub hash : String
  pub cache_match : String

abbrev match_text : Bool → String
match_text b = if b then "Match" else "Mismatch"

module _ ⦃env : Env⦄ where
  unfoldable pub table_hash : Dict String String → String
  table_hash h = prefix 8 (env.sha256 (join "-" (table_inputs h)))

  -- the nested `tar_status(name, ver, ext)`
  unfoldable pub tar_status : String → String → String → Action (String × String)
  tar_status name ver ext = do
    c ← gets (λ w. w.context)
    there ← exists (c.download_dir / tarball name ver ext)
    if there
        then (do h ← get_file_hash (c.download_dir / tarball name ver ext); pure ("OK", prefix 8 h))
        else pure ("Missing", "None")

  -- the saved master hash, cut to eight characters
  unfoldable pub saved_master : Action String
  saved_master = do
    c ← gets (λ w. w.context)
    there ← exists (c.nochanges_dir / "master.hash")
    if there
        then (do t ← read_text (c.nochanges_dir / "master.hash"); pure (prefix 8 (strip t)))
        else pure ""

  unfoldable pub print_status_table : Action (List TableRow)
  print_status_table = do
    linux_ver ← config_at "LINUX_VERSION"
    busybox_ver ← config_at "BUSYBOX_VERSION"
    s6_ver ← config_at "S6_VERSION"
    c ← gets (λ w. w.context)
    linux ← tar_status "linux" linux_ver "tar.xz"
    busybox ← tar_status "busybox" busybox_ver "tar.bz2"
    s6 ← tar_status "s6" s6_ver "tar.gz"
    img ← exists (c.nochanges_dir / "pronzeos.img")
    saved ← saved_master
    curr ←
        try_except (do current ← compute_all_hashes; pure (table_hash current)) (λ _. pure "None")
    linux_tar_hash ← get_file_hash (c.download_dir / tarball "linux" linux_ver "tar.xz")
    kernel_match ← check_stage_cache "CompileKernel" (expected_hash linux_ver linux_tar_hash)
    busybox_tar_hash ← get_file_hash (c.download_dir / tarball "busybox" busybox_ver "tar.bz2")
    busybox_match ← check_stage_cache "CompileBusybox" (expected_hash busybox_ver busybox_tar_hash)
    skalibs_ver ← config_get "SKALIBS_VERSION" "0.0.0.0"
    execline_ver ← config_get "EXECLINE_VERSION" "0.0.0.0"
    skalibs_tar_hash ← get_file_hash (c.download_dir / tarball "skalibs" skalibs_ver "tar.gz")
    execline_tar_hash ← get_file_hash (c.download_dir / tarball "execline" execline_ver "tar.gz")
    s6_tar_hash ← get_file_hash (c.download_dir / tarball "s6" s6_ver "tar.gz")
    s6_match ← check_stage_cache "CompileS6" (
        expected_s6_hash skalibs_ver execline_ver s6_ver skalibs_tar_hash execline_tar_hash
          s6_tar_hash)
    done ← exists (c.nochanges_dir / "master.done")
    let master = match_text (not (saved == "") && saved == curr && done)
    generate_diff_report
    try_pass analyze_compilation_files
    pure (
        record {
          component = "Linux Kernel";
          version = concat (linux_ver ∷ " (" ∷ linux.0 ∷ ")" ∷ []);
          hash = linux.1;
          cache_match = match_text kernel_match;
        }
        ∷ record {
          component = "BusyBox";
          version = concat (busybox_ver ∷ " (" ∷ busybox.0 ∷ ")" ∷ []);
          hash = busybox.1;
          cache_match = match_text busybox_match;
        }
        ∷ record {
          component = "s6 Supervision";
          version = concat (s6_ver ∷ " (" ∷ s6.0 ∷ ")" ∷ []);
          hash = s6.1;
          cache_match = match_text s6_match;
        }
        ∷ record {
          component = "Master Disk Image";
          version = if img then "OK" else "Missing";
          hash = or_none saved;
          cache_match = master;
        }
        ∷ record {
          component = "Current Master Calc";
          version = "Calculated";
          hash = curr;
          cache_match = master;
        }
        ∷ [])

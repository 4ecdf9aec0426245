-- ===== src/Report/Analyzer.antt =====
-- Which stages have a valid cache, and how many files the others would compile.
use pronze.Prelude.{
  ℕ, ◌+◌, String, ◌<>◌, Bool, true, false, ◌&&◌, ◌||◌, List, [], ◌∷◌, ◌==◌, nat_eq, string_eq,
  if◌then◌else◌,
}
use pronze.Prelude.Texts.{concat, join, strip}
use pronze.World.{Env, FilePath, ◌/◌, StageFiles}
use pronze.Action.{⊤, Action, pure, gets, modify, ◌>>=◌}
use pronze.Os.{exists, isdir, read_text}
use pronze.Hashing.{get_file_hash, get_dir_hash, count_compilable_files, count_tarball_files}
use pronze.Report.Hashes.{config_at, config_get, tarball}

-- the nested `check_stage_cache(stage_name, expected_hash)`
unfoldable pub check_stage_cache : String → String → Action Bool
check_stage_cache stage_name expected_hash = do
  c ← gets (λ w. w.context)
  let hash_file = c.nochanges_dir / (stage_name <> ".hash")
  let done_file = c.nochanges_dir / (stage_name <> ".done")
  has_hash ← exists hash_file
  has_done ← exists done_file
  if expected_hash == "" || expected_hash == "None"
      then pure false
      else if has_hash && has_done
      then (do saved_val ← read_text hash_file; pure (strip saved_val == expected_hash))
      else pure false

abbrev pub both : Bool → Action Bool → Action Bool
both a m = if a then m else pure false

module _ ⦃env : Env⦄ where
  -- `sha256(f"{ver}-{tar_hash}")`, or "None" where there is no archive
  unfoldable pub expected_hash : String → String → String
  expected_hash ver tar_hash =
      if tar_hash == "" then "None" else env.sha256 (concat (ver ∷ "-" ∷ tar_hash ∷ []))

  unfoldable pub s6_hash : String → String → String → String → String → String → String
  s6_hash skalibs_ver execline_ver s6_ver skalibs_tar execline_tar s6_tar =
      env.sha256
        (join "-" (skalibs_ver ∷ execline_ver ∷ s6_ver ∷ skalibs_tar ∷ execline_tar ∷ s6_tar ∷ []))

  unfoldable pub expected_s6_hash : String → String → String → String → String → String → String
  expected_s6_hash skalibs_ver execline_ver s6_ver skalibs_tar execline_tar s6_tar =
      if skalibs_tar == "" || execline_tar == "" || s6_tar == ""
      then "None"
      else s6_hash skalibs_ver execline_ver s6_ver skalibs_tar execline_tar s6_tar

  unfoldable pub count_tarballs : List FilePath → Action ℕ
  count_tarballs [] = pure 0
  count_tarballs (tp ∷ tps) = do
    let rest = count_tarballs tps
    there ← exists tp
    n ← (if there then count_tarball_files tp else pure 0)
    m ← rest
    pure (n + m)

  -- the nested `get_count(match, directory, tarball_paths, 0)`
  unfoldable pub get_count : Bool → FilePath → List FilePath → Action ℕ
  get_count match directory tarball_paths = do
    there ← isdir directory
    if match
        then pure 0
        else if there
        then count_compilable_files directory
        else count_tarballs tarball_paths

  unfoldable pub count_dirs : List FilePath → Action ℕ
  count_dirs [] = pure 0
  count_dirs (d ∷ ds) = do
    let rest = count_dirs ds
    there ← isdir d
    n ← (if there then count_compilable_files d else pure 0)
    m ← rest
    pure (n + m)

  unfoldable pub count_s6 : Bool → List FilePath → List FilePath → Action ℕ
  count_s6 true dirs tarballs = pure 0
  count_s6 false dirs tarballs = do
    n ← count_dirs dirs
    if n == 0 then count_tarballs tarballs else pure n

  abbrev entry : ℕ → Bool → StageFiles
  entry n cached = record { files = n; status = if cached then "Cached" else "Needs Compile" }

  -- `analyze_compilation_files(context)`
  unfoldable pub analyze_compilation_files : Action ⊤
  analyze_compilation_files = do
    linux_ver ← config_at "LINUX_VERSION"
    busybox_ver ← config_at "BUSYBOX_VERSION"
    skalibs_ver ← config_get "SKALIBS_VERSION" "0.0.0.0"
    execline_ver ← config_get "EXECLINE_VERSION" "0.0.0.0"
    s6_ver ← config_get "S6_VERSION" "0.0.0.0"
    c ← gets (λ w. w.context)
    let linux_tar = c.download_dir / tarball "linux" linux_ver "tar.xz"
    let busybox_tar = c.download_dir / tarball "busybox" busybox_ver "tar.bz2"
    let skalibs_tar = c.download_dir / tarball "skalibs" skalibs_ver "tar.gz"
    let execline_tar = c.download_dir / tarball "execline" execline_ver "tar.gz"
    let s6_tar = c.download_dir / tarball "s6" s6_ver "tar.gz"
    linux_tar_hash ← get_file_hash linux_tar
    kernel_flags ← check_stage_cache "CompileKernel" (expected_hash linux_ver linux_tar_hash)
    kernel_match ← both kernel_flags (exists (c.nochanges_dir / "bzImage"))
    busybox_tar_hash ← get_file_hash busybox_tar
    busybox_flags ← check_stage_cache "CompileBusybox" (expected_hash busybox_ver busybox_tar_hash)
    busybox_match ← both busybox_flags (exists (c.nochanges_dir / "busybox_install.tar.gz"))
    skalibs_tar_hash ← get_file_hash skalibs_tar
    execline_tar_hash ← get_file_hash execline_tar
    s6_tar_hash ← get_file_hash s6_tar
    s6_flags ← check_stage_cache "CompileS6" (
        expected_s6_hash skalibs_ver execline_ver s6_ver skalibs_tar_hash execline_tar_hash
          s6_tar_hash)
    s6_match ← both s6_flags (exists (c.nochanges_dir / "s6_install.tar.gz"))
    kernel_mod_hash ← get_dir_hash (c.workspace_dir / "kernel")
    kernel_mod_flags ← check_stage_cache "CompileKernelModule" kernel_mod_hash
    kernel_mod_match ← both kernel_mod_flags (exists (c.nochanges_dir / "pronze.ko"))
    sdk_dir_hash ← get_dir_hash (c.workspace_dir / "sdk")
    test_dir_hash ← get_dir_hash (c.workspace_dir / "test")
    conf_hash ← get_file_hash (c.workspace_dir / "pipeline.conf")
    sdk_flags ←
        check_stage_cache "CompileSDK"
          (env.sha256 (join "-" (sdk_dir_hash ∷ test_dir_hash ∷ conf_hash ∷ [])))
    sdk_match ← both sdk_flags (exists (c.nochanges_dir / "libpronze.so"))
    daemon_hash ← get_dir_hash (c.workspace_dir / "daemon")
    daemon_flags ← check_stage_cache "CompileDaemon" daemon_hash
    daemon_match ← both daemon_flags (exists (c.nochanges_dir / "pronzed"))
    kernel_cnt ← get_count kernel_match (c.src_dir / ("linux-" <> linux_ver)) (linux_tar ∷ [])
    busybox_cnt ←
        get_count busybox_match (c.src_dir / ("busybox-" <> busybox_ver)) (busybox_tar ∷ [])
    s6_cnt ←
        count_s6 s6_match
          (c.src_dir / ("skalibs-" <> skalibs_ver)
            ∷ c.src_dir / ("execline-" <> execline_ver)
            ∷ c.src_dir / ("s6-" <> s6_ver)
            ∷ [])
          (skalibs_tar ∷ execline_tar ∷ s6_tar ∷ [])
    mod_cnt ← get_count kernel_mod_match (c.workspace_dir / "kernel") []
    sdk_files ← count_compilable_files (c.workspace_dir / "sdk")
    test_files ← count_compilable_files (c.workspace_dir / "test")
    let sdk_cnt = if sdk_match then 0 else sdk_files + test_files
    daemon_cnt ← get_count daemon_match (c.workspace_dir / "daemon") []
    modify (λ w. record w {
      analyzer_stages =
          ("CompileKernel", entry kernel_cnt kernel_match)
          ∷ ("CompileBusybox", entry busybox_cnt busybox_match)
          ∷ ("CompileS6", entry s6_cnt s6_match)
          ∷ ("CompileKernelModule", entry mod_cnt kernel_mod_match)
          ∷ ("CompileSDK", entry sdk_cnt sdk_match)
          ∷ ("CompileDaemon", entry daemon_cnt daemon_match)
          ∷ [];
      analyzer_total = kernel_cnt + busybox_cnt + s6_cnt + mod_cnt + sdk_cnt + daemon_cnt;
    })

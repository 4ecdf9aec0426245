-- ===== src/Stages/Compile.antt =====
-- stages/busybox.py, stages/s6.py and stages/daemon.py.
pub mod Flags
use pronze.Prelude.{
  String, ◌<>◌, Bool, true, false, not, List, [], ◌∷◌, ◌==◌, string_eq, if◌then◌else◌,
}
use pronze.Prelude.Texts.{concat}
use pronze.World.{World, Env, FilePath, root, ◌/◌, join_path, show_path, dirname, Context}
use pronze.Action.{Exn, exception, ⊤, Action, pure, raise, gets, ◌>>=◌, ◌>>◌, for_each}
use pronze.Os.{exists, makedirs, copy2}
use pronze.Hashing.{get_file_hash, get_dir_hash}
use pronze.Commands.{run_cmd, run_cmd_in}
use pronze.Report.{config_at, tarball, s6_hash}
use pronze.Modules.{musl_release}
use pronze.Stages.Cache.{context, cached_stage}

abbrev musl_cc : String
musl_cc = "CC=\"musl-gcc -idirafter /usr/include -idirafter /usr/include/x86_64-linux-gnu\""

abbrev s6_configure : String
s6_configure =
    " ./configure --prefix=/usr --includedir=/usr/include/x86_64-linux-musl --libdir=/usr/lib/x86_64-linux-musl --enable-static --disable-shared"

module _ ⦃env : Env⦄ where
  unfoldable pub restore_busybox : FilePath → FilePath → Action ⊤
  restore_busybox cached_tar bb_dir =
      run_cmd (concat ("tar -xzf " ∷ show_path cached_tar ∷ " -C " ∷ show_path bb_dir ∷ []))

  unfoldable pub build_busybox : FilePath → FilePath → Action ⊤
  build_busybox cached_tar bb_dir = do
    c ← context
    linux_ver ← config_at "LINUX_VERSION"
    let config =
        concat ("\"" ∷ show_path (c.src_dir / ("linux-" <> linux_ver)) ∷ "/scripts/config\"" ∷ [])
    run_cmd_in bb_dir (concat ("make " ∷ musl_cc ∷ " defconfig" ∷ []))
    run_cmd_in bb_dir (config <> " --file .config --enable CONFIG_STATIC")
    run_cmd_in bb_dir (config <> " --file .config --disable CONFIG_TC")
    run_cmd_in bb_dir (concat ("yes \"\" | make " ∷ musl_cc ∷ " oldconfig" ∷ []))
    run_cmd_in bb_dir (concat ("make " ∷ musl_cc ∷ " -j$(nproc)" ∷ []))
    run_cmd_in bb_dir (concat ("make " ∷ musl_cc ∷ " install" ∷ []))
    run_cmd
        (concat ("tar -czf " ∷ show_path cached_tar ∷ " -C " ∷ show_path bb_dir ∷ " _install" ∷ []))

  -- `CompileBusyboxStage.run`
  unfoldable pub compile_busybox : Action ⊤
  compile_busybox = do
    c ← context
    busybox_ver ← config_at "BUSYBOX_VERSION"
    busybox_tar_hash ← get_file_hash (c.download_dir / tarball "busybox" busybox_ver "tar.bz2")
    let cached_tar = c.nochanges_dir / "busybox_install.tar.gz"
    let bb_dir = c.src_dir / ("busybox-" <> busybox_ver)
    cached_stage "CompileBusybox" (env.sha256 (concat (busybox_ver ∷ "-" ∷ busybox_tar_hash ∷ [])))
        (cached_tar ∷ []) (restore_busybox cached_tar bb_dir) (build_busybox cached_tar bb_dir)

  unfoldable pub restore_s6 : FilePath → Action ⊤
  restore_s6 cached_s6_tar = do
    makedirs (root / "tmp" / "s6_install")
    run_cmd (concat ("tar -xzPf " ∷ show_path cached_s6_tar ∷ []))

  unfoldable pub build_s6 : FilePath → FilePath → FilePath → FilePath → Action ⊤
  build_s6 skalibs_dir execline_dir s6_dir cached_s6_tar = do
    run_cmd_in skalibs_dir ("CC=musl-gcc" <> s6_configure)
    run_cmd_in skalibs_dir "make clean && make -j$(nproc) && make install"
    run_cmd_in execline_dir ("CC=musl-gcc" <> s6_configure)
    run_cmd_in execline_dir
        "make clean && make -j$(nproc) && make install && make install DESTDIR=/tmp/s6_install"
    run_cmd_in s6_dir (
        "CC=\"musl-gcc -include skalibs/cspawn.h -Duint16=uint16_t -Duint32=uint32_t -Duint64=uint64_t\""
        <> s6_configure)
    run_cmd_in s6_dir "make clean && make -j$(nproc) && make install DESTDIR=/tmp/s6_install"
    run_cmd (
        concat (
          "tar -czPf "
          ∷ show_path cached_s6_tar
          ∷ " /tmp/s6_install /usr/include/x86_64-linux-musl /usr/lib/x86_64-linux-musl"
          ∷ []))

  -- `CompileS6Stage.run`
  unfoldable pub compile_s6 : Action ⊤
  compile_s6 = do
    c ← context
    skalibs_ver ← config_at "SKALIBS_VERSION"
    execline_ver ← config_at "EXECLINE_VERSION"
    s6_ver ← config_at "S6_VERSION"
    skalibs_tar_hash ← get_file_hash (c.download_dir / tarball "skalibs" skalibs_ver "tar.gz")
    execline_tar_hash ← get_file_hash (c.download_dir / tarball "execline" execline_ver "tar.gz")
    s6_tar_hash ← get_file_hash (c.download_dir / tarball "s6" s6_ver "tar.gz")
    let cached_s6_tar = c.nochanges_dir / "s6_install.tar.gz"
    cached_stage "CompileS6"
        (s6_hash skalibs_ver execline_ver s6_ver skalibs_tar_hash execline_tar_hash s6_tar_hash)
        (cached_s6_tar ∷ []) (restore_s6 cached_s6_tar)
        (build_s6 (c.src_dir / ("skalibs-" <> skalibs_ver))
          (c.src_dir / ("execline-" <> execline_ver)) (c.src_dir / ("s6-" <> s6_ver)) cached_s6_tar)

  unfoldable pub restore_daemon : FilePath → FilePath → FilePath → Action ⊤
  restore_daemon cached_daemon target_daemon output_dir = do
    makedirs (dirname target_daemon)
    copy2 cached_daemon target_daemon
    copy2 cached_daemon output_dir

  unfoldable pub build_daemon : FilePath → FilePath → Action ⊤
  build_daemon cached_daemon target_daemon = do
    c ← context
    run_cmd_in (c.workspace_dir / "daemon")
        "cargo build --target x86_64-unknown-linux-musl --release"
    compiled ← exists target_daemon
    if compiled then pure tt else raise (exception "Failed to compile pronzed daemon")
    copy2 target_daemon cached_daemon
    copy2 cached_daemon c.output_dir

  -- `CompileDaemonStage.run`
  unfoldable pub compile_daemon : Action ⊤
  compile_daemon = do
    c ← context
    daemon_hash ← get_dir_hash (c.workspace_dir / "daemon")
    let cached_daemon = c.nochanges_dir / "pronzed"
    let target_daemon = join_path (c.workspace_dir / "daemon") musl_release / "pronzed"
    cached_stage "CompileDaemon" daemon_hash (cached_daemon ∷ [])
        (restore_daemon cached_daemon target_daemon c.output_dir)
        (build_daemon cached_daemon target_daemon)

-- ===== src/Stages/Kernel.antt =====
-- stages/kernel.py and stages/kernel_module.py.
use pronze.Prelude.{String, ◌<>◌, List, [], ◌∷◌, string_eq, if◌then◌else◌}
use pronze.Prelude.Texts.{concat}
use pronze.World.{Env, FilePath, ◌/◌, show_path}
use pronze.Action.{exception, ⊤, Action, pure, raise, ◌>>=◌, ◌>>◌, for_each}
use pronze.Os.{exists, makedirs, copy2}
use pronze.Hashing.{get_file_hash, get_dir_hash}
use pronze.Commands.{run_cmd, run_cmd_in}
use pronze.Report.{config_at, config_get, tarball}
use pronze.Stages.Cache.{context, cached_stage}
use pronze.Stages.Fetch.{clone_linux}

abbrev configs_to_enable : List String
configs_to_enable =
    "CONFIG_BPF" ∷ "CONFIG_KPROBES" ∷ "CONFIG_FTRACE" ∷ "CONFIG_FAULT_INJECTION"
    ∷ "CONFIG_PERF_EVENTS" ∷ "CONFIG_KALLSYMS" ∷ "CONFIG_KASAN" ∷ "CONFIG_DEBUG_FS"
    ∷ "CONFIG_DEVTMPFS" ∷ "CONFIG_DEVTMPFS_MOUNT" ∷ "CONFIG_DEBUG_KERNEL" ∷ "CONFIG_BTRFS_FS" ∷ []

abbrev configs_to_disable : List String
configs_to_disable = "CONFIG_PANIC_ON_OOPS" ∷ "CONFIG_BUG" ∷ []

module _ ⦃env : Env⦄ where
  unfoldable pub kernel_hash : String → String → String
  kernel_hash linux_ver tar_hash = env.sha256 (concat (linux_ver ∷ "-" ∷ tar_hash ∷ []))

  unfoldable pub restore_kernel : FilePath → FilePath → Action ⊤
  restore_kernel linux_dir cached_bzimage = do
    makedirs (linux_dir / "arch" / "x86" / "boot")
    copy2 cached_bzimage (linux_dir / "arch" / "x86" / "boot" / "bzImage")

  unfoldable pub build_kernel : FilePath → FilePath → Action ⊤
  build_kernel linux_dir cached_bzimage = do
    run_cmd_in linux_dir "make defconfig"
    for_each configs_to_enable (λ cfg. run_cmd_in linux_dir ("scripts/config --enable " <> cfg))
    for_each configs_to_disable (λ cfg. run_cmd_in linux_dir ("scripts/config --disable " <> cfg))
    run_cmd_in linux_dir "make olddefconfig"
    run_cmd_in linux_dir "make -j$(nproc)"
    copy2 (linux_dir / "arch" / "x86" / "boot" / "bzImage") cached_bzimage

  -- `CompileKernelStage.run`
  unfoldable pub compile_kernel : Action ⊤
  compile_kernel = do
    c ← context
    linux_ver ← config_at "LINUX_VERSION"
    linux_tar_hash ← get_file_hash (c.download_dir / tarball "linux" linux_ver "tar.xz")
    let linux_dir = c.src_dir / ("linux-" <> linux_ver)
    let cached_bzimage = c.nochanges_dir / "bzImage"
    cached_stage "CompileKernel" (kernel_hash linux_ver linux_tar_hash) (cached_bzimage ∷ [])
        (restore_kernel linux_dir cached_bzimage) (build_kernel linux_dir cached_bzimage)

  unfoldable pub restore_kernel_module : FilePath → FilePath → FilePath → Action ⊤
  restore_kernel_module cached_ko target_ko output_dir = do
    copy2 cached_ko target_ko
    copy2 cached_ko output_dir

  -- the sources that the module is compiled against, cloned or unpacked if they are not there
  unfoldable pub ensure_headers : String → FilePath → Action ⊤
  ensure_headers hdr_version linux_dir = do
    c ← context
    there ← exists linux_dir
    if there then pure tt else (do
      hdr_git_success ← clone_linux hdr_version linux_dir
      if hdr_git_success
          then pure tt
          else run_cmd (
              concat (
                "tar -xf "
                ∷ show_path (c.download_dir / tarball "linux" hdr_version "tar.xz")
                ∷ " -C "
                ∷ show_path c.src_dir
                ∷ [])))

  unfoldable pub build_kernel_module : FilePath → FilePath → Action ⊤
  build_kernel_module cached_ko target_ko = do
    c ← context
    linux_ver ← config_at "LINUX_VERSION"
    hdr_version ← config_get "LINUX_HEADERS_VERSION" linux_ver
    let linux_dir = c.src_dir / ("linux-" <> hdr_version)
    ensure_headers hdr_version linux_dir
    configured ← exists (linux_dir / ".config")
    if configured then pure tt else run_cmd_in linux_dir "make defconfig"
    prepared ← exists (linux_dir / "include" / "generated" / "utsrelease.h")
    if prepared then pure tt else run_cmd_in linux_dir "make modules_prepare -j$(nproc)"
    run_cmd (
        concat (
          "make KBUILD_MODPOST_WARN=1 -C "
          ∷ show_path linux_dir
          ∷ " M="
          ∷ show_path (c.workspace_dir / "kernel")
          ∷ " modules"
          ∷ []))
    compiled ← exists target_ko
    if compiled then pure tt else raise (exception "Failed to compile pronze.ko")
    copy2 target_ko cached_ko
    copy2 target_ko c.output_dir

  -- `CompileKernelModuleStage.run`
  unfoldable pub compile_kernel_module : Action ⊤
  compile_kernel_module = do
    c ← context
    kernel_mod_hash ← get_dir_hash (c.workspace_dir / "kernel")
    let cached_ko = c.nochanges_dir / "pronze.ko"
    let target_ko = c.workspace_dir / "kernel" / "pronze.ko"
    cached_stage "CompileKernelModule" kernel_mod_hash (cached_ko ∷ [])
        (restore_kernel_module cached_ko target_ko c.output_dir)
        (build_kernel_module cached_ko target_ko)

-- ===== src/Stages/Flags.antt =====
-- The flags of the compile stages: stages/kernel.py, busybox.py, s6.py, kernel_module.py and daemon.py.
use pronze.Prelude.{String, refl, string_eq}
use pronze.World.{World, Env, FilePath, ◌/◌, path_eq}
use pronze.Action.{⊤, Action, Keeps, Ends}
use pronze.Os.Flags.{IsAbsent}
use pronze.Os.Links.{IsUnmade}
use pronze.Hashing.Reads.{get_file_hash-Keeps, get_dir_hash-Keeps}
use pronze.Commands.Shell.{Survives}
use pronze.Report.Reads.{config_at-Keeps}
use pronze.Stages.Cache.Flags.{hash_name, done_name}
use pronze.Stages.Compile.{compile_busybox, compile_s6, compile_daemon, build_daemon}
use pronze.Stages.Compile.Flags.{
  IsPending, IsFinished, Finishes, finishes, behind, context-Keeps, LeavesFlags,
  build_busybox-Keeps, build_s6-Keeps, compile_busybox-Triple, compile_s6-Triple,
}
use pronze.Stages.Kernel.{compile_kernel, build_kernel, compile_kernel_module, build_kernel_module}
use pronze.Stages.Spared.{
  IsSafe, Keeps-Spares, removal, leaves, build_kernel-Keeps, build_daemon-Spares,
  build_kernel_module-Spares,
}

pub data CompileStage : Type 0 where
  kernel busybox s6 kernel_module daemon : CompileStage

abbrev pub name_of : CompileStage → String
name_of kernel = "CompileKernel"
name_of busybox = "CompileBusybox"
name_of s6 = "CompileS6"
name_of kernel_module = "CompileKernelModule"
name_of daemon = "CompileDaemon"

module _ ⦃env : Env⦄ where
  abbrev pub compile_stage : CompileStage → Action ⊤
  compile_stage kernel = compile_kernel
  compile_stage busybox = compile_busybox
  compile_stage s6 = compile_s6
  compile_stage kernel_module = compile_kernel_module
  compile_stage daemon = compile_daemon

  module _ (d : FilePath) where
    -- No command makes a file at a flag's path, or a link to it, where there is neither.
    abbrev pub IsTame : String → Type 0
    IsTame name =
        Survives (IsUnmade (d / hash_name name)) × Survives (IsUnmade (d / done_name name))

    compile_kernel-Triple :
        IsTame "CompileKernel"
        → Finishes d "CompileKernel"
            (IsSafe d "CompileKernel")
            (removal d "CompileKernel")
            compile_kernel
    unfolding compile_kernel
    compile_kernel-Triple tame =
        let X = IsSafe d "CompileKernel" in
        let r = removal d "CompileKernel" in
        behind d "CompileKernel" X r context-Keeps (λ c.
          behind d "CompileKernel" X r (config_at-Keeps _) (λ ver.
            behind d "CompileKernel" X r (get_file_hash-Keeps _) (λ h.
              finishes d "CompileKernel" X r _ _ _ (build_kernel _ _) (
                leaves d "CompileKernel" (build_kernel _ _)
                  (Keeps-Spares (d / "CompileKernel.hash")
                    (build_kernel-Keeps (d / "CompileKernel.hash") tame.0 _ _ refl refl))
                  (Keeps-Spares (d / "CompileKernel.done")
                    (build_kernel-Keeps (d / "CompileKernel.done") tame.1 _ _ refl refl))))))

    compile_kernel_module-Triple :
        IsTame "CompileKernelModule"
        → Finishes d "CompileKernelModule"
            (IsSafe d "CompileKernelModule")
            (removal d "CompileKernelModule")
            compile_kernel_module
    unfolding compile_kernel_module
    compile_kernel_module-Triple tame =
        let X = IsSafe d "CompileKernelModule" in
        let r = removal d "CompileKernelModule" in
        behind d "CompileKernelModule" X r context-Keeps (λ c.
          behind d "CompileKernelModule" X r (get_dir_hash-Keeps _) (λ h.
            finishes d "CompileKernelModule" X r _ _ _ (build_kernel_module _ _) (
              leaves d "CompileKernelModule" (build_kernel_module _ _)
                (build_kernel_module-Spares (d / "CompileKernelModule.hash") tame.0 _ _ refl refl
                  (λ p. refl))
                (build_kernel_module-Spares (d / "CompileKernelModule.done") tame.1 _ _ refl refl
                  (λ p. refl)))))

    compile_daemon-Triple :
        IsTame "CompileDaemon"
        → Finishes d "CompileDaemon"
            (IsSafe d "CompileDaemon")
            (removal d "CompileDaemon")
            compile_daemon
    unfolding compile_daemon
    compile_daemon-Triple tame =
        let X = IsSafe d "CompileDaemon" in
        let r = removal d "CompileDaemon" in
        behind d "CompileDaemon" X r context-Keeps (λ c.
          behind d "CompileDaemon" X r (get_dir_hash-Keeps _) (λ h.
            finishes d "CompileDaemon" X r _ _ _ (build_daemon _ _) (
              leaves d "CompileDaemon" (build_daemon _ _)
                (build_daemon-Spares (d / "CompileDaemon.hash") tame.0 _ _ refl refl (λ p. refl))
                (build_daemon-Spares (d / "CompileDaemon.done") tame.1 _ _ refl refl (λ p. refl)))))

    command_stage :
        (name : String) (build : Action ⊤)
        → IsTame name
        → ((q : FilePath) → Survives (IsUnmade q) → Keeps (λ w. IsUnmade q w.fs) build)
        → LeavesFlags d (IsSafe d name) name build
    command_stage name build tame k =
        leaves d name build (Keeps-Spares (d / hash_name name) (k (d / hash_name name) tame.0))
          (Keeps-Spares (d / done_name name) (k (d / done_name name) tame.1))

    -- A compile stage whose done flag is down ends with both flags up for some hash, or raises with the
    -- done flag still down, so that the next run compiles again: the kernel, BusyBox, s6, kernel module
    -- and daemon stages do, where no symbolic link leads to a flag, none is the output directory, and no
    -- command makes a flag or a link to one.
    pub compile_stage-Ends :
        (stage : CompileStage) (w : World)
        → IsTame (name_of stage)
        → IsPending d (name_of stage) w
        → IsSafe d (name_of stage) w
        → Ends
            (λ _. IsFinished d (name_of stage))
            (IsAbsent (d / done_name (name_of stage)))
            (compile_stage stage w)
    compile_stage-Ends kernel w tame p safe = (compile_kernel-Triple tame).at w (p, safe)
    compile_stage-Ends busybox w tame p safe =
        (compile_busybox-Triple d (IsSafe d "CompileBusybox") (removal d "CompileBusybox")
            (λ tar dir.
              command_stage "CompileBusybox" _ tame
                (λ q alone. build_busybox-Keeps (IsUnmade q) alone tar dir))).at
          w (p, safe)
    compile_stage-Ends s6 w tame p safe =
        (compile_s6-Triple d (IsSafe d "CompileS6") (removal d "CompileS6") (λ a b c tar.
            command_stage "CompileS6" _ tame
              (λ q alone. build_s6-Keeps (IsUnmade q) alone a b c tar))).at
          w (p, safe)
    compile_stage-Ends kernel_module w tame p safe =
        (compile_kernel_module-Triple tame).at w (p, safe)
    compile_stage-Ends daemon w tame p safe = (compile_daemon-Triple tame).at w (p, safe)

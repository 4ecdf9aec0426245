-- ===== src/Stages/Frame/Compiled.antt =====
-- The six stages that compile something.
use pronze.Prelude.{String, string_eq, nat_eq}
use pronze.World.{World, Env, FilePath, Context}
use pronze.Action.{Keeps, keeps_rules, Keeps-bind, Keeps-if}
use pronze.Os.Flags.{exists-Keeps}
use pronze.Os.Frame.{copy2-Keeps, makedirs-Keeps}
use pronze.Hashing.Reads.{get_file_hash-Keeps, get_dir_hash-Keeps}
use pronze.Commands.Frame.{IsApart, run_command-Keeps}
use pronze.Status.Frame.{update_node_status-Keeps}
use pronze.Report.Reads.{config_at-Keeps}
use pronze.Stages.Kernel.{
  restore_kernel, build_kernel, compile_kernel, restore_kernel_module, ensure_headers,
  build_kernel_module, compile_kernel_module,
}
use pronze.Stages.Compile.{
  restore_busybox, build_busybox, compile_busybox, restore_s6, build_s6, compile_s6, restore_daemon,
  build_daemon, compile_daemon,
}
use pronze.Stages.Sdk.{restore_sdk, build_sdk, compile_sdk}
use pronze.Stages.Frame.Sources.{
  context-Keeps, clone_linux-Keeps, is_cached-Keeps, restore_stage-Keeps, rebuild_stage-Keeps,
  cached_stage-Keeps,
}

module _ {Q : World → Type 0} (apart : IsApart Q) ⦃env : Env⦄ where
  restore_kernel-Keeps : (dir cached : FilePath) → Keeps Q (restore_kernel dir cached)
  unfolding restore_kernel
  restore_kernel-Keeps dir cached =
      search (keeps_rules, makedirs-Keeps apart.quiet.framed, copy2-Keeps apart.quiet.framed)

  build_kernel-Keeps : (dir cached : FilePath) → Keeps Q (build_kernel dir cached)
  unfolding build_kernel
  build_kernel-Keeps dir cached =
      search (keeps_rules, run_command-Keeps apart, copy2-Keeps apart.quiet.framed) depth 20

  pub compile_kernel-Keeps : Keeps Q compile_kernel
  unfolding compile_kernel
  compile_kernel-Keeps = Keeps-bind _ _ context-Keeps (λ c.
      Keeps-bind _ _ (config_at-Keeps _) (λ ver. Keeps-bind _ _ (get_file_hash-Keeps _) (λ h.
        cached_stage-Keeps apart _ _ _ _ _ (restore_kernel-Keeps _ _) (build_kernel-Keeps _ _))))

  restore_kernel_module-Keeps :
      (cached target output : FilePath) → Keeps Q (restore_kernel_module cached target output)
  unfolding restore_kernel_module
  restore_kernel_module-Keeps cached target output =
      search (keeps_rules, copy2-Keeps apart.quiet.framed)

  ensure_headers-Keeps : (ver : String) (dir : FilePath) → Keeps Q (ensure_headers ver dir)
  unfolding ensure_headers
  ensure_headers-Keeps ver dir =
      search (keeps_rules, exists-Keeps, clone_linux-Keeps apart, run_command-Keeps apart) depth 12

  build_kernel_module-Keeps :
      (cached target : FilePath) → Keeps Q (build_kernel_module cached target)
  unfolding build_kernel_module
  build_kernel_module-Keeps cached target =
      search
        (
          keeps_rules,
          config_at-Keeps,
          ensure_headers-Keeps,
          exists-Keeps,
          run_command-Keeps apart,
          copy2-Keeps apart.quiet.framed,
        )
        depth 30

  pub compile_kernel_module-Keeps : Keeps Q compile_kernel_module
  unfolding compile_kernel_module
  compile_kernel_module-Keeps = Keeps-bind _ _ context-Keeps (λ c.
      Keeps-bind _ _ (get_dir_hash-Keeps _) (λ h.
        cached_stage-Keeps apart _ _ _ _ _ (restore_kernel_module-Keeps _ _ _)
          (build_kernel_module-Keeps _ _)))

  restore_busybox-Keeps : (tar dir : FilePath) → Keeps Q (restore_busybox tar dir)
  unfolding restore_busybox
  restore_busybox-Keeps tar dir = search (keeps_rules, run_command-Keeps apart)

  build_busybox-Keeps : (tar dir : FilePath) → Keeps Q (build_busybox tar dir)
  unfolding build_busybox
  build_busybox-Keeps tar dir =
      search (keeps_rules, config_at-Keeps, run_command-Keeps apart) depth 30

  pub compile_busybox-Keeps : Keeps Q compile_busybox
  unfolding compile_busybox
  compile_busybox-Keeps = Keeps-bind _ _ context-Keeps (λ c.
      Keeps-bind _ _ (config_at-Keeps _) (λ ver. Keeps-bind _ _ (get_file_hash-Keeps _) (λ h.
        cached_stage-Keeps apart _ _ _ _ _ (restore_busybox-Keeps _ _) (build_busybox-Keeps _ _))))

  restore_s6-Keeps : (tar : FilePath) → Keeps Q (restore_s6 tar)
  unfolding restore_s6
  restore_s6-Keeps tar =
      search (keeps_rules, makedirs-Keeps apart.quiet.framed, run_command-Keeps apart)

  build_s6-Keeps : (a b c tar : FilePath) → Keeps Q (build_s6 a b c tar)
  unfolding build_s6
  build_s6-Keeps a b c tar = search (keeps_rules, run_command-Keeps apart) depth 20

  pub compile_s6-Keeps : Keeps Q compile_s6
  unfolding compile_s6
  compile_s6-Keeps = Keeps-bind _ _ context-Keeps (λ c. Keeps-bind _ _ (config_at-Keeps _) (λ a.
      Keeps-bind _ _ (config_at-Keeps _) (λ b. Keeps-bind _ _ (config_at-Keeps _) (λ d.
        Keeps-bind _ _ (get_file_hash-Keeps _) (λ h. Keeps-bind _ _ (get_file_hash-Keeps _) (λ i.
          Keeps-bind _ _ (get_file_hash-Keeps _) (λ j.
            cached_stage-Keeps apart _ _ _ _ _ (restore_s6-Keeps _) (build_s6-Keeps _ _ _ _))))))))

  restore_daemon-Keeps :
      (cached target output : FilePath) → Keeps Q (restore_daemon cached target output)
  unfolding restore_daemon
  restore_daemon-Keeps cached target output =
      search (keeps_rules, makedirs-Keeps apart.quiet.framed, copy2-Keeps apart.quiet.framed)

  build_daemon-Keeps : (cached target : FilePath) → Keeps Q (build_daemon cached target)
  unfolding build_daemon
  build_daemon-Keeps cached target =
      search (keeps_rules, exists-Keeps, run_command-Keeps apart, copy2-Keeps apart.quiet.framed)
        depth 20

  pub compile_daemon-Keeps : Keeps Q compile_daemon
  unfolding compile_daemon
  compile_daemon-Keeps = Keeps-bind _ _ context-Keeps (λ c.
      Keeps-bind _ _ (get_dir_hash-Keeps _) (λ h.
        cached_stage-Keeps apart _ _ _ _ _ (restore_daemon-Keeps _ _ _) (build_daemon-Keeps _ _)))

  restore_sdk-Keeps : (c : Context) → Keeps Q (restore_sdk c)
  unfolding restore_sdk
  restore_sdk-Keeps c =
      search (keeps_rules, makedirs-Keeps apart.quiet.framed, copy2-Keeps apart.quiet.framed) depth
        20

  build_sdk-Keeps : (c : Context) → Keeps Q (build_sdk c)
  unfolding build_sdk
  build_sdk-Keeps c =
      search (keeps_rules, run_command-Keeps apart, copy2-Keeps apart.quiet.framed) depth 30

  pub compile_sdk-Keeps : Keeps Q compile_sdk
  unfolding compile_sdk
  compile_sdk-Keeps = Keeps-bind _ _ context-Keeps (λ c. Keeps-bind _ _ (get_dir_hash-Keeps _) (λ h.
      Keeps-bind _ _ (get_dir_hash-Keeps _) (λ i. Keeps-bind _ _ (get_file_hash-Keeps _) (λ j.
        Keeps-bind _ _ (is_cached-Keeps apart _ _ _ _) (λ valid.
          Keeps-if valid _ _ (restore_stage-Keeps apart _ _ _ (restore_sdk-Keeps c)) (
            Keeps-bind _ _ (rebuild_stage-Keeps apart _ _ _ _ (build_sdk-Keeps c))
              (λ _. update_node_status-Keeps apart.quiet _ _ _ _)))))))

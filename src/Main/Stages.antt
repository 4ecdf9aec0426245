-- ===== src/Main/Stages.antt =====
-- The sixteen stages of pipeline.py leave alone what no build touches.
use pronze.Prelude.{◌≡◌}
use pronze.World.{World, Env}
use pronze.Action.{Ends}
use pronze.Commands.Frame.{IsApart}
use pronze.Execute.Frame.{AllKeep}
use pronze.Stages.Frame.Sources.{
  download_tarballs-Keeps, check_early_exit-Keeps, extract_tarballs-Keeps,
}
use pronze.Stages.Frame.Compiled.{
  compile_kernel-Keeps, compile_busybox-Keeps, compile_s6-Keeps, compile_kernel_module-Keeps,
  compile_sdk-Keeps, compile_daemon-Keeps,
}
use pronze.Stages.Frame.Packed.{
  assemble_rootfs-Keeps, copy_configuration_setup-Keeps, package_btrfs_image-Keeps,
  package_esp_image-Keeps, assemble_gpt_image-Keeps, clean_output-Keeps, ship_image-Keeps,
}
use pronze.Worker.{run_task}
use pronze.Worker.Frame.{shared, shared-IsUnbuilt}
use pronze.Worker.Idle.{during, afterwards, run_task-Ends}
use pronze.Main.{stages}

infixr 5 ◌also◌
abbrev ◌also◌ : {A B : Type 0} → A → B → A × B
a also b = (a, b)

pub stages-AllKeep : ⦃env : Env⦄ {Q : World → Type 0} → IsApart Q → AllKeep Q stages
unfolding stages
stages-AllKeep apart =
    download_tarballs-Keeps apart
    also check_early_exit-Keeps apart
    also extract_tarballs-Keeps apart
    also compile_kernel-Keeps apart
    also compile_busybox-Keeps apart
    also compile_s6-Keeps apart
    also compile_kernel_module-Keeps apart
    also compile_sdk-Keeps apart
    also compile_daemon-Keeps apart
    also assemble_rootfs-Keeps apart
    also copy_configuration_setup-Keeps apart
    also package_btrfs_image-Keeps apart
    also package_esp_image-Keeps apart
    also assemble_gpt_image-Keeps apart
    also clean_output-Keeps apart
    also ship_image-Keeps apart
    also tt

-- A task of the worker, with the stages of pipeline.py, takes exactly one build out of the queue and
-- ends with no build active, and the password and the guest are as they were: whatever the commands
-- do, whether the build succeeds or fails, and whether the task returns or raises.
pub run_task-stages-Ends :
    ⦃env : Env⦄ (w : World)
    → Ends (λ _ v. shared v ≡ afterwards w) (λ v. shared v ≡ afterwards w) (run_task stages w)
run_task-stages-Ends w =
    run_task-Ends w stages (stages-AllKeep (shared-IsUnbuilt (during w)).outside.apart)

-- ===== src/Qemu/Guest.antt =====
-- Whether the guest runs after it was started and stopped.
use pronze.Prelude.{String, ◌≡◌, refl, Bool, true, false, if◌then◌else◌, Bool-cases, inl, inr}
use pronze.World.{World, Env, FilePath, ◌/◌, path_exists}
use pronze.Action.{pure, gets, modify, ◌>>=◌, ◌>>◌, Ends}
use pronze.Os.{exists}
use pronze.Status.{is_alive}
use pronze.Qemu.{start_qemu_guest, launched, qemu_command, find_ovmf_firmware}

module _ ⦃env : Env⦄ where
  -- A start of the guest does not raise, and answers true exactly where the guest runs behind it,
  -- whether it ran before, has no image to run, or fails to start.
  pub start_qemu_guest-Ends :
      (ws : FilePath) (w : World)
      → Ends (λ r v. is_alive v.qemu_process ≡ r.0) (λ _. ⊥) (start_qemu_guest ws w)
  unfolding start_qemu_guest exists gets modify pure ◌>>=◌
  start_qemu_guest-Ends ws w = elim (Bool-cases (is_alive w.qemu_process)) [
    | inl up ↦ rw up up
    | inr down ↦ rw down (elim (Bool-cases (path_exists w.fs (ws / "output" / "pronzeos.img"))) [
      | inr missing ↦ rw missing down
      | inl there ↦ rw there (
          by_start
            (env.starts
              (qemu_command (find_ovmf_firmware w.fs) (ws / "output" / "pronzeos.img")
                w.qemu_display_mode)
              w.fs)
            down)
    ])
  ]
    where
      by_start :
          (up : Bool)
          → is_alive w.qemu_process ≡ false
          → Ends
              (λ (r : Bool × String) v. is_alive v.qemu_process ≡ r.0)
              (λ _. ⊥)
              ((if up
                  then (modify (
                        launched (
                          qemu_command
                            (find_ovmf_firmware w.fs)
                            (ws / "output" / "pronzeos.img")
                            w.qemu_display_mode))
                      >> pure (true, "QEMU started successfully."))
                  else pure (false, "Failed to start QEMU"))
                (record w { qemu_log_buffer = "" }))
      by_start true down = refl
      by_start false down = down

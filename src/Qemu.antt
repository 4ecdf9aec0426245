-- ===== src/Qemu.antt =====
-- The QEMU guest of build-pipeline/common.py: its start and stop, and what is read from its console.
-- The reader and the flusher are threads: each function here is one round of theirs.
pub mod Log
pub mod Guest
use pronze.Prelude.{
  ℕ, suc, ◌-◌, String, ◌<>◌, Bool, true, false, not, ◌&&◌, ◌||◌, Option, none, some, List, [], ◌∷◌,
  ◌++◌, ◌==◌, string_eq, ltb, if◌then◌else◌, contains, is_some,
}
use pronze.Prelude.Texts.{concat, count_chars, suffix_from}
use pronze.World.{
  World, Env, FilePath, root, ◌/◌, join_path, show_path, basename, Walked, walk, is_file, is_dir,
  Fs, Event, qemu_log, qemu_started, qemu_stopped, Process,
}
use pronze.Action.{⊤, Action, pure, gets, modify, ◌>>=◌, ◌>>◌}
use pronze.Os.{exists}
use pronze.Status.{broadcast, is_alive}

abbrev firmware_paths : List FilePath
firmware_paths =
    root / "opt" / "homebrew" / "share" / "qemu" / "edk2-x86_64-code.fd"
    ∷ root / "opt" / "homebrew" / "share" / "qemu" / "OVMF.fd"
    ∷ root / "usr" / "share" / "OVMF" / "OVMF_CODE.fd"
    ∷ root / "usr" / "share" / "ovmf" / "OVMF.fd"
    ∷ root / "usr" / "share" / "qemu" / "OVMF.fd"
    ∷ root / "opt" / "local" / "share" / "qemu" / "edk2-x86_64-code.fd"
    ∷ root / "usr" / "share" / "ovmf" / "x64" / "OVMF_CODE.fd"
    ∷ []

abbrev firmware_dirs : List FilePath
firmware_dirs =
    root / "opt" / "homebrew" / "share" / "qemu"
    ∷ root / "usr" / "share" / "OVMF"
    ∷ root / "usr" / "share" / "ovmf"
    ∷ root / "usr" / "share" / "qemu"
    ∷ []

abbrev firmware_names : List String
firmware_names = "edk2-x86_64-code.fd" ∷ "OVMF.fd" ∷ "OVMF_CODE.fd" ∷ []

unfoldable pub first_file : Fs → List FilePath → Option FilePath
first_file fs [] = none
first_file fs (p ∷ ps) = let rest = first_file fs ps in if is_file fs p then some p else rest

unfoldable pub first_named : List Walked → Option FilePath
first_named [] = none
first_named (x ∷ xs) =
    let rest = first_named xs in
    if contains (basename x.path) firmware_names then some x.path else rest

unfoldable pub first_in_dirs : Fs → List FilePath → Option FilePath
first_in_dirs fs [] = none
first_in_dirs fs (d ∷ ds) =
    let rest = first_in_dirs fs ds in
    elim (first_named (walk fs d)) [ none ↦ rest | some p ↦ some p ]

-- `find_ovmf_firmware()`
unfoldable pub find_ovmf_firmware : Fs → Option FilePath
find_ovmf_firmware fs = elim (first_file fs firmware_paths) [
  | none ↦ first_in_dirs fs firmware_dirs
  | some p ↦ some p
]

-- `flush_qemu_logs()`
unfoldable pub flush_qemu_logs : Action ⊤
flush_qemu_logs = do
  to_send ← gets (λ w. w.qemu_batch_buffer)
  if to_send == ""
      then pure tt
      else modify (λ w. broadcast (qemu_log to_send) (record w { qemu_batch_buffer = "" }))

abbrev pub max_log : ℕ
max_log = 200000

abbrev pub kept_log : ℕ
kept_log = 100000

-- `s[-n:]`
unfoldable pub last_chars : ℕ → String → String
last_chars n s = suffix_from (count_chars s - n) s

-- the console's log with one more character, over the two bounds of `qemu_reader`
unfoldable pub push_log : ℕ → ℕ → String → String → String
push_log bound kept log char =
    let longer = log <> char in
    if ltb bound (count_chars longer) then last_chars kept longer else longer

-- one character that `qemu_reader` has read
unfoldable pub read_char : String → World → World
read_char char w = record w {
  qemu_log_buffer = push_log max_log kept_log w.qemu_log_buffer char;
  qemu_batch_buffer = w.qemu_batch_buffer <> char;
}

-- the end of `qemu_reader`
unfoldable pub reader_ends : World → World
reader_ends w = broadcast qemu_stopped w

-- a round of `qemu_flusher`; whether it goes on
unfoldable pub flush_round : Action Bool
flush_round = do alive ← gets (λ w. is_alive w.qemu_process); flush_qemu_logs; pure alive

abbrev firmware_args : Option FilePath → List String
firmware_args none = []
firmware_args (some p) =
    "-drive" ∷ concat ("if=pflash,format=raw,unit=0,file=" ∷ show_path p ∷ ",readonly=on" ∷ []) ∷ []

abbrev pub launched : List String → World → World
launched command w = broadcast qemu_started (record w {
  qemu_process = some (record { command = command; written = ""; exit_code = none });
})

-- `qemu_process = None`: behind a `terminate` or a `kill` the process has ended, and else it runs on.
abbrev forget : Option Process → Bool → World → World
forget process ended w = record w {
  qemu_process = none;
  left_running = elim process [
    | none ↦ w.left_running
    | some p ↦ if ended then w.left_running else p ∷ w.left_running
  ];
}

-- `uname -m`, taken to be x86_64 where it fails
abbrev darwin_machine : Option String → String
darwin_machine none = "x86_64"
darwin_machine (some m) = m

module _ ⦃env : Env⦄ where
  abbrev accel_args : List String
  accel_args =
      if env.system == "Darwin"
      then (if darwin_machine env.machine == "x86_64"
          then "-accel" ∷ "hvf" ∷ "-cpu" ∷ "Penryn" ∷ []
          else "-cpu" ∷ "max" ∷ [])
      else if env.system == "Linux" && env.kvm
      then "-accel" ∷ "kvm" ∷ "-cpu" ∷ "host" ∷ []
      else []

  unfoldable pub qemu_command : Option FilePath → FilePath → String → List String
  qemu_command ovmf_path img_path mode =
      "qemu-system-x86_64"
      ∷ (accel_args
          ++ (firmware_args ovmf_path
              ++ (("-m" ∷ "1G" ∷ "-hda" ∷ show_path img_path ∷ [])
                  ++ (if mode == "serial"
                      then "-display" ∷ "none" ∷ "-serial" ∷ "stdio" ∷ []
                      else "-display" ∷ "none" ∷ "-vga" ∷ "std" ∷ "-serial" ∷ "stdio" ∷ []))))

  -- `start_qemu_guest(workspace_dir)`
  unfoldable pub start_qemu_guest : FilePath → Action (Bool × String)
  start_qemu_guest workspace_dir = do
    alive ← gets (λ w. is_alive w.qemu_process)
    let img_path = workspace_dir / "output" / "pronzeos.img"
    there ← exists img_path
    if alive
        then pure (true, "QEMU is already running.")
        else if not there
        then pure (
          false,
          concat ("Disk image not found at " ∷ show_path img_path ∷ ". Please build first!" ∷ []),
        )
        else (do
          command ← gets (λ w. qemu_command (find_ovmf_firmware w.fs) img_path w.qemu_display_mode)
          modify (λ w. record w { qemu_log_buffer = "" })
          up ← gets (λ w. env.starts command w.fs)
          if up
              then (do modify (launched command); pure (true, "QEMU started successfully."))
              else pure (false, "Failed to start QEMU"))

  -- whether `terminate` and `kill` do not raise
  abbrev stopping : Option Process → Bool
  stopping none = true
  stopping (some p) = env.stops p.command

  -- `stop_qemu_guest()`
  unfoldable pub stop_qemu_guest : Action (Bool × String)
  stop_qemu_guest = do
    process ← gets (λ w. w.qemu_process)
    if not (is_alive process) then pure (false, "QEMU is not running.") else (do
      modify (forget process (stopping process))
      pure (
          if stopping process
          then (true, "QEMU stopped successfully.")
          else (false, "Error stopping QEMU")))

-- ===== src/Commands/Shell.antt =====
-- What a command of `run_cmd` leaves as it is.
use pronze.Prelude.{ℕ, String, Bool, true, Option, none, some, nat_eq, string_eq}
use pronze.World.{World, FilePath, Env, Command, Fs}
use pronze.Action.{modify, Keeps, keeps_rules, ◌>>=◌, ◌⨾◌}
use pronze.Os.Flags.{isdir-Keeps}
use pronze.Commands.{
  append_log, execute_line, enter, log_refusal, execute_shell, run_command, append_to,
}

-- A fact about the files that no command breaks.
abbrev pub Survives : (Fs → Type 0) → ⦃env : Env⦄ → Type 0
Survives Q ⦃env⦄ = (n : ℕ) (c : Command) (fs : Fs) → Q fs → Q (env.shell n c fs).files

module _ {P : World → Type 0} where
  pub enter-Keeps : (cwd : Option FilePath) → Keeps P (enter cwd)
  enter-Keeps none = search keeps_rules
  enter-Keeps (some p) = search (keeps_rules, isdir-Keeps)

module _ (Q : Fs → Type 0) where
  log-Keeps :
      (stage t : String)
      → Keeps
          (λ w. Q w.fs)
          (modify (λ w. record w { log_buffers = append_to stage t w.log_buffers }))
  unfolding modify
  log-Keeps stage t = record { at = λ w h. h }

  pub append_log-Keeps :
      (stage : Option String) (t : String) (e : Bool) → Keeps (λ w. Q w.fs) (append_log stage t e)
  unfolding append_log
  append_log-Keeps none t e = search keeps_rules
  append_log-Keeps (some stage) t e = search (keeps_rules, log-Keeps)

  refusal-Keeps :
      (stage : Option String) (r : Option String) → Keeps (λ w. Q w.fs) (log_refusal stage r)
  refusal-Keeps stage none = search keeps_rules
  refusal-Keeps stage (some e) = append_log-Keeps stage _ true

  module _ ⦃env : Env⦄ (alone : Survives Q) where
    execute_line-Keeps : (c : Command) → Keeps (λ w. Q w.fs) (execute_line c)
    unfolding execute_line ◌>>=◌
    execute_line-Keeps c = record { at = λ w h. alone _ c w.fs h }

    execute_shell-Keeps : (c : Command) → Keeps (λ w. Q w.fs) (execute_shell c)
    unfolding execute_shell
    execute_shell-Keeps c = enter-Keeps c.cwd ⨾ λ _. execute_line-Keeps c

    -- Whether it succeeds or fails, a command keeps such a fact.
    pub run_command-Keeps : (c : Command) → Keeps (λ w. Q w.fs) (run_command c)
    unfolding run_command
    run_command-Keeps c =
        search (keeps_rules, append_log-Keeps, refusal-Keeps, execute_shell-Keeps) depth 10

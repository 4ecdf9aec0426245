-- ===== src/Commands/Frame.antt =====
-- What commands and the copies of files leave as it is: all that a build never touches.
use pronze.Prelude.{length, ℕ, String, Bool, true, Option, none, some, List, nat_eq, string_eq}
use pronze.Prelude.Dict.{Dict}
use pronze.World.{World, Env, Command, FilePath, Content, Context}
use pronze.Action.{gets, modify, pure, Keeps, keeps_rules, ◌>>=◌, ◌⨾◌}
use pronze.Os.{chmod, set_mode}
use pronze.Os.Flags.{exists-Keeps, isdir-Keeps}
use pronze.Os.Frame.{
  write-Keeps, write_text-Keeps, copy2-Keeps, make_symlink-Keeps, readlink-Keeps, islink-Keeps,
  rmtree-Keeps, remove-Keeps, copytree-Keeps, listdir-Keeps,
}
use pronze.Status.Frame.{IsQuiet}
use pronze.Commands.Shell.{enter-Keeps}
use pronze.Commands.{
  append_log, append_to, execute_line, log_refusal, execute_shell, run_command,
  copy_file_or_symlink, copy_item, copy_dir_contents, write_text_file, write_json_file,
  write_stage_flags,
}

-- `Q` reads nothing that a stage or a report of it changes.
pub record IsApart (Q : World → Type 0) : Type 0 where
  pub quiet : IsQuiet Q
  pub modes : (m : Dict FilePath ℕ) (w : World) → Q w → Q (record w { modes = m })
  pub ran : (cs : List String) (w : World) → Q w → Q (record w { commands = cs })
  pub logs : (d : Dict String String) (w : World) → Q w → Q (record w { log_buffers = d })
  pub context : (c : Context) (w : World) → Q w → Q (record w { context = c })

module _ {Q : World → Type 0} (apart : IsApart Q) where
  log-Keeps :
      (stage t : String)
      → Keeps Q (modify (λ w. record w { log_buffers = append_to stage t w.log_buffers }))
  unfolding modify
  log-Keeps stage t = record { at = λ w h. apart.logs (append_to stage t w.log_buffers) w h }

  append_log-Keeps :
      (stage : Option String) (t : String) (e : Bool) → Keeps Q (append_log stage t e)
  unfolding append_log
  append_log-Keeps none t e = search keeps_rules
  append_log-Keeps (some stage) t e = search (keeps_rules, log-Keeps)

  refusal-Keeps : (stage : Option String) (r : Option String) → Keeps Q (log_refusal stage r)
  refusal-Keeps stage none = search keeps_rules
  refusal-Keeps stage (some e) = append_log-Keeps stage _ true

  module _ ⦃env : Env⦄ where
    execute_line-Keeps : (c : Command) → Keeps Q (execute_line c)
    unfolding execute_line ◌>>=◌ gets modify pure
    execute_line-Keeps c = record {
      at = λ w h.
          apart.ran _ _
            (apart.quiet.framed.files (λ _. (env.shell (length w.commands) c w.fs).files) w h);
    }

    pub execute_shell-Keeps : (c : Command) → Keeps Q (execute_shell c)
    unfolding execute_shell
    execute_shell-Keeps c = enter-Keeps c.cwd ⨾ λ _. execute_line-Keeps c

    pub run_command-Keeps : (c : Command) → Keeps Q (run_command c)
    unfolding run_command
    run_command-Keeps c =
        search (keeps_rules, append_log-Keeps, refusal-Keeps, execute_shell-Keeps) depth 10

  mode-Keeps : (p : FilePath) (m : ℕ) → Keeps Q (modify (set_mode p m))
  unfolding modify
  mode-Keeps p m = record { at = λ w h. apart.modes _ w h }

  pub chmod-Keeps : (p : FilePath) (m : ℕ) → Keeps Q (chmod p m)
  unfolding chmod
  chmod-Keeps p m = search (keeps_rules, exists-Keeps, mode-Keeps)

  pub copy_file_or_symlink-Keeps : (src dest : FilePath) → Keeps Q (copy_file_or_symlink src dest)
  unfolding copy_file_or_symlink
  copy_file_or_symlink-Keeps src dest =
      search
        (
          keeps_rules,
          exists-Keeps,
          isdir-Keeps,
          islink-Keeps apart.quiet.framed,
          readlink-Keeps apart.quiet.framed,
          rmtree-Keeps apart.quiet.framed,
          remove-Keeps apart.quiet.framed,
          make_symlink-Keeps apart.quiet.framed,
          copy2-Keeps apart.quiet.framed,
        )
        depth 20

  copy_item-Keeps : (src dest : FilePath) (item : String) → Keeps Q (copy_item src dest item)
  copy_item-Keeps src dest item =
      search
        (
          keeps_rules,
          isdir-Keeps,
          islink-Keeps apart.quiet.framed,
          copytree-Keeps apart.quiet.framed,
          copy_file_or_symlink-Keeps,
        )
        depth 12

  pub copy_dir_contents-Keeps : (src dest : FilePath) → Keeps Q (copy_dir_contents src dest)
  unfolding copy_dir_contents
  copy_dir_contents-Keeps src dest =
      search (keeps_rules, listdir-Keeps apart.quiet.framed, copy_item-Keeps)

  pub write_text_file-Keeps : (p : FilePath) (t : String) → Keeps Q (write_text_file p t)
  unfolding write_text_file
  write_text_file-Keeps p t = write_text-Keeps apart.quiet.framed p t

  pub write_json_file-Keeps : (p : FilePath) (c : Content) → Keeps Q (write_json_file p c)
  unfolding write_json_file
  write_json_file-Keeps p c = write-Keeps apart.quiet.framed p c

  pub write_stage_flags-Keeps :
      (d : FilePath) (name hash : String) → Keeps Q (write_stage_flags d name hash)
  unfolding write_stage_flags
  write_stage_flags-Keeps d name hash = search (keeps_rules, write_text-Keeps apart.quiet.framed)

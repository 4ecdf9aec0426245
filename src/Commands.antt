-- ===== src/Commands.antt =====
-- `append_log`, `run_cmd` and the file helpers of build-pipeline/common.py.
pub mod Shell
pub mod Outcome
pub mod Frame
use pronze.Prelude.{
  ℕ, zero, suc, String, ◌<>◌, Bool, true, false, not, ◌&&◌, ◌||◌, Option, none, some, List, [], ◌∷◌,
  ◌++◌, ◌==◌, nat_eq, string_eq, if◌then◌else◌, is_some, get_or_else, length,
}
use pronze.Prelude.Texts.{concat, show_nat}
use pronze.Prelude.Int.{ℤ, pos, negsuc}
use pronze.Prelude.Dict.{Dict, lookup, insert}
use pronze.World.{World, Env, Command, Ran, FilePath, ◌/◌, basename, Content, hashes, meta, Context}
use pronze.Action.{
  Exn, called_process_error, file_not_found, ⊤, Action, pure, raise, gets, modify, ◌>>=◌, ◌>>◌,
  when, for_each,
}
use pronze.Os.{
  exists, isdir, islink, write, write_text, remove, rmtree, listdir, readlink, make_symlink, copy2,
  copytree,
}

abbrev pub append_to : String → String → Dict String String → Dict String String
append_to stage t buffers = insert stage (get_or_else (lookup stage buffers) "" <> t) buffers

-- `append_log(stage_name, text, is_error)`: errors are kept even where logs are off.
unfoldable pub append_log : Option String → String → Bool → Action ⊤
append_log none t is_error = pure tt
append_log (some stage) t is_error = do
  off ← gets (λ w. w.no_logs)
  if stage == "" || (off && not is_error)
      then pure tt
      else modify (λ w. record w { log_buffers = append_to stage t w.log_buffers })

abbrev show_int : ℤ → String
show_int (pos n) = show_nat n
show_int (negsuc n) = "-" <> show_nat (suc n)

abbrev failure_text : ℤ → String → String
failure_text code line =
    concat ("Command failed with exit code " ∷ show_int code ∷ ": " ∷ line ∷ "\n" ∷ [])

-- `if process.returncode != 0`
abbrev is_zero : ℤ → Bool
is_zero (pos zero) = true
is_zero _ = false

abbrev enter : Option FilePath → Action ⊤
enter none = pure tt
enter (some p) = do there ← isdir p; if there then pure tt else raise (file_not_found p)

-- what `process.stdin.write(input_data)` raises: nothing is written where there is no input
abbrev refused : Option String → Option String → Option String
refused none r = none
refused (some t) r = if t == "" then none else r

abbrev log_refusal : Option String → Option String → Action ⊤
log_refusal stage none = pure tt
log_refusal stage (some e) =
    append_log stage (concat ("Failed writing to stdin: " ∷ e ∷ "\n" ∷ [])) true

module _ ⦃env : Env⦄ where
  -- the command, run to its end
  unfoldable pub execute_line : Command → Action Ran
  execute_line c = do
    n ← gets (λ w. length w.commands)
    ran ← gets (λ w. env.shell n c w.fs)
    modify (λ w. record w { fs = ran.files; commands = w.commands ++ (c.line ∷ []) })
    pure ran

  -- `subprocess.Popen(…)`, which raises where its `cwd` is no directory, and the command run to its end
  unfoldable pub execute_shell : Command → Action Ran
  execute_shell c = do enter c.cwd; execute_line c

  -- `run_cmd(cmd, cwd, env, input_data)`; what goes to the terminal is left out.
  unfoldable pub run_command : Command → Action ⊤
  run_command c = do
    stage ← gets (λ w. w.current_stage_name)
    append_log stage (concat ("$ " ∷ c.line ∷ "\n" ∷ [])) false
    ran ← execute_shell c
    log_refusal stage (refused c.input ran.refusal)
    for_each ran.output (λ line. append_log stage line false)
    if is_zero ran.returncode then pure tt else (do
      append_log stage (failure_text ran.returncode c.line) true
      raise (called_process_error ran.returncode c.line (concat ran.output)))

  abbrev pub run_cmd : String → Action ⊤
  run_cmd line = run_command (record { line = line; cwd = none; input = none })

  abbrev pub run_cmd_in : FilePath → String → Action ⊤
  run_cmd_in cwd line = run_command (record { line = line; cwd = some cwd; input = none })

  abbrev pub run_cmd_with : String → String → Action ⊤
  run_cmd_with input line = run_command (record { line = line; cwd = none; input = some input })

-- `copy_file_or_symlink(src, dest)`
unfoldable pub copy_file_or_symlink : FilePath → FilePath → Action ⊤
copy_file_or_symlink src dest = do
  into ← isdir dest
  into_link ← islink dest
  let d = if into && not into_link then dest / basename src else dest
  link ← islink src
  if link
      then (do
        linkto ← readlink src
        there ← exists d
        there_link ← islink d
        there_dir ← isdir d
        when (there || there_link) (if there_dir && not there_link then rmtree d else remove d)
        make_symlink linkto d)
      else copy2 src d

abbrev pub copy_item : FilePath → FilePath → String → Action ⊤
copy_item src dest item = do
  directory ← isdir (src / item)
  link ← islink (src / item)
  if directory && not link
      then copytree (src / item) (dest / item)
      else copy_file_or_symlink (src / item) (dest / item)

-- `copy_dir_contents(src, dest)`
unfoldable pub copy_dir_contents : FilePath → FilePath → Action ⊤
copy_dir_contents src dest = do items ← listdir src; for_each items (copy_item src dest)

-- `write_text_file` and `write_json_file`
unfoldable pub write_text_file : FilePath → String → Action ⊤
write_text_file filepath content = write_text filepath content

unfoldable pub write_json_file : FilePath → Content → Action ⊤
write_json_file filepath json = write filepath json

-- `write_stage_flags(context, stage_name, stage_hash)`
unfoldable pub write_stage_flags : FilePath → String → String → Action ⊤
write_stage_flags nochanges_dir stage_name stage_hash = do
  write_text (nochanges_dir / (stage_name <> ".hash")) (stage_hash <> "\n")
  write_text (nochanges_dir / (stage_name <> ".done")) "OK\n"

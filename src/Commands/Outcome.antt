-- ===== src/Commands/Outcome.antt =====
-- How a command of `run_cmd` ends.
use pronze.Prelude.{
  zero, suc, String, ◌≡◌, refl, sym, subst, ap, ◌∙◌, Bool, true, false, Option, none, some, List,
  [], ◌∷◌, ◌++◌, ◌⊎◌, inl, inr, if◌then◌else◌, length,
}
use pronze.Prelude.Int.{ℤ, pos, negsuc}
use pronze.Prelude.Texts.{concat}
use pronze.Prelude.Dict.{Dict}
use pronze.World.{World, Env, Command, Ran, FilePath, Fs, is_dir}
use pronze.Action.{
  Result, ok, err, file_not_found, called_process_error, ⊤, Action, pure, raise, modify, gets,
  for_each, Triple, Triple-bind, Triple-pure, Triple-raise, Triple-gets, Ends, ◌>>=◌, ◌>>◌,
}
use pronze.Os.{isdir}
use pronze.Commands.{
  append_to, append_log, enter, execute_line, execute_shell, log_refusal, refused, is_zero,
  run_command, failure_text,
}

-- A line of the log does not raise, and leaves what does not read the logs.
module _ {Q E : World → Type 0}
    (logs : (d : Dict String String) (w : World) → Q w → Q (record w { log_buffers = d })) where
  log_line :
      (stage t : String)
      → Triple Q
          (modify (λ w. record w { log_buffers = append_to stage t w.log_buffers }))
          (λ _. Q)
          E
  unfolding modify
  log_line stage t = record { at = λ w h. logs (append_to stage t w.log_buffers) w h }

  unless :
      (b : Bool) (m : Action ⊤)
      → Triple Q m (λ _. Q) E
      → Triple Q (if b then pure tt else m) (λ _. Q) E
  unless true m k = Triple-pure tt (λ w h. h)
  unless false m k = k

  append_log-Triple :
      (stage : Option String) (t : String) (e : Bool) → Triple Q (append_log stage t e) (λ _. Q) E
  unfolding append_log
  append_log-Triple none t e = Triple-pure tt (λ w h. h)
  append_log-Triple (some stage) t e =
      Triple-bind _ _ (Triple-gets (λ w. w.no_logs) (λ w h. h))
        (λ off. unless _ _ (log_line stage t))

  log_lines :
      (stage : Option String) (ls : List String)
      → Triple Q (for_each ls (λ l. append_log stage l false)) (λ _. Q) E
  unfolding for_each
  log_lines stage [] = Triple-pure tt (λ w h. h)
  log_lines stage (l ∷ ls) =
      Triple-bind _ _ (append_log-Triple stage l false) (λ _. log_lines stage ls)

-- What the shell gives for the next command.
abbrev pub next_run : ⦃env : Env⦄ → Command → World → Ran
next_run ⦃env⦄ c w = env.shell (length w.commands) c w.fs

-- Whether `Popen` can enter the command's directory.
abbrev pub can_enter : Fs → Option FilePath → Bool
can_enter fs none = true
can_enter fs (some p) = is_dir fs p

module _ ⦃env : Env⦄ (c : Command) (w : World) where
  abbrev Before : World → Type 0
  Before v = (v.fs ≡ w.fs) × (v.commands ≡ w.commands)

  -- It ran once, with that exit code.
  abbrev RanTo : ℤ → World → Type 0
  RanTo code v =
      (can_enter w.fs c.cwd ≡ true)
      × (code ≡ (next_run c w).returncode)
      × (v.fs ≡ (next_run c w).files)
      × (v.commands ≡ w.commands ++ (c.line ∷ []))

  abbrev pub Succeeds : World → Type 0
  Succeeds v = RanTo (pos 0) v

  abbrev pub Fails : World → Type 0
  Fails v =
      ((can_enter w.fs c.cwd ≡ false) × Before v)
      ⊎ ((code : ℤ) × (is_zero code ≡ false) × RanTo code v)

  line_run :
      Triple
        (λ v. (can_enter w.fs c.cwd ≡ true) × Before v)
        (execute_line c)
        (λ r. RanTo r.returncode)
        Fails
  unfolding execute_line gets modify pure ◌>>=◌
  line_run = record {
    at = λ v h.
        let same : next_run c v ≡ next_run c w =
          ap (λ k. env.shell (length k) c v.fs) h.1.1
          ∙ ap (λ x. env.shell (length w.commands) c x) h.1.0 in
        (
          h.0,
          ap (λ r. r.returncode) same,
          ap (λ r. r.files) same,
          ap (λ cs. cs ++ (c.line ∷ [])) h.1.1,
        );
  }

  entered :
      (cwd : Option FilePath) (v : World)
      → v.fs ≡ w.fs
      → Ends
          (λ _ u. (u ≡ v) × (can_enter w.fs cwd ≡ true))
          (λ u. (u ≡ v) × (can_enter w.fs cwd ≡ false))
          (enter cwd v)
  unfolding pure raise gets isdir ◌>>=◌
  entered none v e = (refl, refl)
  entered (some p) v e = by_dir (is_dir v.fs p) (ap (λ x. is_dir x p) e)
    where
      by_dir :
          (b : Bool)
          → b ≡ is_dir w.fs p
          → Ends
              (λ _ u. (u ≡ v) × (is_dir w.fs p ≡ true))
              (λ u. (u ≡ v) × (is_dir w.fs p ≡ false))
              ((if b then pure tt else raise (file_not_found p)) v)
      by_dir true h = (refl, sym h)
      by_dir false h = (refl, sym h)

  enter-Triple : Triple Before (enter c.cwd) (λ _ v. (can_enter w.fs c.cwd ≡ true) × Before v) Fails
  enter-Triple = record { at = λ v h. arrive v h (enter c.cwd v) (entered c.cwd v h.0) }
    where
      arrive :
          (v : World)
          → Before v
          → (o : Result ⊤ × World)
          → Ends
              (λ _ u. (u ≡ v) × (can_enter w.fs c.cwd ≡ true))
              (λ u. (u ≡ v) × (can_enter w.fs c.cwd ≡ false))
              o
          → Ends (λ _ u. (can_enter w.fs c.cwd ≡ true) × Before u) Fails o
      arrive v h (ok _, u) k = (k.1, subst Before (sym k.0) h)
      arrive v h (err e, u) k = inl (k.1, subst Before (sym k.0) h)

  run : Triple Before (execute_shell c) (λ r. RanTo r.returncode) Fails
  unfolding execute_shell
  run = Triple-bind _ _ enter-Triple (λ _. line_run)

  fail :
      (stage : Option String) (output : List String) (code : ℤ)
      → is_zero code ≡ false
      → Triple
          (RanTo code)
          (append_log stage (failure_text code c.line) true
            >> raise {A = ⊤} (called_process_error code c.line (concat output)))
          (λ _. Succeeds)
          Fails
  fail stage output code nonzero =
      Triple-bind _ _ (append_log-Triple (λ d v h. h) stage (failure_text code c.line) true)
        (λ _. Triple-raise _ (λ v h. inr (code, nonzero, h)))

  judge :
      (stage : Option String) (output : List String) (code : ℤ)
      → Triple
          (RanTo code)
          (if is_zero code
            then pure tt
            else (append_log stage (failure_text code c.line) true
                >> raise (called_process_error code c.line (concat output))))
          (λ _. Succeeds)
          Fails
  judge stage output (pos zero) = Triple-pure tt (λ v h. h)
  judge stage output (pos (suc n)) = fail stage output (pos (suc n)) refl
  judge stage output (negsuc n) = fail stage output (negsuc n) refl

  refusal :
      (stage : Option String) (r : Option String) (code : ℤ)
      → Triple (RanTo code) (log_refusal stage r) (λ _. RanTo code) Fails
  refusal stage none code = Triple-pure tt (λ v h. h)
  refusal stage (some e) code = append_log-Triple (λ d v h. h) stage _ true

  steps : Triple Before (run_command c) (λ _. Succeeds) Fails
  unfolding run_command
  steps = Triple-bind _ _ (Triple-gets (λ v. v.current_stage_name) (λ v h. h)) (λ stage.
      Triple-bind _ _ (append_log-Triple (λ d v h. h) stage _ false) (λ _.
        Triple-bind _ _ run (λ ran.
          Triple-bind _ _ (refusal stage (refused c.input ran.refusal) ran.returncode) (λ _.
            Triple-bind _ _ (log_lines (λ d v h. h) stage ran.output)
              (λ _. judge stage ran.output ran.returncode)))))

  -- A call that returns has run the command once, with exit code 0, in a directory that is there, and
  -- leaves the files that it left. A call that raises has not run it, because its directory is not
  -- there, and then the files are as before; or has run it once, with another exit code.
  pub run_command-Ends : Ends (λ _. Succeeds) Fails (run_command c w)
  run_command-Ends = steps.at w (refl, refl)

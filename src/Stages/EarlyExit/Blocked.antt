-- ===== src/Stages/EarlyExit/Blocked.antt =====
-- The early exit that is not taken.
use pronze.Prelude.{
  String, ◌≡◌, refl, ◌∙◌, ap, Bool, true, false, not, ◌&&◌, ◌⊎◌, inl, inr, ◌==◌, string_eq,
  if◌then◌else◌, arith,
}
use pronze.World.{World, Env, FilePath, ◌/◌, Fs, path_exists, Context}
use pronze.Action.{
  ⊤, Action, modify, Ends, Keeps, Triple, Triple-bind, Triple-gets, Triple-weaken, keeps_rules,
}
use pronze.Os.{exists, write_text}
use pronze.Os.Flags.{exists-Keeps}
use pronze.Os.Frame.{write-Keeps}
use pronze.Status.Frame.{IsQuiet, update_node_status-Keeps}
use pronze.Execute.{set_context}
use pronze.Report.Reads.{compute_all_hashes-Keeps}
use pronze.Stages.Cache.{context}
use pronze.Stages.Cache.Flags.{saved_hash-Keeps}
use pronze.Stages.EarlyExit.{check_early_exit, master_hash_of, exit_early, report}

runs-IsQuiet : IsQuiet (λ w. w.context.skip_remaining ≡ false)
runs-IsQuiet = record {
  framed = record { files = λ f w h. h; clock = λ n w h. h; ids = λ n w h. h };
  progress = λ d w h. h;
  queues = λ qs w h. h;
}

-- What decides against an early exit, and that it is not yet taken.
abbrev IsAt : Bool → FilePath → Fs → World → Type 0
IsAt repackage d fs v =
    (v.context.skip_remaining ≡ false)
    × (v.context.repackage_only_active ≡ repackage)
    × (v.context.nochanges_dir ≡ d)
    × (v.fs ≡ fs)

module _ ⦃env : Env⦄ (repackage : Bool) (d : FilePath) (fs : Fs) where
  set_hash-Keeps :
      (hash : String)
      → Keeps (IsAt repackage d fs) (modify (set_context (λ c. record c { master_hash = hash })))
  unfolding modify
  set_hash-Keeps hash = record { at = λ w h. h }

  report-Keeps : (details : String) → Keeps (λ w. w.context.skip_remaining ≡ false) (report details)
  unfolding write_text
  report-Keeps details =
      search (keeps_rules, update_node_status-Keeps runs-IsQuiet, write-Keeps runs-IsQuiet.framed)
        depth 20

  abbrev AtDecision : Context → Bool → World → Type 0
  AtDecision c has_done v =
      (c.repackage_only_active ≡ repackage)
      × (has_done ≡ path_exists fs (d / "master.done"))
      × (v.context.skip_remaining ≡ false)

  get_context :
      Triple
        (IsAt repackage d fs)
        context
        (λ c v.
          (c.repackage_only_active ≡ repackage) × (c.nochanges_dir ≡ d) × IsAt repackage d fs v)
        (λ v. v.context.skip_remaining ≡ false)
  get_context = Triple-gets (λ w. w.context) (λ w h. (h.1, h.2, h))

  abbrev Known : Context → World → Type 0
  Known c v = (c.repackage_only_active ≡ repackage) × (c.nochanges_dir ≡ d) × IsAt repackage d fs v

  test_done :
      (c : Context)
      → Triple
          (Known c)
          (exists (c.nochanges_dir / "master.done"))
          (AtDecision c)
          (λ v. v.context.skip_remaining ≡ false)
  unfolding exists
  test_done c =
      Triple-gets (λ w. path_exists w.fs (c.nochanges_dir / "master.done"))
        (λ v h. (
          h.0,
          ap (λ x. path_exists x (c.nochanges_dir / "master.done")) h.2.3
              ∙ ap (λ x. path_exists fs (x / "master.done")) h.1,
          h.2.0,
        ))

  running :
      {A : Type 0} {P : World → Type 0} (m : Action A)
      → ((v : World) → P v → v.context.skip_remaining ≡ false)
      → Keeps P m
      → Triple P m (λ _. P) (λ v. v.context.skip_remaining ≡ false)
  running m h k = Triple-weaken m h k

  decide :
      (same has_done : Bool) (c : Context) (early : Action ⊤)
      → (repackage ≡ true) ⊎ (path_exists fs (d / "master.done") ≡ false)
      → Triple
          (AtDecision c has_done)
          (if not c.repackage_only_active && same && has_done
            then early
            else report "Changes detected, executing DAG")
          (λ _ v. v.context.skip_remaining ≡ false)
          (λ v. v.context.skip_remaining ≡ false)
  decide same has_done c early blocked = record {
    at = λ v h.
        otherwise v (not c.repackage_only_active && same && has_done)
          (closed c.repackage_only_active has_done same (by_context blocked h.0 h.1)) h.2;
  }
    where
      closed : (r m n : Bool) → (r ≡ true) ⊎ (m ≡ false) → (not r && n && m) ≡ false
      closed true m n h = refl
      closed false true n h = absurd (ground arith)
      closed false false n h = ground arith

      by_context :
          (repackage ≡ true) ⊎ (path_exists fs (d / "master.done") ≡ false)
          → c.repackage_only_active ≡ repackage
          → has_done ≡ path_exists fs (d / "master.done")
          → (c.repackage_only_active ≡ true) ⊎ (has_done ≡ false)
      by_context (inl e) r q = inl (r ∙ e)
      by_context (inr e) r q = inr (q ∙ e)

      otherwise :
          (v : World) (b : Bool)
          → b ≡ false
          → v.context.skip_remaining ≡ false
          → Ends
              (λ _ u. u.context.skip_remaining ≡ false)
              (λ u. u.context.skip_remaining ≡ false)
              ((if b then early else report "Changes detected, executing DAG") v)
      otherwise v true e h = absurd (ground arith)
      otherwise v false e h = (report-Keeps "Changes detected, executing DAG").at v h

  steps :
      (repackage ≡ true) ⊎ (path_exists fs (d / "master.done") ≡ false)
      → Triple
          (IsAt repackage d fs)
          check_early_exit
          (λ _ v. v.context.skip_remaining ≡ false)
          (λ v. v.context.skip_remaining ≡ false)
  unfolding check_early_exit
  steps blocked = Triple-bind _ _ (running _ (λ v h. h.0) compute_all_hashes-Keeps) (λ current.
      Triple-bind _ _ (running _ (λ v h. h.0) (set_hash-Keeps (master_hash_of current))) (λ _.
        Triple-bind _ _ get_context (λ c.
          Triple-bind _ _
            (running _ (λ v h. h.2.0) (saved_hash-Keeps (c.nochanges_dir / "master.hash")))
            (λ saved. Triple-bind _ _ (test_done c) (λ has_done.
              Triple-bind _ _
                (running _ (λ v h. h.2) (exists-Keeps (c.output_dir / "pronzeos.img")))
                (λ has_output.
                  Triple-bind _ _
                    (running _ (λ v h. h.2) (exists-Keeps (c.nochanges_dir / "pronzeos.img")))
                    (λ has_cached.
                      decide (saved == master_hash_of current) has_done c
                        (exit_early has_output has_cached) blocked)))))))

-- The early exit is not taken in a repackage-only build, nor where the flag master.done is not there:
-- `skip_remaining` stays off, whether the stage returns or raises, so that the build goes on.
pub check_early_exit-runs :
    ⦃env : Env⦄ (w : World)
    → w.context.skip_remaining ≡ false
    → (w.context.repackage_only_active ≡ true)
      ⊎ (path_exists w.fs (w.context.nochanges_dir / "master.done") ≡ false)
    → Ends
        (λ _ v. v.context.skip_remaining ≡ false)
        (λ v. v.context.skip_remaining ≡ false)
        (check_early_exit w)
check_early_exit-runs w on blocked =
    (steps w.context.repackage_only_active w.context.nochanges_dir w.fs blocked).at w
      (on, refl, refl, refl)

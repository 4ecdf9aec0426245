-- ===== src/Stages/Frame/Sources.antt =====
-- The stages that fetch the sources, the early exit, and what the compile stages share.
use pronze.Prelude.{String, Bool, Option, none, some, List, string_eq}
use pronze.World.{World, Env, FilePath, Context, Content}
use pronze.Action.{
  ⊤, Action, raise, os_error, Keeps, keeps_rules, Keeps-gets, Keeps-bind, Keeps-if, Keeps-pure,
}
use pronze.Os.{write}
use pronze.Os.Flags.{exists-Keeps, isdir-Keeps}
use pronze.Os.Frame.{write-Keeps, write_text-Keeps, copy2-Keeps, remove-Keeps, makedirs-Keeps}
use pronze.Commands.Frame.{IsApart, run_command-Keeps}
use pronze.Status.Frame.{update_node_status-Keeps}
use pronze.Report.Reads.{config_at-Keeps, compute_all_hashes-Keeps}
use pronze.Execute.Frame.{set_context-Keeps}
use pronze.Stages.Cache.{
  context, remove_if_exists, is_cached, restore_stage, rebuild_stage, cached_stage,
}
use pronze.Stages.Cache.Flags.{saved_hash-Keeps, all_exist-Keeps}
use pronze.Stages.Fetch.{
  download, clone_linux, fetch_linux, download_tarballs, extract, extract_linux, extract_tarballs,
}
use pronze.Stages.EarlyExit.{copy_if_exists, restore_all, report, exit_early, check_early_exit}

module _ {P : World → Type 0} where
  pub context-Keeps : Keeps P context
  context-Keeps = Keeps-gets (λ w. w.context)

module _ {Q : World → Type 0} (apart : IsApart Q) where
  pub remove_if_exists-Keeps : (p : FilePath) → Keeps Q (remove_if_exists p)
  unfolding remove_if_exists
  remove_if_exists-Keeps p = search (keeps_rules, exists-Keeps, remove-Keeps apart.quiet.framed)

  pub copy_if_exists-Keeps : (src dst : FilePath) → Keeps Q (copy_if_exists src dst)
  unfolding copy_if_exists
  copy_if_exists-Keeps src dst = search (keeps_rules, exists-Keeps, copy2-Keeps apart.quiet.framed)

  pub is_cached-Keeps :
      (h f : FilePath) (hash : String) (cached : List FilePath)
      → Keeps Q (is_cached h f hash cached)
  unfolding is_cached
  is_cached-Keeps h f hash cached =
      search (keeps_rules, saved_hash-Keeps, exists-Keeps, all_exist-Keeps) depth 12

  module _ ⦃env : Env⦄ where
    pub restore_stage-Keeps :
        (name : String) (f : FilePath) (restore : Action ⊤)
        → Keeps Q restore
        → Keeps Q (restore_stage name f restore)
    unfolding restore_stage
    restore_stage-Keeps name f restore k = Keeps-bind restore _ k (λ _.
        Keeps-bind _ _ (update_node_status-Keeps apart.quiet _ _ _ _)
          (λ _. write_text-Keeps apart.quiet.framed f "OK\n"))

    pub rebuild_stage-Keeps :
        (h f : FilePath) (hash : String) (work : Action ⊤)
        → Keeps Q work
        → Keeps Q (rebuild_stage h f hash work)
    unfolding rebuild_stage
    rebuild_stage-Keeps h f hash work k = Keeps-bind _ _ (remove_if_exists-Keeps f) (λ _.
        Keeps-bind _ _ (remove_if_exists-Keeps h) (λ _. Keeps-bind work _ k (λ _.
          Keeps-bind _ _ (write_text-Keeps apart.quiet.framed h _)
            (λ _. write_text-Keeps apart.quiet.framed f "OK\n"))))

    pub cached_stage-Keeps :
        (name hash : String) (cached : List FilePath) (restore work : Action ⊤)
        → Keeps Q restore
        → Keeps Q work
        → Keeps Q (cached_stage name hash cached restore work)
    unfolding cached_stage
    cached_stage-Keeps name hash cached restore work k l = Keeps-bind _ _ context-Keeps (λ c.
        Keeps-bind _ _ (is_cached-Keeps _ _ hash cached) (λ b.
          Keeps-if b _ _ (restore_stage-Keeps name _ restore k)
            (rebuild_stage-Keeps _ _ hash work l)))

    retrieved-Keeps :
        (url : String) (dest : FilePath) (o : Option Content)
        → Keeps {A = ⊤} Q (elim o [ none ↦ raise (os_error url dest) | some c ↦ write dest c ])
    retrieved-Keeps url dest none = search keeps_rules
    retrieved-Keeps url dest (some c) = write-Keeps apart.quiet.framed dest c

    download-Keeps : (url : String) (dest : FilePath) → Keeps Q (download url dest)
    unfolding download
    download-Keeps url dest = Keeps-bind _ _ (exists-Keeps dest) (λ there.
        Keeps-if there _ _ (Keeps-pure tt) (
          Keeps-bind _ _ (Keeps-gets (λ w. env.retrieve url w.fs))
            (λ o. retrieved-Keeps url dest o)))

    pub clone_linux-Keeps : (ver : String) (into : FilePath) → Keeps Q (clone_linux ver into)
    unfolding clone_linux
    clone_linux-Keeps ver into = search (keeps_rules, run_command-Keeps apart) depth 12

    fetch_linux-Keeps : (ver : String) → Keeps Q (fetch_linux ver)
    unfolding fetch_linux
    fetch_linux-Keeps ver =
        search (keeps_rules, exists-Keeps, clone_linux-Keeps, download-Keeps) depth 20

    pub download_tarballs-Keeps : Keeps Q download_tarballs
    unfolding download_tarballs
    download_tarballs-Keeps =
        search
          (
            keeps_rules,
            makedirs-Keeps apart.quiet.framed,
            config_at-Keeps,
            fetch_linux-Keeps,
            download-Keeps,
            write_text-Keeps apart.quiet.framed,
          )
          depth 50

    extract-Keeps : (archive : FilePath) (name : String) → Keeps Q (extract archive name)
    unfolding extract
    extract-Keeps archive name = search (keeps_rules, isdir-Keeps, run_command-Keeps apart) depth 12

    extract_linux-Keeps : (ver : String) → Keeps Q (extract_linux ver)
    unfolding extract_linux
    extract_linux-Keeps ver = search (keeps_rules, exists-Keeps, extract-Keeps) depth 12

    pub extract_tarballs-Keeps : Keeps Q extract_tarballs
    unfolding extract_tarballs
    extract_tarballs-Keeps =
        search
          (
            keeps_rules,
            config_at-Keeps,
            extract-Keeps,
            extract_linux-Keeps,
            write_text-Keeps apart.quiet.framed,
          )
          depth 50

    report-Keeps : (details : String) → Keeps Q (report details)
    report-Keeps details =
        search
          (keeps_rules, update_node_status-Keeps apart.quiet, write_text-Keeps apart.quiet.framed)
          depth 12

    restore_all-Keeps : (c : Context) → Keeps Q (restore_all c)
    unfolding restore_all
    restore_all-Keeps c =
        search
          (
            keeps_rules,
            copy2-Keeps apart.quiet.framed,
            copy_if_exists-Keeps,
            makedirs-Keeps apart.quiet.framed,
          )
          depth 20

    exit_early-Keeps : (has_output has_cached : Bool) → Keeps Q (exit_early has_output has_cached)
    unfolding exit_early
    exit_early-Keeps has_output has_cached =
        search (keeps_rules, set_context-Keeps apart, report-Keeps, restore_all-Keeps) depth 20

    pub check_early_exit-Keeps : Keeps Q check_early_exit
    unfolding check_early_exit
    check_early_exit-Keeps =
        search
          (
            keeps_rules,
            compute_all_hashes-Keeps,
            set_context-Keeps apart,
            saved_hash-Keeps,
            exists-Keeps,
            exit_early-Keeps,
            report-Keeps,
          )
          depth 30

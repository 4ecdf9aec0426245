-- ===== src/Report/Frame.antt =====
-- What the reports on changes and on the files to compile leave as it is.
use pronze.Prelude.{ℕ, String, Bool, true, false, List, [], ◌∷◌, string_eq, nat_eq}
use pronze.Prelude.Dict.{Dict}
use pronze.World.{
  World, Env, FilePath, Content, text, stage_builds, build_stats, hashes, meta, Change, StageFiles,
}
use pronze.Action.{modify, Keeps, keeps_rules, Keeps-bind, Keeps-if, Keeps-pure, Keeps-gets, ◌⨾◌}
use pronze.Os.{exists}
use pronze.Os.Flags.{exists-Keeps, isdir-Keeps, read-Keeps, read_text-Keeps}
use pronze.Hashing.{count_compilable_files, count_tarball_files}
use pronze.Hashing.Reads.{get_file_hash-Keeps, get_dir_hash-Keeps}
use pronze.Report.Hashes.{parse_hashes, generate_diff_report}
use pronze.Report.Reads.{config_at-Keeps, compute_all_hashes-Keeps}
use pronze.Report.Analyzer.{
  check_stage_cache, both, count_tarballs, get_count, count_dirs, count_s6,
  analyze_compilation_files,
}

module _ {P : World → Type 0} where
  check_stage_cache-Keeps : (name hash : String) → Keeps P (check_stage_cache name hash)
  unfolding check_stage_cache
  check_stage_cache-Keeps name hash = search (keeps_rules, exists-Keeps, read_text-Keeps) depth 12

  both-Keeps : (a : Bool) (p : FilePath) → Keeps P (both a (exists p))
  both-Keeps a p = search (keeps_rules, exists-Keeps)

  count_compilable_files-Keeps : (d : FilePath) → Keeps P (count_compilable_files d)
  unfolding count_compilable_files
  count_compilable_files-Keeps d = search (keeps_rules, isdir-Keeps)

  parse_hashes-Keeps : (c : Content) → Keeps P (parse_hashes c)
  parse_hashes-Keeps (hashes d) = search keeps_rules
  parse_hashes-Keeps (text s) = search keeps_rules
  parse_hashes-Keeps (stage_builds b) = search keeps_rules
  parse_hashes-Keeps (build_stats b) = search keeps_rules
  parse_hashes-Keeps (meta b) = search keeps_rules

  module _ ⦃env : Env⦄ where
    count_tarball_files-Keeps : (p : FilePath) → Keeps P (count_tarball_files p)
    unfolding count_tarball_files
    count_tarball_files-Keeps p = search (keeps_rules, exists-Keeps, read-Keeps)

    count_tarballs-Keeps : (ps : List FilePath) → Keeps P (count_tarballs ps)
    unfolding count_tarballs
    count_tarballs-Keeps [] = Keeps-pure 0
    count_tarballs-Keeps (p ∷ ps) = Keeps-bind _ _ (exists-Keeps p) (λ there.
        Keeps-bind _ _ (Keeps-if there _ _ (count_tarball_files-Keeps p) (Keeps-pure 0))
          (λ n. Keeps-bind _ _ (count_tarballs-Keeps ps) (λ m. Keeps-pure _)))

    get_count-Keeps :
        (match : Bool) (d : FilePath) (ps : List FilePath) → Keeps P (get_count match d ps)
    unfolding get_count
    get_count-Keeps match d ps =
        search (keeps_rules, isdir-Keeps, count_compilable_files-Keeps, count_tarballs-Keeps)

    count_dirs-Keeps : (ds : List FilePath) → Keeps P (count_dirs ds)
    unfolding count_dirs
    count_dirs-Keeps [] = Keeps-pure 0
    count_dirs-Keeps (d ∷ ds) = Keeps-bind _ _ (isdir-Keeps d) (λ there.
        Keeps-bind _ _ (Keeps-if there _ _ (count_compilable_files-Keeps d) (Keeps-pure 0))
          (λ n. Keeps-bind _ _ (count_dirs-Keeps ds) (λ m. Keeps-pure _)))

    count_s6-Keeps : (match : Bool) (ds ps : List FilePath) → Keeps P (count_s6 match ds ps)
    unfolding count_s6
    count_s6-Keeps true ds ps = Keeps-pure 0
    count_s6-Keeps false ds ps = search (keeps_rules, count_dirs-Keeps, count_tarballs-Keeps)

-- `Q` does not read the reports.
pub record IsUnreported (Q : World → Type 0) : Type 0 where
  pub changed : (cs : List Change) (w : World) → Q w → Q (record w { detected_changes = cs })
  pub hashed :
      (d : Dict String String) (w : World) → Q w → Q (record w { current_hashes_prefix = d })
  pub analyzed :
      (d : Dict String StageFiles) (n : ℕ) (w : World)
      → Q w
      → Q (record w { analyzer_stages = d; analyzer_total = n })

module _ {Q : World → Type 0} (unreported : IsUnreported Q) ⦃env : Env⦄ where
  changed-Keeps : (cs : List Change) → Keeps Q (modify (λ w. record w { detected_changes = cs }))
  unfolding modify
  changed-Keeps cs = record { at = λ w h. unreported.changed cs w h }

  hashed-Keeps :
      (d : World → Dict String String)
      → Keeps Q (modify (λ w. record w { current_hashes_prefix = d w }))
  unfolding modify
  hashed-Keeps d = record { at = λ w h. unreported.hashed (d w) w h }

  analyzed-Keeps :
      (d : Dict String StageFiles) (n : ℕ)
      → Keeps Q (modify (λ w. record w { analyzer_stages = d; analyzer_total = n }))
  unfolding modify
  analyzed-Keeps d n = record { at = λ w h. unreported.analyzed d n w h }

  pub generate_diff_report-Keeps : Keeps Q generate_diff_report
  unfolding generate_diff_report
  generate_diff_report-Keeps =
      search
        (
          keeps_rules, changed-Keeps, compute_all_hashes-Keeps, hashed-Keeps, exists-Keeps,
          read-Keeps, parse_hashes-Keeps,
        )
        depth 30

  -- one rule for each statement, in their order
  pub analyze_compilation_files-Keeps : Keeps Q analyze_compilation_files
  unfolding analyze_compilation_files
  analyze_compilation_files-Keeps = config_at-Keeps _ ⨾ λ _. config_at-Keeps _ ⨾ λ _.
      Keeps-gets _ ⨾ λ _. Keeps-gets _ ⨾ λ _. Keeps-gets _ ⨾ λ _. Keeps-gets _ ⨾ λ _.
      get_file_hash-Keeps _ ⨾ λ _. check_stage_cache-Keeps _ _ ⨾ λ _. both-Keeps _ _ ⨾ λ _.
      get_file_hash-Keeps _ ⨾ λ _. check_stage_cache-Keeps _ _ ⨾ λ _. both-Keeps _ _ ⨾ λ _.
      get_file_hash-Keeps _ ⨾ λ _. get_file_hash-Keeps _ ⨾ λ _. get_file_hash-Keeps _ ⨾ λ _.
      check_stage_cache-Keeps _ _ ⨾ λ _. both-Keeps _ _ ⨾ λ _. get_dir_hash-Keeps _ ⨾ λ _.
      check_stage_cache-Keeps _ _ ⨾ λ _. both-Keeps _ _ ⨾ λ _. get_dir_hash-Keeps _ ⨾ λ _.
      get_dir_hash-Keeps _ ⨾ λ _. get_file_hash-Keeps _ ⨾ λ _. check_stage_cache-Keeps _ _ ⨾ λ _.
      both-Keeps _ _ ⨾ λ _. get_dir_hash-Keeps _ ⨾ λ _. check_stage_cache-Keeps _ _ ⨾ λ _.
      both-Keeps _ _ ⨾ λ _. get_count-Keeps _ _ _ ⨾ λ _. get_count-Keeps _ _ _ ⨾ λ _.
      count_s6-Keeps _ _ _ ⨾ λ _. get_count-Keeps _ _ _ ⨾ λ _. count_compilable_files-Keeps _ ⨾ λ _.
      count_compilable_files-Keeps _ ⨾ λ _. get_count-Keeps _ _ _ ⨾ λ _. analyzed-Keeps _ _

-- ===== src/Archive/Frame.antt =====
-- What the records of builds leave as it is.
use pronze.Prelude.{String, Bool, List}
use pronze.World.{
  World, Env, FilePath, Content, text, stage_builds, build_stats, hashes, meta, StageBuild,
  BuildStats,
}
use pronze.Action.{Keeps, keeps_rules}
use pronze.Os.Flags.{exists-Keeps, read-Keeps}
use pronze.Os.Frame.{IsFramed, makedirs-Keeps, write-Keeps, time-Keeps, uuid4-Keeps}
use pronze.Archive.{
  get_stage_builds_file, load_stage_builds, save_stage_builds, update_stage_build_info,
  get_stats_file, load_build_stats, save_build_stats, update_build_stats, parse_stage_builds,
  parse_stats,
}

module _ {Q : World → Type 0} where
  parse_stage_builds-Keeps : (c : Content) → Keeps Q (parse_stage_builds c)
  parse_stage_builds-Keeps (text s) = search keeps_rules
  parse_stage_builds-Keeps (stage_builds b) = search keeps_rules
  parse_stage_builds-Keeps (build_stats b) = search keeps_rules
  parse_stage_builds-Keeps (hashes b) = search keeps_rules
  parse_stage_builds-Keeps (meta b) = search keeps_rules

  parse_stats-Keeps : (c : Content) → Keeps Q (parse_stats c)
  parse_stats-Keeps (text s) = search keeps_rules
  parse_stats-Keeps (stage_builds b) = search keeps_rules
  parse_stats-Keeps (build_stats b) = search keeps_rules
  parse_stats-Keeps (hashes b) = search keeps_rules
  parse_stats-Keeps (meta b) = search keeps_rules

module _ {Q : World → Type 0} (framed : IsFramed Q) where
  get_stage_builds_file-Keeps : (ws : FilePath) → Keeps Q (get_stage_builds_file ws)
  unfolding get_stage_builds_file
  get_stage_builds_file-Keeps ws = search (keeps_rules, makedirs-Keeps framed)

  pub load_stage_builds-Keeps : (ws : FilePath) → Keeps Q (load_stage_builds ws)
  unfolding load_stage_builds
  load_stage_builds-Keeps ws =
      search
        (
          keeps_rules, get_stage_builds_file-Keeps, exists-Keeps, read-Keeps,
          parse_stage_builds-Keeps,
        )
        depth 12

  save_stage_builds-Keeps :
      (ws : FilePath) (d : List (String × StageBuild)) → Keeps Q (save_stage_builds ws d)
  unfolding save_stage_builds
  save_stage_builds-Keeps ws d =
      search (keeps_rules, get_stage_builds_file-Keeps, write-Keeps framed) depth 12

  get_stats_file-Keeps : (ws : FilePath) → Keeps Q (get_stats_file ws)
  unfolding get_stats_file
  get_stats_file-Keeps ws = search (keeps_rules, makedirs-Keeps framed)

  pub load_build_stats-Keeps : (ws : FilePath) → Keeps Q (load_build_stats ws)
  unfolding load_build_stats
  load_build_stats-Keeps ws =
      search (keeps_rules, get_stats_file-Keeps, exists-Keeps, read-Keeps, parse_stats-Keeps) depth
        12

  save_build_stats-Keeps : (ws : FilePath) (s : BuildStats) → Keeps Q (save_build_stats ws s)
  unfolding save_build_stats
  save_build_stats-Keeps ws s =
      search (keeps_rules, get_stats_file-Keeps, write-Keeps framed) depth 12

  pub update_build_stats-Keeps :
      (ws : FilePath) (status : String) → Keeps Q (update_build_stats ws status)
  unfolding update_build_stats
  update_build_stats-Keeps ws status =
      search (keeps_rules, load_build_stats-Keeps, save_build_stats-Keeps) depth 12

  module _ ⦃env : Env⦄ where
    pub update_stage_build_info-Keeps :
        (ws : FilePath) (name status : String) (compiled : Bool)
        → Keeps Q (update_stage_build_info ws name status compiled)
    unfolding update_stage_build_info
    update_stage_build_info-Keeps ws name status compiled =
        search
          (
            keeps_rules,
            load_stage_builds-Keeps,
            uuid4-Keeps framed,
            time-Keeps framed,
            save_stage_builds-Keeps,
          )
          depth 16

-- ===== src/Status/Frame.antt =====
-- What a report of progress leaves as it is.
use pronze.Prelude.{String, Option, none, some, List}
use pronze.Prelude.Int.{ℤ}
use pronze.Prelude.Dict.{Dict}
use pronze.World.{
  World, Env, FilePath, Status, pending, running, success, failed, skipped, NodeState, Event,
}
use pronze.Action.{modify, Keeps, keeps_rules}
use pronze.Os.Frame.{IsFramed, time-Keeps}
use pronze.Archive.Frame.{
  load_stage_builds-Keeps, load_build_stats-Keeps, update_stage_build_info-Keeps,
}
use pronze.Status.{
  broadcast, begin_time, finish_time, stamp, elapsed_now, get_state_payload, record_build,
  update_node_status, send_total_report, broadcast_status,
}

-- `Q` reads neither what the calls of the system change, nor the progress, nor the clients' queues.
pub record IsQuiet (Q : World → Type 0) : Type 0 where
  pub framed : IsFramed Q
  pub progress : (d : Dict String NodeState) (w : World) → Q w → Q (record w { node_states = d })
  pub queues : (qs : List (List Event)) (w : World) → Q w → Q (record w { clients = qs })

module _ {Q : World → Type 0} (framed : IsFramed Q) ⦃env : Env⦄ where
  pub begin_time-Keeps : (start elapsed : Option ℤ) → Keeps Q (begin_time start elapsed)
  begin_time-Keeps (some t) elapsed = search keeps_rules
  begin_time-Keeps none (some t) = search (keeps_rules, time-Keeps framed)
  begin_time-Keeps none none = search (keeps_rules, time-Keeps framed)

  pub finish_time-Keeps : (start : ℤ) (elapsed : Option ℤ) → Keeps Q (finish_time start elapsed)
  finish_time-Keeps start (some t) = search keeps_rules
  finish_time-Keeps start none = search (keeps_rules, time-Keeps framed)

  pub stamp-Keeps : (s : Status) (n : NodeState) → Keeps Q (stamp s n)
  unfolding stamp
  stamp-Keeps pending n = search keeps_rules
  stamp-Keeps running n = search (keeps_rules, time-Keeps framed)
  stamp-Keeps success n = search (keeps_rules, begin_time-Keeps, finish_time-Keeps)
  stamp-Keeps failed n = search (keeps_rules, begin_time-Keeps, finish_time-Keeps)
  stamp-Keeps skipped n = search keeps_rules

  elapsed_now-Keeps : (v : World) (start : Option ℤ) → Keeps Q (elapsed_now v start)
  elapsed_now-Keeps v none = search keeps_rules depth 12
  elapsed_now-Keeps v (some t) = search (keeps_rules, time-Keeps framed) depth 12

  pub get_state_payload-Keeps : Keeps Q get_state_payload
  unfolding get_state_payload
  get_state_payload-Keeps =
      search
        (
          keeps_rules,
          elapsed_now-Keeps,
          load_build_stats-Keeps framed,
          load_stage_builds-Keeps framed,
          time-Keeps framed,
        )
        depth 20

  pub record_build-Keeps :
      (ws : FilePath) (name : String) (s : Status) → Keeps Q (record_build ws name s)
  record_build-Keeps ws name pending = update_stage_build_info-Keeps framed ws name _ _
  record_build-Keeps ws name running = update_stage_build_info-Keeps framed ws name _ _
  record_build-Keeps ws name success = update_stage_build_info-Keeps framed ws name _ _
  record_build-Keeps ws name failed = update_stage_build_info-Keeps framed ws name _ _
  record_build-Keeps ws name skipped = update_stage_build_info-Keeps framed ws name _ _

module _ {Q : World → Type 0}
    (queues : (qs : List (List Event)) (w : World) → Q w → Q (record w { clients = qs })) where
  pub broadcast-Keeps : (e : Event) → Keeps Q (modify (broadcast e))
  unfolding modify
  broadcast-Keeps e = record { at = λ w h. queues (broadcast e w).clients w h }

module _ {Q : World → Type 0} (quiet : IsQuiet Q) ⦃env : Env⦄ where
  progress-Keeps :
      (d : World → Dict String NodeState) → Keeps Q (modify (λ w. record w { node_states = d w }))
  unfolding modify
  progress-Keeps d = record { at = λ w h. quiet.progress (d w) w h }

  pub update_node_status-Keeps :
      (name : String) (s : Status) (details : String) (elapsed : Option ℤ)
      → Keeps Q (update_node_status name s details elapsed)
  unfolding update_node_status
  update_node_status-Keeps name s details elapsed =
      search
        (
          keeps_rules,
          stamp-Keeps quiet.framed,
          progress-Keeps,
          record_build-Keeps quiet.framed,
          load_stage_builds-Keeps quiet.framed,
          time-Keeps quiet.framed,
          get_state_payload-Keeps quiet.framed,
          broadcast-Keeps quiet.queues,
        )
        depth 30

  pub send_total_report-Keeps : (t : ℤ) (s : String) → Keeps Q (send_total_report t s)
  unfolding send_total_report
  send_total_report-Keeps t s = search (keeps_rules, broadcast-Keeps quiet.queues) depth 12

  status-Keeps :
      (e : World → Event) (f g : World → Event)
      → Keeps Q (modify (λ w. broadcast (e w) (broadcast (f w) (broadcast (g w) w))))
  unfolding modify
  status-Keeps e f g = record {
    at = λ w h. quiet.queues (broadcast (e w) (broadcast (f w) (broadcast (g w) w))).clients w h;
  }

  pub broadcast_status-Keeps : Keeps Q broadcast_status
  unfolding broadcast_status
  broadcast_status-Keeps =
      search (keeps_rules, get_state_payload-Keeps quiet.framed, status-Keeps) depth 20

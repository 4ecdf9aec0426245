-- ===== src/Status/Update.antt =====
-- What `update_node_status` records of a stage.
use pronze.Prelude.{
  String, ◌≡◌, refl, ap, false, Option, none, some, List, ◌==◌, string_eq, arith, beq_refl,
}
use mathlib.Core.Option.{some-injective}
use pronze.Prelude.Int.{ℤ, ◌+ℤ◌}
use pronze.Prelude.Dict.{Dict, lookup, insert, lookup-insert}
use pronze.World.{World, Env, Status, pending, running, success, failed, skipped, NodeState, Event}
use pronze.Action.{
  Action, modify, Keeps, Keeps-gets, Keeps-bind, Keeps-if, Keeps-pure, Triple, Triple-bind,
  Triple-pure, Triple-weaken, Ends,
}
use pronze.Os.{time}
use pronze.Os.Frame.{IsFramed, time-Keeps}
use pronze.Archive.Frame.{load_stage_builds-Keeps}
use pronze.Status.{stamp, finish_time, update_node_status}
use pronze.Status.Frame.{
  begin_time-Keeps, get_state_payload-Keeps, record_build-Keeps, broadcast-Keeps,
}

-- The times of a stage, by its status and how long it took.
abbrev pub HasTimes : Status → NodeState → Type 0
HasTimes success n =
    (start : ℤ) × (end : ℤ) × (n.start_time ≡ some start)
    × (n.end_time ≡ some end)
    × ((t : ℤ) → n.elapsed ≡ some t → end ≡ start +ℤ t)
HasTimes failed n =
    (start : ℤ) × (end : ℤ) × (n.start_time ≡ some start)
    × (n.end_time ≡ some end)
    × ((t : ℤ) → n.elapsed ≡ some t → end ≡ start +ℤ t)
HasTimes running n = ((start : ℤ) × (n.start_time ≡ some start)) × (n.end_time ≡ none)
HasTimes skipped n = (n.start_time ≡ none) × (n.end_time ≡ none)
HasTimes pending n = Unit

-- The entry has what the call was given, and times that fit its status.
pub record IsStamped (s : Status) (details : String) (elapsed : Option ℤ) (n : NodeState)
    : Type 0 where
  pub has_status : n.status ≡ s
  pub has_details : n.details ≡ details
  pub has_elapsed : n.elapsed ≡ elapsed
  pub has_times : HasTimes s n

states-IsFramed : (d : Dict String NodeState) → IsFramed (λ w. w.node_states ≡ d)
states-IsFramed d = record { files = λ f w h. h; clock = λ n w h. h; ids = λ n w h. h }

module _ ⦃env : Env⦄ (d : Dict String NodeState) where
  weak :
      {A : Type 0} (m : Action A)
      → Keeps (λ w. w.node_states ≡ d) m
      → Triple (λ w. w.node_states ≡ d) m (λ _ w. w.node_states ≡ d) (λ _. Unit)
  weak m k = Triple-weaken m (λ w h. tt) k

  finish_time-Ends :
      (start : ℤ) (elapsed : Option ℤ)
      → Triple
          (λ w. w.node_states ≡ d)
          (finish_time start elapsed)
          (λ end w. (w.node_states ≡ d) × ((t : ℤ) → elapsed ≡ some t → end ≡ start +ℤ t))
          (λ _. Unit)
  unfolding time
  finish_time-Ends start (some e) =
      Triple-pure (start +ℤ e) (λ w h. (h, λ t x. ap (λ u. start +ℤ u) (some-injective e t x)))
  finish_time-Ends start none = record { at = λ w h. (h, λ t x. absurd (ground (arith, x))) }

  stamp-IsStamped :
      (s : Status) (old : NodeState) (details : String) (elapsed : Option ℤ)
      → Triple
          (λ w. w.node_states ≡ d)
          (stamp s (record old { status = s; details = details; elapsed = elapsed }))
          (λ n w. (w.node_states ≡ d) × IsStamped s details elapsed n)
          (λ _. Unit)
  unfolding stamp
  stamp-IsStamped pending old details elapsed = Triple-pure _ (λ w h.
      (h, record { has_status = refl; has_details = refl; has_elapsed = refl; has_times = tt }))
  stamp-IsStamped running old details elapsed =
      Triple-bind _ _ (weak time (time-Keeps (states-IsFramed d))) (λ now. Triple-pure _ (λ w h. (
        h,
        record {
          has_status = refl;
          has_details = refl;
          has_elapsed = refl;
          has_times = ((now, refl), refl);
        },
      )))
  stamp-IsStamped skipped old details elapsed = Triple-pure _ (λ w h. (
    h,
    record { has_status = refl; has_details = refl; has_elapsed = refl; has_times = (refl, refl) },
  ))
  stamp-IsStamped success old details elapsed =
      Triple-bind _ _ (weak _ (begin_time-Keeps (states-IsFramed d) old.start_time elapsed))
        (λ start. Triple-bind _ _ (finish_time-Ends start elapsed) (λ end. Triple-pure _ (λ w h. (
          h.0,
          record {
            has_status = refl;
            has_details = refl;
            has_elapsed = refl;
            has_times = (start, end, refl, refl, h.1);
          },
        ))))
  stamp-IsStamped failed old details elapsed =
      Triple-bind _ _ (weak _ (begin_time-Keeps (states-IsFramed d) old.start_time elapsed))
        (λ start. Triple-bind _ _ (finish_time-Ends start elapsed) (λ end. Triple-pure _ (λ w h. (
          h.0,
          record {
            has_status = refl;
            has_details = refl;
            has_elapsed = refl;
            has_times = (start, end, refl, refl, h.1);
          },
        ))))

-- The entry of the stage is stamped, and those of all others are as they were in `d`.
pub record IsUpdated (d : Dict String NodeState) (name : String) (s : Status) (details : String)
    (elapsed : Option ℤ) (w : World) : Type 0 where
  pub entry : NodeState
  pub found : lookup name w.node_states ≡ some entry
  pub stamped : IsStamped s details elapsed entry
  pub others :
      (other : String) → (name == other) ≡ false → lookup other w.node_states ≡ lookup other d

module _ ⦃env : Env⦄ (d : Dict String NodeState) (name : String) (s : Status) (details : String)
    (elapsed : Option ℤ) where
  IsUpdated-IsFramed : IsFramed (IsUpdated d name s details elapsed)
  IsUpdated-IsFramed = record {
    files = λ f w h. record {
      entry = h.entry;
      found = h.found;
      stamped = h.stamped;
      others = h.others;
    };
    clock = λ n w h. record {
      entry = h.entry;
      found = h.found;
      stamped = h.stamped;
      others = h.others;
    };
    ids = λ n w h. record {
      entry = h.entry;
      found = h.found;
      stamped = h.stamped;
      others = h.others;
    };
  }

  broadcast-IsUpdated :
      (qs : List (List Event)) (w : World)
      → IsUpdated d name s details elapsed w
      → IsUpdated d name s details elapsed (record w { clients = qs })
  broadcast-IsUpdated qs w h = record {
    entry = h.entry;
    found = h.found;
    stamped = h.stamped;
    others = h.others;
  }

  store :
      (n : NodeState)
      → Triple
          (λ w. (w.node_states ≡ d) × IsStamped s details elapsed n)
          (modify (λ w. record w { node_states = insert name n w.node_states }))
          (λ _. IsUpdated d name s details elapsed)
          (λ _. Unit)
  unfolding modify
  store n = record {
    at = λ w h. record {
      entry = n;
      found = rw (lookup-insert name name n w.node_states) (rw (beq_refl name));
      stamped = h.1;
      others = λ other ne. rw (lookup-insert name other n w.node_states) (rw (ne, h.0));
    };
  }

  steps :
      Triple
        (λ w. w.node_states ≡ d)
        (update_node_status name s details elapsed)
        (λ _. IsUpdated d name s details elapsed)
        (λ _. Unit)
  unfolding update_node_status
  steps = Triple-bind _ _ (weak d _ (Keeps-gets _)) (λ logs.
      Triple-bind _ _ (weak d _ (Keeps-gets _)) (λ old.
        Triple-bind _ _ (stamp-IsStamped d s old details elapsed) (λ new.
          Triple-bind _ _ (store new) (λ _.
            Triple-weaken {E = IsUpdated d name s details elapsed} _ (λ w h. tt)
              (Keeps-bind _ _ (Keeps-gets _) (λ ws.
                Keeps-bind _ _ (record_build-Keeps IsUpdated-IsFramed ws name s) (λ _.
                  Keeps-bind _ _ (load_stage_builds-Keeps IsUpdated-IsFramed ws) (λ builds.
                    Keeps-bind _ _ (Keeps-gets _) (λ no_view. Keeps-if no_view _ _ (Keeps-pure tt) (
                      Keeps-bind _ _ (Keeps-gets _) (λ start.
                        Keeps-bind _ _ (time-Keeps IsUpdated-IsFramed) (λ now.
                          Keeps-bind _ _ (get_state_payload-Keeps IsUpdated-IsFramed)
                            (λ payload. broadcast-Keeps broadcast-IsUpdated _)))))))))))))

-- After a report on a stage that returns, the entry of the stage has the status, the text and the
-- duration of the call; a running stage has a start and no end, a finished one both, as far apart as
-- its duration says if there is one, and a skipped one neither. The entries of the other stages stay.
pub update_node_status-Ends :
    ⦃env : Env⦄ (name : String) (s : Status) (details : String) (elapsed : Option ℤ) (w : World)
    → Ends
        (λ _. IsUpdated w.node_states name s details elapsed)
        (λ _. Unit)
        (update_node_status name s details elapsed w)
update_node_status-Ends name s details elapsed w =
    (steps w.node_states name s details elapsed).at w refl

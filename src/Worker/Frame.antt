-- ===== src/Worker/Frame.antt =====
-- What a task of `build_worker` leaves as it is, and the sixteen stages with it.
use pronze.Prelude.{ℕ, String, Bool, false, Option, List, ◌≡◌}
use pronze.Prelude.Int.{ℤ, pos}
use pronze.World.{World, Env, Process}
use pronze.Action.{modify, Keeps, Keeps-bind, Keeps-gets, Keeps-for_each}
use pronze.Os.Frame.{makedirs-Keeps, time-Keeps, uuid4-Keeps}
use pronze.Status.Frame.{broadcast_status-Keeps}
use pronze.Graph.{PipelineNode}
use pronze.Execute.Frame.{IsOutside, AllKeep, execute-Keeps, start-Keeps}
use pronze.Worker.{reset_node, start_build}

-- `Q` reads nothing that a build changes, from its first reset on.
pub record IsUnbuilt (Q : World → Type 0) : Type 0 where
  pub outside : IsOutside Q
  pub reset :
      (u : String) (b : Bool) (t : ℤ) (s : String) (w : World)
      → Q w
      → Q (record w {
        build_uuid = u;
        build_completed = b;
        total_build_time = t;
        final_status_text = s;
      })

module _ {Q : World → Type 0} (unbuilt : IsUnbuilt Q) ⦃env : Env⦄ where
  reset-Keeps :
      (u : String)
      → Keeps Q (
          modify (λ w. record w {
            build_uuid = u;
            build_completed = false;
            total_build_time = pos 0;
            final_status_text = "";
          }))
  unfolding modify
  reset-Keeps u = record { at = λ w h. unbuilt.reset u false (pos 0) "" w h }

  reset_node-Keeps : (node : PipelineNode) → Keeps Q (modify (reset_node node))
  unfolding modify
  reset_node-Keeps node = record {
    at = λ w h. unbuilt.outside.apart.logs _ _ (unbuilt.outside.apart.quiet.progress _ w h);
  }

  -- A build keeps what its stages keep.
  pub start_build-Keeps :
      (order : List PipelineNode) → AllKeep Q order → Keeps Q (start_build order)
  unfolding start_build
  start_build-Keeps order k = Keeps-bind _ _ (Keeps-gets _) (λ c.
      Keeps-bind _ _ (Keeps-for_each _ _ (makedirs-Keeps unbuilt.outside.apart.quiet.framed)) (λ _.
        Keeps-bind _ _ (uuid4-Keeps unbuilt.outside.apart.quiet.framed) (λ u.
          Keeps-bind _ _ (reset-Keeps u) (λ _.
            Keeps-bind _ _ (time-Keeps unbuilt.outside.apart.quiet.framed) (λ now.
              Keeps-bind _ _ (start-Keeps unbuilt.outside now) (λ _.
                Keeps-bind _ _ (Keeps-for_each order _ reset_node-Keeps) (λ _.
                  Keeps-bind _ _ (broadcast_status-Keeps unbuilt.outside.apart.quiet)
                    (λ _. execute-Keeps unbuilt.outside order k))))))))

-- What the portal and the worker share, and the guest.
pub record Shared : Type 0 where
  pub queued : ℕ
  pub active : Bool
  pub password : String
  pub guest : Option Process

abbrev pub shared : World → Shared
shared w = record {
  queued = w.build_queue;
  active = w.build_active;
  password = w.portal_password;
  guest = w.qemu_process;
}

pub shared-IsUnbuilt : (s : Shared) → IsUnbuilt (λ w. shared w ≡ s)
shared-IsUnbuilt s = record {
  outside = record {
    apart = record {
      quiet = record {
        framed = record { files = λ f w h. h; clock = λ n w h. h; ids = λ n w h. h };
        progress = λ d w h. h;
        queues = λ qs w h. h;
      };
      modes = λ m w h. h;
      ran = λ cs w h. h;
      logs = λ d w h. h;
      context = λ c w h. h;
    };
    stage = λ s w h. h;
    start = λ t w h. h;
    result = λ t s b w h. h;
    number = λ n w h. h;
  };
  reset = λ u b t s w h. h;
}

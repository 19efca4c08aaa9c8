-- ===== src/Worker/Stream/Ring.antt =====
-- The ring of the window and what adjusts it by the time keep the stream: `congestion_control` of
-- server/backend/worker.cpp.
use clean_slate_inc.Prelude.{
  ℕ, ◌≡◌, inl, inr, refl, Bool, true, false, not, ◌&&◌, List, if◌then◌else◌, sub32, ltb, Bool-cases,
  ◌==◌,
}
use clean_slate_inc.Congestion.{Cc, Double, cc_reaction_time}
use clean_slate_inc.LoadBalancer.{SubOp}
use clean_slate_inc.QueuePair.{Spsc}
use clean_slate_inc.Worker.Defs.{Worker}
use clean_slate_inc.Worker.Loop.{ecn_marked, adjust_rate, note_window, congestion_control}
use clean_slate_inc.Worker.Stream.{InStream}
use clean_slate_inc.Worker.Stream.Kept.{SameQueues, IsNext-same, InStream-kept}

module _ {L F : Type 0} (q : Spsc SubOp) (group : ℕ) where
  -- All but the time of the last answer and the congestion control stays.
  pub record SameRing (w w' : Worker q.Queue L F) : Type 0 where
    pub window :
        w'.window
        ≡ record w.window { last_ack_time_stamp = w'.window.last_ack_time_stamp; cc = w'.window.cc }
    pub queues : SameQueues q group w w'

  timed :
      {n : ℕ} {w : Worker q.Queue L F} {made got : List SubOp} (t : ℕ) (c : Cc F)
      → InStream q group n w made got
      → InStream q group n
          (record w { window = record w.window { last_ack_time_stamp = t; cc = c } })
          made
          got
  timed t c v = record {
    window = record {
      run = record {
        from_in = v.window.run.from_in;
        base_in = v.window.run.base_in;
        short = v.window.run.short;
        end = v.window.run.end;
        psns = v.window.run.psns;
        groups = v.window.run.groups;
      };
      right = v.window.right;
    };
    parts = v.parts;
    queues = v.queues;
    next = v.next;
    follows = v.follows;
    numbers = IsNext-same q group refl refl refl v.numbers;
    current = v.current;
  }

  pub InStream-ring :
      {n : ℕ} {w w' : Worker q.Queue L F} {made got : List SubOp}
      → InStream q group n w made got
      → SameRing w w'
      → InStream q group n w' made got
  InStream-ring {w' = w'} v s =
      InStream-kept q group (timed w'.window.last_ack_time_stamp w'.window.cc v)
        (record {
          qp = s.queues.qp;
          progress = s.queues.progress;
          psn_of = s.queues.psn_of;
          current = s.queues.current;
        })
        s.window

  pub choose :
      {n : ℕ} {x y : Worker q.Queue L F} {made got : List SubOp} (b : Bool)
      → InStream q group n x made got
      → InStream q group n y made got
      → InStream q group n (if b then x else y) made got
  choose true vx vy = vx
  choose false vx vy = vy

  same_queues : {w : Worker q.Queue L F} → SameQueues q group w w
  same_queues = record { qp = refl; progress = refl; psn_of = refl; current = refl }

  pub same_ring : {w : Worker q.Queue L F} → SameRing w w
  same_ring = record { window = refl; queues = same_queues }

module _ {L : Type 0} (q : Spsc SubOp) (d : Double) (group : ℕ) where
  pub congestion_control-SameRing :
      (w : Worker q.Queue L d.F) → SameRing q group w (congestion_control d w)
  unfolding congestion_control note_window adjust_rate
  congestion_control-SameRing w =
      elim (Bool-cases (ltb (sub32 w.global_ts w.window.cc.prev_decrease_ts) cc_reaction_time)) [
        | inl early ↦ rw (early, congestion_control) (same_ring q group)
        | inr late ↦ elim (Bool-cases (w.ack_cnt == w.prev_ack_cnt_cc)) [
          | inl none_new ↦ rw (late, none_new, congestion_control) (same_ring q group)
          | inr new ↦ elim (Bool-cases (not (ecn_marked w.tos_monitor) && not w.pkt_loss_flag)) [
            | inr congested ↦
                rw (late, new, congested, congestion_control)
                  (record {
                    window = refl;
                    queues = record { qp = refl; progress = refl; psn_of = refl; current = refl };
                  })
            | inl free ↦
                elim (Bool-cases
                  (ltb (sub32 w.global_ts w.window.cc.prev_adjust_ts) cc_reaction_time)) [
                    | inl soon ↦ rw (late, new, free, soon, congestion_control) (same_ring q group)
                    | inr due ↦
                        rw (late, new, free, due, congestion_control)
                          (record {
                            window = refl;
                            queues = record {
                              qp = refl;
                              progress = refl;
                              psn_of = refl;
                              current = refl;
                            };
                          })
                  ]
          ]
        ]
      ]

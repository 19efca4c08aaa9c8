-- ===== src/Worker/Stream/Timed.antt =====
-- A round of `worker_loop` keeps the stream: `full_retrans`, `tx_process` and `rx_process` of
-- server/backend/worker.cpp.
use clean_slate_inc.Prelude.{
  Option, ℕ, zero, suc, ◌≡◌, inl, inr, refl, sym, ap, ◌∙◌, some, List, if◌then◌else◌, add64, sub32,
  leb, arith, Bool-cases, ◌==◌,
}
use clean_slate_inc.Op.{Op}
use clean_slate_inc.Packet.{Mbuf}
use clean_slate_inc.Congestion.{Double, max_win_len, reinit}
use clean_slate_inc.LoadBalancer.{SubOp}
use clean_slate_inc.QueuePair.{Spsc}
use clean_slate_inc.Window.{Window, get_next_position, window_tx_empty}
use clean_slate_inc.Worker.Defs.{Link, Worker, transmit, transmit_unacked}
use clean_slate_inc.Worker.Receive.{rx_process}
use clean_slate_inc.Worker.Send.{timeout_time, full_retrans, tx_process}
use clean_slate_inc.Worker.Loop.{congestion_control, worker_round}
use clean_slate_inc.Worker.Repeated.{SameState, SameState-trans, transmit-SameState}
use clean_slate_inc.Worker.Stream.{Returns, InStream}
use clean_slate_inc.Worker.Stream.Receive.{rx_loop-InStream}
use clean_slate_inc.Worker.Stream.Ack.{shift_ack-InStream}
use clean_slate_inc.Worker.Stream.Send.{shift_send-InStream}
use clean_slate_inc.Worker.Stream.Ring.{
  SameRing, InStream-ring, choose, same_ring, congestion_control-SameRing,
}

module _ (q : Spsc SubOp) (l : Link) {F : Type 0} where
  transmit_unacked-SameState :
      (fuel begin end cnt : ℕ) (w : Worker q.Queue l.State F)
      → SameState l w (transmit_unacked l fuel begin end cnt w).1
  unfolding transmit_unacked
  transmit_unacked-SameState zero begin end cnt w = ground arith
  transmit_unacked-SameState (suc fuel) begin end cnt w = elim (Bool-cases (begin == end)) [
    | inl stop ↦ rw (stop, transmit_unacked) (ground arith)
    | inr go ↦ elim (Bool-cases (w.window.state begin).acked) [
      | inl skip ↦
          rw (go, skip, transmit_unacked)
            (transmit_unacked-SameState fuel (get_next_position begin) end cnt w)
      | inr send ↦
          rw (go, send, transmit_unacked)
            (SameState-trans l (transmit-SameState l begin w) (
              transmit_unacked-SameState fuel (get_next_position begin) end (add64 cnt 1)
                (transmit l begin w)))
    ]
  ]

module _ (q : Spsc SubOp) (l : Link) (d : Double) (group : ℕ) where
  full_retrans-SameRing :
      (w : Worker q.Queue l.State d.F) → SameRing q group w (full_retrans q l d w)
  unfolding full_retrans
  full_retrans-SameRing w = elim (Bool-cases (window_tx_empty w.window)) [
    | inl empty ↦ rw (empty, full_retrans) (same_ring q group)
    | inr waits ↦
        let counted : Worker q.Queue l.State d.F = record w {
          window = record w.window { last_ack_time_stamp = w.global_ts };
          stats = record w.stats {
            full_retrans_trigger_cnt = add64 w.stats.full_retrans_trigger_cnt 1;
          };
        } in
        let s =
          transmit_unacked-SameState q l max_win_len w.window.to_ack w.window.to_send 0 counted in
        let sent = (transmit_unacked l max_win_len w.window.to_ack w.window.to_send 0 counted).1 in
        let cc = reinit d sent.global_ts sent.window.cc in
        rw (waits, full_retrans)
          (record {
            window =
                ap (λ (z : Window d.F). record z { cc = cc }) s.window
                ∙ ap (λ t. record w.window { last_ack_time_stamp = t; cc = cc })
                    (ap (λ (z : Window d.F). z.last_ack_time_stamp) (sym s.window));
            queues = record {
              qp = s.qp;
              progress = s.progress;
              psn_of = s.psn_of;
              current = s.group;
            };
          })
  ]

  -- `tx_process` fails only over a part without slots, and keeps the stream.
  tx_process-InStream :
      (ops : ℕ → Op) {n : ℕ} {w : Worker q.Queue l.State d.F} {made got : List SubOp}
      → ((a : ℕ) → (ops a).group.group_id ≡ group)
      → InStream q group n w made got
      → Returns made got
          (λ (w' : Worker q.Queue l.State d.F). (n' : ℕ) × InStream q group n' w' made got)
          (tx_process q l d ops w)
  unfolding tx_process
  tx_process-InStream ops {n} {w} {made} {got} same v =
      let noted : Worker q.Queue l.State d.F = if w.ack_cnt == w.prev_ack_cnt then w else record w {
        prev_ack_cnt = w.ack_cnt;
        window = record w.window { last_ack_time_stamp = w.global_ts };
      } in
      let waited = sub32 noted.global_ts noted.window.last_ack_time_stamp in
      let v1 : InStream q group n noted made got = choose q group (w.ack_cnt == w.prev_ack_cnt) v (
        InStream-ring q group v (record {
          window = refl;
          queues = record { qp = refl; progress = refl; psn_of = refl; current = refl };
        })) in
      let v2 =
        choose q group (leb timeout_time waited)
          (InStream-ring q group v1 (full_retrans-SameRing noted)) v1 in
      elim (shift_send-InStream q l d group ops same v2) [
        | inl (fails, slotless) ↦ inl (rw fails refl, slotless)
        | inr (w', e, (n', v3)) ↦ inr (
          if window_tx_empty w'.window
              then record w' { window = record w'.window { last_ack_time_stamp = w'.global_ts } }
              else w',
          rw e refl,
          (
            n',
            choose q group (window_tx_empty w'.window)
                (InStream-ring q group v3 (record {
                  window = refl;
                  queues = record { qp = refl; progress = refl; psn_of = refl; current = refl };
                }))
                v3,
          ),
        )
      ]

  -- `rx_process` never fails and keeps the stream, whatever arrives.
  rx_process-InStream :
      (ops : ℕ → Op) (arrived : List (Option Mbuf)) {n : ℕ} {w : Worker q.Queue l.State d.F}
      {made got : List SubOp}
      → InStream q group n w made got
      → (n' : ℕ) × (w' : Worker q.Queue l.State d.F) × (rx_process q l ops arrived w ≡ some w')
        × InStream q group n' w' made got
  unfolding rx_process
  rx_process-InStream ops arrived {n} v =
      let (w', e, v') = rx_loop-InStream q l group ops arrived v in
      let (w'', _, left, e', _, v'', _, _) = shift_ack-InStream q group n v' in
      (left, w'', rw (e, e') refl, v'')

  -- A round of a worker whose operations are all of one group fails only over a part without slots, and
  -- keeps the stream.
  pub worker_round-InStream :
      (ops : ℕ → Op) (now : ℕ) (arrived : List (Option Mbuf)) {n : ℕ}
      {w : Worker q.Queue l.State d.F} {made got : List SubOp}
      → ((a : ℕ) → (ops a).group.group_id ≡ group)
      → InStream q group n w made got
      → Returns made got
          (λ (w' : Worker q.Queue l.State d.F). (n' : ℕ) × InStream q group n' w' made got)
          (worker_round q l d ops now arrived w)
  unfolding worker_round
  worker_round-InStream ops now arrived {n} {w} {made} {got} same v =
      let v1 : InStream q group n (record w { global_ts = now }) made got =
        InStream-ring q group v (record {
          window = refl;
          queues = record { qp = refl; progress = refl; psn_of = refl; current = refl };
        }) in
      let (n2, w2, e2, v2) = rx_process-InStream ops arrived v1 in
      elim (tx_process-InStream ops same v2) [
        | inl (fails, slotless) ↦ inl (rw (e2, fails) refl, slotless)
        | inr (w3, e3, (n3, v3)) ↦ inr (
          congestion_control d w3,
          rw (e2, e3) refl,
          (n3, InStream-ring q group v3 (congestion_control-SameRing q d group w3)),
        )
      ]

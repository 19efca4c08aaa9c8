-- ===== src/Worker/Marked/Send.antt =====
-- The send side of a worker keeps the type of service of its packets: `tx_process` of
-- server/backend/worker.cpp and what it calls.
use clean_slate_inc.Prelude.{
  ◌==◌, Bool-cases, inl, inr, ℕ, zero, suc, ◌≡◌, refl, ◌∙◌, Option, none, some, Bool, arith, ◌==◌,
  ltb, add64, add32,
}
use clean_slate_inc.Op.{Op}
use clean_slate_inc.Congestion.{Double, max_win_len}
use clean_slate_inc.LoadBalancer.{SubOp}
use clean_slate_inc.QueuePair.{Spsc, pop_req}
use clean_slate_inc.Window.{PktState, update, get_next_position, window_tx_empty, window_len}
use clean_slate_inc.Worker.Defs.{Link, Worker, Progress, transmit, transmit_unacked}
use clean_slate_inc.Worker.Send.{
  max_pkt_burst, filled_pkt, fill_pkt, new_state, next_state, next_sub_op, fill_next, gen_pkt,
  send_loop, expect_win_len, shift_send, full_retrans, tx_process,
}
use clean_slate_inc.Worker.Marked.{
  HasTos, Holds, absent, present, Holds-bind, Holds-each, Holds-if, IsMarked, IsMarked-kept,
  IsMarked-if, transmit-IsMarked,
}

-- `fill_pkt` does not write the type of service.
next_state-tos :
    (op : Op) (sub_op : SubOp) (p : Progress) (old : PktState) (mem : ℕ → ℕ)
    → (next_state op sub_op p old mem).pkt.type_of_service ≡ old.pkt.type_of_service
unfolding next_state new_state filled_pkt
next_state-tos op sub_op p old mem = refl

module _ {F : Type 0} (q : Spsc SubOp) (l : Link) (tos : ℕ) where
  abbrev Marked : Worker q.Queue l.State F → Type 0
  Marked w = IsMarked l tos w

  -- of the result of `gen_pkt`
  abbrev MarkedPkt : Bool × Worker q.Queue l.State F → Type 0
  MarkedPkt r = IsMarked l tos r.1

  -- of the result of `send_loop`
  abbrev MarkedLoop : ℕ × ℕ × Worker q.Queue l.State F → Type 0
  MarkedLoop r = IsMarked l tos r.2

  next_sub_op-IsMarked :
      (ops : ℕ → Op) (w : Worker q.Queue l.State F) → Marked w → Marked (next_sub_op q ops w).1
  unfolding next_sub_op
  next_sub_op-IsMarked ops w v = IsMarked-kept l tos v (ground arith) (ground arith)

  filled-IsMarked :
      (position : ℕ) (s : PktState) (w : Worker q.Queue l.State F)
      → HasTos tos s.pkt
      → Marked w
      → Marked (record w { window = record w.window { state = update w.window.state position s } })
  filled-IsMarked position s w h v = record { window = each; sent = v.sent }
    where
      each : (p : ℕ) → HasTos tos (update w.window.state position s p).pkt
      each p = ground (arith, v.window p)

  fill_next-IsMarked :
      (ops : ℕ → Op) (position : ℕ) (r : Option SubOp × Worker q.Queue l.State F)
      → Marked r.1
      → Holds MarkedPkt (fill_next q ops position r)
  unfolding fill_next fill_pkt next_state
  fill_next-IsMarked ops position (none, w) v = present v
  fill_next-IsMarked ops position (some sub_op, w) v =
      let s = next_state (ops sub_op.op) sub_op w.progress (w.window.state position) w.mem in
      let filled =
        filled-IsMarked position s w
          (next_state-tos (ops sub_op.op) sub_op w.progress (w.window.state position) w.mem
            ∙ v.window position)
          v in
      elim (Bool-cases (sub_op.agg_len == 0)) [
        | inl empty ↦ rw (empty, fill_next) absent
        | inr slots ↦
            rw (slots, fill_next)
              (Holds-if MarkedPkt s.is_last _ _
                (Holds-each MarkedPkt (pop_req q w.qp) _
                  (λ qp. present (IsMarked-kept l tos filled refl refl)))
                (present (IsMarked-kept l tos filled refl refl)))
      ]

  gen_pkt-IsMarked :
      (ops : ℕ → Op) (position : ℕ) (w : Worker q.Queue l.State F)
      → Marked w
      → Holds MarkedPkt (gen_pkt q ops position w)
  unfolding gen_pkt
  gen_pkt-IsMarked ops position w v =
      fill_next-IsMarked ops position (next_sub_op q ops w) (next_sub_op-IsMarked ops w v)

  send_loop-IsMarked :
      (fuel : ℕ) (ops : ℕ → Op) (expect win_len to_send : ℕ) (w : Worker q.Queue l.State F)
      → Marked w
      → Holds MarkedLoop (send_loop q l fuel ops expect win_len to_send w)
  unfolding send_loop
  send_loop-IsMarked zero ops expect win_len to_send w v = present v
  send_loop-IsMarked (suc fuel) ops expect win_len to_send w v =
      Holds-if MarkedLoop (ltb win_len expect) _ _
        (Holds-bind MarkedPkt MarkedLoop (gen_pkt q ops to_send w) _
          (gen_pkt-IsMarked ops to_send w v)
          (λ r u.
            Holds-if MarkedLoop r.0 _ _
              (send_loop-IsMarked fuel ops expect (add32 win_len 1) (get_next_position to_send) _ (
                IsMarked-kept l tos
                  (transmit-IsMarked l tos to_send _
                    (IsMarked-if l tos (win_len == 0) (IsMarked-kept l tos u refl refl) u))
                  refl refl))
              (present u)))
        (present v)

  transmit_unacked-IsMarked :
      (fuel begin end cnt : ℕ) (w : Worker q.Queue l.State F)
      → Marked w
      → Marked (transmit_unacked l fuel begin end cnt w).1
  unfolding transmit_unacked
  transmit_unacked-IsMarked zero begin end cnt w v = v
  transmit_unacked-IsMarked (suc fuel) begin end cnt w v =
      let skip = transmit_unacked-IsMarked fuel (get_next_position begin) end cnt w v in
      let rest =
        transmit_unacked-IsMarked fuel (get_next_position begin) end (add64 cnt 1)
          (transmit l begin w) (transmit-IsMarked l tos begin w v) in
      ground (arith, v, skip, rest)

module _ (q : Spsc SubOp) (l : Link) (d : Double) (tos : ℕ) where
  abbrev MarkedAt : Worker q.Queue l.State d.F → Type 0
  MarkedAt w = IsMarked l tos w

  shift_send-IsMarked :
      (ops : ℕ → Op) (w : Worker q.Queue l.State d.F)
      → MarkedAt w
      → Holds MarkedAt (shift_send q l d ops w)
  unfolding shift_send
  shift_send-IsMarked ops w v =
      let len = window_len w.window in
      Holds-bind (MarkedLoop q l tos) MarkedAt
        (send_loop q l max_pkt_burst ops (expect_win_len q l d len w) len w.window.to_send w) _
        (send_loop-IsMarked q l tos max_pkt_burst ops (expect_win_len q l d len w) len
          w.window.to_send w v)
        (λ r u. present (IsMarked-kept l tos u refl refl))

  full_retrans-IsMarked :
      (w : Worker q.Queue l.State d.F) → MarkedAt w → MarkedAt (full_retrans q l d w)
  unfolding full_retrans
  full_retrans-IsMarked w v = IsMarked-if l tos (window_tx_empty w.window) v (
      IsMarked-kept l tos
        (transmit_unacked-IsMarked q l tos max_win_len w.window.to_ack w.window.to_send 0 _
          (IsMarked-kept l tos v refl refl))
        refl refl)

  pub tx_process-IsMarked :
      (ops : ℕ → Op) (w : Worker q.Queue l.State d.F)
      → MarkedAt w
      → Holds MarkedAt (tx_process q l d ops w)
  unfolding tx_process
  tx_process-IsMarked ops w v =
      let noted =
        IsMarked-if l tos (w.ack_cnt == w.prev_ack_cnt) v (IsMarked-kept l tos v refl refl) in
      Holds-bind MarkedAt MarkedAt (shift_send q l d ops _) _
        (shift_send-IsMarked ops _ (IsMarked-if l tos _ (full_retrans-IsMarked _ noted) noted))
        (λ w' u.
          present
            (IsMarked-if l tos (window_tx_empty w'.window) (IsMarked-kept l tos u refl refl) u))

-- ===== src/Worker/Marked/Receive.antt =====
-- The receive side of a worker keeps the type of service of its packets: `rx_process` of
-- server/backend/worker.cpp and what it calls.
use clean_slate_inc.Prelude.{
  Option, Option-cases, inl, inr, arith, ℕ, zero, suc, refl, List, [], ◌∷◌, not, ◌&&◌, assert,
  arith, ◌==◌,
}
use clean_slate_inc.Op.{Op, need_rx}
use clean_slate_inc.Packet.{Mbuf}
use clean_slate_inc.Congestion.{max_win_len}
use clean_slate_inc.LoadBalancer.{SubOp}
use clean_slate_inc.QueuePair.{Spsc, push_resp}
use clean_slate_inc.Window.{PktState, get_next_position, get_position, has_acked, invalid_position}
use clean_slate_inc.Worker.Defs.{Link, Worker, mark_acked, transmit, transmit_range}
use clean_slate_inc.Worker.Receive.{
  complete_pkt, shift_ack_loop, shift_ack, collect_retrans, store, close_gap, accept, note_tos,
  count_out_of_range, count_in_range, local_receive, receive, rx_process_one, rx_loop, rx_process,
}
use clean_slate_inc.Worker.Marked.{
  HasTos, Holds, present, Holds-bind, Holds-each, Holds-if, IsMarked, IsMarked-kept, IsMarked-if,
  transmit-IsMarked,
}

module _ {Q F : Type 0} (l : Link) (tos : ℕ) where
  abbrev Marked : Worker Q l.State F → Type 0
  Marked w = IsMarked l tos w

  transmit_range-IsMarked :
      (fuel begin end : ℕ) (w : Worker Q l.State F)
      → Marked w
      → Marked (transmit_range l fuel begin end w)
  unfolding transmit_range
  transmit_range-IsMarked zero begin end w v = v
  transmit_range-IsMarked (suc fuel) begin end w v = IsMarked-if l tos (begin == end) v (
      transmit_range-IsMarked fuel (get_next_position begin) end (transmit l begin w)
        (transmit-IsMarked l tos begin w v))

  mark_acked-IsMarked : (p : ℕ) (w : Worker Q l.State F) → Marked w → Marked (mark_acked p w)
  unfolding mark_acked
  mark_acked-IsMarked p w v = record { window = each; sent = v.sent }
    where
      each : (i : ℕ) → HasTos tos ((mark_acked p w).window.state i).pkt
      each i = ground (arith, v.window i, v.window p)

  collect_retrans-IsMarked :
      (p : ℕ) (w : Worker Q l.State F) → Marked w → Marked (collect_retrans l p w)
  unfolding collect_retrans
  collect_retrans-IsMarked p w v =
      transmit_range-IsMarked max_win_len _ p _ (IsMarked-kept l tos v refl refl)

  accept-IsMarked :
      (ops : ℕ → Op) (p : ℕ) (pkt : Mbuf) (w : Worker Q l.State F)
      → Marked w
      → Holds Marked (accept l ops p pkt w)
  unfolding accept close_gap store
  accept-IsMarked ops p pkt w v =
      Holds-each Marked ((mark_acked p w).window.state p).sub_op _ (λ sub_op.
        let stored =
          IsMarked-if l tos (need_rx (ops sub_op.op))
            (IsMarked-kept l tos (mark_acked-IsMarked p w v) refl refl)
            (mark_acked-IsMarked p w v) in
        present (IsMarked-if l tos _ stored (collect_retrans-IsMarked p _ stored)))

  rx_process_one-IsMarked :
      (ops : ℕ → Op) (pkt : Mbuf) (w : Worker Q l.State F)
      → Marked w
      → Holds Marked (rx_process_one l ops pkt w)
  unfolding rx_process_one note_tos count_in_range count_out_of_range
  rx_process_one-IsMarked ops pkt w v =
      let position = get_position w.current_group_id w.window pkt in
      let noted : Marked (note_tos l pkt w) = IsMarked-kept l tos v refl refl in
      let out : Marked (count_out_of_range l (note_tos l pkt w)) =
        IsMarked-kept l tos v refl refl in
      let within : Marked (count_in_range l (note_tos l pkt w)) = IsMarked-kept l tos v refl refl in
      Holds-if Marked (position == invalid_position) _ _ (present out) (
        Holds-if Marked (has_acked w.window position) _ _ (present within)
          (accept-IsMarked ops position pkt (note_tos l pkt w) noted))

  receive-IsMarked :
      (found : Option Mbuf) (w : Worker Q l.State F) → Marked w → Marked (receive l found w).1
  unfolding receive local_receive
  receive-IsMarked found w v =
      IsMarked-kept l tos v (ground arith) (ground (arith, l.sent-poll w.link))

  rx_loop-IsMarked :
      (ops : ℕ → Op) (arrived : List (Option Mbuf)) (w : Worker Q l.State F)
      → Marked w
      → Holds Marked (rx_loop l ops arrived w)
  unfolding rx_loop
  rx_loop-IsMarked ops [] w v = present v
  rx_loop-IsMarked ops (found ∷ arrived) w v =
      let received = receive-IsMarked found w v in
      elim (Option-cases (receive l found w).0) [
        | inl nothing ↦ rw (nothing, rx_loop) (present received)
        | inr (pkt, some_pkt) ↦
            rw (some_pkt, rx_loop)
              (Holds-bind Marked Marked (rx_process_one l ops pkt (receive l found w).1) _
                (rx_process_one-IsMarked ops pkt (receive l found w).1 received)
                (λ w' v'.
                  rx_loop-IsMarked ops arrived (record w' { link = l.drop w'.link })
                    (IsMarked-kept l tos v' refl (l.sent-drop w'.link))))
      ]

module _ {F : Type 0} (q : Spsc SubOp) (l : Link) (tos : ℕ) where
  abbrev MarkedAt : Worker q.Queue l.State F → Type 0
  MarkedAt w = IsMarked l tos w

  -- of the result of `shift_ack_loop`
  abbrev Ended : ℕ × Worker q.Queue l.State F → Type 0
  Ended r = IsMarked l tos r.1

  complete_pkt-IsMarked :
      (state : PktState) (w : Worker q.Queue l.State F)
      → MarkedAt w
      → Holds MarkedAt (complete_pkt q state w)
  unfolding complete_pkt
  complete_pkt-IsMarked state w v =
      Holds-if MarkedAt state.is_last _ _
        (Holds-each MarkedAt state.sub_op _ (λ sub_op.
          Holds-each MarkedAt (push_resp q sub_op w.qp) _ (λ r.
            Holds-each MarkedAt (assert r.0) _ (λ _. present (IsMarked-kept l tos v refl refl)))))
        (present v)

  shift_ack_loop-IsMarked :
      (fuel to_ack : ℕ) (w : Worker q.Queue l.State F)
      → MarkedAt w
      → Holds Ended (shift_ack_loop q fuel to_ack w)
  unfolding shift_ack_loop
  shift_ack_loop-IsMarked zero to_ack w v = present v
  shift_ack_loop-IsMarked (suc fuel) to_ack w v =
      Holds-if Ended (not (to_ack == w.window.to_send) && has_acked w.window to_ack) _ _
        (Holds-bind MarkedAt Ended (complete_pkt q (w.window.state to_ack) w) _
          (complete_pkt-IsMarked (w.window.state to_ack) w v)
          (λ w' v'.
            shift_ack_loop-IsMarked fuel (get_next_position to_ack) _
              (IsMarked-kept l tos v' refl refl)))
        (present v)

  pub rx_process-IsMarked :
      (ops : ℕ → Op) (arrived : List (Option Mbuf)) (w : Worker q.Queue l.State F)
      → MarkedAt w
      → Holds MarkedAt (rx_process q l ops arrived w)
  unfolding rx_process shift_ack
  rx_process-IsMarked ops arrived w v =
      Holds-bind MarkedAt MarkedAt (rx_loop l ops arrived w) _
        (rx_loop-IsMarked l tos ops arrived w v)
        (λ w' v'.
          Holds-bind Ended MarkedAt (shift_ack_loop q max_win_len w'.window.to_ack w') _
            (shift_ack_loop-IsMarked max_win_len w'.window.to_ack w' v')
            (λ r u. present (IsMarked-kept l tos u refl refl)))

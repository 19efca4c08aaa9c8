-- ===== src/Worker/Answers.antt =====
-- What an answer does to a worker, once and again: `rx_process_one` of server/backend/worker.cpp.
use clean_slate_inc.Prelude.{
  ℕ, ◌≡◌, ◌≢◌, inl, inr, refl, ap, ◌∙◌, true, false, ◌||◌, Option, some, arith, ◌==◌, if◌then◌else◌,
  Bool-cases,
}
use clean_slate_inc.Op.{Op, need_rx}
use clean_slate_inc.Packet.{Mbuf}
use clean_slate_inc.LoadBalancer.{SubOp}
use clean_slate_inc.Window.{
  PktState, update, invalid_position, get_prev_position, has_acked, get_position,
}
use clean_slate_inc.Window.Positions.{update_self, get_position-state}
use clean_slate_inc.Worker.Defs.{Link, Worker, mark_acked}
use clean_slate_inc.Worker.Receive.{copy_out, accept, rx_process_one, note_tos, store, close_gap}
use clean_slate_inc.Worker.Repeated.{
  SameState, SameStored, collect_retrans-SameState, redundant_answer_ignored,
}

module _ {Q F : Type 0} (l : Link) where
  close_gap-SameState :
      (position : ℕ) (w : Worker Q l.State F) → SameState l w (close_gap l position w)
  unfolding close_gap
  close_gap-SameState position w =
      elim (Bool-cases
        (position == w.window.to_ack || has_acked w.window (get_prev_position position))) [
          | inl whole ↦ rw (whole, close_gap) (ground arith)
          | inr gap ↦ rw (gap, close_gap) (collect_retrans-SameState l position w)
        ]

  pub mark_acked-state :
      (position : ℕ) (w : Worker Q l.State F)
      → (mark_acked position w).window.state position
        ≡ record (w.window.state position) { acked = true }
  unfolding mark_acked
  mark_acked-state position w = update_self w.window.state position _

  store-qp :
      (op : Op) (state : PktState) (pkt : Mbuf) (w : Worker Q l.State F)
      → SameStored l w (store l op state pkt w)
  unfolding store
  store-qp op state pkt w = elim (Bool-cases (need_rx op)) [
    | inl rx ↦ rw (rx, store) (ground arith)
    | inr not_rx ↦ rw (not_rx, store) (ground arith)
  ]

  store-mem :
      (op : Op) (state : PktState) (pkt : Mbuf) (w : Worker Q l.State F)
      → (store l op state pkt w).mem ≡ (if need_rx op then copy_out op state pkt w.mem else w.mem)
  unfolding store
  store-mem op state pkt w = elim (Bool-cases (need_rx op)) [
    | inl rx ↦ rw (rx, store) refl
    | inr not_rx ↦ rw (not_rx, store) refl
  ]

  accept_lem :
      (ops : ℕ → Op) (position : ℕ) (pkt : Mbuf) (w : Worker Q l.State F) (sub_op : SubOp)
      → (w.window.state position).sub_op ≡ some sub_op
      → accept l ops position pkt w
        ≡ some (
            close_gap l position (
              store l
                (ops sub_op.op)
                (record (w.window.state position) { acked = true })
                pkt
                (mark_acked position w)))
  unfolding accept
  accept_lem ops position pkt w sub_op e = rw (mark_acked-state position w, e) refl

  -- An answer that has a position, to a packet of some part that has not been answered before: that
  -- packet and no other is marked, the bytes of the answer go to the operation's buffer if this rank
  -- receives, and the queues and the numbering stay as they are.
  pub first_answer_accepted :
      (ops : ℕ → Op) (pkt : Mbuf) (w : Worker Q l.State F) (sub_op : SubOp)
      → let position = get_position w.current_group_id w.window pkt in
        let state = w.window.state position in
        position ≢ invalid_position
        → state.acked ≡ false
        → state.sub_op ≡ some sub_op
        → (w' : Worker Q l.State F) × (rx_process_one l ops pkt w ≡ some w')
          × (w'.window ≡ record w.window {
            state = update w.window.state position (record state { acked = true });
          })
          × (w'.mem ≡ (
              if need_rx (ops sub_op.op)
              then copy_out (ops sub_op.op) (record state { acked = true }) pkt w.mem
              else w.mem))
          × (w'.qp ≡ w.qp)
          × (w'.current_group_id ≡ w.current_group_id)
          × (w'.progress ≡ w.progress)
          × (w'.psn_of ≡ w.psn_of)
  unfolding rx_process_one mark_acked has_acked note_tos
  first_answer_accepted ops pkt w sub_op valid new has =
      let position = get_position w.current_group_id w.window pkt in
      let state = record (w.window.state position) { acked = true } in
      let marked = mark_acked position (note_tos l pkt w) in
      let stored = store l (ops sub_op.op) state pkt marked in
      let kept = close_gap-SameState position stored in
      let (same, queues, group, progress, psn_of) = store-qp (ops sub_op.op) state pkt marked in
      (
        close_gap l position stored,
        started (accept_lem ops position pkt (note_tos l pkt w) sub_op has),
        kept.window ∙ same,
        kept.mem ∙ store-mem (ops sub_op.op) state pkt marked,
        kept.qp ∙ queues,
        kept.group ∙ group,
        kept.progress ∙ progress,
        kept.psn_of ∙ psn_of,
      )
    where
      started :
          {r : Option (Worker Q l.State F)}
          → accept l ops (get_position w.current_group_id w.window pkt) pkt (note_tos l pkt w) ≡ r
          → rx_process_one l ops pkt w ≡ r
      started e = ground arith

  -- An answer that has a position, to a packet of some part that has not been answered before, is
  -- accepted once: when it comes a second time, both calls return, and the second time the
  -- window, the memory, the queues, the numbering and what has been sent stay as they are.
  pub answer_twice :
      (ops : ℕ → Op) (pkt : Mbuf) (w : Worker Q l.State F) (sub_op : SubOp)
      → get_position w.current_group_id w.window pkt ≢ invalid_position
      → (w.window.state (get_position w.current_group_id w.window pkt)).acked ≡ false
      → (w.window.state (get_position w.current_group_id w.window pkt)).sub_op ≡ some sub_op
      → (w' : Worker Q l.State F) × (w'' : Worker Q l.State F) × (rx_process_one l ops pkt w
          ≡ some w')
        × (rx_process_one l ops pkt w' ≡ some w'')
        × SameState l w' w''
        × (w''.link ≡ w'.link)
        × (w''.local_queue ≡ w'.local_queue)
  unfolding has_acked
  answer_twice ops pkt w sub_op valid new has =
      let (w', once, window, _, _, group, _, _) =
        first_answer_accepted ops pkt w sub_op valid new has in
      let position = get_position w.current_group_id w.window pkt in
      let same : get_position w'.current_group_id w'.window pkt ≡ position =
        rw (group, window) (get_position-state w.current_group_id w.window _ pkt) in
      let acked : (w'.window.state (get_position w'.current_group_id w'.window pkt)).acked ≡ true =
        rw (same, window)
          (ap (λ (s : PktState). s.acked) (update_self w.window.state position _)) in
      let (w'', twice, kept, link, queue) = redundant_answer_ignored l ops pkt w' (inr acked) in
      (w', w'', once, twice, kept, link, queue)

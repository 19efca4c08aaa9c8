-- ===== src/Worker/Stream/Promises.antt =====
-- What a worker of server/backend/worker.cpp promises in every state that it reaches beside its load
-- balancer and the network, while all operations are of one group.
use clean_slate_inc.Prelude.{
  Option, ◌≢◌, All, All-append_right, ℕ, ◌≡◌, ◌<◌, ◌≤◌, ◌⊎◌, inl, inr, false, sym, subst, arith,
  lt→ltb, ap, ◌∙◌, some, List, ◌++◌, if◌then◌else◌, ltb, sub32,
}
use native.Mathlib.Decide.{dec_lt}
use clean_slate_inc.Op.{Op}
use clean_slate_inc.Packet.{Mbuf, get_psn, get_group_id}
use clean_slate_inc.Congestion.{Double}
use clean_slate_inc.LoadBalancer.{SubOp}
use clean_slate_inc.QueuePair.{Spsc}
use clean_slate_inc.QueuePair.Steps.{requests, responses}
use clean_slate_inc.QueuePair.History.{Reach, Reach-Inv, nothing_lost_or_reordered}
use clean_slate_inc.Window.{invalid_position, window_len, get_position}
use clean_slate_inc.Window.Positions.{place, window_len_lem, get_position_lem}
use clean_slate_inc.Worker.Defs.{Link, Worker}
use clean_slate_inc.Worker.Loop.{worker_round}
use clean_slate_inc.Worker.Stream.{lasts}
use clean_slate_inc.Worker.Stream.Receive.{get_psn-lt, regroup}
use clean_slate_inc.Worker.Stream.Timed.{worker_round-InStream}
use clean_slate_inc.Worker.Stream.Run.{Run, Run-InStream}

module _ (q : Spsc SubOp) (l : Link) (d : Double) (group : ℕ) where
  -- In every state that a worker reaches from its start, by its rounds, the load balancer's calls and
  -- writes to the memory, while all operations are of one group and each part that has been handed over
  -- has at least one slot of the aggregator, no assertion fails in the next round, nothing is divided by
  -- zero and no missing part is read, whatever finitely many packets the loop of `rx_process` receives, at
  -- whatever time, and whatever operations of that group the memory holds. That this loop ends, and that
  -- a packet is sent once `transmit` is called, is assumed of the NIC.
  pub worker_round_total :
      {w : Worker q.Queue l.State d.F} {made got : List SubOp} (ops : ℕ → Op) (now : ℕ)
      (arrived : List (Option Mbuf))
      → Run q l d group w made got
      → ((a : ℕ) → (ops a).group.group_id ≡ group)
      → All (λ (s : SubOp). s.agg_len ≢ 0) made
      → (w' : Worker q.Queue l.State d.F) × (worker_round q l d ops now arrived w ≡ some w')
        × Run q l d group w' made got
  worker_round_total {made = made} {got} ops now arrived r same slots =
      let (_, v) = Run-InStream q l d group r in
      elim (worker_round-InStream q l d group ops now arrived same v) [
        | inl (_, slotless) ↦ absurd (
            slotless _ (Reach-Inv q v.queues).order (
              All-append_right _ got _ (
                subst (All (λ (s : SubOp). s.agg_len ≢ 0)) (sym (Reach-Inv q v.queues).order)
                  slots)))
        | inr (w', e, _) ↦ (w', e, Run.round ops now arrived r same e)
      ]

  -- In every state that a worker of operations of one group reaches, its queue pair is in a state of the
  -- protocol of requester and responder in which the parts taken and not yet answered are those that end
  -- with a packet in the window, in its order: the parts collected, those answered, those in the window
  -- and those waiting are the parts handed over, in the order in which they were handed over.
  pub parts_answered_in_order :
      {w : Worker q.Queue l.State d.F} {made got : List SubOp}
      → Run q l d group w made got
      → let flying = lasts w.window.state w.window.to_ack (window_len w.window) in
        Reach q w.qp made flying got
        × (got ++ (responses q w.qp ++ (flying ++ requests q w.qp)) ≡ made)
  parts_answered_in_order {w} {made} {got} r =
      let (n, v) = Run-InStream q l d group r in
      let reach =
        subst (λ k. Reach q w.qp made (lasts w.window.state w.window.to_ack k) got)
          (sym (window_len_lem w.window v.window)) v.queues in
      (reach, (nothing_lost_or_reordered q reach).0)

  -- In every state that a worker of operations of one group reaches, an answer of its current group whose
  -- number lies `k` places behind the left end of the window gets the position `k` places after `to_ack`,
  -- where the packet with that very number is and belongs to some part, if the window is longer than
  -- `k`, and INVALID_POSITION otherwise.
  pub answer_finds_packet :
      {w : Worker q.Queue l.State d.F} {made got : List SubOp} (pkt : Mbuf)
      → Run q l d group w made got
      → get_group_id pkt ≡ w.current_group_id
      → let k = sub32 (get_psn pkt) w.window.left_psn in
        let position = get_position w.current_group_id w.window pkt in
        ((window_len w.window ≤ k) × (position ≡ invalid_position))
        ⊎ ((k < window_len w.window)
            × (position ≡ place w.window.to_ack k)
            × (get_psn (w.window.state position).pkt ≡ get_psn pkt)
            × ((s : SubOp) × ((w.window.state position).sub_op ≡ some s)))
  answer_finds_packet {w} pkt r same =
      let (n, v) = Run-InStream q l d group r in
      let here = regroup w.window v.window (λ ne. v.current (inl ne)) in
      let len = window_len_lem w.window here in
      let k = sub32 (get_psn pkt) w.window.left_psn in
      let (at, found) = get_position_lem w.window pkt here same (get_psn-lt pkt) in
      elim (dec_lt k n) [
        | no out ↦
            let beyond : ltb k n ≡ false = ground arith in
            inl (
              omega (arith, len),
              at ∙ ap (λ b. if b then place w.window.to_ack k else invalid_position) beyond,
            )
        | yes inside ↦
            let position : get_position w.current_group_id w.window pkt ≡ place w.window.to_ack k =
              at
              ∙ ap (λ b. if b then place w.window.to_ack k else invalid_position)
                  (lt→ltb k n inside) in
            inr (
              omega (arith, len),
              position,
              elim found [ inl out ↦ absurd (omega arith) | inr e ↦ e ],
              let (s, has) = v.parts k inside in
                  (s, ap (λ i. (w.window.state i).sub_op) position ∙ has),
            )
      ]

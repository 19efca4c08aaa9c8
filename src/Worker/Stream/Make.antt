-- ===== src/Worker/Stream/Make.antt =====
-- The packet that `gen_pkt` of server/backend/worker.cpp makes is the next of the stream.
use clean_slate_inc.Prelude.{
  ℕ, ◌+◌, ◌/◌, ◌%◌, ◌≡◌, ◌≢◌, ◌<◌, ◌⊎◌, inl, inr, refl, ◌∙◌, true, false, not, ◌&&◌, none, some,
  List, arith, u32_mod, add32, Bool-cases, Option-cases, ◌==◌,
}
use clean_slate_inc.Op.{Op}
use clean_slate_inc.Packet.{get_psn, get_group_id}
use clean_slate_inc.Packet.ByteOrder.{htobe32-htobe32}
use clean_slate_inc.LoadBalancer.{SubOp}
use clean_slate_inc.QueuePair.{Spsc, front_req}
use clean_slate_inc.QueuePair.History.{Reach}
use clean_slate_inc.Window.{PktState, update, window_tx_empty}
use clean_slate_inc.Window.Positions.{IsRun, update_self}
use clean_slate_inc.Worker.Defs.{Worker, Progress}
use clean_slate_inc.Worker.Send.{filled_pkt, new_state, packet_count, next_state, next_sub_op}
use clean_slate_inc.Worker.Stream.{lasts, HaveParts, IsNext}

module _ (op : Op) (s : SubOp) (p : Progress) (old : PktState) (mem : ℕ → ℕ) where
  pub made-psn : get_psn (next_state op s p old mem).pkt ≡ add32 p.start_psn p.pkt_sent
  unfolding next_state new_state filled_pkt get_psn
  made-psn = htobe32-htobe32 (add32 p.start_psn p.pkt_sent) (omega arith)

  pub made-group : get_group_id (next_state op s p old mem).pkt ≡ op.group.group_id
  unfolding next_state new_state filled_pkt get_group_id
  made-group = refl

  pub made-sub_op : (next_state op s p old mem).sub_op ≡ some s
  unfolding next_state new_state
  made-sub_op = refl

  pub made-last : (next_state op s p old mem).is_last ≡ (add32 p.pkt_sent 1 == p.pkt_cnt)
  unfolding next_state new_state
  made-last = refl

packet_count-pos : (size : ℕ) → (0 < packet_count size) × (packet_count size < u32_mod)
unfolding packet_count
packet_count-pos size = ground arith

module _ {L F : Type 0} (q : Spsc SubOp) (group : ℕ) where
  -- The stream inside the loop of `shift_send`: the window goes up to the loop's own `to_send`.
  pub record InSend (n to_send : ℕ) (w : Worker q.Queue L F) (made got : List SubOp) : Type 0 where
    pub run : IsRun group w.window.left_psn n w.window.to_ack to_send w.window.state
    pub parts : HaveParts w.window.state w.window.to_ack n
    pub queues : Reach q w.qp made (lasts w.window.state w.window.to_ack n) got
    pub next : ℕ
    pub follows : n ≢ 0 → next ≡ (w.window.left_psn + n) % u32_mod
    pub numbers : IsNext q group next w
    pub current :
        (n ≢ 0) ⊎ ((s : SubOp) × (w.progress.sub_op ≡ some s)) → w.current_group_id ≡ group

  -- A new part becomes the part in hand.
  abbrev begin : SubOp → Worker q.Queue L F → Worker q.Queue L F
  begin s w = record w {
    current_group_id = group;
    current_switch_window_limit = s.agg_len / 2;
    traffic_todo = true;
    progress = record {
      pkt_sent = 0;
      start_psn = w.psn_of group;
      pkt_cnt = packet_count s.size;
      sub_op = some s;
    };
    psn_of = update w.psn_of group (add32 (w.psn_of group) (packet_count s.size));
  }

  begin-IsNext :
      (s : SubOp) {next : ℕ} {w : Worker q.Queue L F}
      → w.progress.sub_op ≡ none
      → front_req q w.qp ≡ some s
      → IsNext q group next w
      → IsNext q group next (begin s w)
  begin-IsNext s {next} {w} idle front v =
      let (pos, small) = packet_count-pos s.size in
      record {
        next_in = v.next_in;
        idle = λ e. absurd (ground arith);
        busy_psn = λ x e. omega (arith, v.idle idle, v.next_in);
        busy_left =
            λ x e. update_self w.psn_of group (add32 (w.psn_of group) (packet_count s.size));
        busy_more = λ x e. pos;
        busy_in = λ x e. small;
        busy_front = λ x e. front ∙ e;
      }

  module _ (ops : ℕ → Op) (w : Worker q.Queue L F) where
    goes_on : (s : SubOp) → w.progress.sub_op ≡ some s → next_sub_op q ops w ≡ (some s, w)
    unfolding next_sub_op
    goes_on s busy = ground arith

    has_none :
        w.progress.sub_op ≡ none
        → front_req q w.qp ≡ none
        → next_sub_op q ops w ≡ (none, record w { traffic_todo = false })
    unfolding next_sub_op
    has_none idle empty = ground arith

    module _ (s : SubOp) (same : (ops s.op).group.group_id ≡ group) where
      must_wait :
          w.progress.sub_op ≡ none
          → front_req q w.qp ≡ some s
          → (not (w.current_group_id == group) && not (window_tx_empty w.window)) ≡ true
          → next_sub_op q ops w ≡ (none, record w { traffic_todo = false })
      unfolding next_sub_op
      must_wait idle front wait = ground arith

      starts :
          w.progress.sub_op ≡ none
          → front_req q w.qp ≡ some s
          → (not (w.current_group_id == group) && not (window_tx_empty w.window)) ≡ false
          → next_sub_op q ops w ≡ (some s, begin s w)
      unfolding next_sub_op
      starts idle front go = ground arith

  -- What `next_sub_op` finds.
  abbrev pub Found : (ℕ → Op) → ℕ → ℕ → Worker q.Queue L F → List SubOp → List SubOp → Type 0
  Found ops n to_send w made got =
      (s : SubOp) × (w' : Worker q.Queue L F) × (next_sub_op q ops w ≡ (some s, w'))
      × InSend n to_send w' made got
      × (w'.progress.sub_op ≡ some s)
      × (w'.current_group_id ≡ group)

  abbrev pub Nothing : (ℕ → Op) → ℕ → ℕ → Worker q.Queue L F → List SubOp → List SubOp → Type 0
  Nothing ops n to_send w made got =
      (w' : Worker q.Queue L F) × (next_sub_op q ops w ≡ (none, w')) × InSend n to_send w' made got

  begin-InSend :
      (s : SubOp) {n to_send : ℕ} {w : Worker q.Queue L F} {made got : List SubOp}
      → w.progress.sub_op ≡ none
      → front_req q w.qp ≡ some s
      → InSend n to_send w made got
      → InSend n to_send (begin s w) made got
  begin-InSend s idle front v = record {
    run = v.run;
    parts = v.parts;
    queues = v.queues;
    next = v.next;
    follows = v.follows;
    numbers = begin-IsNext s idle front v.numbers;
    current = λ c. refl;
  }

  idle-InSend :
      {n to_send : ℕ} {w : Worker q.Queue L F} {made got : List SubOp}
      → InSend n to_send w made got
      → InSend n to_send (record w { traffic_todo = false }) made got
  idle-InSend v = record {
    run = v.run;
    parts = v.parts;
    queues = v.queues;
    next = v.next;
    follows = v.follows;
    numbers = record {
      next_in = v.numbers.next_in;
      idle = v.numbers.idle;
      busy_psn = v.numbers.busy_psn;
      busy_left = v.numbers.busy_left;
      busy_more = v.numbers.busy_more;
      busy_in = v.numbers.busy_in;
      busy_front = v.numbers.busy_front;
    };
    current = v.current;
  }

  pub next_sub_op_lem :
      (ops : ℕ → Op) {n to_send : ℕ} {w : Worker q.Queue L F} {made got : List SubOp}
      → ((a : ℕ) → (ops a).group.group_id ≡ group)
      → InSend n to_send w made got
      → Nothing ops n to_send w made got ⊎ Found ops n to_send w made got
  unfolding next_sub_op
  next_sub_op_lem ops {n} {to_send} {w} {made} {got} same v =
      elim (Option-cases w.progress.sub_op) [
        | inr (s, busy) ↦ inr (s, w, goes_on ops w s busy, v, busy, v.current (inr (s, busy)))
        | inl idle ↦ elim (Option-cases (front_req q w.qp)) [
          | inl empty ↦
              inl (record w { traffic_todo = false }, has_none ops w idle empty, idle-InSend v)
          | inr (s, front) ↦
              elim (Bool-cases
                (not (w.current_group_id == group) && not (window_tx_empty w.window))) [
                  | inl wait ↦ inl (
                    record w { traffic_todo = false },
                    must_wait ops w s (same s.op) idle front wait,
                    idle-InSend v,
                  )
                  | inr go ↦ inr (
                    s,
                    begin s w,
                    starts ops w s (same s.op) idle front go,
                    begin-InSend s idle front v,
                    refl,
                    refl,
                  )
                ]
        ]
      ]

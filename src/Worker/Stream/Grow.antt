-- ===== src/Worker/Stream/Grow.antt =====
-- A packet that `gen_pkt` of server/backend/worker.cpp makes joins the stream at its end.
use clean_slate_inc.Prelude.{
  ℕ, ◌≡◌, ◌⊎◌, inl, inr, refl, sym, ap, ◌∙◌, subst, true, false, none, some, List, ◌++◌, arith,
  add32, Bool-cases, ◌==◌, append-nil, All, All-append_right, ◌≢◌,
}
use mathlib.Core.List.{append_cancel_left}
use clean_slate_inc.Op.{Op}
use clean_slate_inc.Packet.{get_psn, get_group_id}
use clean_slate_inc.LoadBalancer.{SubOp}
use clean_slate_inc.QueuePair.{Spsc, QueuePair, front_req}
use clean_slate_inc.QueuePair.Steps.{requests, responses, front_req-requests, pop_req-requests}
use clean_slate_inc.QueuePair.History.{Reach, Reach-Inv, take, head?-some}
use clean_slate_inc.Window.{PktState, update}
use clean_slate_inc.Worker.Defs.{Worker}
use clean_slate_inc.Worker.Send.{fill_pkt, next_state, next_sub_op, fill_next, gen_pkt}
use clean_slate_inc.Worker.Stream.{lasts, Slotless}
use clean_slate_inc.Worker.Stream.Shift.{ended-last, ended-inner}
use clean_slate_inc.Worker.Stream.Make.{
  InSend, next_sub_op_lem, made-psn, made-group, made-sub_op, made-last,
}
use clean_slate_inc.Worker.Stream.Grown.{Made}

module _ (q : Spsc SubOp) where
  -- The part in front has not been collected.
  front-Slotless :
      {qp : QueuePair q.Queue} {made taken got : List SubOp} (s : SubOp)
      → Reach q qp made taken got
      → front_req q qp ≡ some s
      → (s.agg_len == 0) ≡ true
      → Slotless made got
  front-Slotless {qp} {made} {taken} {got} s r front zero owed same slots =
      let (xs, h) = head?-some s (requests q qp) (sym (front_req-requests q qp) ∙ front) in
      let is : owed ≡ responses q qp ++ (taken ++ requests q qp) =
        append_cancel_left got _ _ (same ∙ sym (Reach-Inv q r).order) in
      let waiting : All (λ (s : SubOp). s.agg_len ≢ 0) (requests q qp) =
        All-append_right _ taken (requests q qp) (
          All-append_right _ (responses q qp) (taken ++ requests q qp)
            (subst (All (λ (s : SubOp). s.agg_len ≢ 0)) is slots)) in
      (subst (All (λ (s : SubOp). s.agg_len ≢ 0)) h waiting).0 (ground (arith, zero))

module _ {L F : Type 0} (q : Spsc SubOp) (group : ℕ) where
  module _ (ops : ℕ → Op) (n to_send : ℕ) (w w' : Worker q.Queue L F) (s : SubOp)
      {made got : List SubOp} (v : InSend q group n to_send w' made got)
      (found : next_sub_op q ops w ≡ (some s, w')) (busy : w'.progress.sub_op ≡ some s)
      (current : w'.current_group_id ≡ group) (same : (ops s.op).group.group_id ≡ group)
      (slots : (s.agg_len == 0) ≡ false) where
    abbrev st : PktState
    st = next_state (ops s.op) s w'.progress (w'.window.state to_send) w'.mem

    abbrev Makes : Type 0
    Makes =
        (w'' : Worker q.Queue L F) × (gen_pkt q ops to_send w ≡ some (true, w''))
        × Made q group n to_send v.next w' w'' made got

    st-psn : get_psn st.pkt ≡ v.next
    st-psn =
        made-psn (ops s.op) s w'.progress (w'.window.state to_send) w'.mem
        ∙ v.numbers.busy_psn s busy

    st-group : get_group_id st.pkt ≡ group
    st-group = made-group (ops s.op) s w'.progress (w'.window.state to_send) w'.mem ∙ same

    st-part : st.sub_op ≡ some s
    st-part = made-sub_op (ops s.op) s w'.progress (w'.window.state to_send) w'.mem

    st-last : st.is_last ≡ (add32 w'.progress.pkt_sent 1 == w'.progress.pkt_cnt)
    st-last = made-last (ops s.op) s w'.progress (w'.window.state to_send) w'.mem

    -- The part goes on after this packet.
    inner_packet : (add32 w'.progress.pkt_sent 1 == w'.progress.pkt_cnt) ≡ false → Makes
    unfolding gen_pkt fill_next fill_pkt next_state
    inner_packet inner =
        let more = v.numbers.busy_more s busy in
        let small = v.numbers.busy_in s busy in
        (
          record w' {
            window = record w'.window { state = update w'.window.state to_send st };
            progress = record w'.progress { pkt_sent = add32 w'.progress.pkt_sent 1 };
          },
          ap (fill_next q ops to_send) found ∙ rw (slots, st-last ∙ inner, fill_next) refl,
          record {
            st = st;
            window = refl;
            psn = st-psn;
            of_group = st-group;
            s = s;
            part = st-part;
            queues =
                subst (λ l. Reach q w'.qp made l got)
                  (sym (
                    ap (λ l. lasts w'.window.state w'.window.to_ack n ++ l)
                      (ended-inner st (st-last ∙ inner))
                    ∙ append-nil (lasts w'.window.state w'.window.to_ack n)))
                  v.queues;
            numbers = record {
              next_in = omega arith;
              idle = λ e. absurd (ground arith);
              busy_psn = λ x e. omega (arith, v.numbers.busy_psn s busy);
              busy_left = λ x e. v.numbers.busy_left s busy;
              busy_more = λ x e. ground (arith, more, small);
              busy_in = λ x e. small;
              busy_front = λ x e. v.numbers.busy_front s busy ∙ sym busy ∙ e;
            };
            current = current;
          },
        )

    -- The packet ends the part, which leaves the work queue.
    last_packet : (add32 w'.progress.pkt_sent 1 == w'.progress.pkt_cnt) ≡ true → Makes
    unfolding gen_pkt fill_next fill_pkt next_state
    last_packet last =
        let front = v.numbers.busy_front s busy in
        let more = v.numbers.busy_more s busy in
        let small = v.numbers.busy_in s busy in
        let psn = v.numbers.busy_psn s busy in
        let left = v.numbers.busy_left s busy in
        let (xs, h) = head?-some s (q.items w'.qp.wq) (sym (front_req-requests q w'.qp) ∙ front) in
        let (qp, popped, _, _, _) = pop_req-requests q s xs w'.qp h in
        (
          record w' {
            window = record w'.window { state = update w'.window.state to_send st };
            qp = qp;
            progress = record w'.progress {
              pkt_sent = add32 w'.progress.pkt_sent 1;
              sub_op = none;
            };
          },
          ap (fill_next q ops to_send) found ∙ rw (slots, st-last ∙ last, popped, fill_next) refl,
          record {
            st = st;
            window = refl;
            psn = st-psn;
            of_group = st-group;
            s = s;
            part = st-part;
            queues =
                subst (λ l. Reach q qp made (lasts w'.window.state w'.window.to_ack n ++ l) got)
                  (sym (ended-last st s (st-last ∙ last) st-part)) (take s v.queues front popped);
            numbers = record {
              next_in = omega arith;
              idle = λ e. ground (arith, psn, left, more, small);
              busy_psn = λ x e. absurd (ground arith);
              busy_left = λ x e. absurd (ground arith);
              busy_more = λ x e. absurd (ground arith);
              busy_in = λ x e. absurd (ground arith);
              busy_front = λ x e. absurd (ground arith);
            };
            current = current;
          },
        )

    makes_packet : Makes
    makes_packet = elim (Bool-cases (add32 w'.progress.pkt_sent 1 == w'.progress.pkt_cnt)) [
      | inl last ↦ last_packet last
      | inr inner ↦ inner_packet inner
    ]

  no_packet :
      (ops : ℕ → Op) (to_send : ℕ) (w w' : Worker q.Queue L F)
      → next_sub_op q ops w ≡ (none, w')
      → gen_pkt q ops to_send w ≡ some (false, w')
  unfolding gen_pkt fill_next
  no_packet ops to_send w w' e = ap (fill_next q ops to_send) e

  no_slots :
      (ops : ℕ → Op) (to_send : ℕ) (w w' : Worker q.Queue L F) (s : SubOp)
      → next_sub_op q ops w ≡ (some s, w')
      → (s.agg_len == 0) ≡ true
      → gen_pkt q ops to_send w ≡ none
  unfolding gen_pkt fill_next fill_pkt
  no_slots ops to_send w w' s e zero = ap (fill_next q ops to_send) e ∙ rw (zero, fill_next) refl

  -- `gen_pkt` fails only on a part without slots: else it leaves the stream alone and says that there is
  -- nothing to send, or it makes the next packet.
  pub gen_pkt_lem :
      (ops : ℕ → Op) {n to_send : ℕ} {w : Worker q.Queue L F} {made got : List SubOp}
      → ((a : ℕ) → (ops a).group.group_id ≡ group)
      → InSend q group n to_send w made got
      → ((gen_pkt q ops to_send w ≡ none) × Slotless made got)
        ⊎ ((w' : Worker q.Queue L F) × (gen_pkt q ops to_send w ≡ some (false, w'))
            × InSend q group n to_send w' made got)
        ⊎ ((base : Worker q.Queue L F) × (v : InSend q group n to_send base made got) × (w' : Worker
              q.Queue L F)
            × (gen_pkt q ops to_send w ≡ some (true, w'))
            × Made q group n to_send v.next base w' made got)
  gen_pkt_lem ops {n} {to_send} {w} same v = elim (next_sub_op_lem q group ops same v) [
    | inl (w', e, v') ↦ inr (inl (w', no_packet ops to_send w w' e, v'))
    | inr (s, base, e, v', busy, current) ↦ elim (Bool-cases (s.agg_len == 0)) [
      | inl zero ↦ inl (
        no_slots ops to_send w base s e zero,
        front-Slotless q s v'.queues (v'.numbers.busy_front s busy) zero,
      )
      | inr slots ↦
          let (w', runs, m) =
            makes_packet ops n to_send w base s v' e busy current (same s.op) slots in
          inr (inr (base, v', w', runs, m))
    ]
  ]

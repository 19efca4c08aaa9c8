-- ===== src/Worker/Stream/Receive.antt =====
-- Receiving packets keeps the stream and never fails: `rx_process_one` and the loop of `rx_process` of
-- server/backend/worker.cpp, whatever arrives.
use clean_slate_inc.Prelude.{
  Option, Option-cases, ℕ, ◌≡◌, ◌≢◌, ◌<◌, ◌⊎◌, inl, inr, refl, sym, ap, ◌∙◌, true, some, List, [],
  ◌∷◌, arith, u32_mod, sub32, Bool-cases,
}
use native.Mathlib.Decide.{ℕ_discrete, dec_lt}
use clean_slate_inc.Op.{Op}
use clean_slate_inc.Packet.{Mbuf, get_psn, get_group_id}
use clean_slate_inc.Packet.ByteOrder.{htobe32-lt}
use clean_slate_inc.LoadBalancer.{SubOp}
use clean_slate_inc.QueuePair.{Spsc}
use clean_slate_inc.Window.{Window, invalid_position, get_position, has_acked}
use clean_slate_inc.Window.Positions.{place, IsWindow, get_position_lem}
use clean_slate_inc.Worker.Defs.{Link, Worker}
use clean_slate_inc.Worker.Receive.{local_receive, receive, rx_process_one, rx_loop}
use clean_slate_inc.Worker.Answers.{first_answer_accepted}
use clean_slate_inc.Worker.Repeated.{SameState, redundant_answer_ignored}
use clean_slate_inc.Worker.Groups.{other_group_invalid}
use clean_slate_inc.Worker.Stream.{InStream}
use clean_slate_inc.Worker.Stream.Kept.{SameQueues, InStream-acked, InStream-kept}

pub get_psn-lt : (pkt : Mbuf) → get_psn pkt < u32_mod
unfolding get_psn
get_psn-lt pkt = htobe32-lt pkt.inc.psn

acked_lem : {F : Type 0} (w : Window F) (i : ℕ) → (w.state i).acked ≡ true → has_acked w i ≡ true
unfolding has_acked
acked_lem w i e = e

-- A window without packets is one of any group.
pub regroup :
    {F : Type 0} {group other n : ℕ} (w : Window F)
    → IsWindow group w n
    → (n ≢ 0 → other ≡ group)
    → IsWindow other w n
regroup {n = n} w v same = record {
  run = record {
    from_in = v.run.from_in;
    base_in = v.run.base_in;
    short = v.run.short;
    end = v.run.end;
    psns = v.run.psns;
    groups = λ k lt. v.run.groups k lt ∙ sym (same (λ e. absurd (omega arith)));
  };
  right = v.right;
}

module _ (q : Spsc SubOp) (l : Link) {F : Type 0} (group : ℕ) where
  -- A position that is given is a place in the window.
  position_inside :
      {n : ℕ} {w : Worker q.Queue l.State F} {made got : List SubOp} (pkt : Mbuf)
      → InStream q group n w made got
      → get_position w.current_group_id w.window pkt ≢ invalid_position
      → (k : ℕ) × (k < n) × (get_position w.current_group_id w.window pkt ≡ place w.window.to_ack k)
  position_inside {n} {w} pkt v valid = elim (ℕ_discrete w.current_group_id (get_group_id pkt)) [
    | no other ↦ absurd (valid (other_group_invalid w.current_group_id w.window pkt other))
    | yes same ↦
        let k = sub32 (get_psn pkt) w.window.left_psn in
        let here = regroup w.window v.window (λ ne. v.current (inl ne)) in
        let at = (get_position_lem w.window pkt here (sym same) (get_psn-lt pkt)).0 in
        elim (dec_lt k n) [
          | yes lt ↦ (k, lt, at ∙ ground arith)
          | no out ↦ absurd (valid (at ∙ ground arith))
        ]
  ]

  of_SameState : {w w' : Worker q.Queue l.State F} → SameState l w w' → SameQueues q group w w'
  of_SameState s = record { qp = s.qp; progress = s.progress; psn_of = s.psn_of; current = s.group }

  pub rx_process_one-InStream :
      (ops : ℕ → Op) {n : ℕ} {w : Worker q.Queue l.State F} {made got : List SubOp} (pkt : Mbuf)
      → InStream q group n w made got
      → (w' : Worker q.Queue l.State F) × (rx_process_one l ops pkt w ≡ some w')
        × InStream q group n w' made got
  rx_process_one-InStream ops {n} {w} {made} {got} pkt v =
      let position = get_position w.current_group_id w.window pkt in
      elim (ℕ_discrete position invalid_position) [
        | yes out ↦ ignored (inl out)
        | no valid ↦ elim (Bool-cases (w.window.state position).acked) [
          | inl old ↦ ignored (inr (acked_lem w.window position old))
          | inr new ↦
              let (k, lt, at) = position_inside pkt v valid in
              let (s, has) = v.parts k lt in
              let (w', e, window, _, qp, current, progress, psn_of) =
                first_answer_accepted l ops pkt w s valid new
                  (ap (λ i. (w.window.state i).sub_op) at ∙ has) in
              (
                w',
                e,
                InStream-acked q group position v
                    (record { qp = qp; progress = progress; psn_of = psn_of; current = current })
                    window,
              )
        ]
      ]
    where
      ignored :
          (get_position w.current_group_id w.window pkt ≡ invalid_position)
            ⊎ (has_acked w.window (get_position w.current_group_id w.window pkt) ≡ true)
          → (w' : Worker q.Queue l.State F) × (rx_process_one l ops pkt w ≡ some w')
            × InStream q group n w' made got
      ignored h =
          let (w', e, same, _, _) = redundant_answer_ignored l ops pkt w h in
          (w', e, InStream-kept q group v (of_SameState same) same.window)

  receive-InStream :
      (found : Option Mbuf) {n : ℕ} {w : Worker q.Queue l.State F} {made got : List SubOp}
      → InStream q group n w made got
      → InStream q group n (receive l found w).1 made got
  unfolding receive local_receive
  receive-InStream found {w = w} v =
      InStream-kept q group {w = w} {w' = (receive l found w).1} v
        (record {
          qp = ground arith;
          progress = ground arith;
          psn_of = ground arith;
          current = ground arith;
        })
        (ground arith)

  pub rx_loop-InStream :
      (ops : ℕ → Op) {n : ℕ} (arrived : List (Option Mbuf)) {w : Worker q.Queue l.State F}
      {made got : List SubOp}
      → InStream q group n w made got
      → (w' : Worker q.Queue l.State F) × (rx_loop l ops arrived w ≡ some w')
        × InStream q group n w' made got
  unfolding rx_loop
  rx_loop-InStream ops [] {w} v = (w, refl, v)
  rx_loop-InStream ops (found ∷ arrived) {w} {made} {got} v =
      let received = receive-InStream found v in
      elim (Option-cases (receive l found w).0) [
        | inl nothing ↦ ((receive l found w).1, rw (nothing, rx_loop) refl, received)
        | inr (pkt, some_pkt) ↦
            let (w', e, v') = rx_process_one-InStream ops pkt received in
            let dropped : Worker q.Queue l.State F = record w' { link = l.drop w'.link } in
            let kept =
              InStream-kept q group {w = w'} {w' = dropped} v'
                (record { qp = refl; progress = refl; psn_of = refl; current = refl }) refl in
            let (w'', e', v'') = rx_loop-InStream ops arrived kept in
            (w'', rw (some_pkt, e, rx_loop) e', v'')
      ]

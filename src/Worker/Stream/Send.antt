-- ===== src/Worker/Stream/Send.antt =====
-- The loop of `shift_send` of server/backend/worker.cpp lengthens the stream, and `shift_send` keeps it.
use clean_slate_inc.Prelude.{
  ℕ, zero, suc, ◌-◌, ◌≡◌, ◌≢◌, ◌<◌, inl, inr, refl, sym, ap, ◌∙◌, subst, Bool, true, false, List,
  ◌++◌, if◌then◌else◌, arith, ltb, add32, add64, Bool-cases, ◌==◌, ltb→lt,
}
use clean_slate_inc.Op.{Op}
use clean_slate_inc.Packet.{get_psn}
use clean_slate_inc.Congestion.{Double, max_win_len}
use clean_slate_inc.LoadBalancer.{SubOp}
use clean_slate_inc.QueuePair.{Spsc, QueuePair, front_req}
use clean_slate_inc.QueuePair.History.{Reach}
use clean_slate_inc.Window.{
  Window, PktState, update, get_next_position, get_prev_position, window_tx_empty,
}
use clean_slate_inc.Window.Positions.{place, update_self, window_len_lem}
use clean_slate_inc.Worker.Defs.{Link, Worker, Stats, transmit}
use clean_slate_inc.Worker.Send.{max_pkt_burst, send_loop, expect_win_len, shift_send}
use clean_slate_inc.Worker.Repeated.{transmit-SameState}
use clean_slate_inc.Worker.Stream.{Returns, ended, lasts, InStream}
use clean_slate_inc.Worker.Stream.Kept.{SameQueues, IsNext-same}
use clean_slate_inc.Worker.Stream.Make.{InSend}
use clean_slate_inc.Worker.Stream.Grow.{gen_pkt_lem}
use clean_slate_inc.Worker.Stream.Grown.{Made, grown}

module _ (q : Spsc SubOp) (l : Link) {F : Type 0} (group : ℕ) where
  -- The first packet of an empty window sets its left end.
  abbrev fixed : ℕ → Worker q.Queue l.State F → Worker q.Queue l.State F
  fixed n w =
      let v = w.window in
      if n == 0
      then record w { window = record v { left_psn = get_psn (v.state v.to_ack).pkt } }
      else w

  abbrev left_of : ℕ → Window F → ℕ
  left_of n v = if n == 0 then get_psn (v.state v.to_ack).pkt else v.left_psn

  fixed-window :
      (n : ℕ) (w : Worker q.Queue l.State F)
      → (fixed n w).window ≡ record w.window { left_psn = left_of n w.window }
  fixed-window n w = elim (Bool-cases (n == 0)) [ inl e ↦ rw e refl | inr e ↦ rw e refl ]

  fixed-SameQueues : (n : ℕ) (w : Worker q.Queue l.State F) → SameQueues q group w (fixed n w)
  fixed-SameQueues n w = elim (Bool-cases (n == 0)) [
    | inl e ↦ rw e (record { qp = refl; progress = refl; psn_of = refl; current = refl })
    | inr e ↦ rw e (record { qp = refl; progress = refl; psn_of = refl; current = refl })
  ]

  -- The packet that has been made is sent.
  sent-InSend :
      {n to_send : ℕ} {w w' : Worker q.Queue l.State F} {made got : List SubOp} (s : Stats)
      → (v : InSend q group n to_send w made got)
      → (m : Made q group n to_send v.next w w' made got) → suc n < max_win_len
      → InSend q group
          (suc n)
          (get_next_position to_send)
          (record (transmit l to_send (fixed n w')) { stats = s })
          made
          got
  sent-InSend {n} {to_send} {w} {w'} {made} {got} s v m small =
      let same = transmit-SameState l to_send (fixed n w') in
      let kept = fixed-SameQueues n w' in
      grown q group (left_of n w'.window) v m small
        (λ z.
          let empty : (n == 0) ≡ true = ground arith in
          let here : w.window.to_ack ≡ to_send = omega (arith, z, v.run.end, v.run.from_in) in
          rw empty (
            ap (λ (u : Window F). get_psn (u.state u.to_ack).pkt) m.window
            ∙ ap (λ i. get_psn (update w.window.state to_send m.st i).pkt) here
            ∙ ap (λ (st : PktState). get_psn st.pkt) (update_self w.window.state to_send m.st)
            ∙ m.psn))
        (λ ne.
          let filled : (n == 0) ≡ false = ground arith in
          rw filled (ap (λ (u : Window F). u.left_psn) m.window))
        (same.window
          ∙ fixed-window n w'
          ∙ ap (λ (z : Window F). record z { left_psn = left_of n w'.window }) m.window)
        (subst
          (λ (z : QueuePair q.Queue).
            Reach q z made (lasts w.window.state w.window.to_ack n ++ ended m.st) got)
          (sym (same.qp ∙ kept.qp)) m.queues)
        (IsNext-same q group (same.progress ∙ kept.progress) (same.psn_of ∙ kept.psn_of)
          (ap (λ (z : QueuePair q.Queue). front_req q z) (same.qp ∙ kept.qp)) m.numbers)
        (same.group ∙ kept.current ∙ m.current)

  -- The loop fails only over a part without slots.
  send_loop-InSend :
      (fuel : ℕ) (ops : ℕ → Op) (expect : ℕ) {n to_send : ℕ} {w : Worker q.Queue l.State F}
      {made got : List SubOp}
      → ((a : ℕ) → (ops a).group.group_id ≡ group)
      → expect < max_win_len
      → InSend q group n to_send w made got
      → Returns made got
          (λ (r : ℕ × ℕ × Worker q.Queue l.State F).
            let (to_send', n', w') = r in InSend q group n' to_send' w' made got)
          (send_loop q l fuel ops expect n to_send w)
  unfolding send_loop
  send_loop-InSend zero ops expect {n} {to_send} {w} same small v = inr ((to_send, n, w), refl, v)
  send_loop-InSend (suc fuel) ops expect {n} {to_send} {w} same small v =
      elim (Bool-cases (ltb n expect)) [
        | inr long ↦ inr ((to_send, n, w), rw (long, send_loop) refl, v)
        | inl more ↦ elim (gen_pkt_lem q group ops same v) [
          | inl (fails, slotless) ↦ inl (rw (more, fails, send_loop) refl, slotless)
          | inr (inl (w', e, v')) ↦ inr ((to_send, n, w'), rw (more, e, send_loop) refl, v')
          | inr (inr (base, v', w', e, m)) ↦
              let next =
                sent-InSend
                  (record (transmit l to_send (fixed n w')).stats {
                    shift_send_cnt = add64 (transmit l to_send (fixed n w')).stats.shift_send_cnt 1;
                  })
                  v' m (omega (arith, ltb→lt n expect more)) in
              let count : add32 n 1 ≡ suc n = omega (arith, v.run.short) in
              elim (send_loop-InSend fuel ops expect same small next) [
                | inl (fails, slotless) ↦ inl (rw (more, e, count, send_loop) fails, slotless)
                | inr ((to_send'', n'', w''), runs, v'') ↦
                    inr ((to_send'', n'', w''), rw (more, e, count, send_loop) runs, v'')
              ]
        ]
      ]

prev-place :
    (p n : ℕ)
    → p < max_win_len
    → n < max_win_len
    → n ≢ 0
    → get_prev_position (place p n) ≡ place p (n - 1)
unfolding get_prev_position
prev-place p n h small ne = omega (arith, ne)

not_empty :
    {F : Type 0} (n : ℕ) (v : Window F)
    → v.to_ack < max_win_len
    → n < max_win_len
    → v.to_send ≡ place v.to_ack n
    → n ≢ 0
    → window_tx_empty v ≡ false
unfolding window_tx_empty
not_empty n v h small e ne =
    let apart : v.to_ack ≢ v.to_send = λ same. absurd (omega (arith, e, same)) in ground arith

module _ (q : Spsc SubOp) (l : Link) (d : Double) (group : ℕ) where
  expect_win_len-lt :
      (n : ℕ) (w : Worker q.Queue l.State d.F) → expect_win_len q l d n w < max_win_len
  unfolding expect_win_len
  expect_win_len-lt n w = omega arith

  abbrev right_of : Window d.F → ℕ
  right_of v = if window_tx_empty v then 0 else get_psn (v.state (get_prev_position v.to_send)).pkt

  -- The loop's `to_send` becomes that of the window.
  sent_lem :
      {n to_send : ℕ} {w : Worker q.Queue l.State d.F} {made got : List SubOp} (achieved : Bool)
      → InSend q group n to_send w made got
      → InStream q group n
          (record w {
            cwnd_achieved = achieved;
            window = record w.window {
              to_send = to_send;
              right_psn = right_of (record w.window { to_send = to_send });
            };
          })
          made
          got
  sent_lem {n} {to_send} {w} achieved v = record {
    window = record {
      run = record {
        from_in = v.run.from_in;
        base_in = v.run.base_in;
        short = v.run.short;
        end = v.run.end;
        psns = v.run.psns;
        groups = v.run.groups;
      };
      right = λ ne.
          rw
            (not_empty n (record w.window { to_send = to_send }) v.run.from_in v.run.short v.run.end
              ne)
            (ap (λ i. get_psn (w.window.state i).pkt)
                (ap get_prev_position v.run.end
                  ∙ prev-place w.window.to_ack n v.run.from_in v.run.short ne)
              ∙ v.run.psns (n - 1) (omega (arith, ne)));
    };
    parts = v.parts;
    queues = v.queues;
    next = v.next;
    follows = v.follows;
    numbers = IsNext-same q group refl refl refl v.numbers;
    current = v.current;
  }

  -- `shift_send` fails only over a part without slots, and keeps the stream.
  pub shift_send-InStream :
      (ops : ℕ → Op) {n : ℕ} {w : Worker q.Queue l.State d.F} {made got : List SubOp}
      → ((a : ℕ) → (ops a).group.group_id ≡ group)
      → InStream q group n w made got
      → Returns made got
          (λ (w' : Worker q.Queue l.State d.F). (n' : ℕ) × InStream q group n' w' made got)
          (shift_send q l d ops w)
  unfolding shift_send
  shift_send-InStream ops {n} {w} same v =
      let start : InSend q group n w.window.to_send w _ _ = record {
        run = v.window.run;
        parts = v.parts;
        queues = v.queues;
        next = v.next;
        follows = v.follows;
        numbers = v.numbers;
        current = v.current;
      } in
      let len = window_len_lem w.window v.window in
      elim (send_loop-InSend q l group max_pkt_burst ops (expect_win_len q l d n w) same
        (expect_win_len-lt n w) start) [
          | inl (fails, slotless) ↦ inl (rw (len, fails) refl, slotless)
          | inr ((to_send, n', w'), e, v') ↦ inr (
            record w' {
              cwnd_achieved =
                  if ltb n' (d.to_u32 w'.window.cc.cwnd) then w'.cwnd_achieved else true;
              window = record w'.window {
                to_send = to_send;
                right_psn = right_of (record w'.window { to_send = to_send });
              };
            },
            rw (len, e) refl,
            (n', sent_lem _ v'),
          )
        ]

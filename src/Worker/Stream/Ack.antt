-- ===== src/Worker/Stream/Ack.antt =====
-- The front of the window moves past the answered packets, and the stream goes on behind them: `shift_ack`
-- of server/backend/worker.cpp.
use clean_slate_inc.Prelude.{
  ℕ, ◌+◌, ◌%◌, ◌≡◌, ◌≢◌, ◌<◌, ◌⊎◌, inl, inr, refl, sym, ap, ◌∙◌, subst, true, false, some, List,
  arith, u32_mod,
}
use clean_slate_inc.Packet.{get_psn, get_group_id}
use clean_slate_inc.Congestion.{max_win_len}
use clean_slate_inc.LoadBalancer.{SubOp}
use clean_slate_inc.QueuePair.{Spsc, front_req}
use clean_slate_inc.QueuePair.History.{Reach}
use clean_slate_inc.Window.{Window}
use clean_slate_inc.Window.Positions.{place, IsWindow}
use clean_slate_inc.Worker.Defs.{Worker, Progress}
use clean_slate_inc.Worker.Stream.Kept.{IsNext-same}
use clean_slate_inc.Worker.Receive.{shift_ack}
use clean_slate_inc.Worker.Stream.{lasts, HaveParts, InStream}
use clean_slate_inc.Worker.Stream.Shift.{
  left_end, left_end-lt, left_end-psn, Shifted, shift_ack_loop-Shifted,
}

module _ {L F : Type 0} (q : Spsc SubOp) where
  -- A stream whose first `m` packets have left.
  shrunk-InStream :
      (group n m left to_ack left_psn : ℕ) {w w' : Worker q.Queue L F} {made got : List SubOp}
      → InStream q group n w made got
      → m + left ≡ n
      → to_ack ≡ place w.window.to_ack m
      → left_psn < u32_mod
      → (left ≢ 0 → left_psn ≡ get_psn (w.window.state to_ack).pkt)
      → w'.window ≡ record w.window { to_ack = to_ack; left_psn = left_psn }
      → Reach q w'.qp made (lasts w.window.state to_ack left) got
      → front_req q w'.qp ≡ front_req q w.qp
      → w'.progress ≡ w.progress
      → w'.psn_of ≡ w.psn_of
      → w'.current_group_id ≡ w.current_group_id
      → InStream q group left w' made got
  shrunk-InStream group n m left to_ack left_psn {w} {w'} {made} {got} v all at psn_in psn window
        queues front progress psn_of current =
      record {
        window =
            subst (λ (z : Window F). IsWindow group z left) (sym window)
              (record {
                run = record {
                  from_in = omega (arith, at);
                  base_in = psn_in;
                  short = omega (arith, v.window.run.short, all);
                  end = v.window.run.end ∙ omega (arith, at, all);
                  psns = λ k lt.
                      ap (λ i. get_psn (w.window.state i).pkt) (further k)
                      ∙ v.window.run.psns (m + k) (omega (arith, all))
                      ∙ omega (arith, base (λ e. absurd (omega arith)));
                  groups = λ k lt.
                      ap (λ i. get_group_id (w.window.state i).pkt) (further k)
                      ∙ v.window.run.groups (m + k) (omega (arith, all));
                };
                right = λ ne.
                    v.window.right (λ e. absurd (omega (arith, all)))
                    ∙ omega (arith, base ne, all, v.window.run.base_in);
              });
        parts =
            subst (λ (z : Window F). HaveParts z.state z.to_ack left) (sym window)
              (λ k lt.
                let (x, h) = v.parts (m + k) (omega (arith, all)) in
                (x, ap (λ i. (w.window.state i).sub_op) (further k) ∙ h));
        queues =
            subst (λ (z : Window F). Reach q w'.qp made (lasts z.state z.to_ack left) got)
              (sym window) queues;
        next = v.next;
        follows = λ ne.
            v.follows (λ e. absurd (omega (arith, all)))
            ∙ omega (arith, base ne, all)
            ∙ ap (λ (z : Window F). (z.left_psn + left) % u32_mod) (sym window);
        numbers = IsNext-same q group progress psn_of front v.numbers;
        current = λ c. current ∙ v.current (busy c);
      }
    where
      further : (k : ℕ) → place to_ack k ≡ place w.window.to_ack (m + k)
      further k = omega (arith, at)

      base : left ≢ 0 → left_psn ≡ (w.window.left_psn + m) % u32_mod
      base ne =
          psn ne
          ∙ ap (λ i. get_psn (w.window.state i).pkt) at
          ∙ v.window.run.psns m (omega (arith, all))

      busy :
          (left ≢ 0) ⊎ ((s : SubOp) × (w'.progress.sub_op ≡ some s))
          → (n ≢ 0) ⊎ ((s : SubOp) × (w.progress.sub_op ≡ some s))
      busy (inl ne) = inl (λ e. absurd (omega (arith, all)))
      busy (inr (s, h)) = inr (s, ap (λ (p : Progress). p.sub_op) (sym progress) ∙ h)

  -- What `shift_ack` does when its loop has left the packets from `r.to_ack` on.
  after_loop :
      (group n : ℕ) {w : Worker q.Queue L F} {made got : List SubOp}
      → InStream q group n w made got
      → (r : Shifted q n w.window.to_ack max_win_len w made got)
      → (w' : Worker q.Queue L F) × (shift_ack q w ≡ some w') × InStream q group r.left w' made got
  unfolding shift_ack
  after_loop group n {w} v r =
      let moved = record r.w'.window { to_ack = r.to_ack } in
      let to_send : moved.to_send ≡ place r.to_ack r.left =
        ap (λ (z : Window F). z.to_send) r.window ∙ v.window.run.end ∙ omega (arith, r.at, r.all) in
      let w' : Worker q.Queue L F = record r.w' {
        window = record moved { left_psn = left_end moved };
      } in
      (
        w',
        rw r.runs refl,
        shrunk-InStream group n r.m r.left r.to_ack (left_end moved) v r.all r.at
            (left_end-lt moved)
            (λ ne.
              left_end-psn r.left moved (omega (arith, r.at))
                (omega (arith, v.window.run.short, r.all)) to_send ne
              ∙ ap (λ (z : Window F). get_psn (z.state r.to_ack).pkt) r.window)
            (ap (λ (z : Window F). record z { to_ack = r.to_ack; left_psn = left_end moved })
              r.window)
            r.queues r.front r.progress r.psn_of r.current,
      )

  -- `shift_ack` never fails and keeps the stream: the `m` packets that leave have all been answered, and
  -- the first that stays has not.
  pub shift_ack-InStream :
      (group n : ℕ) {w : Worker q.Queue L F} {made got : List SubOp}
      → InStream q group n w made got
      → (w' : Worker q.Queue L F) × (m : ℕ) × (left : ℕ) × (shift_ack q w ≡ some w')
        × (m + left ≡ n)
        × InStream q group left w' made got
        × ((k : ℕ) → k < m → (w.window.state (place w.window.to_ack k)).acked ≡ true)
        × ((left ≡ 0) ⊎ ((w.window.state (place w.window.to_ack m)).acked ≡ false))
  shift_ack-InStream group n {w} v =
      let r =
        shift_ack_loop-Shifted q n max_win_len w.window.to_ack w v.window.run.from_in
          v.window.run.short (omega (arith, v.window.run.short)) v.window.run.end v.parts
          v.queues in
      let (w', e, v') = after_loop group n v r in
      (
        w',
        r.m,
        r.left,
        e,
        r.all,
        v',
        r.answered,
        subst (λ i. (r.left ≡ 0) ⊎ ((w.window.state i).acked ≡ false)) r.at r.stops,
      )

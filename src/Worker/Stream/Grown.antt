-- ===== src/Worker/Stream/Grown.antt =====
-- The stream with one more packet at its end: `gen_pkt` of server/backend/worker.cpp.
use clean_slate_inc.Prelude.{
  ℕ, suc, ◌+◌, ◌%◌, ◌≡◌, ◌≢◌, ◌<◌, sym, ap, ◌∙◌, subst, some, List, ◌++◌, arith, u32_mod,
}
use native.Mathlib.Decide.{ℕ_discrete}
use clean_slate_inc.Packet.{get_psn, get_group_id}
use clean_slate_inc.Congestion.{max_win_len}
use clean_slate_inc.LoadBalancer.{SubOp}
use clean_slate_inc.QueuePair.{Spsc}
use clean_slate_inc.QueuePair.History.{Reach}
use clean_slate_inc.Window.{Window, PktState, update, get_next_position}
use clean_slate_inc.Window.Positions.{place, IsRun, update_self, update_ne}
use clean_slate_inc.Worker.Defs.{Worker}
use clean_slate_inc.Worker.Stream.{ended, lasts, HaveParts, IsNext}
use clean_slate_inc.Worker.Stream.Lasts.{lasts-write, place-ne}
use clean_slate_inc.Worker.Stream.Make.{InSend}

module _ {L F : Type 0} (q : Spsc SubOp) (group : ℕ) where
  -- `gen_pkt` has filled in the packet at `to_send`, with the number `next`.
  pub record Made (n to_send next : ℕ) (w w' : Worker q.Queue L F) (made got : List SubOp)
      : Type 0 where
    pub st : PktState
    pub window : w'.window ≡ record w.window { state = update w.window.state to_send st }
    pub psn : get_psn st.pkt ≡ next
    pub of_group : get_group_id st.pkt ≡ group
    pub s : SubOp
    pub part : st.sub_op ≡ some s
    pub queues : Reach q w'.qp made (lasts w.window.state w.window.to_ack n ++ ended st) got
    pub numbers : IsNext q group ((next + 1) % u32_mod) w'
    pub current : w'.current_group_id ≡ group

  -- The stream with the packet in it.
  pub grown :
      {n to_send : ℕ} {w w' w'' : Worker q.Queue L F} {made got : List SubOp} (left_psn : ℕ)
      → (v : InSend q group n to_send w made got) → (m : Made n to_send v.next w w' made got)
      → suc n < max_win_len
      → (n ≡ 0 → left_psn ≡ v.next)
      → (n ≢ 0 → left_psn ≡ w.window.left_psn)
      → w''.window
        ≡ record w.window { state = update w.window.state to_send m.st; left_psn = left_psn }
      → Reach q w''.qp made (lasts w.window.state w.window.to_ack n ++ ended m.st) got
      → IsNext q group ((v.next + 1) % u32_mod) w''
      → w''.current_group_id ≡ group
      → InSend q group (suc n) (get_next_position to_send) w'' made got
  unfolding get_next_position
  grown {n} {to_send} {w} {w'} {w''} {made} {got} left_psn v m small first later window queues
        numbers current =
      record {
        run =
            subst
              (λ (z : Window F).
                IsRun group z.left_psn (suc n) z.to_ack (get_next_position to_send) z.state)
              (sym window)
              (record {
                from_in = v.run.from_in;
                base_in = base_in (ℕ_discrete n 0);
                short = small;
                end = omega (arith, v.run.end, v.run.from_in);
                psns =
                    every (λ st k. get_psn st.pkt ≡ (left_psn + k) % u32_mod)
                      (λ k lt.
                        v.run.psns k lt
                        ∙ ap (λ i. (i + k) % u32_mod) (sym (later (λ e. absurd (omega arith)))))
                      (m.psn ∙ base (ℕ_discrete n 0));
                groups = every (λ st k. get_group_id st.pkt ≡ group) v.run.groups m.of_group;
              });
        parts =
            subst (λ (z : Window F). HaveParts z.state z.to_ack (suc n)) (sym window)
              (every (λ st k. (x : SubOp) × (st.sub_op ≡ some x)) v.parts (m.s, m.part));
        queues =
            subst (λ (z : Window F). Reach q w''.qp made (lasts z.state z.to_ack (suc n)) got)
              (sym window) (subst (λ l. Reach q w''.qp made l got) (sym written) queues);
        next = (v.next + 1) % u32_mod;
        follows = λ _.
            omega (arith, base (ℕ_discrete n 0))
            ∙ ap (λ (z : Window F). (z.left_psn + suc n) % u32_mod) (sym window);
        numbers = numbers;
        current = λ _. current;
      }
    where
      f : ℕ → PktState
      f = w.window.state

      p : ℕ
      p = w.window.to_ack

      g : ℕ → PktState
      g = update f to_send m.st

      old : (k : ℕ) → k < n → g (place p k) ≡ f (place p k)
      old k lt =
          update_ne f m.st (λ e. place-ne p k n v.run.from_in lt (omega arith) (sym e ∙ v.run.end))

      new : g (place p n) ≡ m.st
      new = ap g (sym v.run.end) ∙ update_self f to_send m.st

      every :
          (P : PktState → ℕ → Type 0)
          → ((k : ℕ) → k < n → P (f (place p k)) k)
          → P m.st n
          → (k : ℕ) → k < suc n
          → P (g (place p k)) k
      every P olds st k lt = elim (ℕ_discrete k n) [
        | yes e ↦ subst (λ j. P (g (place p j)) j) (sym e) (subst (λ z. P z n) (sym new) st)
        | no ne ↦
            let less : k < n = omega arith in subst (λ z. P z k) (sym (old k less)) (olds k less)
      ]

      written : lasts g p (suc n) ≡ lasts f p n ++ ended m.st
      written =
          ap (λ i. lasts (update f i m.st) p (suc n)) v.run.end
          ∙ lasts-write n f p m.st v.run.from_in (omega arith)

      base_in : Dec (n ≡ 0) → left_psn < u32_mod
      base_in (yes e) = omega (arith, first e, v.numbers.next_in)
      base_in (no ne) = omega (arith, later ne, v.run.base_in)

      base : Dec (n ≡ 0) → v.next ≡ (left_psn + n) % u32_mod
      base (yes e) = omega (arith, first e, v.numbers.next_in)
      base (no ne) = v.follows ne ∙ ap (λ i. (i + n) % u32_mod) (sym (later ne))

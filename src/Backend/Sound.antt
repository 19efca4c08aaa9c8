-- ===== src/Backend/Sound.antt =====
-- Every state that the backend reaches is sound: the composition of the steps of
-- server/backend/load_balancer.cpp and server/backend/worker.cpp.
use clean_slate_inc.Prelude.{
  Option, ℕ, zero, suc, ◌+◌, ◌<◌, ◌≤◌, ◌≡◌, refl, sym, ap, ap₂, ◌∙◌, subst, Bool, true, none, some,
  inl, inr, List, [], ◌∷◌, ◌++◌, arith, length, map, get_elem?-AllFrom, get_elem?-lt, Option-cases,
  get_elem?, some-inj,
}
use clean_slate_inc.Op.{Op}
use clean_slate_inc.Packet.{Mbuf}
use clean_slate_inc.Congestion.{Double}
use clean_slate_inc.LoadBalancer.{SubOp, all_answered}
use clean_slate_inc.LoadBalancer.Lockstep.{length-map}
use clean_slate_inc.QueuePair.{Spsc, front_req, front_resp, queue_size}
use clean_slate_inc.QueuePair.History.{Reach, Reach-Inv}
use clean_slate_inc.Worker.Defs.{Link, Worker}
use clean_slate_inc.Backend.{State, qps_of, run_worker, run_post, run_complete, part_for}
use clean_slate_inc.Backend.Run.{Run, Sound, address, fresh-OwesParts, run_worker-Sound}
use clean_slate_inc.Backend.Steps.{
  run_post-Sound, run_post-IsAligned, run_complete-Sound, run_complete-ne-nil,
}
use clean_slate_inc.Backend.Parts.{OwesParts, owed_parts, part_for-sub_ops}
use clean_slate_inc.LoadBalancer.Split.{sub_ops}
use clean_slate_inc.QueuePair.Steps.{requests, responses}
use clean_slate_inc.Window.{window_len}
use clean_slate_inc.Window.Positions.{window_len_lem}
use clean_slate_inc.Worker.Stream.{lasts}

module _ (a : Spsc ℕ) (q : Spsc SubOp) (l : Link) (d : Double) (group : ℕ) where
  pub in_flight :
      {s : State a q l d} {posted got : List ℕ} {flight : List (ℕ × Op)}
      → Sound a q l d group s posted flight got
      → length flight ≤ queue_size
  in_flight {flight = flight} v =
      let inv = Reach-Inv a v.frontend in
      omega (arith, inv.count, inv.bound, length-map (address a q l d group) flight)

  pub answered_at :
      (ws : List (Worker q.Queue l.State d.F)) (i : ℕ) {w : Worker q.Queue l.State d.F}
      → get_elem? ws i ≡ some w
      → all_answered q (qps_of ws) ≡ true
      → (part : SubOp) × (front_resp q w.qp ≡ some part)
  unfolding all_answered
  answered_at [] i at done = absurd (ground arith)
  answered_at (x ∷ ws) zero {w} at done = elim (Option-cases (front_resp q x.qp)) [
    | inl empty ↦ absurd (ground arith)
    | inr (part, found) ↦
        let same : x ≡ w = some-inj at in
        (part, subst (λ (z : Worker q.Queue l.State d.F). front_resp q z.qp ≡ some part) same found)
  ]
  answered_at (x ∷ ws) (suc i) at done = elim (Option-cases (front_resp q x.qp)) [
    | inl empty ↦ absurd (ground arith)
    | inr (part, found) ↦ answered_at ws i at (ground arith)
  ]

  run_worker-missing :
      (i : ℕ) (ops : ℕ → Op) (now : ℕ) (arrived : List (Option Mbuf)) (s : State a q l d)
      {s' : State a q l d}
      → get_elem? s.workers i ≡ none
      → run_worker a q l d i ops now arrived s ≡ some s'
      → ⊥
  unfolding run_worker
  run_worker-missing i ops now arrived s missing e = ground arith

  pub round_kept :
      {s s' : State a q l d} {posted got : List ℕ} {flight : List (ℕ × Op)} (i : ℕ) (ops : ℕ → Op)
      (now : ℕ) (arrived : List (Option Mbuf))
      → Sound a q l d group s posted flight got
      → ((x : ℕ) → (ops x).group.group_id ≡ group)
      → run_worker a q l d i ops now arrived s ≡ some s'
      → Sound a q l d group s' posted flight got
  round_kept {s} {s'} {posted} {got} {flight} i ops now arrived v same e =
      elim (Option-cases (get_elem? s.workers i)) [
        | inl missing ↦ absurd (run_worker-missing i ops now arrived s missing e)
        | inr (w, at) ↦ elim (run_worker-Sound a q l d group i ops now arrived w at same v) [
          | inl (fails, _) ↦ absurd (ground (arith, fails, e))
          | inr (s'', e', v') ↦
              subst (λ z. Sound a q l d group z posted flight got) (some-inj (sym e' ∙ e)) v'
        ]
      ]

  pub takes_kept :
      {s s' : State a q l d} {posted got : List ℕ} {flight : List (ℕ × Op)} (x : ℕ) (ops : ℕ → Op)
      → Sound a q l d group s posted flight got
      → front_req a s.shm_qp ≡ some x
      → run_post a q l d ops s ≡ some (true, s')
      → Sound a q l d group s' posted (flight ++ (x, ops x) ∷ []) got
  takes_kept {s} {s'} {posted} {got} {flight} x ops v front e =
      let (s'', e', v') =
        run_post-Sound a q l d group x ops front (run_post-IsAligned a q l d group x ops s front e)
          v in
      subst (λ z. Sound a q l d group z posted (flight ++ (x, ops x) ∷ []) got)
        (ap (λ (p : Bool × State a q l d). p.1) (some-inj (sym e' ∙ e))) v'

  pub completes_kept :
      {s s' : State a q l d} {posted got : List ℕ} {f : ℕ × Op} {flight : List (ℕ × Op)}
      → Sound a q l d group s posted (f ∷ flight) got
      → run_complete a q l d s ≡ some (true, s')
      → Sound a q l d group s' posted flight got
  completes_kept {s} {s'} {posted} {got} {f} {flight} v e =
      elim (run_complete-Sound a q l d group (run_complete-ne-nil a q l d group s e) v) [
        | inl (_, e') ↦ absurd (ground arith)
        | inr (f', rest, s'', _, same, e', v', _) ↦
            let state : s'' ≡ s' = ap (λ (p : Bool × State a q l d). p.1) (some-inj (sym e' ∙ e)) in
            let flying : rest ≡ flight = cc in
            subst (λ z. Sound a q l d group z posted flight got) state
              (subst (λ z. Sound a q l d group s'' posted z got) flying v')
      ]

  pub Run-Sound :
      {begin s : State a q l d} {posted got : List ℕ} {flight : List (ℕ × Op)}
      → Run a q l d group begin s posted flight got
      → Sound a q l d group s posted flight got
  Run-Sound {begin} (Run.start queue idle) = record {
    frontend = subst (λ z. Reach a z [] [] []) (sym queue) Reach.init;
    owing = fresh-OwesParts a q l d group (length begin.workers) 0 begin.workers idle;
  }
  Run-Sound (Run.round i ops now arrived r same e) =
      round_kept i ops now arrived (Run-Sound r) same e
  Run-Sound (Run.takes x ops r front e) = takes_kept x ops (Run-Sound r) front e
  Run-Sound (Run.completes f r e) = completes_kept (Run-Sound r) e
  Run-Sound (Run.posts {s} {posted} {got} {flight} {qp} x r e) =
      let v = Run-Sound r in record { frontend = Reach.request x v.frontend e; owing = v.owing }
  Run-Sound (Run.collects {s} {posted} {got} {flight} {qp} x r front e) =
      let v = Run-Sound r in
      record { frontend = Reach.collect x v.frontend front e; owing = v.owing }
  Run-Sound (Run.writes mem r) =
      let v = Run-Sound r in record { frontend = v.frontend; owing = v.owing }

  -- In a sound state a worker owes its parts of the operations in flight.
  pub owes_parts :
      {s : State a q l d} {posted got : List ℕ} {flight : List (ℕ × Op)} (i : ℕ)
      {w : Worker q.Queue l.State d.F}
      → Sound a q l d group s posted flight got
      → get_elem? s.workers i ≡ some w
      → let n = length s.workers in
        let flying = lasts w.window.state w.window.to_ack (window_len w.window) in
        map some (responses q w.qp ++ (flying ++ requests q w.qp))
        ≡ map (λ (f : ℕ × Op). get_elem? (sub_ops f.0 f.1 n 0 0 n) i) flight
  owes_parts {s} {posted} {got} {flight} i {w} v at =
      let n = length s.workers in
      let u = get_elem?-AllFrom (OwesParts q group n flight) 0 i s.workers v.owing at in
      let len : window_len w.window ≡ u.n = window_len_lem w.window u.stream.window in
      ap
        (λ k.
          map some
            (responses q w.qp ++ (lasts w.window.state w.window.to_ack k ++ requests q w.qp)))
        len
      ∙ ap (map some) (owed_parts q group n flight (0 + i) w u)
      ∙ part_of_each n flight (get_elem?-lt s.workers i at)
    where
      part_of_each :
          (n : ℕ) (fs : List (ℕ × Op))
          → i < n
          → map some (map (part_for n (0 + i)) fs)
            ≡ map (λ (f : ℕ × Op). get_elem? (sub_ops f.0 f.1 n 0 0 n) i) fs
      part_of_each n [] h = refl
      part_of_each n (f ∷ fs) h =
          ap₂ (λ x xs. x ∷ xs)
            (ap (λ j. some (part_for n j f)) (omega arith) ∙ sym (part_for-sub_ops f n i h))
            (part_of_each n fs h)

-- ===== src/Backend/Steps.antt =====
-- The functions of the load balancer never fail in the backend, and keep it sound:
-- server/backend/load_balancer.cpp, `try_post_op` and `try_complete_op`.
use mathlib.Core.List.{map-append}
use clean_slate_inc.Prelude.{
  ℕ, ◌≡◌, ◌≢◌, refl, sym, ap, ◌∙◌, subst, ◌⊎◌, Bool, true, false, none, some, inl, inr, List, [],
  ◌∷◌, ◌++◌, map, arith, length, Option-cases, Bool-cases, AllFrom, >>=-eq-some, assert-some, ◌==◌,
  ◌||◌, ◌%◌, if◌then◌else◌,
}
use clean_slate_inc.Op.{Op, op_all_reduce, op_reduce}
use clean_slate_inc.Congestion.{Double}
use clean_slate_inc.LoadBalancer.{SubOp, all_answered, collect_from, try_post_op, try_complete_op}
use clean_slate_inc.LoadBalancer.Lockstep.{length-map, answered}
use clean_slate_inc.LoadBalancer.System.{IsAligned, flight-lt}
use clean_slate_inc.QueuePair.{Spsc, front_req, pop_req, front_resp}
use clean_slate_inc.QueuePair.Steps.{requests, responses, pop_req-requests, push_resp-responses}
use clean_slate_inc.QueuePair.History.{Reach, Reach-Inv}
use clean_slate_inc.Worker.Defs.{Link, Worker}
use clean_slate_inc.Worker.Stream.{lasts}
use clean_slate_inc.Backend.{
  State, qps_of, put_qps, balancer_of, put_balancer, run_post, run_complete, offset_at,
}
use clean_slate_inc.Backend.Parts.{
  OwesParts, owed_parts, post_from-OwesParts, collect_from-OwesParts, last_found,
}
use clean_slate_inc.Backend.Run.{Sound, address, length-qps_of, length-put_qps}

module _ (a : Spsc ℕ) (q : Spsc SubOp) (l : Link) (d : Double) (group : ℕ) where
  put_qps-qps_of : (ws : List (Worker q.Queue l.State d.F)) → put_qps ws (qps_of ws) ≡ ws
  put_qps-qps_of [] = refl
  put_qps-qps_of (w ∷ ws) = ap (λ r. w ∷ r) (put_qps-qps_of ws)

  put_balancer-balancer_of : (s : State a q l d) → put_balancer s (balancer_of s) ≡ s
  put_balancer-balancer_of s = ap (λ ws. record s { workers = ws }) (put_qps-qps_of s.workers)

  -- With no request `try_post_op` changes nothing.
  pub run_post-idle :
      (ops : ℕ → Op) (s : State a q l d)
      → front_req a s.shm_qp ≡ none
      → run_post a q l d ops s ≡ some (false, s)
  unfolding run_post try_post_op
  run_post-idle ops s e =
      rw (e, try_post_op) (ap (λ z. some (false, z)) (put_balancer-balancer_of s))

  -- It takes the oldest request, and gives each worker its part.
  pub run_post-Sound :
      {s : State a q l d} {posted got : List ℕ} {flight : List (ℕ × Op)} (x : ℕ) (ops : ℕ → Op)
      → front_req a s.shm_qp ≡ some x
      → IsAligned a q (ops x)
      → Sound a q l d group s posted flight got
      → (s' : State a q l d) × (run_post a q l d ops s ≡ some (true, s'))
        × Sound a q l d group s' posted (flight ++ (x, ops x) ∷ []) got
  unfolding run_post try_post_op offset_at
  run_post-Sound {s} {posted} {got} {flight} x ops front ok v =
      let n = length s.workers in
      let f : ℕ × Op = (x, ops x) in
      let (xs, h, room) = flight-lt a q s.shm_qp x v.frontend front in
      let (shm, e, _, _, _) = pop_req-requests a x xs s.shm_qp h in
      let (qps, es, owing) =
        post_from-OwesParts q group n flight f 0 s.workers
          (omega (arith, room, length-map (address a q l d group) flight)) v.owing in
      (
        record s { shm_qp = shm; workers = put_qps s.workers qps },
        rw (front, try_post_op, e, ok, length-qps_of a q l d group s.workers, es) refl,
        record {
          frontend =
              subst (λ z. Reach a shm posted z got)
                (sym (map-append (address a q l d group) flight (f ∷ [])))
                (Reach.take x v.frontend front e);
          owing =
              subst
                (λ k. AllFrom (OwesParts q group k (flight ++ f ∷ [])) 0 (put_qps s.workers qps))
                (sym (length-put_qps a q l d group s.workers qps)) owing;
        },
      )

  -- A call that returns has passed the assertion.
  pub run_post-IsAligned :
      (x : ℕ) (ops : ℕ → Op) (s : State a q l d) {r : Bool × State a q l d}
      → front_req a s.shm_qp ≡ some x
      → run_post a q l d ops s ≡ some r
      → IsAligned a q (ops x)
  unfolding run_post try_post_op
  run_post-IsAligned x ops s front e =
      let op = ops x in
      let (_, e1, _) = >>=-eq-some (try_post_op a q ops (balancer_of s)) _ e in
      let (_, _, e2) = >>=-eq-some (pop_req a s.shm_qp) _ (rw (front, try_post_op) at e1) in
      (assert-some
        (if op.op_code == op_all_reduce || op.op_code == op_reduce then op.size % 4 == 0 else true)
        _ e2).0

  -- A worker that has answered owes a part, so some operation is in flight.
  answered_first :
      (flight : List (ℕ × Op)) (n : ℕ) (ws : List (Worker q.Queue l.State d.F))
      → ws ≢ []
      → AllFrom (OwesParts q group n flight) 0 ws
      → all_answered q (qps_of ws) ≡ true
      → (f : ℕ × Op) × (rest : List (ℕ × Op)) × (flight ≡ f ∷ rest)
        × (last_found q group n none f.0 ws ≡ some f.0)
  unfolding all_answered
  answered_first flight n [] some_worker h e = absurd (some_worker refl)
  answered_first [] n (w ∷ ws) some_worker (v, h) e = elim (Option-cases (front_resp q w.qp)) [
    | inl empty ↦ absurd (ground arith)
    | inr (part, found) ↦
        let (xs, was) = answered q w.qp found in
        let rest = lasts w.window.state w.window.to_ack v.n ++ requests q w.qp in
        let none_owed : part ∷ (xs ++ rest) ≡ [] =
          ap (λ z. z ++ rest) (sym was) ∙ owed_parts q group n [] 0 w v in
        absurd (ground arith)
  ]
  answered_first (f ∷ rest) n (w ∷ ws) some_worker h e = (f, rest, refl, refl)

  -- `try_complete_op` waits for an answer of every worker, and then completes the oldest operation.
  pub run_complete-Sound :
      {s : State a q l d} {posted got : List ℕ} {flight : List (ℕ × Op)}
      → s.workers ≢ []
      → Sound a q l d group s posted flight got
      → ((all_answered q (qps_of s.workers) ≡ false) × (run_complete a q l d s ≡ some (false, s)))
        ⊎ ((f : ℕ × Op) × (rest : List (ℕ × Op)) × (s' : State a q l d) × (all_answered q
                (qps_of s.workers)
              ≡ true)
            × (flight ≡ f ∷ rest)
            × (run_complete a q l d s ≡ some (true, s'))
            × Sound a q l d group s' posted rest got
            × (responses a s'.shm_qp ≡ responses a s.shm_qp ++ f.0 ∷ []))
  unfolding run_complete try_complete_op
  run_complete-Sound {s} {posted} {got} {flight} some_worker v =
      let n = length s.workers in
      elim (Bool-cases (all_answered q (qps_of s.workers))) [
        | inr waiting ↦
            inl (waiting, rw waiting (ap (λ z. some (false, z)) (put_balancer-balancer_of s)))
        | inl done ↦
            let (f, rest, e, last) = answered_first flight n s.workers some_worker v.owing done in
            let reach : Reach a s.shm_qp posted (f.0 ∷ map (address a q l d group) rest) got =
              subst (λ z. Reach a s.shm_qp posted (map (address a q l d group) z) got) e
                v.frontend in
            let inv = Reach-Inv a reach in
            let (qps, es, owing) =
              collect_from-OwesParts q group n none f rest 0 s.workers
                (omega (arith, inv.count, inv.bound, length-map (address a q l d group) rest))
                (subst (λ z. AllFrom (OwesParts q group n z) 0 s.workers) e v.owing) done in
            let (shm, g, answers, _, _) =
              push_resp-responses a f.0 s.shm_qp (omega (arith, inv.count, inv.bound)) in
            inr (
              f,
              rest,
              record s { shm_qp = shm; workers = put_qps s.workers qps },
              done,
              e,
              rw (done, es, last, g) refl,
              record {
                frontend = Reach.answer f.0 reach g;
                owing =
                    subst (λ k. AllFrom (OwesParts q group k rest) 0 (put_qps s.workers qps))
                      (sym (length-put_qps a q l d group s.workers qps)) owing;
              },
              answers,
            )
      ]

  pub run_complete-ne-nil :
      (s : State a q l d) {r : Bool × State a q l d}
      → run_complete a q l d s ≡ some r
      → s.workers ≢ []
  unfolding run_complete try_complete_op all_answered collect_from
  run_complete-ne-nil s e no_worker = absurd (ground arith)

-- ===== src/LoadBalancer/System.antt =====
-- The load balancer between the frontend and its workers, however they interleave:
-- server/backend/load_balancer.cpp, `try_post_op`, `try_complete_op` and `load_balancer`.
use clean_slate_inc.Prelude.{
  ℕ, ◌%◌, ◌<◌, ◌≡◌, ◌≢◌, refl, sym, ap, ◌∙◌, ◌⊎◌, inl, inr, List, [], ◌∷◌, ◌++◌, map, arith, length,
  head?, none, some, Option-cases, true, false, Bool-cases, ◌||◌, ◌==◌, if◌then◌else◌,
}
use clean_slate_inc.Op.{Op, op_all_reduce, op_reduce}
use clean_slate_inc.QueuePair.{Spsc, QueuePair, queue_size, front_req, front_resp}
use clean_slate_inc.QueuePair.Steps.{
  requests, responses, pop_req-requests, front_req-requests, push_resp-responses,
}
use clean_slate_inc.QueuePair.History.{Reach, answer, Reach-Inv}
use clean_slate_inc.LoadBalancer.{SubOp, LoadBalancer, all_answered, try_post_op, try_complete_op}
use clean_slate_inc.LoadBalancer.Split.{sub_ops}
use clean_slate_inc.LoadBalancer.Lockstep.{
  Lockstep, Appended, post_from-Lockstep, collect_from-Lockstep, answered, last_op,
}

module _ (a : Spsc ℕ) (b : Spsc SubOp) where
  -- The frontend has made the requests `made` and collected the answers `got`; the load balancer has
  -- taken and not completed the operations `flight`, and every worker owes a part of each.
  pub record Balanced (lb : LoadBalancer a.Queue b.Queue) (made flight got : List ℕ)
      (taken : List (List SubOp)) : Type 0 where
    pub frontend : Reach a lb.shm_qp made flight got
    pub workers : Lockstep b flight lb.worker_qps taken

  -- What the operation at the front has to satisfy: `try_post_op` asserts it.
  abbrev pub IsAligned : Op → Type 0
  IsAligned op =
      (if op.op_code == op_all_reduce || op.op_code == op_reduce then op.size % 4 == 0 else true)
      ≡ true

  pub flight-lt :
      (qp : QueuePair a.Queue) (x : ℕ) {made flight got : List ℕ}
      → Reach a qp made flight got
      → front_req a qp ≡ some x
      → (xs : List ℕ) × (requests a qp ≡ x ∷ xs) × (length flight < queue_size)
  flight-lt qp x {made} {flight} {got} r e =
      split (requests a qp) refl (sym (front_req-requests a qp) ∙ e)
    where
      split :
          (ys : List ℕ)
          → requests a qp ≡ ys
          → head? ys ≡ some x
          → (xs : List ℕ) × (requests a qp ≡ x ∷ xs) × (length flight < queue_size)
      split [] h k = absurd (ground arith)
      split (y ∷ ys) h k =
          let v = Reach-Inv a r in (ys, ground arith, omega (arith, v.count, v.bound, ap length h))

  -- In every balanced state `try_post_op` runs through: with no request it returns false and changes
  -- nothing; otherwise it takes the oldest request and gives each worker its part of it, and the
  -- state is balanced again.
  pub try_post_op_lem :
      (ops : ℕ → Op) (lb : LoadBalancer a.Queue b.Queue) {made flight got : List ℕ}
      {taken : List (List SubOp)}
      → Balanced lb made flight got taken
      → ((x : ℕ) → front_req a lb.shm_qp ≡ some x → IsAligned (ops x))
      → ((front_req a lb.shm_qp ≡ none) × (try_post_op a b ops lb ≡ some (false, lb)))
        ⊎ ((x : ℕ) × (lb' : LoadBalancer a.Queue b.Queue) × (front_req a lb.shm_qp ≡ some x)
            × (try_post_op a b ops lb ≡ some (true, lb'))
            × Balanced lb' made (flight ++ x ∷ []) got taken
            × Appended b
                (sub_ops x (ops x) (length lb.worker_qps) 0 0 (length lb.worker_qps))
                lb.worker_qps
                lb'.worker_qps)
  unfolding try_post_op
  try_post_op_lem ops lb {made} {flight} {got} {taken} v ok =
      elim (Option-cases (front_req a lb.shm_qp)) [
        | inl idle ↦ inl (idle, rw (idle, try_post_op) refl)
        | inr (x, found) ↦
            let (xs, h, room) = flight-lt lb.shm_qp x v.frontend found in
            let (shm, e, _, _, _) = pop_req-requests a x xs lb.shm_qp h in
            let (qps, f, ws, app) =
              post_from-Lockstep b x (ops x) (length lb.worker_qps) 0 0 flight lb.worker_qps taken
                room v.workers in
            inr (
              x,
              record { shm_qp = shm; worker_qps = qps },
              found,
              rw (found, try_post_op, e, ok x found, f) refl,
              record { frontend = Reach.take x v.frontend found e; workers = ws },
              app,
            )
      ]

  all_answered-first :
      (flight : List ℕ) (qps : List (QueuePair b.Queue)) (ts : List (List SubOp))
      → qps ≢ []
      → Lockstep b flight qps ts
      → all_answered b qps ≡ true
      → (x : ℕ) × (rest : List ℕ) × (flight ≡ x ∷ rest) × (last_op b none x qps ≡ some x)
  unfolding all_answered
  all_answered-first flight [] ts h v e = absurd (h refl)
  all_answered-first flight (qp ∷ qps) [] h v e = absurd v
  all_answered-first flight (qp ∷ qps) (t ∷ ts) h (v, vs) e =
      elim (Option-cases (front_resp b qp)) [
        | inl empty ↦ absurd (ground arith)
        | inr (part, found) ↦
            let (xs, was) = answered b qp found in
            (part.op, map (λ s. s.op) (xs ++ (t ++ requests b qp)), sym v.order ∙ rw was refl, refl)
      ]

  -- In every balanced state with a worker, `try_complete_op` runs through: if some worker has not
  -- answered it returns false and changes nothing; otherwise it completes the oldest operation in
  -- flight, by taking one answer of each worker, and the state is balanced again.
  pub try_complete_op_lem :
      (lb : LoadBalancer a.Queue b.Queue) {made flight got : List ℕ} {taken : List (List SubOp)}
      → lb.worker_qps ≢ []
      → Balanced lb made flight got taken
      → ((all_answered b lb.worker_qps ≡ false) × (try_complete_op a b lb ≡ some (false, lb)))
        ⊎ ((x : ℕ) × (rest : List ℕ) × (lb' : LoadBalancer a.Queue b.Queue) × (all_answered b
                lb.worker_qps
              ≡ true)
            × (flight ≡ x ∷ rest)
            × (try_complete_op a b lb ≡ some (true, lb'))
            × Balanced lb' made rest got taken
            × (responses a lb'.shm_qp ≡ responses a lb.shm_qp ++ x ∷ []))
  unfolding try_complete_op
  try_complete_op_lem lb {made} {flight} {got} {taken} some_worker v =
      elim (Bool-cases (all_answered b lb.worker_qps)) [
        | inr waiting ↦ inl (waiting, rw (waiting, try_complete_op) refl)
        | inl done ↦
            let (x, rest, e, last) =
              all_answered-first flight lb.worker_qps taken some_worker v.workers done in
            let r : Reach a lb.shm_qp made (x ∷ rest) got = rw e at v.frontend in
            let w : Lockstep b (x ∷ rest) lb.worker_qps taken = rw e at v.workers in
            let inv = Reach-Inv a r in
            let (qps, f, ws) =
              collect_from-Lockstep b none x rest lb.worker_qps taken
                (omega (arith, inv.count, inv.bound)) w done in
            let (shm, g, answers, _, _) =
              push_resp-responses a x lb.shm_qp (omega (arith, inv.count, inv.bound)) in
            inr (
              x,
              rest,
              record { shm_qp = shm; worker_qps = qps },
              done,
              e,
              rw (done, try_complete_op, f, last, g) refl,
              record { frontend = answer x r g; workers = ws },
              answers,
            )
      ]

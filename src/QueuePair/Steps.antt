-- ===== src/QueuePair/Steps.antt =====
-- What each operation of `queue_pair_t` does to the elements of its queues, and what holds however
-- a requester and a responder interleave: server/common/common.hpp.
use clean_slate_inc.Prelude.{
  ◌+◌, ◌<◌, ◌≤◌, ◌≡◌, refl, true, none, some, List, [], ◌∷◌, ◌++◌, arith, ltb, length, head?, add64,
  sub64, ap, if◌then◌else◌,
}
use clean_slate_inc.QueuePair.{
  queue_size, Spsc, QueuePair, push_req, front_req, pop_req, push_resp, front_resp, pop_resp,
}

module _ {T : Type 0} (s : Spsc T) where
  open s use {
    Queue, empty, push, items, items-empty, push-room, push-full, read_available-items, front-items,
    items-pop,
  }

  abbrev pub requests : QueuePair Queue → List T
  requests qp = items qp.wq

  abbrev pub responses : QueuePair Queue → List T
  responses qp = items qp.cq

  -- The length test in front of a read changes nothing: there is no first element to read.
  head?-guarded : (xs : List T) → (if ltb 0 (length xs) then head? xs else none) ≡ head? xs
  head?-guarded [] = refl
  head?-guarded (x ∷ xs) = ground arith

  pub front_req-requests : (qp : QueuePair Queue) → front_req s qp ≡ head? (requests qp)
  unfolding front_req
  front_req-requests qp =
      rw (read_available-items qp.wq, front-items qp.wq) (head?-guarded (items qp.wq))

  pub front_resp-responses : (qp : QueuePair Queue) → front_resp s qp ≡ head? (responses qp)
  unfolding front_resp
  front_resp-responses qp =
      rw (read_available-items qp.cq, front-items qp.cq) (head?-guarded (items qp.cq))

  -- What a successful `push_req` has done.
  abbrev pub Pushed : T → QueuePair Queue → QueuePair Queue → Type 0
  Pushed x qp qp' =
      (requests qp' ≡ requests qp ++ x ∷ [])
      × (responses qp' ≡ responses qp)
      × (qp'.num_in_queue ≡ qp.num_in_queue + 1)

  pub push_req-Pushed :
      (x : T) (qp : QueuePair Queue)
      → qp.num_in_queue < queue_size
      → length (requests qp) < queue_size
      → (qp' : QueuePair Queue) × (push_req s x qp ≡ some (true, qp')) × Pushed x qp qp'
  unfolding push_req
  push_req-Pushed x qp h k =
      let (done, queued) = push-room x qp.wq k in
      (
        record { wq = (push x qp.wq).1; cq = qp.cq; num_in_queue = add64 qp.num_in_queue 1 },
        ground arith,
        (queued, refl, omega arith),
      )

  pub pop_req-requests :
      (x : T) (xs : List T) (qp : QueuePair Queue)
      → requests qp ≡ x ∷ xs
      → (qp' : QueuePair Queue) × (pop_req s qp ≡ some qp')
        × (requests qp' ≡ xs)
        × (responses qp' ≡ responses qp)
        × (qp'.num_in_queue ≡ qp.num_in_queue)
  unfolding pop_req
  pop_req-requests x xs qp e =
      let q = record qp { wq = s.pop qp.wq } in
      (
        q,
        ground (arith, read_available-items qp.wq, ap length e),
        rw (items-pop qp.wq, e),
        refl,
        refl,
      )

  pub push_resp-responses :
      (x : T) (qp : QueuePair Queue)
      → length (responses qp) < queue_size
      → (qp' : QueuePair Queue) × (push_resp s x qp ≡ some (true, qp'))
        × (responses qp' ≡ responses qp ++ x ∷ [])
        × (requests qp' ≡ requests qp)
        × (qp'.num_in_queue ≡ qp.num_in_queue)
  unfolding push_resp
  push_resp-responses x qp h =
      let (done, queued) = push-room x qp.cq h in
      (record qp { cq = (push x qp.cq).1 }, ground arith, queued, refl, refl)

  pub pop_resp-responses :
      (x : T) (xs : List T) (qp : QueuePair Queue)
      → responses qp ≡ x ∷ xs
      → 0 < qp.num_in_queue
      → qp.num_in_queue ≤ queue_size
      → (qp' : QueuePair Queue) × (pop_resp s qp ≡ some qp')
        × (responses qp' ≡ xs)
        × (requests qp' ≡ requests qp)
        × (qp'.num_in_queue + 1 ≡ qp.num_in_queue)
  unfolding pop_resp
  pop_resp-responses x xs qp e pos le = (
    record qp { cq = s.pop qp.cq; num_in_queue = sub64 qp.num_in_queue 1 },
    ground (arith, read_available-items qp.cq, ap length e),
    rw (items-pop qp.cq, e),
    refl,
    omega arith,
  )

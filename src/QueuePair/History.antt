-- ===== src/QueuePair/History.antt =====
-- What holds of a queue pair however a requester and a responder interleave: nothing is lost,
-- doubled or reordered, and no assertion of `queue_pair_t` fails: server/common/common.hpp.
use clean_slate_inc.Prelude.{
  ◌+◌, ◌-◌, ◌<◌, ◌≤◌, ◌≡◌, ◌≢◌, refl, ◌⊎◌, inl, inr, true, false, some, List, [], ◌∷◌, ◌++◌, arith,
  length, head?, length-append, append_assoc, ◌∙◌, ap, sym, subst,
}
use native.Mathlib.Decide.{ℕ_discrete}
use clean_slate_inc.QueuePair.{
  queue_size, Spsc, QueuePair, fresh, available, push_req, front_req, pop_req, push_resp,
  front_resp, pop_resp,
}
use clean_slate_inc.QueuePair.Steps.{
  requests, responses, front_req-requests, front_resp-responses, Pushed, push_req-Pushed,
  pop_req-requests, push_resp-responses, pop_resp-responses,
}

pub head?-some {ℓ} :
    {A : Type ℓ} (x : A) (xs : List A) → head? xs ≡ some x → (ys : List A) × (xs ≡ x ∷ ys)
head?-some x [] e = absurd (ground arith)
head?-some x (y ∷ ys) e = (ys, ground arith)

module _ {T : Type 0} (s : Spsc T) where
  open s use {Queue, items-empty}

  -- The calls of a requester and of a responder in any order. The indices are the queue pair, the
  -- requests made so far, those that the responder has taken and not yet answered, and the
  -- responses collected. The responder answers in the order in which it took.
  pub data Reach : QueuePair Queue → List T → List T → List T → Type 0 where
    init : Reach (fresh s) [] [] []
    request :
        {qp qp' : QueuePair Queue} {made taken got : List T} (x : T)
        → Reach qp made taken got
        → push_req s x qp ≡ some (true, qp')
        → Reach qp' (made ++ x ∷ []) taken got
    refuse :
        {qp qp' : QueuePair Queue} {made taken got : List T} (x : T)
        → Reach qp made taken got
        → push_req s x qp ≡ some (false, qp')
        → Reach qp' made taken got
    take :
        {qp qp' : QueuePair Queue} {made taken got : List T} (x : T)
        → Reach qp made taken got
        → front_req s qp ≡ some x
        → pop_req s qp ≡ some qp'
        → Reach qp' made (taken ++ x ∷ []) got
    answer :
        {qp qp' : QueuePair Queue} {made taken got : List T} (x : T)
        → Reach qp made (x ∷ taken) got
        → push_resp s x qp ≡ some (true, qp')
        → Reach qp' made taken got
    collect :
        {qp qp' : QueuePair Queue} {made taken got : List T} (x : T)
        → Reach qp made taken got
        → front_resp s qp ≡ some x
        → pop_resp s qp ≡ some qp'
        → Reach qp' made taken (got ++ x ∷ [])

  -- The requests made are, in order, those collected, answered, taken and waiting, and the count is
  -- the number of those not yet collected.
  pub record Inv (qp : QueuePair Queue) (made taken got : List T) : Type 0 where
    pub order : got ++ (responses s qp ++ (taken ++ requests s qp)) ≡ made
    pub count : qp.num_in_queue ≡ length (responses s qp) + length taken + length (requests s qp)
    pub bound : qp.num_in_queue ≤ queue_size

  init-Inv : Inv (fresh s) [] [] []
  unfolding fresh
  init-Inv = record {
    order = rw items-empty refl;
    count = omega (arith, ap length items-empty);
    bound = omega arith;
  }

  push_req-room :
      (x : T) (qp : QueuePair Queue) {qp' : QueuePair Queue}
      → push_req s x qp ≡ some (true, qp')
      → qp.num_in_queue ≢ queue_size
  unfolding push_req
  push_req-room x qp e full = ground arith

  request-Inv :
      (x : T) {qp qp' : QueuePair Queue} {made taken got : List T}
      → Inv qp made taken got
      → push_req s x qp ≡ some (true, qp')
      → Inv qp' (made ++ x ∷ []) taken got
  request-Inv x {qp} {qp'} {made} {taken} {got} v e =
      let room : qp.num_in_queue < queue_size = omega (arith, push_req-room x qp e, v.bound) in
      let (q, f, p) = push_req-Pushed s x qp room (omega (arith, v.count)) in
      let same : q ≡ qp' = ground arith in
      subst (λ r. Inv r (made ++ x ∷ []) taken got) same
        (record {
          order = rw (p.0, p.1, ← v.order) (simp append_assoc);
          count = omega (
            arith,
            v.count,
            p.2,
            ap length p.0,
            ap length p.1,
            length-append (requests s qp) (x ∷ []),
          );
          bound = omega (arith, p.2);
        })

  refuse-same :
      (x : T) (qp : QueuePair Queue) {qp' : QueuePair Queue}
      → push_req s x qp ≡ some (false, qp')
      → qp' ≡ qp
  unfolding push_req
  refuse-same x qp e = ground arith

  take-Inv :
      (x : T) {qp qp' : QueuePair Queue} {made taken got : List T}
      → Inv qp made taken got
      → front_req s qp ≡ some x
      → pop_req s qp ≡ some qp'
      → Inv qp' made (taken ++ x ∷ []) got
  take-Inv x {qp} {qp'} {made} {taken} {got} v f e =
      let (xs, h) = head?-some x (requests s qp) (sym (front_req-requests s qp) ∙ f) in
      let (q, g, p0, p1, p2) = pop_req-requests s x xs qp h in
      let same : q ≡ qp' = ground arith in
      subst (λ r. Inv r made (taken ++ x ∷ []) got) same
        (record {
          order = rw (p0, p1, ← v.order, h) (simp append_assoc);
          count = omega (
            arith,
            v.count,
            p2,
            ap length p0,
            ap length p1,
            ap length h,
            length-append taken (x ∷ []),
          );
          bound = omega (arith, p2, v.bound);
        })

  answer-Inv :
      (x : T) {qp qp' : QueuePair Queue} {made taken got : List T}
      → Inv qp made (x ∷ taken) got
      → push_resp s x qp ≡ some (true, qp')
      → Inv qp' made taken got
  answer-Inv x {qp} {qp'} {made} {taken} {got} v e =
      let (q, g, p0, p1, p2) = push_resp-responses s x qp (omega (arith, v.count, v.bound)) in
      let same : q ≡ qp' = ground arith in
      subst (λ r. Inv r made taken got) same
        (record {
          order = rw (p0, p1, ← v.order) (simp append_assoc);
          count = omega (
            arith,
            v.count,
            p2,
            ap length p0,
            ap length p1,
            length-append (responses s qp) (x ∷ []),
          );
          bound = omega (arith, p2, v.bound);
        })

  collect-Inv :
      (x : T) {qp qp' : QueuePair Queue} {made taken got : List T}
      → Inv qp made taken got
      → front_resp s qp ≡ some x
      → pop_resp s qp ≡ some qp'
      → Inv qp' made taken (got ++ x ∷ [])
  collect-Inv x {qp} {qp'} {made} {taken} {got} v f e =
      let (xs, h) = head?-some x (responses s qp) (sym (front_resp-responses s qp) ∙ f) in
      let (q, g, p0, p1, p2) =
        pop_resp-responses s x xs qp h (omega (arith, v.count, ap length h)) v.bound in
      let same : q ≡ qp' = ground arith in
      subst (λ r. Inv r made taken (got ++ x ∷ [])) same
        (record {
          order = rw (p0, p1, ← v.order, h) (simp append_assoc);
          count = omega (arith, v.count, p2, ap length p0, ap length p1, ap length h);
          bound = omega (arith, p2, v.bound);
        })

  pub Reach-Inv :
      {qp : QueuePair Queue} {made taken got : List T}
      → Reach qp made taken got
      → Inv qp made taken got
  Reach-Inv init = init-Inv
  Reach-Inv (request x r e) = request-Inv x (Reach-Inv r) e
  Reach-Inv (refuse {made = made} {taken = taken} {got = got} x r e) =
      subst (λ q. Inv q made taken got) (sym (refuse-same x _ e)) (Reach-Inv r)
  Reach-Inv (take x r f e) = take-Inv x (Reach-Inv r) f e
  Reach-Inv (answer x r e) = answer-Inv x (Reach-Inv r) e
  Reach-Inv (collect x r f e) = collect-Inv x (Reach-Inv r) f e

  -- With a responder that answers the requests in the order in which it takes them, as the load
  -- balancer and the workers do: however the steps of requester and responder interleave, the responses
  -- collected, those waiting, the requests taken and those waiting are together the requests made, in the
  -- order in which they were made, and `available` is the room left of QUEUE_SIZE.
  pub nothing_lost_or_reordered :
      {qp : QueuePair Queue} {made taken got : List T}
      → Reach qp made taken got
      → (got ++ (responses s qp ++ (taken ++ requests s qp)) ≡ made)
        × (available s qp + (length made - length got) ≡ queue_size)
  unfolding available
  nothing_lost_or_reordered {qp} {made} {taken} {got} r =
      let v = Reach-Inv r in
      (
        v.order,
        omega (
          arith,
          v.count,
          v.bound,
          ap length v.order,
          length-append got (responses s qp ++ (taken ++ requests s qp)),
          length-append (responses s qp) (taken ++ requests s qp),
          length-append taken (requests s qp),
        ),
      )

  -- In every reachable state `push_req` passes its assertion: it queues the request if fewer than
  -- QUEUE_SIZE are outstanding, and otherwise refuses it and changes nothing.
  pub push_req_total :
      {qp : QueuePair Queue} {made taken got : List T} (x : T)
      → Reach qp made taken got
      → ((qp.num_in_queue < queue_size)
          × ((qp' : QueuePair Queue) × (push_req s x qp ≡ some (true, qp')) × Pushed s x qp qp'))
        ⊎ ((qp.num_in_queue ≡ queue_size) × (push_req s x qp ≡ some (false, qp)))
  unfolding push_req
  push_req_total {qp} x r =
      let v = Reach-Inv r in
      elim (ℕ_discrete qp.num_in_queue queue_size) [
        | yes full ↦ inr (full, ground arith)
        | no room ↦
            let less : qp.num_in_queue < queue_size = omega (arith, v.bound) in
            inl (less, push_req-Pushed s x qp less (omega (arith, v.count, v.bound)))
      ]

  -- In every reachable state the answer to the oldest request taken passes the assertion of
  -- `push_resp`: there is always room for it among the responses.
  pub push_resp_total :
      {qp : QueuePair Queue} {x : T} {made taken got : List T}
      → Reach qp made (x ∷ taken) got
      → (qp' : QueuePair Queue) × (push_resp s x qp ≡ some (true, qp'))
        × (responses s qp' ≡ responses s qp ++ x ∷ [])
        × (requests s qp' ≡ requests s qp)
  push_resp_total {qp} {x} r =
      let v = Reach-Inv r in
      let (q, g, p0, p1, p2) = push_resp-responses s x qp (omega (arith, v.count, v.bound)) in
      (q, g, p0, p1)

-- ===== src/Daemon/Protocol.antt =====
-- How the daemon brings an operation to the backend and back: its copy is started once, and nobody
-- gets the operation before the copy is done: server/frontend/src/c/daemon.cpp.
use clean_slate_inc.Prelude.{
  ℕ, zero, suc, ◌≡◌, ◌<◌, refl, Bool, true, false, Option, some, List, [], ◌∷◌, ◌++◌, ◌>>=◌, length,
  tail, arith, ◌∙◌, ap, sym,
}
use clean_slate_inc.Op.{need_tx}
use clean_slate_inc.QueuePair.{queue_size, Spsc, front_req}
use clean_slate_inc.QueuePair.Steps.{
  requests, front_req-requests, push_req-Pushed, pop_req-requests,
}
use clean_slate_inc.QueuePair.History.{head?-some}
use clean_slate_inc.Frontend.{OpWithFut}
use clean_slate_inc.Daemon.{Daemon, set_copying, start_post, hand_over, try_post_op}

-- `cudaEventQuery` says `n` times that the copy is not done.
abbrev pub not_done : ℕ → List Bool
not_done zero = []
not_done (suc n) = false ∷ not_done n

module _ (q : Spsc ℕ) where
  -- Rounds of `try_post_op`, with the answers that `cudaEventQuery` has ready for them.
  abbrev pub post_rounds : List Bool → Daemon q.Queue → Option (Daemon q.Queue)
  post_rounds [] d = some d
  post_rounds (done ∷ rest) d =
      try_post_op q done d >>= λ (r : Bool × Daemon q.Queue). post_rounds rest r.1

  pub set_copying_self :
      (a : ℕ) (c : Bool) (d : Daemon q.Queue)
      → (set_copying a c d).heap a ≡ record (d.heap a) { copying = c }
  unfolding set_copying
  set_copying_self a c d = ground arith

  -- The daemon after it has started the copy of an operation.
  abbrev pub started : ℕ → Daemon q.Queue → Daemon q.Queue
  started a d = record (set_copying a true d) {
    calls = d.calls ++ start_post (d.heap a) (d.ops (d.heap a).op);
  }

  try_post_op-start :
      (a : ℕ) (done : Bool) (d : Daemon q.Queue)
      → front_req q d.py_qp ≡ some a
      → need_tx (d.ops (d.heap a).op) ≡ true
      → (d.heap a).copying ≡ false
      → try_post_op q done d ≡ some (true, started a d)
  unfolding try_post_op
  try_post_op-start a done d front tx idle = rw (try_post_op, front, tx, idle) refl

  -- The operation at the front is being copied.
  abbrev Copying : ℕ → Daemon q.Queue → Type 0
  Copying a d =
      (front_req q d.py_qp ≡ some a)
      × (need_tx (d.ops (d.heap a).op) ≡ true)
      × ((d.heap a).copying ≡ true)

  started-Copying :
      (a : ℕ) (d : Daemon q.Queue)
      → front_req q d.py_qp ≡ some a
      → need_tx (d.ops (d.heap a).op) ≡ true
      → Copying a (started a d)
  unfolding set_copying
  started-Copying a d front tx = (
    front,
    ap (λ (x : OpWithFut). need_tx (d.ops x.op)) (set_copying_self a true d) ∙ tx,
    ap (λ (x : OpWithFut). x.copying) (set_copying_self a true d),
  )

  try_post_op-poll :
      (a : ℕ) (d : Daemon q.Queue) → Copying a d → try_post_op q false d ≡ some (false, d)
  unfolding try_post_op
  try_post_op-poll a d c = rw (try_post_op, c.0, c.1, c.2) refl

  try_post_op-done :
      (a : ℕ) (d : Daemon q.Queue)
      → Copying a d
      → try_post_op q true d ≡ hand_over q a (set_copying a false d)
  unfolding try_post_op
  try_post_op-done a d c = rw (try_post_op, c.0, c.1, c.2) refl

  post_rounds-poll :
      (a n : ℕ) (d : Daemon q.Queue) → Copying a d → post_rounds (not_done n) d ≡ some d
  post_rounds-poll a zero d c = refl
  post_rounds-poll a (suc n) d c = rw (try_post_op-poll a d c) (post_rounds-poll a n d c)

  -- The operation at `slot` has gone from the training process's queue to the backend's.
  pub record HandedOver (slot : ℕ) (d d' : Daemon q.Queue) : Type 0 where
    pub taken : requests q d'.py_qp ≡ tail (requests q d.py_qp)
    pub given : requests q d'.shm_qp ≡ requests q d.shm_qp ++ slot ∷ []
    pub calls : d'.calls ≡ d.calls
    pub heap : d'.heap ≡ d.heap

  hand_over_lem :
      (a : ℕ) (d : Daemon q.Queue)
      → front_req q d.py_qp ≡ some a
      → d.shm_qp.num_in_queue < queue_size
      → length (requests q d.shm_qp) < queue_size
      → (d' : Daemon q.Queue) × (hand_over q a d ≡ some (true, d')) × HandedOver (d.heap a).op d d'
  unfolding hand_over
  hand_over_lem a d front room space =
      let (xs, h) =
        head?-some a (requests q d.py_qp) (sym (front_req-requests q d.py_qp) ∙ front) in
      let (py, popped, p0, _, _) = pop_req-requests q a xs d.py_qp h in
      let (shm, pushed, (s0, _, _)) = push_req-Pushed q (d.heap a).op d.shm_qp room space in
      (
        record d { py_qp = py; shm_qp = shm },
        rw (hand_over, popped, pushed) refl,
        record { taken = p0 ∙ ap tail (sym h); given = s0; calls = refl; heap = refl },
      )

  -- An operation whose data this rank sends, at the front of the queue with its copy not yet
  -- started, when the backend has room, and `n` times the copy turns out not to be done: its copy is
  -- started exactly once, by the calls of `start_post`; until then and for the `n` rounds both queue
  -- pairs stay as they are, and the next round takes the operation off its queue and hands it to the
  -- backend, ready for the copy back.
  pub copied_once_then_posted :
      (a n : ℕ) (any : Bool) (d : Daemon q.Queue)
      → front_req q d.py_qp ≡ some a
      → need_tx (d.ops (d.heap a).op) ≡ true
      → (d.heap a).copying ≡ false
      → d.shm_qp.num_in_queue < queue_size
      → length (requests q d.shm_qp) < queue_size
      → (waiting : Daemon q.Queue) × (d' : Daemon q.Queue) × (post_rounds (any ∷ not_done n) d
          ≡ some waiting)
        × (waiting.py_qp ≡ d.py_qp)
        × (waiting.shm_qp ≡ d.shm_qp)
        × (try_post_op q true waiting ≡ some (true, d'))
        × (d'.calls ≡ d.calls ++ start_post (d.heap a) (d.ops (d.heap a).op))
        × (requests q d'.py_qp ≡ tail (requests q d.py_qp))
        × (requests q d'.shm_qp ≡ requests q d.shm_qp ++ (d.heap a).op ∷ [])
        × ((d'.heap a).copying ≡ false)
  unfolding set_copying
  copied_once_then_posted a n any d front tx idle room space =
      let c = started-Copying a d front tx in
      let s = started a d in
      let slot : ((set_copying a false s).heap a).op ≡ (d.heap a).op =
        ap (λ (x : OpWithFut). x.op)
          (set_copying_self a false s
            ∙ ap (λ (x : OpWithFut). record x { copying = false }) (set_copying_self a true d)) in
      let (d', handed, h) = hand_over_lem a (set_copying a false s) front room space in
      (
        s,
        d',
        rw (try_post_op-start a any d front tx idle) (post_rounds-poll a n s c),
        refl,
        refl,
        try_post_op-done a s c ∙ handed,
        h.calls,
        h.taken,
        h.given ∙ ap (λ i. requests q d.shm_qp ++ i ∷ []) slot,
        ap (λ (m : ℕ → OpWithFut). (m a).copying) h.heap
            ∙ ap (λ (x : OpWithFut). x.copying) (set_copying_self a false s),
      )

-- ===== src/Daemon/Completion.antt =====
-- How the daemon brings an answered operation back to the training process:
-- server/frontend/src/c/daemon.cpp, `try_complete_op`.
use clean_slate_inc.Prelude.{
  ℕ, zero, suc, ◌≡◌, ◌<◌, ◌≤◌, refl, Bool, true, false, Option, some, List, [], ◌∷◌, ◌++◌,
  if◌then◌else◌, ◌>>=◌, length, tail, ◌∙◌, ap, sym,
}
use clean_slate_inc.Op.{need_rx}
use clean_slate_inc.QueuePair.{queue_size, Spsc, front_resp}
use clean_slate_inc.QueuePair.Steps.{
  responses, front_resp-responses, push_resp-responses, pop_resp-responses,
}
use clean_slate_inc.QueuePair.History.{head?-some}
use clean_slate_inc.Frontend.{OpWithFut}
use clean_slate_inc.Daemon.{Daemon, set_copying, start_complete, hand_back, try_complete_op}
use clean_slate_inc.Daemon.Protocol.{not_done, set_copying_self}

module _ (q : Spsc ℕ) where
  -- Rounds of `try_complete_op`, with the answers that `cudaEventQuery` has ready for them.
  abbrev pub complete_rounds : List Bool → Daemon q.Queue → Option (Daemon q.Queue)
  complete_rounds [] d = some d
  complete_rounds (done ∷ rest) d =
      try_complete_op q done d >>= λ (r : Bool × Daemon q.Queue). complete_rounds rest r.1

  -- The daemon after it has started the copy back of the operation at `slot`.
  abbrev started_back : ℕ → Daemon q.Queue → Daemon q.Queue
  started_back slot d = record (set_copying (d.ops slot).op_with_fut true d) {
    calls = d.calls ++ start_complete (d.heap (d.ops slot).op_with_fut) (d.ops slot);
  }

  -- The operation at the front is being copied back.
  abbrev CopyingBack : ℕ → Daemon q.Queue → Type 0
  CopyingBack slot d =
      (front_resp q d.shm_qp ≡ some slot)
      × (need_rx (d.ops slot) ≡ true)
      × ((d.heap (d.ops slot).op_with_fut).copying ≡ true)

  try_complete_op-start :
      (slot : ℕ) (done : Bool) (d : Daemon q.Queue)
      → front_resp q d.shm_qp ≡ some slot
      → need_rx (d.ops slot) ≡ true
      → (d.heap (d.ops slot).op_with_fut).copying ≡ false
      → try_complete_op q done d ≡ some (true, started_back slot d)
  unfolding try_complete_op
  try_complete_op-start slot done d front rx idle = rw (try_complete_op, front, rx, idle) refl

  try_complete_op-poll :
      (slot : ℕ) (d : Daemon q.Queue)
      → CopyingBack slot d
      → try_complete_op q false d ≡ some (false, d)
  unfolding try_complete_op
  try_complete_op-poll slot d c = rw (try_complete_op, c.0, c.1, c.2) refl

  try_complete_op-done :
      (slot : ℕ) (d : Daemon q.Queue)
      → CopyingBack slot d
      → try_complete_op q true d
        ≡ hand_back q (d.ops slot).op_with_fut (set_copying (d.ops slot).op_with_fut false d)
  unfolding try_complete_op
  try_complete_op-done slot d c = rw (try_complete_op, c.0, c.1, c.2) refl

  complete_rounds-poll :
      (slot n : ℕ) (d : Daemon q.Queue)
      → CopyingBack slot d
      → complete_rounds (not_done n) d ≡ some d
  complete_rounds-poll slot zero d c = refl
  complete_rounds-poll slot (suc n) d c =
      rw (try_complete_op-poll slot d c) (complete_rounds-poll slot n d c)

  -- The operation at `a` has gone back to the training process, and its future is completed if it has
  -- one.
  pub record HandedBack (a : ℕ) (d d' : Daemon q.Queue) : Type 0 where
    pub taken : responses q d'.shm_qp ≡ tail (responses q d.shm_qp)
    pub given : responses q d'.py_qp ≡ responses q d.py_qp ++ a ∷ []
    pub calls : d'.calls ≡ d.calls
    pub completed :
        d'.completed ≡ (if (d.heap a).has_future then d.completed ++ a ∷ [] else d.completed)

  hand_back_lem :
      (a slot : ℕ) (d : Daemon q.Queue)
      → front_resp q d.shm_qp ≡ some slot
      → 0 < d.shm_qp.num_in_queue
      → d.shm_qp.num_in_queue ≤ queue_size
      → length (responses q d.py_qp) < queue_size
      → (d' : Daemon q.Queue) × (hand_back q a d ≡ some (true, d')) × HandedBack a d d'
  unfolding hand_back
  hand_back_lem a slot d front pos bound space =
      let (xs, h) =
        head?-some slot (responses q d.shm_qp) (sym (front_resp-responses q d.shm_qp) ∙ front) in
      let (shm, popped, p0, _, _) = pop_resp-responses q slot xs d.shm_qp h pos bound in
      let (py, pushed, s0, _, _) = push_resp-responses q a d.py_qp space in
      (
        record d {
          py_qp = py;
          shm_qp = shm;
          completed = if (d.heap a).has_future then d.completed ++ a ∷ [] else d.completed;
        },
        rw (hand_back, popped, pushed) refl,
        record { taken = p0 ∙ ap tail (sym h); given = s0; calls = refl; completed = refl },
      )

  -- The answer to an operation whose data this rank receives, at the front of the backend's responses
  -- with its copy not yet started, when `py_qp` has room for it, and `n` times the copy turns out
  -- not to be done: its copy is started exactly once, by the calls of `start_complete`; until then and
  -- for the `n` rounds both queue pairs stay as they are and no future is completed, and the next
  -- round takes the answer off its queue, completes the future if there is one, and hands the
  -- operation back.
  pub copied_once_then_completed :
      (slot n : ℕ) (any : Bool) (d : Daemon q.Queue)
      → front_resp q d.shm_qp ≡ some slot
      → need_rx (d.ops slot) ≡ true
      → (d.heap (d.ops slot).op_with_fut).copying ≡ false
      → 0 < d.shm_qp.num_in_queue
      → d.shm_qp.num_in_queue ≤ queue_size
      → length (responses q d.py_qp) < queue_size
      → let a = (d.ops slot).op_with_fut in
        (waiting : Daemon q.Queue) × (d' : Daemon q.Queue) × (complete_rounds (any ∷ not_done n) d
          ≡ some waiting)
        × (waiting.py_qp ≡ d.py_qp)
        × (waiting.shm_qp ≡ d.shm_qp)
        × (waiting.completed ≡ d.completed)
        × (try_complete_op q true waiting ≡ some (true, d'))
        × (d'.calls ≡ d.calls ++ start_complete (d.heap a) (d.ops slot))
        × (responses q d'.shm_qp ≡ tail (responses q d.shm_qp))
        × (responses q d'.py_qp ≡ responses q d.py_qp ++ a ∷ [])
        × (d'.completed ≡ (if (d.heap a).has_future then d.completed ++ a ∷ [] else d.completed))
  unfolding set_copying
  copied_once_then_completed slot n any d front rx idle pos bound space =
      let a = (d.ops slot).op_with_fut in
      let s = started_back slot d in
      let c : CopyingBack slot s =
        (front, rx, ap (λ (x : OpWithFut). x.copying) (set_copying_self q a true d)) in
      let future : ((set_copying a false s).heap a).has_future ≡ (d.heap a).has_future =
        ap (λ (x : OpWithFut). x.has_future)
          (set_copying_self q a false s
            ∙ ap (λ (x : OpWithFut). record x { copying = false }) (set_copying_self q a true d)) in
      let (d', handed, h) = hand_back_lem a slot (set_copying a false s) front pos bound space in
      (
        s,
        d',
        rw (try_complete_op-start slot any d front rx idle) (complete_rounds-poll slot n s c),
        refl,
        refl,
        refl,
        try_complete_op-done slot s c ∙ handed,
        h.calls,
        h.taken,
        h.given,
        h.completed ∙ ap (λ b. if b then d.completed ++ a ∷ [] else d.completed) future,
      )

-- ===== src/Daemon/Run.antt =====
-- The runs of the daemon with the training process on one side and the backend on the other, in any
-- interleaving: server/frontend/src/c/daemon.cpp.
use clean_slate_inc.Prelude.{
  ℕ, ◌≡◌, ◌≢◌, Bool, true, some, List, [], ◌∷◌, ◌++◌, All, ◌==◌, if◌then◌else◌,
}
use clean_slate_inc.Op.{Op}
use clean_slate_inc.QueuePair.{
  Spsc, QueuePair, fresh, push_req, front_req, pop_req, push_resp, front_resp, pop_resp,
}
use clean_slate_inc.Frontend.{OpWithFut}
use clean_slate_inc.Daemon.{Daemon, try_post_op, try_complete_op}
use clean_slate_inc.Daemon.Sound.{slot_of}

module _ (q : Spsc ℕ) where
  -- What the training process writes for a new operation at `a`, whose element is `slot`.
  abbrev pub with_op : ℕ → ℕ → OpWithFut → Op → Daemon q.Queue → Daemon q.Queue
  with_op a slot x op d = record d {
    heap = λ b. if b == a then x else d.heap b;
    ops = λ s. if s == slot then op else d.ops s;
  }

  -- The indices are the operations posted and not collected, and the elements that the backend has
  -- taken and not answered.
  pub data Run : Daemon q.Queue → List ℕ → List ℕ → Type 0 where
    start : {d : Daemon q.Queue} → d.py_qp ≡ fresh q → d.shm_qp ≡ fresh q → Run d [] []
    -- the training process posts an operation at an address and in an element that no other has
    posts :
        {d : Daemon q.Queue} {out inflight : List ℕ} {py : QueuePair q.Queue} (a slot : ℕ)
        (x : OpWithFut) (op : Op)
        → Run d out inflight
        → x.op ≡ slot
        → op.op_with_fut ≡ a
        → All (λ b. (b ≢ a) × (slot_of q d b ≢ slot)) out
        → push_req q a d.py_qp ≡ some (true, py)
        → Run (record (with_op a slot x op d) { py_qp = py }) (out ++ a ∷ []) inflight
    -- the training process collects an answer
    collects :
        {d : Daemon q.Queue} {out inflight : List ℕ} {py : QueuePair q.Queue} (a : ℕ)
        → Run d (a ∷ out) inflight
        → front_resp q d.py_qp ≡ some a
        → pop_resp q d.py_qp ≡ some py
        → Run (record d { py_qp = py }) out inflight
    -- the backend takes an element
    takes :
        {d : Daemon q.Queue} {out inflight : List ℕ} {shm : QueuePair q.Queue} (slot : ℕ)
        → Run d out inflight
        → front_req q d.shm_qp ≡ some slot
        → pop_req q d.shm_qp ≡ some shm
        → Run (record d { shm_qp = shm }) out (inflight ++ slot ∷ [])
    -- the backend answers
    answers :
        {d : Daemon q.Queue} {out inflight : List ℕ} {shm : QueuePair q.Queue} (slot : ℕ)
        → Run d out (slot ∷ inflight)
        → push_resp q slot d.shm_qp ≡ some (true, shm)
        → Run (record d { shm_qp = shm }) out inflight
    -- the daemon, whatever `cudaEventQuery` says
    posting :
        {d d' : Daemon q.Queue} {out inflight : List ℕ} {b : Bool} (done : Bool)
        → Run d out inflight
        → try_post_op q done d ≡ some (b, d')
        → Run d' out inflight
    completing :
        {d d' : Daemon q.Queue} {out inflight : List ℕ} {b : Bool} (done : Bool)
        → Run d out inflight
        → try_complete_op q done d ≡ some (b, d')
        → Run d' out inflight

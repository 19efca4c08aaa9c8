-- ===== src/Daemon.antt =====
-- The daemon of the frontend, which moves operations between the training process and the backend and
-- starts their copies: server/frontend/src/c/daemon.cpp. The calls of CUDA that it makes are logged in
-- `calls`, oldest first; what `cudaEventQuery` returns is an argument. An `op_with_fut_t *` and an
-- `op_t *` are addresses, of `heap` and of `ops`. A future is completed by a thread of its own, which
-- `completed` stands for.
pub mod Protocol
pub mod Completion
pub mod Sound
pub mod Hand
pub mod Moves
pub mod Run
pub mod Training
pub mod System
pub mod Tests
use clean_slate_inc.Prelude.{
  ℕ, ◌≡◌, Bool, true, false, not, ◌&&◌, ◌||◌, Option, none, some, List, [], ◌∷◌, ◌++◌, ◌==◌,
  if◌then◌else◌, ◌>>=◌, ◌>>◌, assert, ltb,
}
use clean_slate_inc.Op.{Op, need_tx, need_rx}
use clean_slate_inc.QueuePair.{
  Spsc, QueuePair, push_req, front_req, pop_req, push_resp, front_resp, pop_resp,
}
use clean_slate_inc.Frontend.{OpWithFut}

abbrev pub h2d_stream : ℕ
h2d_stream = 0

abbrev pub d2h_stream : ℕ
d2h_stream = 1

-- `cudaEventRecord`, `cudaStreamWaitEvent` and the two kinds of `cudaMemcpyAsync` in use, each with its
-- destination, source and size.
pub data Call : Type 0 where
  event_record : (event stream : ℕ) → Call
  stream_wait : (stream event : ℕ) → Call
  copy_to_device : (dst src size stream : ℕ) → Call
  copy_to_host : (dst src size stream : ℕ) → Call

pub record Daemon (Q : Type 0) : Type 0 where
  pub heap : ℕ → OpWithFut
  pub ops : ℕ → Op
  pub py_qp : QueuePair Q
  pub shm_qp : QueuePair Q
  pub calls : List Call
  pub completed : List ℕ

module _ {Q : Type 0} where
  unfoldable pub set_copying : ℕ → Bool → Daemon Q → Daemon Q
  set_copying address copying d = record d {
    heap = λ i. if i == address then record (d.heap address) { copying = copying } else d.heap i;
  }

-- The calls that start the copy of an operation to the host.
unfoldable pub start_post : OpWithFut → Op → List Call
start_post x op =
    (if x.is_first then event_record x.event x.stream ∷ stream_wait d2h_stream x.event ∷ [] else [])
    ++ (if ltb 0 op.size
        then copy_to_host op.shm_buffer x.data_addr op.size d2h_stream
          ∷ event_record x.event d2h_stream
          ∷ []
        else [])
    ++ (if x.is_last && not (need_rx op) then stream_wait x.stream x.event ∷ [] else [])

-- The calls that start the copy of an operation to the device.
unfoldable pub start_complete : OpWithFut → Op → List Call
start_complete x op =
    (if x.is_first && not (need_tx op)
      then event_record x.event x.stream ∷ stream_wait h2d_stream x.event ∷ []
      else [])
    ++ (if ltb 0 op.size
        then copy_to_device x.data_addr op.shm_buffer op.size h2d_stream
          ∷ event_record x.event h2d_stream
          ∷ []
        else [])
    ++ (if x.is_last then stream_wait x.stream x.event ∷ [] else [])

module _ (q : Spsc ℕ) where
  -- The end of `try_post_op`.
  unfoldable pub hand_over : ℕ → Daemon q.Queue → Option (Bool × Daemon q.Queue)
  hand_over address d = do
    py_qp ← pop_req q d.py_qp
    (ret, shm_qp) ← push_req q (d.heap address).op d.shm_qp
    assert ret
    some (true, record d { py_qp = py_qp; shm_qp = shm_qp })

  -- `try_post_op`; `done` is the answer of `cudaEventQuery`, if it is asked.
  unfoldable pub try_post_op : Bool → Daemon q.Queue → Option (Bool × Daemon q.Queue)
  try_post_op done d = elim (front_req q d.py_qp) [
    | none ↦ some (false, d)
    | some address ↦
        let x = d.heap address in
        let op = d.ops x.op in
        if not (need_tx op)
        then hand_over address d
        else if not x.copying
        then some (true, record (set_copying address true d) { calls = d.calls ++ start_post x op })
        else if done
        then hand_over address (set_copying address false d)
        else some (false, d)
  ]

  -- The end of `try_complete_op`.
  unfoldable pub hand_back : ℕ → Daemon q.Queue → Option (Bool × Daemon q.Queue)
  hand_back address d = do
    let completed = if (d.heap address).has_future then d.completed ++ address ∷ [] else d.completed
    shm_qp ← pop_resp q d.shm_qp
    (ret, py_qp) ← push_resp q address d.py_qp
    assert ret
    some (true, record d { py_qp = py_qp; shm_qp = shm_qp; completed = completed })

  unfoldable pub try_complete_op : Bool → Daemon q.Queue → Option (Bool × Daemon q.Queue)
  try_complete_op done d = elim (front_resp q d.shm_qp) [
    | none ↦ some (false, d)
    | some op_address ↦
        let op = d.ops op_address in
        let address = op.op_with_fut in
        let x = d.heap address in
        if not (need_rx op)
        then hand_back address d
        else if not x.copying
        then some
            (true, record (set_copying address true d) { calls = d.calls ++ start_complete x op })
        else if done
        then hand_back address (set_copying address false d)
        else some (false, d)
  ]

  -- A round of `daemon_loop`: both are always tried.
  unfoldable pub daemon_round : Bool → Bool → Daemon q.Queue → Option (Bool × Daemon q.Queue)
  daemon_round back_done out_done d = do
    (completed, d') ← try_complete_op back_done d
    (posted, d'') ← try_post_op out_done d'
    some (completed || posted, d'')

-- The test loop of NETCCL_FRONTEND_LOOPBACK: one round.
unfoldable pub answer_round : (q : Spsc ℕ) → QueuePair q.Queue → Option (QueuePair q.Queue)
answer_round q qp = elim (front_req q qp) [
  | none ↦ some qp
  | some op ↦ do qp' ← pop_req q qp; (_, qp'') ← push_resp q op qp'; some qp''
]

-- ===== src/Frontend/Live.antt =====
-- The frontend with any daemon that answers its operations in order: no assertion fails, and live
-- operations share neither memory nor their element of the operation buffer:
-- server/frontend/src/c/api.cpp.
use clean_slate_inc.Prelude.{
  ℕ, ◌+◌, ◌%◌, ◌≡◌, ◌≢◌, ◌<◌, ◌≤◌, refl, true, false, some, List, [], ◌∷◌, ◌++◌, ◌==◌,
  if◌then◌else◌, length, arith, add32, inl, inr, Option-cases,
}
use clean_slate_inc.Op.{Op}
use clean_slate_inc.QueuePair
use clean_slate_inc.QueuePair.{
  queue_size, Spsc, QueuePair, push_req, front_req, pop_req, push_resp, front_resp, pop_resp,
}
use clean_slate_inc.QueuePair.Steps.{requests, responses}
use clean_slate_inc.QueuePair.History.{Inv, Reach-Inv}
use clean_slate_inc.CopyBuffer
use clean_slate_inc.CopyBuffer.{CopyBuffer, shm_copy_buffer_size}
use clean_slate_inc.CopyBuffer.Live.{Chunk}
use clean_slate_inc.CopyBuffer.Steps.{allocate_fits, fifo_free_never_aborts}
use clean_slate_inc.Frontend.{
  OpBuffer, OpWithFut, Request, Frontend, allocate_op, free_ops, create_op, is_room, recv_resp,
  post_reserved,
}
use clean_slate_inc.Frontend.Slots.{Slots, write}

-- What `create_op` writes to the operation buffer, and what it returns.
abbrev pub written : ℕ → Request → ℕ → Op
written address r start = record {
  op_code = r.op_code;
  root = r.root;
  size = r.size;
  shm_buffer = start;
  group = r.group;
  op_with_fut = address;
}

abbrev pub created : ℕ → Request → ℕ → OpWithFut
created event r slot = record {
  copying = false;
  data_addr = r.data_addr;
  stream = r.stream;
  is_first = r.is_first;
  is_last = r.is_last;
  event = event;
  has_future = r.generate_future;
  op = slot;
}

abbrev pub head_after : ℕ → ℕ
head_after head = if add32 head 1 == queue_size then 0 else add32 head 1

allocate_op_lem :
    (b : OpBuffer)
    → b.cnt < queue_size
    → allocate_op b ≡ (some b.head, record b { cnt = add32 b.cnt 1; head = head_after b.head })
unfolding allocate_op
allocate_op_lem b lt = ground arith

module _ {Q : Type 0} where
  abbrev pub after_create : Op → CopyBuffer → Frontend Q → Frontend Q
  after_create op copy_buffer f = record {
    op_buffer = record {
      head = head_after f.op_buffer.head;
      cnt = add32 f.op_buffer.cnt 1;
      buffer = write f.op_buffer.buffer f.op_buffer.head op;
    };
    copy_buffer = copy_buffer;
    py_qp = f.py_qp;
  }

  pub room_op :
      (f : Frontend Q) (size : ℕ)
      → f.op_buffer.cnt ≤ queue_size
      → is_room size f ≡ true
      → (f.op_buffer.cnt < queue_size) × (size ≤ CopyBuffer.available f.copy_buffer)
  unfolding is_room free_ops
  room_op f size le e = ground arith

  create_op-place :
      (event address : ℕ) (r : Request) (f : Frontend Q) (start : ℕ)
      → f.op_buffer.cnt < queue_size
      → (CopyBuffer.fifo_allocate r.size f.copy_buffer).0 ≡ some start
      → create_op event address r f
        ≡ some (
          created event r f.op_buffer.head,
          after_create
              (written address r start)
              (CopyBuffer.fifo_allocate r.size f.copy_buffer).1
              f,
        )
  unfolding create_op
  create_op-place event address r f start lt e =
      rw (create_op, allocate_op_lem f.op_buffer lt, e) refl

  pub create_op_lem :
      (event address : ℕ) (r : Request) (f : Frontend Q)
      → f.op_buffer.cnt ≤ queue_size
      → is_room r.size f ≡ true
      → (start : ℕ) × ((CopyBuffer.fifo_allocate r.size f.copy_buffer).0 ≡ some start)
        × (create_op event address r f
            ≡ some (
              created event r f.op_buffer.head,
              after_create
                  (written address r start)
                  (CopyBuffer.fifo_allocate r.size f.copy_buffer).1
                  f,
            ))
  create_op_lem event address r f le room =
      let (lt, fits) = room_op f r.size le room in
      elim (Option-cases (CopyBuffer.fifo_allocate r.size f.copy_buffer).0) [
        | inl full ↦ absurd (allocate_fits f.copy_buffer r.size fits full)
        | inr (start, e) ↦ (start, e, create_op-place event address r f start lt e)
      ]

module _ (q : Spsc OpWithFut) where
  -- The operations that are out: answered and not yet collected, with the daemon, and waiting for it.
  abbrev pub out : Frontend q.Queue → List OpWithFut → List OpWithFut
  out f taken = responses q f.py_qp ++ (taken ++ requests q f.py_qp)

  -- The calls of the frontend and of a daemon in any order. The second index has the operations that
  -- the daemon has taken and not yet answered; the daemon answers in the order in which it took. No
  -- chunk ends on the last byte of the copy buffer.
  pub data Reach : Frontend q.Queue → List OpWithFut → Type 0 where
    init :
        {buffer : ℕ → Op}
        → Reach
            (record {
              op_buffer = record { head = 0; cnt = 0; buffer = buffer };
              copy_buffer = CopyBuffer.empty;
              py_qp = QueuePair.fresh q;
            })
            []
    post :
        {f f' : Frontend q.Queue} {taken : List OpWithFut} (event address : ℕ) (r : Request)
        (x : OpWithFut)
        → Reach f taken
        → is_room r.size f ≡ true
        → post_reserved q event address r f ≡ some (x, f')
        → (f'.op_buffer.buffer x.op).shm_buffer + r.size ≢ shm_copy_buffer_size + 1
        → Reach f' taken
    take :
        {f : Frontend q.Queue} {taken : List OpWithFut} {qp : QueuePair q.Queue} (x : OpWithFut)
        → Reach f taken
        → front_req q f.py_qp ≡ some x
        → pop_req q f.py_qp ≡ some qp
        → Reach (record f { py_qp = qp }) (taken ++ x ∷ [])
    answer :
        {f : Frontend q.Queue} {taken : List OpWithFut} {qp : QueuePair q.Queue} (x : OpWithFut)
        → Reach f (x ∷ taken)
        → push_resp q x f.py_qp ≡ some (true, qp)
        → Reach (record f { py_qp = qp }) taken
    receive :
        {f f' : Frontend q.Queue} {taken : List OpWithFut}
        → Reach f taken
        → recv_resp q f ≡ some (true, f')
        → Reach f' taken

  -- The oldest operation is in the element `oldest`, and the chunks `cs` belong to those that are out.
  pub record Good (f : Frontend q.Queue) (taken : List OpWithFut) : Type 0 where
    pub made : List OpWithFut
    pub got : List OpWithFut
    pub queues : QueuePair.History.Reach q f.py_qp made taken got
    pub chunks : List Chunk
    pub copies : CopyBuffer.Steps.Reach f.copy_buffer chunks
    pub oldest : ℕ
    pub oldest_in : oldest < queue_size
    pub slots : Slots f.op_buffer.buffer oldest (out f taken) chunks
    pub cnt : f.op_buffer.cnt ≡ f.py_qp.num_in_queue
    pub head : f.op_buffer.head ≡ (oldest + length (out f taken)) % queue_size

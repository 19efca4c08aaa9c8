-- ===== src/Frontend.antt =====
-- The part of the frontend that the training process calls: server/frontend/src/c/api.cpp from
-- `create_op` to `post_collective_c`, with `op_buffer_t` and `op_with_fut_t` of
-- server/frontend/src/c/common.hpp. CUDA events and streams are numbers, and a future is only known to
-- be there or not. An `op_with_fut_t *` is the structure; what the daemon alone changes in it,
-- `copying`, is as `create_op` leaves it.
pub mod Slots
pub mod Live
pub mod Safety
pub mod System
pub mod Posting
pub mod Receive
pub mod Segments
pub mod Collective
mod Tests
use clean_slate_inc.Prelude.{
  ℕ, zero, suc, ◌+◌, ◌≡◌, Bool, true, false, ◌&&◌, Option, none, some, List, [], ◌∷◌, ◌==◌,
  if◌then◌else◌, ◌>>=◌, ◌>>◌, assert, beq, ltb, leb, add32, add64, sub32, sub64,
}
use clean_slate_inc.Op.{Op, Group}
use clean_slate_inc.QueuePair.{queue_size, Spsc, QueuePair, fresh, push_req, front_resp, pop_resp}
use clean_slate_inc.CopyBuffer
use clean_slate_inc.CopyBuffer.{CopyBuffer}

-- `struct op_buffer_t`; an `op_t *` into it is an index.
pub record OpBuffer : Type 0 where
  pub head : ℕ
  pub cnt : ℕ
  pub buffer : ℕ → Op

unfoldable pub free_ops : OpBuffer → ℕ
free_ops b = sub32 queue_size b.cnt

unfoldable pub allocate_op : OpBuffer → Option ℕ × OpBuffer
allocate_op b =
    if b.cnt == queue_size
    then (none, b)
    else let head = add32 b.head 1 in
      (some b.head, record b { cnt = add32 b.cnt 1; head = if head == queue_size then 0 else head })

unfoldable pub free_op : OpBuffer → Option OpBuffer
free_op b = assert (ltb 0 b.cnt) >> some (record b { cnt = sub32 b.cnt 1 })

-- `struct op_with_fut_t`; `op` is an index into the operation buffer.
pub record OpWithFut : Type 0 where
  pub copying : Bool
  pub data_addr : ℕ
  pub stream : ℕ
  pub is_first : Bool
  pub is_last : Bool
  pub event : ℕ
  pub has_future : Bool
  pub op : ℕ

-- The arguments of `create_op`.
pub record Request : Type 0 where
  pub op_code : ℕ
  pub root : ℕ
  pub data_addr : ℕ
  pub size : ℕ
  pub group : Group
  pub stream : ℕ
  pub is_first : Bool
  pub is_last : Bool
  pub generate_future : Bool

-- `shm->op_buffer`, `shm->copy_buffer` and `py_qp`.
pub record Frontend (Q : Type 0) : Type 0 where
  pub op_buffer : OpBuffer
  pub copy_buffer : CopyBuffer
  pub py_qp : QueuePair Q

module _ {Q : Type 0} where
  -- `event` is what `cudaEventCreate` gives, and `address` what `new` gives.
  unfoldable pub create_op : ℕ → ℕ → Request → Frontend Q → Option (OpWithFut × Frontend Q)
  create_op event address r f = do
    let (found, ops) = allocate_op f.op_buffer
    slot ← found
    let (place, copy_buffer) = CopyBuffer.fifo_allocate r.size f.copy_buffer
    start ← place
    let op : Op = record {
      op_code = r.op_code;
      root = r.root;
      size = r.size;
      shm_buffer = start;
      group = r.group;
      op_with_fut = address;
    }
    some (
      record {
        copying = false;
        data_addr = r.data_addr;
        stream = r.stream;
        is_first = r.is_first;
        is_last = r.is_last;
        event = event;
        has_future = r.generate_future;
        op = slot;
      },
      record f {
        op_buffer = record ops { buffer = λ i. if i == slot then op else ops.buffer i };
        copy_buffer = copy_buffer;
      },
    )

  unfoldable pub destroy_op : OpWithFut → Frontend Q → Option (Frontend Q)
  destroy_op x f = do
    copy_buffer ← CopyBuffer.fifo_free (f.op_buffer.buffer x.op).size f.copy_buffer
    op_buffer ← free_op f.op_buffer
    some (record f { copy_buffer = copy_buffer; op_buffer = op_buffer })

  -- The condition on which `post_sub_collective` stops waiting.
  unfoldable pub is_room : ℕ → Frontend Q → Bool
  is_room size f = ltb 0 (free_ops f.op_buffer) && leb size (CopyBuffer.available f.copy_buffer)

module _ (q : Spsc OpWithFut) where
  -- One round of the loop of `recv_all_resp`: false if there was no response.
  unfoldable pub recv_resp : Frontend q.Queue → Option (Bool × Frontend q.Queue)
  recv_resp f = elim (front_resp q f.py_qp) [
    | none ↦ some (false, f)
    | some x ↦ do
      f' ← destroy_op x f
      py_qp ← pop_resp q f'.py_qp
      some (true, record f' { py_qp = py_qp })
  ]

  -- `recv_all_resp`, for at most `fuel` rounds.
  unfoldable pub recv_all_resp : ℕ → Frontend q.Queue → Option (Frontend q.Queue)
  recv_all_resp zero f = some f
  recv_all_resp (suc fuel) f = do
    (more, f') ← recv_resp f
    let rest = recv_all_resp fuel f'
    if more then rest else some f'

  -- `post_sub_collective` after its wait, with the operation that it posts.
  unfoldable pub post_reserved :
      ℕ → ℕ → Request → Frontend q.Queue → Option (OpWithFut × Frontend q.Queue)
  post_reserved event address r f = do
    (x, f') ← create_op event address r f
    (ret, py_qp) ← push_req q x f'.py_qp
    assert ret
    some (x, record f' { py_qp = py_qp })

  -- One round of `post_sub_collective`: no operation if it has to wait.
  unfoldable pub post_round :
      ℕ → ℕ → Request → Frontend q.Queue → Option (Option OpWithFut × Frontend q.Queue)
  post_round event address r f = recv_all_resp (queue_size + 1) f >>= λ (f' : Frontend q.Queue).
      if is_room r.size f'
      then (post_reserved event address r f' >>= λ (z : OpWithFut × Frontend q.Queue).
          some (some z.0, z.1))
      else some (none, f')

abbrev pub frontend_segment_size : ℕ
frontend_segment_size = 2097152

-- What `post_collective_c` passes to `post_sub_collective` for a segment.
pub record Segment : Type 0 where
  pub offset : ℕ
  pub size : ℕ
  pub is_first : Bool
  pub is_last : Bool
  pub generate_future : Bool

-- The body of the loop, on the whole size of the tensor.
unfoldable pub segment_at : ℕ → Bool → ℕ → Segment
segment_at size async_op offset =
    let last = leb (sub64 size offset) frontend_segment_size in
    record {
      offset = offset;
      size = if last then sub64 size offset else frontend_segment_size;
      is_first = offset == 0;
      is_last = last;
      generate_future = if last then async_op else false;
    }

-- The loop of `post_collective_c` from `offset` on, for at most `fuel` segments: `none` if it would go
-- on.
unfoldable pub segments : ℕ → ℕ → Bool → ℕ → Option (List Segment)
segments zero size async_op offset = none
segments (suc fuel) size async_op offset =
    let next = add64 offset frontend_segment_size in
    let rest = segments fuel size async_op next in
    if ltb next size
    then (do segs ← rest; some (segment_at size async_op offset ∷ segs))
    else some (segment_at size async_op offset ∷ [])

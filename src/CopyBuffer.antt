-- ===== src/CopyBuffer.antt =====
-- The staging buffer of the frontend, `struct copy_buffer_t`: server/frontend/src/c/common.hpp.
-- A ring of `shm_copy_buffer_size + 1` bytes that hands out contiguous chunks and takes them back
-- in the order of allocation. An allocation is an offset into `buffer`; `none` in the place of an
-- offset is the null pointer, and `none` around a state is a failed `assert`.
pub mod Live
pub mod Steps
pub mod Exact
mod Tests
use clean_slate_inc.Prelude.{
  ℕ, ◌+◌, ◌*◌, Option, none, some, ◌>>=◌, ◌>>◌, assert, ltb, leb, beq, max, ◌==◌, if◌then◌else◌,
  add32, sub32,
}

abbrev pub shm_copy_buffer_size : ℕ
shm_copy_buffer_size = 8 * 1024 * 1024

pub record CopyBuffer : Type 0 where
  pub head : ℕ
  pub tail : ℕ

-- the constructor
unfoldable pub empty : CopyBuffer
empty = record { head = 0; tail = 0 }

-- `uint32_t` differences, with their wrap-around
unfoldable pub available : CopyBuffer → ℕ
available b =
    if b.tail == 0
    then sub32 shm_copy_buffer_size b.head
    else if leb b.tail b.head
    then max (sub32 (shm_copy_buffer_size + 1) b.head) (sub32 b.tail 1)
    else sub32 (sub32 b.tail 1) b.head

unfoldable pub fifo_allocate : ℕ → CopyBuffer → Option ℕ × CopyBuffer
unfolding available
fifo_allocate size b =
    if ltb (available b) size
    then (none, b)
    else let head = add32 b.head size in
      if head == shm_copy_buffer_size + 1
      then (some b.head, record b { head = 0 })
      else if ltb (shm_copy_buffer_size + 1) head
      then (some 0, record b { head = size })
      else (some b.head, record b { head = head })

unfoldable pub fifo_free : ℕ → CopyBuffer → Option CopyBuffer
fifo_free size b = do
  assert (leb size shm_copy_buffer_size)
  b' ←
      if ltb shm_copy_buffer_size (add32 b.tail size)
      then assert (ltb b.head b.tail) >> some (record b { tail = 0 })
      else some b
  assert (beq (leb b'.tail b'.head) (leb (add32 b'.tail size) b'.head))
  some (record b' { tail = add32 b'.tail size })

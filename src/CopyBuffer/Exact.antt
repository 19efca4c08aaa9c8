-- ===== src/CopyBuffer/Exact.antt =====
-- The case that the offsets cannot tell apart: a chunk that ends on the last byte of `buffer`.
-- `fifo_allocate` then sets `head` to 0, but `fifo_free` moves `tail` to the chunk's size.
-- server/frontend/src/c/common.hpp, `copy_buffer_t`.
use clean_slate_inc.Prelude.{ℕ, ◌+◌, ◌-◌, ◌≤◌, ◌<◌, ◌≡◌, none, some, arith, ltb, if◌then◌else◌}
use clean_slate_inc.CopyBuffer.{CopyBuffer, shm_copy_buffer_size, fifo_allocate, fifo_free}

abbrev standing_at : ℕ → CopyBuffer
standing_at h = record { head = h; tail = h }

-- Wherever an empty buffer stands but at 0, the chunk that reaches its last byte can be allocated,
-- and then freeing it, with nothing allocated since, fails an assertion.
pub exact_fit_aborts :
    (h : ℕ)
    → 0 < h
    → h ≤ shm_copy_buffer_size
    → let size = shm_copy_buffer_size + 1 - h in
      let after = (fifo_allocate size (standing_at h)).1 in
      (fifo_allocate size (standing_at h) ≡ (some h, record { head = 0; tail = h }))
      × (fifo_free size after ≡ none)
unfolding fifo_allocate fifo_free
exact_fit_aborts h pos le = ground arith

-- Freeing such a chunk aborts if fewer than its bytes are allocated at the front, and otherwise
-- takes as many bytes of the front for free: the tail is its size, not 0.
pub exact_fit_free :
    (b : CopyBuffer) (size : ℕ)
    → 0 < size
    → b.head < b.tail
    → b.tail + size ≡ shm_copy_buffer_size + 1
    → fifo_free size b ≡ (if ltb b.head size then none else some (record b { tail = size }))
unfolding fifo_free
exact_fit_free b size pos lt e = ground arith

-- ===== src/QueuePair.antt =====
-- `queue_pair_t` of server/common/common.hpp: a work queue and a completion queue between one
-- requester and one responder, with a count that only the requester touches.
-- `boost::lockfree::spsc_queue` is the parameter `Spsc`: its operations, the elements that a queue
-- holds, oldest first, and its documented behaviour on them. `none` is a failed `assert`.
pub mod Steps
pub mod History
pub mod ListQueue
mod Tests
use clean_slate_inc.Prelude.{
  ℕ, ◌+◌, ◌<◌, ◌≤◌, ◌≡◌, Bool, true, false, Option, none, some, List, [], ◌∷◌, ◌++◌, ◌>>=◌, ◌>>◌,
  assert, ltb, ◌==◌, if◌then◌else◌, length, head?, tail, add64, sub64,
}

abbrev pub queue_size : ℕ
queue_size = 1024

-- `boost::lockfree::spsc_queue<T, capacity<QUEUE_SIZE>, fixed_sized<true>>`
pub record Spsc (T : Type 0) : Type 1 where
  pub Queue : Type 0
  pub empty : Queue
  pub push : T → Queue → Bool × Queue
  pub read_available : Queue → ℕ
  pub front : Queue → Option T
  pub pop : Queue → Queue
  pub items : Queue → List T
  pub items-empty : items empty ≡ []
  pub push-room :
      (x : T) (q : Queue)
      → length (items q) < queue_size
      → ((push x q).0 ≡ true) × (items (push x q).1 ≡ items q ++ x ∷ [])
  pub push-full : (x : T) (q : Queue) → queue_size ≤ length (items q) → push x q ≡ (false, q)
  pub read_available-items : (q : Queue) → read_available q ≡ length (items q)
  pub front-items : (q : Queue) → front q ≡ head? (items q)
  pub items-pop : (q : Queue) → items (pop q) ≡ tail (items q)

pub record QueuePair (Q : Type 0) : Type 0 where
  pub wq : Q
  pub cq : Q
  pub num_in_queue : ℕ

module _ {T : Type 0} (s : Spsc T) where
  open s use {Queue, empty, push, read_available, front, pop}

  -- the constructor
  unfoldable pub fresh : QueuePair Queue
  fresh = record { wq = empty; cq = empty; num_in_queue = 0 }

  unfoldable pub available : QueuePair Queue → ℕ
  available qp = sub64 queue_size qp.num_in_queue

  unfoldable pub push_req : T → QueuePair Queue → Option (Bool × QueuePair Queue)
  push_req e qp = if qp.num_in_queue == queue_size then some (false, qp) else do
    let num = add64 qp.num_in_queue 1
    let (ret, wq) = push e qp.wq
    assert ret
    some (true, record { wq = wq; cq = qp.cq; num_in_queue = num })

  -- `none` is the return value false.
  unfoldable pub front_req : QueuePair Queue → Option T
  front_req qp = if ltb 0 (read_available qp.wq) then front qp.wq else none

  unfoldable pub pop_req : QueuePair Queue → Option (QueuePair Queue)
  pop_req qp = assert (ltb 0 (read_available qp.wq)) >> some (record qp { wq = pop qp.wq })

  unfoldable pub push_resp : T → QueuePair Queue → Option (Bool × QueuePair Queue)
  push_resp e qp = do let (ret, cq) = push e qp.cq; assert ret; some (ret, record qp { cq = cq })

  unfoldable pub front_resp : QueuePair Queue → Option T
  front_resp qp = if ltb 0 (read_available qp.cq) then front qp.cq else none

  unfoldable pub pop_resp : QueuePair Queue → Option (QueuePair Queue)
  pop_resp qp = do
    assert (ltb 0 (read_available qp.cq))
    some (record qp { cq = pop qp.cq; num_in_queue = sub64 qp.num_in_queue 1 })

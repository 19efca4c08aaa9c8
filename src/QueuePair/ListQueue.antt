-- ===== src/QueuePair/ListQueue.antt =====
-- A list of bounded length behaves as `Spsc` asks of `boost::lockfree::spsc_queue`; the tests of
-- every part that uses server/common/common.hpp run on it.
use clean_slate_inc.Prelude.{
  ◌<◌, ◌≤◌, ◌≡◌, refl, Bool, true, false, List, [], ◌∷◌, ◌++◌, arith, ltb, if◌then◌else◌, length,
  head?, tail,
}
use clean_slate_inc.QueuePair.{queue_size, Spsc}

module _ (T : Type 0) where
  abbrev list_push : T → List T → Bool × List T
  list_push x q = if ltb (length q) queue_size then (true, q ++ x ∷ []) else (false, q)

  pub list_push-room :
      (x : T) (q : List T)
      → length q < queue_size
      → ((list_push x q).0 ≡ true) × ((list_push x q).1 ≡ q ++ x ∷ [])
  list_push-room x q h = ground arith

  pub list_push-full : (x : T) (q : List T) → queue_size ≤ length q → list_push x q ≡ (false, q)
  list_push-full x q h = ground arith

  abbrev pub list_queue : Spsc T
  list_queue = record {
    Queue = List T;
    empty = [];
    push = list_push;
    read_available = length;
    front = head?;
    pop = tail;
    items = λ q. q;
    items-empty = refl;
    push-room = list_push-room;
    push-full = list_push-full;
    read_available-items = λ q. refl;
    front-items = λ q. refl;
    items-pop = λ q. refl;
  }

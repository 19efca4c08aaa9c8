-- ===== src/QueuePair/Tests.antt =====
-- A queue pair over a list runs, and the theorems of `queue_pair_t` at it: server/common/common.hpp.
use clean_slate_inc.Prelude.{ℕ, ◌+◌, ◌-◌, ◌≡◌, refl, List, [], ◌∷◌}
use clean_slate_inc.QueuePair.{
  queue_size, QueuePair, fresh, available, push_req, front_req, pop_req, push_resp,
}
use clean_slate_inc.QueuePair.ListQueue.{list_queue}
use clean_slate_inc.QueuePair.History.{
  Reach, init, request, take, answer, nothing_lost_or_reordered,
}

abbrev pair : List ℕ → List ℕ → ℕ → QueuePair (List ℕ)
pair wq cq n = record { wq = wq; cq = cq; num_in_queue = n }

-- Two requests, one taken and answered, one taken.
busy : Reach (list_queue ℕ) (pair [] (7 ∷ []) 2) (7 ∷ 8 ∷ []) (8 ∷ []) []
unfolding fresh push_req front_req pop_req push_resp
busy =
    take {qp = pair (8 ∷ []) (7 ∷ []) 2} {made = 7 ∷ 8 ∷ []} {taken = []} {got = []} 8
      (answer {qp = pair (8 ∷ []) [] 2} {taken = []} 7
        (take {qp = pair (7 ∷ 8 ∷ []) [] 2} {taken = []} 7
          (request {qp = pair (7 ∷ []) [] 1} {made = 7 ∷ []} 8
            (request {qp = pair [] [] 0} {made = []} 7 init refl) refl)
          refl refl)
        refl)
      refl refl

nothing_lost_or_reordered_example :
    (◌≡◌ {A = List ℕ} (7 ∷ 8 ∷ []) (7 ∷ 8 ∷ []))
    × (available (list_queue ℕ) (pair [] (7 ∷ []) 2) + (2 - 0) ≡ queue_size)
nothing_lost_or_reordered_example = nothing_lost_or_reordered (list_queue ℕ) busy

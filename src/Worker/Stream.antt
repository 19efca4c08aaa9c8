-- ===== src/Worker/Stream.antt =====
-- The stream of packets that a worker keeps in flight: what holds between the functions of
-- server/backend/worker.cpp while all operations are of one group. The packets in the window have
-- consecutive numbers, the next packet has the next number, and the parts that the worker has taken
-- from its queue and not yet answered are those whose last packets are in the window, in this order.
pub mod Lasts
pub mod Kept
pub mod Receive
pub mod Shift
pub mod Ack
pub mod Make
pub mod Grown
pub mod Grow
pub mod Send
pub mod Ring
pub mod Timed
pub mod Run
pub mod Promises
mod Tests
use clean_slate_inc.Prelude.{
  ℕ, zero, suc, ◌+◌, ◌%◌, ◌≡◌, ◌≢◌, ◌<◌, ◌≤◌, ◌⊎◌, Bool, true, false, Option, none, some, List, [],
  ◌∷◌, ◌++◌, All, if◌then◌else◌, add32, u32_mod,
}
use clean_slate_inc.Packet.{Mbuf}
use clean_slate_inc.Congestion.{max_win_len}
use clean_slate_inc.LoadBalancer.{SubOp}
use clean_slate_inc.QueuePair.{Spsc, front_req}
use clean_slate_inc.QueuePair.History.{Reach}
use clean_slate_inc.Window.{Window, PktState, get_next_position}
use clean_slate_inc.Window.Positions.{place, IsRun, IsWindow}
use clean_slate_inc.Worker.Defs.{Worker, Progress}

-- The part of a packet that ends it.
abbrev pub ended : PktState → List SubOp
ended s = if s.is_last then elim s.sub_op [ none ↦ [] | some x ↦ x ∷ [] ] else []

-- The parts that end with one of the `n` packets from `position` on.
abbrev pub lasts : (ℕ → PktState) → ℕ → ℕ → List SubOp
lasts state position zero = []
lasts state position (suc n) =
    ended (state position) ++ lasts state ((position + 1) % max_win_len) n

-- Of the parts that have not been collected, one has no slots of the aggregator.
abbrev pub Slotless : List SubOp → List SubOp → Type 0
Slotless made got =
    (owed : List SubOp) → got ++ owed ≡ made → All (λ (s : SubOp). s.agg_len ≢ 0) owed → ⊥

-- A call fails only over such a part, and otherwise returns what the predicate says.
abbrev pub Returns : {A : Type 0} → List SubOp → List SubOp → (A → Type 0) → Option A → Type 0
Returns {A} made got P m = ((m ≡ none) × Slotless made got) ⊎ ((x : A) × (m ≡ some x) × P x)

-- The first `n` packets from `to_ack` on belong to parts.
abbrev pub HaveParts : (ℕ → PktState) → ℕ → ℕ → Type 0
HaveParts state to_ack n =
    (k : ℕ) → k < n → (s : SubOp) × ((state (place to_ack k)).sub_op ≡ some s)

module _ {L F : Type 0} (q : Spsc SubOp) (group : ℕ) where
  -- `next` is the number of the next packet.
  pub record IsNext (next : ℕ) (w : Worker q.Queue L F) : Type 0 where
    pub next_in : next < u32_mod
    pub idle : w.progress.sub_op ≡ none → w.psn_of group ≡ next
    pub busy_psn :
        (s : SubOp)
        → w.progress.sub_op ≡ some s
        → add32 w.progress.start_psn w.progress.pkt_sent ≡ next
    pub busy_left :
        (s : SubOp)
        → w.progress.sub_op ≡ some s
        → w.psn_of group ≡ add32 w.progress.start_psn w.progress.pkt_cnt
    pub busy_more :
        (s : SubOp) → w.progress.sub_op ≡ some s → w.progress.pkt_sent < w.progress.pkt_cnt
    pub busy_in : (s : SubOp) → w.progress.sub_op ≡ some s → w.progress.pkt_cnt < u32_mod
    pub busy_front : (s : SubOp) → w.progress.sub_op ≡ some s → front_req q w.qp ≡ some s

  -- The worker between its functions, with `n` packets in the window. The parts made and got are those
  -- that the load balancer has handed over and has got back.
  pub record InStream (n : ℕ) (w : Worker q.Queue L F) (made got : List SubOp) : Type 0 where
    pub window : IsWindow group w.window n
    pub parts : HaveParts w.window.state w.window.to_ack n
    pub queues : Reach q w.qp made (lasts w.window.state w.window.to_ack n) got
    pub next : ℕ
    pub follows : n ≢ 0 → next ≡ (w.window.left_psn + n) % u32_mod
    pub numbers : IsNext next w
    pub current :
        (n ≢ 0) ⊎ ((s : SubOp) × (w.progress.sub_op ≡ some s)) → w.current_group_id ≡ group

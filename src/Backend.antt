-- ===== src/Backend.antt =====
-- The backend as a whole: the load balancer of server/backend/load_balancer.cpp, the workers of
-- server/backend/worker.cpp that server/backend/main.cpp starts beside it, and the memory and the queue
-- pair that they share with the frontend. A call of a thread's function is one step: two threads share
-- the memory, and otherwise only queue pairs, of which each side has its own end.
pub mod Parts
pub mod Run
pub mod Steps
pub mod Sound
pub mod Promises
pub mod Marks
pub mod Steered
pub mod Tests
use clean_slate_inc.Prelude.{
  ℕ, zero, suc, ◌+◌, ◌≡◌, Bool, Option, none, some, List, [], ◌∷◌, ◌>>=◌, get_elem?, set, add32,
}
use clean_slate_inc.Op.{Op}
use clean_slate_inc.Packet.{Mbuf}
use clean_slate_inc.Congestion.{Double}
use clean_slate_inc.LoadBalancer.{SubOp, LoadBalancer, sub_op_at, try_post_op, try_complete_op}
use clean_slate_inc.QueuePair.{Spsc, QueuePair}
use clean_slate_inc.Worker.Defs.{Link, Worker}
use clean_slate_inc.Worker.Loop.{worker_round}

-- The queue pair to the frontend, the workers of `thread_ctx` and the shared memory.
pub record Backend (A B L F : Type 0) : Type 0 where
  pub shm_qp : QueuePair A
  pub workers : List (Worker B L F)
  pub mem : ℕ → ℕ

module _ {B L F : Type 0} where
  -- The queue pairs `thread_ctx[i].qp`.
  abbrev pub qps_of : List (Worker B L F) → List (QueuePair B)
  qps_of [] = []
  qps_of (w ∷ ws) = w.qp ∷ qps_of ws

  abbrev pub put_qps : List (Worker B L F) → List (QueuePair B) → List (Worker B L F)
  put_qps [] qps = []
  put_qps (w ∷ ws) [] = w ∷ ws
  put_qps (w ∷ ws) (qp ∷ qps) = record w { qp = qp } ∷ put_qps ws qps

module _ {A B L F : Type 0} where
  -- What the load balancer reads and writes of the backend.
  abbrev pub balancer_of : Backend A B L F → LoadBalancer A B
  balancer_of s = record { shm_qp = s.shm_qp; worker_qps = qps_of s.workers }

  abbrev pub put_balancer : Backend A B L F → LoadBalancer A B → Backend A B L F
  put_balancer s lb = record s { shm_qp = lb.shm_qp; workers = put_qps s.workers lb.worker_qps }

module _ (a : Spsc ℕ) (q : Spsc SubOp) (l : Link) (d : Double) where
  abbrev pub State : Type 0
  State = Backend a.Queue q.Queue l.State d.F

  -- A round of worker `i`, on the shared memory.
  unfoldable pub run_worker : ℕ → (ℕ → Op) → ℕ → List (Option Mbuf) → State → Option State
  run_worker i ops now arrived s = do
    w ← get_elem? s.workers i
    w' ← worker_round q l d ops now arrived (record w { mem = s.mem })
    some (record s { workers = set s.workers i w'; mem = w'.mem })

  unfoldable pub run_post : (ℕ → Op) → State → Option (Bool × State)
  run_post ops s = do
    (posted, lb) ← try_post_op a q ops (balancer_of s)
    some (posted, put_balancer s lb)

  unfoldable pub run_complete : State → Option (Bool × State)
  run_complete s = do
    (completed, lb) ← try_complete_op a q (balancer_of s)
    some (completed, put_balancer s lb)

-- Where the data of the part of worker `i` begin in those of the operation.
unfoldable pub offset_at : ℕ → Op → ℕ → ℕ → ℕ
offset_at addr op nworker zero = 0
offset_at addr op nworker (suc i) =
    let offset = offset_at addr op nworker i in
    add32 offset (sub_op_at addr op nworker i offset).size

-- The part that worker `i` gets of an operation at its address.
unfoldable pub part_for : ℕ → ℕ → ℕ × Op → SubOp
part_for nworker i (addr, op) = sub_op_at addr op nworker i (offset_at addr op nworker i)

-- ===== src/NetCcl/Run.antt =====
-- The runs of NetCCL: the training process, the daemon, the load balancer and the workers in any order of
-- their steps, whatever arrives from the network and whatever `cudaEventQuery` says:
-- server/frontend/src/c/daemon.cpp, server/backend/load_balancer.cpp and server/backend/worker.cpp. All
-- operations are of one group.
use clean_slate_inc.Prelude.{
  Option, ℕ, ◌≡◌, ◌≢◌, Bool, true, some, List, [], ◌∷◌, ◌++◌, All, AllFrom,
}
use clean_slate_inc.Backend.{Backend, run_worker, run_post, run_complete}
use clean_slate_inc.Congestion.{Double}
use clean_slate_inc.Daemon.{Daemon, try_post_op, try_complete_op}
use clean_slate_inc.Daemon.Run.{with_op}
use clean_slate_inc.Daemon.Sound.{slot_of}
use clean_slate_inc.Frontend.{OpWithFut}
use clean_slate_inc.LoadBalancer.{SubOp}
use clean_slate_inc.LoadBalancer.System.{IsAligned}
use clean_slate_inc.NetCcl.{NetCcl, backend_of, put_backend}
use clean_slate_inc.Op.{Op}
use clean_slate_inc.Packet.{Mbuf}
use clean_slate_inc.QueuePair.{Spsc, QueuePair, fresh, push_req, front_req, front_resp, pop_resp}
use clean_slate_inc.Worker.Defs.{Link}
use clean_slate_inc.Worker.Stream.Run.{IsFresh}

module _ (a : Spsc ℕ) (q : Spsc SubOp) (l : Link) (d : Double) (group : ℕ) where
  abbrev pub System : Type 0
  System = NetCcl a.Queue q.Queue l.State d.F

  -- The indices are the operations that the training process has posted and not collected, and the
  -- elements, with what was in them, that the load balancer has taken and not completed.
  pub data Run : System → List ℕ → List (ℕ × Op) → Type 0 where
    start :
        {s : System}
        → s.daemon.py_qp ≡ fresh a
        → s.daemon.shm_qp ≡ fresh a
        → AllFrom (λ i w. IsFresh q w) 0 s.workers
        → ((x : ℕ) → (s.daemon.ops x).group.group_id ≡ group)
        → Run s [] []
    -- the training process posts an operation, in an element that no other is in, of whole words if it
    -- is a reduction
    posts :
        {s : System} {out : List ℕ} {flight : List (ℕ × Op)} {py : QueuePair a.Queue} (x slot : ℕ)
        (fut : OpWithFut) (op : Op)
        → Run s out flight
        → fut.op ≡ slot
        → op.op_with_fut ≡ x
        → op.group.group_id ≡ group
        → IsAligned a q op
        → All (λ b. (b ≢ x) × (slot_of a s.daemon b ≢ slot)) out
        → push_req a x s.daemon.py_qp ≡ some (true, py)
        → Run
            (record s { daemon = record (with_op a x slot fut op s.daemon) { py_qp = py } })
            (out ++ x ∷ [])
            flight
    -- the training process collects an answer
    collects :
        {s : System} {out : List ℕ} {flight : List (ℕ × Op)} {py : QueuePair a.Queue} (x : ℕ)
        → Run s (x ∷ out) flight
        → front_resp a s.daemon.py_qp ≡ some x
        → pop_resp a s.daemon.py_qp ≡ some py
        → Run (record s { daemon = record s.daemon { py_qp = py } }) out flight
    -- the data buffer is written
    copies :
        {s : System} {out : List ℕ} {flight : List (ℕ × Op)} (mem : ℕ → ℕ)
        → Run s out flight
        → Run (record s { mem = mem }) out flight
    -- the daemon
    posting :
        {s : System} {out : List ℕ} {flight : List (ℕ × Op)} {b : Bool} {d' : Daemon a.Queue}
        (done : Bool)
        → Run s out flight
        → try_post_op a done s.daemon ≡ some (b, d')
        → Run (record s { daemon = d' }) out flight
    completing :
        {s : System} {out : List ℕ} {flight : List (ℕ × Op)} {b : Bool} {d' : Daemon a.Queue}
        (done : Bool)
        → Run s out flight
        → try_complete_op a done s.daemon ≡ some (b, d')
        → Run (record s { daemon = d' }) out flight
    -- a round of a worker
    round :
        {s : System} {out : List ℕ} {flight : List (ℕ × Op)}
        {b : Backend a.Queue q.Queue l.State d.F} (i now : ℕ) (arrived : List (Option Mbuf))
        → Run s out flight
        → run_worker a q l d i s.daemon.ops now arrived (backend_of s) ≡ some b
        → Run (put_backend s b) out flight
    -- the load balancer takes an operation
    takes :
        {s : System} {out : List ℕ} {flight : List (ℕ × Op)}
        {b : Backend a.Queue q.Queue l.State d.F} (x : ℕ)
        → Run s out flight
        → front_req a s.daemon.shm_qp ≡ some x
        → run_post a q l d s.daemon.ops (backend_of s) ≡ some (true, b)
        → Run (put_backend s b) out (flight ++ (x, s.daemon.ops x) ∷ [])
    -- the load balancer completes an operation
    completes :
        {s : System} {out : List ℕ} {flight : List (ℕ × Op)}
        {b : Backend a.Queue q.Queue l.State d.F} (f : ℕ × Op)
        → Run s out (f ∷ flight)
        → run_complete a q l d (backend_of s) ≡ some (true, b)
        → Run (put_backend s b) out flight

-- ===== src/NetCcl/Tests.antt =====
-- NetCCL with two workers and an all-reduce of eight bytes on its way, and the theorems there:
-- server/frontend/src/c/daemon.cpp, server/backend/load_balancer.cpp and server/backend/worker.cpp.
use clean_slate_inc.Prelude.{
  arith, ℕ, ◌≡◌, ◌≤◌, refl, true, false, some, List, [], ◌∷◌, ◌++◌, map, length, get_elem?,
}
use clean_slate_inc.Backend.{State, run_worker, run_post}
use clean_slate_inc.Backend.Tests.{Worker', given, begin-IsFresh}
use clean_slate_inc.Backend.Tests as Backend
use clean_slate_inc.Congestion.FixedPoint.{fixed_point}
use clean_slate_inc.Daemon.{Daemon, set_copying, start_post, hand_over, try_post_op}
use clean_slate_inc.Daemon.Sound.{slot_of}
use clean_slate_inc.Daemon.Tests.{op, op_with_fut, after}
use clean_slate_inc.Daemon.Tests as Daemon
use clean_slate_inc.Daemon.Run.{with_op}
use clean_slate_inc.LoadBalancer.{SubOp, sub_op_at, post_from}
use clean_slate_inc.LoadBalancer as LoadBalancer
use clean_slate_inc.LoadBalancer.Split.{sub_ops}
use clean_slate_inc.NetCcl.{NetCcl, backend_of, put_backend}
use clean_slate_inc.NetCcl.Run.{Run}
use clean_slate_inc.NetCcl.Promises.{DaemonRuns, BalancerRuns, netccl_never_aborts, netccl_in_order}
use clean_slate_inc.Op.{Op, need_tx, need_rx}
use clean_slate_inc.Packet.{Mbuf}
use clean_slate_inc.QueuePair.{queue_size, fresh, push_req, front_req, pop_req}
use clean_slate_inc.QueuePair.ListQueue.{list_queue}
use clean_slate_inc.QueuePair.Steps.{requests, responses}
use clean_slate_inc.Backend.Steered.{first_state}
use clean_slate_inc.Startup.Launch.{start_worker}
use clean_slate_inc.Window.{window_len}
use clean_slate_inc.Worker.Stream.{lasts}
use clean_slate_inc.Worker.Tests.{wire, packet}

abbrev System' : Type 0
System' = NetCcl (List ℕ) (List SubOp) (List Mbuf) ℕ

abbrev begin : System'
begin = record { daemon = Daemon.begin; workers = Backend.begin.workers; mem = λ _. 0 }

abbrev Reached : System' → List ℕ → List (ℕ × Op) → Type 0
Reached = Run (list_queue ℕ) (list_queue SubOp) wire fixed_point 1

begin-Run : Reached begin [] []
unfolding fresh
begin-Run = Run.start refl refl begin-IsFresh (λ x. refl)

-- The training process posts the operation at 70, in element 0.
abbrev posted : Daemon (List ℕ)
posted = record (with_op (list_queue ℕ) 70 0 op_with_fut op Daemon.begin) {
  py_qp = record { wq = 70 ∷ []; cq = []; num_in_queue = 1 };
}

abbrev handed_over : Daemon (List ℕ)
handed_over =
    after (try_post_op (list_queue ℕ) true (after (try_post_op (list_queue ℕ) false posted)))

handed_over-Run : Reached (record begin { daemon = handed_over }) (70 ∷ []) []
unfolding try_post_op hand_over set_copying start_post need_tx need_rx front_req pop_req push_req
    fresh
handed_over-Run =
    Run.posting {b = true} true
      (Run.posting {b = true} false
        (Run.posts 70 0 op_with_fut op begin-Run refl refl refl refl tt refl) refl)
      refl

-- The load balancer takes it.
abbrev second : Worker'
second = given 1 (sub_op_at 0 op 2 1 (sub_op_at 0 op 2 0 0).size)

abbrev taken : System'
taken = record {
  daemon = record handed_over { shm_qp = record { wq = []; cq = []; num_in_queue = 1 } };
  workers = given 0 (sub_op_at 0 op 2 0 0) ∷ second ∷ [];
  mem = λ _. 0;
}

taken-Run : Reached taken (70 ∷ []) ((0, op) ∷ [])
unfolding try_post_op hand_over set_copying start_post need_tx need_rx front_req pop_req push_req
    fresh LoadBalancer.try_post_op run_post post_from sub_op_at first_state start_worker
taken-Run = Run.takes 0 handed_over-Run refl refl

netccl_never_aborts_example :
    DaemonRuns
      (list_queue ℕ)
      (list_queue SubOp)
      wire
      fixed_point
      1
      taken
      (70 ∷ [])
      ((0, op) ∷ [])
      false
    × ((b : State (list_queue ℕ) (list_queue SubOp) wire fixed_point) × (run_worker
            (list_queue ℕ)
            (list_queue SubOp)
            wire
            fixed_point
            1
            taken.daemon.ops
            5
            (some (packet 0 []) ∷ [])
            (backend_of taken)
          ≡ some b)
        × Reached (put_backend taken b) (70 ∷ []) ((0, op) ∷ []))
    × BalancerRuns
        (list_queue ℕ)
        (list_queue SubOp)
        wire
        fixed_point
        1
        taken
        (70 ∷ [])
        ((0, op) ∷ [])
netccl_never_aborts_example =
    netccl_never_aborts (list_queue ℕ) (list_queue SubOp) wire fixed_point 1 false 1 5
      (some (packet 0 []) ∷ []) taken-Run refl (ground arith, tt)

netccl_in_order_example :
    let flying = lasts second.window.state second.window.to_ack (window_len second.window) in
    ((tk : List ℕ) × (busy : List ℕ) × (responses (list_queue ℕ) taken.daemon.py_qp
          ++ (tk ++ requests (list_queue ℕ) taken.daemon.py_qp)
        ≡ 70 ∷ [])
      × (map (slot_of (list_queue ℕ) taken.daemon) tk
          ≡ responses (list_queue ℕ) taken.daemon.shm_qp
            ++ (busy ++ requests (list_queue ℕ) taken.daemon.shm_qp))
      × (map some (
            responses (list_queue SubOp) second.qp
            ++ (flying ++ requests (list_queue SubOp) second.qp))
          ≡ map (λ x. get_elem? (sub_ops x (taken.daemon.ops x) 2 0 0 2) 1) busy))
    × (length {A = ℕ} (70 ∷ []) ≤ queue_size)
netccl_in_order_example =
    netccl_in_order (list_queue ℕ) (list_queue SubOp) wire fixed_point 1 1 taken-Run refl

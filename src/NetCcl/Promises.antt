-- ===== src/NetCcl/Promises.antt =====
-- What NetCCL promises in every state that it reaches, while all operations are of one group:
-- server/frontend/src/c/daemon.cpp, server/backend/load_balancer.cpp and server/backend/worker.cpp.
use clean_slate_inc.Prelude.{
  Option, ℕ, ◌≤◌, ◌≡◌, sym, ap, ap₂, refl, ◌∙◌, subst, ◌⊎◌, Bool, true, false, none, some, inl, inr,
  List, [], ◌∷◌, ◌++◌, map, length, length-append, arith, All, All-append_right, get_elem?,
  get_elem?-ne-nil, Option-cases,
}
use clean_slate_inc.Backend.{State, qps_of, run_worker, run_post, run_complete}
use clean_slate_inc.Backend.Parts.{HasSlots}
use clean_slate_inc.Backend.Run.{run_worker-Sound}
use clean_slate_inc.Backend.Sound.{owes_parts}
use clean_slate_inc.Backend.Steps.{run_post-idle, run_post-Sound, run_complete-Sound}
use clean_slate_inc.Congestion.{Double}
use clean_slate_inc.Daemon.{Daemon, try_post_op, try_complete_op}
use clean_slate_inc.Daemon.Sound.{slot_of}
use clean_slate_inc.Daemon.Hand.{backend_elements}
use clean_slate_inc.Daemon.Moves.{try_post_op-Steps, try_complete_op-Steps}
use clean_slate_inc.LoadBalancer.{SubOp, all_answered}
use clean_slate_inc.LoadBalancer.Split.{sub_ops}
use clean_slate_inc.LoadBalancer.System.{IsAligned}
use clean_slate_inc.NetCcl.{backend_of, put_backend}
use clean_slate_inc.NetCcl.Run.{System, Run}
use clean_slate_inc.NetCcl.Sound.{Sound, Run-Sound}
use clean_slate_inc.Op.{Op}
use clean_slate_inc.Packet.{Mbuf}
use clean_slate_inc.QueuePair.{Spsc, queue_size, front_req}
use clean_slate_inc.QueuePair.Steps.{requests, responses, front_req-requests}
use clean_slate_inc.QueuePair.History.{Reach-Inv, head?-some}
use clean_slate_inc.Window.{window_len}
use clean_slate_inc.Worker.Defs.{Link, Worker}
use clean_slate_inc.Worker.Stream.{lasts}

module _ (a : Spsc ℕ) (q : Spsc SubOp) (l : Link) (d : Double) (group : ℕ) where
  -- The daemon's functions return.
  abbrev pub DaemonRuns : System a q l d group → List ℕ → List (ℕ × Op) → Bool → Type 0
  DaemonRuns s out flight done =
      ((b : Bool) × (d' : Daemon a.Queue) × (try_post_op a done s.daemon ≡ some (b, d'))
        × Run a q l d group (record s { daemon = d' }) out flight)
      × ((b : Bool) × (d' : Daemon a.Queue) × (try_complete_op a done s.daemon ≡ some (b, d'))
          × Run a q l d group (record s { daemon = d' }) out flight)

  -- The functions of the load balancer do nothing or take and complete an operation.
  abbrev pub BalancerRuns : System a q l d group → List ℕ → List (ℕ × Op) → Type 0
  BalancerRuns s out flight =
      (((front_req a s.daemon.shm_qp ≡ none)
          × (run_post a q l d s.daemon.ops (backend_of s) ≡ some (false, backend_of s)))
        ⊎ ((x : ℕ) × (b : State a q l d) × (run_post a q l d s.daemon.ops (backend_of s)
              ≡ some (true, b))
            × Run a q l d group (put_backend s b) out (flight ++ (x, s.daemon.ops x) ∷ [])))
      × (((all_answered q (qps_of s.workers) ≡ false)
            × (run_complete a q l d (backend_of s) ≡ some (false, backend_of s)))
          ⊎ ((f : ℕ × Op) × (rest : List (ℕ × Op)) × (b : State a q l d) × (flight ≡ f ∷ rest)
              × (run_complete a q l d (backend_of s) ≡ some (true, b))
              × Run a q l d group (put_backend s b) out rest))

  -- What the backend takes next is of whole words if it is a reduction.
  next-IsAligned :
      {s : System a q l d group} {out : List ℕ} {flight : List (ℕ × Op)} (x : ℕ)
      → Sound a q l d group s out flight
      → front_req a s.daemon.shm_qp ≡ some x
      → IsAligned a q (s.daemon.ops x)
  next-IsAligned {s} {out} {flight} x v front =
      let (xs, h) =
        head?-some x (requests a s.daemon.shm_qp)
          (sym (front_req-requests a s.daemon.shm_qp) ∙ front) in
      let P : ℕ → Type 0 = λ z. IsAligned a q (s.daemon.ops z) in
      let waiting : All P (requests a s.daemon.shm_qp) =
        All-append_right P (map (λ (f : ℕ × Op). f.0) flight) (requests a s.daemon.shm_qp) (
          All-append_right P (responses a s.daemon.shm_qp)
            (map (λ (f : ℕ × Op). f.0) flight ++ requests a s.daemon.shm_qp)
            (backend_elements a P v.daemon v.aligned)) in
      (subst (All P) h waiting).0

  -- In every state that NetCCL with a worker reaches, while all operations are of one group, reductions
  -- are of whole words and each operation is posted at an address and in an element that are not in use, and each
  -- operation that the backend has taken and not completed has a slot of the aggregator for each worker:
  -- no assertion fails and nothing is divided by zero, whatever `cudaEventQuery` says and whatever
  -- finitely many packets the loop of `rx_process` receives. Both functions of the daemon return; so
  -- does a round of any worker, if that loop ends and the NIC takes what `transmit` sends; and so do
  -- those of the load balancer, of which `try_post_op` changes nothing if there is no request, and
  -- `try_complete_op` nothing if a worker has not answered. Each state after is again one that NetCCL
  -- reaches.
  pub netccl_never_aborts :
      {s : System a q l d group} {out : List ℕ} {flight : List (ℕ × Op)} (done : Bool) (i now : ℕ)
      (arrived : List (Option Mbuf)) {w : Worker q.Queue l.State d.F}
      → Run a q l d group s out flight
      → get_elem? s.workers i ≡ some w
      → All (HasSlots (length s.workers)) flight
      → DaemonRuns s out flight done
        × ((b : State a q l d) × (run_worker a q l d i s.daemon.ops now arrived (backend_of s)
              ≡ some b)
            × Run a q l d group (put_backend s b) out flight)
        × BalancerRuns s out flight
  netccl_never_aborts {s} {out} {flight} done i now arrived {w} r at slots =
      let v = Run-Sound a q l d group r in
      (
        (
          let (b, d', e, _, _, _) = try_post_op-Steps a done s.daemon v.daemon in
              (b, d', e, Run.posting done r e),
          let (b, d', e, _, _, _) = try_complete_op-Steps a done s.daemon v.daemon in
              (b, d', e, Run.completing done r e),
        ),
        elim (run_worker-Sound a q l d group i s.daemon.ops now arrived w at v.groups v.backend) [
          | inl (_, few) ↦ absurd (few slots)
          | inr (b, e, _) ↦ (b, e, Run.round i now arrived r e)
        ],
        (
          elim (Option-cases (front_req a s.daemon.shm_qp)) [
            | inl idle ↦ inl (idle, run_post-idle a q l d group s.daemon.ops (backend_of s) idle)
            | inr (x, front) ↦
                let (b, e, _) =
                  run_post-Sound a q l d group x s.daemon.ops front (next-IsAligned x v front)
                    v.backend in
                inr (x, b, e, Run.takes x r front e)
          ],
          elim (run_complete-Sound a q l d group (get_elem?-ne-nil s.workers i at) v.backend) [
            | inl waiting ↦ inl waiting
            | inr (f, rest, b, _, same, e, _, _) ↦ inr (
              f,
              rest,
              b,
              same,
              e,
              Run.completes f (subst (λ z. Run a q l d group s out z) same r) e,
            )
          ],
        ),
      )

  -- In every state that NetCCL reaches, while all operations are of one group, reductions are of whole
  -- words and each operation is posted at an address and in an element that are not in use, there are lists `taken`
  -- and `busy` such that: the operations that the training process has posted and not collected are, in
  -- the order in which it posted them, those answered, those in `taken` and those waiting for the
  -- daemon; the elements of `taken` are, in the same order, those that the backend has answered, those in
  -- `busy` and those waiting for the load balancer; and each worker owes, in the same order, exactly its
  -- parts of the operations that now stand in the elements `busy`. There are never more than
  -- `queue_size` operations in all.
  pub netccl_in_order :
      {s : System a q l d group} {out : List ℕ} {flight : List (ℕ × Op)} (i : ℕ)
      {w : Worker q.Queue l.State d.F}
      → Run a q l d group s out flight
      → get_elem? s.workers i ≡ some w
      → let n = length s.workers in
        let flying = lasts w.window.state w.window.to_ack (window_len w.window) in
        ((taken : List ℕ) × (busy : List ℕ) × (responses a s.daemon.py_qp
              ++ (taken ++ requests a s.daemon.py_qp)
            ≡ out)
          × (map (slot_of a s.daemon) taken
              ≡ responses a s.daemon.shm_qp ++ (busy ++ requests a s.daemon.shm_qp))
          × (map some (responses q w.qp ++ (flying ++ requests q w.qp))
              ≡ map (λ x. get_elem? (sub_ops x (s.daemon.ops x) n 0 0 n) i) busy))
        × (length out ≤ queue_size)
  netccl_in_order {s} {out} {flight} i {w} r at =
      let v = Run-Sound a q l d group r in
      let inv = Reach-Inv a v.daemon.python in
      (
        (
          v.daemon.taken,
          map (λ (f : ℕ × Op). f.0) flight,
          v.daemon.outstanding,
          v.daemon.same,
          owes_parts a q l d group i v.backend at ∙ standing (length s.workers) flight v.held,
        ),
        omega (
          arith,
          inv.count,
          inv.bound,
          ap length v.daemon.outstanding,
          length-append (responses a s.daemon.py_qp) (v.daemon.taken ++ requests a s.daemon.py_qp),
          length-append v.daemon.taken (requests a s.daemon.py_qp),
        ),
      )
    where
      standing :
          (n : ℕ) (fs : List (ℕ × Op))
          → All (λ (f : ℕ × Op). s.daemon.ops f.0 ≡ f.1) fs
          → map (λ (f : ℕ × Op). get_elem? (sub_ops f.0 f.1 n 0 0 n) i) fs
            ≡ map
                (λ x. get_elem? (sub_ops x (s.daemon.ops x) n 0 0 n) i)
                (map (λ (f : ℕ × Op). f.0) fs)
      standing n [] h = refl
      standing n (f ∷ fs) h =
          ap₂ (λ x xs. x ∷ xs) (ap (λ o. get_elem? (sub_ops f.0 o n 0 0 n) i) (sym h.0))
            (standing n fs h.1)

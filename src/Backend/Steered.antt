-- ===== src/Backend/Steered.antt =====
-- From the start of the threads on, the NIC brings the answers to a worker's packets to this worker:
-- `dpdk_init` of server/backend/main.cpp, then the rounds of server/backend/worker.cpp.
use clean_slate_inc.Prelude.{
  ℕ, suc, ◌+◌, ◌-◌, ◌*◌, ◌/◌, ◌≤◌, ◌<◌, ◌≡◌, refl, sym, ap, ◌∙◌, subst, Bool, some, List, [], ◌∷◌,
  All, All-map, AllFrom, get_elem?, get_elem?-AllFrom, get_elem?-lt, length, arith,
}
use clean_slate_inc.Prelude.Int.{ℤ, pos_part}
use clean_slate_inc.Op.{Op}
use clean_slate_inc.Congestion.{Double}
use clean_slate_inc.LoadBalancer.{SubOp}
use clean_slate_inc.QueuePair.{Spsc, fresh}
use clean_slate_inc.Worker.Defs.{Link, Worker}
use clean_slate_inc.Worker.Marked.{HasTos, IsMarked}
use clean_slate_inc.Worker.Stream.Run.{IsFresh}
use clean_slate_inc.Startup.Flow.{ipproto_netccl, Flows}
use clean_slate_inc.Startup.Flow.Steering.{queues_for}
use clean_slate_inc.Startup.Flow.Taken.{success_steers}
use clean_slate_inc.Startup.Launch.{Machine, Ctx, start_worker, Started, dpdk_init}
use clean_slate_inc.Startup.Launch.Success.{
  IsOf, AreOf, length-make_pools, launch_from-AreOf, start_worker-IsFresh, dpdk_init-Stages,
}
use clean_slate_inc.Backend.{State}
use clean_slate_inc.Backend.Run.{Run}
use clean_slate_inc.Backend.Marks.{tos_of, Run-Steady}

module _ (m : Machine) (a : Spsc ℕ) (q : Spsc SubOp) (l : Link) (d : Double) where
  -- The workers of the contexts, from number `i` on.
  unfoldable pub started_from :
      ℕ → (ℕ → l.State) → (ℕ → ℕ) → Bool → List (Ctx m q d) → List (Worker q.Queue l.State d.F)
  started_from i link mem loopback [] = []
  started_from i link mem loopback (c ∷ cs) =
      start_worker c (link i) mem loopback ∷ started_from (i + 1) link mem loopback cs

  -- The backend in which the threads start: the queue pair to the frontend is new, and each worker has
  -- its own link.
  unfoldable pub first_state : Started m q d → (ℕ → l.State) → (ℕ → ℕ) → Bool → State a q l d
  unfolding started_from
  first_state r link mem loopback = record {
    shm_qp = fresh a;
    workers = started_from 0 link mem loopback r.thread_ctx;
    mem = mem;
  }

  rest-AreOf :
      (i count : ℕ) (c : Ctx m q d) (cs : List (Ctx m q d))
      → AreOf m q d i count (c ∷ cs)
      → AreOf m q d (i + 1) (count - 1) cs
  rest-AreOf i count c cs (len, each) = (
    omega (arith, len),
    λ j c' at. subst (λ k. IsOf m q d k c') (omega arith) (each (suc j) c' at),
  )

  first-IsOf :
      (i count : ℕ) (c : Ctx m q d) (cs : List (Ctx m q d))
      → AreOf m q d i count (c ∷ cs)
      → IsOf m q d i c
  first-IsOf i count c cs (_, each) = subst (λ k. IsOf m q d k c) (omega arith) (each 0 c refl)

  started_from-Marks :
      (i count : ℕ) (link : ℕ → l.State) (mem : ℕ → ℕ) (loopback : Bool) (cs : List (Ctx m q d))
      → ((j : ℕ) → l.sent (link j) ≡ [])
      → AreOf m q d i count cs
      → (length (started_from i link mem loopback cs) ≡ length cs)
        × AllFrom (λ j w. IsMarked l (tos_of j) w) i (started_from i link mem loopback cs)
        × AllFrom (λ j w. IsFresh q w) i (started_from i link mem loopback cs)
  unfolding started_from start_worker
  started_from-Marks i count link mem loopback [] empty h = (refl, tt, tt)
  started_from-Marks i count link mem loopback (c ∷ cs) empty h =
      let is = first-IsOf i count c cs h in
      let (len, marks, idle) =
        started_from-Marks (i + 1) (count - 1) link mem loopback cs empty
          (rest-AreOf i count c cs h) in
      (
        ap suc len,
        (
          record { window = is.tos; sent = subst (All (HasTos (tos_of i))) (sym (empty i)) tt },
          marks,
        ),
        (start_worker-IsFresh m q d i c (link i) mem loopback is, idle),
      )

  -- When `dpdk_init` with at most 65 threads does not fail an assertion, on a NIC that had no rules, and
  -- no link has sent anything: in every state that the backend reaches from there, while all operations
  -- are of one group, whatever arrives and whatever the frontend does, every packet that worker `i` has
  -- ever sent has a type of service that brings its answers, whatever their two ECN bits are, to queue
  -- `i` and to no other.
  pub answers_come_back :
      (group : ℕ) (nthread : ℤ) (r : Started m q d) (link : ℕ → l.State) (mem : ℕ → ℕ)
      (loopback : Bool) {s : State a q l d} {posted got : List ℕ} {flight : List (ℕ × Op)}
      (i ecn : ℕ) {w : Worker q.Queue l.State d.F}
      → dpdk_init m q d nthread ≡ some r
      → m.flow.rules m.flow_state ≡ []
      → pos_part nthread ≤ 65
      → ((j : ℕ) → l.sent (link j) ≡ [])
      → Run a q l d group (first_state r link mem loopback) s posted flight got
      → get_elem? s.workers i ≡ some w
      → ecn < 4
      → All
          (λ pkt.
            queues_for (m.flow.rules r.flows.nic) (pkt.type_of_service / 4 * 4 + ecn) ipproto_netccl
            ≡ i ∷ [])
          (l.sent w.link)
  unfolding first_state
  answers_come_back group nthread r link mem loopback {s} i ecn {w} e no_rules small empty run at
        he =
      let stages = dpdk_init-Stages m q d nthread r e in
      let nworker = pos_part nthread - 1 in
      let are = launch_from-AreOf m q d 0 stages.pools stages.launched in
      let (len, marks, _) =
        started_from-Marks 0 (length stages.pools) link mem loopback r.thread_ctx empty are in
      let (marked, same) = Run-Steady a q l d group marks run in
      let lt : i < nworker = omega (
        arith,
        get_elem?-lt s.workers i at,
        same,
        len,
        are.0,
        length-make_pools m q d 0 nworker stages.made,
      ) in
      let mine : IsMarked l (tos_of (0 + i)) w =
        get_elem?-AllFrom (λ j w. IsMarked l (tos_of j) w) 0 i s.workers marked at in
      All-map (l.sent w.link)
        (λ pkt tos.
          ap (λ t. queues_for (m.flow.rules r.flows.nic) (t / 4 * 4 + ecn) ipproto_netccl) tos
          ∙ ap (λ t. queues_for (m.flow.rules r.flows.nic) t ipproto_netccl)
              (omega (arith, lt, small))
          ∙ ap
              (λ (f : Bool × Flows m.flow).
                queues_for (m.flow.rules f.1.nic) (i * 4 + ecn) ipproto_netccl)
              (sym stages.flow)
          ∙ success_steers m.flow nworker i ecn m.flow_state no_rules
              (ap (λ (f : Bool × Flows m.flow). f.0) stages.flow) lt (omega (arith, small)) he)
        mine.sent

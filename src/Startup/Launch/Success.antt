-- ===== src/Startup/Launch/Success.antt =====
-- What holds when `dpdk_init` of server/backend/main.cpp has started the workers.
use clean_slate_inc.Prelude.{
  ℕ, zero, suc, ◌+◌, ◌-◌, ◌*◌, ◌/◌, ◌%◌, ◌≡◌, ◌≤◌, ◌<◌, refl, sym, ap, ◌∙◌, subst, Bool, true,
  false, some, List, [], ◌∷◌, ltb, arith, length, get_elem?, some-inj, get_elem?-lt, >>=-eq-some,
  assert-some,
}
use clean_slate_inc.Prelude.Int.{ℤ, pos_part}
use clean_slate_inc.LoadBalancer.{SubOp}
use clean_slate_inc.QueuePair.{Spsc, fresh}
use clean_slate_inc.Congestion.{Double}
use clean_slate_inc.ProcessBuffer.{new_buffer}
use clean_slate_inc.Worker.Send.{max_pkt_burst}
use clean_slate_inc.Worker.Stream.Run.{IsFresh}
use clean_slate_inc.Startup.Flow.{ipproto_netccl, Flows, flow_init}
use clean_slate_inc.Startup.Flow.Steering.{queues_for}
use clean_slate_inc.Startup.Flow.Taken.{success_steers}
use clean_slate_inc.Startup.Device.{get_dev_by_ip}
use clean_slate_inc.Startup.Cpus.{cpu_list_on_node}
use clean_slate_inc.Startup.Port.{port_init}
use clean_slate_inc.Startup.Launch.{
  Machine, worker_tos, prefill, new_window, start_worker, Ctx, make_pools, not_minus_1, launch_from,
  Started, dpdk_init,
}

module _ (m : Machine) (q : Spsc SubOp) (d : Double) where
  -- The context that the launch loop gives a worker.
  pub record IsOf (i : ℕ) (c : Ctx m q d) : Type 0 where
    pub id : c.worker_id ≡ i
    pub qp : c.qp ≡ fresh q
    pub to_ack : c.window.to_ack ≡ 0
    pub to_send : c.window.to_send ≡ 0
    pub left_psn : c.window.left_psn ≡ 0
    pub tos : (p : ℕ) → (c.window.state p).pkt.type_of_service ≡ (i * 4 + 1) % 256

  pub length-make_pools :
      (i count : ℕ) {pools : List (m.Pool × m.Pool)}
      → make_pools m q d i count ≡ some pools
      → length pools ≡ count
  unfolding make_pools
  length-make_pools i zero e = ground arith
  length-make_pools i (suc count) e =
      let (tx, _, e1) = >>=-eq-some (m.pool_create false i) _ e in
      let (rx, _, e2) = >>=-eq-some (m.pool_create true i) _ e1 in
      let (rest, made, e3) = >>=-eq-some (make_pools m q d (i + 1) count) _ e2 in
      ground (arith, length-make_pools (i + 1) count made)

  abbrev pub AreOf : ℕ → ℕ → List (Ctx m q d) → Type 0
  AreOf i count cs =
      (length cs ≡ count) × ((j : ℕ) (c : Ctx m q d) → get_elem? cs j ≡ some c → IsOf (i + j) c)

  cons-AreOf :
      (i count : ℕ) (c : Ctx m q d) (cs : List (Ctx m q d))
      → IsOf i c
      → AreOf (i + 1) count cs
      → AreOf i (suc count) (c ∷ cs)
  cons-AreOf i count c cs first (len, rest) = (ap suc len, each)
    where
      each : (j : ℕ) (c' : Ctx m q d) → get_elem? (c ∷ cs) j ≡ some c' → IsOf (i + j) c'
      each zero c' e =
          subst (λ k. IsOf k c') (omega arith) (subst (λ z. IsOf i z) (some-inj e) first)
      each (suc j) c' e = subst (λ k. IsOf k c') (omega arith) (rest j c' e)

  pub launch_from-AreOf :
      (i : ℕ) (pools : List (m.Pool × m.Pool)) {cs : List (Ctx m q d)}
      → launch_from m q d i pools ≡ some cs
      → AreOf i (length pools) cs
  unfolding launch_from new_window prefill worker_tos
  launch_from-AreOf i [] e = subst (AreOf i 0) (some-inj e) (refl, λ j c h. absurd (ground arith))
  launch_from-AreOf i ((tx, rx) ∷ pools) {cs} e =
      let (buffer, _, e1) = >>=-eq-some (new_buffer max_pkt_burst max_pkt_burst (m.queue i)) _ e in
      let (_, e2) = assert-some (m.remote_launch (i + 1)) _ e1 in
      let (rest, launched, e3) = >>=-eq-some (launch_from m q d (i + 1) pools) _ e2 in
      subst (AreOf i (suc (length pools))) (some-inj e3) (
        cons-AreOf i (length pools) _ rest
          (record {
            id = refl;
            qp = refl;
            to_ack = refl;
            to_send = refl;
            left_psn = refl;
            tos = λ p. refl;
          })
          (launch_from-AreOf (i + 1) pools launched))

  pub start_worker-IsFresh :
      {L : Type 0} (i : ℕ) (c : Ctx m q d) (link : L) (mem : ℕ → ℕ) (loopback : Bool)
      → IsOf i c
      → IsFresh q (start_worker c link mem loopback)
  unfolding start_worker
  start_worker-IsFresh i c link mem loopback v = record {
    qp = v.qp;
    to_ack = v.to_ack;
    to_send = v.to_send;
    left_psn = v.left_psn;
    sub_op = refl;
    psn_of = λ g. refl;
  }

  -- The stages that a successful `dpdk_init` has passed.
  pub record Stages (nthread : ℤ) (r : Started m q d) : Type 0 where
    pub pools : List (m.Pool × m.Pool)
    pub made : make_pools m q d 0 (pos_part nthread - 1) ≡ some pools
    pub port : port_init m.port (pos_part nthread - 1) ≡ some (true, r.calls)
    pub flow :
        flow_init m.flow (pos_part nthread - 1) (record { drop = true; nic = m.flow_state })
        ≡ (true, r.flows)
    pub launched : launch_from m q d 0 pools ≡ some r.thread_ctx

  pub dpdk_init-Stages :
      (nthread : ℤ) (r : Started m q d) → dpdk_init m q d nthread ≡ some r → Stages nthread r
  unfolding dpdk_init
  dpdk_init-Stages nthread r e =
      let nworker = pos_part nthread - 1 in
      let (found, _, e1) = >>=-eq-some (get_dev_by_ip m.inet_aton m.getifaddrs) _ e in
      let (dev, _, e2) = >>=-eq-some found _ e1 in
      let (pci, _, e3) = >>=-eq-some (m.get_pci_by_dev dev) _ e2 in
      let (_, e4) = assert-some (not_minus_1 (m.get_socket_by_pci pci)) _ e3 in
      let (cpus, _, e5) =
        >>=-eq-some (cpu_list_on_node m.sockets (m.get_socket_by_pci pci) nthread) _ e4 in
      let (_, e6) = assert-some (m.eal_init cpus) _ e5 in
      let (pools, made, e7) = >>=-eq-some (make_pools m q d 0 nworker) _ e6 in
      let (_, e8) = assert-some (ltb 0 m.dev_count_avail) _ e7 in
      let (_, e9) = assert-some (m.get_port_by_name pci) _ e8 in
      let (p, port, e10) = >>=-eq-some (port_init m.port nworker) _ e9 in
      let (ok, e11) = assert-some p.0 _ e10 in
      let (flow, e12) =
        assert-some (flow_init m.flow nworker (record { drop = true; nic = m.flow_state })).0 _
          e11 in
      let (cs, launched, e13) = >>=-eq-some (launch_from m q d 0 pools) _ e12 in
      let same : record {
        calls = p.1;
        flows = (flow_init m.flow nworker (record { drop = true; nic = m.flow_state })).1;
        thread_ctx = cs;
      }
          ≡ r =
        some-inj e13 in
      subst (Stages nthread) same (record {
        pools = pools;
        made = made;
        port = port ∙ ap (λ b. some (b, p.1)) ok;
        flow =
            ap (λ b. (b, (flow_init m.flow nworker (record { drop = true; nic = m.flow_state })).1))
              flow;
        launched = launched;
      })

  -- When `dpdk_init` with at most 65 threads does not fail an assertion, on a NIC that had no rules: there
  -- is a worker for every thread but the first, the `i`-th has number `i`, and starts with an empty
  -- window, empty queues and no sequence number used; and every packet in its window has a type of
  -- service that brings the packet's answers, whatever their two ECN bits are, to queue `i` and to no
  -- other.
  pub dpdk_init_lem :
      {L : Type 0} (nthread : ℤ) (r : Started m q d) (link : L) (mem : ℕ → ℕ) (loopback : Bool)
      → dpdk_init m q d nthread ≡ some r
      → m.flow.rules m.flow_state ≡ []
      → pos_part nthread ≤ 65
      → (length r.thread_ctx ≡ pos_part nthread - 1)
        × ((i : ℕ) (c : Ctx m q d)
            → get_elem? r.thread_ctx i ≡ some c
            → (c.worker_id ≡ i)
              × IsFresh q (start_worker c link mem loopback)
              × ((p ecn : ℕ)
                  → ecn < 4
                  → queues_for
                      (m.flow.rules r.flows.nic)
                      ((c.window.state p).pkt.type_of_service / 4 * 4 + ecn)
                      ipproto_netccl
                    ≡ i ∷ []))
  dpdk_init_lem nthread r link mem loopback e no_rules small =
      let s = dpdk_init-Stages nthread r e in
      let nworker = pos_part nthread - 1 in
      let (len, each) = launch_from-AreOf 0 s.pools s.launched in
      let count : length r.thread_ctx ≡ nworker = len ∙ length-make_pools 0 nworker s.made in
      (
        count,
        λ i c at.
            let v : IsOf i c = subst (λ k. IsOf k c) (omega arith) (each i c at) in
            let lt : i < nworker = omega (arith, count, get_elem?-lt r.thread_ctx i at) in
            (
              v.id,
              start_worker-IsFresh i c link mem loopback v,
              λ p ecn he.
                  ap (λ t. queues_for (m.flow.rules r.flows.nic) (t / 4 * 4 + ecn) ipproto_netccl)
                    (v.tos p)
                  ∙ ap (λ t. queues_for (m.flow.rules r.flows.nic) t ipproto_netccl)
                      (omega (arith, lt, small))
                  ∙ ap
                      (λ (f : Bool × Flows m.flow).
                        queues_for (m.flow.rules f.1.nic) (i * 4 + ecn) ipproto_netccl)
                      (sym s.flow)
                  ∙ success_steers m.flow nworker i ecn m.flow_state no_rules
                      (ap (λ (f : Bool × Flows m.flow). f.0) s.flow) lt (omega (arith, small)) he,
            ),
      )

-- ===== src/Startup/Flow/Taken.antt =====
-- When `flow_init` of server/backend/main.cpp succeeds, the NIC has taken the rules of all queues.
use clean_slate_inc.Prelude.{
  ◌%◌, u16_mod, ℕ, zero, suc, ◌+◌, ◌*◌, ◌≡◌, ◌≤◌, ◌<◌, refl, inl, inr, sym, ap, ◌∙◌, Bool, true,
  false, [], ◌∷◌, ◌++◌, if◌then◌else◌, arith, Bool-cases, append_assoc, append-nil,
}
use clean_slate_inc.Startup.Flow.{
  FlowRule, FlowApi, ipproto_netccl, drop_rule, queue_rule, flow_create, Flows, flow_init_queue,
  flow_init_from, flow_init,
}
use clean_slate_inc.Startup.Flow.Steering.{queues_for, queue_rules}
use clean_slate_inc.Startup.Flow.Rules.{after_drop_rule, flow_init_from-first, after_drop}

module _ (n : FlowApi) where
  flow_create-made :
      (r : FlowRule) (s : n.State)
      → (flow_create n r s).0 ≡ true
      → n.rules (flow_create n r s).1 ≡ n.rules s ++ r ∷ []
  unfolding flow_create
  flow_create-made r s e = elim (Bool-cases (n.validate r s)) [
    | inl valid ↦
        rw valid (
          n.create-taken r s (ap (λ b. (if b then n.create r s else (false, s)).0) (sym valid) ∙ e))
    | inr invalid ↦ absurd (ground arith)
  ]

  flow_init_queue-made :
      (q : ℕ) (f : Flows n)
      → f.drop ≡ false
      → (flow_init_queue n q f).0 ≡ true
      → ((flow_init_queue n q f).1.drop ≡ false)
        × (n.rules (flow_init_queue n q f).1.nic ≡ n.rules f.nic ++ queue_rule q ∷ [])
  unfolding flow_init_queue
  flow_init_queue-made q f old e =
      let nic : n.State = if f.drop then (flow_create n drop_rule f.nic).1 else f.nic in
      let same : nic ≡ f.nic = rw old refl in
      (refl, flow_create-made (queue_rule q) nic e ∙ ap (λ s. n.rules s ++ queue_rule q ∷ []) same)

  flow_init_from-made :
      (count q : ℕ) (f : Flows n)
      → f.drop ≡ false
      → (flow_init_from n q count f).0 ≡ true
      → n.rules (flow_init_from n q count f).1.nic ≡ n.rules f.nic ++ queue_rules q count
  unfolding flow_init_from
  flow_init_from-made zero q f old e = sym (append-nil (n.rules f.nic))
  flow_init_from-made (suc count) q f old e = elim (Bool-cases (flow_init_queue n q f).0) [
    | inl made ↦
        let (kept, rules) = flow_init_queue-made q f old made in
        rw made (
          flow_init_from-made count (q + 1) (flow_init_queue n q f).1 kept (ground arith)
          ∙ ap (λ l. l ++ queue_rules (q + 1) count) rules
          ∙ append_assoc (n.rules f.nic) (queue_rule q ∷ []) (queue_rules (q + 1) count))
    | inr refused ↦ absurd (ground arith)
  ]

  -- When the NIC has no rules at first and `flow_init` of at most 64 queues succeeds, a packet of the
  -- protocol with the number of a worker in the six high bits of its type of service goes to that
  -- worker's queue and to no other, whatever its two ECN bits are.
  pub success_steers :
      (count worker ecn : ℕ) (s : n.State)
      → n.rules s ≡ []
      → (flow_init n count (record { drop = true; nic = s })).0 ≡ true
      → worker < count
      → count ≤ 64
      → ecn < 4
      → queues_for
          (n.rules (flow_init n count (record { drop = true; nic = s })).1.nic)
          (worker * 4 + ecn)
          ipproto_netccl
        ≡ worker ∷ []
  unfolding flow_init after_drop
  success_steers zero worker ecn s none_yet e lt small he = absurd (omega arith)
  success_steers (suc count) worker ecn s none_yet e lt small he =
      let f : Flows n = record { drop = true; nic = s } in
      let fits : suc count % u16_mod ≡ suc count = omega (arith, small) in
      let same = ap (λ c. flow_init_from n 0 c f) fits ∙ flow_init_from-first n 0 count f refl in
      ap (λ (r : Bool × Flows n). queues_for (n.rules r.1.nic) (worker * 4 + ecn) ipproto_netccl)
        same
      ∙ ap (λ l. queues_for l (worker * 4 + ecn) ipproto_netccl)
          (flow_init_from-made (suc count) 0 (after_drop n f) refl
            (ap (λ (r : Bool × Flows n). r.0) (sym same) ∙ e))
      ∙ after_drop_rule n count worker ecn s none_yet lt small he

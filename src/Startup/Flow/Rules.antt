-- ===== src/Startup/Flow/Rules.antt =====
-- Which rules the NIC has when `flow_init` of server/backend/main.cpp has returned, and where they
-- bring the answers.
use clean_slate_inc.Prelude.{
  ◌%◌, u16_mod, ℕ, zero, suc, ◌+◌, ◌*◌, ◌/◌, ◌≡◌, ◌≤◌, ◌<◌, ◌⊎◌, inl, inr, refl, sym, ap, ◌∙◌, Bool,
  true, false, List, [], ◌∷◌, ◌++◌, arith, Bool-cases, append_assoc, append-nil,
}
use clean_slate_inc.Startup.Flow.{
  FlowRule, FlowApi, ipproto_netccl, drop_rule, queue_rule, flow_create, Flows, flow_init_queue,
  flow_init_from, flow_init,
}
use clean_slate_inc.Startup.Flow.Steering.{queues_for, queue_rules, queues_for-queue_rules}

-- The rule for everything else comes last.
queues_for-drop_rule :
    (l : List FlowRule) (tos proto : ℕ)
    → queues_for (drop_rule ∷ l) tos proto ≡ queues_for l tos proto
unfolding drop_rule
queues_for-drop_rule l tos proto = refl

own :
    (count worker ecn : ℕ)
    → worker < suc count
    → suc count ≤ 64
    → ecn < 4
    → queues_for (queue_rules 0 (suc count)) (worker * 4 + ecn) ipproto_netccl ≡ worker ∷ []
own count worker ecn lt small he =
    let high : (worker * 4 + ecn) / 4 ≡ worker = omega arith in
    queues_for-queue_rules 0 (suc count) (worker * 4 + ecn) (omega arith) (omega arith)
    ∙ ground (arith, high)

module _ (n : FlowApi) where
  -- The NIC takes the rules of the queues below `count`.
  abbrev pub Accepts : ℕ → Type 0
  Accepts count =
      (q : ℕ) (s : n.State)
      → q < count
      → (n.validate (queue_rule q) s ≡ true) × ((n.create (queue_rule q) s).0 ≡ true)

  flow_create-taken :
      (r : FlowRule) (s : n.State)
      → n.validate r s ≡ true
      → (n.create r s).0 ≡ true
      → ((flow_create n r s).0 ≡ true) × (n.rules (flow_create n r s).1 ≡ n.rules s ++ r ∷ [])
  unfolding flow_create
  flow_create-taken r s v c = rw v (c, n.create-taken r s c)

  -- What the NIC has after the call for `drop_rule`, which it may refuse.
  pub flow_create-drop :
      (s : n.State)
      → (n.rules (flow_create n drop_rule s).1 ≡ n.rules s)
        ⊎ (n.rules (flow_create n drop_rule s).1 ≡ n.rules s ++ drop_rule ∷ [])
  unfolding flow_create
  flow_create-drop s = elim (Bool-cases (n.validate drop_rule s)) [
    | inr no_rule ↦ rw no_rule (inl refl)
    | inl valid ↦ elim (Bool-cases (n.create drop_rule s).0) [
      | inl made ↦ rw valid (inr (n.create-taken drop_rule s made))
      | inr refused ↦ rw valid (inl (n.create-refused drop_rule s refused))
    ]
  ]

  flow_init_queue-later :
      (q : ℕ) (f : Flows n)
      → f.drop ≡ false
      → n.validate (queue_rule q) f.nic ≡ true
      → (n.create (queue_rule q) f.nic).0 ≡ true
      → ((flow_init_queue n q f).0 ≡ true)
        × ((flow_init_queue n q f).1.drop ≡ false)
        × (n.rules (flow_init_queue n q f).1.nic ≡ n.rules f.nic ++ queue_rule q ∷ [])
  unfolding flow_init_queue
  flow_init_queue-later q f old v c =
      let (made, rules) = flow_create-taken (queue_rule q) f.nic v c in rw old (made, refl, rules)

  flow_init_from-later :
      (count q top : ℕ) (f : Flows n)
      → Accepts top
      → q + count ≤ top
      → f.drop ≡ false
      → ((flow_init_from n q count f).0 ≡ true)
        × (n.rules (flow_init_from n q count f).1.nic ≡ n.rules f.nic ++ queue_rules q count)
  unfolding flow_init_from
  flow_init_from-later zero q top f ok le old = (refl, sym (append-nil (n.rules f.nic)))
  flow_init_from-later (suc count) q top f ok le old =
      let (v, c) = ok q f.nic (omega arith) in
      let (made, kept, rules) = flow_init_queue-later q f old v c in
      let (all, more) =
        flow_init_from-later count (q + 1) top (flow_init_queue n q f).1 ok (omega arith) kept in
      rw made (
        all,
        more
            ∙ ap (λ l. l ++ queue_rules (q + 1) count) rules
            ∙ append_assoc (n.rules f.nic) (queue_rule q ∷ []) (queue_rules (q + 1) count),
      )

  -- The first queue, with the static variable `drop` still set.
  unfoldable pub after_drop : Flows n → Flows n
  after_drop f = record { drop = false; nic = (flow_create n drop_rule f.nic).1 }

  pub flow_init_from-first :
      (q count : ℕ) (f : Flows n)
      → f.drop ≡ true
      → flow_init_from n q (suc count) f ≡ flow_init_from n q (suc count) (after_drop f)
  unfolding flow_init_from flow_init_queue after_drop
  flow_init_from-first q count f first = rw (flow_init_from, flow_init_queue, first) refl

  pub after_drop_rule :
      (count worker ecn : ℕ) (s : n.State)
      → n.rules s ≡ []
      → worker < suc count
      → suc count ≤ 64
      → ecn < 4
      → queues_for
          (n.rules (flow_create n drop_rule s).1 ++ queue_rules 0 (suc count))
          (worker * 4 + ecn)
          ipproto_netccl
        ≡ worker ∷ []
  after_drop_rule count worker ecn s none_yet lt small he = elim (flow_create-drop s) [
    | inl refused ↦ rw (refused, none_yet) (own count worker ecn lt small he)
    | inr made ↦
        rw (made, none_yet)
          (queues_for-drop_rule (queue_rules 0 (suc count)) (worker * 4 + ecn) ipproto_netccl
            ∙ own count worker ecn lt small he)
  ]

  -- When the NIC has no rules at first and takes those of the at most 64 queues, whether or not it takes
  -- the rule that drops everything else, `flow_init` succeeds, and then a packet of the protocol with
  -- the number of a worker in the six high bits of its type of service goes to that worker's queue
  -- and to no other, whatever the two ECN bits have become.
  pub answers_steered :
      (count worker ecn : ℕ) (s : n.State)
      → n.rules s ≡ []
      → Accepts count
      → worker < count
      → count ≤ 64
      → ecn < 4
      → let (succeeded, f) = flow_init n count (record { drop = true; nic = s }) in
        (succeeded ≡ true)
        × (queues_for (n.rules f.nic) (worker * 4 + ecn) ipproto_netccl ≡ worker ∷ [])
  unfolding flow_init after_drop
  answers_steered zero worker ecn s none_yet ok lt small he = absurd (omega arith)
  answers_steered (suc count) worker ecn s none_yet ok lt small he =
      let f : Flows n = record { drop = true; nic = s } in
      let fits : suc count % u16_mod ≡ suc count = omega (arith, small) in
      let same = ap (λ c. flow_init_from n 0 c f) fits ∙ flow_init_from-first 0 count f refl in
      let (all, rules) =
        flow_init_from-later (suc count) 0 (suc count) (after_drop f) ok (omega arith) refl in
      (
        ap (λ (r : Bool × Flows n). r.0) same ∙ all,
        ap (λ (r : Bool × Flows n). queues_for (n.rules r.1.nic) (worker * 4 + ecn) ipproto_netccl)
              same
            ∙ ap (λ l. queues_for l (worker * 4 + ecn) ipproto_netccl) rules
            ∙ after_drop_rule count worker ecn s none_yet lt small he,
      )

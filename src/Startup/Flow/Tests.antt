-- ===== src/Startup/Flow/Tests.antt =====
-- The flow rules of server/backend/main.cpp on a NIC that takes every rule.
use clean_slate_inc.Prelude.{◌≡◌, refl, true, false, List, [], ◌∷◌, ◌++◌, arith}
use clean_slate_inc.Startup.Flow.{
  FlowRule, FlowApi, queue_rule, drop_rule, flow_create, flow_init_queue, flow_init_from, flow_init,
}
use clean_slate_inc.Startup.Flow.Steering.{matches, queues_64_apart_alike}

pub refuses_nothing : (r : FlowRule) (s : List FlowRule) → true ≡ false → s ++ r ∷ [] ≡ s
refuses_nothing r s e = cc e

abbrev pub obliging : FlowApi
obliging = record {
  State = List FlowRule;
  validate = λ r s. true;
  create = λ r s. (true, s ++ r ∷ []);
  rules = λ s. s;
  create-taken = λ r s e. refl;
  create-refused = refuses_nothing;
}

two_queues :
    flow_init obliging 2 (record { drop = true; nic = [] })
    ≡ (true, record { drop = false; nic = drop_rule ∷ queue_rule 0 ∷ queue_rule 1 ∷ [] })
unfolding flow_init flow_init_from flow_init_queue flow_create
two_queues = refl

queues_64_apart_alike_example :
    matches (queue_rule 65).pattern 5 254 ≡ matches (queue_rule 1).pattern 5 254
queues_64_apart_alike_example = queues_64_apart_alike 1 5 254 (omega arith) (omega arith)

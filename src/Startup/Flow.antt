-- ===== src/Startup/Flow.antt =====
-- The flow rules that bring each answer to the queue of its worker: `flow_create`, `flow_init_queue` and
-- `flow_init` of server/backend/main.cpp. The NIC's rules are the parameter `FlowApi`: `validate` and
-- `create` say whether the NIC takes a rule, and `rules` are those that it has, oldest first. The log
-- of refusals is left out.
pub mod Steering
pub mod Rules
pub mod Taken
pub mod Tests
use clean_slate_inc.Prelude.{
  ℕ, zero, suc, ◌+◌, ◌*◌, ◌%◌, u16_mod, ◌≡◌, Bool, true, false, List, [], ◌∷◌, ◌++◌, if◌then◌else◌,
}

-- The fields of the IP header that a rule tests.
pub record IpFields : Type 0 where
  pub type_of_service : ℕ
  pub next_proto_id : ℕ

pub data FlowItem : Type 0 where
  item_end : FlowItem
  item_eth : FlowItem
  item_ipv4 : (spec mask : IpFields) → FlowItem

pub data FlowAction : Type 0 where
  action_end : FlowAction
  action_drop : FlowAction
  action_queue : ℕ → FlowAction

-- The arguments of `rte_flow_create`.
pub record FlowRule : Type 0 where
  pub ingress : Bool
  pub priority : ℕ
  pub pattern : List FlowItem
  pub actions : List FlowAction

pub record FlowApi : Type 1 where
  pub State : Type 0
  pub validate : FlowRule → State → Bool
  pub create : FlowRule → State → Bool × State
  pub rules : State → List FlowRule
  pub create-taken :
      (r : FlowRule) (s : State) → (create r s).0 ≡ true → rules (create r s).1 ≡ rules s ++ r ∷ []
  pub create-refused :
      (r : FlowRule) (s : State) → (create r s).0 ≡ false → rules (create r s).1 ≡ rules s

-- IPPROTO_NETCCL
abbrev pub ipproto_netccl : ℕ
ipproto_netccl = 254

-- What is dropped unless another rule matches.
unfoldable pub drop_rule : FlowRule
drop_rule = record {
  ingress = true;
  priority = 1;
  pattern = item_end ∷ [];
  actions = action_drop ∷ action_end ∷ [];
}

-- The fields are bytes, which `htobe` leaves as they are.
unfoldable pub queue_rule : ℕ → FlowRule
queue_rule queue_id = record {
  ingress = true;
  priority = 0;
  pattern =
      item_eth
      ∷ item_ipv4 (record { type_of_service = queue_id * 4 % 256; next_proto_id = ipproto_netccl })
          (record { type_of_service = 252; next_proto_id = 255 })
      ∷ item_end
      ∷ [];
  actions = action_queue queue_id ∷ action_end ∷ [];
}

module _ (n : FlowApi) where
  -- false is the null pointer.
  unfoldable pub flow_create : FlowRule → n.State → Bool × n.State
  flow_create r s = if n.validate r s then n.create r s else (false, s)

  -- The static variable `drop` and the NIC.
  pub record Flows : Type 0 where
    pub drop : Bool
    pub nic : n.State

  unfoldable pub flow_init_queue : ℕ → Flows → Bool × Flows
  flow_init_queue queue_id f =
      let nic = if f.drop then (flow_create drop_rule f.nic).1 else f.nic in
      let (made, nic') = flow_create (queue_rule queue_id) nic in
      (made, record { drop = false; nic = nic' })

  -- The loop of `flow_init` from queue `q` on, for `count` queues; false is the return value -1.
  unfoldable pub flow_init_from : ℕ → ℕ → Flows → Bool × Flows
  flow_init_from q zero f = (true, f)
  flow_init_from q (suc count) f =
      let (made, f') = flow_init_queue q f in
      let rest = flow_init_from (q + 1) count f' in if made then rest else (false, f')

  -- The parameter `nqueue` has 16 bits.
  unfoldable pub flow_init : ℕ → Flows → Bool × Flows
  flow_init nqueue f = flow_init_from 0 (nqueue % u16_mod) f

-- ===== src/Startup/Flow/Steering.antt =====
-- Which queue the rules of server/backend/main.cpp give a packet to.
use Prim.Native.Nat.{bit_and}
use clean_slate_inc.Prelude.{
  ℕ, zero, suc, ◌+◌, ◌*◌, ◌/◌, ◌%◌, ◌≡◌, ◌≤◌, ◌<◌, refl, sym, ap, ◌∙◌, Bool, true, ◌&&◌, List, [],
  ◌∷◌, ◌++◌, ◌==◌, if◌then◌else◌, arith, ltb, leb, false, ==_iff,
}
use native.Mathlib.Decide.{ℕ_discrete}
use clean_slate_inc.Startup.Flow.{
  FlowItem, item_end, item_eth, item_ipv4, FlowAction, action_end, action_drop, action_queue,
  FlowRule, ipproto_netccl, queue_rule,
}

-- DPDK's meaning of a pattern: every item matches, an IP field where it agrees with the item's on the
-- bits of the mask.
abbrev pub matches : List FlowItem → ℕ → ℕ → Bool
matches [] tos proto = true
matches (item_end ∷ rest) tos proto = true
matches (item_eth ∷ rest) tos proto = matches rest tos proto
matches (item_ipv4 spec mask ∷ rest) tos proto =
    (bit_and tos mask.type_of_service == bit_and spec.type_of_service mask.type_of_service)
    && (bit_and proto mask.next_proto_id == bit_and spec.next_proto_id mask.next_proto_id)
    && matches rest tos proto

abbrev queue_of : List FlowAction → List ℕ
queue_of [] = []
queue_of (action_end ∷ rest) = []
queue_of (action_drop ∷ rest) = []
queue_of (action_queue q ∷ rest) = q ∷ []

-- The queues of the rules of the highest priority that a packet matches.
abbrev pub queues_for : List FlowRule → ℕ → ℕ → List ℕ
queues_for [] tos proto = []
queues_for (r ∷ rs) tos proto =
    if r.priority == 0 && matches r.pattern tos proto
    then queue_of r.actions ++ queues_for rs tos proto
    else queues_for rs tos proto

-- Does the test hold of the values up to `k - 1`?
up_to : (ℕ → Bool) → ℕ → Bool
up_to test zero = true
up_to test (suc k) = if test k then up_to test k else false

up_to-test : (test : ℕ → Bool) (k byte : ℕ) → byte < k → up_to test k ≡ true → test byte ≡ true
unfolding up_to
up_to-test test zero byte lt passed = elim lt [ ]
up_to-test test (suc k) byte lt passed = elim (ℕ_discrete byte k) [
  | yes here ↦ rw here (ground arith)
  | no ne ↦ up_to-test test k byte (omega arith) (ground arith)
]

-- The mask of the six high bits clears the two low ones.
clears_ecn : up_to (λ byte. bit_and byte 252 == byte / 4 * 4) 256 ≡ true
unfolding up_to
clears_ecn = refl

bit_and-mask : (t : ℕ) → t < 256 → bit_and t 252 ≡ t / 4 * 4
bit_and-mask t h = (==_iff (bit_and t 252) (t / 4 * 4)).0 (up_to-test _ 256 t h clears_ecn)

keeps_byte : up_to (λ byte. bit_and byte 255 == byte) 256 ≡ true
unfolding up_to
keeps_byte = refl

bit_and-byte : (t : ℕ) → t < 256 → bit_and t 255 ≡ t
bit_and-byte t h = (==_iff (bit_and t 255) t).0 (up_to-test _ 256 t h keeps_byte)

-- The rule of queue `q` matches the packets of the protocol whose six high bits of the type of service
-- are those of `q`.
pub matches-queue_rule :
    (q tos proto : ℕ)
    → tos < 256
    → proto < 256
    → matches (queue_rule q).pattern tos proto ≡ ((tos / 4 == q % 64) && (proto == ipproto_netccl))
unfolding queue_rule
matches-queue_rule q tos proto ht hp = ground (
  arith,
  bit_and-mask tos ht,
  bit_and-mask (q * 4 % 256) (omega arith),
  bit_and-byte proto hp,
  bit_and-byte 254 (omega arith),
)

-- The rules of `count` queues from `q` on.
abbrev pub queue_rules : ℕ → ℕ → List FlowRule
queue_rules q zero = []
queue_rules q (suc count) = queue_rule q ∷ queue_rules (q + 1) count

-- The rules of two queues whose numbers are 64 apart match exactly the same packets of one-byte fields.
pub queues_64_apart_alike :
    (q tos proto : ℕ)
    → tos < 256
    → proto < 256
    → matches (queue_rule (q + 64)).pattern tos proto ≡ matches (queue_rule q).pattern tos proto
queues_64_apart_alike q tos proto ht hp =
    matches-queue_rule (q + 64) tos proto ht hp
    ∙ ap (λ k. (tos / 4 == k) && (proto == ipproto_netccl)) (omega arith)
    ∙ sym (matches-queue_rule q tos proto ht hp)

priority-queue_rule :
    (q : ℕ) → ((queue_rule q).priority ≡ 0) × (queue_of (queue_rule q).actions ≡ q ∷ [])
unfolding queue_rule
priority-queue_rule q = (refl, refl)

-- Of the rules of the queues from `q` to `q + count`, at most 64, one packet matches at most one.
pub queues_for-queue_rules :
    (q count tos : ℕ)
    → q + count ≤ 64
    → tos < 256
    → queues_for (queue_rules q count) tos ipproto_netccl
      ≡ (if leb q (tos / 4) && ltb (tos / 4) (q + count) then tos / 4 ∷ [] else [])
queues_for-queue_rules q zero tos le ht = ground arith
queues_for-queue_rules q (suc count) tos le ht =
    let (first, own) = priority-queue_rule q in
    let m = matches-queue_rule q tos ipproto_netccl ht (omega arith) in
    ground (arith, first, own, m, queues_for-queue_rules (q + 1) count tos)

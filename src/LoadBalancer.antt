-- ===== src/LoadBalancer.antt =====
-- The load balancer of the backend, which cuts each operation into one part for each worker and
-- completes it when all parts are done: server/backend/load_balancer.cpp, and `sub_op_t` of
-- server/backend/common.hpp. Operations are read in the shared memory `ops`, by their addresses;
-- a `sub_op_t *` is the structure, which nothing changes after its construction.
pub mod Split
pub mod Lockstep
pub mod System
mod Tests
use clean_slate_inc.Prelude.{
  ℕ, suc, zero, ◌+◌, ◌*◌, ◌/◌, ◌%◌, ◌-◌, Bool, true, false, ◌||◌, Option, none, some, List, [], ◌∷◌,
  ◌>>=◌, ◌>>◌, assert, ltb, ◌==◌, if◌then◌else◌, add32, mul32, u16_mod, length,
}
use clean_slate_inc.Op.{Op, op_all_reduce, op_reduce}
use clean_slate_inc.QueuePair.{
  Spsc, QueuePair, push_req, front_req, pop_req, push_resp, front_resp, pop_resp,
}

-- `struct sub_op_t`; `op` and `data` are addresses.
pub record SubOp : Type 0 where
  pub op : ℕ
  pub data_addr : ℕ
  pub size : ℕ
  pub agg_addr : ℕ
  pub agg_len : ℕ

-- The part of worker `i`, whose data begin `offset` bytes into those of the operation.
unfoldable pub sub_op_at : ℕ → Op → ℕ → ℕ → ℕ → SubOp
sub_op_at addr op nworker i offset =
    let size_in_int32 = op.size / 4 in
    let additional_size = op.size % 4 in
    let sub_size_in_int32 =
      add32 (size_in_int32 / nworker) (if ltb i (size_in_int32 % nworker) then 1 else 0) in
    let whole = mul32 sub_size_in_int32 4 in
    let sub_size = if i == nworker - 1 then add32 whole additional_size else whole in
    let agg_len = op.group.agg_len / nworker in
    record {
      op = addr;
      data_addr = op.shm_buffer + offset;
      size = sub_size;
      agg_addr = (op.group.agg_addr + agg_len * i) % u16_mod;
      agg_len = agg_len;
    }

-- `A` and `B` are the queues of addresses and of parts.
pub record LoadBalancer (A B : Type 0) : Type 0 where
  pub shm_qp : QueuePair A
  pub worker_qps : List (QueuePair B)

module _ (b : Spsc SubOp) where
  -- The loop that posts the parts, from worker `i` on. What `push_req` returns is not looked at.
  unfoldable pub post_from :
      ℕ → Op → ℕ → ℕ → ℕ → List (QueuePair b.Queue) → Option (List (QueuePair b.Queue))
  post_from addr op nworker i offset [] = some []
  post_from addr op nworker i offset (qp ∷ qps) = do
    let sub_op = sub_op_at addr op nworker i offset
    (_, qp') ← push_req b sub_op qp
    qps' ← post_from addr op nworker (i + 1) (add32 offset sub_op.size) qps
    some (qp' ∷ qps')

  -- The first loop of `try_complete_op`: has every worker a response?
  unfoldable pub all_answered : List (QueuePair b.Queue) → Bool
  all_answered [] = true
  all_answered (qp ∷ qps) = elim (front_resp b qp) [ none ↦ false | some _ ↦ all_answered qps ]

  -- The second loop: take a response of every worker; the result has the operation of the last.
  -- The variable `op` holds nothing before the first round, and a null `sub_op` cannot be read.
  unfoldable pub collect_from :
      Option ℕ → List (QueuePair b.Queue) → Option (Option ℕ × List (QueuePair b.Queue))
  collect_from op [] = some (op, [])
  collect_from op (qp ∷ qps) = do
    sub_op ← front_resp b qp
    qp' ← pop_resp b qp
    (op', qps') ← collect_from (some sub_op.op) qps
    some (op', qp' ∷ qps')

module _ (a : Spsc ℕ) (b : Spsc SubOp) where
  unfoldable pub try_post_op :
      (ℕ → Op) → LoadBalancer a.Queue b.Queue → Option (Bool × LoadBalancer a.Queue b.Queue)
  try_post_op ops lb = elim (front_req a lb.shm_qp) [
    | none ↦ some (false, lb)
    | some addr ↦ do
      let op = ops addr
      shm_qp ← pop_req a lb.shm_qp
      assert (
          if op.op_code == op_all_reduce || op.op_code == op_reduce then op.size % 4 == 0 else true)
      qps ← post_from b addr op (length lb.worker_qps) 0 0 lb.worker_qps
      some (true, record { shm_qp = shm_qp; worker_qps = qps })
  ]

  unfoldable pub try_complete_op :
      LoadBalancer a.Queue b.Queue → Option (Bool × LoadBalancer a.Queue b.Queue)
  try_complete_op lb =
      if all_answered b lb.worker_qps
      then (do
        (found, qps) ← collect_from b none lb.worker_qps
        op ← found
        (_, shm_qp) ← push_resp a op lb.shm_qp
        some (true, record { shm_qp = shm_qp; worker_qps = qps }))
      else some (false, lb)

  -- A round of the loop of `load_balancer`, with what it counts as progress.
  unfoldable pub balance_round :
      (ℕ → Op) → LoadBalancer a.Queue b.Queue → Option (Bool × LoadBalancer a.Queue b.Queue)
  balance_round ops lb = do
    (completed, lb') ← try_complete_op lb
    (posted, lb'') ← try_post_op ops lb'
    some (completed || posted, lb'')

module _ (a : Spsc ℕ) where
  -- The test loop of NETCCL_LB_LOOPBACK: one round.
  unfoldable pub loopback_round : QueuePair a.Queue → Option (QueuePair a.Queue)
  loopback_round qp = elim (front_req a qp) [
    | none ↦ some qp
    | some op ↦ do qp' ← pop_req a qp; (_, qp'') ← push_resp a op qp'; some qp''
  ]

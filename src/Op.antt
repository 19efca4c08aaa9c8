-- ===== src/Op.antt =====
-- The collective operation that the frontend hands to the backend: server/common/common.hpp.
-- An `op_t *` is an address; whoever reads an operation takes the memory that holds it.
use clean_slate_inc.Prelude.{ℕ, Bool, not, ◌&&◌, ◌||◌, ◌==◌}

-- `enum OP_CODE`; `op_code_t` is a byte, so a code is a number.
abbrev pub op_all_reduce : ℕ
op_all_reduce = 1

abbrev pub op_reduce : ℕ
op_reduce = 2

abbrev pub op_broadcast : ℕ
op_broadcast = 3

abbrev pub op_reduce_scatter : ℕ
op_reduce_scatter = 4

abbrev pub op_all_gather : ℕ
op_all_gather = 5

-- `struct group_t`
pub record Group : Type 0 where
  pub group_id : ℕ
  pub size : ℕ
  pub rank : ℕ
  pub agg_addr : ℕ
  pub agg_len : ℕ
  pub switch_ip : ℕ

-- `struct op_t`; the two pointers are addresses.
pub record Op : Type 0 where
  pub op_code : ℕ
  pub root : ℕ
  pub size : ℕ
  pub shm_buffer : ℕ
  pub group : Group
  pub op_with_fut : ℕ

unfoldable pub need_tx : Op → Bool
need_tx op =
    op.op_code == op_all_reduce
    || (op.op_code == op_reduce && not (op.root == op.group.rank))
    || (op.op_code == op_broadcast && op.root == op.group.rank)

unfoldable pub need_rx : Op → Bool
need_rx op =
    op.op_code == op_all_reduce
    || (op.op_code == op_reduce && op.root == op.group.rank)
    || (op.op_code == op_broadcast && not (op.root == op.group.rank))

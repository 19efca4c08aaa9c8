-- ===== src/LoadBalancer/Tests.antt =====
-- The load balancer on a concrete operation with two workers, and its theorems there:
-- server/backend/load_balancer.cpp.
use clean_slate_inc.Prelude.{ℕ, ◌*◌, ◌≤◌, ◌≡◌, refl, [], ◌∷◌, arith}
use clean_slate_inc.Op.{Op, Group}
use clean_slate_inc.LoadBalancer.{SubOp, sub_op_at}
use clean_slate_inc.LoadBalancer.Split.{sub_ops, CoversData, CoversSlots, parts_cover}

abbrev group : Group
group = record { group_id = 1; size = 2; rank = 0; agg_addr = 100; agg_len = 64; switch_ip = 5 }

-- 22 bytes at address 1000: five words and two bytes.
abbrev op : Op
op = record { op_code = 3; root = 0; size = 22; shm_buffer = 1000; group = group; op_with_fut = 0 }

abbrev part : ℕ → ℕ → ℕ → SubOp
part data_addr size agg_addr = record {
  op = 40;
  data_addr = data_addr;
  size = size;
  agg_addr = agg_addr;
  agg_len = 32;
}

two_parts : sub_ops 40 op 2 0 0 2 ≡ part 1000 12 100 ∷ part 1012 10 132 ∷ []
unfolding sub_ops sub_op_at
two_parts = refl

parts_cover_example :
    CoversData 1000 1022 (sub_ops 40 op 2 0 0 2)
    × CoversSlots 32 100 164 (sub_ops 40 op 2 0 0 2)
    × (32 * 2 ≤ 64)
parts_cover_example = parts_cover 40 op 2 (omega arith) (omega arith) (omega arith) (omega arith)

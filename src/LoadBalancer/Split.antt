-- ===== src/LoadBalancer/Split.antt =====
-- How an operation is cut into parts: the parts cover its data without gap or overlap, and own
-- disjoint slices of the group's switch memory: server/backend/load_balancer.cpp, `try_post_op`.
use clean_slate_inc.Prelude.{
  ℕ, zero, suc, ◌+◌, ◌-◌, ◌*◌, ◌/◌, ◌%◌, ◌<◌, ◌≤◌, ◌≡◌, refl, List, [], ◌∷◌, arith, add32, u32_mod,
  u16_mod, ltb, if◌then◌else◌, ◌==◌, sym, ◌∙◌, ap,
}
use clean_slate_inc.Op.{Op}
use clean_slate_inc.LoadBalancer.{SubOp, sub_op_at}

-- The parts for the workers from `i` on, `k` of them.
unfoldable pub sub_ops : ℕ → Op → ℕ → ℕ → ℕ → ℕ → List SubOp
sub_ops addr op nworker i offset zero = []
sub_ops addr op nworker i offset (suc k) =
    let sub_op = sub_op_at addr op nworker i offset in
    sub_op ∷ sub_ops addr op nworker (i + 1) (add32 offset sub_op.size) k

-- The data of the parts lie end to end from `a` to `b`.
abbrev pub CoversData : ℕ → ℕ → List SubOp → Type 0
CoversData a b [] = a ≡ b
CoversData a b (s ∷ ss) = (s.data_addr ≡ a) × CoversData (a + s.size) b ss

-- The switch slots of the parts lie end to end from `a` to `b`, and are `len` each.
abbrev pub CoversSlots : ℕ → ℕ → ℕ → List SubOp → Type 0
CoversSlots len a b [] = a ≡ b
CoversSlots len a b (s ∷ ss) = (s.agg_addr ≡ a) × (s.agg_len ≡ len) × CoversSlots len (a + len) b ss

half_quotient : (q n : ℕ) → 2 ≤ n → 2 * (q / n) ≤ q
half_quotient q n h = grind arith

-- The bytes of worker `i`: a share of the words, one more for the first workers, and the bytes that
-- make no word for the last. Nothing wraps.
pub size-sub_op_at :
    (addr : ℕ) (op : Op) (n i offset : ℕ)
    → op.size < u32_mod
    → i < n
    → (sub_op_at addr op n i offset).size
      ≡ 4 * (op.size / 4 / n)
        + (if ltb i (op.size / 4 % n) then 4 else 0)
        + (if i == n - 1 then op.size % 4 else 0)
unfolding sub_op_at
size-sub_op_at addr op n i offset h lt = ground (arith, half_quotient (op.size / 4) n)

data_addr-sub_op_at :
    (addr : ℕ) (op : Op) (n i offset : ℕ)
    → (sub_op_at addr op n i offset).data_addr ≡ op.shm_buffer + offset
unfolding sub_op_at
data_addr-sub_op_at addr op n i offset = refl

module _ (addr : ℕ) (op : Op) (n : ℕ) (small : op.size < u32_mod) where
  -- The bytes of the workers from `i` on, `k` of them, `k` not 0.
  abbrev left_bytes : ℕ → ℕ → ℕ
  left_bytes i k = 4 * (k * (op.size / 4 / n)) + 4 * (op.size / 4 % n - i) + op.size % 4

  covers_from :
      (k i offset a : ℕ)
      → i + suc k ≡ n
      → offset + left_bytes i (suc k) ≡ op.size
      → a ≡ op.shm_buffer + offset
      → CoversData a (op.shm_buffer + op.size) (sub_ops addr op n i offset (suc k))
  unfolding sub_ops
  covers_from zero i offset a e t b =
      let size = size-sub_op_at addr op n i offset small (omega arith) in
      (data_addr-sub_op_at addr op n i offset ∙ sym b, ground (arith, size))
  covers_from (suc k) i offset a e t b =
      let size = size-sub_op_at addr op n i offset small (omega arith) in
      let bytes = (sub_op_at addr op n i offset).size in
      let rest : offset + bytes + left_bytes (i + 1) (suc k) ≡ op.size = ground (arith, size) in
      let next : add32 offset bytes ≡ offset + bytes = omega arith in
      (
        data_addr-sub_op_at addr op n i offset ∙ sym b,
        covers_from k (i + 1) (add32 offset bytes) (a + bytes) (omega arith) (omega arith)
            (omega arith),
      )

  slots_room :
      (i : ℕ)
      → op.group.agg_addr < u16_mod
      → op.group.agg_addr + op.group.agg_len ≤ u16_mod
      → i < n
      → op.group.agg_addr + op.group.agg_len / n * i < u16_mod
  slots_room i g h lt =
      let len = op.group.agg_len / n in
      let total : len * n ≤ op.group.agg_len = grind arith in
      let mine : len * i + len ≤ len * n = grind arith in grind arith

  slots_from :
      (k i offset a b : ℕ)
      → op.group.agg_addr < u16_mod
      → op.group.agg_addr + op.group.agg_len ≤ u16_mod
      → i + k ≡ n
      → a ≡ op.group.agg_addr + op.group.agg_len / n * i
      → b ≡ op.group.agg_addr + op.group.agg_len / n * n
      → CoversSlots (op.group.agg_len / n) a b (sub_ops addr op n i offset k)
  unfolding sub_ops sub_op_at
  slots_from zero i offset a b g h e p q =
      let same : i ≡ n = omega arith in
      p ∙ ap (λ j. op.group.agg_addr + op.group.agg_len / n * j) same ∙ sym q
  slots_from (suc k) i offset a b g h e p q = (
    omega (arith, slots_room i g h (omega arith)),
    refl,
    slots_from k (i + 1) _ (a + op.group.agg_len / n) b g h (omega arith) (omega arith) q,
  )

-- For any operation of less than 4 GiB, any number of workers and any slots of the group inside the
-- 16-bit range, the data of the parts lie end to end and cover the operation's buffer exactly; the
-- switch slots of the parts, as many for each worker, lie end to end from the start of the group's
-- and stay inside them.
pub parts_cover :
    (addr : ℕ) (op : Op) (n : ℕ)
    → op.size < u32_mod
    → 0 < n
    → op.group.agg_addr < u16_mod
    → op.group.agg_addr + op.group.agg_len ≤ u16_mod
    → CoversData op.shm_buffer (op.shm_buffer + op.size) (sub_ops addr op n 0 0 n)
      × CoversSlots
          (op.group.agg_len / n)
          op.group.agg_addr
          (op.group.agg_addr + op.group.agg_len / n * n)
          (sub_ops addr op n 0 0 n)
      × (op.group.agg_len / n * n ≤ op.group.agg_len)
parts_cover addr op zero small pos g room = absurd (omega arith)
parts_cover addr op (suc k) small pos g room = (
  covers_from addr op (suc k) small k 0 0 op.shm_buffer (omega arith) (omega arith) (omega arith),
  slots_from addr op (suc k) small (suc k) 0 0 op.group.agg_addr _ g room (omega arith)
      (omega arith) refl,
  omega arith,
)

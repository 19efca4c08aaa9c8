-- ===== src/Frontend/Slots.antt =====
-- The operations of the frontend that are not yet destroyed, the elements of the operation buffer that
-- hold them, and their chunks of the copy buffer: server/frontend/src/c/common.hpp, `op_buffer_t`.
use clean_slate_inc.Prelude.{
  ℕ, zero, suc, ◌+◌, ◌%◌, ◌≡◌, ◌≢◌, ◌<◌, ◌≤◌, refl, All, List, [], ◌∷◌, ◌++◌, ◌==◌, if◌then◌else◌,
  length, arith, ◌∙◌, ap, sym,
}
use clean_slate_inc.Op.{Op}
use clean_slate_inc.QueuePair.{queue_size}
use clean_slate_inc.CopyBuffer.Live.{Chunk}
use clean_slate_inc.Frontend.{OpWithFut}

-- The operations lie in consecutive elements of the ring from `slot` on, the oldest first, and each
-- has its chunk.
pub data Slots (buffer : ℕ → Op) : ℕ → List OpWithFut → List Chunk → Type 0 where
  done : {slot : ℕ} → Slots buffer slot [] []
  live :
      {slot : ℕ} {x : OpWithFut} {xs : List OpWithFut} {c : Chunk} {cs : List Chunk}
      → x.op ≡ slot
      → (buffer slot).size ≡ c.size
      → (buffer slot).shm_buffer ≡ c.start
      → Slots buffer ((slot + 1) % queue_size) xs cs
      → Slots buffer slot (x ∷ xs) (c ∷ cs)

abbrev pub write : (ℕ → Op) → ℕ → Op → ℕ → Op
write buffer slot op i = if i == slot then op else buffer i

pub write_ne : (buffer : ℕ → Op) (p : ℕ) (op : Op) (i : ℕ) → i ≢ p → write buffer p op i ≡ buffer i
write_ne buffer p op i h = ground arith

pub write_self : (buffer : ℕ → Op) (p : ℕ) (op : Op) → write buffer p op p ≡ op
write_self buffer p op = ground arith

-- Writing an element behind the live ones does not disturb them.
pub Slots-write :
    {buffer : ℕ → Op} {slot : ℕ} {xs : List OpWithFut} {cs : List Chunk} (p m : ℕ) (op : Op)
    → Slots buffer slot xs cs
    → slot < queue_size
    → p ≡ (slot + m) % queue_size
    → length xs ≤ m
    → m < queue_size
    → Slots (write buffer p op) slot xs cs
Slots-write p m op done h e le lt = done
Slots-write {buffer} {slot} p zero op (live {xs = xs} a b c r) h e le lt = absurd (omega arith)
Slots-write {buffer} {slot} p (suc m) op (live {xs = xs} a b c r) h e le lt =
    let same : write buffer p op slot ≡ buffer slot =
      write_ne buffer p op slot (λ s. absurd (omega arith)) in
    live a (ap (λ (o : Op). o.size) same ∙ b) (ap (λ (o : Op). o.shm_buffer) same ∙ c)
      (Slots-write p m op r (omega arith) (omega arith) (omega arith) (omega arith))

-- The element behind the live ones joins them.
pub Slots-append :
    {buffer : ℕ → Op} {slot : ℕ} {xs : List OpWithFut} {cs : List Chunk} (x : OpWithFut) (c : Chunk)
    → Slots buffer slot xs cs
    → slot < queue_size
    → x.op ≡ (slot + length xs) % queue_size
    → (buffer x.op).size ≡ c.size
    → (buffer x.op).shm_buffer ≡ c.start
    → Slots buffer slot (xs ++ x ∷ []) (cs ++ c ∷ [])
Slots-append {buffer} {slot} x c done h e size start =
    let here : x.op ≡ slot = omega arith in
    live here (ap (λ i. (buffer i).size) (sym here) ∙ size)
      (ap (λ i. (buffer i).shm_buffer) (sym here) ∙ start) done
Slots-append x c (live {xs = xs} a b d r) h e size start =
    live a b d (Slots-append x c r (omega arith) (omega arith) size start)

-- The oldest operation and its chunk.
pub Slots-oldest :
    {buffer : ℕ → Op} {slot : ℕ} {x : OpWithFut} {xs : List OpWithFut} {cs : List Chunk}
    → Slots buffer slot (x ∷ xs) cs
    → (c : Chunk) × (rest : List Chunk) × (cs ≡ c ∷ rest)
      × ((buffer x.op).size ≡ c.size)
      × Slots buffer ((slot + 1) % queue_size) xs rest
Slots-oldest {buffer} (live {c = c} {cs = cs} a b d r) =
    (c, cs, refl, ap (λ i. (buffer i).size) a ∙ b, r)

-- The element behind the live ones is none of theirs.
pub Slots-behind :
    {buffer : ℕ → Op} {slot : ℕ} {xs : List OpWithFut} {cs : List Chunk} (p m : ℕ)
    → Slots buffer slot xs cs
    → slot < queue_size
    → p ≡ (slot + m) % queue_size
    → length xs ≤ m
    → m < queue_size
    → All (λ (y : OpWithFut). y.op ≢ p) xs
Slots-behind p m done h e le lt = tt
Slots-behind p zero (live {xs = xs} a b c r) h e le lt = absurd (omega arith)
Slots-behind p (suc m) (live a b c r) h e le lt = (
  λ same. absurd (omega (arith, a, same)),
  Slots-behind p m r (omega arith) (omega arith) (omega arith) (omega arith),
)

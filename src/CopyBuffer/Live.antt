-- ===== src/CopyBuffer/Live.antt =====
-- The chunks that are out, oldest first, and what `fifo_allocate` and `fifo_free` do to them:
-- server/frontend/src/c/common.hpp, `copy_buffer_t`.
use clean_slate_inc.Prelude.{ℕ, ◌+◌, ◌≤◌, ◌<◌, ◌≡◌, ◌⊎◌, inl, inr, List, [], ◌∷◌, ◌++◌, arith, All}
use clean_slate_inc.CopyBuffer.{CopyBuffer, shm_copy_buffer_size}

pub record Chunk : Type 0 where
  pub start : ℕ
  pub size : ℕ

abbrev pub chunk : ℕ → ℕ → Chunk
chunk start size = record { start = start; size = size }

-- The chunks lie end to end from `a` to `b`.
abbrev pub Tiles : ℕ → ℕ → List Chunk → Type 0
Tiles a b [] = a ≡ b
Tiles a b (c ∷ cs) = (c.start ≡ a) × Tiles (a + c.size) b cs

-- Either the chunks tile [tail, head], or the older ones tile [tail, last] and the younger ones
-- [0, head], the first of which did not fit behind `last`.
pub data Holds (b : CopyBuffer) (cs : List Chunk) : Type 0 where
  straight : b.head ≤ shm_copy_buffer_size → Tiles b.tail b.head cs → Holds b cs
  wrapped :
      (xs : List Chunk) (last : ℕ) (y : Chunk) (ys : List Chunk)
      → cs ≡ xs ++ (y ∷ ys)
      → Tiles b.tail last xs
      → last ≤ shm_copy_buffer_size
      → Tiles 0 b.head (y ∷ ys)
      → shm_copy_buffer_size + 1 < last + y.size
      → b.head < b.tail
      → Holds b cs

pub Tiles-le : (a b : ℕ) (cs : List Chunk) → Tiles a b cs → a ≤ b
Tiles-le a b [] t = omega arith
Tiles-le a b (c ∷ cs) t = omega (arith, Tiles-le (a + c.size) b cs t.1)

pub Tiles-append :
    (a b n : ℕ) (cs : List Chunk) → Tiles a b cs → Tiles a (b + n) (cs ++ chunk b n ∷ [])
Tiles-append a b n [] t = omega arith
Tiles-append a b n (c ∷ cs) t = (t.0, Tiles-append (a + c.size) b n cs t.1)

-- Two chunks share no byte.
abbrev pub Disjoint : Chunk → Chunk → Type 0
Disjoint c d = (c.start + c.size ≤ d.start) ⊎ (d.start + d.size ≤ c.start)

abbrev pub Within : ℕ → ℕ → Chunk → Type 0
Within a b c = (a ≤ c.start) × (c.start + c.size ≤ b)

pub Within-mono :
    (a b a' b' : ℕ) (cs : List Chunk)
    → a' ≤ a
    → b ≤ b'
    → All (Within a b) cs
    → All (Within a' b') cs
Within-mono a b a' b' [] h k w = tt
Within-mono a b a' b' (c ∷ cs) h k w = (omega arith, Within-mono a b a' b' cs h k w.1)

pub Tiles-Within : (a b : ℕ) (cs : List Chunk) → Tiles a b cs → All (Within a b) cs
Tiles-Within a b [] t = tt
Tiles-Within a b (c ∷ cs) t =
    let le : a + c.size ≤ b = Tiles-le (a + c.size) b cs t.1 in
    (
      omega arith,
      Within-mono (a + c.size) b a b cs (omega arith) (omega arith)
          (Tiles-Within (a + c.size) b cs t.1),
    )

pub All-append {ℓ κ} :
    {A : Type ℓ} (P : A → Type κ) (xs ys : List A) → All P xs → All P ys → All P (xs ++ ys)
All-append P [] ys hx hy = hy
All-append P (x ∷ xs) ys hx hy = (hx.0, All-append P xs ys hx.1 hy)

-- Chunks of a range are disjoint from a chunk above it, and from one below it.
pub Disjoint-above :
    (a b : ℕ) (c : Chunk) (cs : List Chunk)
    → b ≤ c.start
    → All (Within a b) cs
    → All (Disjoint c) cs
Disjoint-above a b c [] h w = tt
Disjoint-above a b c (d ∷ cs) h w = (inr (omega arith), Disjoint-above a b c cs h w.1)

pub Disjoint-below :
    (a b : ℕ) (c : Chunk) (cs : List Chunk)
    → c.start + c.size ≤ a
    → All (Within a b) cs
    → All (Disjoint c) cs
Disjoint-below a b c [] h w = tt
Disjoint-below a b c (d ∷ cs) h w = (inl (omega arith), Disjoint-below a b c cs h w.1)

-- Every chunk is disjoint from all younger ones.
abbrev pub Apart : List Chunk → Type 0
Apart [] = Unit
Apart (c ∷ cs) = All (Disjoint c) cs × Apart cs

pub Tiles-Apart : (a b : ℕ) (cs : List Chunk) → Tiles a b cs → Apart cs
Tiles-Apart a b [] t = tt
Tiles-Apart a b (c ∷ cs) t = (
  Disjoint-below (a + c.size) b c cs (omega arith) (Tiles-Within (a + c.size) b cs t.1),
  Tiles-Apart (a + c.size) b cs t.1,
)

pub Apart-append :
    (a b b' : ℕ) (xs ys : List Chunk)
    → Tiles a b xs
    → All (Within 0 b') ys
    → b' ≤ a
    → Apart ys
    → Apart (xs ++ ys)
Apart-append a b b' [] ys t w h p = p
Apart-append a b b' (x ∷ xs) ys t w h p = (
  All-append (Disjoint x) xs ys
      (Disjoint-below (a + x.size) b x xs (omega arith) (Tiles-Within (a + x.size) b xs t.1))
      (Disjoint-above 0 b' x ys (omega arith) w),
  Apart-append (a + x.size) b b' xs ys t.1 w (omega arith) p,
)

-- No two live chunks share a byte.
pub Holds-Apart : {b : CopyBuffer} {cs : List Chunk} → Holds b cs → Apart cs
Holds-Apart {b} {cs} (straight h t) = Tiles-Apart b.tail b.head cs t
Holds-Apart {b} (wrapped xs last y ys e t h u far lt) = rw e (
    Apart-append b.tail last b.head xs (y ∷ ys) t (Tiles-Within 0 b.head (y ∷ ys) u) (omega arith)
      (Tiles-Apart 0 b.head (y ∷ ys) u))

-- Every live chunk lies inside `buffer`.
pub Holds-Within :
    {b : CopyBuffer} {cs : List Chunk} → Holds b cs → All (Within 0 (shm_copy_buffer_size + 1)) cs
Holds-Within {b} {cs} (straight h t) =
    Within-mono b.tail b.head 0 (shm_copy_buffer_size + 1) cs (omega arith) (omega arith)
      (Tiles-Within b.tail b.head cs t)
Holds-Within {b} (wrapped xs last y ys e t h u far lt) =
    let le : b.tail ≤ last = Tiles-le b.tail last xs t in
    rw e (
      All-append _ xs (y ∷ ys)
        (Within-mono b.tail last 0 (shm_copy_buffer_size + 1) xs (omega arith) (omega arith)
          (Tiles-Within b.tail last xs t))
        (Within-mono 0 b.head 0 (shm_copy_buffer_size + 1) (y ∷ ys) (omega arith) (omega arith)
          (Tiles-Within 0 b.head (y ∷ ys) u)))

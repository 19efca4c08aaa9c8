-- ===== src/CopyBuffer/Steps.antt =====
-- What `fifo_allocate` and `fifo_free` do to the live chunks, and what holds after any sequence of
-- calls: server/frontend/src/c/common.hpp, `copy_buffer_t`.
use clean_slate_inc.Prelude.{
  ℕ, ◌+◌, ◌≤◌, ◌<◌, ◌≡◌, refl, ◌≢◌, ◌⊎◌, inl, inr, List, [], ◌∷◌, ◌++◌, none, some, arith,
  append_assoc, subst, ◌*◌, All, Option-cases,
}
use clean_slate_inc.CopyBuffer.{
  CopyBuffer, shm_copy_buffer_size, empty, available, fifo_allocate, fifo_free,
}
use clean_slate_inc.CopyBuffer.Live.{
  Chunk, chunk, Holds, straight, wrapped, Tiles-le, Tiles-append, Within, Apart, Holds-Apart,
  Holds-Within,
}

pub Holds-bounds :
    {b : CopyBuffer} {cs : List Chunk}
    → Holds b cs
    → (b.head ≤ shm_copy_buffer_size) × (b.tail ≤ shm_copy_buffer_size)
Holds-bounds {b} {cs} (straight h t) = omega (arith, Tiles-le b.tail b.head cs t)
Holds-bounds {b} (wrapped xs last y ys e t h u far lt) = omega (arith, Tiles-le b.tail last xs t)

-- The three ways in which an allocation succeeds.
abbrev pub Placed : CopyBuffer → ℕ → ℕ → CopyBuffer → Type 0
Placed b size start b' =
    ((b.head + size ≤ shm_copy_buffer_size)
      × (start ≡ b.head)
      × (b'.head ≡ b.head + size)
      × (b'.tail ≡ b.tail)
      × ((b.head < b.tail) → b.head + size < b.tail))
    ⊎ ((b.head + size ≡ shm_copy_buffer_size + 1)
        × (start ≡ b.head)
        × (b'.head ≡ 0)
        × (b'.tail ≡ b.tail))
    ⊎ ((shm_copy_buffer_size + 1 < b.head + size)
        × (start ≡ 0)
        × (b'.head ≡ size)
        × (b'.tail ≡ b.tail)
        × (b.tail ≤ b.head)
        × (size < b.tail))

pub fifo_allocate-Placed :
    (b : CopyBuffer) (size start : ℕ) {b' : CopyBuffer}
    → b.head ≤ shm_copy_buffer_size
    → b.tail ≤ shm_copy_buffer_size
    → fifo_allocate size b ≡ (some start, b')
    → Placed b size start b'
unfolding fifo_allocate
fifo_allocate-Placed b size start h t e = ground arith

-- A chunk that does not end on the last byte of the buffer joins the live ones.
pub fifo_allocate-Holds :
    (b : CopyBuffer) (cs : List Chunk) (size start : ℕ) {b' : CopyBuffer}
    → Holds b cs
    → fifo_allocate size b ≡ (some start, b')
    → start + size ≢ shm_copy_buffer_size + 1
    → Holds b' (cs ++ chunk start size ∷ [])
fifo_allocate-Holds b cs size start {b'} v e ne =
    place v (fifo_allocate-Placed b size start (Holds-bounds v).0 (Holds-bounds v).1 e)
  where
    place : Holds b cs → Placed b size start b' → Holds b' (cs ++ chunk start size ∷ [])
    place (straight h t) (inl p) =
        rw p.1 (straight (omega arith) (rw (p.2, p.3) (Tiles-append b.tail b.head size cs t)))
    place v (inr (inl p)) = absurd (ne (omega arith))
    place (straight h t) (inr (inr p)) =
        wrapped cs b.head (chunk 0 size) [] (rw p.1) (rw p.3 t) h (refl, rw p.2 (omega arith))
          (omega arith) (omega arith)
    place (wrapped xs last y ys q t h u far lt) (inl p) =
        wrapped xs last y (ys ++ chunk b.head size ∷ [])
          (rw (q, p.1) (append_assoc xs (y ∷ ys) (chunk b.head size ∷ []))) (rw p.3 t) h
          (rw p.2 (Tiles-append 0 b.head size (y ∷ ys) u)) far (omega arith)
    place (wrapped xs last y ys q t h u far lt) (inr (inr p)) = absurd (omega arith)

-- Freeing the oldest live chunk passes every assertion and leaves the others live.
pub fifo_free-Holds :
    (b : CopyBuffer) (c : Chunk) (cs : List Chunk)
    → Holds b (c ∷ cs)
    → (b' : CopyBuffer) × (fifo_free c.size b ≡ some b') × Holds b' cs
unfolding fifo_free
fifo_free-Holds b c cs (straight h t) =
    let le : b.tail + c.size ≤ b.head = Tiles-le (b.tail + c.size) b.head cs t.1 in
    (record b { tail = b.tail + c.size }, ground arith, straight h t.1)
fifo_free-Holds b c cs (wrapped [] last y ys q t h u far lt) =
    let le : 0 + y.size ≤ b.head = Tiles-le (0 + y.size) b.head ys u.1 in
    let same : c ≡ y = cc in
    (
      record b { tail = 0 + y.size },
      ground arith,
      straight (omega arith) (let rest : cs ≡ ys = cc in rw rest u.1),
    )
fifo_free-Holds b c cs (wrapped (x ∷ xs) last y ys q t h u far lt) =
    let le : b.tail + x.size ≤ last = Tiles-le (b.tail + x.size) last xs t.1 in
    let same : c ≡ x = cc in
    (
      record b { tail = b.tail + x.size },
      ground arith,
      wrapped xs last y ys (cc) t.1 h u far (omega arith),
    )

-- The states that calls lead to, with the live chunks, oldest first. A chunk is freed by its size,
-- in the order of allocation, and no chunk ends on the last byte of the buffer.
pub data Reach : CopyBuffer → List Chunk → Type 0 where
  init : Reach empty []
  allocate :
      {b b' : CopyBuffer} {cs : List Chunk} (size start : ℕ)
      → Reach b cs
      → fifo_allocate size b ≡ (some start, b')
      → start + size ≢ shm_copy_buffer_size + 1
      → Reach b' (cs ++ chunk start size ∷ [])
  free :
      {b b' : CopyBuffer} {c : Chunk} {cs : List Chunk}
      → Reach b (c ∷ cs)
      → fifo_free c.size b ≡ some b'
      → Reach b' cs

pub Reach-Holds : {b : CopyBuffer} {cs : List Chunk} → Reach b cs → Holds b cs
unfolding empty
Reach-Holds init = straight (omega arith) refl
Reach-Holds (allocate {b = b} {cs = cs} size start r e ne) =
    fifo_allocate-Holds b cs size start (Reach-Holds r) e ne
Reach-Holds (free {b = b} {b' = b'} {c = c} {cs = cs} r e) =
    let (d, f, v) = fifo_free-Holds b c cs (Reach-Holds r) in
    let same : d ≡ b' = cc in subst (λ x. Holds x cs) same v

-- While no allocation ends exactly on the last byte of the buffer: in every state that allocations and
-- releases of the oldest chunk reach, the live chunks lie inside the buffer and no two of them share a
-- byte.
pub live_chunks-Apart :
    {b : CopyBuffer} {cs : List Chunk}
    → Reach b cs
    → Apart cs × All (Within 0 (shm_copy_buffer_size + 1)) cs
live_chunks-Apart r = (Holds-Apart (Reach-Holds r), Holds-Within (Reach-Holds r))

-- In every reachable state with a live chunk, freeing the oldest passes every assertion, and the
-- state that it leaves is reachable with the other chunks live.
pub fifo_free_never_aborts :
    {b : CopyBuffer} {c : Chunk} {cs : List Chunk}
    → Reach b (c ∷ cs)
    → (b' : CopyBuffer) × (fifo_free c.size b ≡ some b') × Reach b' cs
fifo_free_never_aborts {b} {c} {cs} r =
    let (b', f, _) = fifo_free-Holds b c cs (Reach-Holds r) in (b', f, free r f)

Holds-nil : {b : CopyBuffer} → Holds b [] → (b.tail ≡ b.head) × (b.head ≤ shm_copy_buffer_size)
Holds-nil (straight h t) = (t, h)
Holds-nil (wrapped [] last y ys q t h u far lt) = absurd (ground arith)
Holds-nil (wrapped (x ∷ xs) last y ys q t h u far lt) = absurd (ground arith)

available_nil :
    (b : CopyBuffer) (size : ℕ)
    → b.tail ≡ b.head
    → b.head ≤ shm_copy_buffer_size
    → 2 * size ≤ shm_copy_buffer_size
    → size ≤ available b
unfolding available
available_nil b size e h k = ground arith

pub allocate_fits :
    (b : CopyBuffer) (size : ℕ) → size ≤ available b → (fifo_allocate size b).0 ≢ none
unfolding fifo_allocate
allocate_fits b size h = ground arith

-- An empty buffer, wherever it stands, accepts any chunk of up to half of its bytes; so a segment
-- never waits for ever on an empty buffer.
pub fifo_allocate-half :
    {b : CopyBuffer} (size : ℕ)
    → Reach b []
    → 2 * size ≤ shm_copy_buffer_size
    → (start : ℕ) × ((fifo_allocate size b).0 ≡ some start)
fifo_allocate-half {b} size r h = elim (Option-cases (fifo_allocate size b).0) [
  | inl full ↦
      let (e, k) = Holds-nil (Reach-Holds r) in
      absurd (allocate_fits b size (available_nil b size e k h) full)
  | inr found ↦ found
]

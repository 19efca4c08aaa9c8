-- ===== src/Packet/ByteOrder.antt =====
-- Byte order: `htobe` undoes itself, the word loop agrees with it and undoes itself, and what is
-- written to a memory is read back: server/backend/net_utils.hpp and server/backend/worker.cpp.
use clean_slate_inc.Prelude.{
  leb, ltb, ◌&&◌, if◌then◌else◌, ℕ, zero, suc, ◌+◌, ◌*◌, ◌<◌, ◌≤◌, ◌≡◌, ◌⊎◌, refl, sym, ap, List,
  [], ◌∷◌, ◌++◌, length, arith, append_assoc, u16_mod, u32_mod,
}
use clean_slate_inc.Packet.{htobe16, htobe32, htobe_bytes, memcpy_htobe32, read_bytes, write_bytes}

pub htobe16-htobe16 : (x : ℕ) → x < u16_mod → htobe16 (htobe16 x) ≡ x
unfolding htobe16
htobe16-htobe16 x h = omega arith

pub htobe32-htobe32 : (x : ℕ) → x < u32_mod → htobe32 (htobe32 x) ≡ x
unfolding htobe32
htobe32-htobe32 x h = omega arith

pub htobe32-lt : (x : ℕ) → htobe32 x < u32_mod
unfolding htobe32
htobe32-lt x = omega arith

htobe_bytes-append :
    (bs cs out : List ℕ) → htobe_bytes (bs ++ cs) out ≡ htobe_bytes cs (htobe_bytes bs out)
unfolding htobe_bytes
htobe_bytes-append [] cs out = refl
htobe_bytes-append (b ∷ bs) cs out = htobe_bytes-append bs cs (b ∷ out)

htobe_bytes-out : (bs out : List ℕ) → htobe_bytes bs out ≡ htobe_bytes bs [] ++ out
unfolding htobe_bytes
htobe_bytes-out [] out = refl
htobe_bytes-out (b ∷ bs) out =
    rw (htobe_bytes-out bs (b ∷ out), htobe_bytes-out bs (b ∷ []))
      (sym (append_assoc (htobe_bytes bs []) (b ∷ []) out))

-- Reversing the bytes of a value twice gives it back.
pub htobe_bytes-htobe_bytes : (bs : List ℕ) → htobe_bytes (htobe_bytes bs []) [] ≡ bs
unfolding htobe_bytes
htobe_bytes-htobe_bytes [] = refl
htobe_bytes-htobe_bytes (b ∷ bs) =
    rw (htobe_bytes-out bs (b ∷ []), htobe_bytes-append (htobe_bytes bs []) (b ∷ []) [])
      (ap (◌∷◌ b) (htobe_bytes-htobe_bytes bs))

-- The little-endian number that four bytes hold.
abbrev pub word_at : ℕ → ℕ → ℕ → ℕ → ℕ
word_at a b c d = a + 256 * b + 65536 * c + 16777216 * d

-- The bytes reversed hold the number that `htobe32` gives.
pub htobe32-word_at :
    (a b c d : ℕ)
    → a < 256
    → b < 256
    → c < 256
    → d < 256
    → htobe32 (word_at a b c d) ≡ word_at d c b a
unfolding htobe32
htobe32-word_at a b c d ha hb hc hd = omega arith

pub length-memcpy_htobe32 :
    (n : ℕ) (xs : List ℕ) → length xs ≡ 4 * n → length (memcpy_htobe32 xs) ≡ 4 * n
unfolding memcpy_htobe32
length-memcpy_htobe32 zero [] h = refl
length-memcpy_htobe32 (suc n) (a ∷ b ∷ c ∷ d ∷ xs) h =
    omega (arith, length-memcpy_htobe32 n xs (omega arith))
length-memcpy_htobe32 zero (x ∷ xs) h = absurd (omega arith)
length-memcpy_htobe32 (suc n) [] h = absurd (omega arith)
length-memcpy_htobe32 (suc n) (a ∷ []) h = absurd (omega arith)
length-memcpy_htobe32 (suc n) (a ∷ b ∷ []) h = absurd (omega arith)
length-memcpy_htobe32 (suc n) (a ∷ b ∷ c ∷ []) h = absurd (omega arith)

-- On whole words the copy undoes itself.
pub memcpy_htobe32-memcpy_htobe32 :
    (n : ℕ) (xs : List ℕ) → length xs ≡ 4 * n → memcpy_htobe32 (memcpy_htobe32 xs) ≡ xs
unfolding memcpy_htobe32
memcpy_htobe32-memcpy_htobe32 zero [] h = refl
memcpy_htobe32-memcpy_htobe32 (suc n) (a ∷ b ∷ c ∷ d ∷ xs) h =
    ap (λ ys. a ∷ b ∷ c ∷ d ∷ ys) (memcpy_htobe32-memcpy_htobe32 n xs (omega arith))
memcpy_htobe32-memcpy_htobe32 zero (x ∷ xs) h = absurd (omega arith)
memcpy_htobe32-memcpy_htobe32 (suc n) [] h = absurd (omega arith)
memcpy_htobe32-memcpy_htobe32 (suc n) (a ∷ []) h = absurd (omega arith)
memcpy_htobe32-memcpy_htobe32 (suc n) (a ∷ b ∷ []) h = absurd (omega arith)
memcpy_htobe32-memcpy_htobe32 (suc n) (a ∷ b ∷ c ∷ []) h = absurd (omega arith)

pub length-read_bytes : (mem : ℕ → ℕ) (addr n : ℕ) → length (read_bytes mem addr n) ≡ n
unfolding read_bytes
length-read_bytes mem addr zero = refl
length-read_bytes mem addr (suc n) = ap suc (length-read_bytes mem (addr + 1) n)

-- Writing back what was read changes nothing.
pub write_bytes-read_bytes :
    (mem : ℕ → ℕ) (n addr i : ℕ) → write_bytes mem addr (read_bytes mem addr n) i ≡ mem i
unfolding write_bytes read_bytes
write_bytes-read_bytes mem zero addr i = refl
write_bytes-read_bytes mem (suc n) addr i =
    ground (arith, write_bytes-read_bytes mem n (addr + 1) i, ap mem)

-- What was read from one memory and written to another is there, and nothing else has changed.
pub write_bytes-copy :
    (dest mem : ℕ → ℕ) (n addr i : ℕ)
    → write_bytes dest addr (read_bytes mem addr n) i
      ≡ (if leb addr i && ltb i (addr + n) then mem i else dest i)
unfolding write_bytes read_bytes
write_bytes-copy dest mem zero addr i = ground arith
write_bytes-copy dest mem (suc n) addr i =
    ground (arith, write_bytes-copy dest mem n (addr + 1) i, ap mem)

-- A write changes no byte outside its range.
pub write_bytes-outside :
    (mem : ℕ → ℕ) (bs : List ℕ) (addr i : ℕ)
    → (i < addr) ⊎ (addr + length bs ≤ i)
    → write_bytes mem addr bs i ≡ mem i
unfolding write_bytes
write_bytes-outside mem [] addr i h = refl
write_bytes-outside mem (b ∷ bs) addr i h = ground (arith, write_bytes-outside mem bs (addr + 1) i)

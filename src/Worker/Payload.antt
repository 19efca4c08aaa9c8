-- ===== src/Worker/Payload.antt =====
-- The bytes of an operation on their way into a packet and back: `fill_pkt` and `rx_process_one` of
-- server/backend/worker.cpp.
use clean_slate_inc.Prelude.{
  leb, ◌&&◌, ◌+◌, ℕ, zero, suc, ◌-◌, ◌*◌, ◌≡◌, ◌≤◌, inl, inr, refl, sym, ap, ◌∙◌, Bool, true, ◌||◌,
  List, [], ◌∷◌, ◌++◌, arith, ◌==◌, if◌then◌else◌, Bool-cases, length, take, drop, length-append,
  ltb,
}
use clean_slate_inc.Op.{Op, op_all_reduce, op_reduce}
use clean_slate_inc.Packet.{
  Mbuf, payload_size, memcpy_htobe32, memcpy_htobe32_select, read_bytes, write_bytes, overwrite,
  zeros,
}
use clean_slate_inc.Packet.ByteOrder.{
  memcpy_htobe32-memcpy_htobe32, length-memcpy_htobe32, length-read_bytes, write_bytes-copy,
}
use clean_slate_inc.Window.{PktState}
use clean_slate_inc.Worker.Receive.{copy_out}
use clean_slate_inc.Worker.Send.{fill_payload}

abbrev pub is_reduction : Op → Bool
is_reduction op = op.op_code == op_all_reduce || op.op_code == op_reduce

pub select_lem : (xs : List ℕ) → memcpy_htobe32_select xs ≡ memcpy_htobe32 xs
unfolding memcpy_htobe32_select
select_lem xs = ground arith

take-append_length {ℓ} : {A : Type ℓ} (xs ys : List A) → take (length xs) (xs ++ ys) ≡ xs
take-append_length [] ys = refl
take-append_length (x ∷ xs) ys = ap (◌∷◌ x) (take-append_length xs ys)

take-take {ℓ} : {A : Type ℓ} (n : ℕ) (xs ys : List A) → length xs ≡ n → take n (xs ++ ys) ≡ xs
take-take n xs ys e = rw (← e) (take-append_length xs ys)

pub length-zeros : (n : ℕ) → length (zeros n) ≡ n
length-zeros zero = refl
length-zeros (suc n) = ap suc (length-zeros n)

-- What `fill_pkt` copies for a part of the data of `op`.
abbrev pub sent_bytes : Op → ℕ → ℕ → (ℕ → ℕ) → List ℕ
sent_bytes op addr size mem =
    if is_reduction op then memcpy_htobe32 (read_bytes mem addr size) else read_bytes mem addr size

drop-length {ℓ} : {A : Type ℓ} (xs : List A) → drop (length xs) xs ≡ []
drop-length [] = refl
drop-length (x ∷ xs) = drop-length xs

drop_all {ℓ} : {A : Type ℓ} (n : ℕ) (xs : List A) → length xs ≡ n → drop n xs ≡ []
drop_all n xs e = rw (← e) (drop-length xs)

module _ (op : Op) (state : PktState) (mem : ℕ → ℕ) (words : ℕ) where
  abbrev bytes : List ℕ
  bytes = sent_bytes op state.data_addr state.size mem

  length-sent_bytes : (is_reduction op ≡ true → state.size ≡ 4 * words) → length bytes ≡ state.size
  length-sent_bytes whole = elim (Bool-cases (is_reduction op)) [
    | inl reduction ↦ rw reduction (
        length-memcpy_htobe32 words (read_bytes mem state.data_addr state.size)
          (length-read_bytes mem state.data_addr state.size ∙ whole reduction)
        ∙ sym (whole reduction))
    | inr plain ↦ rw plain (length-read_bytes mem state.data_addr state.size)
  ]

  copied_lem :
      (if is_reduction op
        then overwrite state.pkt.payload
            (memcpy_htobe32_select (read_bytes mem state.data_addr state.size))
        else overwrite state.pkt.payload (read_bytes mem state.data_addr state.size))
      ≡ overwrite state.pkt.payload bytes
  copied_lem = elim (Bool-cases (is_reduction op)) [
    | inl reduction ↦ rw (reduction, select_lem (read_bytes mem state.data_addr state.size)) refl
    | inr plain ↦ rw plain refl
  ]

  -- For a packet of at most PAYLOAD_SIZE bytes, whole words if it is part of a reduction, in an mbuf
  -- with PAYLOAD_SIZE bytes of payload, `fill_pkt` writes the operation's bytes, with the bytes of each word reversed for a reduction, and pads
  -- the payload with zeros; nothing of the packet's earlier payload is left.
  pub fill_payload_lem :
      (is_reduction op ≡ true → state.size ≡ 4 * words)
      → state.size ≤ payload_size
      → length state.pkt.payload ≡ payload_size
      → (fill_payload op state mem ≡ bytes ++ zeros (payload_size - state.size))
        × (length (fill_payload op state mem) ≡ payload_size)
  unfolding fill_payload
  fill_payload_lem whole fits full = (
    content,
    rw
        (
          content,
          length-append bytes (zeros (payload_size - state.size)),
          length-zeros (payload_size - state.size),
        )
        (omega (arith, length-sent_bytes whole)),
  )
    where
      content : fill_payload op state mem ≡ bytes ++ zeros (payload_size - state.size)
      content = rw copied_lem (elim (Bool-cases (ltb state.size payload_size)) [
        | inl short ↦ rw (short, take-take state.size bytes _ (length-sent_bytes whole)) refl
        | inr long ↦
            let exact : state.size ≡ payload_size = ground arith in
            rw (long, length-sent_bytes whole, exact, drop_all payload_size state.pkt.payload full)
              refl
      ])

  -- For a packet of at most PAYLOAD_SIZE bytes, whole words if it is part of a reduction, in an mbuf
  -- with PAYLOAD_SIZE bytes of payload: an answer that brings back the payload that was sent from the
  -- memory `mem` puts, into any memory `dest`, the packet's bytes of `mem` at their addresses, whatever
  -- was there, and changes no other byte; the receiver undoes the sender's byte order.
  pub echo_restores :
      (pkt : Mbuf) (dest : ℕ → ℕ) (i : ℕ)
      → (is_reduction op ≡ true → state.size ≡ 4 * words)
      → state.size ≤ payload_size
      → length state.pkt.payload ≡ payload_size
      → pkt.payload ≡ fill_payload op state mem
      → copy_out op state pkt dest i
        ≡ (if leb state.data_addr i && ltb i (state.data_addr + state.size) then mem i else dest i)
  unfolding copy_out
  echo_restores pkt dest i whole fits full same =
      let (content, _) = fill_payload_lem whole fits full in
      let received : take state.size pkt.payload ≡ bytes =
        ap (take state.size) (same ∙ content)
        ∙ take-take state.size bytes (zeros (payload_size - state.size))
            (length-sent_bytes whole) in
      elim (Bool-cases (is_reduction op)) [
        | inl reduction ↦
            let sent = read_bytes mem state.data_addr state.size in
            let restored : memcpy_htobe32_select (memcpy_htobe32 sent) ≡ sent =
              select_lem (memcpy_htobe32 sent)
              ∙ memcpy_htobe32-memcpy_htobe32 words sent
                  (length-read_bytes mem state.data_addr state.size ∙ whole reduction) in
            rw (received, reduction)
              (ap (λ bs. write_bytes dest state.data_addr bs i) restored
                ∙ write_bytes-copy dest mem state.size state.data_addr i)
        | inr plain ↦ rw (received, plain) (write_bytes-copy dest mem state.size state.data_addr i)
      ]

-- ===== src/Worker/Packets.antt =====
-- How `gen_pkt` cuts a part into packets: server/backend/worker.cpp.
use clean_slate_inc.Prelude.{
  ℕ, ◌+◌, ◌-◌, ◌*◌, ◌%◌, ◌≡◌, ◌<◌, ◌≤◌, refl, some, ap, ◌==◌, if◌then◌else◌, arith, mul32, u32_mod,
}
use clean_slate_inc.Op.{Op}
use clean_slate_inc.Packet.{payload_size}
use clean_slate_inc.LoadBalancer.{SubOp}
use clean_slate_inc.Window.{PktState}
use clean_slate_inc.Worker.Send.{packet_count, new_state, next_state}

-- The number of packets is the number of payloads that the bytes fill, the last perhaps in part, and 1
-- for no bytes.
pub packet_count_lem :
    (size : ℕ)
    → size + payload_size < u32_mod
    → (0 < packet_count size)
      × (size ≤ packet_count size * payload_size)
      × ((packet_count size - 1) * payload_size ≤ size)
unfolding packet_count
packet_count_lem size small = ground arith

module _ (op : Op) (sub_op : SubOp) (old : PktState) (mem : ℕ → ℕ) (start_psn : ℕ) where
  -- `gen_pkt` when `i` packets of the part have been made.
  abbrev pub packet_at : ℕ → PktState
  packet_at i =
      next_state op sub_op
        (record {
          pkt_sent = i;
          start_psn = start_psn;
          pkt_cnt = packet_count sub_op.size;
          sub_op = some sub_op;
        })
        old mem

  -- Of a part of fewer than 2^32 - PAYLOAD_SIZE bytes, packet `i` carries the bytes from
  -- `i * PAYLOAD_SIZE` on, a full payload unless it is the last, and the last carries those up to the
  -- end of the part, at most a payload; the packets have consecutive sequence numbers.
  pub packets_cover :
      (i : ℕ)
      → sub_op.size + payload_size < u32_mod
      → i < packet_count sub_op.size
      → let s = packet_at i in
        (s.data_addr ≡ sub_op.data_addr + i * payload_size)
        × (i * payload_size ≤ sub_op.size)
        × (s.size ≡ (
            if i + 1 == packet_count sub_op.size
            then sub_op.size - i * payload_size
            else payload_size))
        × (s.size ≤ payload_size)
        × (s.is_last ≡ (i + 1 == packet_count sub_op.size))
        × (s.psn ≡ (start_psn + i) % u32_mod)
  unfolding next_state new_state
  packets_cover i small lt =
      let (pos, up, low) = packet_count_lem sub_op.size small in
      let off : mul32 i payload_size ≡ i * payload_size = omega arith in
      let inside : i * payload_size ≤ sub_op.size = omega arith in
      (
        ap (λ n. sub_op.data_addr + n) off,
        inside,
        ground (arith, off, inside),
        ground arith,
        ap (λ n. n == packet_count sub_op.size) (omega arith),
        refl,
      )

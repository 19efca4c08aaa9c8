-- ===== src/Packet.antt =====
-- The packet of the backend and its byte order: server/backend/header.hpp, `htobe` of
-- server/backend/net_utils.hpp, and the copying of server/backend/worker.cpp. The host is
-- little-endian, as header.hpp asserts; a field in network order is the number whose little-endian
-- bytes lie in the packet. Of an mbuf only what the worker reads or writes is kept.
pub mod ByteOrder
mod Tests
use clean_slate_inc.Prelude.{
  ℕ, zero, suc, ◌+◌, ◌-◌, ◌*◌, ◌/◌, ◌%◌, List, [], ◌∷◌, ◌++◌, Bool, take, drop, length, ltb, ◌==◌,
  if◌then◌else◌,
}

abbrev pub payload_len : ℕ
payload_len = 64

-- `PAYLOAD_LEN * sizeof(int)`
abbrev pub payload_size : ℕ
payload_size = payload_len * 4

-- `htobe` at the sizes that the program uses it at; `betoh` is the same function.
unfoldable pub htobe16 : ℕ → ℕ
htobe16 x = x % 256 * 256 + x / 256 % 256

unfoldable pub htobe32 : ℕ → ℕ
htobe32 x =
    x % 256 * 256 * 256 * 256
    + x / 256 % 256 * 256 * 256
    + x / 65536 % 256 * 256
    + x / 16777216 % 256

-- `htobe` at any other size on a little-endian host: `std::reverse` of the bytes.
unfoldable pub htobe_bytes : List ℕ → List ℕ → List ℕ
htobe_bytes [] out = out
htobe_bytes (b ∷ bs) out = htobe_bytes bs (b ∷ out)

-- `struct netccl_inc_hdr`
pub record IncHdr : Type 0 where
  pub coll_type : ℕ
  pub group_id : ℕ
  pub rank : ℕ
  pub root : ℕ
  pub agg_addr : ℕ
  pub psn : ℕ

-- `struct netccl_pkt` in an mbuf: the lengths of the mbuf, the fields of the IP header that the
-- worker uses, the aggregation header and the bytes of the payload.
pub record Mbuf : Type 0 where
  pub data_len : ℕ
  pub pkt_len : ℕ
  pub type_of_service : ℕ
  pub total_length : ℕ
  pub dst_addr : ℕ
  pub inc : IncHdr
  pub payload : List ℕ

abbrev pub sizeof_ether_hdr : ℕ
sizeof_ether_hdr = 14

-- `sizeof(netccl_pkt)`: 14 bytes of Ethernet, 20 of IP, 10 of `netccl_inc_hdr` and the payload.
abbrev pub sizeof_pkt : ℕ
sizeof_pkt = sizeof_ether_hdr + 20 + 10 + payload_size

unfoldable pub get_psn : Mbuf → ℕ
unfolding htobe32
get_psn pkt = htobe32 pkt.inc.psn

unfoldable pub get_group_id : Mbuf → ℕ
get_group_id pkt = pkt.inc.group_id

-- `n` bytes of a memory from an address on.
unfoldable pub read_bytes : (ℕ → ℕ) → ℕ → ℕ → List ℕ
read_bytes mem addr zero = []
read_bytes mem addr (suc n) = mem addr ∷ read_bytes mem (addr + 1) n

-- A memory after a copy to an address.
unfoldable pub write_bytes : (ℕ → ℕ) → ℕ → List ℕ → ℕ → ℕ
write_bytes mem addr [] i = mem i
write_bytes mem addr (b ∷ bs) i = if i == addr then b else write_bytes mem (addr + 1) bs i

-- What the loop `dst32[i] = htobe32(src32[i])` writes: each whole word with its bytes reversed.
-- Bytes that make no word are not copied.
unfoldable pub memcpy_htobe32 : List ℕ → List ℕ
memcpy_htobe32 (a ∷ b ∷ c ∷ d ∷ rest) = d ∷ c ∷ b ∷ a ∷ memcpy_htobe32 rest
memcpy_htobe32 _ = []

-- `memcpy_htobe32_select`: the loop of fixed length for a full payload, the other otherwise.
unfoldable pub memcpy_htobe32_select : List ℕ → List ℕ
unfolding memcpy_htobe32
memcpy_htobe32_select src =
    if length src == payload_size then memcpy_htobe32 src else memcpy_htobe32 src

-- A copy over the front of a buffer.
abbrev pub overwrite : List ℕ → List ℕ → List ℕ
overwrite dst src = src ++ drop (length src) dst

abbrev pub zeros : ℕ → List ℕ
zeros zero = []
zeros (suc n) = 0 ∷ zeros n

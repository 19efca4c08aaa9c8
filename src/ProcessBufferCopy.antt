-- ===== src/ProcessBufferCopy.antt =====
-- The earlier process buffer of server/backend/process_buffer_copy.hpp, which no other file includes. An
-- mbuf is the address that stands for it, since `flush_once` moves part of an array of addresses as
-- bytes. DPDK is the parameter `Driver`. `none` is a write beyond the end of `tx_bufs` or a failed
-- `assert`.
pub mod Faults
mod Tests
use clean_slate_inc.Prelude.{
  ℕ, zero, suc, ◌+◌, ◌-◌, ◌*◌, ◌/◌, ◌%◌, ◌^◌, ◌≤◌, Bool, true, false, ◌&&◌, Option, none, some,
  List, [], ◌∷◌, ◌==◌, if◌then◌else◌, ltb, leb, length, u16_mod, add32,
}

pub record Driver : Type 1 where
  pub State : Type 0
  pub tx_burst : List ℕ → State → ℕ × State
  pub rx_burst : ℕ → State → List ℕ × State
  pub rx_queue_count : State → ℕ
  pub tx_burst-le : (pkts : List ℕ) (s : State) → (tx_burst pkts s).0 ≤ length pkts

-- `rx` has the packets from `rx_iter` to `rx_nb`.
pub record Buffer (S : Type 0) : Type 0 where
  pub rx_size : ℕ
  pub tx_size : ℕ
  pub rx : List ℕ
  pub tx_bufs : ℕ → ℕ
  pub tx_nb : ℕ
  pub flush_timer : ℕ
  pub receive_timer : ℕ
  pub total_rx_nb : ℕ
  pub total_tx_nb : ℕ
  pub total_drop_nb : ℕ
  pub driver : S

-- The `n` addresses from place `i` on.
unfoldable pub part_from : ℕ → ℕ → (ℕ → ℕ) → List ℕ
part_from i zero bufs = []
part_from i (suc n) bufs = bufs i ∷ part_from (i + 1) n bufs

-- The low `b` bytes of `x` over those of `y`.
unfoldable pub mix : ℕ → ℕ → ℕ → ℕ
mix b x y = x % 256 ^ b + y / 256 ^ b * 256 ^ b

-- The array after `memmove(bufs, bufs + offset, size)`: `size` counts bytes, and an address has eight,
-- the lowest first.
unfoldable pub memmove : ℕ → ℕ → (ℕ → ℕ) → ℕ → ℕ
memmove offset size bufs j =
    if leb (8 * j + 8) size
    then bufs (j + offset)
    else if leb size (8 * j)
    then bufs j
    else mix (size - 8 * j) (bufs (j + offset)) (bufs j)

module _ {S : Type 0} where
  unfoldable pub new_buffer : ℕ → ℕ → (ℕ → ℕ) → S → Option (Buffer S)
  new_buffer rx_size tx_size bufs driver =
      if rx_size % 8 == 0
      then some (record {
        rx_size = rx_size;
        tx_size = tx_size;
        rx = [];
        tx_bufs = bufs;
        tx_nb = 0;
        flush_timer = 0;
        receive_timer = 0;
        total_rx_nb = 0;
        total_tx_nb = 0;
        total_drop_nb = 0;
        driver = driver;
      })
      else none

  unfoldable pub drop_packet : Buffer S → Buffer S
  drop_packet b = record b { total_drop_nb = add32 b.total_drop_nb 1 }

module _ (n : Driver) where
  unfoldable pub flush_once : Buffer n.State → Buffer n.State
  flush_once b =
      let (complete_nb, driver) = n.tx_burst (part_from 0 b.tx_nb b.tx_bufs) b.driver in
      let left = b.tx_nb - complete_nb in
      if b.tx_nb == 0 then record b { flush_timer = 0 } else record b {
        tx_bufs = if ltb complete_nb b.tx_nb then memmove complete_nb left b.tx_bufs else b.tx_bufs;
        tx_nb = left;
        flush_timer = 0;
        driver = driver;
      }

  -- The loop of `flush` from place `i` on, for at most `fuel` bursts: `none` if packets are left.
  unfoldable pub flush_loop : ℕ → ℕ → ℕ → (ℕ → ℕ) → n.State → Option n.State
  flush_loop zero i left bufs s = if left == 0 then some s else none
  flush_loop (suc fuel) i left bufs s =
      let (complete_nb, s') = n.tx_burst (part_from i left bufs) s in
      let rest = flush_loop fuel (i + complete_nb) (left - complete_nb) bufs s' in
      if ltb complete_nb left then rest else some s'

  unfoldable pub flush : ℕ → Buffer n.State → Option (Buffer n.State)
  flush fuel b = elim (flush_loop fuel 0 b.tx_nb b.tx_bufs b.driver) [
    | none ↦ none
    | some driver ↦ some (record b { tx_nb = 0; flush_timer = 0; driver = driver })
  ]

  unfoldable pub check_flush_timer : Buffer n.State → Buffer n.State
  check_flush_timer b =
      if ltb b.flush_timer (b.tx_size * 2)
      then record b { flush_timer = (b.flush_timer + 1) % u16_mod }
      else flush_once b

  -- `batch_receive`: what is received, and the buffer.
  unfoldable pub batch_receive : Bool → Buffer n.State → List ℕ × Buffer n.State
  batch_receive immediate b =
      let (pkts, driver) = n.rx_burst b.rx_size b.driver in
      if immediate
      then (pkts, record b { driver = driver })
      else if ltb (n.rx_queue_count b.driver) b.rx_size && ltb b.receive_timer 1
      then ([], record b { receive_timer = (b.receive_timer + 1) % u16_mod })
      else (pkts, record b { receive_timer = 0; driver = driver })

  -- `rx_bufs[rx_iter ++]`, where a null pointer is `none`.
  unfoldable pub take_rx : List ℕ → Buffer n.State → Option ℕ × Buffer n.State
  take_rx [] b = (none, record b { rx = [] })
  take_rx (pkt ∷ rest) b = (some pkt, record b { rx = rest; total_rx_nb = add32 b.total_rx_nb 1 })

  -- `receive_impl`; `receive` is this for false, `receive_imm` for true.
  unfoldable pub receive_impl : Bool → Buffer n.State → Option ℕ × Buffer n.State
  receive_impl immediate b =
      let b' = check_flush_timer b in
      if length b'.rx == 0
      then (let (pkts, b'') = batch_receive immediate b' in take_rx pkts b'')
      else take_rx b'.rx b'

  unfoldable pub send : ℕ → Buffer n.State → Option (Buffer n.State)
  send buf b =
      let b' = record b {
        total_tx_nb = add32 b.total_tx_nb 1;
        tx_bufs = λ j. if j == b.tx_nb then buf else b.tx_bufs j;
        tx_nb = b.tx_nb + 1;
      } in
      if ltb b.tx_nb b.tx_size
      then some (if b'.tx_nb == b'.tx_size then flush_once b' else b')
      else none

-- ===== src/ProcessBuffer.antt =====
-- The packets of a worker on their way to and from a NIC queue: `queue_process_buffer` of
-- server/backend/process_buffer.hpp. DPDK is the parameter `Nic`: `rte_eth_tx_burst` takes a first part
-- of the packets that it is given, and `rte_eth_rx_burst` gives at most as many as asked. `taken` is
-- what the NIC has taken so far, oldest first. Arrays of mbufs are lists of what is in use of them.
pub mod Order
pub mod Linked
mod Tests
use clean_slate_inc.Prelude.{
  ℕ, zero, suc, ◌+◌, ◌-◌, ◌*◌, ◌%◌, ◌≡◌, ◌≤◌, ◌<◌, Bool, true, false, Option, none, some, List, [],
  ◌∷◌, ◌++◌, ◌==◌, if◌then◌else◌, ltb, length, take, drop, u16_mod, add32,
}
use clean_slate_inc.Packet.{Mbuf}

pub record Nic : Type 1 where
  pub State : Type 0
  pub tx_burst : List Mbuf → State → ℕ × State
  pub rx_burst : ℕ → State → List Mbuf × State
  pub taken : State → List Mbuf
  pub tx_burst-le : (pkts : List Mbuf) (s : State) → (tx_burst pkts s).0 ≤ length pkts
  pub taken-tx_burst :
      (pkts : List Mbuf) (s : State)
      → taken (tx_burst pkts s).1 ≡ taken s ++ take (tx_burst pkts s).0 pkts
  pub rx_burst-le : (n : ℕ) (s : State) → length (rx_burst n s).0 ≤ n
  pub taken-rx_burst : (n : ℕ) (s : State) → taken (rx_burst n s).1 ≡ taken s

-- `rx` has the packets from `rx_iter` to `rx_nb`, and `tx` the first `tx_nb` of `tx_bufs`.
pub record ProcessBuffer (S : Type 0) : Type 0 where
  pub rx_size : ℕ
  pub tx_size : ℕ
  pub rx : List Mbuf
  pub tx : List Mbuf
  pub flush_timer : ℕ
  pub total_rx_nb : ℕ
  pub total_tx_nb : ℕ
  pub total_drop_nb : ℕ
  pub nic : S

module _ {S : Type 0} where
  -- the constructor, which asserts that `rx_size` is a multiple of 8
  unfoldable pub new_buffer : ℕ → ℕ → S → Option (ProcessBuffer S)
  new_buffer rx_size tx_size nic =
      if rx_size % 8 == 0
      then some (record {
        rx_size = rx_size;
        tx_size = tx_size;
        rx = [];
        tx = [];
        flush_timer = 0;
        total_rx_nb = 0;
        total_tx_nb = 0;
        total_drop_nb = 0;
        nic = nic;
      })
      else none

  unfoldable pub rx_sw_buffered_pkt_cnt : ProcessBuffer S → ℕ
  rx_sw_buffered_pkt_cnt b = length b.rx

  unfoldable pub tx_sw_buffered_pkt_cnt : ProcessBuffer S → ℕ
  tx_sw_buffered_pkt_cnt b = length b.tx

  -- What `drop` does here; the mbuf is freed.
  unfoldable pub drop_packet : ProcessBuffer S → ProcessBuffer S
  drop_packet b = record b { total_drop_nb = add32 b.total_drop_nb 1 }

module _ (n : Nic) where
  unfoldable pub flush_once : ProcessBuffer n.State → ProcessBuffer n.State
  flush_once b =
      let (complete_nb, nic) = n.tx_burst b.tx b.nic in
      record b { tx = drop complete_nb b.tx; flush_timer = 0; nic = nic }

  -- The loop of `flush`, for at most `fuel` bursts: `none` if packets are left.
  unfoldable pub flush_loop : ℕ → List Mbuf → n.State → Option n.State
  flush_loop zero pkts s = if length pkts == 0 then some s else none
  flush_loop (suc fuel) pkts s =
      let (complete_nb, s') = n.tx_burst pkts s in
      let rest = flush_loop fuel (drop complete_nb pkts) s' in
      if ltb complete_nb (length pkts) then rest else some s'

  -- `flush`, which waits until the NIC has taken everything, for at most `fuel` bursts.
  unfoldable pub flush : ℕ → ProcessBuffer n.State → Option (ProcessBuffer n.State)
  flush fuel b = elim (flush_loop fuel b.tx b.nic) [
    | none ↦ none
    | some nic ↦ some (record b { tx = []; flush_timer = 0; nic = nic })
  ]

  -- `flush_timer` has 16 bits, and `tx_size * 2` is an `int`.
  unfoldable pub check_flush_timer : ProcessBuffer n.State → ProcessBuffer n.State
  check_flush_timer b =
      if ltb b.flush_timer (b.tx_size * 2)
      then record b { flush_timer = (b.flush_timer + 1) % u16_mod }
      else flush_once b

  -- `receive`: the packet, if there is one.
  unfoldable pub receive : ProcessBuffer n.State → Option Mbuf × ProcessBuffer n.State
  receive b =
      let b' = check_flush_timer b in
      elim b'.rx [
        | pkt ∷ rest ↦ (some pkt, record b' { rx = rest; total_rx_nb = add32 b'.total_rx_nb 1 })
        | [] ↦
            let (pkts, nic) = n.rx_burst b'.rx_size b'.nic in
            elim pkts [
              | [] ↦ (none, record b' { nic = nic })
              | pkt ∷ rest ↦ (
                some pkt,
                record b' { rx = rest; nic = nic; total_rx_nb = add32 b'.total_rx_nb 1 },
              )
            ]
      ]

  -- The wait of `send` for room, for at most `fuel` bursts: `none` if there is none yet.
  unfoldable pub wait_room : ℕ → ProcessBuffer n.State → Option (ProcessBuffer n.State)
  wait_room zero b = if length b.tx == b.tx_size then none else some b
  wait_room (suc fuel) b =
      let rest = wait_room fuel (flush_once b) in if length b.tx == b.tx_size then rest else some b

  -- The rest of `send`.
  unfoldable pub enqueue : Mbuf → ProcessBuffer n.State → ProcessBuffer n.State
  enqueue pkt b =
      let b' = record b { total_tx_nb = add32 b.total_tx_nb 1; tx = b.tx ++ pkt ∷ [] } in
      if length b'.tx == b'.tx_size then flush_once b' else b'

  unfoldable pub send : ℕ → Mbuf → ProcessBuffer n.State → Option (ProcessBuffer n.State)
  send fuel pkt b = elim (wait_room fuel b) [ none ↦ none | some b' ↦ some (enqueue pkt b') ]

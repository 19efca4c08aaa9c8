-- ===== src/ProcessBufferCopy/Faults.antt =====
-- What goes wrong in server/backend/process_buffer_copy.hpp when the NIC takes none of a burst.
use clean_slate_inc.Prelude.{
  ℕ, ◌+◌, ◌≡◌, ◌≤◌, ◌<◌, refl, true, false, none, some, arith, ltb, add32, ◌==◌, if◌then◌else◌,
  List,
}
use clean_slate_inc.ProcessBufferCopy.{Driver, Buffer, part_from, flush_once, send}

module _ (n : Driver) where
  full_send : (pkt : ℕ) (b : Buffer n.State) → b.tx_size ≤ b.tx_nb → send n pkt b ≡ none
  unfolding send
  full_send pkt b full =
      let over : ltb b.tx_nb b.tx_size ≡ false = ground arith in rw (over, send) refl

  stuck_flush :
      (b : Buffer n.State)
      → 0 < b.tx_nb
      → (n.tx_burst (part_from 0 b.tx_nb b.tx_bufs) b.driver).0 ≡ 0
      → ((flush_once n b).tx_size ≡ b.tx_size) × ((flush_once n b).tx_nb ≡ b.tx_nb)
  unfolding flush_once
  stuck_flush b some_wait stuck =
      let waits : (b.tx_nb == 0) ≡ false = ground arith in
      rw (waits, flush_once) (refl, omega (arith, stuck))

  -- When a packet fills the buffer and the NIC takes none of the packets, the packet after it is written
  -- beyond the end of the array.
  pub send_overruns :
      (first second : ℕ) (b : Buffer n.State)
      → b.tx_nb + 1 ≡ b.tx_size
      → ((pkts : List ℕ) (s : n.State) → (n.tx_burst pkts s).0 ≡ 0)
      → (b' : Buffer n.State) × (send n first b ≡ some b') × (send n second b' ≡ none)
  unfolding send flush_once
  send_overruns first second b full stuck =
      let b' : Buffer n.State = record b {
        total_tx_nb = add32 b.total_tx_nb 1;
        tx_bufs = λ j. if j == b.tx_nb then first else b.tx_bufs j;
        tx_nb = b.tx_nb + 1;
      } in
      let room : ltb b.tx_nb b.tx_size ≡ true = ground arith in
      let fills : ((b.tx_nb + 1) == b.tx_size) ≡ true = ground arith in
      let (size, count) =
        stuck_flush b' (omega arith) (stuck (part_from 0 (b.tx_nb + 1) b'.tx_bufs) b.driver) in
      (
        flush_once n b',
        rw (room, fills, send) refl,
        full_send second (flush_once n b') (omega (arith, size, count, full)),
      )

-- ===== src/ProcessBufferCopy/Tests.antt =====
-- The buffer of server/backend/process_buffer_copy.hpp with a NIC that takes one packet at a time, and
-- with one that takes none.
use Prim.Native.Nat.{min}
use clean_slate_inc.Prelude.{ℕ, ◌+◌, ◌≡◌, ◌≤◌, refl, none, some, List, [], ◌∷◌, length, arith}
use clean_slate_inc.ProcessBufferCopy.{Driver, Buffer, part_from, memmove, mix, flush_once, send}
use clean_slate_inc.ProcessBufferCopy.Faults.{send_overruns}

min_le : (k : ℕ) (pkts : List ℕ) → min k (length pkts) ≤ length pkts
min_le k pkts = ground arith

abbrev driver : ℕ → Driver
driver k = record {
  State = List ℕ;
  tx_burst = λ pkts s. (min k (length pkts), s);
  rx_burst = λ n s. ([], s);
  rx_queue_count = λ s. 0;
  tx_burst-le = λ pkts s. min_le k pkts;
}

-- Three packets, at the addresses 1000, 1001 and 1002.
abbrev three : Buffer (List ℕ)
three = record {
  rx_size = 8;
  tx_size = 4;
  rx = [];
  tx_bufs = λ j. 1000 + j;
  tx_nb = 3;
  flush_timer = 0;
  receive_timer = 0;
  total_rx_nb = 0;
  total_tx_nb = 3;
  total_drop_nb = 0;
  driver = [];
}

-- The first has been taken, and 1002 is nowhere: two bytes of 1001 have come over those of 1000.
last_lost : let b = flush_once (driver 1) three in part_from 0 b.tx_nb b.tx_bufs ≡ 1001 ∷ 1001 ∷ []
unfolding flush_once part_from memmove mix
last_lost = refl

stuck : (pkts s : List ℕ) → ((driver 0).tx_burst pkts s).0 ≡ 0
stuck pkts s = ground arith

send_overruns_example :
    (b' : Buffer (List ℕ)) × (send (driver 0) 1003 three ≡ some b')
    × (send (driver 0) 1004 b' ≡ none)
send_overruns_example = send_overruns (driver 0) 1003 1004 three refl stuck

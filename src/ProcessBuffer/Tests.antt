-- ===== src/ProcessBuffer/Tests.antt =====
-- A process buffer with a NIC that takes at most two packets in a burst:
-- server/backend/process_buffer.hpp.
use clean_slate_inc.Prelude.{
  ℕ, ◌≡◌, ◌≤◌, inr, refl, some, List, [], ◌∷◌, ◌++◌, length, take, drop, arith, length-take, min,
}
use clean_slate_inc.Packet.{Mbuf}
use clean_slate_inc.ProcessBuffer.{Nic, ProcessBuffer, check_flush_timer, receive, send}
use clean_slate_inc.ProcessBuffer.Order.{handed, received, send_in_order, receive_in_order}

abbrev Wire : Type 0
Wire = List Mbuf × List Mbuf

two_le : (pkts : List Mbuf) → min 2 (length pkts) ≤ length pkts
two_le pkts = ground arith

short_take : (n : ℕ) (pkts : List Mbuf) → length (take n pkts) ≤ n
short_take n pkts = ground (arith, length-take n pkts)

abbrev two_at_once : Nic
two_at_once = record {
  State = Wire;
  tx_burst = λ pkts s. (min 2 (length pkts), (s.0 ++ take (min 2 (length pkts)) pkts, s.1));
  rx_burst = λ n s. (take n s.1, (s.0, drop n s.1));
  taken = λ s. s.0;
  tx_burst-le = λ pkts s. two_le pkts;
  taken-tx_burst = λ pkts s. refl;
  rx_burst-le = λ n s. short_take n s.1;
  taken-rx_burst = λ n s. refl;
}

abbrev packet : ℕ → Mbuf
packet psn = record {
  data_len = 300;
  pkt_len = 300;
  type_of_service = 0;
  total_length = 0;
  dst_addr = 0;
  inc = record { coll_type = 3; group_id = 7; rank = 0; root = 0; agg_addr = 0; psn = psn };
  payload = [];
}

-- A full buffer of three.
abbrev full : ProcessBuffer Wire
full = record {
  rx_size = 8;
  tx_size = 3;
  rx = [];
  tx = packet 1 ∷ packet 2 ∷ packet 3 ∷ [];
  flush_timer = 0;
  total_rx_nb = 0;
  total_tx_nb = 3;
  total_drop_nb = 0;
  nic = ([], packet 8 ∷ packet 9 ∷ []);
}

send_in_order_example :
    (b' : ProcessBuffer Wire) × (send two_at_once 1 (packet 4) full ≡ some b')
    × (handed two_at_once b' ≡ packet 1 ∷ packet 2 ∷ packet 3 ∷ packet 4 ∷ [])
    × (length b'.tx ≤ b'.tx_size)
    × (b'.tx_size ≡ 3)
send_in_order_example =
    send_in_order two_at_once (packet 4) full (omega arith) (omega arith) (inr (omega arith))

receive_in_order_example :
    (received two_at_once (receive two_at_once full).0 ++ (receive two_at_once full).1.rx
      ≡ packet 8 ∷ packet 9 ∷ [])
    × ((receive two_at_once full).1.nic ≡ ([], []))
    × (handed two_at_once (receive two_at_once full).1 ≡ handed two_at_once full)
unfolding check_flush_timer
receive_in_order_example = receive_in_order two_at_once full

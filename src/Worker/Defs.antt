-- ===== src/Worker/Defs.antt =====
-- The state of a worker: `thread_ctx_t` of server/backend/common.hpp and the thread-local variables
-- of server/backend/worker.cpp, with what all handlers use: `mark_acked`, `transmit`.
use clean_slate_inc.Prelude.{
  ℕ, zero, suc, ◌≡◌, Bool, true, Option, List, [], ◌∷◌, ◌++◌, ◌==◌, if◌then◌else◌, add64,
}
use clean_slate_inc.Packet.{Mbuf}
use clean_slate_inc.LoadBalancer.{SubOp}
use clean_slate_inc.QueuePair.{QueuePair}
use clean_slate_inc.Window.{Window, update, get_next_position}

-- How packets leave: the process buffer of the worker with the NIC behind it, and DPDK's copy of a
-- packet into another pool, which fails when the pool is empty. `drop` frees a received packet, and
-- `poll` is what a call of `receive` does to the packets that wait to be sent.
-- `sent` lists what has been handed over, oldest first.
pub record Link : Type 1 where
  pub State : Type 0
  pub send : Mbuf → State → State
  pub copy : Mbuf → Option Mbuf
  pub sent : State → List Mbuf
  pub drop : State → State
  pub poll : State → State
  pub sent-drop : (s : State) → sent (drop s) ≡ sent s
  pub sent-poll : (s : State) → sent (poll s) ≡ sent s
  pub sent-send : (pkt : Mbuf) (s : State) → sent (send pkt s) ≡ sent s ++ pkt ∷ []

-- The static variables of `gen_pkt`.
pub record Progress : Type 0 where
  pub pkt_sent : ℕ
  pub start_psn : ℕ
  pub pkt_cnt : ℕ
  pub sub_op : Option SubOp

-- The counters that only the log reads.
pub record Stats : Type 0 where
  pub cwnd_inc_cnt : ℕ
  pub cwnd_dec_cnt : ℕ
  pub shift_send_cnt : ℕ
  pub shift_ack_cnt : ℕ
  pub fast_retrans_trigger_cnt : ℕ
  pub fast_retrans_pkt_cnt : ℕ
  pub full_retrans_trigger_cnt : ℕ
  pub full_retrans_pkt_cnt : ℕ
  pub in_range_reduntant_ack_cnt : ℕ
  pub out_range_reduntant_ack_cnt : ℕ
  pub win_cnt : ℕ → ℕ

-- `Q` holds the queues of parts, `L` the link, `F` the floating-point numbers. `psn_of` is the map
-- `ctx->group_ctx`, which gives 0 to a group that it has not met.
pub record Worker (Q L F : Type 0) : Type 0 where
  pub qp : QueuePair Q
  pub window : Window F
  pub link : L
  pub local_queue : List (Option Mbuf)
  pub packet_loopback : Bool
  pub psn_of : ℕ → ℕ
  pub mem : ℕ → ℕ
  pub global_ts : ℕ
  pub current_switch_window_limit : ℕ
  pub current_group_id : ℕ
  pub tos_monitor : ℕ
  pub pkt_loss_flag : Bool
  pub traffic_todo : Bool
  pub cwnd_achieved : Bool
  pub ack_cnt : ℕ
  pub prev_ack_cnt : ℕ
  pub prev_ack_cnt_cc : ℕ
  pub progress : Progress
  pub stats : Stats

module _ {Q L F : Type 0} where
  unfoldable pub mark_acked : ℕ → Worker Q L F → Worker Q L F
  mark_acked position w =
      let v = w.window in
      record w {
        ack_cnt = add64 w.ack_cnt 1;
        window = record v {
          state = update v.state position (record (v.state position) { acked = true });
        };
      }

module _ {Q F : Type 0} (l : Link) where
  -- `transmit(position)`, with `local::send` for NETCCL_PACKET_LOOPBACK.
  unfoldable pub transmit : ℕ → Worker Q l.State F → Worker Q l.State F
  transmit position w =
      let pkt = (w.window.state position).pkt in
      if w.packet_loopback
      then record w { local_queue = w.local_queue ++ l.copy pkt ∷ [] }
      else record w { link = l.send pkt w.link }

  -- The loop `transmit(begin, end)`, for at most `fuel` packets.
  unfoldable pub transmit_range : ℕ → ℕ → ℕ → Worker Q l.State F → Worker Q l.State F
  transmit_range zero begin end w = w
  transmit_range (suc fuel) begin end w =
      let rest = transmit_range fuel (get_next_position begin) end (transmit begin w) in
      if begin == end then w else rest

  -- The loop of `transmit_unacked`, with the number of packets sent.
  unfoldable pub transmit_unacked : ℕ → ℕ → ℕ → ℕ → Worker Q l.State F → ℕ × Worker Q l.State F
  transmit_unacked zero begin end cnt w = (cnt, w)
  transmit_unacked (suc fuel) begin end cnt w =
      let skip = transmit_unacked fuel (get_next_position begin) end cnt w in
      let rest =
        transmit_unacked fuel (get_next_position begin) end (add64 cnt 1) (transmit begin w) in
      if begin == end then (cnt, w) else if (w.window.state begin).acked then skip else rest

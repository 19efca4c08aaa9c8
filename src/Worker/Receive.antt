-- ===== src/Worker/Receive.antt =====
-- The receive side of a worker: `complete_pkt` to `rx_process` of server/backend/worker.cpp.
use clean_slate_inc.Prelude.{
  ℕ, zero, suc, true, not, ◌||◌, ◌&&◌, Option, none, some, List, [], ◌∷◌, ◌==◌, if◌then◌else◌,
  ◌>>=◌, ◌>>◌, assert, add64, take,
}
use Prim.Native.Nat.{bit_or}
use clean_slate_inc.Op.{Op, need_rx, op_all_reduce, op_reduce}
use clean_slate_inc.Packet.{Mbuf, get_psn, memcpy_htobe32_select, write_bytes}
use clean_slate_inc.LoadBalancer.{SubOp}
use clean_slate_inc.QueuePair.{Spsc, push_resp}
use clean_slate_inc.Congestion.{max_win_len}
use clean_slate_inc.Window.{
  Window, PktState, invalid_position, get_prev_position, get_next_position, window_tx_empty,
  has_acked, get_position,
}
use clean_slate_inc.Worker.Defs.{Link, Worker, mark_acked, transmit_range}

-- The bytes of an answer, as they are copied to the operation's buffer.
unfoldable pub copy_out : Op → PktState → Mbuf → (ℕ → ℕ) → ℕ → ℕ
copy_out op state pkt mem =
    let bytes = take state.size pkt.payload in
    if op.op_code == op_all_reduce || op.op_code == op_reduce
    then write_bytes mem state.data_addr (memcpy_htobe32_select bytes)
    else write_bytes mem state.data_addr bytes

module _ {L F : Type 0} (q : Spsc SubOp) where
  -- A null `sub_op` is answered by nobody: the load balancer follows it.
  unfoldable pub complete_pkt : PktState → Worker q.Queue L F → Option (Worker q.Queue L F)
  complete_pkt state w =
      if state.is_last
      then (do
        sub_op ← state.sub_op
        (ret, qp) ← push_resp q sub_op w.qp
        assert ret
        some (record w { qp = qp }))
      else some w

  -- The loop of `shift_ack`, for at most `fuel` packets, with the position that it ends at.
  unfoldable pub shift_ack_loop : ℕ → ℕ → Worker q.Queue L F → Option (ℕ × Worker q.Queue L F)
  shift_ack_loop zero to_ack w = some (to_ack, w)
  shift_ack_loop (suc fuel) to_ack w =
      let next = λ (w' : Worker q.Queue L F).
        shift_ack_loop fuel (get_next_position to_ack) (record w' {
          stats = record w'.stats { shift_ack_cnt = add64 w'.stats.shift_ack_cnt 1 };
        }) in
      if not (to_ack == w.window.to_send) && has_acked w.window to_ack
      then complete_pkt (w.window.state to_ack) w >>= next
      else some (to_ack, w)

  -- `shift_ack`; the window has at most `max_win_len` packets.
  unfoldable pub shift_ack : Worker q.Queue L F → Option (Worker q.Queue L F)
  shift_ack w = do
    (to_ack, w') ← shift_ack_loop max_win_len w.window.to_ack w
    let moved = record w'.window { to_ack = to_ack }
    let left = if window_tx_empty moved then 0 else get_psn (moved.state to_ack).pkt
    some (record w' { window = record moved { left_psn = left } })

module _ {F : Type 0} where
  -- The loop of `collect_retrans`, for at most `fuel` packets: where the run of packets without an
  -- answer that ends before `prev` begins, and how many they are.
  unfoldable pub unanswered_run : ℕ → Window F → ℕ → ℕ → ℕ × ℕ
  unanswered_run zero v prev cnt = (prev, cnt)
  unanswered_run (suc fuel) v prev cnt =
      let rest = unanswered_run fuel v (get_prev_position prev) (add64 cnt 1) in
      if prev == v.to_ack
      then (prev, cnt)
      else if has_acked v (get_prev_position prev)
      then (prev, cnt)
      else rest

module _ {Q F : Type 0} (l : Link) where
  unfoldable pub collect_retrans : ℕ → Worker Q l.State F → Worker Q l.State F
  collect_retrans position w =
      let (begin, pkt_cnt) = unanswered_run max_win_len w.window position 0 in
      let s = w.stats in
      let flagged = record w {
        pkt_loss_flag = true;
        stats = record s {
          fast_retrans_pkt_cnt = add64 s.fast_retrans_pkt_cnt pkt_cnt;
          fast_retrans_trigger_cnt = add64 s.fast_retrans_trigger_cnt 1;
        };
      } in
      transmit_range l max_win_len begin position flagged

  -- `local::receive`: the oldest packet of the local queue.
  unfoldable pub local_receive : Worker Q l.State F → Option Mbuf × Worker Q l.State F
  local_receive w = elim w.local_queue [
    | [] ↦ (none, w)
    | pkt ∷ rest ↦ (pkt, record w { local_queue = rest })
  ]

  -- The data of an answer are copied if this rank receives.
  unfoldable pub store : Op → PktState → Mbuf → Worker Q l.State F → Worker Q l.State F
  store op state pkt w = if need_rx op then record w { mem = copy_out op state pkt w.mem } else w

  -- A gap in front of the answered packet is sent again.
  unfoldable pub close_gap : ℕ → Worker Q l.State F → Worker Q l.State F
  close_gap position w =
      if position == w.window.to_ack || has_acked w.window (get_prev_position position)
      then w
      else collect_retrans position w

  -- `rx_process_one` on a packet whose position has not been answered before. What the code logs
  -- about lengths that it did not expect is left out.
  unfoldable pub accept : (ℕ → Op) → ℕ → Mbuf → Worker Q l.State F → Option (Worker Q l.State F)
  accept ops position pkt w =
      let state = (mark_acked position w).window.state position in
      state.sub_op >>= λ sub_op.
      some (close_gap position (store (ops sub_op.op) state pkt (mark_acked position w)))

  unfoldable pub note_tos : Mbuf → Worker Q l.State F → Worker Q l.State F
  note_tos pkt w = record w { tos_monitor = bit_or w.tos_monitor pkt.type_of_service }

  unfoldable pub count_out_of_range : Worker Q l.State F → Worker Q l.State F
  count_out_of_range w =
      let s = w.stats in
      record w {
        stats = record s { out_range_reduntant_ack_cnt = add64 s.out_range_reduntant_ack_cnt 1 };
      }

  unfoldable pub count_in_range : Worker Q l.State F → Worker Q l.State F
  count_in_range w =
      let s = w.stats in
      record w {
        stats = record s { in_range_reduntant_ack_cnt = add64 s.in_range_reduntant_ack_cnt 1 };
      }

  unfoldable pub rx_process_one : (ℕ → Op) → Mbuf → Worker Q l.State F → Option (Worker Q l.State F)
  rx_process_one ops pkt w =
      let position = get_position w.current_group_id w.window pkt in
      if position == invalid_position
      then some (count_out_of_range (note_tos pkt w))
      else if has_acked w.window position
      then some (count_in_range (note_tos pkt w))
      else accept ops position pkt (note_tos pkt w)

  -- `local::receive` for NETCCL_PACKET_LOOPBACK, or `process_buffer->receive`, which finds `found`.
  unfoldable pub receive : Option Mbuf → Worker Q l.State F → Option Mbuf × Worker Q l.State F
  receive found w =
      if w.packet_loopback then local_receive w else (found, record w { link = l.poll w.link })

  -- The loop of `rx_process`: what its calls of `receive` find, up to the one after which it breaks,
  -- since nothing is buffered and few packets wait. It ends before if nothing is received.
  unfoldable pub rx_loop :
      (ℕ → Op) → List (Option Mbuf) → Worker Q l.State F → Option (Worker Q l.State F)
  rx_loop ops [] w = some w
  rx_loop ops (found ∷ arrived) w =
      let (received, w') = receive found w in
      elim received [
        | none ↦ some w'
        | some pkt ↦ do
          w'' ← rx_process_one ops pkt w'
          rx_loop ops arrived (record w'' { link = l.drop w''.link })
      ]

module _ {F : Type 0} (q : Spsc SubOp) (l : Link) where
  unfoldable pub rx_process :
      (ℕ → Op) → List (Option Mbuf) → Worker q.Queue l.State F → Option (Worker q.Queue l.State F)
  rx_process ops arrived w = rx_loop l ops arrived w >>= shift_ack q

-- ===== src/Worker/Send.antt =====
-- The send side of a worker: `fill_pkt` to `tx_process` of server/backend/worker.cpp.
use clean_slate_inc.Prelude.{
  ℕ, zero, suc, ◌+◌, ◌-◌, ◌/◌, ◌%◌, Bool, true, false, not, ◌||◌, ◌&&◌, Option, none, some, List,
  ◌++◌, ◌==◌, if◌then◌else◌, ◌>>=◌, ◌>>◌, assert, add64, add32, sub32, mul32, min, take, ltb, leb,
  u16_mod, u32_mod,
}
use clean_slate_inc.Op.{Op, need_tx, op_all_reduce, op_reduce}
use clean_slate_inc.Packet.{
  Mbuf, get_psn, memcpy_htobe32_select, read_bytes, sizeof_pkt, sizeof_ether_hdr, payload_size,
  htobe16, htobe32, overwrite, zeros,
}
use clean_slate_inc.LoadBalancer.{SubOp}
use clean_slate_inc.QueuePair.{Spsc, front_req, pop_req}
use clean_slate_inc.Congestion.{Double, max_win_len, reinit}
use clean_slate_inc.Window.{
  PktState, update, get_prev_position, get_next_position, window_tx_empty, window_len,
}
use clean_slate_inc.Worker.Defs.{Link, Worker, Progress, transmit, transmit_unacked}

abbrev pub max_pkt_burst : ℕ
max_pkt_burst = 32

abbrev pub timeout_time : ℕ
timeout_time = 1000

-- The payload that `fill_pkt` leaves in a packet, over what was there.
unfoldable pub fill_payload : Op → PktState → (ℕ → ℕ) → List ℕ
fill_payload op state mem =
    let bytes = read_bytes mem state.data_addr state.size in
    let copied =
      if op.op_code == op_all_reduce || op.op_code == op_reduce
      then overwrite state.pkt.payload (memcpy_htobe32_select bytes)
      else overwrite state.pkt.payload bytes in
    if ltb state.size payload_size
    then take state.size copied ++ zeros (payload_size - state.size)
    else copied

-- What `fill_pkt` leaves in `state->pkt` for the part `sub_op` of the operation `op`, if it does not
-- divide by zero. The Ethernet header and the other fields of the IP header were filled in before.
unfoldable pub filled_pkt : Op → SubOp → PktState → (ℕ → ℕ) → Mbuf
filled_pkt op sub_op state mem =
    let has_payload = need_tx op in
    let pkt_size = if has_payload then sizeof_pkt else sizeof_pkt - payload_size in
    record state.pkt {
      data_len = pkt_size;
      pkt_len = pkt_size;
      total_length = htobe16 (pkt_size - sizeof_ether_hdr);
      dst_addr = htobe32 op.group.switch_ip;
      inc = record {
        coll_type = op.op_code;
        group_id = op.group.group_id;
        rank = op.group.rank;
        root = op.root;
        agg_addr = htobe16 ((sub_op.agg_addr + state.psn % sub_op.agg_len) % u16_mod);
        psn = htobe32 state.psn;
      };
      payload = if has_payload then fill_payload op state mem else state.pkt.payload;
    }

-- `fill_pkt`: `psn % sub_agg_len` divides by zero on a part without slots of the aggregator.
unfoldable pub fill_pkt : Op → SubOp → PktState → (ℕ → ℕ) → Option Mbuf
fill_pkt op sub_op state mem =
    assert (not (sub_op.agg_len == 0)) >> some (filled_pkt op sub_op state mem)

-- How many packets a part takes: at least one.
unfoldable pub packet_count : ℕ → ℕ
packet_count size =
    let pkt_cnt = (size + payload_size - 1) / payload_size % u32_mod in
    if pkt_cnt == 0 then 1 else pkt_cnt

-- The state of the next packet of a part before `fill_pkt`.
unfoldable pub new_state : SubOp → Progress → PktState → PktState
new_state sub_op p old =
    let size_sent = mul32 p.pkt_sent payload_size in
    record old {
      acked = false;
      sub_op = some sub_op;
      data_addr = sub_op.data_addr + size_sent;
      size = min payload_size (sub32 sub_op.size size_sent);
      psn = add32 p.start_psn p.pkt_sent;
      is_last = add32 p.pkt_sent 1 == p.pkt_cnt;
    }

-- The state of the next packet of a part, filled in.
unfoldable pub next_state : Op → SubOp → Progress → PktState → (ℕ → ℕ) → PktState
unfolding new_state
next_state op sub_op p old mem =
    let state = new_state sub_op p old in record state { pkt = filled_pkt op sub_op state mem }

module _ {L F : Type 0} (q : Spsc SubOp) where
  -- The first part of `gen_pkt`: the part to go on with, or a new one from the queue.
  unfoldable pub next_sub_op : (ℕ → Op) → Worker q.Queue L F → Option SubOp × Worker q.Queue L F
  next_sub_op ops w = elim w.progress.sub_op [
    | some sub_op ↦ (some sub_op, w)
    | none ↦ elim (front_req q w.qp) [
      | none ↦ (none, record w { traffic_todo = false })
      | some sub_op ↦
          let group_id = (ops sub_op.op).group.group_id in
          let psn = w.psn_of group_id in
          let pkt_cnt = packet_count sub_op.size in
          if not (w.current_group_id == group_id) && not (window_tx_empty w.window)
          then (none, record w { traffic_todo = false })
          else (
            some sub_op,
            record w {
              current_group_id = group_id;
              current_switch_window_limit = sub_op.agg_len / 2;
              traffic_todo = true;
              progress = record {
                pkt_sent = 0;
                start_psn = psn;
                pkt_cnt = pkt_cnt;
                sub_op = some sub_op;
              };
              psn_of = update w.psn_of group_id (add32 psn pkt_cnt);
            },
          )
    ]
  ]

  -- The rest of `gen_pkt`: the packet is filled in, and a part that it ends leaves the work queue.
  unfoldable pub fill_next :
      (ℕ → Op) → ℕ → Option SubOp × Worker q.Queue L F → Option (Bool × Worker q.Queue L F)
  fill_next ops position (none, w) = some (false, w)
  fill_next ops position (some sub_op, w) = do
    let v = w.window
    let p = w.progress
    let fresh = new_state sub_op p (v.state position)
    pkt ← fill_pkt (ops sub_op.op) sub_op fresh w.mem
    let state = record fresh { pkt = pkt }
    let filled = record w { window = record v { state = update v.state position state } }
    let pkt_sent = add32 p.pkt_sent 1
    if state.is_last
        then (do
          qp ← pop_req q w.qp
          some (
            true,
            record filled { qp = qp; progress = record p { pkt_sent = pkt_sent; sub_op = none } },
          ))
        else some (true, record filled { progress = record p { pkt_sent = pkt_sent } })

  -- `gen_pkt(&window->state[position])`
  unfoldable pub gen_pkt : (ℕ → Op) → ℕ → Worker q.Queue L F → Option (Bool × Worker q.Queue L F)
  gen_pkt ops position w = fill_next ops position (next_sub_op ops w)

module _ {F : Type 0} (q : Spsc SubOp) (l : Link) where
  -- The loop of `shift_send`, for at most `fuel` packets. `window->to_send` keeps its old value
  -- meanwhile; the result has the local `to_send` and `win_len`.
  unfoldable pub send_loop :
      ℕ
      → (ℕ → Op)
      → ℕ
      → ℕ
      → ℕ
      → Worker q.Queue l.State F
      → Option (ℕ × ℕ × Worker q.Queue l.State F)
  send_loop zero ops expect win_len to_send w = some (to_send, win_len, w)
  send_loop (suc fuel) ops expect win_len to_send w =
      let step = λ (r : Bool × Worker q.Queue l.State F).
        let w' = r.1 in
        let v = w'.window in
        let w'' =
          if win_len == 0
          then record w' { window = record v { left_psn = get_psn (v.state v.to_ack).pkt } }
          else w' in
        let sent = transmit l to_send w'' in
        let rest =
          send_loop fuel ops expect (add32 win_len 1) (get_next_position to_send) (record sent {
            stats = record sent.stats { shift_send_cnt = add64 sent.stats.shift_send_cnt 1 };
          }) in
        if r.0 then rest else some (to_send, win_len, w') in
      if ltb win_len expect then gen_pkt q ops to_send w >>= step else some (to_send, win_len, w)

module _ (q : Spsc SubOp) (l : Link) (d : Double) where
  -- The length that `shift_send` aims at.
  unfoldable pub expect_win_len : ℕ → Worker q.Queue l.State d.F → ℕ
  expect_win_len win_len w = min (max_win_len - 1) (
      min w.current_switch_window_limit
        (min (d.to_u32 w.window.cc.cwnd) (add32 win_len max_pkt_burst)))

  unfoldable pub shift_send :
      (ℕ → Op) → Worker q.Queue l.State d.F → Option (Worker q.Queue l.State d.F)
  shift_send ops w = do
    let len = window_len w.window
    (to_send, win_len, w') ←
        send_loop q l max_pkt_burst ops (expect_win_len len w) len w.window.to_send w
    let v = record w'.window { to_send = to_send }
    let right = if window_tx_empty v then 0 else get_psn (v.state (get_prev_position to_send)).pkt
    some (record w' {
      cwnd_achieved = if ltb win_len (d.to_u32 v.cc.cwnd) then w'.cwnd_achieved else true;
      window = record v { right_psn = right };
    })

  unfoldable pub full_retrans : Worker q.Queue l.State d.F → Worker q.Queue l.State d.F
  full_retrans w =
      if window_tx_empty w.window
      then w
      else (let v = record w.window { last_ack_time_stamp = w.global_ts } in
          let s = w.stats in
          let counted = record w {
            window = v;
            stats = record s { full_retrans_trigger_cnt = add64 s.full_retrans_trigger_cnt 1 };
          } in
          let (cnt, w') = transmit_unacked l max_win_len v.to_ack v.to_send 0 counted in
          let s' = w'.stats in
          let v' = w'.window in
          record w' {
            stats = record s' { full_retrans_pkt_cnt = add64 s'.full_retrans_pkt_cnt cnt };
            window = record v' { cc = reinit d w'.global_ts v'.cc };
          })

  unfoldable pub tx_process :
      (ℕ → Op) → Worker q.Queue l.State d.F → Option (Worker q.Queue l.State d.F)
  tx_process ops w = do
    let acked = if w.ack_cnt == w.prev_ack_cnt then w else record w {
      prev_ack_cnt = w.ack_cnt;
      window = record w.window { last_ack_time_stamp = w.global_ts };
    }
    let waited = sub32 acked.global_ts acked.window.last_ack_time_stamp
    w' ← shift_send ops (if leb timeout_time waited then full_retrans acked else acked)
    some (
        if window_tx_empty w'.window
        then record w' { window = record w'.window { last_ack_time_stamp = w'.global_ts } }
        else w')

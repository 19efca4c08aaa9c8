-- ===== src/Worker/Tests.antt =====
-- A worker of server/backend/worker.cpp on concrete packets, and its theorems there.
use clean_slate_inc.Prelude.{
  ltb, ◌&&◌, if◌then◌else◌, leb, ℕ, ◌%◌, ◌≡◌, ◌≢◌, refl, true, false, none, some, List, [], ◌∷◌,
  ◌++◌, arith, ◌+◌, ◌≤◌, ◌-◌, ◌*◌, ◌==◌, u32_mod, length, if◌then◌else◌,
}
use clean_slate_inc.Op.{Op, Group, op_all_reduce, need_rx}
use clean_slate_inc.Packet.{get_group_id, Mbuf, get_psn, htobe32, payload_size, zeros}
use clean_slate_inc.LoadBalancer.{SubOp}
use clean_slate_inc.Congestion.{fresh_cc}
use clean_slate_inc.Congestion.FixedPoint.{fixed_point}
use clean_slate_inc.Window.{PktState, update, invalid_position, get_position}
use clean_slate_inc.Worker.Defs.{Link, Worker, Stats}
use clean_slate_inc.Worker.Receive.{rx_process_one, copy_out}
use clean_slate_inc.Worker.Send.{fill_payload, packet_count, full_retrans}
use clean_slate_inc.Worker.Resend.{full_retrans_lem}
use clean_slate_inc.Window.Positions.{IsWindow}
use clean_slate_inc.Worker.Answers.{first_answer_accepted, answer_twice}
use clean_slate_inc.Worker.Repeated.{SameState}
use clean_slate_inc.QueuePair.ListQueue.{list_queue}
use clean_slate_inc.Worker.Packets.{packet_at, packets_cover}
use clean_slate_inc.Worker.Payload.{fill_payload_lem, echo_restores, length-zeros, sent_bytes}

-- A link that keeps what it is given and whose pool is never empty.
abbrev pub wire : Link
wire = record {
  State = List Mbuf;
  send = λ pkt s. s ++ pkt ∷ [];
  copy = λ pkt. some pkt;
  sent = λ s. s;
  drop = λ s. s;
  poll = λ s. s;
  sent-drop = λ s. refl;
  sent-poll = λ s. refl;
  sent-send = λ pkt s. refl;
}

abbrev pub group : Group
group = record { group_id = 7; size = 2; rank = 0; agg_addr = 100; agg_len = 64; switch_ip = 5 }

abbrev pub op : Op
op = record {
  op_code = op_all_reduce;
  root = 0;
  size = 8;
  shm_buffer = 1000;
  group = group;
  op_with_fut = 0;
}

abbrev pub sub_op : SubOp
sub_op = record { op = 40; data_addr = 1000; size = 8; agg_addr = 100; agg_len = 64 }

abbrev pub packet : ℕ → List ℕ → Mbuf
packet psn payload = record {
  data_len = 300;
  pkt_len = 300;
  type_of_service = 0;
  total_length = 0;
  dst_addr = 0;
  inc = record { coll_type = 3; group_id = 7; rank = 0; root = 0; agg_addr = 0; psn = htobe32 psn };
  payload = payload;
}

-- Eight bytes at the address 1000, in a packet whose payload is still that of an earlier one.
abbrev pub sent_state : PktState
sent_state = record {
  acked = false;
  sub_op = some sub_op;
  data_addr = 1000;
  size = 8;
  psn = 0;
  is_last = true;
  pkt = packet 0 (zeros payload_size);
}

abbrev memory : ℕ → ℕ
memory i = i % 256

abbrev pub stats : Stats
stats = record {
  cwnd_inc_cnt = 0;
  cwnd_dec_cnt = 0;
  shift_send_cnt = 0;
  shift_ack_cnt = 0;
  fast_retrans_trigger_cnt = 0;
  fast_retrans_pkt_cnt = 0;
  full_retrans_trigger_cnt = 0;
  full_retrans_pkt_cnt = 0;
  in_range_reduntant_ack_cnt = 0;
  out_range_reduntant_ack_cnt = 0;
  win_cnt = λ _. 0;
}

-- One packet, with the sequence number 0, has been sent.
abbrev waiting : Worker (List SubOp) (List Mbuf) ℕ
waiting = record {
  qp = record { wq = []; cq = []; num_in_queue = 1 };
  window = record {
    last_ack_time_stamp = 0;
    to_send = 1;
    to_ack = 0;
    left_psn = 0;
    right_psn = 0;
    cc = fresh_cc fixed_point;
    state = λ _. sent_state;
  };
  link = [];
  local_queue = [];
  packet_loopback = false;
  psn_of = λ _. 1;
  mem = memory;
  global_ts = 5;
  current_switch_window_limit = 32;
  current_group_id = 7;
  tos_monitor = 0;
  pkt_loss_flag = false;
  traffic_todo = true;
  cwnd_achieved = false;
  ack_cnt = 0;
  prev_ack_cnt = 0;
  prev_ack_cnt_cc = 0;
  progress = record { pkt_sent = 1; start_psn = 0; pkt_cnt = 1; sub_op = none };
  stats = stats;
}

abbrev answer : Mbuf
answer = packet 0 (9 ∷ 0 ∷ 0 ∷ 0 ∷ 8 ∷ 0 ∷ 0 ∷ 0 ∷ zeros 248)

answer_position : get_position waiting.current_group_id waiting.window answer ≡ 0
unfolding get_position get_psn
answer_position = refl

late_position :
    get_position waiting.current_group_id waiting.window (packet 9 []) ≡ invalid_position
unfolding get_position get_psn
late_position = refl

answer_valid : get_position waiting.current_group_id waiting.window answer ≢ invalid_position
answer_valid e = absurd (omega (arith, e, answer_position))

first_answer_accepted_example :
    (w' : Worker (List SubOp) (List Mbuf) ℕ) × (rx_process_one wire (λ _. op) answer waiting
      ≡ some w')
    × (w'.window ≡ record waiting.window {
      state =
          update waiting.window.state
            (get_position 7 waiting.window answer)
            (record sent_state { acked = true });
    })
    × (w'.mem ≡ (
        if need_rx op
        then copy_out op (record sent_state { acked = true }) answer memory
        else memory))
    × (w'.qp ≡ waiting.qp)
    × (w'.current_group_id ≡ 7)
    × (w'.progress ≡ waiting.progress)
    × (w'.psn_of ≡ waiting.psn_of)
first_answer_accepted_example =
    first_answer_accepted wire (λ _. op) answer waiting sub_op answer_valid refl refl

answer_twice_example :
    (w' : Worker (List SubOp) (List Mbuf) ℕ) × (w'' : Worker (List SubOp) (List Mbuf) ℕ)
    × (rx_process_one wire (λ _. op) answer waiting ≡ some w')
    × (rx_process_one wire (λ _. op) answer w' ≡ some w'')
    × SameState wire w' w''
    × (w''.link ≡ w'.link)
    × (w''.local_queue ≡ w'.local_queue)
answer_twice_example = answer_twice wire (λ _. op) answer waiting sub_op answer_valid refl refl

fill_payload_lem_example :
    (fill_payload op sent_state memory ≡ sent_bytes op 1000 8 memory ++ zeros 248)
    × (length (fill_payload op sent_state memory) ≡ 256)
fill_payload_lem_example =
    fill_payload_lem op sent_state memory 2 (λ _. refl) (omega arith) (length-zeros 256)

echo_restores_example :
    copy_out op sent_state (packet 0 (fill_payload op sent_state memory)) (λ _. 9) 1003
    ≡ (if leb 1000 1003 && ltb 1003 (1000 + 8) then memory 1003 else 9)
echo_restores_example =
    echo_restores op sent_state memory 2 (packet 0 (fill_payload op sent_state memory)) (λ _. 9)
      1003 (λ _. refl) (omega arith) (length-zeros 256) refl

-- Of 600 bytes, the packet that follows the first two has the last 88.
abbrev long_part : SubOp
long_part = record sub_op { size = 600 }

packet_count_test : packet_count 600 ≡ 3
unfolding packet_count
packet_count_test = refl

packets_cover_example :
    let s = packet_at op long_part sent_state memory 4294967295 2 in
    (s.data_addr ≡ 1000 + 2 * payload_size)
    × (2 * payload_size ≤ 600)
    × (s.size ≡ (if 3 == packet_count 600 then 600 - 2 * payload_size else payload_size))
    × (s.size ≤ payload_size)
    × (s.is_last ≡ (3 == packet_count 600))
    × (s.psn ≡ (4294967295 + 2) % u32_mod)
packets_cover_example =
    packets_cover op long_part sent_state memory 4294967295 2 (omega arith)
      (omega (arith, packet_count_test))

waiting-IsWindow : IsWindow 7 waiting.window 1
unfolding get_psn get_group_id
waiting-IsWindow = record {
  run = record {
    from_in = omega arith;
    base_in = omega arith;
    short = omega arith;
    end = refl;
    psns = λ k lt. omega arith;
    groups = λ k lt. refl;
  };
  right = λ ne. refl;
}

full_retrans_lem_example :
    ((full_retrans (list_queue SubOp) wire fixed_point waiting).link ≡ sent_state.pkt ∷ [])
    × ((full_retrans (list_queue SubOp) wire fixed_point waiting).window.state
        ≡ waiting.window.state)
full_retrans_lem_example =
    full_retrans_lem (list_queue SubOp) wire fixed_point waiting waiting-IsWindow refl

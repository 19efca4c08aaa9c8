-- ===== src/Worker/Stream/Tests.antt =====
-- A worker of server/backend/worker.cpp from its start on, and what it promises there.
use clean_slate_inc.Prelude.{
  arith, ℕ, ◌+◌, ◌≡◌, ◌<◌, ◌≤◌, ◌⊎◌, refl, true, false, none, some, List, [], ◌∷◌, ◌++◌, sub32,
}
use clean_slate_inc.Packet.{Mbuf, get_psn, get_group_id}
use clean_slate_inc.Congestion.{fresh_cc}
use clean_slate_inc.Congestion.FixedPoint.{fixed_point}
use clean_slate_inc.LoadBalancer.{SubOp}
use clean_slate_inc.QueuePair.{fresh, push_req}
use clean_slate_inc.QueuePair.ListQueue.{list_queue}
use clean_slate_inc.QueuePair.History.{Reach}
use clean_slate_inc.QueuePair.Steps.{requests, responses}
use clean_slate_inc.Window.{invalid_position, window_len, get_position}
use clean_slate_inc.Window.Positions.{place}
use clean_slate_inc.Worker.Defs.{Worker}
use clean_slate_inc.Worker.Receive.{shift_ack}
use clean_slate_inc.Worker.Loop.{worker_round}
use clean_slate_inc.Worker.Tests.{wire, op, sub_op, packet, sent_state, stats}
use clean_slate_inc.Worker.Stream.{lasts, InStream}
use clean_slate_inc.Worker.Stream.Ack.{shift_ack-InStream}
use clean_slate_inc.Worker.Stream.Run.{IsFresh, Run, Run-InStream}
use clean_slate_inc.Worker.Stream.Promises.{
  worker_round_total, parts_answered_in_order, answer_finds_packet,
}

abbrev new_worker : Worker (List SubOp) (List Mbuf) ℕ
new_worker = record {
  qp = fresh (list_queue SubOp);
  window = record {
    last_ack_time_stamp = 0;
    to_send = 0;
    to_ack = 0;
    left_psn = 0;
    right_psn = 0;
    cc = fresh_cc fixed_point;
    state = λ _. record sent_state { sub_op = none };
  };
  link = [];
  local_queue = [];
  packet_loopback = false;
  psn_of = λ _. 0;
  mem = λ i. i;
  global_ts = 0;
  current_switch_window_limit = 10;
  current_group_id = 0;
  tos_monitor = 0;
  pkt_loss_flag = false;
  traffic_todo = false;
  cwnd_achieved = false;
  ack_cnt = 0;
  prev_ack_cnt = 0;
  prev_ack_cnt_cc = 0;
  progress = record { pkt_sent = 0; start_psn = 0; pkt_cnt = 0; sub_op = none };
  stats = stats;
}

new_worker-IsFresh : IsFresh (list_queue SubOp) new_worker
new_worker-IsFresh = record {
  qp = refl;
  to_ack = refl;
  to_send = refl;
  left_psn = refl;
  sub_op = refl;
  psn_of = λ g. refl;
}

-- A part of one packet has been handed over.
abbrev handed : Worker (List SubOp) (List Mbuf) ℕ
handed = record new_worker { qp = record { wq = sub_op ∷ []; cq = []; num_in_queue = 1 } }

handed-Run : Run (list_queue SubOp) wire fixed_point 7 handed (sub_op ∷ []) []
unfolding push_req fresh
handed-Run = Run.posts sub_op (Run.start new_worker-IsFresh) refl

worker_round_total_example :
    (w' : Worker (List SubOp) (List Mbuf) ℕ) × (worker_round
        (list_queue SubOp)
        wire
        fixed_point
        (λ _. op)
        3
        (some (packet 0 []) ∷ [])
        handed
      ≡ some w')
    × Run (list_queue SubOp) wire fixed_point 7 w' (sub_op ∷ []) []
worker_round_total_example =
    worker_round_total (list_queue SubOp) wire fixed_point 7 (λ _. op) 3 (some (packet 0 []) ∷ [])
      handed-Run (λ a. refl) (ground arith, tt)

-- The worker after a round in which nothing arrives: the packet of the part has been sent.
abbrev sent :
    (w' : Worker (List SubOp) (List Mbuf) ℕ) × (worker_round
        (list_queue SubOp)
        wire
        fixed_point
        (λ _. op)
        2
        []
        handed
      ≡ some w')
    × Run (list_queue SubOp) wire fixed_point 7 w' (sub_op ∷ []) []
sent =
    worker_round_total (list_queue SubOp) wire fixed_point 7 (λ _. op) 2 [] handed-Run (λ a. refl)
      (ground arith, tt)

parts_answered_in_order_example :
    let w = sent.0 in
    let flying = lasts w.window.state w.window.to_ack (window_len w.window) in
    Reach (list_queue SubOp) w.qp (sub_op ∷ []) flying []
    × (responses (list_queue SubOp) w.qp ++ (flying ++ requests (list_queue SubOp) w.qp)
        ≡ sub_op ∷ [])
parts_answered_in_order_example =
    parts_answered_in_order (list_queue SubOp) wire fixed_point 7 sent.2

abbrev reply : Mbuf
reply = record (packet 0 []) {
  inc = record (packet 0 []).inc { group_id = sent.0.current_group_id };
}

reply-group : get_group_id reply ≡ sent.0.current_group_id
unfolding get_group_id
reply-group = refl

answer_finds_packet_example :
    let w = sent.0 in
    let k = sub32 (get_psn reply) w.window.left_psn in
    let position = get_position w.current_group_id w.window reply in
    ((window_len w.window ≤ k) × (position ≡ invalid_position))
    ⊎ ((k < window_len w.window)
        × (position ≡ place w.window.to_ack k)
        × (get_psn (w.window.state position).pkt ≡ get_psn reply)
        × ((s : SubOp) × ((w.window.state position).sub_op ≡ some s)))
answer_finds_packet_example =
    answer_finds_packet (list_queue SubOp) wire fixed_point 7 reply sent.2 reply-group

shift_ack-InStream_example :
    let w = sent.0 in
    let n = (Run-InStream (list_queue SubOp) wire fixed_point 7 sent.2).0 in
    (w' : Worker (List SubOp) (List Mbuf) ℕ) × (m : ℕ) × (left : ℕ) × (shift_ack
        (list_queue SubOp)
        w
      ≡ some w')
    × (m + left ≡ n)
    × InStream (list_queue SubOp) 7 left w' (sub_op ∷ []) []
    × ((k : ℕ) → k < m → (w.window.state (place w.window.to_ack k)).acked ≡ true)
    × ((left ≡ 0) ⊎ ((w.window.state (place w.window.to_ack m)).acked ≡ false))
shift_ack-InStream_example =
    shift_ack-InStream (list_queue SubOp) 7
      (Run-InStream (list_queue SubOp) wire fixed_point 7 sent.2).0
      (Run-InStream (list_queue SubOp) wire fixed_point 7 sent.2).1

-- ===== src/Window/Tests.antt =====
-- The window of server/backend/worker.cpp on concrete states.
use clean_slate_inc.Prelude.{
  ℕ, zero, suc, ◌+◌, ◌-◌, ◌%◌, ◌<◌, ◌≡◌, refl, false, none, [], arith, u32_mod,
}
use clean_slate_inc.Packet.{Mbuf, htobe32, get_psn, get_group_id}
use clean_slate_inc.Congestion.{fresh_cc}
use clean_slate_inc.Congestion.FixedPoint.{fixed_point}
use clean_slate_inc.Window.{Window, PktState, get_position, window_len}
use clean_slate_inc.Window.Positions.{place, IsWindow}

-- A packet of group 7 with the sequence number `psn`.
abbrev packet : ℕ → Mbuf
packet psn = record {
  data_len = 300;
  pkt_len = 300;
  type_of_service = 0;
  total_length = 0;
  dst_addr = 0;
  inc = record { coll_type = 3; group_id = 7; rank = 0; root = 0; agg_addr = 0; psn = htobe32 psn };
  payload = [];
}

-- Three packets at the positions 1023, 0 and 1; their numbers go round at 2^32.
abbrev number : ℕ → ℕ
number zero = 0
number (suc zero) = 1
number _ = u32_mod - 1

abbrev state_at : ℕ → PktState
state_at p = record {
  acked = false;
  sub_op = none;
  data_addr = 0;
  size = 0;
  psn = number p;
  is_last = false;
  pkt = packet (number p);
}

abbrev three : Window ℕ
three = record {
  last_ack_time_stamp = 0;
  to_send = 2;
  to_ack = 1023;
  left_psn = u32_mod - 1;
  right_psn = 1;
  cc = fresh_cc fixed_point;
  state = state_at;
}

three-psns : (k : ℕ) → k < 3 → get_psn (state_at (place 1023 k)).pkt ≡ (u32_mod - 1 + k) % u32_mod
unfolding get_psn
three-psns zero h = refl
three-psns (suc zero) h = refl
three-psns (suc (suc zero)) h = refl
three-psns (suc (suc (suc k))) h = absurd (omega arith)

three-groups : (k : ℕ) → k < 3 → get_group_id (state_at (place 1023 k)).pkt ≡ 7
unfolding get_group_id
three-groups k h = refl

three-IsWindow : IsWindow 7 three 3
three-IsWindow = record {
  run = record {
    from_in = omega arith;
    base_in = omega arith;
    short = omega arith;
    end = refl;
    psns = three-psns;
    groups = three-groups;
  };
  right = λ _. refl;
}

abbrev answer : Mbuf
answer = packet 1

wrapped_len : window_len three ≡ 3
unfolding window_len
wrapped_len = refl

answer_position : get_position 7 three answer ≡ 1
unfolding get_position get_psn
answer_position = refl

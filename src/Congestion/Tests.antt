-- ===== src/Congestion/Tests.antt =====
-- `adjust_rate` of server/backend/worker.cpp on concrete congestion windows.
use clean_slate_inc.Prelude.{arith, ℕ, ◌+◌, ◌*◌, ◌≡◌, refl, true, false}
use clean_slate_inc.Prelude.Int.{negsuc}
use clean_slate_inc.Congestion.{Cc, adjust_cc, cc_ai}
use clean_slate_inc.Congestion.FixedPoint.{fixed_point}
use clean_slate_inc.Congestion.Rate.{fast_recovery, recover}

-- A window of 40 packets.
abbrev wide : Cc ℕ
wide = record {
  cwnd = 40 * 65536;
  target_cwnd = 60 * 65536;
  loss_ratio = 65536;
  prev_decrease_ts = 0;
  prev_adjust_ts = 0;
  adjust_cnt = negsuc 1;
}

-- Congestion at every round halves it.
halved : (adjust_cc fixed_point true false wide).cwnd ≡ 20 * 65536
unfolding adjust_cc
halved = refl

fast_recovery_example :
    (recover fixed_point 6 (adjust_cc fixed_point true false wide)).target_cwnd
    ≡ (recover fixed_point 5 (adjust_cc fixed_point true false wide)).target_cwnd
      + cc_ai fixed_point
fast_recovery_example = fast_recovery fixed_point 5 false wide (omega arith)

-- ===== src/Congestion.antt =====
-- The congestion window of the backend: `cc_t` of server/backend/common.hpp and `adjust_rate` of
-- server/backend/worker.cpp. C++ `double` is the parameter `Double`: its operations, with the
-- two facts of IEEE arithmetic that the code relies on.
pub mod Rate
pub mod FixedPoint
mod Tests
use clean_slate_inc.Prelude.{
  ℕ, ◌-◌, ◌*◌, ◌%◌, ◌<◌, ◌≡◌, Bool, true, false, ltb, if◌then◌else◌, u32_mod,
}
use clean_slate_inc.Prelude.Int.{ℤ, pos, negsuc, int_suc, ltb_ℤ}

abbrev pub max_win_len : ℕ
max_win_len = 1024

abbrev pub max_cwnd : ℕ
max_cwnd = max_win_len - 1

abbrev pub cc_reaction_time : ℕ
cc_reaction_time = 10

abbrev pub cc_cwnd_min : ℕ
cc_cwnd_min = 10

-- `-CC_FAST_RECOEVERY_CNT`
abbrev pub minus_fast_recovery_cnt : ℤ
minus_fast_recovery_cnt = negsuc 4

-- `double`: `num` converts an integer, `to_u32` converts to `win_size_t`.
pub record Double : Type 1 where
  pub F : Type 0
  pub num : ℕ → F
  pub add : F → F → F
  pub sub : F → F → F
  pub mul : F → F → F
  pub div : F → F → F
  pub lt : F → F → Bool
  pub to_u32 : F → ℕ
  pub lt-num : (m n : ℕ) → m < u32_mod → n < u32_mod → lt (num m) (num n) ≡ ltb m n
  pub to_u32-num : (n : ℕ) → n < u32_mod → to_u32 (num n) ≡ n

-- `struct cc_t`
pub record Cc (F : Type 0) : Type 0 where
  pub cwnd : F
  pub target_cwnd : F
  pub loss_ratio : F
  pub prev_decrease_ts : ℕ
  pub prev_adjust_ts : ℕ
  pub adjust_cnt : ℤ

module _ (d : Double) where
  open d use {F, num, add, sub, mul, div, lt}

  -- `CC_G`, which is 1.0/256.
  abbrev pub cc_g : F
  cc_g = div (num 1) (num 256)

  -- `CC_AI`: 1.0 * MAX_WIN_LEN / (1.0 * CC_AI_FULL_INCREASE_TIME / CC_REACTION_TIME)
  abbrev pub cc_ai : F
  cc_ai = div (mul (num 1) (num max_win_len)) (div (mul (num 1) (num 10000)) (num cc_reaction_time))

  -- the constructor
  unfoldable pub fresh_cc : Cc F
  fresh_cc = record {
    cwnd = num cc_cwnd_min;
    target_cwnd = num max_cwnd;
    loss_ratio = num 0;
    prev_decrease_ts = 0;
    prev_adjust_ts = 0;
    adjust_cnt = minus_fast_recovery_cnt;
  }

  unfoldable pub reinit : ℕ → Cc F → Cc F
  reinit now cc = record cc {
    target_cwnd = cc.cwnd;
    cwnd = num cc_cwnd_min;
    prev_decrease_ts = now;
    prev_adjust_ts = now;
    adjust_cnt = minus_fast_recovery_cnt;
  }

  -- The two branches of `adjust_rate` on the congestion state.
  unfoldable pub decrease : Cc F → Cc F
  decrease cc =
      let loss_ratio = add (mul (sub (num 1) cc_g) cc.loss_ratio) cc_g in
      record cc {
        loss_ratio = loss_ratio;
        target_cwnd = cc.cwnd;
        cwnd = mul cc.cwnd (sub (num 1) (div loss_ratio (num 2)));
        adjust_cnt = minus_fast_recovery_cnt;
      }

  unfoldable pub increase : Bool → Cc F → Cc F
  unfolding int_suc
  increase cwnd_achieved cc =
      let loss_ratio = mul (sub (num 1) cc_g) cc.loss_ratio in
      if cwnd_achieved
      then (let target =
            if ltb_ℤ cc.adjust_cnt (pos 0) then cc.target_cwnd else add cc.target_cwnd cc_ai in
          record cc {
            loss_ratio = loss_ratio;
            target_cwnd = target;
            adjust_cnt = int_suc cc.adjust_cnt;
            cwnd = div (add target cc.cwnd) (num 2);
          })
      else record cc { loss_ratio = loss_ratio }

  -- The last line of `adjust_rate`: the window is kept at CC_CWND_MIN at least.
  unfoldable pub keep_min : Cc F → Cc F
  keep_min cc = if lt cc.cwnd (num cc_cwnd_min) then record cc { cwnd = num cc_cwnd_min } else cc

  -- `adjust_rate` on the congestion state; what it does to the worker's counters is in `Worker`.
  unfoldable pub adjust_cc : Bool → Bool → Cc F → Cc F
  unfolding decrease increase keep_min
  adjust_cc congestion cwnd_achieved cc =
      keep_min (if congestion then decrease cc else increase cwnd_achieved cc)

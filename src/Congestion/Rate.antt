-- ===== src/Congestion/Rate.antt =====
-- How `adjust_rate` moves the congestion window: server/backend/worker.cpp.
use clean_slate_inc.Prelude.{
  ℕ, zero, suc, ◌+◌, ◌-◌, ◌∙◌, ap, ltb, ◌≡◌, ◌≤◌, Bool, true, false, arith, if◌then◌else◌,
}
use clean_slate_inc.Prelude.Int.{ℤ, pos, negsuc, int_suc, ltb_ℤ}
use clean_slate_inc.Congestion.{Double, Cc, cc_cwnd_min, cc_ai, minus_fast_recovery_cnt, adjust_cc}

module _ (d : Double) where
  open d use {F, num, lt, lt-num}

  -- After every adjustment, congested or not, the window is not below CC_CWND_MIN.
  pub adjust_cc-min :
      (congestion achieved : Bool) (cc : Cc F)
      → lt (adjust_cc d congestion achieved cc).cwnd (num cc_cwnd_min) ≡ false
  unfolding adjust_cc
  adjust_cc-min congestion achieved cc = ground (arith, lt-num cc_cwnd_min cc_cwnd_min)

  -- `n` adjustments without congestion while the window is used up.
  abbrev pub recover : ℕ → Cc F → Cc F
  recover zero cc = cc
  recover (suc n) cc = adjust_cc d false true (recover n cc)

  abbrev count_from : ℕ → ℤ
  count_from n = if ltb n 5 then negsuc (4 - n) else pos (n - 5)

  adjust_cnt-step : (n : ℕ) → n ≤ 2147483651 → int_suc (count_from n) ≡ count_from (n + 1)
  unfolding int_suc
  adjust_cnt-step n le = ground (arith, le)

  adjust_cnt-increase : (cc : Cc F) → (adjust_cc d false true cc).adjust_cnt ≡ int_suc cc.adjust_cnt
  unfolding adjust_cc
  adjust_cnt-increase cc = ground arith

  target-increase :
      (cc : Cc F)
      → (adjust_cc d false true cc).target_cwnd
        ≡ (if ltb_ℤ cc.adjust_cnt (pos 0) then cc.target_cwnd else d.add cc.target_cwnd (cc_ai d))
  unfolding adjust_cc
  target-increase cc = ground arith

  adjust_cnt-recover :
      (n : ℕ) (cc : Cc F)
      → n ≤ 2147483652
      → cc.adjust_cnt ≡ minus_fast_recovery_cnt
      → (recover n cc).adjust_cnt ≡ count_from n
  adjust_cnt-recover zero cc le e = e
  adjust_cnt-recover (suc n) cc le e =
      adjust_cnt-increase (recover n cc)
      ∙ ap int_suc (adjust_cnt-recover n cc (omega (arith, le)) e)
      ∙ adjust_cnt-step n (omega (arith, le))
      ∙ ap count_from (omega arith)

  adjust_cnt-congestion :
      (achieved : Bool) (cc : Cc F)
      → (adjust_cc d true achieved cc).adjust_cnt ≡ minus_fast_recovery_cnt
  unfolding adjust_cc
  adjust_cnt-congestion achieved cc = ground arith

  count-neg : (n : ℕ) → ltb_ℤ (count_from n) (pos 0) ≡ ltb n 5
  count-neg n = ground arith

  -- Fast recovery, while the window is used up between the adjustments (`cwnd_achieved`): after congestion
  -- the target stays where it is for CC_FAST_RECOEVERY_CNT adjustments without congestion, and each later
  -- one raises it by CC_AI, as long as `adjust_cnt` does not overflow.
  pub fast_recovery :
      (n : ℕ) (achieved : Bool) (cc : Cc F)
      → n ≤ 2147483652
      → let hit = adjust_cc d true achieved cc in
        (recover (suc n) hit).target_cwnd ≡ (
          if ltb n 5
          then (recover n hit).target_cwnd
          else d.add (recover n hit).target_cwnd (cc_ai d))
  fast_recovery n achieved cc le =
      let hit = adjust_cc d true achieved cc in
      target-increase (recover n hit)
      ∙ ap
          (λ b.
            if b then (recover n hit).target_cwnd else d.add (recover n hit).target_cwnd (cc_ai d))
          (ap (λ z. ltb_ℤ z (pos 0))
              (adjust_cnt-recover n hit le (adjust_cnt-congestion achieved cc))
            ∙ count-neg n)

-- ===== src/Window/Positions.antt =====
-- Positions go round the window, and an answer finds the packet that it answers:
-- server/backend/worker.cpp, `get_prev_position` to `get_position`.
use clean_slate_inc.Prelude.{
  ℕ, zero, suc, ◌+◌, ◌-◌, ◌%◌, ◌<◌, ◌≤◌, ◌≡◌, ◌≢◌, ◌⊎◌, inl, inr, ap, ◌∙◌, refl, true, false, arith,
  ltb, lt→ltb, if◌then◌else◌, sub32, u32_mod,
}
use native.Mathlib.Decide.{dec_lt}
use clean_slate_inc.Packet.{Mbuf, get_psn, get_group_id}
use clean_slate_inc.Congestion.{max_win_len}
use clean_slate_inc.Window.{
  Window, PktState, invalid_position, get_prev_position, get_next_position, window_tx_empty,
  window_len, get_position, update,
}

-- On the positions of the window the two steps undo each other and stay inside it.
pub next-prev_position :
    (p : ℕ)
    → p < max_win_len
    → (get_next_position (get_prev_position p) ≡ p)
      × (get_prev_position (get_next_position p) ≡ p)
      × (get_next_position p < max_win_len)
      × (get_prev_position p < max_win_len)
unfolding get_prev_position get_next_position
next-prev_position p h = omega arith

pub update_self : {A : Type 0} (f : ℕ → A) (i : ℕ) (v : A) → update f i v i ≡ v
update_self f i v = ground arith

pub update_ne : {A : Type 0} (f : ℕ → A) {i j : ℕ} (v : A) → i ≢ j → update f i v j ≡ f j
update_ne f v h = ground arith

-- `k` places after `to_ack`.
abbrev pub place : ℕ → ℕ → ℕ
place to_ack k = (to_ack + k) % max_win_len

-- The window runs from `to_ack` to `to_send`, is `n` packets long, and its packets carry the
-- sequence numbers from `base` on, modulo 2^32, and the group.
pub record IsRun (group base n to_ack to_send : ℕ) (state : ℕ → PktState) : Type 0 where
  pub from_in : to_ack < max_win_len
  pub base_in : base < u32_mod
  pub short : n < max_win_len
  pub end : to_send ≡ place to_ack n
  pub psns : (k : ℕ) → k < n → get_psn (state (place to_ack k)).pkt ≡ (base + k) % u32_mod
  pub groups : (k : ℕ) → k < n → get_group_id (state (place to_ack k)).pkt ≡ group

module _ {F : Type 0} where
  -- The cached sequence numbers of the two ends.
  pub record IsWindow (group : ℕ) (w : Window F) (n : ℕ) : Type 0 where
    pub run : IsRun group w.left_psn n w.to_ack w.to_send w.state
    pub right : n ≢ 0 → w.right_psn ≡ (w.left_psn + (n - 1)) % u32_mod

  -- `window_len` of a window of `n` packets is `n`, also where it goes round the end of the array.
  pub window_len_lem : {group n : ℕ} (w : Window F) → IsWindow group w n → window_len w ≡ n
  unfolding window_len
  window_len_lem w v = ground (arith, v.run.from_in, v.run.short, v.run.end)

  pub window_tx_empty_lem :
      {group n : ℕ} (w : Window F)
      → IsWindow group w n
      → window_tx_empty w ≡ (if ltb 0 n then false else true)
  unfolding window_tx_empty
  window_tx_empty_lem w v = ground (arith, v.run.from_in, v.run.short, v.run.end)

  found :
      {group : ℕ} (n : ℕ) (w : Window F) (pkt : Mbuf)
      → IsWindow group w n
      → get_group_id pkt ≡ group
      → get_psn pkt < u32_mod
      → get_position group w pkt ≡ (
          if ltb (sub32 (get_psn pkt) w.left_psn) n
          then place w.to_ack (sub32 (get_psn pkt) w.left_psn)
          else invalid_position)
  unfolding get_position
  found zero w pkt v g h =
      ground (arith, window_tx_empty_lem w v, v.run.from_in, v.run.short, v.run.base_in)
  found {group} (suc m) w pkt v g h =
      let right : w.right_psn ≡ (w.left_psn + m) % u32_mod =
        v.right (λ e. absurd (omega arith)) ∙ ap (λ j. (w.left_psn + j) % u32_mod) (omega arith) in
      ground (arith, window_tx_empty_lem w v, v.run.from_in, v.run.short, v.run.base_in)

  -- In a window of `n` packets of one group with consecutive sequence numbers, an answer of that group
  -- whose number lies `k` places into the window is given the position `k` places after `to_ack`,
  -- whose packet has that very number; any other answer of the group gets INVALID_POSITION.
  pub get_position_lem :
      {group n : ℕ} (w : Window F) (pkt : Mbuf)
      → IsWindow group w n
      → get_group_id pkt ≡ group
      → get_psn pkt < u32_mod
      → let k = sub32 (get_psn pkt) w.left_psn in
        (get_position group w pkt ≡ (if ltb k n then place w.to_ack k else invalid_position))
        × ((n ≤ k) ⊎ (get_psn (w.state (get_position group w pkt)).pkt ≡ get_psn pkt))
  get_position_lem {group} {n} w pkt v g h = (
    found n w pkt v g h,
    elim (dec_lt (sub32 (get_psn pkt) w.left_psn) n) [
      | no out ↦ inl (omega arith)
      | yes inside ↦
          let k = sub32 (get_psn pkt) w.left_psn in
          let at : get_position group w pkt ≡ place w.to_ack k =
            found n w pkt v g h
            ∙ ap (λ b. if b then place w.to_ack k else invalid_position) (lt→ltb k n inside) in
          inr (
            ap (λ p. get_psn (w.state p).pkt) at
            ∙ v.run.psns k inside
            ∙ omega (arith, v.run.base_in))
    ],
  )

  -- The position that an answer gets does not depend on the states of the packets.
  pub get_position-state :
      (group : ℕ) (v : Window F) (state : ℕ → PktState) (pkt : Mbuf)
      → get_position group (record v { state = state }) pkt ≡ get_position group v pkt
  unfolding get_position
  get_position-state group v state pkt = refl

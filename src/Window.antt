-- ===== src/Window.antt =====
-- The sliding window of a worker: `pkt_state_t` and `window_t` of server/backend/common.hpp, and
-- the arithmetic of its positions in server/backend/worker.cpp. The array of MAX_WIN_LEN packet
-- states is a function of the position.
pub mod Positions
mod Tests
use clean_slate_inc.Prelude.{
  ℕ, ◌+◌, ◌-◌, ◌%◌, ◌≡◌, Bool, true, false, ◌||◌, not, Option, none, some, ltb, leb, ◌==◌,
  if◌then◌else◌, add32, sub32, u32_mod,
}
use clean_slate_inc.Packet.{Mbuf, get_psn, get_group_id}
use clean_slate_inc.LoadBalancer.{SubOp}
use clean_slate_inc.Congestion.{Cc, max_win_len}

-- `(win_size_t)-1`
abbrev pub invalid_position : ℕ
invalid_position = u32_mod - 1

-- `struct pkt_state_t`; `sub_op` is null at first, `data_addr` is the address in `data`.
pub record PktState : Type 0 where
  pub acked : Bool
  pub sub_op : Option SubOp
  pub data_addr : ℕ
  pub size : ℕ
  pub psn : ℕ
  pub is_last : Bool
  pub pkt : Mbuf

-- `struct window_t`
pub record Window (F : Type 0) : Type 0 where
  pub last_ack_time_stamp : ℕ
  pub to_send : ℕ
  pub to_ack : ℕ
  pub left_psn : ℕ
  pub right_psn : ℕ
  pub cc : Cc F
  pub state : ℕ → PktState

-- A write to one element of the array.
abbrev pub update {ℓ} : {A : Type ℓ} → (ℕ → A) → ℕ → A → ℕ → A
update f i v j = if j == i then v else f j

-- `pos & (MAX_WIN_LEN - 1)` is the remainder modulo MAX_WIN_LEN, a power of two.
unfoldable pub get_prev_position : ℕ → ℕ
get_prev_position pos = sub32 pos 1 % max_win_len

unfoldable pub get_next_position : ℕ → ℕ
get_next_position pos = add32 pos 1 % max_win_len

module _ {F : Type 0} where
  unfoldable pub window_tx_empty : Window F → Bool
  window_tx_empty w = w.to_ack == w.to_send

  unfoldable pub window_len : Window F → ℕ
  window_len w =
      if leb w.to_ack w.to_send
      then sub32 w.to_send w.to_ack
      else sub32 (add32 max_win_len w.to_send) w.to_ack

  unfoldable pub has_acked : Window F → ℕ → Bool
  has_acked w position = (w.state position).acked

  -- The position of the packet that `pkt` answers; `group` is `current_group_id`.
  unfoldable pub get_position : ℕ → Window F → Mbuf → ℕ
  unfolding window_tx_empty get_group_id
  get_position group w pkt =
      if window_tx_empty w || not (group == get_group_id pkt)
      then invalid_position
      else if leb (sub32 (get_psn pkt) w.left_psn) (sub32 w.right_psn w.left_psn)
      then (let position = add32 (sub32 (get_psn pkt) w.left_psn) w.to_ack in
          if leb max_win_len position then sub32 position max_win_len else position)
      else invalid_position

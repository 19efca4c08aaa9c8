-- ===== src/ProcessBuffer/Order.antt =====
-- Packets reach the NIC in the order in which they were sent, each once: server/backend/process_buffer.hpp.
use clean_slate_inc.Prelude.{
  ℕ, ◌-◌, ◌*◌, ◌≡◌, ◌≤◌, ◌<◌, ◌⊎◌, add32, refl, sym, ap, ◌∙◌, false, Option, none, some, List, [],
  ◌∷◌, ◌++◌, ◌==◌, if◌then◌else◌, ltb, length, take, drop, arith, append_assoc, length-append,
  length-drop, take-append-drop, Bool-cases, inl, inr,
}
use clean_slate_inc.Packet.{Mbuf}
use clean_slate_inc.ProcessBuffer.{
  Nic, ProcessBuffer, flush_once, check_flush_timer, receive, wait_room, enqueue, send,
}

List-cases : {A : Type 0} (xs : List A) → (xs ≡ []) ⊎ ((x : A) × (rest : List A) × (xs ≡ x ∷ rest))
List-cases [] = inl refl
List-cases (x ∷ xs) = inr (x, xs, refl)

module _ (n : Nic) where
  -- The packets sent so far: those that the NIC has taken and those that wait.
  abbrev pub handed : ProcessBuffer n.State → List Mbuf
  handed b = n.taken b.nic ++ b.tx

  pub handed-flush_once : (b : ProcessBuffer n.State) → handed (flush_once n b) ≡ handed b
  unfolding flush_once
  handed-flush_once b =
      let k = (n.tx_burst b.tx b.nic).0 in
      rw (n.taken-tx_burst b.tx b.nic) (
        append_assoc (n.taken b.nic) (take k b.tx) (drop k b.tx)
        ∙ ap (λ l. n.taken b.nic ++ l) (take-append-drop k b.tx))

  pub handed-check : (b : ProcessBuffer n.State) → handed (check_flush_timer n b) ≡ handed b
  unfolding check_flush_timer
  handed-check b = elim (Bool-cases (ltb b.flush_timer (b.tx_size * 2))) [
    | inl early ↦ rw (early, check_flush_timer) refl
    | inr late ↦ rw (late, check_flush_timer) (handed-flush_once b)
  ]

  abbrev pub length_after_flush : ProcessBuffer n.State → ℕ
  length_after_flush b = length b.tx - (n.tx_burst b.tx b.nic).0

  pub length-flush_once :
      (b : ProcessBuffer n.State)
      → (length (flush_once n b).tx ≡ length_after_flush b) × ((flush_once n b).tx_size ≡ b.tx_size)
  unfolding flush_once
  length-flush_once b = (length-drop (n.tx_burst b.tx b.nic).0 b.tx, refl)

  -- A place comes free.
  unfoldable pub Room : ProcessBuffer n.State → ProcessBuffer n.State → Type 0
  Room b b' = (handed b' ≡ handed b) × (length b'.tx < b.tx_size) × (b'.tx_size ≡ b.tx_size)

  wait_room-Room :
      (b : ProcessBuffer n.State)
      → 0 < b.tx_size
      → length b.tx ≤ b.tx_size
      → ((length b.tx < b.tx_size) ⊎ (0 < (n.tx_burst b.tx b.nic).0))
      → (b' : ProcessBuffer n.State) × (wait_room n 1 b ≡ some b') × Room b b'
  unfolding wait_room Room
  wait_room-Room b pos le progress = elim (Bool-cases (length b.tx == b.tx_size)) [
    | inr free ↦ (b, rw (free, wait_room) refl, (refl, ground arith, refl))
    | inl full ↦
        let (len, size) = length-flush_once b in
        let less : length (flush_once n b).tx < b.tx_size =
          ground (arith, n.tx_burst-le b.tx b.nic) in
        let room : (length (flush_once n b).tx == (flush_once n b).tx_size) ≡ false =
          ground arith in
        (flush_once n b, rw (full, wait_room, room) refl, (handed-flush_once b, less, size))
  ]

  pub enqueue-Room :
      (pkt : Mbuf) (b : ProcessBuffer n.State)
      → length b.tx < b.tx_size
      → (handed (enqueue n pkt b) ≡ handed b ++ pkt ∷ [])
        × (length (enqueue n pkt b).tx ≤ b.tx_size)
        × ((enqueue n pkt b).tx_size ≡ b.tx_size)
  unfolding enqueue
  enqueue-Room pkt b room =
      let b' : ProcessBuffer n.State = record b {
        total_tx_nb = add32 b.total_tx_nb 1;
        tx = b.tx ++ pkt ∷ [];
      } in
      let joined : handed b' ≡ handed b ++ pkt ∷ [] =
        sym (append_assoc (n.taken b.nic) b.tx (pkt ∷ [])) in
      let grown = length-append b.tx (pkt ∷ []) in
      elim (Bool-cases (length (b.tx ++ pkt ∷ []) == b.tx_size)) [
        | inl full ↦
            let (len, size) = length-flush_once b' in
            rw (full, enqueue)
              (handed-flush_once b' ∙ joined, omega (arith, len, grown, room), size)
        | inr free ↦ rw (free, enqueue) (joined, omega (arith, grown, room), refl)
      ]

  -- `send` on a buffer that is not full, or whose NIC takes a packet at the next burst, returns after at
  -- most one burst of waiting; the packet then stands behind all that were sent before, of which none
  -- is lost, doubled or out of order, and no more wait than the buffer holds.
  pub send_in_order :
      (pkt : Mbuf) (b : ProcessBuffer n.State)
      → 0 < b.tx_size
      → length b.tx ≤ b.tx_size
      → ((length b.tx < b.tx_size) ⊎ (0 < (n.tx_burst b.tx b.nic).0))
      → (b' : ProcessBuffer n.State) × (send n 1 pkt b ≡ some b')
        × (handed b' ≡ handed b ++ pkt ∷ [])
        × (length b'.tx ≤ b'.tx_size)
        × (b'.tx_size ≡ b.tx_size)
  unfolding send Room
  send_in_order pkt b pos le progress =
      let (w, waited, (order, room, size)) = wait_room-Room b pos le progress in
      let (joined, bound, same) = enqueue-Room pkt w (omega (arith, room, size)) in
      (
        enqueue n pkt w,
        rw (waited, send) refl,
        joined ∙ ap (λ l. l ++ pkt ∷ []) order,
        omega (arith, bound, same),
        same ∙ size,
      )

  abbrev pub received : Option Mbuf → List Mbuf
  received none = []
  received (some pkt) = pkt ∷ []

  -- `receive` hands out the buffered packets in order, and asks the NIC for a burst of at most `rx_size`
  -- only when none is left, of which it hands out the first: else the NIC is as the flush timer leaves
  -- it. It never changes what has been sent.
  pub receive_in_order :
      (b : ProcessBuffer n.State)
      → let b' = check_flush_timer n b in
        (received (receive n b).0 ++ (receive n b).1.rx
          ≡ (if length b'.rx == 0 then (n.rx_burst b'.rx_size b'.nic).0 else b'.rx))
        × ((receive n b).1.nic
            ≡ (if length b'.rx == 0 then (n.rx_burst b'.rx_size b'.nic).1 else b'.nic))
        × (handed (receive n b).1 ≡ handed b)
  unfolding receive
  receive_in_order b =
      let b' = check_flush_timer n b in
      elim (List-cases b'.rx) [
        | inr (pkt, rest, e) ↦ rw (receive, e) (ground arith, ground arith, handed-check b)
        | inl e ↦ elim (List-cases (n.rx_burst b'.rx_size b'.nic).0) [
          | inl f ↦
              rw (receive, e, f)
                (
                  e,
                  refl,
                  ap (λ l. l ++ b'.tx) (n.taken-rx_burst b'.rx_size b'.nic) ∙ handed-check b,
                )
          | inr (pkt, rest, f) ↦
              rw (receive, e, f)
                (
                  refl,
                  refl,
                  ap (λ l. l ++ b'.tx) (n.taken-rx_burst b'.rx_size b'.nic) ∙ handed-check b,
                )
        ]
      ]

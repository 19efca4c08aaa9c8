-- ===== src/ProcessBuffer/Linked.antt =====
-- The process buffer as the link of a worker: `send` of server/backend/process_buffer.hpp behind the
-- calls `ctx->process_buffer->send` and `drop` of server/backend/worker.cpp.
use clean_slate_inc.Prelude.{
  ltb, ◌*◌, ℕ, zero, suc, ◌≡◌, ◌≤◌, ◌<◌, inl, inr, refl, ap, ◌∙◌, subst, Option, some, [], ◌∷◌,
  ◌++◌, length, arith, Bool-cases, ◌==◌,
}
use clean_slate_inc.Packet.{Mbuf}
use clean_slate_inc.ProcessBuffer.{
  Nic, ProcessBuffer, flush_once, check_flush_timer, drop_packet, wait_room, enqueue, send,
}
use clean_slate_inc.ProcessBuffer.Order.{
  handed, handed-check, handed-flush_once, length-flush_once, Room, enqueue-Room,
}
use clean_slate_inc.Worker.Defs.{Link}

-- A NIC that does not stop taking packets: the wait of `send` for room ends.
pub record Live (n : Nic) : Type 0 where
  pub wait_ends :
      (b : ProcessBuffer n.State)
      → length b.tx ≤ b.tx_size
      → (fuel : ℕ) × (b' : ProcessBuffer n.State) × (wait_room n fuel b ≡ some b')

module _ (n : Nic) where
  wait_room-Room :
      (fuel : ℕ) (b : ProcessBuffer n.State) {b' : ProcessBuffer n.State}
      → length b.tx ≤ b.tx_size
      → wait_room n fuel b ≡ some b'
      → Room n b b'
  unfolding wait_room Room
  wait_room-Room zero b {b'} le e = ground (arith)
  wait_room-Room (suc fuel) b {b'} le e = elim (Bool-cases (length b.tx == b.tx_size)) [
    | inr free ↦
        let same : b ≡ b' = ground arith in subst (Room n b) same (refl, ground arith, refl)
    | inl full ↦
        let (len, size) = length-flush_once n b in
        let (order, room, kept) =
          wait_room-Room fuel (flush_once n b) {b' = b'} (omega (arith, len, size, le))
            (ground arith) in
        (order ∙ handed-flush_once n b, omega (arith, room, size), kept ∙ size)
  ]

module _ (n : Nic) (live : Live n) where
  -- The buffer is never fuller than its array.
  abbrev pub Fits : Type 0
  Fits = (b : ProcessBuffer n.State) × (0 < b.tx_size) × (length b.tx ≤ b.tx_size)

  -- `send` returns, after as many bursts as it takes.
  pub sent_by :
      (pkt : Mbuf) (s : Fits)
      → (s' : Fits) × (fuel : ℕ) × (send n fuel pkt s.0 ≡ some s'.0)
        × (handed n s'.0 ≡ handed n s.0 ++ pkt ∷ [])
  unfolding send Room
  sent_by pkt (b, pos, le) =
      let (fuel, w, waited) = live.wait_ends b le in
      let (order, room, size) = wait_room-Room n fuel b le waited in
      let (joined, bound, same) = enqueue-Room n pkt w (omega (arith, room, size)) in
      (
        (enqueue n pkt w, omega (arith, same, size), omega (arith, same, bound)),
        fuel,
        rw (waited, send) refl,
        joined ∙ ap (λ l. l ++ pkt ∷ []) order,
      )

  abbrev pub send_fit : Mbuf → Fits → Fits
  send_fit pkt s = (sent_by pkt s).0

  abbrev pub drop_fit : Fits → Fits
  unfolding drop_packet
  drop_fit (b, pos, le) = (drop_packet b, pos, le)

  pub check-bound :
      (b : ProcessBuffer n.State)
      → length b.tx ≤ b.tx_size
      → (length (check_flush_timer n b).tx ≤ b.tx_size)
        × ((check_flush_timer n b).tx_size ≡ b.tx_size)
  unfolding check_flush_timer
  check-bound b le = elim (Bool-cases (ltb b.flush_timer (b.tx_size * 2))) [
    | inl early ↦ rw (early, check_flush_timer) (le, refl)
    | inr late ↦
        let (len, size) = length-flush_once n b in
        rw (late, check_flush_timer) (omega (arith, len, le), size)
  ]

  -- The flush timer of `receive`; what it finds in the NIC is told to the worker.
  abbrev pub poll_fit : Fits → Fits
  poll_fit (b, pos, le) =
      let (bound, size) = check-bound b le in
      (check_flush_timer n b, omega (arith, size, pos), omega (arith, size, bound))

  pub handed-poll_fit : (s : Fits) → handed n (poll_fit s).0 ≡ handed n s.0
  handed-poll_fit (b, pos, le) = handed-check n b

  pub handed-drop_fit : (s : Fits) → handed n (drop_fit s).0 ≡ handed n s.0
  unfolding drop_packet drop_fit
  handed-drop_fit (b, pos, le) = refl

  pub handed-send_fit :
      (pkt : Mbuf) (s : Fits) → handed n (send_fit pkt s).0 ≡ handed n s.0 ++ pkt ∷ []
  handed-send_fit pkt s = (sent_by pkt s).3

  -- What the link does is what `send` does.
  pub send-send_fit :
      (pkt : Mbuf) (s : Fits) → (fuel : ℕ) × (send n fuel pkt s.0 ≡ some (send_fit pkt s).0)
  send-send_fit pkt s = ((sent_by pkt s).1, (sent_by pkt s).2)

  -- The link of a worker whose packets can be copied as `copy` says.
  abbrev pub buffered : (Mbuf → Option Mbuf) → Link
  buffered copy = record {
    State = Fits;
    send = send_fit;
    copy = copy;
    sent = λ s. handed n s.0;
    drop = drop_fit;
    poll = poll_fit;
    sent-drop = handed-drop_fit;
    sent-poll = handed-poll_fit;
    sent-send = handed-send_fit;
  }

-- ===== src/Worker/Resend.antt =====
-- What a timeout sends again: `transmit_unacked` and `full_retrans` of server/backend/worker.cpp.
use clean_slate_inc.Prelude.{
  ℕ, zero, suc, ◌+◌, ◌%◌, ◌≡◌, ◌≢◌, ◌≤◌, ◌<◌, refl, sym, subst, ap, ◌∙◌, inl, inr, true, false,
  List, [], ◌∷◌, ◌++◌, append_assoc, append-nil, ◌==◌, if◌then◌else◌, add64, arith, Bool-cases,
}
use clean_slate_inc.Packet.{Mbuf}
use clean_slate_inc.LoadBalancer.{SubOp}
use clean_slate_inc.QueuePair.{Spsc}
use clean_slate_inc.Congestion.{Double, max_win_len}
use clean_slate_inc.Window.{PktState, get_next_position, window_tx_empty}
use clean_slate_inc.Window.Positions.{place, IsWindow, window_tx_empty_lem}
use clean_slate_inc.Worker.Defs.{Link, Worker, transmit, transmit_unacked}
use clean_slate_inc.Worker.Send.{full_retrans}

-- Of the `n` packets from `position` on, those without an answer.
abbrev pub unacked : (ℕ → PktState) → ℕ → ℕ → List Mbuf
unacked state position zero = []
unacked state position (suc n) =
    (if (state position).acked then [] else (state position).pkt ∷ [])
    ++ unacked state ((position + 1) % max_win_len) n

next_lem : (p : ℕ) → p < max_win_len → get_next_position p ≡ (p + 1) % max_win_len
unfolding get_next_position
next_lem p h = omega arith

module _ {Q F : Type 0} (l : Link) where
  -- `w'` is `w` after `pkts` have been sent.
  record Sends (pkts : List Mbuf) (w w' : Worker Q l.State F) : Type 0 where
    pub sent : l.sent w'.link ≡ l.sent w.link ++ pkts
    pub loopback : w'.packet_loopback ≡ w.packet_loopback
    pub state : w'.window.state ≡ w.window.state

  Sends-trans :
      {a b c : Worker Q l.State F} (xs ys : List Mbuf)
      → Sends xs a b
      → Sends ys b c
      → Sends (xs ++ ys) a c
  Sends-trans {a} xs ys p r = record {
    sent = r.sent ∙ ap (λ s. s ++ ys) p.sent ∙ append_assoc (l.sent a.link) xs ys;
    loopback = r.loopback ∙ p.loopback;
    state = r.state ∙ p.state;
  }

  transmit-Sends :
      (p : ℕ) (w : Worker Q l.State F)
      → w.packet_loopback ≡ false
      → Sends ((w.window.state p).pkt ∷ []) w (transmit l p w)
  unfolding transmit
  transmit-Sends p w e =
      let same : transmit l p w ≡ record w { link = l.send (w.window.state p).pkt w.link } =
        ground arith in
      subst (Sends ((w.window.state p).pkt ∷ []) w) (sym same)
        (record { sent = l.sent-send (w.window.state p).pkt w.link; loopback = refl; state = refl })

  Sends-none : (w : Worker Q l.State F) → Sends [] w w
  Sends-none w = record { sent = sym (append-nil (l.sent w.link)); loopback = refl; state = refl }

  transmit_unacked-Sends :
      (n fuel p end cnt : ℕ) (w : Worker Q l.State F)
      → p < max_win_len
      → n < max_win_len
      → n ≤ fuel
      → end ≡ place p n
      → w.packet_loopback ≡ false
      → Sends (unacked w.window.state p n) w (transmit_unacked l fuel p end cnt w).1
  unfolding transmit_unacked
  transmit_unacked-Sends zero zero p end cnt w h small le e out = Sends-none w
  transmit_unacked-Sends zero (suc fuel) p end cnt w h small le e out =
      (let stop : (p == end) ≡ true = (let same : p ≡ end = omega (arith, e) in ground arith) in
        rw (stop, transmit_unacked) (Sends-none w))
  transmit_unacked-Sends (suc n) zero p end cnt w h small le e out = absurd (omega arith)
  transmit_unacked-Sends (suc n) (suc fuel) p end cnt w h small le e out =
      let go : (p == end) ≡ false =
        (let ne : p ≢ end = λ same. absurd (omega (arith, e, same)) in ground arith) in
      let next = next_lem p h in
      elim (Bool-cases (w.window.state p).acked) [
        | inl acked ↦
            rw (go, acked, next, transmit_unacked)
              (transmit_unacked-Sends n fuel ((p + 1) % max_win_len) end cnt w (omega arith)
                (omega arith) (omega arith) (omega (arith, e)) out)
        | inr waits ↦
            let one = transmit-Sends p w out in
            let w' = transmit l p w in
            let rest =
              transmit_unacked-Sends n fuel ((p + 1) % max_win_len) end (add64 cnt 1) w'
                (omega arith) (omega arith) (omega arith) (omega (arith, e)) (one.loopback ∙ out) in
            rw (go, waits, next, transmit_unacked)
              (Sends-trans ((w.window.state p).pkt ∷ [])
                (unacked w.window.state ((p + 1) % max_win_len) n) one
                (subst
                  (λ f.
                    Sends (unacked f ((p + 1) % max_win_len) n) w'
                      (transmit_unacked l fuel ((p + 1) % max_win_len) end (add64 cnt 1) w').1)
                  one.state rest))
      ]

module _ (q : Spsc SubOp) (l : Link) (d : Double) where
  -- A timeout of a window of `n` packets, when packets do not loop back, sends again the packets that
  -- have no answer yet, each once and in the order of the window, and no other, whether or not the
  -- window goes round the end of its array, and leaves the window's packets as they are.
  pub full_retrans_lem :
      {group n : ℕ} (w : Worker q.Queue l.State d.F)
      → IsWindow group w.window n
      → w.packet_loopback ≡ false
      → (l.sent (full_retrans q l d w).link
          ≡ l.sent w.link ++ unacked w.window.state w.window.to_ack n)
        × ((full_retrans q l d w).window.state ≡ w.window.state)
  unfolding full_retrans
  full_retrans_lem {n = n} w v out = elim (Bool-cases (window_tx_empty w.window)) [
    | inl empty ↦
        let none_left : n ≡ 0 = ground (arith, window_tx_empty_lem w.window v) in
        rw (empty, full_retrans)
          (
            sym (
                ap (λ k. l.sent w.link ++ unacked w.window.state w.window.to_ack k) none_left
                ∙ append-nil (l.sent w.link)),
            refl,
          )
    | inr some_left ↦
        let counted : Worker q.Queue l.State d.F = record w {
          window = record w.window { last_ack_time_stamp = w.global_ts };
          stats = record w.stats {
            full_retrans_trigger_cnt = add64 w.stats.full_retrans_trigger_cnt 1;
          };
        } in
        let s =
          transmit_unacked-Sends l n max_win_len w.window.to_ack w.window.to_send 0 counted
            v.run.from_in v.run.short (omega (arith, v.run.short)) v.run.end out in
        rw (some_left, full_retrans) (s.sent, s.state)
  ]

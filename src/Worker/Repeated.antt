-- ===== src/Worker/Repeated.antt =====
-- An answer that has come before, or that no packet waits for, changes nothing but the counts:
-- `rx_process_one` of server/backend/worker.cpp.
use clean_slate_inc.Prelude.{
  ℕ, zero, suc, ◌≡◌, ◌⊎◌, inl, inr, refl, ◌∙◌, true, false, some, arith, ◌==◌, add64, Bool-cases,
}
use clean_slate_inc.Op.{Op}
use clean_slate_inc.Packet.{Mbuf}
use clean_slate_inc.Congestion.{max_win_len}
use clean_slate_inc.Window.{invalid_position, has_acked, get_position}
use clean_slate_inc.Worker.Defs.{Link, Worker, transmit, transmit_range}
use clean_slate_inc.Worker.Receive.{
  unanswered_run, collect_retrans, rx_process_one, note_tos, count_out_of_range, count_in_range,
}

module _ {Q F : Type 0} (l : Link) where
  -- What the worker keeps when it only sends.
  pub record SameState (w w' : Worker Q l.State F) : Type 0 where
    pub window : w'.window ≡ w.window
    pub mem : w'.mem ≡ w.mem
    pub qp : w'.qp ≡ w.qp
    pub group : w'.current_group_id ≡ w.current_group_id
    pub ack_cnt : w'.ack_cnt ≡ w.ack_cnt
    pub progress : w'.progress ≡ w.progress
    pub psn_of : w'.psn_of ≡ w.psn_of

  -- The parts of the worker that storing an answer's data leaves alone.
  abbrev pub SameStored : Worker Q l.State F → Worker Q l.State F → Type 0
  SameStored w w' =
      (w'.window ≡ w.window)
      × (w'.qp ≡ w.qp)
      × (w'.current_group_id ≡ w.current_group_id)
      × (w'.progress ≡ w.progress)
      × (w'.psn_of ≡ w.psn_of)

  pub SameState-trans : {a b c : Worker Q l.State F} → SameState a b → SameState b c → SameState a c
  SameState-trans p r = record {
    window = r.window ∙ p.window;
    mem = r.mem ∙ p.mem;
    qp = r.qp ∙ p.qp;
    group = r.group ∙ p.group;
    ack_cnt = r.ack_cnt ∙ p.ack_cnt;
    progress = r.progress ∙ p.progress;
    psn_of = r.psn_of ∙ p.psn_of;
  }

  pub transmit-SameState :
      (position : ℕ) (w : Worker Q l.State F) → SameState w (transmit l position w)
  unfolding transmit
  transmit-SameState position w = ground arith

  pub transmit_range-SameState :
      (fuel begin end : ℕ) (w : Worker Q l.State F)
      → SameState w (transmit_range l fuel begin end w)
  unfolding transmit_range
  transmit_range-SameState zero begin end w = ground arith
  transmit_range-SameState (suc fuel) begin end w = elim (Bool-cases (begin == end)) [
    | inl stop ↦ rw (stop, transmit_range) (ground arith)
    | inr go ↦
        rw (go, transmit_range)
          (SameState-trans (transmit-SameState begin w)
            (transmit_range-SameState fuel _ end (transmit l begin w)))
  ]

  pub collect_retrans-SameState :
      (position : ℕ) (w : Worker Q l.State F) → SameState w (collect_retrans l position w)
  unfolding collect_retrans
  collect_retrans-SameState position w =
      SameState-trans {b = flagged} (ground arith)
        (transmit_range-SameState max_win_len begin position flagged)
    where
      begin : ℕ
      begin = (unanswered_run max_win_len w.window position 0).0

      flagged : Worker Q l.State F
      flagged = record w {
        pkt_loss_flag = true;
        stats = record w.stats {
          fast_retrans_pkt_cnt =
              add64 w.stats.fast_retrans_pkt_cnt (unanswered_run max_win_len w.window position 0).1;
          fast_retrans_trigger_cnt = add64 w.stats.fast_retrans_trigger_cnt 1;
        };
      }

  -- An answer whose position is INVALID_POSITION, or has been answered before, changes neither the
  -- window nor the memory, sends nothing and completes nothing.
  pub redundant_answer_ignored :
      (ops : ℕ → Op) (pkt : Mbuf) (w : Worker Q l.State F)
      → ((get_position w.current_group_id w.window pkt ≡ invalid_position)
          ⊎ (has_acked w.window (get_position w.current_group_id w.window pkt) ≡ true))
      → (w' : Worker Q l.State F) × (rx_process_one l ops pkt w ≡ some w')
        × SameState w w'
        × (w'.link ≡ w.link)
        × (w'.local_queue ≡ w.local_queue)
  unfolding rx_process_one count_out_of_range count_in_range note_tos
  redundant_answer_ignored ops pkt w h =
      elim (Bool-cases (get_position w.current_group_id w.window pkt == invalid_position)) [
        | inl out ↦ (
          count_out_of_range l (note_tos l pkt w),
          rw (out, rx_process_one) refl,
          record {
            window = refl;
            mem = refl;
            qp = refl;
            group = refl;
            ack_cnt = refl;
            progress = refl;
            psn_of = refl;
          },
          refl,
          refl,
        )
        | inr inside ↦ (
          count_in_range l (note_tos l pkt w),
          rw (inside, rx_process_one, second h inside) refl,
          record {
            window = refl;
            mem = refl;
            qp = refl;
            group = refl;
            ack_cnt = refl;
            progress = refl;
            psn_of = refl;
          },
          refl,
          refl,
        )
      ]
    where
      second :
          (get_position w.current_group_id w.window pkt ≡ invalid_position)
            ⊎ (has_acked w.window (get_position w.current_group_id w.window pkt) ≡ true)
          → (get_position w.current_group_id w.window pkt == invalid_position) ≡ false
          → has_acked w.window (get_position w.current_group_id w.window pkt) ≡ true
      second (inl e) f = absurd (ground arith)
      second (inr e) f = e

-- ===== src/Worker/Stream/Kept.antt =====
-- What does not disturb the stream of a worker: marking a packet as answered, and everything that
-- leaves the window, the queues and the numbering alone: server/backend/worker.cpp.
use clean_slate_inc.Prelude.{
  ℕ, ◌+◌, ◌%◌, ◌≡◌, ◌≢◌, ◌<◌, ◌⊎◌, add32, inl, inr, refl, sym, ap, ◌∙◌, subst, true, some, List,
  arith, u32_mod,
}
use clean_slate_inc.LoadBalancer.{SubOp}
use clean_slate_inc.QueuePair.{Spsc, QueuePair, front_req}
use clean_slate_inc.QueuePair.History.{Reach}
use clean_slate_inc.Window.{Window, PktState, update}
use clean_slate_inc.Window.Positions.{place, IsRun, IsWindow}
use clean_slate_inc.Packet.{get_psn, get_group_id}
use clean_slate_inc.Worker.Defs.{Worker, Progress}
use clean_slate_inc.Worker.Stream.{lasts, HaveParts, IsNext, InStream}
use clean_slate_inc.Worker.Stream.Lasts.{lasts-acked}

abbrev pub acked_at : (ℕ → PktState) → ℕ → ℕ → PktState
acked_at f i = update f i (record (f i) { acked = true })

acked_at-pkt : (f : ℕ → PktState) (i j : ℕ) → (acked_at f i j).pkt ≡ (f j).pkt
acked_at-pkt f i j = ground arith

acked_at-sub_op : (f : ℕ → PktState) (i j : ℕ) → (acked_at f i j).sub_op ≡ (f j).sub_op
acked_at-sub_op f i j = ground arith

IsRun-acked :
    {group base n to_ack to_send : ℕ} {f : ℕ → PktState} (i : ℕ)
    → IsRun group base n to_ack to_send f
    → IsRun group base n to_ack to_send (acked_at f i)
IsRun-acked {to_ack = to_ack} {f = f} i v = record {
  from_in = v.from_in;
  base_in = v.base_in;
  short = v.short;
  end = v.end;
  psns = λ k lt. ap get_psn (acked_at-pkt f i (place to_ack k)) ∙ v.psns k lt;
  groups = λ k lt. ap get_group_id (acked_at-pkt f i (place to_ack k)) ∙ v.groups k lt;
}

module _ {L F : Type 0} (q : Spsc SubOp) (group : ℕ) where
  -- What the stream depends on besides the window.
  pub record SameQueues (w w' : Worker q.Queue L F) : Type 0 where
    pub qp : w'.qp ≡ w.qp
    pub progress : w'.progress ≡ w.progress
    pub psn_of : w'.psn_of ≡ w.psn_of
    pub current : w'.current_group_id ≡ w.current_group_id

  -- The numbering hangs on the part in hand, the numbers given out and the first request.
  pub IsNext-same :
      {next : ℕ} {w w' : Worker q.Queue L F}
      → w'.progress ≡ w.progress
      → w'.psn_of ≡ w.psn_of
      → front_req q w'.qp ≡ front_req q w.qp
      → IsNext q group next w
      → IsNext q group next w'
  IsNext-same {next} {w} {w'} progress psn_of front v = record {
    next_in = v.next_in;
    idle = λ h. ap (λ (f : ℕ → ℕ). f group) psn_of ∙ v.idle (sub_op ∙ h);
    busy_psn = λ s h.
        ap (λ (p : Progress). add32 p.start_psn p.pkt_sent) progress ∙ v.busy_psn s (sub_op ∙ h);
    busy_left = λ s h.
        ap (λ (f : ℕ → ℕ). f group) psn_of
        ∙ v.busy_left s (sub_op ∙ h)
        ∙ ap (λ (p : Progress). add32 p.start_psn p.pkt_cnt) (sym progress);
    busy_more = λ s h.
        subst (λ (p : Progress). p.pkt_sent < p.pkt_cnt) (sym progress)
          (v.busy_more s (sub_op ∙ h));
    busy_in = λ s h.
        subst (λ (p : Progress). p.pkt_cnt < u32_mod) (sym progress) (v.busy_in s (sub_op ∙ h));
    busy_front = λ s h. front ∙ v.busy_front s (sub_op ∙ h);
  }
    where
      sub_op : w.progress.sub_op ≡ w'.progress.sub_op
      sub_op = ap (λ (p : Progress). p.sub_op) (sym progress)

  -- Other states of the packets, which carry the same numbers and parts.
  InStream-states :
      {n : ℕ} {w w' : Worker q.Queue L F} {made got : List SubOp} (f : ℕ → PktState)
      → InStream q group n w made got
      → SameQueues w w'
      → w'.window ≡ record w.window { state = f }
      → IsRun group w.window.left_psn n w.window.to_ack w.window.to_send f
      → HaveParts f w.window.to_ack n
      → lasts f w.window.to_ack n ≡ lasts w.window.state w.window.to_ack n
      → InStream q group n w' made got
  InStream-states {n} {w} {w'} {made} {got} f v same e run parts ended = record {
    window =
        subst (λ (z : Window F). IsWindow group z n) (sym e)
          (record { run = run; right = v.window.right });
    parts = subst (λ (z : Window F). HaveParts z.state z.to_ack n) (sym e) parts;
    queues =
        subst (λ (z : Window F). Reach q w'.qp made (lasts z.state z.to_ack n) got) (sym e)
          (subst (λ (z : QueuePair q.Queue). Reach q z made (lasts f w.window.to_ack n) got)
            (sym same.qp) (subst (λ l. Reach q w.qp made l got) (sym ended) v.queues));
    next = v.next;
    follows = λ ne. v.follows ne ∙ ap (λ (z : Window F). (z.left_psn + n) % u32_mod) (sym e);
    numbers =
        IsNext-same same.progress same.psn_of
          (ap (λ (z : QueuePair q.Queue). front_req q z) same.qp) v.numbers;
    current = λ c. same.current ∙ v.current (busy c);
  }
    where
      busy :
          (n ≢ 0) ⊎ ((s : SubOp) × (w'.progress.sub_op ≡ some s))
          → (n ≢ 0) ⊎ ((s : SubOp) × (w.progress.sub_op ≡ some s))
      busy (inl ne) = inl ne
      busy (inr (s, h)) = inr (s, ap (λ (p : Progress). p.sub_op) (sym same.progress) ∙ h)

  -- One more packet is answered.
  pub InStream-acked :
      {n : ℕ} {w w' : Worker q.Queue L F} {made got : List SubOp} (i : ℕ)
      → InStream q group n w made got
      → SameQueues w w'
      → w'.window ≡ record w.window { state = acked_at w.window.state i }
      → InStream q group n w' made got
  InStream-acked {n} {w} i v same e =
      InStream-states (acked_at w.window.state i) v same e (IsRun-acked i v.window.run)
        (λ k lt.
          let (s, h) = v.parts k lt in
          (s, acked_at-sub_op w.window.state i (place w.window.to_ack k) ∙ h))
        (lasts-acked n w.window.state w.window.to_ack i v.window.run.from_in)

  -- Nothing changes that matters.
  pub InStream-kept :
      {n : ℕ} {w w' : Worker q.Queue L F} {made got : List SubOp}
      → InStream q group n w made got
      → SameQueues w w'
      → w'.window ≡ w.window
      → InStream q group n w' made got
  InStream-kept {n} {w} v same e = InStream-states w.window.state v same e v.window.run v.parts refl

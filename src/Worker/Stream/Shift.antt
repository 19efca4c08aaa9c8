-- ===== src/Worker/Stream/Shift.antt =====
-- The loop that moves the front of the window past the answered packets, and answers in order the parts
-- that end with them: `complete_pkt` and `shift_ack` of server/backend/worker.cpp.
use clean_slate_inc.Prelude.{
  ℕ, zero, suc, ◌+◌, ◌%◌, ◌≡◌, ◌≢◌, ◌<◌, ◌≤◌, ◌⊎◌, inl, inr, refl, sym, ap, ◌∙◌, subst, true, false,
  not, ◌&&◌, some, List, [], ◌∷◌, ◌++◌, if◌then◌else◌, arith, u32_mod, add64, Bool-cases, ◌==◌,
}
use clean_slate_inc.Packet.{get_psn}
use clean_slate_inc.Congestion.{max_win_len}
use clean_slate_inc.LoadBalancer.{SubOp}
use clean_slate_inc.QueuePair.{Spsc, QueuePair, front_req}
use clean_slate_inc.QueuePair.Steps.{front_req-requests}
use clean_slate_inc.QueuePair.History.{Reach, answer, push_resp_total}
use clean_slate_inc.Window.{Window, PktState, get_next_position, has_acked, window_tx_empty}
use clean_slate_inc.Window.Positions.{place}
use clean_slate_inc.Worker.Defs.{Worker}
use clean_slate_inc.Worker.Stream.Receive.{get_psn-lt}
use clean_slate_inc.Worker.Receive.{complete_pkt, shift_ack_loop}
use clean_slate_inc.Worker.Stream.{ended, lasts, HaveParts}

pub ended-last :
    (s : PktState) (x : SubOp) → s.is_last ≡ true → s.sub_op ≡ some x → ended s ≡ x ∷ []
ended-last s x e h = ground arith

pub ended-inner : (s : PktState) → s.is_last ≡ false → ended s ≡ []
ended-inner s e = ground arith

place_0 : (p : ℕ) → p < max_win_len → p ≡ place p 0
place_0 p h = omega arith

next_lem : (p : ℕ) → p < max_win_len → get_next_position p ≡ (p + 1) % max_win_len
unfolding get_next_position
next_lem p h = omega arith

place-next : (p k : ℕ) → place ((p + 1) % max_win_len) k ≡ place p (suc k)
place-next p k = omega arith

-- The number that `shift_ack` keeps for the left end.
abbrev pub left_end : {F : Type 0} → Window F → ℕ
left_end v = if window_tx_empty v then 0 else get_psn (v.state v.to_ack).pkt

pub left_end-lt : {F : Type 0} (v : Window F) → left_end v < u32_mod
left_end-lt v = elim (Bool-cases (window_tx_empty v)) [
  | inl e ↦ rw e (omega arith)
  | inr e ↦ rw e (get_psn-lt (v.state v.to_ack).pkt)
]

pub left_end-psn :
    {F : Type 0} (n : ℕ) (v : Window F)
    → v.to_ack < max_win_len
    → n < max_win_len
    → v.to_send ≡ place v.to_ack n
    → n ≢ 0
    → left_end v ≡ get_psn (v.state v.to_ack).pkt
unfolding window_tx_empty
left_end-psn n v h small e ne =
    let apart : v.to_ack ≢ v.to_send = λ same. absurd (omega (arith, e, same)) in
    let other : (v.to_ack == v.to_send) ≡ false = ground arith in rw other refl

module _ {L F : Type 0} (q : Spsc SubOp) where
  -- A packet that leaves the window answers the part that it ends.
  complete_pkt-Reach :
      (s : PktState) (x : SubOp) (w : Worker q.Queue L F) {made got : List SubOp}
      (rest : List SubOp)
      → s.sub_op ≡ some x
      → Reach q w.qp made (ended s ++ rest) got
      → (qp : QueuePair q.Queue) × (complete_pkt q s w ≡ some (record w { qp = qp }))
        × Reach q qp made rest got
        × (front_req q qp ≡ front_req q w.qp)
  unfolding complete_pkt
  complete_pkt-Reach s x w {made} {got} rest h r = elim (Bool-cases s.is_last) [
    | inl last ↦
        let r' : Reach q w.qp made (x ∷ rest) got =
          subst (λ l. Reach q w.qp made (l ++ rest) got) (ended-last s x last h) r in
        let (qp, e, _, same) = push_resp_total q r' in
        (
          qp,
          rw (last, h, e, complete_pkt) refl,
          answer x r' e,
          rw (front_req-requests q qp, front_req-requests q w.qp, same) refl,
        )
    | inr inner ↦ (
      w.qp,
      rw (inner, complete_pkt) refl,
      subst (λ l. Reach q w.qp made (l ++ rest) got) (ended-inner s inner) r,
      refl,
    )
  ]

  -- What the loop of `shift_ack` leaves when the window had `n` packets from `p` on: `m` have left it.
  pub record Shifted (n p fuel : ℕ) (w : Worker q.Queue L F) (made got : List SubOp) : Type 0 where
    pub m : ℕ
    pub left : ℕ
    pub all : m + left ≡ n
    pub to_ack : ℕ
    pub at : to_ack ≡ place p m
    pub w' : Worker q.Queue L F
    pub runs : shift_ack_loop q fuel p w ≡ some (to_ack, w')
    pub window : w'.window ≡ w.window
    pub queues : Reach q w'.qp made (lasts w.window.state to_ack left) got
    pub front : front_req q w'.qp ≡ front_req q w.qp
    pub progress : w'.progress ≡ w.progress
    pub psn_of : w'.psn_of ≡ w.psn_of
    pub current : w'.current_group_id ≡ w.current_group_id
    pub answered : (k : ℕ) → k < m → (w.window.state (place p k)).acked ≡ true
    pub stops : (left ≡ 0) ⊎ ((w.window.state to_ack).acked ≡ false)

  stop :
      (n fuel p : ℕ) (w : Worker q.Queue L F) {made got : List SubOp}
      → p < max_win_len
      → shift_ack_loop q fuel p w ≡ some (p, w)
      → (n ≡ 0) ⊎ ((w.window.state p).acked ≡ false)
      → Reach q w.qp made (lasts w.window.state p n) got
      → Shifted n p fuel w made got
  stop n fuel p w h e why r = record {
    m = 0;
    left = n;
    all = omega arith;
    to_ack = p;
    at = place_0 p h;
    w' = w;
    runs = e;
    window = refl;
    queues = r;
    front = refl;
    progress = refl;
    psn_of = refl;
    current = refl;
    answered = λ k lt. absurd (omega arith);
    stops = why;
  }

  -- One packet and then the rest.
  go_on :
      (n fuel p : ℕ) (w next : Worker q.Queue L F) {made got : List SubOp}
      → p < max_win_len
      → (w.window.state p).acked ≡ true
      → next.window ≡ w.window
      → front_req q next.qp ≡ front_req q w.qp
      → next.progress ≡ w.progress
      → next.psn_of ≡ w.psn_of
      → next.current_group_id ≡ w.current_group_id
      → shift_ack_loop q (suc fuel) p w ≡ shift_ack_loop q fuel ((p + 1) % max_win_len) next
      → Shifted n ((p + 1) % max_win_len) fuel next made got
      → Shifted (suc n) p (suc fuel) w made got
  go_on n fuel p w next {made} {got} h here window front progress psn_of current step v = record {
    m = suc v.m;
    left = v.left;
    all = omega (arith, v.all);
    to_ack = v.to_ack;
    at = v.at ∙ place-next p v.m;
    w' = v.w';
    runs = step ∙ v.runs;
    window = v.window ∙ window;
    queues =
        subst (λ (z : Window F). Reach q v.w'.qp made (lasts z.state v.to_ack v.left) got) window
          v.queues;
    front = v.front ∙ front;
    progress = v.progress ∙ progress;
    psn_of = v.psn_of ∙ psn_of;
    current = v.current ∙ current;
    answered = answered;
    stops =
        subst (λ (z : Window F). (v.left ≡ 0) ⊎ ((z.state v.to_ack).acked ≡ false)) window v.stops;
  }
    where
      answered : (k : ℕ) → k < suc v.m → (w.window.state (place p k)).acked ≡ true
      answered zero lt = ap (λ i. (w.window.state i).acked) (sym (place_0 p h)) ∙ here
      answered (suc k) lt =
          ap (λ i. (w.window.state i).acked) (sym (place-next p k))
          ∙ ap (λ (z : Window F). (z.state (place ((p + 1) % max_win_len) k)).acked) (sym window)
          ∙ v.answered k (omega arith)

  -- The loop never fails, given as much fuel as there are packets.
  pub shift_ack_loop-Shifted :
      (n fuel p : ℕ) (w : Worker q.Queue L F) {made got : List SubOp}
      → p < max_win_len
      → n < max_win_len
      → n ≤ fuel
      → w.window.to_send ≡ place p n
      → HaveParts w.window.state p n
      → Reach q w.qp made (lasts w.window.state p n) got
      → Shifted n p fuel w made got
  unfolding shift_ack_loop has_acked
  shift_ack_loop-Shifted zero zero p w h small le e parts r = stop zero zero p w h refl (inl refl) r
  shift_ack_loop-Shifted zero (suc fuel) p w h small le e parts r =
      stop zero (suc fuel) p w h
        (let same : p ≡ w.window.to_send = omega (arith, e) in ground arith) (inl refl) r
  shift_ack_loop-Shifted (suc n) zero p w h small le e parts r = absurd (omega arith)
  shift_ack_loop-Shifted (suc n) (suc fuel) p w {made} {got} h small le e parts r =
      let more : p ≢ w.window.to_send = λ same. absurd (omega (arith, e)) in
      elim (Bool-cases (w.window.state p).acked) [
        | inr waits ↦ stop (suc n) (suc fuel) p w h (ground arith) (inr waits) r
        | inl here ↦
            let moves : (not (p == w.window.to_send) && has_acked w.window p) ≡ true =
              ground arith in
            let (x, has) = parts 0 (omega arith) in
            let (qp, done, r', front) =
              complete_pkt-Reach (w.window.state p) x w
                (lasts w.window.state ((p + 1) % max_win_len) n)
                (ap (λ i. (w.window.state i).sub_op) (place_0 p h) ∙ has) r in
            let next : Worker q.Queue L F = record w {
              qp = qp;
              stats = record w.stats { shift_ack_cnt = add64 w.stats.shift_ack_cnt 1 };
            } in
            go_on n fuel p w next h here refl front refl refl refl
              (rw (moves, done, next_lem p h, shift_ack_loop) refl)
              (shift_ack_loop-Shifted n fuel ((p + 1) % max_win_len) next (omega arith)
                (omega arith) (omega arith) (omega (arith, e))
                (λ k lt.
                  let (y, g) = parts (suc k) (omega arith) in
                  (y, ap (λ i. (w.window.state i).sub_op) (place-next p k) ∙ g))
                r')
      ]

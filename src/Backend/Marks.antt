-- ===== src/Backend/Marks.antt =====
-- The packets of each worker of the backend carry its type of service in every state that it reaches:
-- server/backend/worker.cpp beside server/backend/load_balancer.cpp.
use clean_slate_inc.Prelude.{
  Option, ℕ, ◌+◌, ◌*◌, ◌%◌, ◌≡◌, refl, ap, ◌∙◌, subst, Bool, some, List, [], ◌∷◌, AllFrom,
  get_elem?, get_elem?-AllFrom, set-AllFrom, length, some-inj, >>=-eq-some, not, ◌&&◌, ltb, sub32,
  ◌==◌,
}
use clean_slate_inc.Op.{Op}
use clean_slate_inc.Packet.{Mbuf}
use clean_slate_inc.Congestion.{Double, cc_reaction_time}
use clean_slate_inc.LoadBalancer.{SubOp, LoadBalancer, try_post_op, try_complete_op}
use clean_slate_inc.QueuePair.{Spsc, QueuePair}
use clean_slate_inc.Worker.Defs.{Link, Worker}
use clean_slate_inc.Worker.Receive.{rx_process}
use clean_slate_inc.Worker.Send.{tx_process}
use clean_slate_inc.Worker.Loop.{
  ecn_marked, adjust_rate, note_window, congestion_control, worker_round,
}
use clean_slate_inc.Worker.Marked.{
  Holds, present, Holds-bind, Holds-some, IsMarked, IsMarked-kept, IsMarked-if,
}
use clean_slate_inc.Worker.Marked.Receive.{rx_process-IsMarked}
use clean_slate_inc.Worker.Marked.Send.{tx_process-IsMarked}
use clean_slate_inc.Backend.{
  State, put_qps, balancer_of, put_balancer, run_worker, run_post, run_complete,
}
use clean_slate_inc.Backend.Run.{Run, length-set, length-put_qps}

module _ (q : Spsc SubOp) (l : Link) (d : Double) (tos : ℕ) where
  congestion_control-IsMarked :
      (w : Worker q.Queue l.State d.F) → IsMarked l tos w → IsMarked l tos (congestion_control d w)
  unfolding congestion_control note_window adjust_rate
  congestion_control-IsMarked w v =
      IsMarked-if l tos (ltb (sub32 w.global_ts w.window.cc.prev_decrease_ts) cc_reaction_time) v (
        IsMarked-if l tos (w.ack_cnt == w.prev_ack_cnt_cc) v (
          IsMarked-if l tos (not (ecn_marked w.tos_monitor) && not w.pkt_loss_flag)
            (IsMarked-if l tos (ltb (sub32 w.global_ts w.window.cc.prev_adjust_ts) cc_reaction_time)
              v (IsMarked-kept l tos v refl refl))
            (IsMarked-kept l tos v refl refl)))

  worker_round-IsMarked :
      (ops : ℕ → Op) (now : ℕ) (arrived : List (Option Mbuf)) (w : Worker q.Queue l.State d.F)
      → IsMarked l tos w
      → Holds (IsMarked l tos) (worker_round q l d ops now arrived w)
  unfolding worker_round
  worker_round-IsMarked ops now arrived w v =
      Holds-bind (IsMarked l tos) (IsMarked l tos) (rx_process q l ops arrived _) _
        (rx_process-IsMarked q l tos ops arrived _ (IsMarked-kept l tos v refl refl))
        (λ w1 v1.
          Holds-bind (IsMarked l tos) (IsMarked l tos) (tx_process q l d ops w1) _
            (tx_process-IsMarked q l d tos ops w1 v1)
            (λ w2 v2. present (congestion_control-IsMarked w2 v2)))

-- The type of service of worker `i`.
abbrev pub tos_of : ℕ → ℕ
tos_of i = (i * 4 + 1) % 256

module _ (a : Spsc ℕ) (q : Spsc SubOp) (l : Link) (d : Double) (group : ℕ) where
  abbrev pub Marks : ℕ → List (Worker q.Queue l.State d.F) → Type 0
  Marks = AllFrom (λ i w. IsMarked l (tos_of i) w)

  put_qps-Marks :
      (i : ℕ) (ws : List (Worker q.Queue l.State d.F)) (qps : List (QueuePair q.Queue))
      → Marks i ws
      → Marks i (put_qps ws qps)
  put_qps-Marks i [] qps h = tt
  put_qps-Marks i (w ∷ ws) [] h = h
  put_qps-Marks i (w ∷ ws) (qp ∷ qps) (v, h) =
      (IsMarked-kept l (tos_of i) v refl refl, put_qps-Marks (i + 1) ws qps h)

  -- Every worker's packets carry its type of service, and no worker is lost.
  abbrev pub Steady : State a q l d → State a q l d → Type 0
  Steady begin s = Marks 0 s.workers × (length s.workers ≡ length begin.workers)

  put_balancer-Steady :
      (begin s : State a q l d) (lb : LoadBalancer a.Queue q.Queue)
      → Steady begin s
      → Steady begin (put_balancer s lb)
  put_balancer-Steady begin s lb (h, len) = (
    put_qps-Marks 0 s.workers lb.worker_qps h,
    length-put_qps a q l d group s.workers lb.worker_qps ∙ len,
  )

  run_post-Steady :
      (begin s : State a q l d) (ops : ℕ → Op) {b : Bool} {s' : State a q l d}
      → run_post a q l d ops s ≡ some (b, s')
      → Steady begin s
      → Steady begin s'
  unfolding run_post
  run_post-Steady begin s ops e h =
      let (r, _, e1) = >>=-eq-some (try_post_op a q ops (balancer_of s)) _ e in
      subst (Steady begin) (ap (λ (p : Bool × State a q l d). p.1) (some-inj e1))
        (put_balancer-Steady begin s r.1 h)

  run_complete-Steady :
      (begin s : State a q l d) {b : Bool} {s' : State a q l d}
      → run_complete a q l d s ≡ some (b, s')
      → Steady begin s
      → Steady begin s'
  unfolding run_complete
  run_complete-Steady begin s e h =
      let (r, _, e1) = >>=-eq-some (try_complete_op a q (balancer_of s)) _ e in
      subst (Steady begin) (ap (λ (p : Bool × State a q l d). p.1) (some-inj e1))
        (put_balancer-Steady begin s r.1 h)

  run_worker-Steady :
      (begin s : State a q l d) (i : ℕ) (ops : ℕ → Op) (now : ℕ) (arrived : List (Option Mbuf))
      {s' : State a q l d}
      → run_worker a q l d i ops now arrived s ≡ some s'
      → Steady begin s
      → Steady begin s'
  unfolding run_worker
  run_worker-Steady begin s i ops now arrived e (h, len) =
      let (w, at, e1) = >>=-eq-some (get_elem? s.workers i) _ e in
      let (w', done, e2) =
        >>=-eq-some (worker_round q l d ops now arrived (record w { mem = s.mem })) _ e1 in
      let before = get_elem?-AllFrom (λ i w. IsMarked l (tos_of i) w) 0 i s.workers h at in
      let after : IsMarked l (tos_of (0 + i)) w' = Holds-some (IsMarked l (tos_of (0 + i))) done (
        worker_round-IsMarked q l d (tos_of (0 + i)) ops now arrived (record w { mem = s.mem })
          (IsMarked-kept l (tos_of (0 + i)) before refl refl)) in
      subst (Steady begin) (some-inj e2) (
        set-AllFrom (λ i w. IsMarked l (tos_of i) w) 0 i s.workers h after,
        length-set a q l d group s.workers i w' ∙ len,
      )

  pub Run-Steady :
      {begin s : State a q l d} {posted got : List ℕ} {flight : List (ℕ × Op)}
      → Marks 0 begin.workers
      → Run a q l d group begin s posted flight got
      → Steady begin s
  Run-Steady h (Run.start queue idle) = (h, refl)
  Run-Steady {begin} h (Run.round {s} i ops now arrived r same e) =
      run_worker-Steady begin s i ops now arrived e (Run-Steady h r)
  Run-Steady {begin} h (Run.takes {s} x ops r front e) =
      run_post-Steady begin s ops e (Run-Steady h r)
  Run-Steady {begin} h (Run.completes {s} f r e) = run_complete-Steady begin s e (Run-Steady h r)
  Run-Steady h (Run.posts x r e) = Run-Steady h r
  Run-Steady h (Run.collects x r front e) = Run-Steady h r
  Run-Steady h (Run.writes mem r) = Run-Steady h r

-- ===== src/Worker/Stream/Run.antt =====
-- A worker of server/backend/worker.cpp beside the load balancer of server/backend/load_balancer.cpp
-- and the network, in any order of their steps, while all operations are of one group.
use clean_slate_inc.Prelude.{
  Option, some-inj, ℕ, ◌≡◌, ◌≢◌, ◌⊎◌, inl, inr, refl, sym, ap, ◌∙◌, subst, true, none, some, List,
  [], ◌∷◌, ◌++◌, arith, head?, ltb, if◌then◌else◌,
}
use clean_slate_inc.Op.{Op}
use clean_slate_inc.Packet.{Mbuf}
use clean_slate_inc.Congestion.{Double}
use clean_slate_inc.LoadBalancer.{SubOp}
use clean_slate_inc.QueuePair.{Spsc, QueuePair, fresh, push_req, front_req, front_resp, pop_resp}
use clean_slate_inc.QueuePair.Steps.{requests, front_req-requests}
use clean_slate_inc.QueuePair.History.{Reach, push_req_total, init, request, collect}
use clean_slate_inc.Worker.Defs.{Link, Worker}
use clean_slate_inc.Worker.Loop.{worker_round}
use clean_slate_inc.Worker.Stream.{lasts, InStream}
use clean_slate_inc.Worker.Stream.Kept.{InStream-kept}
use clean_slate_inc.Worker.Stream.Timed.{worker_round-InStream}

-- A worker that has just been started.
pub record IsFresh {L F : Type 0} (q : Spsc SubOp) (w : Worker q.Queue L F) : Type 0 where
  pub qp : w.qp ≡ fresh q
  pub to_ack : w.window.to_ack ≡ 0
  pub to_send : w.window.to_send ≡ 0
  pub left_psn : w.window.left_psn ≡ 0
  pub sub_op : w.progress.sub_op ≡ none
  pub psn_of : (g : ℕ) → w.psn_of g ≡ 0

module _ (q : Spsc SubOp) (l : Link) (d : Double) (group : ℕ) where
  -- The worker, the parts that the load balancer has handed over and those that it has got back.
  pub data Run : Worker q.Queue l.State d.F → List SubOp → List SubOp → Type 0 where
    start : {w : Worker q.Queue l.State d.F} → IsFresh q w → Run w [] []
    -- a round of the worker, at any time and whatever arrives
    round :
        {w w' : Worker q.Queue l.State d.F} {made got : List SubOp} (ops : ℕ → Op) (now : ℕ)
        (arrived : List (Option Mbuf))
        → Run w made got
        → ((a : ℕ) → (ops a).group.group_id ≡ group)
        → worker_round q l d ops now arrived w ≡ some w'
        → Run w' made got
    -- the load balancer hands over a part
    posts :
        {w : Worker q.Queue l.State d.F} {made got : List SubOp} {qp : QueuePair q.Queue}
        (s : SubOp)
        → Run w made got
        → push_req q s w.qp ≡ some (true, qp)
        → Run (record w { qp = qp }) (made ++ s ∷ []) got
    -- the load balancer collects an answer
    collects :
        {w : Worker q.Queue l.State d.F} {made got : List SubOp} {qp : QueuePair q.Queue}
        (s : SubOp)
        → Run w made got
        → front_resp q w.qp ≡ some s
        → pop_resp q w.qp ≡ some qp
        → Run (record w { qp = qp }) made (got ++ s ∷ [])
    -- the application writes to the shared memory
    writes :
        {w : Worker q.Queue l.State d.F} {made got : List SubOp} (mem : ℕ → ℕ)
        → Run w made got
        → Run (record w { mem = mem }) made got

head?-append : (x : SubOp) (xs ys : List SubOp) → head? xs ≡ some x → head? (xs ++ ys) ≡ some x
head?-append x [] ys e = absurd (ground arith)
head?-append x (y ∷ xs) ys e = e

module _ (q : Spsc SubOp) where
  -- A part in front stays in front when another is handed over.
  pub front_req-push :
      (s x : SubOp) {qp qp' : QueuePair q.Queue} {made taken got : List SubOp}
      → Reach q qp made taken got
      → push_req q s qp ≡ some (true, qp')
      → front_req q qp ≡ some x
      → front_req q qp' ≡ some x
  front_req-push s x {qp} {qp'} r e front = elim (push_req_total q s r) [
    | inr (_, full) ↦ absurd (ground arith)
    | inl (_, (qp'', done, (queued, _, _))) ↦
        let same : qp'' ≡ qp' = ground arith in
        subst (λ z. front_req q z ≡ some x) same
          (front_req-requests q qp''
            ∙ ap head? queued
            ∙ head?-append x (requests q qp) (s ∷ []) (sym (front_req-requests q qp) ∙ front))
  ]

  pub front_req-pop_resp :
      (qp : QueuePair q.Queue) {qp' : QueuePair q.Queue}
      → pop_resp q qp ≡ some qp'
      → front_req q qp' ≡ front_req q qp
  unfolding pop_resp front_req
  front_req-pop_resp qp {qp'} e =
      let same : qp'.wq ≡ qp.wq = ground arith in
      ap (λ z. if ltb 0 (q.read_available z) then q.front z else none) same

module _ {L F : Type 0} (q : Spsc SubOp) (group : ℕ) where
  pub fresh-InStream : {w : Worker q.Queue L F} → IsFresh q w → InStream q group 0 w [] []
  fresh-InStream {w} v = record {
    window = record {
      run = record {
        from_in = omega (arith, v.to_ack);
        base_in = omega (arith, v.left_psn);
        short = omega arith;
        end = omega (arith, v.to_ack, v.to_send);
        psns = λ k lt. absurd (omega arith);
        groups = λ k lt. absurd (omega arith);
      };
      right = λ ne. absurd (ne refl);
    };
    parts = λ k lt. absurd (omega arith);
    queues = subst (λ (z : QueuePair q.Queue). Reach q z [] [] []) (sym v.qp) init;
    next = 0;
    follows = λ ne. absurd (ne refl);
    numbers = record {
      next_in = omega arith;
      idle = λ e. v.psn_of group;
      busy_psn = λ s e. absurd (never s e);
      busy_left = λ s e. absurd (never s e);
      busy_more = λ s e. absurd (never s e);
      busy_in = λ s e. absurd (never s e);
      busy_front = λ s e. absurd (never s e);
    };
    current = nobody;
  }
    where
      never : (s : SubOp) → w.progress.sub_op ≡ some s → ⊥
      never s e = cc (sym v.sub_op ∙ e)

      nobody :
          (◌≢◌ {A = ℕ} 0 0) ⊎ ((s : SubOp) × (w.progress.sub_op ≡ some s))
          → w.current_group_id ≡ group
      nobody (inl ne) = absurd (ne refl)
      nobody (inr (s, e)) = absurd (never s e)

  -- The queue pair moves, and with it neither the window nor the numbering.
  pub moved :
      {n : ℕ} {w : Worker q.Queue L F} {made got made' got' : List SubOp} (qp : QueuePair q.Queue)
      → (v : InStream q group n w made got)
      → Reach q qp made' (lasts w.window.state w.window.to_ack n) got'
      → ((s : SubOp) → front_req q w.qp ≡ some s → front_req q qp ≡ some s)
      → InStream q group n (record w { qp = qp }) made' got'
  moved qp v r front = record {
    window = v.window;
    parts = v.parts;
    queues = r;
    next = v.next;
    follows = v.follows;
    numbers = record {
      next_in = v.numbers.next_in;
      idle = v.numbers.idle;
      busy_psn = v.numbers.busy_psn;
      busy_left = v.numbers.busy_left;
      busy_more = v.numbers.busy_more;
      busy_in = v.numbers.busy_in;
      busy_front = λ s e. front s (v.numbers.busy_front s e);
    };
    current = v.current;
  }

module _ (q : Spsc SubOp) (l : Link) (d : Double) (group : ℕ) where
  pub Run-InStream :
      {w : Worker q.Queue l.State d.F} {made got : List SubOp}
      → Run q l d group w made got
      → (n : ℕ) × InStream q group n w made got
  Run-InStream (start v) = (0, fresh-InStream q group v)
  Run-InStream (round {w} {w'} {made} {got} ops now arrived r same e) =
      let (n, v) = Run-InStream r in
      elim (worker_round-InStream q l d group ops now arrived same v) [
        | inl (fails, _) ↦ absurd (ground (arith, fails, e))
        | inr (w'', e', (n', v')) ↦
            let equal : w'' ≡ w' = some-inj (sym e' ∙ e) in
            (n', subst (λ z. InStream q group n' z made got) equal v')
      ]
  Run-InStream (posts {w} {made} {got} {qp} s r e) =
      let (n, v) = Run-InStream r in
      (n, moved q group qp v (request s v.queues e) (λ x f. front_req-push q s x v.queues e f))
  Run-InStream (collects {w} {made} {got} {qp} s r f e) =
      let (n, v) = Run-InStream r in
      (n, moved q group qp v (collect s v.queues f e) (λ x g. front_req-pop_resp q w.qp e ∙ g))
  Run-InStream (writes {w} {made} {got} mem r) =
      let (n, v) = Run-InStream r in
      (
        n,
        InStream-kept q group v
            (record { qp = refl; progress = refl; psn_of = refl; current = refl }) refl,
      )

-- ===== src/Backend/Run.antt =====
-- The backend from its start on, between a frontend and the network, in any order of their steps:
-- server/backend/load_balancer.cpp and server/backend/worker.cpp. All operations are of one group.
use clean_slate_inc.Prelude.{
  Option, All, none, ◌⊎◌, inl, inr, ℕ, zero, suc, ◌+◌, ◌≡◌, refl, sym, ap, subst, true, some, List,
  [], ◌∷◌, ◌++◌, map, length, AllFrom, get_elem?, set, set-AllFrom, get_elem?-AllFrom,
}
use clean_slate_inc.Op.{Op}
use clean_slate_inc.Packet.{Mbuf}
use clean_slate_inc.Congestion.{Double}
use clean_slate_inc.LoadBalancer.{SubOp}
use clean_slate_inc.QueuePair.{Spsc, QueuePair, fresh, push_req, front_req, front_resp, pop_resp}
use clean_slate_inc.QueuePair.History.{Reach}
use clean_slate_inc.Worker.Defs.{Link, Worker}
use clean_slate_inc.Worker.Loop.{worker_round}
use clean_slate_inc.Worker.Stream.{InStream}
use clean_slate_inc.Worker.Stream.Kept.{InStream-kept}
use clean_slate_inc.Worker.Stream.Timed.{worker_round-InStream}
use clean_slate_inc.Worker.Stream.Run.{IsFresh, fresh-InStream}
use clean_slate_inc.Backend.{State, qps_of, put_qps, run_worker, run_post, run_complete}
use clean_slate_inc.Backend.Parts.{OwesParts, HasSlots, Slotless-flight}

module _ (a : Spsc ℕ) (q : Spsc SubOp) (l : Link) (d : Double) (group : ℕ) where
  -- From the state `begin`: the operations that the frontend has handed over, those that the load
  -- balancer has taken and not completed, as they were when it took them, and those that the frontend
  -- has got back.
  pub data Run (begin : State a q l d)
      : State a q l d → List ℕ → List (ℕ × Op) → List ℕ → Type 0 where
    start :
        begin.shm_qp ≡ fresh a
        → AllFrom (λ i w. IsFresh q w) 0 begin.workers
        → Run begin begin [] [] []
    -- a round of a worker, at any time and whatever arrives
    round :
        {s s' : State a q l d} {posted got : List ℕ} {flight : List (ℕ × Op)} (i : ℕ) (ops : ℕ → Op)
        (now : ℕ) (arrived : List (Option Mbuf))
        → Run begin s posted flight got
        → ((x : ℕ) → (ops x).group.group_id ≡ group)
        → run_worker a q l d i ops now arrived s ≡ some s'
        → Run begin s' posted flight got
    -- the load balancer takes an operation
    takes :
        {s s' : State a q l d} {posted got : List ℕ} {flight : List (ℕ × Op)} (x : ℕ) (ops : ℕ → Op)
        → Run begin s posted flight got
        → front_req a s.shm_qp ≡ some x
        → run_post a q l d ops s ≡ some (true, s')
        → Run begin s' posted (flight ++ (x, ops x) ∷ []) got
    -- the load balancer completes an operation
    completes :
        {s s' : State a q l d} {posted got : List ℕ} {flight : List (ℕ × Op)} (f : ℕ × Op)
        → Run begin s posted (f ∷ flight) got
        → run_complete a q l d s ≡ some (true, s')
        → Run begin s' posted flight got
    -- the frontend hands over an operation
    posts :
        {s : State a q l d} {posted got : List ℕ} {flight : List (ℕ × Op)} {qp : QueuePair a.Queue}
        (x : ℕ)
        → Run begin s posted flight got
        → push_req a x s.shm_qp ≡ some (true, qp)
        → Run begin (record s { shm_qp = qp }) (posted ++ x ∷ []) flight got
    -- the frontend collects an answer
    collects :
        {s : State a q l d} {posted got : List ℕ} {flight : List (ℕ × Op)} {qp : QueuePair a.Queue}
        (x : ℕ)
        → Run begin s posted flight got
        → front_resp a s.shm_qp ≡ some x
        → pop_resp a s.shm_qp ≡ some qp
        → Run begin (record s { shm_qp = qp }) posted flight (got ++ x ∷ [])
    -- the frontend writes to the shared memory
    writes :
        {s : State a q l d} {posted got : List ℕ} {flight : List (ℕ × Op)} (mem : ℕ → ℕ)
        → Run begin s posted flight got
        → Run begin (record s { mem = mem }) posted flight got

  abbrev pub address : ℕ × Op → ℕ
  address f = f.0

  -- The frontend's queue pair is in a state of its protocol, and each worker owes its parts.
  pub record Sound (s : State a q l d) (posted : List ℕ) (flight : List (ℕ × Op)) (got : List ℕ)
      : Type 0 where
    pub frontend : Reach a s.shm_qp posted (map address flight) got
    pub owing : AllFrom (OwesParts q group (length s.workers) flight) 0 s.workers

  pub fresh-OwesParts :
      (nworker i : ℕ) (ws : List (Worker q.Queue l.State d.F))
      → AllFrom (λ i w. IsFresh q w) i ws
      → AllFrom (OwesParts q group nworker []) i ws
  fresh-OwesParts nworker i [] h = tt
  fresh-OwesParts nworker i (w ∷ ws) (v, h) = (
    record { n = 0; made = []; got = []; stream = fresh-InStream q group v; owed = refl },
    fresh-OwesParts nworker (i + 1) ws h,
  )

  -- A round of a worker leaves it owing the same parts, and returns if each operation has slots.
  round-OwesParts :
      (nworker i : ℕ) (flight : List (ℕ × Op)) (ops : ℕ → Op) (now : ℕ)
      (arrived : List (Option Mbuf)) (mem : ℕ → ℕ) (w : Worker q.Queue l.State d.F)
      → ((x : ℕ) → (ops x).group.group_id ≡ group)
      → OwesParts q group nworker flight i w
      → ((worker_round q l d ops now arrived (record w { mem = mem }) ≡ none)
          × (¬ All (HasSlots nworker) flight))
        ⊎ ((w' : Worker q.Queue l.State d.F) × (worker_round q l d ops now arrived
                (record w { mem = mem })
              ≡ some w')
            × OwesParts q group nworker flight i w')
  round-OwesParts nworker i flight ops now arrived mem w same v =
      let kept : InStream q group v.n (record w { mem = mem }) v.made v.got =
        InStream-kept q group v.stream
          (record { qp = refl; progress = refl; psn_of = refl; current = refl }) refl in
      elim (worker_round-InStream q l d group ops now arrived same kept) [
        | inl (fails, slotless) ↦ inl (fails, Slotless-flight q group nworker v slotless)
        | inr (w', e, (n, stream)) ↦
            inr
              (w', e, record { n = n; made = v.made; got = v.got; stream = stream; owed = v.owed })
      ]

  pub length-set :
      (ws : List (Worker q.Queue l.State d.F)) (i : ℕ) (w : Worker q.Queue l.State d.F)
      → length (set ws i w) ≡ length ws
  length-set [] i w = refl
  length-set (x ∷ ws) zero w = refl
  length-set (x ∷ ws) (suc i) w = ap suc (length-set ws i w)

  pub length-put_qps :
      (ws : List (Worker q.Queue l.State d.F)) (qps : List (QueuePair q.Queue))
      → length (put_qps ws qps) ≡ length ws
  length-put_qps [] qps = refl
  length-put_qps (w ∷ ws) [] = refl
  length-put_qps (w ∷ ws) (qp ∷ qps) = ap suc (length-put_qps ws qps)

  pub length-qps_of : (ws : List (Worker q.Queue l.State d.F)) → length (qps_of ws) ≡ length ws
  length-qps_of [] = refl
  length-qps_of (w ∷ ws) = ap suc (length-qps_of ws)

  pub run_worker-Sound :
      {s : State a q l d} {posted got : List ℕ} {flight : List (ℕ × Op)} (i : ℕ) (ops : ℕ → Op)
      (now : ℕ) (arrived : List (Option Mbuf)) (w : Worker q.Queue l.State d.F)
      → get_elem? s.workers i ≡ some w
      → ((x : ℕ) → (ops x).group.group_id ≡ group)
      → Sound s posted flight got
      → ((run_worker a q l d i ops now arrived s ≡ none)
          × (¬ All (HasSlots (length s.workers)) flight))
        ⊎ ((s' : State a q l d) × (run_worker a q l d i ops now arrived s ≡ some s')
            × Sound s' posted flight got)
  unfolding run_worker
  run_worker-Sound {s} {posted} {got} {flight} i ops now arrived w at same v =
      let n = length s.workers in
      elim (round-OwesParts n (0 + i) flight ops now arrived s.mem w same
        (get_elem?-AllFrom (OwesParts q group n flight) 0 i s.workers v.owing at)) [
          | inl (fails, few) ↦ inl (rw (at, fails) refl, few)
          | inr (w', e, v') ↦ inr (
            record s { workers = set s.workers i w'; mem = w'.mem },
            rw (at, e) refl,
            record {
              frontend = v.frontend;
              owing =
                  subst (λ k. AllFrom (OwesParts q group k flight) 0 (set s.workers i w'))
                    (sym (length-set s.workers i w'))
                    (set-AllFrom (OwesParts q group n flight) 0 i s.workers v.owing v');
            },
          )
        ]

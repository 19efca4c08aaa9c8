-- ===== src/Backend/Promises.antt =====
-- What the backend promises in every state that it reaches between a frontend and the network, while all
-- operations are of one group: server/backend/load_balancer.cpp and server/backend/worker.cpp.
use clean_slate_inc.Prelude.{
  Option, All, ℕ, ◌+◌, ◌≡◌, sym, ap, ◌∙◌, subst, ◌⊎◌, true, false, none, some, inl, inr, List, [],
  ◌∷◌, ◌++◌, map, arith, length, Option-cases, AllFrom, get_elem?, get_elem?-AllFrom, get_elem?-lt,
  get_elem?-ne-nil,
}
use clean_slate_inc.Op.{Op}
use clean_slate_inc.Packet.{Mbuf}
use clean_slate_inc.Congestion.{Double}
use clean_slate_inc.LoadBalancer.{SubOp, all_answered}
use clean_slate_inc.LoadBalancer.Split.{sub_ops}
use clean_slate_inc.LoadBalancer.System.{IsAligned}
use clean_slate_inc.QueuePair.{Spsc, front_req, front_resp}
use clean_slate_inc.QueuePair.Steps.{requests, responses}
use clean_slate_inc.QueuePair.History.{nothing_lost_or_reordered}
use clean_slate_inc.Window.{window_len}
use clean_slate_inc.Worker.Defs.{Link, Worker}
use clean_slate_inc.Worker.Stream.{lasts}
use clean_slate_inc.Backend.{State, qps_of, run_worker, run_post, run_complete, part_for}
use clean_slate_inc.Backend.Parts.{OwesParts, HasSlots, collect-OwesParts, part_for-sub_ops}
use clean_slate_inc.Backend.Run.{Run, address, run_worker-Sound}
use clean_slate_inc.Backend.Sound.{Run-Sound, owes_parts, in_flight, answered_at}
use clean_slate_inc.Backend.Steps.{run_post-idle, run_post-Sound, run_complete-Sound}

module _ (a : Spsc ℕ) (q : Spsc SubOp) (l : Link) (d : Double) (group : ℕ) where
  -- In every state that a backend with a worker reaches, when its operations are of one group and an
  -- operation at the front has whole words if it is a reduction, and each operation in flight has a slot
  -- of the aggregator for each worker: a round of any worker returns, whatever
  -- packets arrive and whenever; so does `try_post_op`, which changes nothing if there is no request and
  -- otherwise takes the oldest; and so does `try_complete_op`. No assertion fails, and the state is
  -- again one that the backend reaches.
  pub backend_never_aborts :
      {begin s : State a q l d} {posted got : List ℕ} {flight : List (ℕ × Op)} (i : ℕ)
      (ops : ℕ → Op) (now : ℕ) (arrived : List (Option Mbuf)) {w : Worker q.Queue l.State d.F}
      → Run a q l d group begin s posted flight got
      → get_elem? s.workers i ≡ some w
      → ((x : ℕ) → (ops x).group.group_id ≡ group)
      → ((x : ℕ) → front_req a s.shm_qp ≡ some x → IsAligned a q (ops x))
      → All (HasSlots (length s.workers)) flight
      → ((s' : State a q l d) × (run_worker a q l d i ops now arrived s ≡ some s')
          × Run a q l d group begin s' posted flight got)
        × (((front_req a s.shm_qp ≡ none) × (run_post a q l d ops s ≡ some (false, s)))
            ⊎ ((x : ℕ) × (s' : State a q l d) × (front_req a s.shm_qp ≡ some x)
                × (run_post a q l d ops s ≡ some (true, s'))
                × Run a q l d group begin s' posted (flight ++ (x, ops x) ∷ []) got))
        × ((run_complete a q l d s ≡ some (false, s))
            ⊎ ((f : ℕ × Op) × (rest : List (ℕ × Op)) × (s' : State a q l d) × (flight ≡ f ∷ rest)
                × (run_complete a q l d s ≡ some (true, s'))
                × Run a q l d group begin s' posted rest got))
  backend_never_aborts {begin} {s} {posted} {got} {flight} i ops now arrived {w} r at same aligned
        slots =
      let v = Run-Sound a q l d group r in
      (
        elim (run_worker-Sound a q l d group i ops now arrived w at same v) [
          | inl (_, few) ↦ absurd (few slots)
          | inr (s', e, _) ↦ (s', e, Run.round i ops now arrived r same e)
        ],
        elim (Option-cases (front_req a s.shm_qp)) [
          | inl idle ↦ inl (idle, run_post-idle a q l d group ops s idle)
          | inr (x, front) ↦
              let (s', e, _) = run_post-Sound a q l d group x ops front (aligned x front) v in
              inr (x, s', front, e, Run.takes x ops r front e)
        ],
        elim (run_complete-Sound a q l d group (get_elem?-ne-nil s.workers i at) v) [
          | inl (_, e) ↦ inl e
          | inr (f, rest, s', _, same', e, _, _) ↦ inr (
            f,
            rest,
            s',
            same',
            e,
            Run.completes f (subst (λ z. Run a q l d group begin s posted z got) same' r) e,
          )
        ],
      )

  -- In every state that the backend reaches, while all operations are of one group: the operations that
  -- the frontend has got back, those completed, those in flight and those waiting are those that it has
  -- handed over, in order; and each worker owes exactly its parts of the operations in flight: its
  -- answers, the parts that end in its window and its requests are, in the order of the operations, the
  -- parts that `try_post_op` cuts these into for this worker.
  pub parts_owed :
      {begin s : State a q l d} {posted got : List ℕ} {flight : List (ℕ × Op)} (i : ℕ)
      {w : Worker q.Queue l.State d.F}
      → Run a q l d group begin s posted flight got
      → get_elem? s.workers i ≡ some w
      → let n = length s.workers in
        let flying = lasts w.window.state w.window.to_ack (window_len w.window) in
        (got
            ++ (responses a s.shm_qp ++ (map (address a q l d group) flight ++ requests a s.shm_qp))
          ≡ posted)
        × (map some (responses q w.qp ++ (flying ++ requests q w.qp))
            ≡ map (λ (f : ℕ × Op). get_elem? (sub_ops f.0 f.1 n 0 0 n) i) flight)
  parts_owed {begin} {s} {posted} {got} {flight} i {w} r at =
      let v = Run-Sound a q l d group r in
      ((nothing_lost_or_reordered a v.frontend).0, owes_parts a q l d group i v at)

  -- In every state that a backend reaches, while all operations are of one group, and for each of its
  -- workers: `try_complete_op` changes nothing if some worker has not answered; otherwise the first
  -- answer of this worker is exactly its part of the oldest operation in flight, this operation is
  -- reported to the frontend behind those completed before, and the others stay in flight.
  pub completed_when_all_answered :
      {begin s : State a q l d} {posted got : List ℕ} {flight : List (ℕ × Op)} (i : ℕ)
      {w : Worker q.Queue l.State d.F}
      → Run a q l d group begin s posted flight got
      → get_elem? s.workers i ≡ some w
      → let n = length s.workers in
        ((all_answered q (qps_of s.workers) ≡ false) × (run_complete a q l d s ≡ some (false, s)))
        ⊎ ((f : ℕ × Op) × (rest : List (ℕ × Op)) × (s' : State a q l d) × (flight ≡ f ∷ rest)
            × (front_resp q w.qp ≡ get_elem? (sub_ops f.0 f.1 n 0 0 n) i)
            × (run_complete a q l d s ≡ some (true, s'))
            × (responses a s'.shm_qp ≡ responses a s.shm_qp ++ f.0 ∷ [])
            × Run a q l d group begin s' posted rest got)
  completed_when_all_answered {begin} {s} {posted} {got} {flight} i {w} r at =
      let v = Run-Sound a q l d group r in
      let n = length s.workers in
      elim (run_complete-Sound a q l d group (get_elem?-ne-nil s.workers i at) v) [
        | inl waiting ↦ inl waiting
        | inr (f, rest, s', done, same, e, _, reported) ↦
            let (part, found) = answered_at a q l d group s.workers i at done in
            let owing : AllFrom (OwesParts q group n (f ∷ rest)) 0 s.workers =
              subst (λ z. AllFrom (OwesParts q group n z) 0 s.workers) same v.owing in
            let (is, _) =
              collect-OwesParts q group n f rest (0 + i) w part
                (omega (arith, in_flight a q l d group v, ap length same))
                (get_elem?-AllFrom (OwesParts q group n (f ∷ rest)) 0 i s.workers owing at) found in
            inr (
              f,
              rest,
              s',
              same,
              found
                  ∙ ap some is
                  ∙ ap (λ j. some (part_for n j f)) (omega arith)
                  ∙ sym (part_for-sub_ops f n i (get_elem?-lt s.workers i at)),
              e,
              reported,
              Run.completes f (subst (λ z. Run a q l d group begin s posted z got) same r) e,
            )
      ]

-- ===== src/Backend/Tests.antt =====
-- The backend with the two workers that `dpdk_init` starts, an operation on its way through the load
-- balancer, and the theorems there: server/backend/load_balancer.cpp and server/backend/main.cpp.
use clean_slate_inc.Prelude.{
  ℕ, ◌+◌, ◌*◌, ◌/◌, ◌≡◌, ◌⊎◌, refl, true, false, none, some, List, [], ◌∷◌, ◌++◌, map, arith, All,
  AllFrom, sym, ap, ◌∙◌, Option, ◌>>=◌, >>=-eq-some, get_elem?,
}
use clean_slate_inc.Prelude.Int.{pos}
use clean_slate_inc.Op.{Op}
use clean_slate_inc.Packet.{Mbuf}
use clean_slate_inc.LoadBalancer.{SubOp, sub_op_at, post_from, try_post_op, all_answered}
use clean_slate_inc.LoadBalancer.Split.{sub_ops}
use clean_slate_inc.QueuePair.{fresh, push_req, pop_req, front_req, front_resp}
use clean_slate_inc.QueuePair.ListQueue.{list_queue}
use clean_slate_inc.QueuePair.Steps.{requests, responses}
use clean_slate_inc.Congestion.FixedPoint.{fixed_point}
use clean_slate_inc.Window.{window_len}
use clean_slate_inc.Worker.Defs.{Worker}
use clean_slate_inc.Worker.Loop.{worker_round}
use clean_slate_inc.Worker.Stream.{lasts}
use clean_slate_inc.Worker.Stream.Run.{IsFresh}
use clean_slate_inc.Worker.Tests.{wire, op}
use clean_slate_inc.Startup.Flow.{ipproto_netccl}
use clean_slate_inc.Startup.Flow.Steering.{queues_for}
use clean_slate_inc.Startup.Launch.{new_window, start_worker}
use clean_slate_inc.Startup.Launch.Tests.{machine, ctx, two_workers}
use clean_slate_inc.Startup.Launch.Tests as Launch
use clean_slate_inc.Backend.{Backend, qps_of, run_worker, run_post, run_complete}
use clean_slate_inc.Backend.Run.{Run}
use clean_slate_inc.Backend.Promises.{backend_never_aborts, parts_owed, completed_when_all_answered}
use clean_slate_inc.Backend.Steered.{started_from, first_state, answers_come_back}

abbrev pub Worker' : Type 0
Worker' = Worker (List SubOp) (List Mbuf) ℕ

abbrev State' : Type 0
State' = Backend (List ℕ) (List SubOp) (List Mbuf) ℕ

abbrev pub begin : State'
begin =
    first_state machine (list_queue ℕ) (list_queue SubOp) wire fixed_point Launch.started (λ _. [])
      (λ _. 0) false

abbrev Reached : State' → List ℕ → List (ℕ × Op) → List ℕ → Type 0
Reached = Run (list_queue ℕ) (list_queue SubOp) wire fixed_point 7 begin

pub begin-IsFresh : AllFrom (λ i w. IsFresh (list_queue SubOp) w) 0 begin.workers
unfolding first_state started_from start_worker new_window
begin-IsFresh = (
  record {
    qp = refl;
    to_ack = refl;
    to_send = refl;
    left_psn = refl;
    sub_op = refl;
    psn_of = λ g. refl;
  },
  (
    record {
      qp = refl;
      to_ack = refl;
      to_send = refl;
      left_psn = refl;
      sub_op = refl;
      psn_of = λ g. refl;
    },
    tt,
  ),
)

begin-Run : Reached begin [] [] []
unfolding first_state
begin-Run = Run.start refl begin-IsFresh

-- The frontend has handed over the operation at the address 40.
abbrev asked : State'
asked = record begin { shm_qp = record { wq = 40 ∷ []; cq = []; num_in_queue = 1 } }

asked-Run : Reached asked (40 ∷ []) [] []
unfolding first_state push_req fresh
asked-Run = Run.posts 40 begin-Run refl

-- Worker `i` has been given a part.
abbrev pub given : ℕ → SubOp → Worker'
given i part = record (start_worker (ctx i) [] (λ _. 0) false) {
  qp = record { wq = part ∷ []; cq = []; num_in_queue = 1 };
}

abbrev taken : State'
taken = record {
  shm_qp = record { wq = []; cq = []; num_in_queue = 1 };
  workers =
      given 0 (sub_op_at 40 op 2 0 0)
      ∷ given 1 (sub_op_at 40 op 2 1 (sub_op_at 40 op 2 0 0).size)
      ∷ [];
  mem = λ _. 0;
}

taken-Run : Reached taken (40 ∷ []) ((40, op) ∷ []) []
unfolding first_state started_from start_worker run_post try_post_op post_from push_req pop_req
    front_req fresh sub_op_at
taken-Run = Run.takes 40 (λ _. op) asked-Run refl refl

parts_owed_example :
    let w = given 1 (sub_op_at 40 op 2 1 (sub_op_at 40 op 2 0 0).size) in
    let flying = lasts w.window.state w.window.to_ack (window_len w.window) in
    (responses (list_queue ℕ) taken.shm_qp ++ (40 ∷ requests (list_queue ℕ) taken.shm_qp) ≡ 40 ∷ [])
    × (map some (responses (list_queue SubOp) w.qp ++ (flying ++ requests (list_queue SubOp) w.qp))
        ≡ get_elem? (sub_ops 40 op 2 0 0 2) 1 ∷ [])
parts_owed_example =
    parts_owed (list_queue ℕ) (list_queue SubOp) wire fixed_point 7 1 taken-Run refl

completed_when_all_answered_example :
    let w = given 1 (sub_op_at 40 op 2 1 (sub_op_at 40 op 2 0 0).size) in
    ((all_answered (list_queue SubOp) (qps_of taken.workers) ≡ false)
      × (run_complete (list_queue ℕ) (list_queue SubOp) wire fixed_point taken
          ≡ some (false, taken)))
    ⊎ ((f : ℕ × Op) × (rest : List (ℕ × Op)) × (s' : State') × ((40, op) ∷ [] ≡ f ∷ rest)
        × (front_resp (list_queue SubOp) w.qp ≡ get_elem? (sub_ops f.0 f.1 2 0 0 2) 1)
        × (run_complete (list_queue ℕ) (list_queue SubOp) wire fixed_point taken ≡ some (true, s'))
        × (responses (list_queue ℕ) s'.shm_qp ≡ [] ++ f.0 ∷ [])
        × Reached s' (40 ∷ []) rest [])
completed_when_all_answered_example =
    completed_when_all_answered (list_queue ℕ) (list_queue SubOp) wire fixed_point 7 1 taken-Run
      refl

-- Worker 1 after a round in which nothing arrives: it has sent the packet of its part.
abbrev last_part : Worker'
last_part = given 1 (sub_op_at 40 op 2 1 (sub_op_at 40 op 2 0 0).size)

abbrev first_round : Option Worker'
first_round = worker_round (list_queue SubOp) wire fixed_point (λ _. op) 5 [] last_part

abbrev sender : Worker'
sender = elim first_round [ none ↦ last_part | some w ↦ w ]

first_round-returns : first_round ≡ some sender
unfolding run_worker start_worker
first_round-returns =
    let ((_, e, _), _, _) =
      backend_never_aborts (list_queue ℕ) (list_queue SubOp) wire fixed_point 7 1 (λ _. op) 5 []
        taken-Run refl (λ x. refl) (λ x e. refl) (ground arith, tt) in
    let (w, done, _) = >>=-eq-some first_round _ e in
    done ∙ sym (ap (λ o. some (elim o [ none ↦ last_part | some w ↦ w ])) done)

abbrev sent : State'
sent = record taken { workers = given 0 (sub_op_at 40 op 2 0 0) ∷ sender ∷ []; mem = sender.mem }

sent-Run : Reached sent (40 ∷ []) ((40, op) ∷ []) []
unfolding run_worker start_worker
sent-Run =
    Run.round 1 (λ _. op) 5 [] taken-Run (λ x. refl)
      (ap
        (λ o. o >>= λ (w : Worker').
          some (record taken { workers = given 0 (sub_op_at 40 op 2 0 0) ∷ w ∷ []; mem = w.mem }))
        first_round-returns)

answers_come_back_example :
    All
      (λ pkt.
        queues_for Launch.started.flows.nic (pkt.type_of_service / 4 * 4 + 3) ipproto_netccl
        ≡ 1 ∷ [])
      sender.link
answers_come_back_example =
    answers_come_back machine (list_queue ℕ) (list_queue SubOp) wire fixed_point 7 (pos 3)
      Launch.started (λ _. []) (λ _. 0) false 1 3 two_workers refl (omega arith) (λ j. refl)
      sent-Run refl (omega arith)

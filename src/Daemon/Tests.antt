-- ===== src/Daemon/Tests.antt =====
-- The daemon on a concrete all-reduce of eight bytes: server/frontend/src/c/daemon.cpp.
use clean_slate_inc.Prelude.{
  ℕ, ◌≡◌, ◌⊎◌, refl, Bool, true, false, Option, none, some, List, [], ◌∷◌, arith,
}
use clean_slate_inc.Op.{Op, op_all_reduce, need_tx, need_rx}
use clean_slate_inc.QueuePair.{fresh, push_req, front_req, pop_req, push_resp, front_resp}
use clean_slate_inc.QueuePair.Steps.{requests, responses}
use clean_slate_inc.QueuePair.ListQueue.{list_queue}
use clean_slate_inc.Frontend.{OpWithFut}
use clean_slate_inc.Daemon.{
  hand_over, set_copying, event_record, stream_wait, copy_to_host, Daemon, start_post,
  start_complete, try_post_op, try_complete_op, d2h_stream,
}
use clean_slate_inc.Daemon.Protocol.{post_rounds, not_done, copied_once_then_posted}
use clean_slate_inc.Daemon.Moves.{Still, Forwarded, Returned}
use clean_slate_inc.Daemon.Run.{Run, start, posts, takes, answers, posting, with_op}
use clean_slate_inc.Daemon.System.{daemon_never_aborts}
use clean_slate_inc.Daemon.Completion.{complete_rounds, copied_once_then_completed}

abbrev pub op : Op
op = record {
  op_code = op_all_reduce;
  root = 0;
  size = 8;
  shm_buffer = 16;
  group = record { group_id = 1; size = 2; rank = 0; agg_addr = 100; agg_len = 64; switch_ip = 5 };
  op_with_fut = 70;
}

abbrev pub op_with_fut : OpWithFut
op_with_fut = record {
  copying = false;
  data_addr = 5000;
  stream = 9;
  is_first = true;
  is_last = true;
  event = 4;
  has_future = true;
  op = 0;
}

-- The calls for an operation of one segment.
one_segment :
    start_post op_with_fut op
    ≡ event_record 4 9
      ∷ stream_wait d2h_stream 4
      ∷ copy_to_host 16 5000 8 d2h_stream
      ∷ event_record 4 d2h_stream
      ∷ []
unfolding start_post need_rx
one_segment = refl

abbrev asked : Daemon (List ℕ)
asked = record {
  heap = λ _. op_with_fut;
  ops = λ _. op;
  py_qp = record { wq = 70 ∷ []; cq = []; num_in_queue = 1 };
  shm_qp = record { wq = []; cq = []; num_in_queue = 0 };
  calls = [];
  completed = [];
}

abbrev answered : Daemon (List ℕ)
answered = record asked {
  py_qp = record { wq = []; cq = []; num_in_queue = 1 };
  shm_qp = record { wq = []; cq = 0 ∷ []; num_in_queue = 1 };
}

copied_once_then_posted_example :
    (waiting : Daemon (List ℕ)) × (d' : Daemon (List ℕ)) × (post_rounds
        (list_queue ℕ)
        (false ∷ not_done 2)
        asked
      ≡ some waiting)
    × (waiting.py_qp ≡ asked.py_qp)
    × (waiting.shm_qp ≡ asked.shm_qp)
    × (try_post_op (list_queue ℕ) true waiting ≡ some (true, d'))
    × (d'.calls ≡ start_post op_with_fut op)
    × (requests (list_queue ℕ) d'.py_qp ≡ [])
    × (requests (list_queue ℕ) d'.shm_qp ≡ 0 ∷ [])
    × ((d'.heap 70).copying ≡ false)
unfolding front_req need_tx
copied_once_then_posted_example =
    copied_once_then_posted (list_queue ℕ) 70 2 false asked refl refl refl (omega arith)
      (omega arith)

copied_once_then_completed_example :
    (waiting : Daemon (List ℕ)) × (d' : Daemon (List ℕ)) × (complete_rounds
        (list_queue ℕ)
        (false ∷ not_done 2)
        answered
      ≡ some waiting)
    × (waiting.py_qp ≡ answered.py_qp)
    × (waiting.shm_qp ≡ answered.shm_qp)
    × (waiting.completed ≡ [])
    × (try_complete_op (list_queue ℕ) true waiting ≡ some (true, d'))
    × (d'.calls ≡ start_complete op_with_fut op)
    × (responses (list_queue ℕ) d'.shm_qp ≡ [])
    × (responses (list_queue ℕ) d'.py_qp ≡ 70 ∷ [])
    × (d'.completed ≡ 70 ∷ [])
unfolding front_resp need_rx
copied_once_then_completed_example =
    copied_once_then_completed (list_queue ℕ) 0 2 false answered refl refl refl (omega arith)
      (omega arith) (omega arith)

abbrev pub begin : Daemon (List ℕ)
begin = record asked { py_qp = fresh (list_queue ℕ); shm_qp = fresh (list_queue ℕ) }

abbrev Reached : Daemon (List ℕ) → List ℕ → List ℕ → Type 0
Reached = Run (list_queue ℕ)

-- A second operation, in element 1.
abbrev other_op : Op
other_op = record op { shm_buffer = 24; op_with_fut = 71 }

abbrev other : OpWithFut
other = record op_with_fut { op = 1 }

abbrev pub after : Option (Bool × Daemon (List ℕ)) → Daemon (List ℕ)
after none = begin
after (some (_, d)) = d

abbrev posted : Daemon (List ℕ)
posted =
    record (with_op (list_queue ℕ) 71 1 other other_op
      (record (with_op (list_queue ℕ) 70 0 op_with_fut op begin) {
        py_qp = record { wq = 70 ∷ []; cq = []; num_in_queue = 1 };
      })) { py_qp = record { wq = 70 ∷ 71 ∷ []; cq = []; num_in_queue = 2 } }

posted-Run : Reached posted (70 ∷ 71 ∷ []) []
unfolding fresh push_req
posted-Run =
    posts 71 1 other other_op (posts 70 0 op_with_fut op (start refl refl) refl refl tt refl) refl
      refl ((ground arith, ground arith), tt) refl

-- The first one's copy is started, done, and the backend takes and answers it.
abbrev copying : Daemon (List ℕ)
copying = after (try_post_op (list_queue ℕ) false posted)

abbrev handed_over : Daemon (List ℕ)
handed_over = after (try_post_op (list_queue ℕ) true copying)

abbrev both_answered : Daemon (List ℕ)
both_answered = record handed_over { shm_qp = record { wq = []; cq = 0 ∷ []; num_in_queue = 1 } }

both_answered-Run : Reached both_answered (70 ∷ 71 ∷ []) []
unfolding try_post_op hand_over set_copying start_post need_tx need_rx front_req pop_req push_req
    push_resp fresh
both_answered-Run =
    answers 0
      (takes 0 (posting {b = true} true (posting {b = true} false posted-Run refl) refl) refl refl)
      refl

daemon_never_aborts_example :
    ((b : Bool) × (d' : Daemon (List ℕ)) × (try_post_op (list_queue ℕ) false both_answered
        ≡ some (b, d'))
      × Reached d' (70 ∷ 71 ∷ []) []
      × (Still (list_queue ℕ) both_answered d' ⊎ Forwarded (list_queue ℕ) both_answered d'))
    × ((b : Bool) × (d' : Daemon (List ℕ)) × (try_complete_op (list_queue ℕ) false both_answered
          ≡ some (b, d'))
        × Reached d' (70 ∷ 71 ∷ []) []
        × (Still (list_queue ℕ) both_answered d' ⊎ Returned (list_queue ℕ) both_answered d'))
daemon_never_aborts_example = daemon_never_aborts (list_queue ℕ) false both_answered-Run

-- ===== src/Frontend/Tests.antt =====
-- The frontend on concrete requests, with a queue that is a list: server/frontend/src/c/api.cpp.
use clean_slate_inc.Prelude.{
  ℕ, suc, ◌+◌, ◌*◌, ◌/◌, ◌≡◌, ◌≢◌, ◌≤◌, refl, ◌⊎◌, true, false, none, some, List, [], ◌∷◌, ◌++◌,
  length, arith, All,
}
use clean_slate_inc.Op.{Group, op_all_reduce}
use clean_slate_inc.QueuePair.{queue_size, fresh, push_req, front_req, pop_req, push_resp}
use clean_slate_inc.QueuePair.Steps.{responses}
use clean_slate_inc.QueuePair.ListQueue.{list_queue}
use clean_slate_inc.CopyBuffer
use clean_slate_inc.CopyBuffer.{CopyBuffer, shm_copy_buffer_size}
use clean_slate_inc.CopyBuffer.Live.{Chunk, Apart, Within}
use clean_slate_inc.Frontend.{
  OpWithFut, Request, Frontend, Segment, frontend_segment_size, segments, segment_at, allocate_op,
  free_ops, create_op, is_room, recv_all_resp, post_reserved,
}
use clean_slate_inc.Frontend.Slots.{Slots}
use clean_slate_inc.Frontend.Live.{
  out, created, written, after_create, Reach, init, post, take, answer,
}
use clean_slate_inc.Frontend.Segments.{Cut, segments_lem}
use clean_slate_inc.Frontend.Collective.{
  Call, Place, place_after, collective_round, posting_round_lem, sync_round_lem,
}
use clean_slate_inc.Frontend.Receive.{recv_all_resp_lem}
use clean_slate_inc.Frontend.System.{live_ops-Apart}
use clean_slate_inc.Frontend.Posting.{posts_in_unused_element}

abbrev five_mib : ℕ
five_mib = 5 * 1024 * 1024

-- 5 MiB are two full segments and one of 1 MiB.
three_segments :
    segments 3 five_mib true 0
    ≡ some (
        record {
          offset = 0;
          size = 2097152;
          is_first = true;
          is_last = false;
          generate_future = false;
        }
        ∷ record {
          offset = 2097152;
          size = 2097152;
          is_first = false;
          is_last = false;
          generate_future = false;
        }
        ∷ record {
          offset = 4194304;
          size = 1048576;
          is_first = false;
          is_last = true;
          generate_future = true;
        }
        ∷ [])
unfolding segments segment_at
three_segments = refl

segments_lem_example :
    (segs : List Segment) × (segments (suc (five_mib / frontend_segment_size)) five_mib true 0
      ≡ some segs)
    × Cut five_mib true 0 segs
segments_lem_example = segments_lem five_mib true (omega arith)

abbrev group : Group
group = record { group_id = 1; size = 2; rank = 0; agg_addr = 100; agg_len = 64; switch_ip = 5 }

-- Eight bytes at address 5000.
abbrev small : Request
small = record {
  op_code = op_all_reduce;
  root = 0;
  data_addr = 5000;
  size = 8;
  group = group;
  stream = 0;
  is_first = true;
  is_last = true;
  generate_future = false;
}

abbrev start : Frontend (List OpWithFut)
start = record {
  op_buffer = record { head = 0; cnt = 0; buffer = λ _. written 0 small 0 };
  copy_buffer = record { head = 0; tail = 0 };
  py_qp = record { wq = []; cq = []; num_in_queue = 0 };
}

abbrev op : OpWithFut
op = created 3 small 0

abbrev posted : Frontend (List OpWithFut)
posted = record (after_create (written 70 small 0) (record { head = 8; tail = 0 }) start) {
  py_qp = record { wq = op ∷ []; cq = []; num_in_queue = 1 };
}

abbrev answered : Frontend (List OpWithFut)
answered = record posted { py_qp = record { wq = []; cq = op ∷ []; num_in_queue = 1 } }

start-Reach : Reach (list_queue OpWithFut) start []
unfolding fresh CopyBuffer.empty
start-Reach = init {buffer = λ _. written 0 small 0}

posted-Reach : Reach (list_queue OpWithFut) posted []
unfolding post_reserved create_op allocate_op is_room free_ops CopyBuffer.fifo_allocate push_req
posted-Reach = post 3 70 small op start-Reach refl refl (omega arith)

answered-Reach : Reach (list_queue OpWithFut) answered []
unfolding front_req pop_req push_resp
answered-Reach = answer op (take op posted-Reach refl refl) refl

live_ops-Apart_example :
    (oldest : ℕ) × (chunks : List Chunk) × Slots posted.op_buffer.buffer oldest (op ∷ []) chunks
    × Apart chunks
    × All (Within 0 (shm_copy_buffer_size + 1)) chunks
    × (length (op ∷ []) ≤ queue_size)
live_ops-Apart_example = live_ops-Apart (list_queue OpWithFut) posted-Reach

posts_in_unused_element_example :
    (x : OpWithFut) × (f' : Frontend (List OpWithFut)) × (place : ℕ) × (post_reserved
        (list_queue OpWithFut)
        4
        71
        small
        posted
      ≡ some (x, f'))
    × (push_req (list_queue OpWithFut) x posted.py_qp ≡ some (true, f'.py_qp))
    × All (λ (y : OpWithFut). y.op ≢ x.op) (op ∷ [])
    × (f'.op_buffer.buffer x.op ≡ written 71 small place)
    × ((i : ℕ) → i ≢ x.op → f'.op_buffer.buffer i ≡ posted.op_buffer.buffer i)
unfolding is_room free_ops CopyBuffer.available
posts_in_unused_element_example =
    posts_in_unused_element (list_queue OpWithFut) 4 71 small posted-Reach refl

recv_all_resp_lem_example :
    (f' : Frontend (List OpWithFut)) × (recv_all_resp
        (list_queue OpWithFut)
        (suc queue_size)
        answered
      ≡ some f')
    × Reach (list_queue OpWithFut) f' []
    × (responses (list_queue OpWithFut) f'.py_qp ≡ [])
    × (out (list_queue OpWithFut) answered [] ≡ (op ∷ []) ++ out (list_queue OpWithFut) f' [])
recv_all_resp_lem_example = recv_all_resp_lem (list_queue OpWithFut) answered-Reach

-- Eight bytes, in one segment.
abbrev call : Call
call = record {
  op_code = op_all_reduce;
  root = 0;
  data_addr = 5000;
  size = 8;
  group = group;
  stream = 0;
  async_op = true;
}

posting_round_lem_example :
    let s = segment_at 8 true 0 in
    (g : Frontend (List OpWithFut)) × Reach (list_queue OpWithFut) g []
    × (out (list_queue OpWithFut) g [] ≡ op ∷ [])
    × (((is_room s.size g ≡ false)
          × (collective_round (list_queue OpWithFut) 4 80 call (Place.posting 0) posted
              ≡ some (none, Place.posting 0, g)))
        ⊎ ((x : OpWithFut) × (f' : Frontend (List OpWithFut)) × (is_room s.size g ≡ true)
            × (collective_round (list_queue OpWithFut) 4 80 call (Place.posting 0) posted
                ≡ some (some x, place_after call 0 s.generate_future, f'))
            × (out (list_queue OpWithFut) f' [] ≡ out (list_queue OpWithFut) g [] ++ x ∷ [])
            × ((x.data_addr ≡ 5000)
                × ((f'.op_buffer.buffer x.op).size ≡ s.size)
                × (x.is_first ≡ s.is_first)
                × (x.is_last ≡ s.is_last))))
posting_round_lem_example = posting_round_lem (list_queue OpWithFut) 4 80 call 0 posted-Reach

-- Without an answer the call waits on, and with it it returns.
sync_round_lem_example :
    (f' : Frontend (List OpWithFut)) × (collective_round
        (list_queue OpWithFut)
        4
        80
        call
        (Place.syncing true)
        answered
      ≡ some (none, Place.returned true, f'))
    × Reach (list_queue OpWithFut) f' []
    × (out (list_queue OpWithFut) f' [] ≡ [])
sync_round_lem_example = sync_round_lem (list_queue OpWithFut) 4 80 call true answered-Reach

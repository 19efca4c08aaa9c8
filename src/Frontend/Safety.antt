-- ===== src/Frontend/Safety.antt =====
-- Posting and receiving never fail an assertion, and keep what is true of the live operations:
-- server/frontend/src/c/api.cpp.
use clean_slate_inc.Prelude.{
  ℕ, ◌+◌, ◌-◌, ◌%◌, ◌≡◌, ◌≢◌, ◌<◌, ◌≤◌, refl, true, some, List, [], ◌∷◌, ◌++◌, length, arith, ◌∙◌,
  ap, ap₂, sym, subst, inl, inr, length-append, append_assoc,
}
use clean_slate_inc.Op.{Op}
use clean_slate_inc.QueuePair
use clean_slate_inc.QueuePair.{
  queue_size, Spsc, QueuePair, push_req, front_req, pop_req, push_resp, front_resp, pop_resp,
}
use clean_slate_inc.QueuePair.Steps.{
  requests, responses, front_resp-responses, Pushed, pop_resp-responses,
}
use clean_slate_inc.QueuePair.History.{Reach-Inv, head?-some, push_req_total, push_resp_total}
use clean_slate_inc.CopyBuffer
use clean_slate_inc.CopyBuffer.{CopyBuffer, shm_copy_buffer_size}
use clean_slate_inc.CopyBuffer.Live.{chunk}
use clean_slate_inc.CopyBuffer.Steps.{fifo_free_never_aborts, live_chunks-Apart}
use clean_slate_inc.Frontend.{
  OpBuffer, OpWithFut, Request, Frontend, free_op, destroy_op, is_room, recv_resp, post_reserved,
}
use clean_slate_inc.Frontend.Slots.{Slots, write_self, Slots-write, Slots-append, Slots-oldest}
use clean_slate_inc.Frontend.Live.{
  written, created, after_create, create_op_lem, room_op, out, Good,
}

module _ (q : Spsc OpWithFut) where
  length-out :
      (f : Frontend q.Queue) (taken : List OpWithFut)
      → length (out q f taken)
        ≡ length (responses q f.py_qp) + (length taken + length (requests q f.py_qp))
  length-out f taken =
      length-append (responses q f.py_qp) (taken ++ requests q f.py_qp)
      ∙ ap (λ n. length (responses q f.py_qp) + n) (length-append taken (requests q f.py_qp))

  -- The count of the queue pair is the number of operations that are out.
  pub out_count :
      {f : Frontend q.Queue} {taken : List OpWithFut}
      → Good q f taken
      → (f.py_qp.num_in_queue ≡ length (out q f taken)) × (f.py_qp.num_in_queue ≤ queue_size)
  out_count {f} {taken} v =
      let i = Reach-Inv q v.queues in (omega (arith, i.count, length-out f taken), i.bound)

  -- What `post_reserved` does when there is room.
  pub record Posted (event address : ℕ) (r : Request) (f f' : Frontend q.Queue) : Type 0 where
    pub start : ℕ
    pub qp : QueuePair q.Queue
    pub place : (CopyBuffer.fifo_allocate r.size f.copy_buffer).0 ≡ some start
    pub pushed : push_req q (created event r f.op_buffer.head) f.py_qp ≡ some (true, qp)
    pub queued : Pushed q (created event r f.op_buffer.head) f.py_qp qp
    pub result :
        f'
        ≡ record (after_create
            (written address r start)
            (CopyBuffer.fifo_allocate r.size f.copy_buffer).1
            f) { py_qp = qp }

  pub post_reserved-Posted :
      {f : Frontend q.Queue} {taken : List OpWithFut} (event address : ℕ) (r : Request)
      → Good q f taken
      → is_room r.size f ≡ true
      → (f' : Frontend q.Queue) × (post_reserved q event address r f
          ≡ some (created event r f.op_buffer.head, f'))
        × Posted event address r f f'
  unfolding post_reserved
  post_reserved-Posted {f} event address r v room =
      let (_, bound) = out_count v in
      let le : f.op_buffer.cnt ≤ queue_size = omega (arith, v.cnt, bound) in
      let (lt, _) = room_op f r.size le room in
      let (start, place, made) = create_op_lem event address r f le room in
      elim (push_req_total q (created event r f.op_buffer.head) v.queues) [
        | inl (_, (qp, pushed, queued)) ↦ (
          record (after_create (written address r start)
              (CopyBuffer.fifo_allocate r.size f.copy_buffer).1 f) { py_qp = qp },
          rw (post_reserved, made, pushed) refl,
          record {
            start = start;
            qp = qp;
            place = place;
            pushed = pushed;
            queued = queued;
            result = refl;
          },
        )
        | inr (full, _) ↦ absurd (omega (arith, full, v.cnt, lt))
      ]

  pub Posted-Good :
      {f f' : Frontend q.Queue} {taken : List OpWithFut} (event address : ℕ) (r : Request)
      → Good q f taken
      → is_room r.size f ≡ true
      → (p : Posted event address r f f') → p.start + r.size ≢ shm_copy_buffer_size + 1
      → Good q f' taken
  Posted-Good {f} {f'} {taken} event address r v room p ne =
      let x = created event r f.op_buffer.head in
      let (count, bound) = out_count v in
      let (lt, _) = room_op f r.size (omega (arith, v.cnt, bound)) room in
      let joined : responses q p.qp ++ (taken ++ requests q p.qp) ≡ out q f taken ++ x ∷ [] =
        rw (p.queued.0, p.queued.1) (simp append_assoc) in
      let op = written address r p.start in
      let self = write_self f.op_buffer.buffer f.op_buffer.head op in
      subst (λ g. Good q g taken) (sym p.result)
        (record {
          made = v.made ++ x ∷ [];
          got = v.got;
          queues = QueuePair.History.request x v.queues p.pushed;
          chunks = v.chunks ++ chunk p.start r.size ∷ [];
          copies =
              CopyBuffer.Steps.allocate r.size p.start v.copies (ap₂ (λ a b. (a, b)) p.place refl)
                ne;
          oldest = v.oldest;
          oldest_in = v.oldest_in;
          slots = rw joined (
              Slots-append x (chunk p.start r.size)
                (Slots-write f.op_buffer.head (length (out q f taken)) op v.slots v.oldest_in v.head
                  (omega arith) (omega (arith, count, v.cnt, lt)))
                v.oldest_in v.head (ap (λ (o : Op). o.size) self)
                (ap (λ (o : Op). o.shm_buffer) self));
          cnt = omega (arith, v.cnt, p.queued.2, lt);
          head =
              rw (joined, length-append (out q f taken) (x ∷ []))
                (ground (arith, v.head, v.oldest_in, count, v.cnt, lt));
        })

  free_op_lem :
      (b : OpBuffer)
      → 0 < b.cnt
      → b.cnt ≤ queue_size
      → free_op b ≡ some (record b { cnt = b.cnt - 1 })
  unfolding free_op
  free_op_lem b pos le = ground arith

  -- What `recv_resp` does when the oldest operation has been answered.
  pub recv_resp-Good :
      {f : Frontend q.Queue} {taken : List OpWithFut} (x : OpWithFut)
      → Good q f taken
      → front_resp q f.py_qp ≡ some x
      → (f' : Frontend q.Queue) × (recv_resp q f ≡ some (true, f'))
        × Good q f' taken
        × (out q f taken ≡ x ∷ out q f' taken)
        × (responses q f.py_qp ≡ x ∷ responses q f'.py_qp)
  unfolding recv_resp destroy_op
  recv_resp-Good {f} {taken} x v e =
      let (ys, h) = head?-some x (responses q f.py_qp) (sym (front_resp-responses q f.py_qp) ∙ e) in
      let oldest_first : out q f taken ≡ x ∷ (ys ++ (taken ++ requests q f.py_qp)) =
        ap (λ l. l ++ (taken ++ requests q f.py_qp)) h in
      let (count, bound) = out_count v in
      let pos : 0 < f.py_qp.num_in_queue = omega (arith, count, ap length oldest_first) in
      let (qp, popped, p0, p1, p2) = pop_resp-responses q x ys f.py_qp h pos bound in
      let (c, rest, chunks, size, slots) =
        Slots-oldest
          (subst (λ l. Slots f.op_buffer.buffer v.oldest l v.chunks) oldest_first v.slots) in
      let (copy_buffer, freed, copies) =
        fifo_free_never_aborts {c = c}
          (subst (λ l. CopyBuffer.Steps.Reach f.copy_buffer l) chunks v.copies) in
      let freed_op = free_op_lem f.op_buffer (omega (arith, v.cnt)) (omega (arith, v.cnt, bound)) in
      let left : responses q qp ++ (taken ++ requests q qp) ≡ ys ++ (taken ++ requests q f.py_qp) =
        rw (p0, p1) refl in
      (
        record {
          copy_buffer = copy_buffer;
          op_buffer = record f.op_buffer { cnt = f.op_buffer.cnt - 1 };
          py_qp = qp;
        },
        rw (recv_resp, e, size, freed, freed_op, popped) refl,
        record {
          made = v.made;
          got = v.got ++ x ∷ [];
          queues = QueuePair.History.collect x v.queues e popped;
          chunks = rest;
          copies = copies;
          oldest = (v.oldest + 1) % queue_size;
          oldest_in = omega arith;
          slots = rw left slots;
          cnt = omega (arith, v.cnt, p2);
          head = rw left (omega (arith, v.head, ap length oldest_first));
        },
        oldest_first ∙ ap (λ l. x ∷ l) (sym left),
        h ∙ ap (λ l. x ∷ l) (sym p0),
      )

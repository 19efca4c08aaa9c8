-- ===== src/Frontend/System.antt =====
-- What holds in every state of the frontend that calls and a daemon can lead to:
-- server/frontend/src/c/api.cpp.
use clean_slate_inc.Prelude.{
  ℕ, ◌+◌, ◌≡◌, ◌≢◌, ◌<◌, ◌≤◌, refl, Bool, true, some, List, [], ◌∷◌, ◌++◌, length, arith, ◌∙◌, ap,
  sym, subst, append_assoc, All, Option-cases, inl, inr,
}
use clean_slate_inc.Op.{Op}
use clean_slate_inc.QueuePair
use clean_slate_inc.QueuePair.{
  queue_size, Spsc, QueuePair, fresh, push_req, front_req, pop_req, push_resp, front_resp,
}
use clean_slate_inc.QueuePair.Steps.{requests, responses, front_req-requests, pop_req-requests}
use clean_slate_inc.QueuePair.History.{Reach-Inv, head?-some, push_resp_total}
use clean_slate_inc.CopyBuffer
use clean_slate_inc.CopyBuffer.{shm_copy_buffer_size}
use clean_slate_inc.CopyBuffer.Live.{Chunk, Apart, Within}
use clean_slate_inc.CopyBuffer.Steps.{live_chunks-Apart}
use clean_slate_inc.Frontend.{OpWithFut, Request, Frontend, is_room, recv_resp, post_reserved}
use clean_slate_inc.Frontend.Slots.{Slots, done, write_self}
use clean_slate_inc.Frontend.Live.{
  written, created, out, Reach, init, post, take, answer, receive, Good,
}
use clean_slate_inc.Frontend.Safety.{out_count, post_reserved-Posted, Posted-Good, recv_resp-Good}

module _ (q : Spsc OpWithFut) where
  init-Good :
      {buffer : ℕ → Op}
      → Good q
          (record {
            op_buffer = record { head = 0; cnt = 0; buffer = buffer };
            copy_buffer = CopyBuffer.empty;
            py_qp = fresh q;
          })
          []
  unfolding fresh
  init-Good {buffer} =
      let nothing : out q
            (record {
              op_buffer = record { head = 0; cnt = 0; buffer = buffer };
              copy_buffer = CopyBuffer.empty;
              py_qp = fresh q;
            })
            []
          ≡ [] =
        rw q.items-empty refl in
      record {
        made = [];
        got = [];
        queues = QueuePair.History.init;
        chunks = [];
        copies = CopyBuffer.Steps.init;
        oldest = 0;
        oldest_in = omega arith;
        slots = rw nothing done;
        cnt = refl;
        head = rw nothing refl;
      }

  -- Only the queue pair changes, and the same operations are out.
  Good-queues :
      {f : Frontend q.Queue} {taken taken' made got : List OpWithFut} {qp : QueuePair q.Queue}
      → Good q f taken
      → QueuePair.History.Reach q qp made taken' got
      → qp.num_in_queue ≡ f.py_qp.num_in_queue
      → responses q qp ++ (taken' ++ requests q qp) ≡ out q f taken
      → Good q (record f { py_qp = qp }) taken'
  Good-queues {made = made} {got = got} v r num same = record {
    made = made;
    got = got;
    queues = r;
    chunks = v.chunks;
    copies = v.copies;
    oldest = v.oldest;
    oldest_in = v.oldest_in;
    slots = rw same v.slots;
    cnt = v.cnt ∙ sym num;
    head = rw same v.head;
  }

  take-Good :
      {f : Frontend q.Queue} {taken : List OpWithFut} {qp : QueuePair q.Queue} (x : OpWithFut)
      → Good q f taken
      → front_req q f.py_qp ≡ some x
      → QueuePair.pop_req q f.py_qp ≡ some qp
      → Good q (record f { py_qp = qp }) (taken ++ x ∷ [])
  take-Good {f} {taken} {qp} x v e popped =
      let (xs, h) = head?-some x (requests q f.py_qp) (sym (front_req-requests q f.py_qp) ∙ e) in
      let (qp', g, p0, p1, p2) = pop_req-requests q x xs f.py_qp h in
      let same : qp' ≡ qp = ground arith in
      Good-queues v (QueuePair.History.take x v.queues e popped)
        (ap (λ (z : QueuePair q.Queue). z.num_in_queue) (sym same) ∙ p2)
        (rw (← same, p0, p1, h) (simp append_assoc))

  answer-Good :
      {f : Frontend q.Queue} {taken : List OpWithFut} {qp : QueuePair q.Queue} (x : OpWithFut)
      → Good q f (x ∷ taken)
      → push_resp q x f.py_qp ≡ some (true, qp)
      → Good q (record f { py_qp = qp }) taken
  answer-Good {f} {taken} {qp} x v e =
      let i = Reach-Inv q v.queues in
      let room : length (responses q f.py_qp) < queue_size = omega (arith, i.count, i.bound) in
      let (qp', g, p0, p1, p2) = QueuePair.Steps.push_resp-responses q x f.py_qp room in
      let same : qp' ≡ qp = ground arith in
      Good-queues v (QueuePair.History.answer x v.queues e)
        (ap (λ (z : QueuePair q.Queue). z.num_in_queue) (sym same) ∙ p2)
        (rw (← same, p0, p1) (simp append_assoc))

  post-Good :
      {f f' : Frontend q.Queue} {taken : List OpWithFut} (event address : ℕ) (r : Request)
      (x : OpWithFut)
      → Good q f taken
      → is_room r.size f ≡ true
      → post_reserved q event address r f ≡ some (x, f')
      → (f'.op_buffer.buffer x.op).shm_buffer + r.size ≢ shm_copy_buffer_size + 1
      → Good q f' taken
  post-Good {f} {f'} {taken} event address r x v room e ne =
      let (g, made, p) = post_reserved-Posted q event address r v room in
      let same : (created event r f.op_buffer.head, g) ≡ (x, f') = cc in
      let same_op : f.op_buffer.head ≡ x.op =
        ap (λ (z : OpWithFut × Frontend q.Queue). z.0.op) same in
      let same_state : g ≡ f' = ap (λ (z : OpWithFut × Frontend q.Queue). z.1) same in
      let start : (g.op_buffer.buffer f.op_buffer.head).shm_buffer ≡ p.start =
        ap (λ (s : Frontend q.Queue). (s.op_buffer.buffer f.op_buffer.head).shm_buffer) p.result
        ∙ ap (λ (o : Op). o.shm_buffer)
            (write_self f.op_buffer.buffer f.op_buffer.head (written address r p.start)) in
      subst (λ s. Good q s taken) same_state
        (Posted-Good q event address r v room p (λ exact. ne (
          ap
            (λ (z : OpWithFut × Frontend q.Queue).
              (z.1.op_buffer.buffer z.0.op).shm_buffer + r.size)
            (sym same)
          ∙ ap (λ n. n + r.size) start
          ∙ exact)))

  receive-Good :
      {f f' : Frontend q.Queue} {taken : List OpWithFut}
      → Good q f taken
      → recv_resp q f ≡ some (true, f')
      → Good q f' taken
  unfolding recv_resp
  receive-Good {f} {f'} {taken} v e = elim (Option-cases (front_resp q f.py_qp)) [
    | inl nothing ↦ absurd (ground arith)
    | inr (x, found) ↦
        let (g, made, good, _, _) = recv_resp-Good q x v found in
        let same : (true, g) ≡ (true, f') = cc in
        subst (λ s. Good q s taken) (ap (λ (z : Bool × Frontend q.Queue). z.1) same) good
  ]

  pub Reach-Good :
      {f : Frontend q.Queue} {taken : List OpWithFut} → Reach q f taken → Good q f taken
  Reach-Good init = init-Good
  Reach-Good (post event address r x reach room e ne) =
      post-Good event address r x (Reach-Good reach) room e ne
  Reach-Good (take x r e p) = take-Good x (Reach-Good r) e p
  Reach-Good (answer x r e) = answer-Good x (Reach-Good r) e
  Reach-Good (receive r e) = receive-Good (Reach-Good r) e

  -- In every reachable state, when `post_sub_collective` stops waiting it passes all its assertions:
  -- the operation is allocated, its data get a chunk, and `py_qp` accepts it.
  pub post_never_aborts :
      {f : Frontend q.Queue} {taken : List OpWithFut} (event address : ℕ) (r : Request)
      → Reach q f taken
      → is_room r.size f ≡ true
      → (x : OpWithFut) × (f' : Frontend q.Queue) × (post_reserved q event address r f
          ≡ some (x, f'))
        × (out q f' taken ≡ out q f taken ++ x ∷ [])
  post_never_aborts {f} {taken} event address r reach room =
      let x = created event r f.op_buffer.head in
      let (f', made, p) = post_reserved-Posted q event address r (Reach-Good reach) room in
      (
        x,
        f',
        made,
        ap (λ (s : Frontend q.Queue). out q s taken) p.result
            ∙ rw (p.queued.0, p.queued.1) (simp append_assoc),
      )

  -- In every reachable state with an answered operation, `recv_all_resp` destroys the oldest one
  -- without failing an assertion, and no other.
  pub receive_never_aborts :
      {f : Frontend q.Queue} {taken : List OpWithFut} (x : OpWithFut)
      → Reach q f taken
      → front_resp q f.py_qp ≡ some x
      → (f' : Frontend q.Queue) × (recv_resp q f ≡ some (true, f'))
        × Reach q f' taken
        × (out q f taken ≡ x ∷ out q f' taken)
        × (responses q f.py_qp ≡ x ∷ responses q f'.py_qp)
  receive_never_aborts x r e =
      let (f', made, _, oldest, head) = recv_resp-Good q x (Reach-Good r) e in
      (f', made, receive r made, oldest, head)

  -- While no chunk has ended exactly on the last byte of the copy buffer: in every reachable state
  -- the operations that are out, oldest first, lie in consecutive elements of the operation buffer,
  -- at most all of them; each still has there the place and the size of its own chunk of the copy
  -- buffer, and no two of these chunks share a byte.
  pub live_ops-Apart :
      {f : Frontend q.Queue} {taken : List OpWithFut}
      → Reach q f taken
      → (oldest : ℕ) × (chunks : List Chunk) × Slots f.op_buffer.buffer oldest
          (out q f taken)
          chunks
        × Apart chunks
        × All (Within 0 (shm_copy_buffer_size + 1)) chunks
        × (length (out q f taken) ≤ queue_size)
  live_ops-Apart r =
      let v = Reach-Good r in
      let (count, bound) = out_count q v in
      let (apart, within) = live_chunks-Apart v.copies in
      (v.oldest, v.chunks, v.slots, apart, within, omega (arith, count, bound))

-- ===== src/Frontend/Posting.antt =====
-- What the rest of the system relies on when the training process posts an operation:
-- `post_sub_collective` of server/frontend/src/c/api.cpp, after its wait.
use clean_slate_inc.Prelude.{
  ℕ, ◌≡◌, ◌≢◌, sym, ap, ◌∙◌, true, some, List, All, arith, ◌==◌, if◌then◌else◌,
}
use clean_slate_inc.QueuePair.{Spsc, push_req}
use clean_slate_inc.Frontend.{OpWithFut, Request, Frontend, is_room, post_reserved}
use clean_slate_inc.Frontend.Slots.{write_self, write_ne, Slots-behind}
use clean_slate_inc.Frontend.Live.{written, out, room_op, Reach}
use clean_slate_inc.Frontend.Safety.{out_count, post_reserved-Posted}
use clean_slate_inc.Frontend.System.{Reach-Good}

module _ (q : Spsc OpWithFut) where
  -- While no chunk has ended exactly on the last byte of the copy buffer: in every reachable state
  -- with room for a request, `post_sub_collective` posts it after its wait, and `py_qp` accepts it;
  -- the new operation's element belongs to no operation that is out; this element now has the
  -- request's kind, root, size and group and points back at the new operation; and all other
  -- elements are what they were.
  pub posts_in_unused_element :
      {f : Frontend q.Queue} {taken : List OpWithFut} (event address : ℕ) (r : Request)
      → Reach q f taken
      → is_room r.size f ≡ true
      → (x : OpWithFut) × (f' : Frontend q.Queue) × (start : ℕ) × (post_reserved q event address r f
          ≡ some (x, f'))
        × (push_req q x f.py_qp ≡ some (true, f'.py_qp))
        × All (λ (y : OpWithFut). y.op ≢ x.op) (out q f taken)
        × (f'.op_buffer.buffer x.op ≡ record {
          op_code = r.op_code;
          root = r.root;
          size = r.size;
          shm_buffer = start;
          group = r.group;
          op_with_fut = address;
        })
        × ((i : ℕ) → i ≢ x.op → f'.op_buffer.buffer i ≡ f.op_buffer.buffer i)
  posts_in_unused_element {f} {taken} event address r reach room =
      let v = Reach-Good q reach in
      let (f', made, p) = post_reserved-Posted q event address r v room in
      let (count, bound) = out_count q v in
      let (lt, _) = room_op f r.size (omega (arith, v.cnt, bound)) room in
      let head = f.op_buffer.head in
      let op = written address r p.start in
      let now : (i : ℕ) → f'.op_buffer.buffer i ≡ (if i == head then op else f.op_buffer.buffer i) =
        λ i. ap (λ (s : Frontend q.Queue). s.op_buffer.buffer i) p.result in
      (
        _,
        f',
        p.start,
        made,
        p.pushed ∙ ap (λ (s : Frontend q.Queue). some (true, s.py_qp)) (sym p.result),
        Slots-behind head _ v.slots v.oldest_in v.head (omega arith)
            (omega (arith, v.cnt, count, lt)),
        now head ∙ write_self f.op_buffer.buffer head op,
        λ i ne. now i ∙ write_ne f.op_buffer.buffer head op i ne,
      )

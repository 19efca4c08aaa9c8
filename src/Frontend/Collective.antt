-- ===== src/Frontend/Collective.antt =====
-- A whole call of `post_collective_c`, one round of its loops at a time, beside the daemon:
-- server/frontend/src/c/api.cpp. A thread that waits yields between rounds.
use mathlib.Core.List.{append_cancel_left}
use clean_slate_inc.Prelude.{
  ℕ, suc, ◌+◌, ◌≡◌, refl, sym, ap, ◌∙◌, subst, ◌⊎◌, inl, inr, Bool, true, false, Option, none, some,
  List, [], ◌∷◌, ◌++◌, length, arith, ◌==◌, ltb, if◌then◌else◌, ◌>>=◌, add64, Bool-cases, some-inj,
}
use clean_slate_inc.Op.{Op, Group}
use clean_slate_inc.QueuePair.{queue_size, Spsc}
use clean_slate_inc.QueuePair.Steps.{requests, responses}
use clean_slate_inc.Frontend.{
  OpWithFut, Request, Frontend, frontend_segment_size, segment_at, free_ops, is_room, recv_all_resp,
  post_reserved, post_round,
}
use clean_slate_inc.Frontend.Slots.{write_self}
use clean_slate_inc.Frontend.Live.{written, created, out, Reach}
use clean_slate_inc.Frontend.Safety.{out_count, post_reserved-Posted}
use clean_slate_inc.Frontend.System.{Reach-Good, post_never_aborts}
use clean_slate_inc.Frontend.Receive.{recv_all_resp_lem}

-- The arguments.
pub record Call : Type 0 where
  pub op_code : ℕ
  pub root : ℕ
  pub data_addr : ℕ
  pub size : ℕ
  pub group : Group
  pub stream : ℕ
  pub async_op : Bool

-- What is passed to `post_sub_collective` for the segment at an offset.
unfoldable pub request_at : Call → ℕ → Request
request_at c offset =
    let s = segment_at c.size c.async_op offset in
    record {
      op_code = c.op_code;
      root = c.root;
      data_addr = c.data_addr + offset;
      size = s.size;
      group = c.group;
      stream = c.stream;
      is_first = s.is_first;
      is_last = s.is_last;
      generate_future = s.generate_future;
    }

-- Where the call stands: in the wait for the segment at an offset, in the last wait, or behind it; with
-- whether the result is a future.
pub data Place : Type 0 where
  posting : ℕ → Place
  syncing : Bool → Place
  returned : Bool → Place

-- Where the call goes on when the segment at `offset` has been posted.
unfoldable pub place_after : Call → ℕ → Bool → Place
place_after c offset has_future =
    let next = add64 offset frontend_segment_size in
    if ltb next c.size then posting next else syncing has_future

module _ (q : Spsc OpWithFut) where
  -- A round of the loop that the call stands in, with the operation that it posts, if it posts one.
  unfoldable pub collective_round :
      ℕ → ℕ → Call → Place → Frontend q.Queue → Option (Option OpWithFut × Place × Frontend q.Queue)
  collective_round event address c (posting offset) f = do
    (posted, f') ← post_round q event address (request_at c offset) f
    some (elim posted [
      | none ↦ (none, posting offset, f')
      | some x ↦ (some x, place_after c offset x.has_future, f')
    ])
  collective_round event address c (syncing has_future) f = do
    f' ← recv_all_resp q (queue_size + 1) f
    some (
      none,
      if free_ops f'.op_buffer == queue_size then returned has_future else syncing has_future,
      f',
    )
  collective_round event address c (returned has_future) f = some (none, returned has_future, f)

  fuel_lem : queue_size + 1 ≡ suc queue_size
  fuel_lem = omega arith

  free_ops-out :
      {f : Frontend q.Queue} {taken : List OpWithFut}
      → Reach q f taken
      → (free_ops f.op_buffer == queue_size) ≡ (length (out q f taken) == 0)
  unfolding free_ops
  free_ops-out {f} {taken} r =
      let v = Reach-Good q r in
      let (count, bound) = out_count q v in ground (arith, v.cnt, count, bound)

  post_round-wait :
      (event address : ℕ) (r : Request) (f : Frontend q.Queue) {g : Frontend q.Queue}
      → recv_all_resp q (queue_size + 1) f ≡ some g
      → is_room r.size g ≡ false
      → post_round q event address r f ≡ some (none, g)
  unfolding post_round
  post_round-wait event address r f e full = rw (post_round, e, full) refl

  post_round-post :
      (event address : ℕ) (r : Request) (f : Frontend q.Queue) {g f' : Frontend q.Queue}
      {x : OpWithFut}
      → recv_all_resp q (queue_size + 1) f ≡ some g
      → is_room r.size g ≡ true
      → post_reserved q event address r g ≡ some (x, f')
      → post_round q event address r f ≡ some (some x, f')
  unfolding post_round
  post_round-post event address r f e room made = rw (post_round, e, room, made) refl

  -- What `post_never_aborts` leaves open is the operation that `create_op` makes.
  posted :
      (event address : ℕ) (r : Request) {g : Frontend q.Queue} {taken : List OpWithFut}
      → Reach q g taken
      → is_room r.size g ≡ true
      → (f' : Frontend q.Queue) × (post_reserved q event address r g
          ≡ some (created event r g.op_buffer.head, f'))
        × (out q f' taken ≡ out q g taken ++ created event r g.op_buffer.head ∷ [])
        × ((f'.op_buffer.buffer g.op_buffer.head).size ≡ r.size)
  posted event address r {g} {taken} reach room =
      let (f', made, p) = post_reserved-Posted q event address r (Reach-Good q reach) room in
      let (x, f'', made', joined) = post_never_aborts q event address r reach room in
      let same : (x, f'') ≡ (created event r g.op_buffer.head, f') = some-inj (sym made' ∙ made) in
      (
        f',
        made,
        subst (λ (z : OpWithFut × Frontend q.Queue). out q z.1 taken ≡ out q g taken ++ z.0 ∷ [])
            same joined,
        ap (λ (s : Frontend q.Queue). (s.op_buffer.buffer g.op_buffer.head).size) p.result
            ∙ ap (λ (o : Op). o.size)
                (write_self g.op_buffer.buffer g.op_buffer.head (written address r p.start)),
      )

  collects_all :
      {f : Frontend q.Queue} {taken : List OpWithFut}
      → Reach q f taken
      → (g : Frontend q.Queue) × (recv_all_resp q (queue_size + 1) f ≡ some g)
        × Reach q g taken
        × (out q g taken ≡ taken ++ requests q f.py_qp)
  collects_all {f} {taken} r =
      let (g, e, r', empty, parts) = recv_all_resp_lem q r in
      (
        g,
        subst (λ n. recv_all_resp q n f ≡ some g) (sym fuel_lem) e,
        r',
        sym (append_cancel_left (responses q f.py_qp) _ _ parts),
      )

  -- While no chunk has ended exactly on the last byte of the copy buffer: in every state that the
  -- frontend reaches with its daemon, a round of the last wait fails no assertion, destroys the
  -- answered operations, the oldest first, and leaves no other; and `post_collective_c` returns in
  -- it exactly if no operation is left that the daemon has taken or that waits for it.
  pub sync_round_lem :
      (event address : ℕ) (c : Call) (has_future : Bool) {f : Frontend q.Queue}
      {taken : List OpWithFut}
      → Reach q f taken
      → let left = taken ++ requests q f.py_qp in
        (f' : Frontend q.Queue) × (collective_round event address c (syncing has_future) f
          ≡ some (none, if length left == 0 then returned has_future else syncing has_future, f'))
        × Reach q f' taken
        × (out q f' taken ≡ left)
  unfolding collective_round
  sync_round_lem event address c has_future {f} {taken} r =
      let (f', e, r', same) = collects_all r in
      let test : (free_ops f'.op_buffer == queue_size)
          ≡ (length (taken ++ requests q f.py_qp) == 0) =
        free_ops-out r' ∙ ap (λ l. length l == 0) same in
      (f', rw (e, test) refl, r', same)

  -- While no chunk has ended exactly on the last byte of the copy buffer: in every state that the
  -- frontend reaches with its daemon, a round of the wait for a segment fails no assertion and
  -- destroys the answered operations. Then, if there is no room for the segment, it posts nothing
  -- and waits on; and if there is, it posts the segment at this offset behind the operations that
  -- are out, and goes on with the next one or, behind the last, with the last wait and the future of
  -- the last.
  pub posting_round_lem :
      (event address : ℕ) (c : Call) (offset : ℕ) {f : Frontend q.Queue} {taken : List OpWithFut}
      → Reach q f taken
      → let s = segment_at c.size c.async_op offset in
        (g : Frontend q.Queue) × Reach q g taken
        × (out q g taken ≡ taken ++ requests q f.py_qp)
        × (((is_room s.size g ≡ false)
              × (collective_round event address c (posting offset) f
                  ≡ some (none, posting offset, g)))
            ⊎ ((x : OpWithFut) × (f' : Frontend q.Queue) × (is_room s.size g ≡ true)
                × (collective_round event address c (posting offset) f
                    ≡ some (some x, place_after c offset s.generate_future, f'))
                × (out q f' taken ≡ out q g taken ++ x ∷ [])
                × ((x.data_addr ≡ c.data_addr + offset)
                    × ((f'.op_buffer.buffer x.op).size ≡ s.size)
                    × (x.is_first ≡ s.is_first)
                    × (x.is_last ≡ s.is_last))))
  unfolding collective_round post_round request_at
  posting_round_lem event address c offset {f} {taken} r =
      let req = request_at c offset in
      let (g, e, r', same) = collects_all r in
      (
        g,
        r',
        same,
        elim (Bool-cases (is_room req.size g)) [
          | inr full ↦ inl (full, rw (post_round-wait event address req f e full) refl)
          | inl room ↦
              let (f', made, joined, size) = posted event address req r' room in
              inr (
                created event req g.op_buffer.head,
                f',
                room,
                rw (post_round-post event address req f e room made) refl,
                joined,
                (refl, size, refl, refl),
              )
        ],
      )

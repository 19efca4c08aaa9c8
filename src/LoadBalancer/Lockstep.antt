-- ===== src/LoadBalancer/Lockstep.antt =====
-- The workers' queues stay in step with the operations that the load balancer has taken:
-- server/backend/load_balancer.cpp, `try_post_op` and `try_complete_op`.
use mathlib.Core.List.{map-append}
use clean_slate_inc.Prelude.{
  ℕ, suc, ◌+◌, ◌<◌, ◌≤◌, ◌≡◌, refl, sym, ap, ◌∙◌, inl, inr, List, [], ◌∷◌, ◌++◌, map, arith, length,
  head?, length-append, append_assoc, Option, some, Option-cases, true, add32,
}
use clean_slate_inc.Op.{Op}
use clean_slate_inc.QueuePair.{Spsc, QueuePair, queue_size, front_resp}
use clean_slate_inc.QueuePair.Steps.{
  requests, responses, push_req-Pushed, pop_resp-responses, front_resp-responses,
}
use clean_slate_inc.LoadBalancer.{SubOp, sub_op_at, post_from, all_answered, collect_from}
use clean_slate_inc.LoadBalancer.Split.{sub_ops}

pub length-map {ℓ κ} :
    {A : Type ℓ} {B : Type κ} (f : A → B) (xs : List A) → length (map f xs) ≡ length xs
length-map f [] = refl
length-map f (x ∷ xs) = ap suc (length-map f xs)

abbrev pub op_of : SubOp → ℕ
op_of s = s.op

op_of-sub_op_at :
    (addr : ℕ) (op : Op) (n i offset : ℕ) → op_of (sub_op_at addr op n i offset) ≡ addr
unfolding sub_op_at
op_of-sub_op_at addr op n i offset = refl

module _ (b : Spsc SubOp) where
  -- A worker that has taken the parts `t` owes a part of each operation in `flight`, in order.
  pub record Owes (flight : List ℕ) (qp : QueuePair b.Queue) (t : List SubOp) : Type 0 where
    pub order : map op_of (responses b qp ++ (t ++ requests b qp)) ≡ flight
    pub count : qp.num_in_queue ≡ length (responses b qp) + length t + length (requests b qp)

  -- All workers owe parts of the same operations.
  abbrev pub Lockstep : List ℕ → List (QueuePair b.Queue) → List (List SubOp) → Type 0
  Lockstep flight [] [] = Unit {0}
  Lockstep flight [] (t ∷ ts) = ⊥
  Lockstep flight (qp ∷ qps) [] = ⊥
  Lockstep flight (qp ∷ qps) (t ∷ ts) = Owes flight qp t × Lockstep flight qps ts

  -- Each queue pair has got one more request, and nothing else of its queues has changed.
  abbrev pub Appended : List SubOp → List (QueuePair b.Queue) → List (QueuePair b.Queue) → Type 0
  Appended [] [] [] = Unit {0}
  Appended (s ∷ ss) (qp ∷ qps) (qp' ∷ qps') =
      (requests b qp' ≡ requests b qp ++ s ∷ [])
      × (responses b qp' ≡ responses b qp)
      × Appended ss qps qps'
  Appended _ _ _ = ⊥

  Owes-length :
      {flight : List ℕ} {qp : QueuePair b.Queue} {t : List SubOp}
      → Owes flight qp t
      → qp.num_in_queue ≡ length flight
  Owes-length {flight} {qp} {t} v = omega (
    arith,
    v.count,
    ap length v.order,
    length-map op_of (responses b qp ++ (t ++ requests b qp)),
    length-append (responses b qp) (t ++ requests b qp),
    length-append t (requests b qp),
  )

  Owes-push :
      (qp qp' : QueuePair b.Queue) (t : List SubOp) (part : SubOp) (addr : ℕ) {flight : List ℕ}
      → requests b qp' ≡ requests b qp ++ part ∷ []
      → responses b qp' ≡ responses b qp
      → qp'.num_in_queue ≡ qp.num_in_queue + 1
      → op_of part ≡ addr
      → Owes flight qp t
      → Owes (flight ++ addr ∷ []) qp' t
  Owes-push qp qp' t part addr {flight} queued same one is v = record {
    order = rw (queued, same, ← v.order, ← is) (simp (map-append, append_assoc));
    count = omega (
      arith,
      v.count,
      one,
      ap length queued,
      ap length same,
      length-append (requests b qp) (part ∷ []),
    );
  }

  pub post_from-Lockstep :
      (addr : ℕ) (op : Op) (n i offset : ℕ) (flight : List ℕ) (qps : List (QueuePair b.Queue))
      (ts : List (List SubOp))
      → length flight < queue_size
      → Lockstep flight qps ts
      → (qps' : List (QueuePair b.Queue)) × (post_from b addr op n i offset qps ≡ some qps')
        × Lockstep (flight ++ addr ∷ []) qps' ts
        × Appended (sub_ops addr op n i offset (length qps)) qps qps'
  unfolding post_from sub_ops
  post_from-Lockstep addr op n i offset flight [] [] h v = ([], refl, tt, tt)
  post_from-Lockstep addr op n i offset flight [] (t ∷ ts) h v = absurd v
  post_from-Lockstep addr op n i offset flight (qp ∷ qps) [] h v = absurd v
  post_from-Lockstep addr op n i offset flight (qp ∷ qps) (t ∷ ts) h (v, vs) =
      let part = sub_op_at addr op n i offset in
      let (qp', e, (queued, same, one)) =
        push_req-Pushed b part qp (omega (arith, Owes-length v))
          (omega (arith, Owes-length v, v.count)) in
      let (qps', f, ws, app) =
        post_from-Lockstep addr op n (i + 1) (add32 offset part.size) flight qps ts h vs in
      (
        qp' ∷ qps',
        rw (e, f) refl,
        (Owes-push qp qp' t part addr queued same one (op_of-sub_op_at addr op n i offset) v, ws),
        (queued, same, app),
      )

  Owes-pop :
      (qp qp' : QueuePair b.Queue) (t : List SubOp) (part : SubOp) (xs : List SubOp) (addr : ℕ)
      {rest : List ℕ}
      → responses b qp ≡ part ∷ xs
      → responses b qp' ≡ xs
      → requests b qp' ≡ requests b qp
      → qp'.num_in_queue + 1 ≡ qp.num_in_queue
      → Owes (addr ∷ rest) qp t
      → (op_of part ≡ addr) × Owes rest qp' t
  Owes-pop qp qp' t part xs addr {rest} was now same one v =
      let all : op_of part ∷ map op_of (xs ++ (t ++ requests b qp)) ≡ addr ∷ rest =
        rw was at v.order in
      (
        cc,
        record {
          order = rw (now, same) (cc);
          count = omega (arith, v.count, one, ap length was, ap length now, ap length same);
        },
      )

  pub answered :
      (qp : QueuePair b.Queue) {part : SubOp}
      → front_resp b qp ≡ some part
      → (xs : List SubOp) × (responses b qp ≡ part ∷ xs)
  answered qp {part} e = split (responses b qp) (sym (front_resp-responses b qp) ∙ e)
    where
      split : (ys : List SubOp) → head? ys ≡ some part → (xs : List SubOp) × (ys ≡ part ∷ xs)
      split [] h = absurd (ground arith)
      split (y ∷ ys) h = (ys, ground arith)

  -- The operation that the second loop of `try_complete_op` ends with.
  abbrev pub last_op : Option ℕ → ℕ → List (QueuePair b.Queue) → Option ℕ
  last_op acc addr [] = acc
  last_op acc addr (qp ∷ qps) = some addr

  last_op_self :
      (addr : ℕ) (qps : List (QueuePair b.Queue)) → last_op (some addr) addr qps ≡ some addr
  last_op_self addr [] = refl
  last_op_self addr (qp ∷ qps) = refl

  pub collect_from-Lockstep :
      (acc : Option ℕ) (addr : ℕ) (rest : List ℕ) (qps : List (QueuePair b.Queue))
      (ts : List (List SubOp))
      → length (addr ∷ rest) ≤ queue_size
      → Lockstep (addr ∷ rest) qps ts
      → all_answered b qps ≡ true
      → (qps' : List (QueuePair b.Queue)) × (collect_from b acc qps
          ≡ some (last_op acc addr qps, qps'))
        × Lockstep rest qps' ts
  unfolding collect_from all_answered
  collect_from-Lockstep acc addr rest [] [] h v e = ([], refl, tt)
  collect_from-Lockstep acc addr rest [] (t ∷ ts) h v e = absurd v
  collect_from-Lockstep acc addr rest (qp ∷ qps) [] h v e = absurd v
  collect_from-Lockstep acc addr rest (qp ∷ qps) (t ∷ ts) h (v, vs) e =
      elim (Option-cases (front_resp b qp)) [
        | inl empty ↦ absurd (ground arith)
        | inr (part, found) ↦
            let (xs, was) = answered qp found in
            let (qp', g, now, same, one) =
              pop_resp-responses b part xs qp was (omega (arith, Owes-length v))
                (omega (arith, Owes-length v)) in
            let (is, w) = Owes-pop qp qp' t part xs addr was now same one v in
            let (qps', f, ws) =
              collect_from-Lockstep (some addr) addr rest qps ts h vs (ground arith) in
            (qp' ∷ qps', rw (found, g, is, f, last_op_self addr qps) refl, (w, ws))
      ]

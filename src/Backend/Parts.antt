-- ===== src/Backend/Parts.antt =====
-- What each worker owes of the operations that the load balancer has taken, as it hands parts out and
-- collects answers: server/backend/load_balancer.cpp beside the workers of server/backend/worker.cpp.
use mathlib.Core.List.{map-append, append_cancel_left}
use clean_slate_inc.Prelude.{
  All, All-of_map, ◌/◌, ◌≢◌, ℕ, zero, suc, ◌+◌, ◌<◌, ◌≤◌, ◌≡◌, refl, sym, ap, ◌∙◌, Option, some,
  inl, inr, true, List, [], ◌∷◌, ◌++◌, map, arith, length, length-append, append_assoc,
  Option-cases, AllFrom, add32, get_elem?,
}
use clean_slate_inc.Op.{Op}
use clean_slate_inc.LoadBalancer.{SubOp, sub_op_at, post_from, all_answered, collect_from}
use clean_slate_inc.LoadBalancer.Split.{sub_ops}
use clean_slate_inc.LoadBalancer.Lockstep.{length-map, answered}
use clean_slate_inc.QueuePair.{Spsc, QueuePair, queue_size, push_req, front_resp, pop_resp}
use clean_slate_inc.QueuePair.Steps.{requests, responses, push_req-Pushed, pop_resp-responses}
use clean_slate_inc.QueuePair.History.{Reach-Inv, nothing_lost_or_reordered, request, collect}
use clean_slate_inc.Worker.Defs.{Worker}
use clean_slate_inc.Worker.Stream.{Slotless, lasts, InStream}
use clean_slate_inc.Worker.Stream.Run.{moved, front_req-push, front_req-pop_resp}
use clean_slate_inc.Backend.{qps_of, put_qps, offset_at, part_for}

offset_at-next :
    (addr : ℕ) (op : Op) (n i : ℕ)
    → offset_at addr op n (i + 1)
      ≡ add32 (offset_at addr op n i) (sub_op_at addr op n i (offset_at addr op n i)).size
unfolding offset_at
offset_at-next addr op n i = let next : i + 1 ≡ suc i = omega arith in ap (offset_at addr op n) next

-- The parts of an operation are those that `try_post_op` cuts it into.
sub_ops-part_for :
    (f : ℕ × Op) (n i j k : ℕ)
    → j < k
    → get_elem? (sub_ops f.0 f.1 n i (offset_at f.0 f.1 n i) k) j ≡ some (part_for n (i + j) f)
unfolding sub_ops part_for
sub_ops-part_for f n i j zero h = absurd (omega arith)
sub_ops-part_for f n i zero (suc k) h =
    ap (λ p. some (sub_op_at f.0 f.1 n p (offset_at f.0 f.1 n p))) (omega arith)
sub_ops-part_for f n i (suc j) (suc k) h =
    ap (λ o. get_elem? (sub_ops f.0 f.1 n (i + 1) o k) j) (sym (offset_at-next f.0 f.1 n i))
    ∙ sub_ops-part_for f n (i + 1) j k (omega arith)
    ∙ ap (λ p. some (sub_op_at f.0 f.1 n p (offset_at f.0 f.1 n p))) (omega arith)

pub part_for-sub_ops :
    (f : ℕ × Op) (n i : ℕ) → i < n → get_elem? (sub_ops f.0 f.1 n 0 0 n) i ≡ some (part_for n i f)
unfolding offset_at
part_for-sub_ops f n i h =
    sub_ops-part_for f n 0 i n h ∙ ap (λ j. some (part_for n j f)) (omega arith)

-- The operation has at least one slot of the aggregator for each worker.
abbrev pub HasSlots : ℕ → ℕ × Op → Type 0
HasSlots nworker f = f.1.group.agg_len / nworker ≢ 0

module _ {L F : Type 0} (q : Spsc SubOp) (group nworker : ℕ) where
  -- Worker `i` owes its part of each operation in flight: the parts handed over to it are those that it
  -- has answered for good and these, in order.
  pub record OwesParts (flight : List (ℕ × Op)) (i : ℕ) (w : Worker q.Queue L F) : Type 0 where
    pub n : ℕ
    pub made : List SubOp
    pub got : List SubOp
    pub stream : InStream q group n w made got
    pub owed : got ++ map (part_for nworker i) flight ≡ made

  -- A worker that owes a part without slots owes it of an operation with fewer slots than workers.
  pub Slotless-flight :
      {flight : List (ℕ × Op)} {i : ℕ} {w : Worker q.Queue L F}
      → (v : OwesParts flight i w) → Slotless v.made v.got
      → ¬ All (HasSlots nworker) flight
  unfolding part_for sub_op_at
  Slotless-flight {flight} {i} v slotless slots =
      slotless (map (part_for nworker i) flight) v.owed
        (All-of_map (part_for nworker i) (λ (s : SubOp). s.agg_len ≢ 0) flight slots)

  pub owed_parts :
      (flight : List (ℕ × Op)) (i : ℕ) (w : Worker q.Queue L F)
      → (v : OwesParts flight i w)
      → responses q w.qp ++ (lasts w.window.state w.window.to_ack v.n ++ requests q w.qp)
        ≡ map (part_for nworker i) flight
  owed_parts flight i w v =
      append_cancel_left v.got _ _ ((nothing_lost_or_reordered q v.stream.queues).0 ∙ sym v.owed)

  owed_count :
      (flight : List (ℕ × Op)) (i : ℕ) (w : Worker q.Queue L F)
      → OwesParts flight i w
      → w.qp.num_in_queue ≡ length flight
  owed_count flight i w v =
      let flying = lasts w.window.state w.window.to_ack v.n in
      omega (
        arith,
        (Reach-Inv q v.stream.queues).count,
        ap length (owed_parts flight i w v),
        length-map (part_for nworker i) flight,
        length-append (responses q w.qp) (flying ++ requests q w.qp),
        length-append flying (requests q w.qp),
      )

  -- The part of one more operation is handed over to worker `i`.
  post-OwesParts :
      (flight : List (ℕ × Op)) (f : ℕ × Op) (i : ℕ) (w : Worker q.Queue L F)
      → length flight < queue_size
      → OwesParts flight i w
      → (qp : QueuePair q.Queue) × (push_req q (part_for nworker i f) w.qp ≡ some (true, qp))
        × OwesParts (flight ++ f ∷ []) i (record w { qp = qp })
  post-OwesParts flight f i w room v =
      let part = part_for nworker i f in
      let count = owed_count flight i w v in
      let (qp, e, _) =
        push_req-Pushed q part w.qp (omega (arith, count))
          (omega (arith, count, (Reach-Inv q v.stream.queues).count)) in
      (
        qp,
        e,
        record {
          n = v.n;
          made = v.made ++ part ∷ [];
          got = v.got;
          stream =
              moved q group qp v.stream (request part v.stream.queues e)
                (λ x front. front_req-push q part x v.stream.queues e front);
          owed =
              ap (λ l. v.got ++ l) (map-append (part_for nworker i) flight (f ∷ []))
              ∙ sym (append_assoc v.got (map (part_for nworker i) flight) (part ∷ []))
              ∙ ap (λ l. l ++ part ∷ []) v.owed;
        },
      )

  pub post_from-OwesParts :
      (flight : List (ℕ × Op)) (f : ℕ × Op) (i : ℕ) (ws : List (Worker q.Queue L F))
      → length flight < queue_size
      → AllFrom (OwesParts flight) i ws
      → (qps : List (QueuePair q.Queue)) × (post_from q f.0 f.1 nworker i
            (offset_at f.0 f.1 nworker i)
            (qps_of ws)
          ≡ some qps)
        × AllFrom (OwesParts (flight ++ f ∷ [])) i (put_qps ws qps)
  unfolding post_from part_for
  post_from-OwesParts flight f i [] room h = ([], refl, tt)
  post_from-OwesParts flight f i (w ∷ ws) room (v, h) =
      let (qp, e, v') = post-OwesParts flight f i w room v in
      let (qps, es, h') = post_from-OwesParts flight f (i + 1) ws room h in
      (qp ∷ qps, rw (e, ← offset_at-next f.0 f.1 nworker i, es) refl, (v', h'))

  -- The answer that worker `i` has given first is its part of the oldest operation.
  pub collect-OwesParts :
      (f : ℕ × Op) (rest : List (ℕ × Op)) (i : ℕ) (w : Worker q.Queue L F) (s : SubOp)
      → length (f ∷ rest) ≤ queue_size
      → OwesParts (f ∷ rest) i w
      → front_resp q w.qp ≡ some s
      → (s ≡ part_for nworker i f)
        × ((qp : QueuePair q.Queue) × (pop_resp q w.qp ≡ some qp)
            × OwesParts rest i (record w { qp = qp }))
  collect-OwesParts f rest i w s room v found =
      let (xs, was) = answered q w.qp found in
      let count = owed_count (f ∷ rest) i w v in
      let (qp, e, _, _, _) =
        pop_resp-responses q s xs w.qp was (omega (arith, count)) (omega (arith, count)) in
      let flying = lasts w.window.state w.window.to_ack v.n in
      let all : s ∷ (xs ++ (flying ++ requests q w.qp))
          ≡ part_for nworker i f ∷ map (part_for nworker i) rest =
        ap (λ l. l ++ (flying ++ requests q w.qp)) (sym was) ∙ owed_parts (f ∷ rest) i w v in
      let same : s ≡ part_for nworker i f = cc in
      (
        same,
        (
          qp,
          e,
          record {
            n = v.n;
            made = v.made;
            got = v.got ++ s ∷ [];
            stream =
                moved q group qp v.stream (collect s v.stream.queues found e)
                  (λ x front. front_req-pop_resp q w.qp e ∙ front);
            owed =
                append_assoc v.got (s ∷ []) (map (part_for nworker i) rest)
                ∙ ap (λ z. v.got ++ z ∷ map (part_for nworker i) rest) same
                ∙ v.owed;
          },
        ),
      )

  -- The operation that the second loop of `try_complete_op` ends with.
  abbrev pub last_found : Option ℕ → ℕ → List (Worker q.Queue L F) → Option ℕ
  last_found acc addr [] = acc
  last_found acc addr (w ∷ ws) = some addr

  last_found_self :
      (addr : ℕ) (ws : List (Worker q.Queue L F)) → last_found (some addr) addr ws ≡ some addr
  last_found_self addr [] = refl
  last_found_self addr (w ∷ ws) = refl

  pub collect_from-OwesParts :
      (acc : Option ℕ) (f : ℕ × Op) (rest : List (ℕ × Op)) (i : ℕ) (ws : List (Worker q.Queue L F))
      → length (f ∷ rest) ≤ queue_size
      → AllFrom (OwesParts (f ∷ rest)) i ws
      → all_answered q (qps_of ws) ≡ true
      → (qps : List (QueuePair q.Queue)) × (collect_from q acc (qps_of ws)
          ≡ some (last_found acc f.0 ws, qps))
        × AllFrom (OwesParts rest) i (put_qps ws qps)
  unfolding collect_from all_answered part_for sub_op_at
  collect_from-OwesParts acc f rest i [] room h e = ([], refl, tt)
  collect_from-OwesParts acc f rest i (w ∷ ws) room (v, h) e =
      elim (Option-cases (front_resp q w.qp)) [
        | inl empty ↦ absurd (ground arith)
        | inr (s, found) ↦
            let (same, (qp, g, v')) = collect-OwesParts f rest i w s room v found in
            let (qps, es, h') =
              collect_from-OwesParts (some f.0) f rest (i + 1) ws room h (ground arith) in
            let is : s.op ≡ f.0 = ap (λ (z : SubOp). z.op) same in
            (qp ∷ qps, rw (found, g, is, es, last_found_self f.0 ws) refl, (v', h'))
      ]

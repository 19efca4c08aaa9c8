-- ===== src/Daemon/Training.antt =====
-- What the training process does to its queue pair with the daemon, and the invariant of the daemon
-- after it: server/frontend/src/c/daemon.cpp and server/frontend/src/c/frontend.cpp.
use clean_slate_inc.Prelude.{
  ℕ, ◌≡◌, ◌≢◌, sym, ap, length, ◌∙◌, subst, inl, inr, Bool, true, some, List, [], ◌∷◌, ◌++◌, All,
  All-map, All-append_left, All-append_right, All-snoc, All-zip, map-ext, length, arith, ◌==◌,
  if◌then◌else◌, some-inj, append_assoc,
}
use clean_slate_inc.Op.{Op}
use clean_slate_inc.QueuePair.{Spsc, QueuePair, push_req, front_resp, pop_resp}
use clean_slate_inc.QueuePair.Steps.{requests, responses, front_resp-responses, pop_resp-responses}
use clean_slate_inc.QueuePair.History.{
  Reach, request, collect, head?-some, push_req_total, Reach-Inv,
}
use clean_slate_inc.Frontend.{OpWithFut}
use clean_slate_inc.Daemon.{Daemon}
use clean_slate_inc.Daemon.Sound.{slot_of, Sound}
use clean_slate_inc.Daemon.Run.{with_op}

module _ (q : Spsc ℕ) where
  if_same : (s : ℕ) (op op' : Op) → (if s == s then op else op') ≡ op
  if_same s op op' = ground arith

  pub if_other : (s t : ℕ) (op op' : Op) → s ≢ t → (if s == t then op else op') ≡ op'
  if_other s t op op' ne = ground arith

  -- The operations that are out stay where and what they are.
  pub with_op-other :
      (a slot : ℕ) (x : OpWithFut) (op : Op) (d : Daemon q.Queue) (b : ℕ)
      → (b ≢ a) × (slot_of q d b ≢ slot)
      → let d' = with_op q a slot x op d in
        (slot_of q d' b ≡ slot_of q d b) × (d'.ops (slot_of q d' b) ≡ d.ops (slot_of q d b))
  with_op-other a slot x op d b ne =
      let same : slot_of q (with_op q a slot x op d) b ≡ slot_of q d b = grind arith in
      (
        same,
        ap (λ s. if s == slot then op else d.ops s) same
            ∙ if_other (slot_of q d b) slot op (d.ops (slot_of q d b)) ne.1,
      )

  -- The new operation is found.
  pub with_op-new :
      (a slot : ℕ) (x : OpWithFut) (op : Op) (d : Daemon q.Queue)
      → x.op ≡ slot
      → let d' = with_op q a slot x op d in d'.ops (slot_of q d' a) ≡ op
  with_op-new a slot x op d here =
      let is : slot_of q (with_op q a slot x op d) a ≡ slot = grind (arith, here) in
      ap (λ s. if s == slot then op else d.ops s) is ∙ if_same slot op (d.ops slot)

  -- A request that is accepted joins the requests.
  accepted :
      {qp qp' : QueuePair q.Queue} {made taken got : List ℕ} (a : ℕ)
      → Reach q qp made taken got
      → push_req q a qp ≡ some (true, qp')
      → (requests q qp' ≡ requests q qp ++ a ∷ []) × (responses q qp' ≡ responses q qp)
  accepted {qp} {qp'} a r e = elim (push_req_total q a r) [
    | inl (_, (x, pushed, (r0, r1, _))) ↦
        let is : x ≡ qp' = ap (λ (z : Bool × QueuePair q.Queue). z.1) (some-inj (sym pushed ∙ e)) in
        (ap (requests q) (sym is) ∙ r0, ap (responses q) (sym is) ∙ r1)
    | inr (_, full) ↦ absurd (ground (arith, full, e))
  ]

  pub posts-Sound :
      {d : Daemon q.Queue} {out inflight : List ℕ} {py : QueuePair q.Queue} (a slot : ℕ)
      (x : OpWithFut) (op : Op)
      → Sound q d out inflight
      → x.op ≡ slot
      → op.op_with_fut ≡ a
      → All (λ b. (b ≢ a) × (slot_of q d b ≢ slot)) out
      → push_req q a d.py_qp ≡ some (true, py)
      → Sound q (record (with_op q a slot x op d) { py_qp = py }) (out ++ a ∷ []) inflight
  posts-Sound {d} {out} {inflight} {py} a slot x op v here there others e =
      let (r0, r1) = accepted a v.python e in
      let d' : Daemon q.Queue = record (with_op q a slot x op d) { py_qp = py } in
      let unused : All (λ b. (b ≢ a) × (slot_of q d b ≢ slot)) v.taken =
        All-append_left _ v.taken (requests q d.py_qp) (
          All-append_right _ (responses q d.py_qp) (v.taken ++ requests q d.py_qp)
            (subst (All (λ b. (b ≢ a) × (slot_of q d b ≢ slot))) (sym v.outstanding) others)) in
      record {
        made = v.made ++ a ∷ [];
        taken = v.taken;
        got = v.got;
        posted = v.posted;
        back = v.back;
        python = request a v.python e;
        backend = v.backend;
        same =
            map-ext (slot_of q d') (slot_of q d) v.taken
              (All-map v.taken (λ b ne. (with_op-other a slot x op d b ne).0) unused)
            ∙ v.same;
        outstanding =
            rw (r0, r1)
              (sym (
                  ap (λ l. responses q d.py_qp ++ l)
                    (append_assoc v.taken (requests q d.py_qp) (a ∷ [])))
                ∙ sym (append_assoc (responses q d.py_qp) (v.taken ++ requests q d.py_qp) (a ∷ []))
                ∙ ap (λ l. l ++ a ∷ []) v.outstanding);
        links =
            All-snoc _ out a
              (All-zip out
                (λ b ne h. ap (λ (o : Op). o.op_with_fut) (with_op-other a slot x op d b ne).1 ∙ h)
                others v.links)
              (ap (λ (o : Op). o.op_with_fut) (with_op-new a slot x op d here) ∙ there);
      }

  pub collects-Sound :
      {d : Daemon q.Queue} {out inflight : List ℕ} {py : QueuePair q.Queue} (a : ℕ)
      → Sound q d (a ∷ out) inflight
      → front_resp q d.py_qp ≡ some a
      → pop_resp q d.py_qp ≡ some py
      → Sound q (record d { py_qp = py }) out inflight
  collects-Sound {d} {out} {inflight} {py} a v front e =
      let (xs, h) =
        head?-some a (responses q d.py_qp) (sym (front_resp-responses q d.py_qp) ∙ front) in
      let inv = Reach-Inv q v.python in
      let (py', popped, p0, p1, _) =
        pop_resp-responses q a xs d.py_qp h (omega (arith, inv.count, ap length h)) inv.bound in
      let is : py' ≡ py = some-inj (sym popped ∙ e) in
      let s0 : responses q py ≡ xs = ap (responses q) (sym is) ∙ p0 in
      let s1 : requests q py ≡ requests q d.py_qp = ap (requests q) (sym is) ∙ p1 in
      let all : a ∷ (xs ++ (v.taken ++ requests q d.py_qp)) ≡ a ∷ out =
        ap (λ l. l ++ (v.taken ++ requests q d.py_qp)) (sym h) ∙ v.outstanding in
      record {
        made = v.made;
        taken = v.taken;
        got = v.got ++ a ∷ [];
        posted = v.posted;
        back = v.back;
        python = collect a v.python front e;
        backend = v.backend;
        same = v.same;
        outstanding = rw (s0, s1) (cc all);
        links = v.links.1;
      }

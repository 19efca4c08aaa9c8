-- ===== src/Daemon/Hand.antt =====
-- `hand_over` and `hand_back`, the ends of `try_post_op` and `try_complete_op`, keep what the daemon keeps:
-- server/frontend/src/c/daemon.cpp.
use mathlib.Core.List.{map-append}
use clean_slate_inc.Prelude.{
  ℕ, ◌<◌, ◌≡◌, refl, sym, ap, ◌∙◌, subst, true, some, List, [], ◌∷◌, ◌++◌, map, All,
  All-append_left, All-append_right, All-of_map, length, append_assoc, arith, if◌then◌else◌,
}
use clean_slate_inc.QueuePair.{Spsc, queue_size, front_req, front_resp}
use clean_slate_inc.QueuePair.Steps.{
  requests, responses, front_req-requests, front_resp-responses, push_req-Pushed, pop_req-requests,
  push_resp-responses, pop_resp-responses,
}
use clean_slate_inc.QueuePair.History.{Reach, Reach-Inv, head?-some}
use clean_slate_inc.Daemon.{Daemon, hand_over, hand_back}
use clean_slate_inc.Daemon.Sound.{Linked, slot_of, Same, Sound, backend_count}

module _ (q : Spsc ℕ) where
  -- `hand_over` takes the oldest request and hands its element to the backend.
  pub hand_over-Sound :
      (a : ℕ) (d : Daemon q.Queue) {out inflight : List ℕ}
      → Sound q d out inflight
      → front_req q d.py_qp ≡ some a
      → (d' : Daemon q.Queue) × (hand_over q a d ≡ some (true, d'))
        × Sound q d' out inflight
        × (requests q d.py_qp ≡ a ∷ requests q d'.py_qp)
        × (responses q d'.py_qp ≡ responses q d.py_qp)
        × (requests q d'.shm_qp ≡ requests q d.shm_qp ++ slot_of q d a ∷ [])
        × (responses q d'.shm_qp ≡ responses q d.shm_qp)
        × Same q d d'
  unfolding hand_over
  hand_over-Sound a d {out} {inflight} v front =
      let (xs, h) =
        head?-some a (requests q d.py_qp) (sym (front_req-requests q d.py_qp) ∙ front) in
      let (py, popped, p0, p1, _) = pop_req-requests q a xs d.py_qp h in
      let inv = Reach-Inv q v.python in
      let count = backend_count q v in
      let room : d.shm_qp.num_in_queue < queue_size =
        omega (arith, count, inv.count, inv.bound, ap length h) in
      let (shm, pushed, (s0, s1, _)) =
        push_req-Pushed q (slot_of q d a) d.shm_qp room
          (omega (arith, room, (Reach-Inv q v.backend).count)) in
      (
        record d { py_qp = py; shm_qp = shm },
        rw (hand_over, popped, pushed) refl,
        record {
          made = v.made;
          taken = v.taken ++ a ∷ [];
          got = v.got;
          posted = v.posted ++ slot_of q d a ∷ [];
          back = v.back;
          python = Reach.take a v.python front popped;
          backend = Reach.request (slot_of q d a) v.backend pushed;
          same =
              map-append (slot_of q d) v.taken (a ∷ [])
              ∙ ap (λ l. l ++ slot_of q d a ∷ []) v.same
              ∙ rw (s0, s1) (simp append_assoc);
          outstanding =
              rw (p0, p1)
                (ap (λ l. responses q d.py_qp ++ l)
                    (append_assoc v.taken (a ∷ []) xs ∙ ap (λ l. v.taken ++ l) (sym h))
                  ∙ v.outstanding);
          links = v.links;
        },
        h ∙ ap (λ l. a ∷ l) (sym p0),
        p1,
        s0,
        s1,
        (refl, λ b. refl),
      )

  -- The oldest answer of the backend is to the oldest operation that the daemon has taken.
  oldest_taken :
      (slot : ℕ) (d : Daemon q.Queue) {out inflight : List ℕ}
      → (v : Sound q d out inflight) → front_resp q d.shm_qp ≡ some slot
      → (a : ℕ) × (rest : List ℕ) × (v.taken ≡ a ∷ rest)
        × (slot_of q d a ≡ slot)
        × ((d.ops slot).op_with_fut ≡ a)
  oldest_taken slot d {out} {inflight} v front =
      let (xs, h) =
        head?-some slot (responses q d.shm_qp) (sym (front_resp-responses q d.shm_qp) ∙ front) in
      let rest = inflight ++ requests q d.shm_qp in
      first v.taken (v.same ∙ ap (λ l. l ++ rest) h) (
        All-append_right _ (responses q d.py_qp) (v.taken ++ requests q d.py_qp)
          (subst (All (Linked d)) (sym v.outstanding) v.links))
    where
      first :
          {rest : List ℕ} (taken : List ℕ)
          → map (slot_of q d) taken ≡ slot ∷ rest
          → All (Linked d) (taken ++ requests q d.py_qp)
          → (a : ℕ) × (ts : List ℕ) × (taken ≡ a ∷ ts)
            × (slot_of q d a ≡ slot)
            × ((d.ops slot).op_with_fut ≡ a)
      first [] e links = absurd (ground arith)
      first (a ∷ ts) e links =
          let is : slot_of q d a ≡ slot = cc in
          (a, ts, refl, is, ap (λ s. (d.ops s).op_with_fut) (sym is) ∙ links.0)

  -- `hand_back` collects the backend's oldest answer and answers the operation that it belongs to.
  pub hand_back-Sound :
      (slot : ℕ) (d : Daemon q.Queue) {out inflight : List ℕ}
      → Sound q d out inflight
      → front_resp q d.shm_qp ≡ some slot
      → let a = (d.ops slot).op_with_fut in
        (d' : Daemon q.Queue) × (hand_back q a d ≡ some (true, d'))
        × Sound q d' out inflight
        × (slot_of q d a ≡ slot)
        × (responses q d.shm_qp ≡ slot ∷ responses q d'.shm_qp)
        × (requests q d'.shm_qp ≡ requests q d.shm_qp)
        × (responses q d'.py_qp ≡ responses q d.py_qp ++ a ∷ [])
        × (requests q d'.py_qp ≡ requests q d.py_qp)
        × Same q d d'
  unfolding hand_back
  hand_back-Sound slot d {out} {inflight} v front =
      let a = (d.ops slot).op_with_fut in
      let (b, ts, was, is, back) = oldest_taken slot d v front in
      let mine : v.taken ≡ a ∷ ts = was ∙ ap (λ x. x ∷ ts) (sym back) in
      let (xs, h) =
        head?-some slot (responses q d.shm_qp) (sym (front_resp-responses q d.shm_qp) ∙ front) in
      let count = backend_count q v in
      let inv = Reach-Inv q v.python in
      let python : Reach q d.py_qp v.made (a ∷ ts) v.got =
        subst (λ l. Reach q d.py_qp v.made l v.got) mine v.python in
      let (shm, popped, s0, s1, _) =
        pop_resp-responses q slot xs d.shm_qp h (omega (arith, count, ap length mine))
          (Reach-Inv q v.backend).bound in
      let (py, pushed, p0, p1, _) =
        push_resp-responses q a d.py_qp (omega (arith, inv.count, inv.bound, ap length mine)) in
      let all : slot_of q d a ∷ map (slot_of q d) ts
          ≡ slot ∷ (xs ++ (inflight ++ requests q d.shm_qp)) =
        ap (map (slot_of q d)) (sym mine)
        ∙ v.same
        ∙ ap (λ l. l ++ (inflight ++ requests q d.shm_qp)) h in
      (
        record d {
          py_qp = py;
          shm_qp = shm;
          completed = if (d.heap a).has_future then d.completed ++ a ∷ [] else d.completed;
        },
        rw (hand_back, popped, pushed) refl,
        record {
          made = v.made;
          taken = ts;
          got = v.got;
          posted = v.posted;
          back = v.back ++ slot ∷ [];
          python = Reach.answer a python pushed;
          backend = Reach.collect slot v.backend front popped;
          same = rw (s0, s1) (cc all);
          outstanding =
              rw (p0, p1)
                (append_assoc (responses q d.py_qp) (a ∷ []) (ts ++ requests q d.py_qp)
                  ∙ ap (λ l. responses q d.py_qp ++ (l ++ requests q d.py_qp)) (sym mine)
                  ∙ v.outstanding);
          links = v.links;
        },
        ap (slot_of q d) back ∙ is,
        h ∙ ap (λ l. slot ∷ l) (sym s0),
        s1,
        p0,
        p1,
        (refl, λ b. refl),
      )

  -- What holds of the elements of all that is out holds of those that the backend has.
  pub backend_elements :
      {d : Daemon q.Queue} {out inflight : List ℕ} (P : ℕ → Type 0)
      → Sound q d out inflight
      → All (λ a. P (slot_of q d a)) out
      → All P (responses q d.shm_qp ++ (inflight ++ requests q d.shm_qp))
  backend_elements {d} P v h = subst (All P) v.same (
      All-of_map (slot_of q d) P v.taken (
        All-append_left _ v.taken (requests q d.py_qp) (
          All-append_right _ (responses q d.py_qp) (v.taken ++ requests q d.py_qp)
            (subst (All (λ a. P (slot_of q d a))) (sym v.outstanding) h))))

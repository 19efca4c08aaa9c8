-- ===== src/Daemon/System.antt =====
-- The daemon between the training process and the backend, however they interleave: it answers the
-- operations of the one in the order in which it took them, by the answers of the other:
-- server/frontend/src/c/daemon.cpp.
use clean_slate_inc.Prelude.{
  ℕ, ◌≡◌, refl, sym, ap, ap₂, ◌∙◌, subst, ◌⊎◌, Bool, true, some, List, [], ◌∷◌, ◌++◌, some-inj,
  append_assoc,
}
use clean_slate_inc.QueuePair.{Spsc, QueuePair, fresh, front_req, pop_req, push_resp}
use clean_slate_inc.QueuePair.Steps.{requests, responses, front_req-requests, pop_req-requests}
use clean_slate_inc.QueuePair.History.{Reach, init, take, answer, head?-some, push_resp_total}
use clean_slate_inc.Daemon.{Daemon, try_post_op, try_complete_op}
use clean_slate_inc.Daemon.Sound.{Sound}
use clean_slate_inc.Daemon.Run.{Run, start, posts, collects, takes, answers, posting, completing}
use clean_slate_inc.Daemon.Training.{posts-Sound, collects-Sound}
use clean_slate_inc.Daemon.Moves.{
  Still, Forwarded, Returned, Steps-kept, try_post_op-Steps, try_complete_op-Steps,
}

module _ (q : Spsc ℕ) where
  pub fresh-Sound : {d : Daemon q.Queue} → d.py_qp ≡ fresh q → d.shm_qp ≡ fresh q → Sound q d [] []
  unfolding fresh
  fresh-Sound {d} py shm = record {
    made = [];
    taken = [];
    got = [];
    posted = [];
    back = [];
    python = subst (λ z. Reach q z [] [] []) (sym py) init;
    backend = subst (λ z. Reach q z [] [] []) (sym shm) init;
    same = sym (ap (λ z. responses q z ++ requests q z) shm ∙ rw q.items-empty refl);
    outstanding = ap (λ z. responses q z ++ requests q z) py ∙ rw q.items-empty refl;
    links = tt;
  }

  takes-Sound :
      {d : Daemon q.Queue} {out inflight : List ℕ} {shm : QueuePair q.Queue} (slot : ℕ)
      → Sound q d out inflight
      → front_req q d.shm_qp ≡ some slot
      → pop_req q d.shm_qp ≡ some shm
      → Sound q (record d { shm_qp = shm }) out (inflight ++ slot ∷ [])
  takes-Sound {d} {out} {inflight} {shm} slot v front e =
      let (xs, h) =
        head?-some slot (requests q d.shm_qp) (sym (front_req-requests q d.shm_qp) ∙ front) in
      let (shm', popped, p0, p1, _) = pop_req-requests q slot xs d.shm_qp h in
      let is : shm' ≡ shm = some-inj (sym popped ∙ e) in
      record {
        made = v.made;
        taken = v.taken;
        got = v.got;
        posted = v.posted;
        back = v.back;
        python = v.python;
        backend = take slot v.backend front e;
        same =
            v.same
            ∙ ap (λ l. responses q d.shm_qp ++ (inflight ++ l)) h
            ∙ ap (λ l. responses q d.shm_qp ++ l) (sym (append_assoc inflight (slot ∷ []) xs))
            ∙ ap₂ (λ l m. l ++ ((inflight ++ slot ∷ []) ++ m)) (sym p1) (sym p0)
            ∙ ap (λ z. responses q z ++ ((inflight ++ slot ∷ []) ++ requests q z)) is;
        outstanding = v.outstanding;
        links = v.links;
      }

  answers-Sound :
      {d : Daemon q.Queue} {out inflight : List ℕ} {shm : QueuePair q.Queue} (slot : ℕ)
      → Sound q d out (slot ∷ inflight)
      → push_resp q slot d.shm_qp ≡ some (true, shm)
      → Sound q (record d { shm_qp = shm }) out inflight
  answers-Sound {d} {out} {inflight} {shm} slot v e =
      let (shm', pushed, p0, p1) = push_resp_total q v.backend in
      let is : shm' ≡ shm =
        ap (λ (z : Bool × QueuePair q.Queue). z.1) (some-inj (sym pushed ∙ e)) in
      record {
        made = v.made;
        taken = v.taken;
        got = v.got;
        posted = v.posted;
        back = v.back;
        python = v.python;
        backend = answer slot v.backend e;
        same =
            v.same
            ∙ sym
                (append_assoc (responses q d.shm_qp) (slot ∷ []) (inflight ++ requests q d.shm_qp))
            ∙ ap₂ (λ l m. l ++ (inflight ++ m)) (sym p0) (sym p1)
            ∙ ap (λ z. responses q z ++ (inflight ++ requests q z)) is;
        outstanding = v.outstanding;
        links = v.links;
      }

  pub Run-Sound :
      {d : Daemon q.Queue} {out inflight : List ℕ} → Run q d out inflight → Sound q d out inflight
  Run-Sound (start py shm) = fresh-Sound py shm
  Run-Sound (posts a slot x op r here there others e) =
      posts-Sound q a slot x op (Run-Sound r) here there others e
  Run-Sound (collects a r front e) = collects-Sound q a (Run-Sound r) front e
  Run-Sound (takes slot r front e) = takes-Sound slot (Run-Sound r) front e
  Run-Sound (answers slot r e) = answers-Sound slot (Run-Sound r) e
  Run-Sound (posting {d} done r e) =
      (Steps-kept q (Forwarded q) d (try_post_op-Steps q done d (Run-Sound r)) e).0
  Run-Sound (completing {d} done r e) =
      (Steps-kept q (Returned q) d (try_complete_op-Steps q done d (Run-Sound r)) e).0

  -- However the training process, the daemon and the backend interleave, and whatever `cudaEventQuery`
  -- says, neither `try_post_op` nor `try_complete_op` aborts: the one leaves the two queue pairs as they
  -- are or moves the oldest request of the training process to the end of the backend's requests, and the
  -- other leaves them as they are or takes the oldest answer of the backend and answers with it the
  -- operation that the answered element belongs to; and the state after is again one of such a run. It is
  -- assumed that the training process posts no operation whose address or element is in use, and that
  -- the backend answers the elements in the order in which it took them.
  pub daemon_never_aborts :
      {d : Daemon q.Queue} {out inflight : List ℕ} (done : Bool)
      → Run q d out inflight
      → ((b : Bool) × (d' : Daemon q.Queue) × (try_post_op q done d ≡ some (b, d'))
          × Run q d' out inflight
          × (Still q d d' ⊎ Forwarded q d d'))
        × ((b : Bool) × (d' : Daemon q.Queue) × (try_complete_op q done d ≡ some (b, d'))
            × Run q d' out inflight
            × (Still q d d' ⊎ Returned q d d'))
  daemon_never_aborts {d} done r =
      let (b, d', e, _, _, moves) = try_post_op-Steps q done d (Run-Sound r) in
      let (c, x, back, _, _, returns) = try_complete_op-Steps q done d (Run-Sound r) in
      ((b, d', e, posting done r e, moves), (c, x, back, completing done r back, returns))

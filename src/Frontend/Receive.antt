-- ===== src/Frontend/Receive.antt =====
-- `recv_all_resp` collects all responses: server/frontend/src/c/api.cpp.
use clean_slate_inc.Prelude.{
  ℕ, zero, suc, ◌≡◌, ◌<◌, refl, true, false, none, some, List, [], ◌∷◌, ◌++◌, length, head?, tail,
  length-append, arith, ◌∙◌, ap, sym,
}
use clean_slate_inc.QueuePair.{queue_size, Spsc, front_resp}
use clean_slate_inc.QueuePair.Steps.{requests, responses, front_resp-responses}
use clean_slate_inc.Frontend.{OpWithFut, Frontend, recv_resp, recv_all_resp}
use clean_slate_inc.Frontend.Live.{out, Reach}
use clean_slate_inc.Frontend.Safety.{out_count}
use clean_slate_inc.Frontend.System.{Reach-Good, receive_never_aborts}

head?-none {ℓ} : {A : Type ℓ} (xs : List A) → head? xs ≡ none → xs ≡ []
head?-none [] e = refl
head?-none (x ∷ xs) e = absurd (ground arith)

module _ (q : Spsc OpWithFut) where
  -- What the loop does.
  abbrev Collected : ℕ → Frontend q.Queue → List OpWithFut → List OpWithFut → Type 0
  Collected fuel f taken answers =
      (f' : Frontend q.Queue) × (recv_all_resp q fuel f ≡ some f')
      × Reach q f' taken
      × (responses q f'.py_qp ≡ [])
      × (out q f taken ≡ answers ++ out q f' taken)

  recv_resp-none :
      (f : Frontend q.Queue) → front_resp q f.py_qp ≡ none → recv_resp q f ≡ some (false, f)
  unfolding recv_resp
  recv_resp-none f e = rw (recv_resp, e) refl

  Collected-none :
      (fuel : ℕ) {f : Frontend q.Queue} {taken : List OpWithFut}
      → Reach q f taken
      → responses q f.py_qp ≡ []
      → Collected (suc fuel) f taken []
  unfolding recv_all_resp
  Collected-none fuel {f} r e = (
    f,
    rw (recv_all_resp, recv_resp-none f (front_resp-responses q f.py_qp ∙ ap head? e)) refl,
    r,
    e,
    refl,
  )

  recv_all_resp-more :
      (fuel : ℕ) (f : Frontend q.Queue) {f' g : Frontend q.Queue}
      → recv_resp q f ≡ some (true, f')
      → recv_all_resp q fuel f' ≡ some g
      → recv_all_resp q (suc fuel) f ≡ some g
  unfolding recv_all_resp
  recv_all_resp-more fuel f a b = rw (recv_all_resp, a, b) refl

  collect_all :
      (fuel : ℕ) (answers : List OpWithFut) {f : Frontend q.Queue} {taken : List OpWithFut}
      → Reach q f taken
      → responses q f.py_qp ≡ answers
      → length answers < fuel
      → Collected fuel f taken answers
  collect_all zero answers r e lt = absurd (omega arith)
  collect_all (suc fuel) [] r e lt = Collected-none fuel r e
  collect_all (suc fuel) (x ∷ answers) r e lt =
      let (f', made, r', oldest, left) =
        receive_never_aborts q x r (front_resp-responses q _ ∙ ap head? e) in
      let (g, all, rg, empty, rest) =
        collect_all fuel answers r' (ap tail (sym left ∙ e)) (omega arith) in
      (g, recv_all_resp-more fuel _ made all, rg, empty, oldest ∙ ap (λ l. x ∷ l) rest)

  -- While no chunk has ended exactly on the last byte of the copy buffer: in every reachable state
  -- `recv_all_resp` ends within QUEUE_SIZE + 1 rounds without failing an assertion, destroys the
  -- answered operations, the oldest first, and no other, and leaves no response.
  pub recv_all_resp_lem :
      {f : Frontend q.Queue} {taken : List OpWithFut}
      → Reach q f taken
      → (f' : Frontend q.Queue) × (recv_all_resp q (suc queue_size) f ≡ some f')
        × Reach q f' taken
        × (responses q f'.py_qp ≡ [])
        × (out q f taken ≡ responses q f.py_qp ++ out q f' taken)
  recv_all_resp_lem {f} {taken} r =
      let (count, bound) = out_count q (Reach-Good q r) in
      collect_all (suc queue_size) (responses q f.py_qp) r refl (
        omega
          (arith, count, bound, length-append (responses q f.py_qp) (taken ++ requests q f.py_qp)))

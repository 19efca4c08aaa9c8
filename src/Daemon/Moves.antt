-- ===== src/Daemon/Moves.antt =====
-- What a call of the daemon's functions does to the two queue pairs: nothing, or one operation moves on:
-- `try_post_op` and `try_complete_op` of server/frontend/src/c/daemon.cpp.
use clean_slate_inc.Prelude.{
  ℕ, ◌≡◌, refl, sym, ap, ◌∙◌, subst, ◌⊎◌, inl, inr, Bool, true, false, Option, some, List, [], ◌∷◌,
  ◌++◌, Option-cases, Bool-cases, some-inj,
}
use clean_slate_inc.Op.{Op, need_tx, need_rx}
use clean_slate_inc.QueuePair.{Spsc, front_req, front_resp}
use clean_slate_inc.QueuePair.Steps.{requests, responses}
use clean_slate_inc.Daemon.{
  Daemon, set_copying, start_post, start_complete, hand_over, hand_back, try_post_op,
  try_complete_op,
}
use clean_slate_inc.Daemon.Sound.{
  slot_of, Same, Sound, started, set_copying-Sound, set_copying-slot,
}
use clean_slate_inc.Daemon.Hand.{hand_over-Sound, hand_back-Sound}

module _ (q : Spsc ℕ) where
  -- No queue pair has changed.
  abbrev pub Still : Daemon q.Queue → Daemon q.Queue → Type 0
  Still d d' = (d'.py_qp ≡ d.py_qp) × (d'.shm_qp ≡ d.shm_qp)

  -- The oldest request of the training process has gone to the backend.
  abbrev pub Forwarded : Daemon q.Queue → Daemon q.Queue → Type 0
  Forwarded d d' =
      (a : ℕ) × (requests q d.py_qp ≡ a ∷ requests q d'.py_qp)
      × (responses q d'.py_qp ≡ responses q d.py_qp)
      × (requests q d'.shm_qp ≡ requests q d.shm_qp ++ slot_of q d a ∷ [])
      × (responses q d'.shm_qp ≡ responses q d.shm_qp)

  -- The oldest answer of the backend has gone to the training process, as the answer to its own
  -- operation.
  abbrev pub Returned : Daemon q.Queue → Daemon q.Queue → Type 0
  Returned d d' =
      (a : ℕ) × (responses q d.shm_qp ≡ slot_of q d a ∷ responses q d'.shm_qp)
      × (requests q d'.shm_qp ≡ requests q d.shm_qp)
      × (responses q d'.py_qp ≡ responses q d.py_qp ++ a ∷ [])
      × (requests q d'.py_qp ≡ requests q d.py_qp)

  -- A call of the daemon that returns, keeps the state sound and does what `Moves` says.
  abbrev pub Steps :
      (Daemon q.Queue → Daemon q.Queue → Type 0)
      → Daemon q.Queue
      → List ℕ
      → List ℕ
      → Option (Bool × Daemon q.Queue)
      → Type 0
  Steps Moves d out inflight m =
      (b : Bool) × (d' : Daemon q.Queue) × (m ≡ some (b, d'))
      × Sound q d' out inflight
      × Same q d d'
      × (Still d d' ⊎ Moves d d')

  -- So it is with the state that the call returns.
  pub Steps-kept :
      (Moves : Daemon q.Queue → Daemon q.Queue → Type 0) (d : Daemon q.Queue) {d' : Daemon q.Queue}
      {out inflight : List ℕ} {b : Bool} {m : Option (Bool × Daemon q.Queue)}
      → Steps Moves d out inflight m
      → m ≡ some (b, d')
      → Sound q d' out inflight × Same q d d'
  Steps-kept Moves d {d'} {out} {inflight} (c, x, returns, v, same, _) e =
      subst (λ z. Sound q z out inflight × Same q d z)
        (ap (λ (z : Bool × Daemon q.Queue). z.1) (some-inj (sym returns ∙ e))) (v, same)

  forward :
      (a : ℕ) (c : Daemon q.Queue) (d : Daemon q.Queue) {out inflight : List ℕ}
      → Sound q c out inflight
      → c.py_qp ≡ d.py_qp
      → c.shm_qp ≡ d.shm_qp
      → Same q d c
      → front_req q d.py_qp ≡ some a
      → Steps Forwarded d out inflight (hand_over q a c)
  forward a c d v py shm (ops, slots) front =
      let (d', e, v', r0, r1, r2, r3, (ops', slots')) =
        hand_over-Sound q a c v (ap (λ z. front_req q z) py ∙ front) in
      (
        true,
        d',
        e,
        v',
        (ops' ∙ ops, λ b. slots' b ∙ slots b),
        inr (
          a,
          ap (λ z. requests q z) (sym py) ∙ r0,
          r1 ∙ ap (λ z. responses q z) py,
          r2
              ∙ ap (λ z. requests q z ++ slot_of q c a ∷ []) shm
              ∙ ap (λ s. requests q d.shm_qp ++ s ∷ []) (slots a),
          r3 ∙ ap (λ z. responses q z) shm,
        ),
      )

  pub try_post_op-Steps :
      (done : Bool) (d : Daemon q.Queue) {out inflight : List ℕ}
      → Sound q d out inflight
      → Steps Forwarded d out inflight (try_post_op q done d)
  unfolding try_post_op set_copying start_post
  try_post_op-Steps done d {out} {inflight} v = elim (Option-cases (front_req q d.py_qp)) [
    | inl idle ↦ rw (try_post_op, idle) (false, d, refl, v, (refl, λ b. refl), inl (refl, refl))
    | inr (a, front) ↦ elim (Bool-cases (need_tx (d.ops (d.heap a).op))) [
      | inr receives ↦
          rw (try_post_op, front, receives) (forward a d d v refl refl (refl, λ b. refl) front)
      | inl sends ↦ elim (Bool-cases (d.heap a).copying) [
        | inr idle ↦
            rw (try_post_op, front, sends, idle)
              (
                true,
                _,
                refl,
                started q a d (start_post (d.heap a) (d.ops (d.heap a).op)) v,
                (refl, set_copying-slot q a true d),
                inl (refl, refl),
              )
        | inl copying ↦ elim (Bool-cases done) [
          | inr running ↦
              rw (try_post_op, front, sends, copying, running)
                (false, d, refl, v, (refl, λ b. refl), inl (refl, refl))
          | inl ready ↦
              rw (try_post_op, front, sends, copying, ready)
                (forward a (set_copying a false d) d (set_copying-Sound q a false d v) refl refl
                  (refl, set_copying-slot q a false d) front)
        ]
      ]
    ]
  ]

  give_back :
      (slot : ℕ) (c : Daemon q.Queue) (d : Daemon q.Queue) {out inflight : List ℕ}
      → Sound q c out inflight
      → c.py_qp ≡ d.py_qp
      → c.shm_qp ≡ d.shm_qp
      → Same q d c
      → front_resp q d.shm_qp ≡ some slot
      → Steps Returned d out inflight (hand_back q (d.ops slot).op_with_fut c)
  give_back slot c d {out} {inflight} v py shm (ops, slots) front =
      let (d', e, v', is, r0, r1, r2, r3, (ops', slots')) =
        hand_back-Sound q slot c v (ap (λ z. front_resp q z) shm ∙ front) in
      let a : ℕ → ℕ = λ s. (d.ops s).op_with_fut in
      let same : (c.ops slot).op_with_fut ≡ (d.ops slot).op_with_fut =
        ap (λ (o : ℕ → Op). (o slot).op_with_fut) ops in
      (
        true,
        d',
        subst (λ x. hand_back q x c ≡ some (true, d')) same e,
        v',
        (ops' ∙ ops, λ b. slots' b ∙ slots b),
        inr (
          (d.ops slot).op_with_fut,
          ap (λ z. responses q z) (sym shm)
              ∙ r0
              ∙ ap (λ s. s ∷ responses q d'.shm_qp)
                  (sym is ∙ ap (slot_of q c) same ∙ slots (d.ops slot).op_with_fut),
          r1 ∙ ap (λ z. requests q z) shm,
          r2
              ∙ ap (λ z. responses q z ++ (c.ops slot).op_with_fut ∷ []) py
              ∙ ap (λ x. responses q d.py_qp ++ x ∷ []) same,
          r3 ∙ ap (λ z. requests q z) py,
        ),
      )

  pub try_complete_op-Steps :
      (done : Bool) (d : Daemon q.Queue) {out inflight : List ℕ}
      → Sound q d out inflight
      → Steps Returned d out inflight (try_complete_op q done d)
  unfolding try_complete_op set_copying start_complete
  try_complete_op-Steps done d {out} {inflight} v = elim (Option-cases (front_resp q d.shm_qp)) [
    | inl idle ↦ rw (try_complete_op, idle) (false, d, refl, v, (refl, λ b. refl), inl (refl, refl))
    | inr (slot, front) ↦
        let a = (d.ops slot).op_with_fut in
        elim (Bool-cases (need_rx (d.ops slot))) [
          | inr sends ↦
              rw (try_complete_op, front, sends)
                (give_back slot d d v refl refl (refl, λ b. refl) front)
          | inl receives ↦ elim (Bool-cases (d.heap a).copying) [
            | inr idle ↦
                rw (try_complete_op, front, receives, idle)
                  (
                    true,
                    _,
                    refl,
                    started q a d (start_complete (d.heap a) (d.ops slot)) v,
                    (refl, set_copying-slot q a true d),
                    inl (refl, refl),
                  )
            | inl copying ↦ elim (Bool-cases done) [
              | inr running ↦
                  rw (try_complete_op, front, receives, copying, running)
                    (false, d, refl, v, (refl, λ b. refl), inl (refl, refl))
              | inl ready ↦
                  rw (try_complete_op, front, receives, copying, ready)
                    (give_back slot (set_copying a false d) d (set_copying-Sound q a false d v) refl
                      refl (refl, set_copying-slot q a false d) front)
            ]
          ]
        ]
  ]

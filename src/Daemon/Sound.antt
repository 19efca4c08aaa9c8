-- ===== src/Daemon/Sound.antt =====
-- What the daemon keeps between the training process and the backend:
-- server/frontend/src/c/daemon.cpp.
use mathlib.Core.Path.{fun_ext}
use clean_slate_inc.Prelude.{
  ℕ, ◌≡◌, refl, sym, ap, ◌∙◌, subst, Bool, true, List, ◌++◌, map, All, All-map, length,
  length-append, arith,
}
use clean_slate_inc.Op.{Op}
use clean_slate_inc.QueuePair.{Spsc}
use clean_slate_inc.QueuePair.Steps.{requests, responses}
use clean_slate_inc.QueuePair.History.{Reach, Reach-Inv}
use clean_slate_inc.LoadBalancer.Lockstep.{length-map}
use clean_slate_inc.Daemon.{Call, Daemon, set_copying}

-- The operation at `a` and its element of the operation buffer point at each other.
abbrev pub Linked : {Q : Type 0} → Daemon Q → ℕ → Type 0
Linked d a = (d.ops (d.heap a).op).op_with_fut ≡ a

module _ (q : Spsc ℕ) where
  abbrev pub slot_of : Daemon q.Queue → ℕ → ℕ
  slot_of d a = (d.heap a).op

  -- The elements, and the operations' own, are what they were.
  abbrev pub Same : Daemon q.Queue → Daemon q.Queue → Type 0
  Same d d' = (d'.ops ≡ d.ops) × ((b : ℕ) → slot_of d' b ≡ slot_of d b)

  -- The operations `out` have been posted and not collected, and the backend has taken and not answered
  -- the elements `inflight`. Of the former the daemon has taken and not answered `taken`, and these are
  -- what the backend has of it, in order.
  pub record Sound (d : Daemon q.Queue) (out inflight : List ℕ) : Type 0 where
    pub made : List ℕ
    pub taken : List ℕ
    pub got : List ℕ
    pub posted : List ℕ
    pub back : List ℕ
    pub python : Reach q d.py_qp made taken got
    pub backend : Reach q d.shm_qp posted inflight back
    pub same : map (slot_of d) taken ≡ responses q d.shm_qp ++ (inflight ++ requests q d.shm_qp)
    pub outstanding : responses q d.py_qp ++ (taken ++ requests q d.py_qp) ≡ out
    pub links : All (Linked d) out

  -- Only what a copy changes has changed.
  pub Sound-kept :
      {d d' : Daemon q.Queue} {out inflight : List ℕ}
      → ((a : ℕ) → slot_of d' a ≡ slot_of d a)
      → d'.ops ≡ d.ops
      → d'.py_qp ≡ d.py_qp
      → d'.shm_qp ≡ d.shm_qp
      → Sound d out inflight
      → Sound d' out inflight
  Sound-kept {d} {d'} {out} {inflight} slots ops py shm v = record {
    made = v.made;
    taken = v.taken;
    got = v.got;
    posted = v.posted;
    back = v.back;
    python = subst (λ z. Reach q z v.made v.taken v.got) (sym py) v.python;
    backend = subst (λ z. Reach q z v.posted inflight v.back) (sym shm) v.backend;
    same =
        ap (λ f. map f v.taken) (fun_ext slots)
        ∙ v.same
        ∙ ap (λ z. responses q z ++ (inflight ++ requests q z)) (sym shm);
    outstanding = ap (λ z. responses q z ++ (v.taken ++ requests q z)) py ∙ v.outstanding;
    links =
        All-map out
          (λ a h.
            ap (λ (o : ℕ → Op). (o (slot_of d' a)).op_with_fut) ops
            ∙ ap (λ s. (d.ops s).op_with_fut) (slots a)
            ∙ h)
          v.links;
  }

  pub set_copying-slot :
      (a : ℕ) (c : Bool) (d : Daemon q.Queue) (b : ℕ) → slot_of (set_copying a c d) b ≡ slot_of d b
  unfolding set_copying
  set_copying-slot a c d b = ground arith

  pub set_copying-Sound :
      (a : ℕ) (c : Bool) (d : Daemon q.Queue) {out inflight : List ℕ}
      → Sound d out inflight
      → Sound (set_copying a c d) out inflight
  unfolding set_copying
  set_copying-Sound a c d v = Sound-kept (set_copying-slot a c d) refl refl refl v

  -- A copy is started: its calls are logged.
  pub started :
      (a : ℕ) (d : Daemon q.Queue) (calls : List Call) {out inflight : List ℕ}
      → Sound d out inflight
      → Sound (record (set_copying a true d) { calls = d.calls ++ calls }) out inflight
  unfolding set_copying
  started a d calls v = Sound-kept (set_copying-slot a true d) refl refl refl v

  pub backend_count :
      {d : Daemon q.Queue} {out inflight : List ℕ}
      → (v : Sound d out inflight) → d.shm_qp.num_in_queue ≡ length v.taken
  backend_count {d} {out} {inflight} v = omega (
    arith,
    (Reach-Inv q v.backend).count,
    ap length v.same,
    length-map (slot_of d) v.taken,
    length-append (responses q d.shm_qp) (inflight ++ requests q d.shm_qp),
    length-append inflight (requests q d.shm_qp),
  )

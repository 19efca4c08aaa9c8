-- ===== src/NetCcl/Sound.antt =====
-- What every state that NetCCL reaches satisfies: the invariants of the daemon and of the backend, which
-- meet in the queue pair between them, and what the training process put into the elements in use:
-- server/frontend/src/c/daemon.cpp, server/backend/load_balancer.cpp and server/backend/worker.cpp.
use clean_slate_inc.Prelude.{
  ℕ, ◌≡◌, ◌≢◌, refl, sym, ap, ◌∙◌, subst, true, inl, inr, some, List, [], ◌∷◌, ◌++◌, map, length,
  All, All-map, All-append_left, All-append_right, All-snoc, All-zip, All-from_map, ◌==◌,
  Bool-cases,
}
use mathlib.Core.List.{append_cancel_left}
use clean_slate_inc.Backend.{Backend}
use clean_slate_inc.Backend.Run.{fresh-OwesParts}
use clean_slate_inc.Backend.Run as Backend
use clean_slate_inc.Backend.Sound.{round_kept, takes_kept, completes_kept}
use clean_slate_inc.Congestion.{Double}
use clean_slate_inc.Daemon.{Daemon}
use clean_slate_inc.Daemon.Run.{with_op}
use clean_slate_inc.Daemon.Sound.{slot_of, Same}
use clean_slate_inc.Daemon.Hand.{backend_elements}
use clean_slate_inc.Daemon.Sound as Daemon
use clean_slate_inc.Daemon.Training.{
  with_op-other, with_op-new, if_other, posts-Sound, collects-Sound,
}
use clean_slate_inc.Daemon.Moves.{
  Forwarded, Returned, Steps-kept, try_post_op-Steps, try_complete_op-Steps,
}
use clean_slate_inc.Daemon.System.{fresh-Sound}
use clean_slate_inc.Frontend.{OpWithFut}
use clean_slate_inc.LoadBalancer.{SubOp}
use clean_slate_inc.LoadBalancer.System.{IsAligned}
use clean_slate_inc.NetCcl.{backend_of, put_backend}
use clean_slate_inc.NetCcl.Run.{System, Run}
use clean_slate_inc.Op.{Op}
use clean_slate_inc.QueuePair.{Spsc, QueuePair, push_req}
use clean_slate_inc.QueuePair.Steps.{requests, responses}
use clean_slate_inc.QueuePair.History.{Reach, Reach-Inv}
use clean_slate_inc.Worker.Defs.{Link}

-- Steps of the responder change nothing of what is owed to the requester.
unmoved :
    (a : Spsc ℕ) {qp qp' : QueuePair a.Queue} {made taken taken' got : List ℕ}
    → Reach a qp made taken got
    → Reach a qp' made taken' got
    → responses a qp ++ (taken ++ requests a qp) ≡ responses a qp' ++ (taken' ++ requests a qp')
unmoved a {got = got} r r' =
    append_cancel_left got _ _ ((Reach-Inv a r).order ∙ sym (Reach-Inv a r').order)

module _ (a : Spsc ℕ) (q : Spsc SubOp) (l : Link) (d : Double) (group : ℕ) where
  pub record Sound (s : System a q l d group) (out : List ℕ) (flight : List (ℕ × Op)) : Type 0 where
    pub daemon : Daemon.Sound a s.daemon out (map (λ (f : ℕ × Op). f.0) flight)
    pub posted : List ℕ
    pub got : List ℕ
    pub backend : Backend.Sound a q l d group (backend_of s) posted flight got
    pub groups : (x : ℕ) → (s.daemon.ops x).group.group_id ≡ group
    pub aligned : All (λ b. IsAligned a q (s.daemon.ops (slot_of a s.daemon b))) out
    pub held : All (λ (f : ℕ × Op). s.daemon.ops f.0 ≡ f.1) flight

  -- A step of the backend.
  backend_moved :
      {s : System a q l d group} {out : List ℕ} {flight flight' : List (ℕ × Op)}
      {b : Backend a.Queue q.Queue l.State d.F}
      → (v : Sound s out flight) → Backend.Sound a q l d group b v.posted flight' v.got
      → All (λ (f : ℕ × Op). s.daemon.ops f.0 ≡ f.1) flight'
      → Sound (put_backend s b) out flight'
  backend_moved {s} {out} {flight} {flight'} {b} v w held = record {
    daemon = record {
      made = v.daemon.made;
      taken = v.daemon.taken;
      got = v.daemon.got;
      posted = v.posted;
      back = v.got;
      python = v.daemon.python;
      backend = w.frontend;
      same = v.daemon.same ∙ unmoved a v.backend.frontend w.frontend;
      outstanding = v.daemon.outstanding;
      links = v.daemon.links;
    };
    posted = v.posted;
    got = v.got;
    backend = w;
    groups = v.groups;
    aligned = v.aligned;
    held = held;
  }

  -- A step of the daemon.
  daemon_moved :
      {s : System a q l d group} {out : List ℕ} {flight : List (ℕ × Op)} {d' : Daemon a.Queue}
      → Sound s out flight
      → Daemon.Sound a d' out (map (λ (f : ℕ × Op). f.0) flight) × Same a s.daemon d'
      → Sound (record s { daemon = d' }) out flight
  daemon_moved {s} {out} {flight} {d'} v (w, (ops, slots)) =
      let op_at : (b : ℕ) → d'.ops (slot_of a d' b) ≡ s.daemon.ops (slot_of a s.daemon b) =
        λ b. ap (λ (o : ℕ → Op). o (slot_of a d' b)) ops ∙ ap s.daemon.ops (slots b) in
      record {
        daemon = w;
        posted = w.posted;
        got = w.back;
        backend = record { frontend = w.backend; owing = v.backend.owing };
        groups = λ x. ap (λ (o : ℕ → Op). (o x).group.group_id) ops ∙ v.groups x;
        aligned = All-map out (λ b h. subst (IsAligned a q) (sym (op_at b)) h) v.aligned;
        held = All-map flight (λ (f : ℕ × Op) h. ap (λ (o : ℕ → Op). o f.0) ops ∙ h) v.held;
      }

  posts_kept :
      {s : System a q l d group} {out : List ℕ} {flight : List (ℕ × Op)} {py : QueuePair a.Queue}
      (x slot : ℕ) (fut : OpWithFut) (op : Op)
      → Sound s out flight
      → fut.op ≡ slot
      → op.op_with_fut ≡ x
      → op.group.group_id ≡ group
      → IsAligned a q op
      → All (λ b. (b ≢ x) × (slot_of a s.daemon b ≢ slot)) out
      → push_req a x s.daemon.py_qp ≡ some (true, py)
      → Sound
          (record s { daemon = record (with_op a x slot fut op s.daemon) { py_qp = py } })
          (out ++ x ∷ [])
          flight
  posts_kept {s} {out} {flight} {py} x slot fut op v here there of_group whole others e =
      let elsewhere : All (λ (f : ℕ × Op). f.0 ≢ slot) flight =
        All-from_map (λ (f : ℕ × Op). f.0) (λ z. z ≢ slot) flight
          (All-append_left (λ z. z ≢ slot) (map (λ (f : ℕ × Op). f.0) flight)
            (requests a s.daemon.shm_qp)
            (All-append_right (λ z. z ≢ slot) (responses a s.daemon.shm_qp)
              (map (λ (f : ℕ × Op). f.0) flight ++ requests a s.daemon.shm_qp)
              (backend_elements a (λ z. z ≢ slot) v.daemon (All-map out (λ b ne. ne.1) others)))) in
      record {
        daemon = posts-Sound a x slot fut op v.daemon here there others e;
        posted = v.posted;
        got = v.got;
        backend = record { frontend = v.backend.frontend; owing = v.backend.owing };
        groups = λ z. elim (Bool-cases (z == slot)) [
          | inl is ↦ rw is of_group
          | inr differs ↦ rw differs (v.groups z)
        ];
        aligned =
            All-snoc _ out x
              (All-zip out
                (λ b ne h.
                  subst (IsAligned a q) (sym (with_op-other a x slot fut op s.daemon b ne).1) h)
                others v.aligned)
              (subst (IsAligned a q) (sym (with_op-new a x slot fut op s.daemon here)) whole);
        held =
            All-zip flight (λ (f : ℕ × Op) ne h. if_other a f.0 slot op (s.daemon.ops f.0) ne ∙ h)
              elsewhere v.held;
      }

  pub Run-Sound :
      {s : System a q l d group} {out : List ℕ} {flight : List (ℕ × Op)}
      → Run a q l d group s out flight
      → Sound s out flight
  Run-Sound (Run.start {s} py shm idle groups) = record {
    daemon = fresh-Sound a py shm;
    posted = [];
    got = [];
    backend = record {
      frontend = subst (λ z. Reach a z [] [] []) (sym shm) Reach.init;
      owing = fresh-OwesParts a q l d group (length s.workers) 0 s.workers idle;
    };
    groups = groups;
    aligned = tt;
    held = tt;
  }
  Run-Sound (Run.posts x slot fut op r here there of_group whole others e) =
      posts_kept x slot fut op (Run-Sound r) here there of_group whole others e
  Run-Sound (Run.collects x r front e) =
      let v = Run-Sound r in
      record {
        daemon = collects-Sound a x v.daemon front e;
        posted = v.posted;
        got = v.got;
        backend = record { frontend = v.backend.frontend; owing = v.backend.owing };
        groups = v.groups;
        aligned = v.aligned.1;
        held = v.held;
      }
  Run-Sound (Run.copies mem r) =
      let v = Run-Sound r in
      record {
        daemon = v.daemon;
        posted = v.posted;
        got = v.got;
        backend = record { frontend = v.backend.frontend; owing = v.backend.owing };
        groups = v.groups;
        aligned = v.aligned;
        held = v.held;
      }
  Run-Sound (Run.posting {s} done r e) =
      let v = Run-Sound r in
      daemon_moved v
        (Steps-kept a (Forwarded a) s.daemon (try_post_op-Steps a done s.daemon v.daemon) e)
  Run-Sound (Run.completing {s} done r e) =
      let v = Run-Sound r in
      daemon_moved v
        (Steps-kept a (Returned a) s.daemon (try_complete_op-Steps a done s.daemon v.daemon) e)
  Run-Sound (Run.round {s} i now arrived r e) =
      let v = Run-Sound r in
      backend_moved v (round_kept a q l d group i s.daemon.ops now arrived v.backend v.groups e)
        v.held
  Run-Sound (Run.takes {s} {out} {flight} x r front e) =
      let v = Run-Sound r in
      backend_moved v (takes_kept a q l d group x s.daemon.ops v.backend front e)
        (All-snoc _ flight (x, s.daemon.ops x) v.held refl)
  Run-Sound (Run.completes f r e) =
      let v = Run-Sound r in backend_moved v (completes_kept a q l d group v.backend e) v.held.1

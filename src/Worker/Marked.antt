-- ===== src/Worker/Marked.antt =====
-- The type of service that a worker's packets carry from the start on, by which the NIC brings their
-- answers back to the worker: no function of server/backend/worker.cpp changes it.
pub mod Receive
pub mod Send
use clean_slate_inc.Prelude.{
  ℕ, ◌≡◌, refl, sym, ap, ◌∙◌, subst, Option, none, some, List, [], ◌∷◌, ◌++◌, ◌>>=◌, ◌>>◌, All,
  Bool, true, false, assert, arith, some-inj, if◌then◌else◌,
}
use clean_slate_inc.Packet.{Mbuf}
use clean_slate_inc.Window.{PktState}
use clean_slate_inc.Worker.Defs.{Link, Worker, transmit}

-- Of the packet.
abbrev pub HasTos : ℕ → Mbuf → Type 0
HasTos tos pkt = pkt.type_of_service ≡ tos

-- A property of the result, if there is one.
pub data Holds {A : Type 0} (P : A → Type 0) : Option A → Type 0 where
  absent : Holds P none
  present : {x : A} → P x → Holds P (some x)

module _ {A : Type 0} (P : A → Type 0) where
  pub Holds-some : {m : Option A} {x : A} → m ≡ some x → Holds P m → P x
  Holds-some e absent = absurd (ground arith)
  Holds-some e (present h) = subst P (some-inj e) h

  pub Holds-if : (b : Bool) (x y : Option A) → Holds P x → Holds P y → Holds P (if b then x else y)
  Holds-if true x y hx hy = hx
  Holds-if false x y hx hy = hy

  pub Holds-bind :
      {B : Type 0} (Q : B → Type 0) (m : Option A) (f : A → Option B)
      → Holds P m
      → ((x : A) → P x → Holds Q (f x))
      → Holds Q (m >>= f)
  Holds-bind Q none f h k = absent
  Holds-bind Q (some x) f (present h) k = k x h

  -- Where the property does not hang on what is bound.
  pub Holds-each :
      {B : Type 0} (m : Option B) (f : B → Option A) → ((x : B) → Holds P (f x)) → Holds P (m >>= f)
  Holds-each none f k = absent
  Holds-each (some x) f k = k x

All-append {ℓ} :
    {A : Type ℓ} (P : A → Type 0) (xs ys : List A) → All P xs → All P ys → All P (xs ++ ys)
All-append P [] ys h k = k
All-append P (x ∷ xs) ys h k = (h.0, All-append P xs ys h.1 k)

module _ {Q F : Type 0} (l : Link) (tos : ℕ) where
  -- Every packet of the window, and every packet that has been sent.
  pub record IsMarked (w : Worker Q l.State F) : Type 0 where
    pub window : (p : ℕ) → HasTos tos (w.window.state p).pkt
    pub sent : All (HasTos tos) (l.sent w.link)

  -- Neither the window's packets nor what has been sent changes.
  pub IsMarked-kept :
      {w w' : Worker Q l.State F}
      → IsMarked w
      → w'.window.state ≡ w.window.state
      → l.sent w'.link ≡ l.sent w.link
      → IsMarked w'
  IsMarked-kept v state sent = record {
    window = λ p. subst (λ (f : ℕ → PktState). HasTos tos (f p).pkt) (sym state) (v.window p);
    sent = subst (All (HasTos tos)) (sym sent) v.sent;
  }

  pub IsMarked-if :
      (b : Bool) {x y : Worker Q l.State F}
      → IsMarked x
      → IsMarked y
      → IsMarked (if b then x else y)
  IsMarked-if true hx hy = hx
  IsMarked-if false hx hy = hy

  pub transmit-IsMarked : (p : ℕ) (w : Worker Q l.State F) → IsMarked w → IsMarked (transmit l p w)
  unfolding transmit
  transmit-IsMarked p w v =
      let pkt = (w.window.state p).pkt in
      IsMarked-if w.packet_loopback (IsMarked-kept v refl refl) (record {
        window = v.window;
        sent =
            subst (All (HasTos tos)) (sym (l.sent-send pkt w.link))
              (All-append (HasTos tos) (l.sent w.link) (pkt ∷ []) v.sent (v.window p, tt));
      })

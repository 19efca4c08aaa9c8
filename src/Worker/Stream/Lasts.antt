-- ===== src/Worker/Stream/Lasts.antt =====
-- The parts that end in the window, as packets are answered, join it and leave it:
-- server/backend/worker.cpp.
use clean_slate_inc.Prelude.{
  ℕ, zero, suc, ◌+◌, ◌%◌, ◌≡◌, ◌≢◌, ◌<◌, refl, sym, ap, ap₂, ◌∙◌, true, [], ◌++◌, arith,
  append_assoc, append-nil,
}
use native.Mathlib.Decide.{ℕ_discrete}
use clean_slate_inc.Congestion.{max_win_len}
use clean_slate_inc.Window.{PktState, update}
use clean_slate_inc.Window.Positions.{place, update_self, update_ne}
use clean_slate_inc.Worker.Stream.{ended, lasts}

-- `lasts` reads `is_last` and `sub_op` at the places of the window only.
pub lasts-ext :
    (n : ℕ) (f g : ℕ → PktState) (p : ℕ)
    → p < max_win_len
    → ((k : ℕ) → k < n → ended (f (place p k)) ≡ ended (g (place p k)))
    → lasts f p n ≡ lasts g p n
lasts-ext zero f g p h e = refl
lasts-ext (suc n) f g p h e =
    ap₂ (λ a b. a ++ b)
      (ap (λ i. ended (f i)) here ∙ e 0 (omega arith) ∙ ap (λ i. ended (g i)) (sym here))
      (lasts-ext n f g ((p + 1) % max_win_len) (omega arith) (λ k lt.
        ap (λ i. ended (f i)) (there k)
        ∙ e (suc k) (omega arith)
        ∙ ap (λ i. ended (g i)) (sym (there k))))
  where
    here : p ≡ place p 0
    here = omega arith

    there : (k : ℕ) → place ((p + 1) % max_win_len) k ≡ place p (suc k)
    there k = omega arith

-- A packet joins the window at its end.
pub lasts-snoc :
    (n : ℕ) (f : ℕ → PktState) (p : ℕ)
    → p < max_win_len
    → lasts f p (suc n) ≡ lasts f p n ++ ended (f (place p n))
lasts-snoc zero f p h =
    ap (λ i. ended (f i) ++ []) (omega arith) ∙ append-nil (ended (f (place p 0)))
lasts-snoc (suc n) f p h =
    ap (λ l. ended (f p) ++ l) (lasts-snoc n f ((p + 1) % max_win_len) (omega arith))
    ∙ sym (
        append_assoc (ended (f p)) (lasts f ((p + 1) % max_win_len) n)
          (ended (f (place ((p + 1) % max_win_len) n))))
    ∙ ap (λ i. lasts f p (suc n) ++ ended (f i)) (omega arith)

-- Places of a window do not meet.
pub place-ne : (p j k : ℕ) → p < max_win_len → j < k → k < max_win_len → place p j ≢ place p k
place-ne p j k h lt le e = absurd (omega (arith, e))

pub lasts-write :
    (n : ℕ) (f : ℕ → PktState) (p : ℕ) (s : PktState)
    → p < max_win_len
    → n < max_win_len
    → lasts (update f (place p n) s) p (suc n) ≡ lasts f p n ++ ended s
lasts-write n f p s h small =
    lasts-snoc n (update f (place p n) s) p h
    ∙ ap₂ (λ a b. a ++ b)
        (lasts-ext n (update f (place p n) s) f p h
          (λ k lt. ap ended (update_ne f s (λ e. absurd (place-ne p k n h lt small (sym e))))))
        (ap ended (update_self f (place p n) s))

-- An answered packet still ends its part.
pub lasts-acked :
    (n : ℕ) (f : ℕ → PktState) (p i : ℕ)
    → p < max_win_len
    → lasts (update f i (record (f i) { acked = true })) p n ≡ lasts f p n
lasts-acked n f p i h = lasts-ext n (update f i (record (f i) { acked = true })) f p h same
  where
    same :
        (k : ℕ)
        → k < n
        → ended (update f i (record (f i) { acked = true }) (place p k)) ≡ ended (f (place p k))
    same k lt = elim (ℕ_discrete (place p k) i) [
      | yes e ↦
          ap (λ j. ended (update f i (record (f i) { acked = true }) j)) e
          ∙ ap ended (update_self f i (record (f i) { acked = true }))
          ∙ ap (λ j. ended (f j)) (sym e)
      | no ne ↦ ap ended (update_ne f (record (f i) { acked = true }) (λ e. ne (sym e)))
    ]

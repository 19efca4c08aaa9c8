-- ===== src/CopyBuffer/Tests.antt =====
-- Runs of `copy_buffer_t` on concrete sizes, and the theorems at concrete states.
use clean_slate_inc.Prelude.{
  ℕ, ◌+◌, ◌-◌, ◌*◌, ◌≡◌, refl, [], ◌∷◌, none, some, arith, All, ltb, if◌then◌else◌,
}
use clean_slate_inc.CopyBuffer.{CopyBuffer, shm_copy_buffer_size, empty, fifo_allocate, fifo_free}
use clean_slate_inc.CopyBuffer.Live.{chunk, Within, Apart}
use clean_slate_inc.CopyBuffer.Steps.{Reach, init, allocate, free, live_chunks-Apart}
use clean_slate_inc.CopyBuffer.Exact.{exact_fit_aborts, exact_fit_free}

abbrev mib : ℕ
mib = 1024 * 1024

-- 5 MiB and 2 MiB are out, 5 MiB come back, and 3 MiB go to the front.
abbrev first : CopyBuffer
first = record { head = 5 * mib; tail = 0 }

abbrev second : CopyBuffer
second = record { head = 7 * mib; tail = 0 }

abbrev third : CopyBuffer
third = record { head = 7 * mib; tail = 5 * mib }

abbrev fourth : CopyBuffer
fourth = record { head = 3 * mib; tail = 5 * mib }

wraps_to_front : fifo_allocate (3 * mib) third ≡ (some 0, fourth)
unfolding fifo_allocate
wraps_to_front = refl

fourth_full : fifo_allocate (2 * mib) fourth ≡ (none, fourth)
unfolding fifo_allocate
fourth_full = refl

fourth-Reach : Reach fourth (chunk (5 * mib) (2 * mib) ∷ chunk 0 (3 * mib) ∷ [])
unfolding fifo_allocate fifo_free empty
fourth-Reach =
    allocate {b = third} (3 * mib) 0
      (free {b = second} {c = chunk 0 (5 * mib)}
        (allocate {b = first} (2 * mib) (5 * mib)
          (allocate {b = empty} {cs = []} (5 * mib) 0 init refl (omega arith)) refl (omega arith))
        refl)
      refl (omega arith)

live_chunks-Apart_example :
    Apart (chunk (5 * mib) (2 * mib) ∷ chunk 0 (3 * mib) ∷ [])
    × All (Within 0 (shm_copy_buffer_size + 1)) (chunk (5 * mib) (2 * mib) ∷ chunk 0 (3 * mib) ∷ [])
live_chunks-Apart_example = live_chunks-Apart fourth-Reach

-- After 8 MiB have come and gone, one byte brings the frontend down.
exact_fit_aborts_example :
    (fifo_allocate 1 (record { head = 8 * mib; tail = 8 * mib })
      ≡ (some (8 * mib), record { head = 0; tail = 8 * mib }))
    × (fifo_free 1 (fifo_allocate 1 (record { head = 8 * mib; tail = 8 * mib })).1 ≡ none)
exact_fit_aborts_example = exact_fit_aborts (8 * mib) (omega arith) (omega arith)

exact_fit_free_example :
    fifo_free 2 (record { head = 4; tail = 8 * mib - 1 })
    ≡ (if ltb 4 2 then none else some (record { head = 4; tail = 2 }))
exact_fit_free_example =
    exact_fit_free (record { head = 4; tail = 8 * mib - 1 }) 2 (omega arith) (omega arith)
      (omega arith)

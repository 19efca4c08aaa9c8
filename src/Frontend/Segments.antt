-- ===== src/Frontend/Segments.antt =====
-- How `post_collective_c` cuts a tensor into segments: server/frontend/src/c/api.cpp.
use clean_slate_inc.Prelude.{
  ℕ, zero, suc, ◌+◌, ◌-◌, ◌*◌, ◌/◌, ◌≡◌, ◌<◌, ◌≤◌, refl, Bool, true, false, some, List, [], ◌∷◌,
  ◌==◌, ltb, arith, add64, u64_mod, inl, inr, Bool-cases, sym, subst,
}
use clean_slate_inc.Frontend.{Segment, frontend_segment_size, segment_at, segments}

-- The segments of the bytes from `from` on: full ones, and a last one of the bytes that are left, at
-- most a full segment. The one at offset 0 is the first, and the last alone may have the future.
pub data Cut (size : ℕ) (async_op : Bool) : ℕ → List Segment → Type 0 where
  last :
      {from : ℕ}
      → from ≤ size
      → size - from ≤ frontend_segment_size
      → Cut size async_op from (
          record {
            offset = from;
            size = size - from;
            is_first = from == 0;
            is_last = true;
            generate_future = async_op;
          }
          ∷ [])
  next :
      {from : ℕ} {segs : List Segment}
      → from + frontend_segment_size < size
      → Cut size async_op (from + frontend_segment_size) segs
      → Cut size async_op from (
          record {
            offset = from;
            size = frontend_segment_size;
            is_first = from == 0;
            is_last = false;
            generate_future = false;
          }
          ∷ segs)

segment_at-last :
    (size : ℕ) (async_op : Bool) (from : ℕ)
    → size < u64_mod
    → from ≤ size
    → size - from ≤ frontend_segment_size
    → segment_at size async_op from ≡ record {
      offset = from;
      size = size - from;
      is_first = from == 0;
      is_last = true;
      generate_future = async_op;
    }
unfolding segment_at
segment_at-last size async_op from small le fits = ground arith

segment_at-next :
    (size : ℕ) (async_op : Bool) (from : ℕ)
    → size < u64_mod
    → from + frontend_segment_size < size
    → segment_at size async_op from ≡ record {
      offset = from;
      size = frontend_segment_size;
      is_first = from == 0;
      is_last = false;
      generate_future = false;
    }
unfolding segment_at
segment_at-next size async_op from small more = ground arith

segments-stop :
    (fuel size : ℕ) (async_op : Bool) (from : ℕ)
    → ltb (add64 from frontend_segment_size) size ≡ false
    → segments (suc fuel) size async_op from ≡ some (segment_at size async_op from ∷ [])
unfolding segments
segments-stop fuel size async_op from e = rw (e, segments) refl

segments-go :
    (fuel size : ℕ) (async_op : Bool) (from : ℕ) {segs : List Segment}
    → ltb (add64 from frontend_segment_size) size ≡ true
    → segments fuel size async_op (add64 from frontend_segment_size) ≡ some segs
    → segments (suc fuel) size async_op from ≡ some (segment_at size async_op from ∷ segs)
unfolding segments
segments-go fuel size async_op from e rest = rw (e, segments, rest) refl

-- The segments that the loop makes.
abbrev Done : ℕ → ℕ → Bool → ℕ → Type 0
Done fuel size async_op from =
    (segs : List Segment) × (segments fuel size async_op from ≡ some segs)
    × Cut size async_op from segs

Done-stop :
    (fuel size : ℕ) (async_op : Bool) (from : ℕ)
    → size + frontend_segment_size < u64_mod
    → from ≤ size
    → ltb (add64 from frontend_segment_size) size ≡ false
    → Done (suc fuel) size async_op from
Done-stop fuel size async_op from small le stop =
    let fits : size - from ≤ frontend_segment_size = ground arith in
    (
      segment_at size async_op from ∷ [],
      segments-stop fuel size async_op from stop,
      subst (λ s. Cut size async_op from (s ∷ []))
          (sym (segment_at-last size async_op from (omega arith) le fits)) (last le fits),
    )

segments-Cut :
    (fuel size : ℕ) (async_op : Bool) (from : ℕ)
    → size + frontend_segment_size < u64_mod
    → from ≤ size
    → size < from + suc fuel * frontend_segment_size + 1
    → Done (suc fuel) size async_op from
segments-Cut zero size async_op from small le enough =
    Done-stop zero size async_op from small le (ground arith)
segments-Cut (suc fuel) size async_op from small le enough =
    elim (Bool-cases (ltb (add64 from frontend_segment_size) size)) [
      | inr stop ↦ Done-stop (suc fuel) size async_op from small le stop
      | inl more ↦
          let lt : from + frontend_segment_size < size = ground arith in
          let step : add64 from frontend_segment_size ≡ from + frontend_segment_size =
            omega arith in
          let (segs, e, cut) =
            segments-Cut fuel size async_op (from + frontend_segment_size) small (omega arith)
              (omega arith) in
          (
            segment_at size async_op from ∷ segs,
            segments-go (suc fuel) size async_op from more
                (subst (λ n. segments (suc fuel) size async_op n ≡ some segs) (sym step) e),
            subst (λ s. Cut size async_op from (s ∷ segs))
                (sym (segment_at-next size async_op from (omega arith) lt)) (next lt cut),
          )
    ]

-- A tensor of fewer than 2^64 - FRONTEND_SEGMENT_SIZE bytes is cut into at most one segment more than
-- its size has full ones, at least one, which cover it in order and without a gap; only the
-- first, at offset 0, is marked as first, only the last as last, and only the last gets the future, if
-- one is wanted.
pub segments_lem :
    (size : ℕ) (async_op : Bool)
    → size + frontend_segment_size < u64_mod
    → (segs : List Segment) × (segments (suc (size / frontend_segment_size)) size async_op 0
        ≡ some segs)
      × Cut size async_op 0 segs
segments_lem size async_op small =
    segments-Cut (size / frontend_segment_size) size async_op 0 small (omega arith) (omega arith)

-- ===== src/Sdk/Download/Spans.antt =====
-- sdk/pyuploadx/client.py: the ranges of a parallel download cover the file.
use native.Mathlib.Nat.{mul-div-le, le-div_iff_mul-le}
use pyupload_x.Base.{
  ℕ, zero, suc, ◌+◌, ◌*◌, ◌/◌, ◌≤◌, ◌<◌, min, ◌≡◌, ◌∙◌, Bool, ◌&&◌, List, [], ◌∷◌, arith, ltb, leb,
  if◌then◌else◌, All,
}
use pyupload_x.Sdk.Download.{Span, spans_from, spans}

-- a range of bytes that a file of a size has
abbrev pub IsSpan : ℕ → Span → Type 0
IsSpan total r = (r.0 ≤ r.1) × (r.1 < total)

abbrev pub covers : ℕ → Span → Bool
covers i r = leb r.0 i && leb i r.1

abbrev pub count_covering : ℕ → List Span → ℕ
count_covering i [] = 0
count_covering i (r ∷ rs) = (if covers i r then 1 else 0) + count_covering i rs

spans_from-cover :
    (total step start count i : ℕ)
    → 0 < step
    → start + count * step ≤ total
    → 0 < count
    → All (IsSpan total) (spans_from total step start count)
      × (count_covering i (spans_from total step start count)
          ≡ (if leb start i && ltb i total then 1 else 0))
unfolding spans_from
spans_from-cover total step start zero i h k n = absurd (omega arith)
spans_from-cover total step start (suc zero) i h k n =
    (((omega arith, omega arith), tt), ground arith)
spans_from-cover total step start (suc (suc count)) i h k n =
    let (rest, once) =
      spans_from-cover total step (start + step) (suc count) i h (grind arith) (omega arith) in
    let below : start + step < total = grind arith in
    (((omega arith, omega arith), rest), ground (arith, once))

share : (n w : ℕ) → 0 < w → w ≤ n → (w * (n / w) ≤ n) × (0 < n / w)
share n w h k = (mul-div-le n w, (le-div_iff_mul-le {k = w} {x = 1} {y = n} h).1 (omega arith))

-- The ranges of a file that is not empty are ranges of its bytes, and each byte is in exactly one.
pub spans-cover :
    (total concurrency i : ℕ)
    → 0 < total
    → 0 < concurrency
    → All (IsSpan total) (spans total concurrency)
      × (count_covering i (spans total concurrency) ≡ (if ltb i total then 1 else 0))
unfolding spans
spans-cover total concurrency i h k =
    let workers = min concurrency total in
    let some_workers : 0 < workers = omega arith in
    let (below, wide) = share total workers some_workers (omega arith) in
    let (here, once) =
      spans_from-cover total (total / workers) 0 workers i wide (omega (arith, below))
        some_workers in
    (here, once ∙ ground arith)

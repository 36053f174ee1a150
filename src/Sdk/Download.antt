-- ===== src/Sdk/Download.antt =====
-- sdk/pyuploadx/client.py, `_stream_parallel`: a file is downloaded in ranges that are written at
-- their places.
pub mod Spans
pub mod Parallel
use pyupload_x.Base.{
  ℕ, zero, suc, ◌+◌, ◌-◌, ◌/◌, min, Option, none, some, List, [], ◌∷◌, ◌++◌, length, take, drop,
  range, Text, codes,
}
use pyupload_x.Base.Int.{pos_part}
use pyupload_x.Errors.{Result, ok, err}
use pyupload_x.Errors.{◌>>=◌ as bind_result}
use pyupload_x.Ranges.{ByteRange, range_length, parse_byte_range}
use pyupload_x.Ranges.Number.{decimal}
use pyupload_x.Storage.{Bytes}

-- the first and the last byte of a range
abbrev pub Span : Type 0
Span = ℕ × ℕ

-- The loop over `range(concurrency)`, from a start on: the last range goes to the end.
unfoldable pub spans_from : ℕ → ℕ → ℕ → ℕ → List Span
spans_from total step start zero = []
spans_from total step start (suc zero) = (start, total - 1) ∷ []
spans_from total step start (suc (suc count)) =
    (start, start + step - 1) ∷ spans_from total step (start + step) (suc count)

-- The ranges of a file that is not empty; `concurrency` is at least two where they are used.
unfoldable pub spans : ℕ → ℕ → List Span
unfolding spans_from
spans total concurrency =
    let workers = min concurrency total in spans_from total (total / workers) 0 workers

-- the bytes of a range
abbrev pub span_of : Bytes → Span → Bytes
span_of content (first, last) = take (last + 1 - first) (drop first content)

-- `handle.seek(range_start)` and the writes of a response's chunks
abbrev pub write_at : ℕ → Bytes → Bytes → Bytes
write_at start b dest = take start dest ++ (b ++ drop (start + length b) dest)

-- `handle.truncate(total)` of a new file
abbrev pub zeroed : ℕ → Bytes
zeroed zero = []
zeroed (suc n) = 0 ∷ zeroed n

-- `f"bytes={range_start}-{range_end}"`
unfoldable pub range_header : Span → Text
range_header (first, last) = codes "bytes=" ++ (decimal first ++ b'-' ∷ decimal last)

abbrev pub slice_of : Bytes → Option ByteRange → Bytes
slice_of content none = content
slice_of content (some r) = take (pos_part (range_length r)) (drop (pos_part r.start) content)

-- What the service answers to a worker, app/services/file_service.py.
unfoldable pub response : Bytes → Span → Result Bytes
response content r =
    bind_result (parse_byte_range (some (range_header r)) (length content))
      (λ range. ok (slice_of content range))

abbrev pub write_response : ℕ → Bytes → Result Bytes → Option Bytes
write_response start dest (ok b) = some (write_at start b dest)
write_response start dest (err e) = none

abbrev pub and_on : Option Bytes → (Bytes → Option Bytes) → Option Bytes
and_on none f = none
and_on (some b) f = f b

-- The file after the workers wrote their ranges, in the order in which they did; `none` is the error
-- of a worker, which is raised in the end.
unfoldable pub write_spans : Bytes → List Span → Bytes → Option Bytes
write_spans content [] dest = some dest
write_spans content (r ∷ rs) dest =
    and_on (write_response r.0 dest (response content r)) (write_spans content rs)

-- ===== src/Sdk/Download/Parallel.antt =====
-- sdk/pyuploadx/client.py: a parallel download gives the file, in whatever order the workers write.
use pyupload_x.Base.{
  ℕ, zero, suc, ◌+◌, ◌-◌, ◌≤◌, ◌<◌, ◌≡◌, refl, sym, ap, subst, ◌∙◌, inl, inr, Bool, true, ◌&&◌,
  some, List, [], ◌∷◌, ◌++◌, arith, ltb, ◌==◌, if◌then◌else◌, ltb→le, Bool-cases, length, take,
  drop, any, All, length-append, length-take, length-drop, get_elem?, get_elem?-append,
  get_elem?-take, get_elem?-drop, get_elem?-ext, get_elem?-none,
}
use pyupload_x.Base.Int.{pos, pos_part, ◌+ℤ◌, ◌-ℤ◌}
use pyupload_x.Errors.{ok}
use pyupload_x.Ranges.{range_length}
use pyupload_x.Ranges.Number.{decimal, max_digits}
use pyupload_x.Ranges.Forms.{between, resolve, parse_byte_range-form}
use pyupload_x.Storage.{Bytes}
use pyupload_x.Sdk.Download.{
  Span, spans, span_of, write_at, zeroed, range_header, response, write_spans,
}
use pyupload_x.Sdk.Download.Spans.{IsSpan, covers, count_covering, spans-cover}

-- the numbers of a file's positions can be printed in a header
abbrev pub IsShort : ℕ → Type 0
IsShort total = (n : ℕ) → n < total → length (decimal n) ≤ max_digits

length_asked :
    (first last : ℕ)
    → first ≤ last
    → pos_part (range_length (record { start = pos first; end = pos last })) ≡ last + 1 - first
unfolding range_length ◌+ℤ◌ ◌-ℤ◌
length_asked first last h = ground arith

resolve-span :
    (first last total : ℕ)
    → first ≤ last
    → last < total
    → resolve (between first last) total ≡ some (first, last)
resolve-span first last total h k = ground arith

-- The service answers a worker's range with its bytes.
response-span :
    (content : Bytes) (r : Span)
    → IsShort (length content)
    → IsSpan (length content) r
    → response content r ≡ ok (span_of content r)
unfolding response range_header
response-span content (first, last) short h =
    let asked =
      parse_byte_range-form (between first last) (length content)
        (short first (omega arith), short last h.1) in
    rw (asked, resolve-span first last (length content) h.0 h.1)
      (ap (λ k. ok (take k (drop first content))) (length_asked first last h.0))

get_elem?-write_at :
    (start : ℕ) (b dest : Bytes) (i : ℕ)
    → start + length b ≤ length dest
    → get_elem? (write_at start b dest) i ≡ (
        if ltb i start
        then get_elem? dest i
        else if ltb i (start + length b)
        then get_elem? b (i - start)
        else get_elem? dest i)
get_elem?-write_at start b dest i h = ground (
  arith,
  get_elem?-append (take start dest) (b ++ drop (start + length b) dest) i,
  get_elem?-append b (drop (start + length b) dest) (i - length (take start dest)),
  get_elem?-take start dest i,
  get_elem?-drop (start + length b) dest (i - length (take start dest) - length b),
  length-take start dest,
)

length-write_at :
    (start : ℕ) (b dest : Bytes)
    → start + length b ≤ length dest
    → length (write_at start b dest) ≡ length dest
length-write_at start b dest h = omega (
  arith,
  length-append (take start dest) (b ++ drop (start + length b) dest),
  length-append b (drop (start + length b) dest),
  length-take start dest,
  length-drop (start + length b) dest,
)

get_elem?-span :
    (content : Bytes) (r : Span) (i : ℕ)
    → covers i r ≡ true
    → get_elem? (span_of content r) (i - r.0) ≡ get_elem? content i
get_elem?-span content (first, last) i h =
    let low : first ≤ i = ground arith in
    let high : i ≤ last = ground arith in
    let inside : ltb (i - first) (last + 1 - first) ≡ true = ground arith in
    get_elem?-take (last + 1 - first) (drop first content) (i - first)
    ∙ rw inside (get_elem?-drop first content (i - first))
    ∙ ap (get_elem? content) {x = first + (i - first)} {y = i} (omega arith)

length-span :
    (content : Bytes) (r : Span)
    → IsSpan (length content) r
    → r.0 + length (span_of content r) ≡ r.1 + 1
length-span content (first, last) h =
    omega (arith, length-take (last + 1 - first) (drop first content), length-drop first content)

-- a range that is written at its place
get_elem?-write_span :
    (content dest : Bytes) (r : Span) (i : ℕ)
    → IsSpan (length content) r
    → length dest ≡ length content
    → get_elem? (write_at r.0 (span_of content r) dest) i
      ≡ (if covers i r then get_elem? content i else get_elem? dest i)
get_elem?-write_span content dest r i h k = ground (
  arith,
  get_elem?-write_at r.0 (span_of content r) dest i,
  length-span content r h,
  get_elem?-span content r i,
)

module _ (content : Bytes) (short : IsShort (length content)) where
  -- What the workers leave, of whatever ranges they are.
  abbrev Leaves : List Span → Bytes → Bytes → Type 0
  Leaves rs dest dest' =
      (length dest' ≡ length content)
      × ((i : ℕ)
          → get_elem? dest' i
            ≡ (if ltb 0 (count_covering i rs) then get_elem? content i else get_elem? dest i))

  write_spans-Leaves :
      (rs : List Span) (dest : Bytes)
      → All (IsSpan (length content)) rs
      → length dest ≡ length content
      → (dest' : Bytes) × (write_spans content rs dest ≡ some dest') × Leaves rs dest dest'
  unfolding write_spans
  write_spans-Leaves [] dest h k = (dest, refl, (k, λ i. refl))
  write_spans-Leaves (r ∷ rs) dest h k =
      let next = write_at r.0 (span_of content r) dest in
      let fits : r.0 + length (span_of content r) ≤ length dest =
        omega (arith, length-span content r h.0) in
      let same : length next ≡ length content =
        length-write_at r.0 (span_of content r) dest fits ∙ k in
      let (dest', runs, left) = write_spans-Leaves rs next h.1 same in
      (
        dest',
        rw (response-span content r short h.0) runs,
        (left.0, λ i. left.1 i ∙ ground (arith, get_elem?-write_span content dest r i h.0 k)),
      )

abbrev pub span_eq : Span → Span → Bool
span_eq r q = (r.0 == q.0) && (r.1 == q.1)

-- each range of one list is in another
abbrev pub AreAmong : List Span → List Span → Type 0
AreAmong rs qs = All (λ r. any (span_eq r) qs ≡ true) rs

span_eq→eq : (r q : Span) → span_eq r q ≡ true → r ≡ q
span_eq→eq (a, b) (c, d) h = ground arith

All-any :
    (P : Span → Type 0) (r : Span) (qs : List Span) → any (span_eq r) qs ≡ true → All P qs → P r
All-any P r [] h k = cc
All-any P r (q ∷ qs) h k = elim (Bool-cases (span_eq r q)) [
  | inl e ↦ subst P (sym (span_eq→eq r q e)) k.0
  | inr e ↦ All-any P r qs (ground arith) k.1
]

All-among : (P : Span → Type 0) (rs qs : List Span) → AreAmong rs qs → All P qs → All P rs
All-among P [] qs h k = tt
All-among P (r ∷ rs) qs h k = (All-any P r qs h.0 k, All-among P rs qs h.1 k)

any-count :
    (i : ℕ) (r : Span) (qs : List Span)
    → any (span_eq r) qs ≡ true
    → covers i r ≡ true
    → 0 < count_covering i qs
any-count i r [] h k = cc
any-count i r (q ∷ qs) h k = elim (Bool-cases (span_eq r q)) [
  | inl e ↦ rw (← span_eq→eq r q e) (ground arith)
  | inr e ↦ let more = any-count i r qs (ground arith) k in omega arith
]

count-among :
    (i : ℕ) (rs qs : List Span) → AreAmong rs qs → 0 < count_covering i rs → 0 < count_covering i qs
count-among i [] qs h k = absurd (omega arith)
count-among i (r ∷ rs) qs h k = elim (Bool-cases (covers i r)) [
  | inl e ↦ any-count i r qs h.0 e
  | inr e ↦ count-among i rs qs h.1 (ground arith)
]

length-zeroed : (n : ℕ) → length (zeroed n) ≡ n
length-zeroed zero = refl
length-zeroed (suc n) = ap suc (length-zeroed n)

-- A file that is not empty is downloaded in ranges: in whatever order the workers write theirs, and
-- if some are written again, no worker fails and the file that was made is the file of the service.
-- The positions are numbers of at most 4300 digits.
pub write_spans-content :
    (content : Bytes) (concurrency : ℕ) (order : List Span)
    → 0 < length content
    → 0 < concurrency
    → IsShort (length content)
    → AreAmong order (spans (length content) concurrency)
    → AreAmong (spans (length content) concurrency) order
    → write_spans content order (zeroed (length content)) ≡ some content
write_spans-content content concurrency order some_bytes some_workers short only each =
    let total = length content in
    let planned = (spans-cover total concurrency 0 some_bytes some_workers).0 in
    let (dest, runs, left) =
      write_spans-Leaves content short order (zeroed total)
        (All-among (IsSpan total) order (spans total concurrency) only planned)
        (length-zeroed total) in
    runs
    ∙ ap some (
        get_elem?-ext dest content (λ i. elim (Bool-cases (ltb i total)) [
          | inl e ↦
              let once = (spans-cover total concurrency i some_bytes some_workers).1 in
              let planned_once : 0 < count_covering i (spans total concurrency) = ground arith in
              let written = count-among i (spans total concurrency) order each planned_once in
              left.1 i ∙ ground arith
          | inr e ↦
              get_elem?-none dest i (omega (arith, left.0, ltb→le i total e))
              ∙ sym (get_elem?-none content i (omega (arith, ltb→le i total e)))
        ]))

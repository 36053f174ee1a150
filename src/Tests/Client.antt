-- ===== src/Tests/Client.antt =====
-- The client library on small inputs: retries and a parallel download.
use pyupload_x.Base.{
  ℕ, ◌+◌, ◌≡◌, refl, true, some, List, [], ◌∷◌, arith, ltb, if◌then◌else◌, ◌/◌, ◌*◌, none,
}
use pyupload_x.Ranges.Number.{decimal, decimal_onto}
use pyupload_x.Sdk.Retry.{
  second, Outcome, returned, client_error, connection_error, Ended, is_retryable, exponential_delay,
  retry, retryable_status_codes, complete_request,
}
use pyupload_x.Sdk.Retry.Attempts.{IsEnd, AreBackoffs, retry-IsEnd}
use pyupload_x.Sdk.Retry.Nested.{complete_request-fails}
use pyupload_x.Sdk.Download.{Span, spans, write_spans, zeroed}
use pyupload_x.Sdk.Download.Parallel.{IsShort, write_spans-content}

-- a call that fails twice and then returns
abbrev flaky : ℕ → Outcome ℕ × ℕ
flaky n = (
  if ltb n 1 then client_error (some 503) else if ltb n 2 then connection_error else returned n,
  n + 1,
)

-- a draw of half the interval
abbrev half : ℕ → ℕ → ℕ
half s b = b / 2

retry-IsEnd_example :
    (e : Ended ℕ ℕ) × (again : ℕ) × (retry half flaky 5 second (30 * second) (some []) 0 ≡ some e)
    × IsEnd half flaky 5 second (30 * second) retryable_status_codes 0 0 e again
    × AreBackoffs second (30 * second) 1 e.delays
retry-IsEnd_example = retry-IsEnd half flaky 5 second (30 * second) (some []) 0 (λ s b. omega arith)

flaky_returns :
    retry half flaky 5 second (30 * second) none 0
    ≡ some (record { outcome = returned 2; state = 3; delays = 2500000 ∷ 4500000 ∷ [] })
unfolding retry is_retryable exponential_delay
flaky_returns = refl

-- a server that counts its requests and is never available
abbrev unavailable : ℕ → ℕ × ℕ
unavailable n = (503, n + 1)

complete_request-fails_example :
    (is_retryable retryable_status_codes (complete_request half unavailable 0).0 ≡ true)
    × ((complete_request half unavailable 0).1 ≡ 25)
complete_request-fails_example = complete_request-fails half unavailable (λ s. refl) 0

abbrev content : List ℕ
content = 7 ∷ 8 ∷ 9 ∷ 10 ∷ 11 ∷ []

-- the second worker is the first to write
abbrev order : List Span
order = (2, 4) ∷ (0, 1) ∷ []

planned : spans 5 2 ≡ (0, 1) ∷ (2, 4) ∷ []
unfolding spans
planned = refl

short : IsShort 5
unfolding decimal decimal_onto
short n h = ground arith

write_spans-content_example : write_spans content order (zeroed 5) ≡ some content
write_spans-content_example =
    write_spans-content content 2 order (omega arith) (omega arith) short
      (rw planned (refl, (refl, tt))) (rw planned (refl, (refl, tt)))

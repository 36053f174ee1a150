-- ===== src/Sdk/Retry.antt =====
-- sdk/pyuploadx/retry.py, and the requests of client.py that go through it. A call runs over a state
-- of the outside world. Delays are in whole microseconds, and `random.uniform(0, b)` is a parameter
-- `uniform` of the state in which it is drawn and of `b`. The loop is on fuel.
pub mod Attempts
pub mod Nested
use pyupload_x.Base.{
  ℕ, zero, suc, ◌+◌, ◌-◌, ◌*◌, ◌^◌, min, max, Bool, true, false, not, ◌&&◌, Option, none, some,
  List, [], ◌∷◌, leb, if◌then◌else◌, contains,
}

-- How a call ends: with a value, an `UploadClientError` with its `status_code` if it has one, a
-- `ConnectionError` or `TimeoutError`, or any other exception.
pub data Outcome (A : Type 0) : Type 0 where
  returned : A → Outcome A
  client_error : Option ℕ → Outcome A
  connection_error other_error : Outcome A

abbrev pub retryable_status_codes : List ℕ
retryable_status_codes = 408 ∷ 429 ∷ 500 ∷ 502 ∷ 503 ∷ 504 ∷ []

abbrev pub is_listed : Option ℕ → List ℕ → Bool
is_listed none statuses = false
is_listed (some status) statuses = contains status statuses

abbrev pub second : ℕ
second = 1000000

module _ {S : Type 0} (uniform : S → ℕ → ℕ) where
  unfoldable pub exponential_delay : S → ℕ → ℕ → ℕ → ℕ
  exponential_delay s attempt base_delay max_delay =
      let delay = min max_delay (base_delay * 2 ^ attempt) in delay + uniform s (min delay second)

-- `retryable_statuses or RETRYABLE_STATUS_CODES`
abbrev pub or_retryable : Option (List ℕ) → List ℕ
or_retryable none = retryable_status_codes
or_retryable (some []) = retryable_status_codes
or_retryable (some (c ∷ cs)) = c ∷ cs

-- Whether an outcome is tried again while attempts are left.
unfoldable pub is_retryable : {A : Type 0} → List ℕ → Outcome A → Bool
is_retryable statuses (returned a) = false
is_retryable statuses (client_error status) = is_listed status statuses
is_retryable statuses connection_error = true
is_retryable statuses other_error = false

-- What a loop ends with: the last outcome, the state, and the delays that were slept.
pub record Ended (A S : Type 0) : Type 0 where
  pub outcome : Outcome A
  pub state : S
  pub delays : List ℕ

abbrev pub slept : {A S : Type 0} → ℕ → Option (Ended A S) → Option (Ended A S)
slept delay none = none
slept delay (some e) = some (record e { delays = delay ∷ e.delays })

module _ {A S : Type 0} (uniform : S → ℕ → ℕ) (fn : S → Outcome A × S)
    (max_attempts base_delay max_delay : ℕ) where
  -- The `while True` from an attempt on; `none` is out of fuel.
  unfoldable pub retry_from : List ℕ → ℕ → ℕ → S → Option (Ended A S)
  retry_from statuses zero attempt s = none
  retry_from statuses (suc fuel) attempt s =
      let (outcome, s') = fn s in
      let again =
        slept (exponential_delay uniform s' (attempt + 1) base_delay max_delay)
          (retry_from statuses fuel (attempt + 1) s') in
      let over = some (record { outcome = outcome; state = s'; delays = [] }) in
      if is_retryable statuses outcome && not (leb (max_attempts - 1) attempt) then again else over

  unfoldable pub retry : Option (List ℕ) → S → Option (Ended A S)
  unfolding retry_from
  retry retryable_statuses s = retry_from (or_retryable retryable_statuses) (max 1 max_attempts) 0 s

-- `_request`: a response whose status is listed is raised with its status.
abbrev pub guarded : {S : Type 0} → (S → ℕ × S) → S → Outcome ℕ × S
guarded server s =
    let (status, s') = server s in
    if contains status retryable_status_codes
    then (client_error (some status), s')
    else (returned status, s')

-- The outcome of a loop as the outcome of a call; the fuel of `retry` never runs out.
abbrev pub as_outcome : {A S : Type 0} → S → Option (Ended A S) → Outcome A × S
as_outcome s none = (other_error, s)
as_outcome s (some e) = (e.outcome, e.state)

module _ {S : Type 0} (uniform : S → ℕ → ℕ) where
  -- `retry(fn)`, with the defaults of its parameters
  abbrev pub five_attempts : {A : Type 0} → (S → Outcome A × S) → S → Option (Ended A S)
  five_attempts fn s = retry uniform fn 5 second (30 * second) none s

  unfoldable pub request : (S → ℕ × S) → S → Outcome ℕ × S
  unfolding retry is_retryable exponential_delay
  request server s = as_outcome s (five_attempts (guarded server) s)

  -- The completion of `upload_large_file`: `retry(lambda: self._request("POST", …))`
  unfoldable pub complete_request : (S → ℕ × S) → S → Outcome ℕ × S
  unfolding request retry is_retryable exponential_delay
  complete_request server s = as_outcome s (five_attempts (request server) s)

-- ===== src/Sdk/Retry/Nested.antt =====
-- sdk/pyuploadx/client.py: the completion of `upload_large_file` retries a request that retries.
use pyupload_x.Base.{ℕ, zero, suc, ◌+◌, ◌*◌, ◌≡◌, refl, ap, ◌∙◌, true, arith, contains, none}
use pyupload_x.Sdk.Retry.{
  second, Outcome, is_retryable, Ended, retryable_status_codes, five_attempts, guarded, as_outcome,
  request, complete_request,
}
use pyupload_x.Sdk.Retry.Attempts.{state_after, outcome_after, IsEnd, retry-ends}

module _ {A S : Type 0} (uniform : S → ℕ → ℕ) (fn : S → Outcome A × S)
    (fails : (s : S) → is_retryable retryable_status_codes (fn s).0 ≡ true) where
  -- A call that always fails is made five times.
  five_attempts-failing :
      (s : S)
      → as_outcome s (five_attempts uniform fn s) ≡ (outcome_after fn 4 s, state_after fn 5 s)
  five_attempts-failing s =
      let (e, again, runs, end) = retry-ends uniform fn 5 second (30 * second) none s in
      let all_made : again ≡ 4 = made e again end in
      rw runs (
        pair_eq (end.last ∙ ap (λ k. outcome_after fn k s) all_made)
          (end.state ∙ ap (λ k. state_after fn (suc k) s) all_made))
    where
      made :
          (e : Ended A S) (again : ℕ)
          → IsEnd uniform fn 5 second (30 * second) retryable_status_codes 0 s e again
          → again ≡ 4
      made e again end = ground (arith, fails (state_after fn again s))

      pair_eq :
          {o o' : Outcome A} {x x' : S} → o ≡ o' → x ≡ x' → ◌≡◌ {A = Outcome A × S} (o, x) (o', x')
      pair_eq p q = cc

module _ {S : Type 0} (uniform : S → ℕ → ℕ) (server : S → ℕ × S) where
  -- the state after some requests
  abbrev pub served : ℕ → S → S
  served zero s = s
  served (suc k) s = served k (server s).1

  served-add : (k m : ℕ) (s : S) → served m (served k s) ≡ served (k + m) s
  served-add zero m s = ap (λ j. served j s) {x = m} {y = 0 + m} (omega arith)
  served-add (suc k) m s =
      served-add k m (server s).1
      ∙ ap (λ j. served j s) {x = suc (k + m)} {y = suc k + m} (omega arith)

  abbrev pub AlwaysFails : Type 0
  AlwaysFails = (s : S) → contains (server s).0 retryable_status_codes ≡ true

  guarded-fails :
      AlwaysFails
      → (s : S)
      → (is_retryable retryable_status_codes (guarded server s).0 ≡ true)
        × ((guarded server s).1 ≡ (server s).1)
  unfolding is_retryable
  guarded-fails fails s = rw (fails s) (fails s, refl)

  state_after-guarded :
      AlwaysFails → (k : ℕ) (s : S) → state_after (guarded server) k s ≡ served k s
  state_after-guarded fails zero s = refl
  state_after-guarded fails (suc k) s =
      state_after-guarded fails k (guarded server s).1 ∙ ap (served k) (guarded-fails fails s).1

  request-fails :
      AlwaysFails
      → (s : S)
      → (is_retryable retryable_status_codes (request uniform server s).0 ≡ true)
        × ((request uniform server s).1 ≡ served 5 s)
  unfolding request
  request-fails fails s =
      let once : (x : S) → is_retryable retryable_status_codes (guarded server x).0 ≡ true =
        λ x. (guarded-fails fails x).0 in
      rw (five_attempts-failing uniform (guarded server) once s)
        (once (state_after (guarded server) 4 s), state_after-guarded fails 5 s)

  state_after-request :
      AlwaysFails → (k : ℕ) (s : S) → state_after (request uniform server) k s ≡ served (k * 5) s
  state_after-request fails zero s = refl
  state_after-request fails (suc k) s =
      state_after-request fails k (request uniform server s).1
      ∙ ap (served (k * 5)) (request-fails fails s).1
      ∙ served-add 5 (k * 5) s
      ∙ ap (λ j. served j s) {x = 5 + k * 5} {y = suc k * 5} (omega arith)

  -- Where the server answers every request with a status that is tried again, the completion of an
  -- upload sends twenty-five requests before it raises, five times five, and not five.
  pub complete_request-fails :
      AlwaysFails
      → (s : S)
      → (is_retryable retryable_status_codes (complete_request uniform server s).0 ≡ true)
        × ((complete_request uniform server s).1 ≡ served 25 s)
  unfolding complete_request
  complete_request-fails fails s =
      let each : (x : S) → is_retryable retryable_status_codes (request uniform server x).0 ≡ true =
        λ x. (request-fails fails x).0 in
      rw (five_attempts-failing uniform (request uniform server) each s)
        (each (state_after (request uniform server) 4 s), state_after-request fails 5 s)

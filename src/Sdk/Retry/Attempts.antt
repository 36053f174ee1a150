-- ===== src/Sdk/Retry/Attempts.antt =====
-- sdk/pyuploadx/retry.py: how often a call is made, and what is returned.
use pyupload_x.Base.{
  ℕ, zero, suc, ◌+◌, ◌-◌, ◌*◌, ◌^◌, ◌<◌, max, ◌≡◌, refl, ◌⊎◌, inl, inr, true, false, not, ◌&&◌,
  some, List, [], ◌∷◌, arith, leb, Bool-cases, min, length, Option, ◌≤◌, subst, sym,
}
use pyupload_x.Sdk.Retry.{
  second, or_retryable, slept, Outcome, is_retryable, exponential_delay, Ended, retry_from, retry,
}

module _ {A S : Type 0} (fn : S → Outcome A × S) where
  -- the state after some calls, and the outcome of the call after them
  abbrev pub state_after : ℕ → S → S
  state_after zero s = s
  state_after (suc k) s = state_after k (fn s).1

  abbrev pub outcome_after : ℕ → S → Outcome A
  outcome_after k s = (fn (state_after k s)).0

-- Before the n-th further call the delay is the formula's, and at most a second, and at most the
-- formula's again, longer.
abbrev pub AreBackoffs : ℕ → ℕ → ℕ → List ℕ → Type 0
AreBackoffs base_delay max_delay n [] = Unit
AreBackoffs base_delay max_delay n (d ∷ ds) =
    let least = min max_delay (base_delay * 2 ^ n) in
    (least ≤ d) × (d ≤ least + min least second) × AreBackoffs base_delay max_delay (n + 1) ds

module _ {A S : Type 0} (uniform : S → ℕ → ℕ) (fn : S → Outcome A × S)
    (max_attempts base_delay max_delay : ℕ) (statuses : List ℕ) where
  -- What ends after `again` retries from an attempt on.
  pub record IsEnd (attempt : ℕ) (s : S) (e : Ended A S) (again : ℕ) : Type 0 where
    pub within : attempt + again < max 1 max_attempts
    pub last : e.outcome ≡ outcome_after fn again s
    pub state : e.state ≡ state_after fn (suc again) s
    pub retried : (j : ℕ) → j < again → is_retryable statuses (outcome_after fn j s) ≡ true
    pub given_up :
        (is_retryable statuses e.outcome ≡ false) ⊎ (attempt + again + 1 ≡ max 1 max_attempts)
    pub slept : length e.delays ≡ again

  retry_from-IsEnd :
      (fuel attempt : ℕ) (s : S)
      → attempt + fuel ≡ max 1 max_attempts
      → 0 < fuel
      → (e : Ended A S) × (again : ℕ) × (retry_from uniform fn max_attempts base_delay max_delay
            statuses fuel attempt s
          ≡ some e)
        × IsEnd attempt s e again
  unfolding retry_from
  retry_from-IsEnd zero attempt s h k = absurd (omega arith)
  retry_from-IsEnd (suc fuel) attempt s h k =
      elim (Bool-cases (is_retryable statuses (fn s).0 && not (leb (max_attempts - 1) attempt))) [
        | inr e ↦ rw e (
          record { outcome = (fn s).0; state = (fn s).1; delays = [] },
          0,
          refl,
          record {
            within = omega arith;
            last = refl;
            state = refl;
            retried = λ j l. absurd (omega arith);
            given_up = elim (Bool-cases (is_retryable statuses (fn s).0)) [
              | inr n ↦ inl n
              | inl y ↦ inr (ground arith)
            ];
            slept = refl;
          },
        )
        | inl e ↦ rw e (
            let later : attempt < max_attempts - 1 = ground arith in
            let (x, again, runs, end) =
              retry_from-IsEnd fuel (attempt + 1) (fn s).1 (omega arith) (omega arith) in
            (
              record x {
                delays =
                    exponential_delay uniform (fn s).1 (attempt + 1) base_delay max_delay
                    ∷ x.delays;
              },
              suc again,
              rw runs refl,
              record {
                within = omega (arith, end.within);
                last = end.last;
                state = end.state;
                retried = before again (ground arith) end.retried;
                given_up = ground (arith, end.given_up);
                slept = omega (arith, end.slept);
              },
            ))
      ]
    where
      before :
          (again : ℕ)
          → is_retryable statuses (fn s).0 ≡ true
          → ((j : ℕ) → j < again → is_retryable statuses (outcome_after fn j (fn s).1) ≡ true)
          → (j : ℕ) → j < suc again
          → is_retryable statuses (outcome_after fn j s) ≡ true
      before again first more zero l = first
      before again first more (suc j) l = more j (omega arith)

  retry_from-AreBackoffs :
      ((s : S) (b : ℕ) → uniform s b ≤ b)
      → (fuel attempt : ℕ) (s : S) (e : Ended A S)
      → retry_from uniform fn max_attempts base_delay max_delay statuses fuel attempt s ≡ some e
      → AreBackoffs base_delay max_delay (attempt + 1) e.delays
  unfolding retry_from exponential_delay
  retry_from-AreBackoffs h zero attempt s e runs = cc
  retry_from-AreBackoffs h (suc fuel) attempt s e runs =
      elim (Bool-cases (is_retryable statuses (fn s).0 && not (leb (max_attempts - 1) attempt))) [
        | inr over ↦
            let none_slept : e.delays ≡ [] = ground arith in
            subst (AreBackoffs base_delay max_delay (attempt + 1)) (sym none_slept) tt
        | inl again ↦
            let least = min max_delay (base_delay * 2 ^ (attempt + 1)) in
            let drawn = uniform (fn s).1 (min least second) in
            let rest =
              retry_from uniform fn max_attempts base_delay max_delay statuses fuel (attempt + 1)
                (fn s).1 in
            let (x, later, all_slept) = slept-some (least + drawn) rest e (ground arith) in
            subst (AreBackoffs base_delay max_delay (attempt + 1)) (sym all_slept) (
              omega arith,
              omega (arith, h (fn s).1 (min least second)),
              retry_from-AreBackoffs h fuel (attempt + 1) (fn s).1 x later,
            )
      ]
    where
      slept-some :
          (delay : ℕ) (o : Option (Ended A S)) (e : Ended A S)
          → slept delay o ≡ some e
          → (x : Ended A S) × (o ≡ some x) × (e.delays ≡ delay ∷ x.delays)
      slept-some delay Option.none e k = cc
      slept-some delay (some x) e k = (x, refl, ground arith)

module _ {A S : Type 0} (uniform : S → ℕ → ℕ) (fn : S → Outcome A × S)
    (max_attempts base_delay max_delay : ℕ) (retryable_statuses : Option (List ℕ)) where
  -- The loop always ends, whatever is drawn.
  pub retry-ends :
      (s : S)
      → (e : Ended A S) × (again : ℕ) × (retry uniform fn max_attempts base_delay max_delay
            retryable_statuses s
          ≡ some e)
        × IsEnd uniform fn max_attempts base_delay max_delay
            (or_retryable retryable_statuses)
            0
            s
            e
            again
  unfolding retry
  retry-ends s =
      retry_from-IsEnd uniform fn max_attempts base_delay max_delay
        (or_retryable retryable_statuses) (max 1 max_attempts) 0 s (omega arith) (omega arith)

  -- The loop of `retry` always ends, after at most as many calls as are allowed, and one if none is:
  -- every call but the last ended in a way that is tried again, the last one's outcome is returned,
  -- and it is not of that kind or was the last allowed. One delay is slept before each further call,
  -- between the least of `max_delay` and `base_delay * 2 ** n` and a random part more, which is at
  -- most a second and at most that least, provided that `random.uniform(0, b)` is at most `b`.
  pub retry-IsEnd :
      (s : S)
      → ((x : S) (b : ℕ) → uniform x b ≤ b)
      → (e : Ended A S) × (again : ℕ) × (retry uniform fn max_attempts base_delay max_delay
            retryable_statuses s
          ≡ some e)
        × IsEnd uniform fn max_attempts base_delay max_delay
            (or_retryable retryable_statuses)
            0
            s
            e
            again
        × AreBackoffs base_delay max_delay 1 e.delays
  unfolding retry
  retry-IsEnd s h =
      let (e, again, runs, end) = retry-ends s in
      (
        e,
        again,
        runs,
        end,
        retry_from-AreBackoffs uniform fn max_attempts base_delay max_delay
            (or_retryable retryable_statuses) h (max 1 max_attempts) 0 s e runs,
      )

-- ===== src/Overrides/Bounds/Steps.antt =====
-- `update` of app/services/setting_service.py: each step keeps what is in force within its limits.
use pyupload_x.Base.{
  ℕ, ◌+◌, ◌≡◌, refl, subst, inl, inr, Bool, true, false, not, ◌||◌, Option, none, some, List, arith,
  leb, Bool-cases, length, Text, contains_text,
}
use pyupload_x.Base.Int.{ℤ, pos, pos_part, neg_part}
use pyupload_x.Errors.{Result, ok, err, Result-cases}
use pyupload_x.Config.{Settings}
use pyupload_x.Lifecycle.Policy.{or_else}
use pyupload_x.Request.{World, Action, continue, ◌>>◌}
use pyupload_x.Request.Settings.{int_override}
use pyupload_x.Ranges.Number.{strip, decimal, max_digits}
use pyupload_x.Overrides.Values.{Value, null, text, int_field, str_of}
use pyupload_x.Overrides.Effective.{EffectiveSettings, get_effective}
use pyupload_x.Overrides.Update.{
  is_blank, within, mode_refused, action_refused, default_modes, store_number, store_unless_null,
  store_if_given, store_mode, store_bucket, set_value, checked_ttl, ttl_within,
}
use pyupload_x.Overrides.Stored.{
  NumberSetting, presign, max_file_size, direct_threshold, part_size, session_expiry, key_of,
  configured, is_allowed, with_number, int_of-str_of, get_effective-number, get_effective-bucket,
  get_effective-mode, text_override-mode,
}

abbrev pub ttl_refused : ℕ → ℕ → Option ℤ → Bool
ttl_refused lo hi none = false
ttl_refused lo hi (some z) = not (within lo hi z)

-- Each number within its limits, the mode one of the three, and the policy one of those allowed.
abbrev pub IsWithin : Settings → EffectiveSettings → Type 0
IsWithin settings e =
    (is_allowed settings presign e.presign_default_expires_seconds ≡ true)
    × (is_allowed settings max_file_size e.maximum_file_size_bytes ≡ true)
    × (is_allowed settings direct_threshold e.direct_upload_threshold_bytes ≡ true)
    × (is_allowed settings part_size e.default_part_size_bytes ≡ true)
    × (is_allowed settings session_expiry e.expires_after_seconds ≡ true)
    × (contains_text e.default_mode default_modes ≡ true)
    × (mode_refused e.default_policy.mode settings.lifecycle.policy.allowed_modes ≡ false)
    × (action_refused e.default_policy.action settings.lifecycle.policy.allowed_actions ≡ false)
    × (ttl_refused settings.lifecycle.policy.minimum_ttl_seconds
          settings.lifecycle.policy.maximum_ttl_seconds e.default_policy.ttl_seconds
        ≡ false)

IsWithin-number :
    (settings : Settings) (n : NumberSetting) (z : ℤ) (e : EffectiveSettings)
    → is_allowed settings n z ≡ true
    → IsWithin settings e
    → IsWithin settings (with_number n z e)
IsWithin-number settings presign z e k h = (k, h.1, h.2, h.3, h.4, h.5, h.6, h.7, h.8)
IsWithin-number settings max_file_size z e k h = (h.0, k, h.2, h.3, h.4, h.5, h.6, h.7, h.8)
IsWithin-number settings direct_threshold z e k h = (h.0, h.1, k, h.3, h.4, h.5, h.6, h.7, h.8)
IsWithin-number settings part_size z e k h = (h.0, h.1, h.2, k, h.4, h.5, h.6, h.7, h.8)
IsWithin-number settings session_expiry z e k h = (h.0, h.1, h.2, h.3, k, h.5, h.6, h.7, h.8)

-- A number that was written is in force, or that of the configuration where it is too long to read.
int_override-str_of :
    (allowed : ℤ → Bool) (z : ℤ) (fallback : ℕ)
    → allowed z ≡ true
    → allowed (pos fallback) ≡ true
    → allowed (int_override (some (str_of z)) fallback) ≡ true
int_override-str_of allowed z fallback h k =
    rw (int_of-str_of z)
      (elim (Bool-cases (leb (length (decimal (pos_part z + neg_part z))) max_digits)) [
        | inl e ↦ rw e h
        | inr e ↦ rw e k
      ])

pub or_else-refused :
    {A : Type 0} (refused : Option A → Bool) (o old : Option A)
    → refused o ≡ false
    → refused old ≡ false
    → refused (or_else o old) ≡ false
or_else-refused refused none old h k = k
or_else-refused refused (some a) old h k = h

ttl_within-allowed :
    (lo hi : ℕ) (r : Result ℤ) (ttl : Option ℤ)
    → ttl_within lo hi r ≡ ok ttl
    → ttl_refused lo hi ttl ≡ false
ttl_within-allowed lo hi (err e) ttl h = cc
ttl_within-allowed lo hi (ok z) ttl h = elim (Bool-cases (within lo hi z)) [
  | inl g ↦
      let same : some z ≡ ttl = ground arith in
      subst (λ (o : Option ℤ). ttl_refused lo hi o ≡ false) same (rw g refl)
  | inr g ↦ ground arith
]

pub checked_ttl-allowed :
    (lo hi : ℕ) (v : Value) (ttl : Option ℤ)
    → checked_ttl lo hi v ≡ ok ttl
    → ttl_refused lo hi ttl ≡ false
checked_ttl-allowed lo hi null ttl h =
    let same : none ≡ ttl = cc in subst (λ (o : Option ℤ). ttl_refused lo hi o ≡ false) same refl
checked_ttl-allowed lo hi v ttl h = ttl_within-allowed lo hi (int_field v) ttl h

-- An action that keeps a property of the state, whether it returns or raises.
abbrev pub Keeps : {S A : Type 0} → (World S → Type 0) → Action S A → Type 0
Keeps {S} P m = (w : World S) → P w → P (m w).1

module _ {S : Type 0} (P : World S → Type 0) where
  Keeps-continue :
      {A B : Type 0} (r : Result A) (f : A → Action S B) (w : World S)
      → ((a : A) → Keeps P (f a))
      → P w
      → P (continue r f w).1
  Keeps-continue (ok a) f w k h = k a w h
  Keeps-continue (err e) f w k h = h

  pub Keeps-then :
      {A B : Type 0} (m : Action S A) (n : Action S B) → Keeps P m → Keeps P n → Keeps P (m >> n)
  Keeps-then m n k l w h = Keeps-continue (m w).0 (λ a. n) (m w).1 (λ a. l) (k w h)

module _ {S : Type 0} (settings : Settings) where
  abbrev pub IsHeld : World S → Type 0
  IsHeld w = IsWithin settings (get_effective settings w.db)

  -- `allowed` holds of the configuration, which counts where a number is too long to be read.
  store_number-IsHeld :
      (n : NumberSetting) (v : Value)
      → is_allowed settings n (pos (configured settings n)) ≡ true
      → Keeps IsHeld (store_number {S = S} (key_of n) (is_allowed settings n) v)
  unfolding store_number set_value
  store_number-IsHeld n v fallback w h = elim (Result-cases (int_field v)) [
    | inr (e, f) ↦ rw f h
    | inl (z, f) ↦ rw f (elim (Bool-cases (is_allowed settings n z)) [
      | inr g ↦ rw g h
      | inl g ↦
          rw (g, get_effective-number settings w.db (str_of z) n)
            (IsWithin-number settings n (int_override (some (str_of z)) (configured settings n))
              (get_effective settings w.db)
              (int_override-str_of (is_allowed settings n) z (configured settings n) g fallback) h)
    ])
  ]

  pub store_unless_null-IsHeld :
      (n : NumberSetting) (v : Value)
      → is_allowed settings n (pos (configured settings n)) ≡ true
      → Keeps IsHeld (store_unless_null {S = S} (key_of n) (is_allowed settings n) v)
  store_unless_null-IsHeld n null fallback w h = h
  store_unless_null-IsHeld n v fallback w h = store_number-IsHeld n v fallback w h

  pub store_if_given-IsHeld :
      (n : NumberSetting) (v : Option Value)
      → is_allowed settings n (pos (configured settings n)) ≡ true
      → Keeps IsHeld (store_if_given {S = S} (key_of n) (is_allowed settings n) v)
  store_if_given-IsHeld n none fallback w h = h
  store_if_given-IsHeld n (some v) fallback w h = store_number-IsHeld n v fallback w h

  pub store_mode-IsHeld : (v : Value) → Keeps IsHeld (store_mode {S = S} v)
  unfolding store_mode set_value
  store_mode-IsHeld null w h = h
  store_mode-IsHeld (text s) w h = elim (Bool-cases (contains_text s default_modes)) [
    | inr g ↦ rw g h
    | inl g ↦
        rw
          (
            g,
            get_effective-mode settings w.db s,
            text_override-mode s settings.uploads.default_mode g,
          )
          (h.0, h.1, h.2, h.3, h.4, g, h.6, h.7, h.8)
  ]
  store_mode-IsHeld _ w h = h

  pub store_bucket-IsHeld :
      (buckets : List Text) (v : Value) → Keeps IsHeld (store_bucket {S = S} buckets v)
  unfolding store_bucket set_value
  store_bucket-IsHeld buckets null w h = h
  store_bucket-IsHeld buckets (text s) w h =
      elim (Bool-cases (is_blank (strip s) || not (contains_text (strip s) buckets))) [
        | inl g ↦ rw g h
        | inr g ↦ rw (g, get_effective-bucket settings w.db (strip s)) h
      ]
  store_bucket-IsHeld buckets _ w h = h

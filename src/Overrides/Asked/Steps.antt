-- ===== src/Overrides/Asked/Steps.antt =====
-- `update` of app/services/setting_service.py: what each step leaves in force.
use pyupload_x.Base.{
  ℕ, ◌≡◌, refl, ap, subst, ◌∙◌, inl, inr, true, not, ◌||◌, Option, none, some, List, arith,
  Bool-cases, Text, contains_text,
}
use pyupload_x.Base.Int.{ℤ}
use pyupload_x.Errors.{Result, ok, err, Result-cases}
use pyupload_x.Config.{Settings}
use pyupload_x.Request.{World, Action, continue, ◌>>◌}
use pyupload_x.Request.Settings.{int_override}
use pyupload_x.Ranges.Number.{strip}
use pyupload_x.Overrides.Values.{Value, null, text, int_field, str_of}
use pyupload_x.Overrides.Effective.{EffectiveSettings, get_effective}
use pyupload_x.Overrides.Update.{
  default_modes, is_blank, store_number, store_unless_null, store_if_given, store_mode,
  store_bucket, set_value,
}
use pyupload_x.Overrides.Stored.{
  NumberSetting, presign, max_file_size, direct_threshold, part_size, session_expiry, key_of,
  configured, is_allowed, number_at, with_number, int_of-str_of, get_effective-number,
  get_effective-bucket, get_effective-mode, text_override-mode, text_override-solid,
}
use pyupload_x.Overrides.Asked.Body.{
  or_before, asked_number, asked_if_given, asked_bucket, asked_mode, is_short, is_short_if_given,
}

written-number :
    (z : ℤ) (fallback : ℕ) → is_short (ok z) ≡ true → int_override (some (str_of z)) fallback ≡ z
written-number z fallback h = rw (int_of-str_of z, h) refl

with_number-same : (n : NumberSetting) (e : EffectiveSettings) → e ≡ with_number n (number_at n e) e
with_number-same presign e = refl
with_number-same max_file_size e = refl
with_number-same direct_threshold e = refl
with_number-same part_size e = refl
with_number-same session_expiry e = refl

module _ {S : Type 0} (settings : Settings) where
  -- What an action leaves in force when it returns, from what was in force before.
  abbrev pub Leaves :
      {A : Type 0}
      → (EffectiveSettings → EffectiveSettings)
      → EffectiveSettings
      → Result A
      → World S
      → Type 0
  Leaves f before (err e) v = Unit
  Leaves f before (ok a) v = get_effective settings v.db ≡ f before

  abbrev pub Makes : {A : Type 0} → (EffectiveSettings → EffectiveSettings) → Action S A → Type 0
  Makes f m = (w : World S) → Leaves f (get_effective settings w.db) (m w).0 (m w).1

  Leaves-continue :
      {A B : Type 0} (f g : EffectiveSettings → EffectiveSettings) (before : EffectiveSettings)
      (r : Result A) (n : Action S B) (v : World S)
      → Leaves f before r v
      → Makes g n
      → Leaves (λ e. g (f e)) before (continue r (λ a. n) v).0 (continue r (λ a. n) v).1
  Leaves-continue f g before (err e) n v h k = tt
  Leaves-continue f g before (ok a) n v h k =
      subst (λ (b : EffectiveSettings). Leaves g b (n v).0 (n v).1) h (k v)

  pub Makes-then :
      {A B : Type 0} (f g : EffectiveSettings → EffectiveSettings) (m : Action S A) (n : Action S B)
      → Makes f m
      → Makes g n
      → Makes (λ e. g (f e)) (m >> n)
  Makes-then f g m n h k w =
      Leaves-continue f g (get_effective settings w.db) (m w).0 n (m w).1 (h w) k

  store_number-Makes :
      (n : NumberSetting) (v : Value)
      → is_short (int_field v) ≡ true
      → Makes
          (λ e. with_number n (or_before (int_field v) (number_at n e)) e)
          (store_number (key_of n) (is_allowed settings n) v)
  unfolding store_number set_value
  store_number-Makes n v short w = elim (Result-cases (int_field v)) [
    | inr (e, f) ↦ rw f tt
    | inl (z, f) ↦ elim (Bool-cases (is_allowed settings n z)) [
      | inr g ↦ rw (f, g) tt
      | inl g ↦
          rw (f, g)
            (get_effective-number settings w.db (str_of z) n
              ∙ ap (λ y. with_number n y (get_effective settings w.db))
                  (written-number z (configured settings n)
                    (subst (λ (r : Result ℤ). is_short r ≡ true) f short)))
    ]
  ]

  pub store_unless_null-Makes :
      (n : NumberSetting) (v : Value)
      → is_short (int_field v) ≡ true
      → Makes
          (λ e. with_number n (asked_number v (number_at n e)) e)
          (store_unless_null (key_of n) (is_allowed settings n) v)
  store_unless_null-Makes n null short w = with_number-same n (get_effective settings w.db)
  store_unless_null-Makes n v short w = store_number-Makes n v short w

  pub store_if_given-Makes :
      (n : NumberSetting) (v : Option Value)
      → is_short_if_given v ≡ true
      → Makes
          (λ e. with_number n (asked_if_given v (number_at n e)) e)
          (store_if_given (key_of n) (is_allowed settings n) v)
  store_if_given-Makes n none short w = with_number-same n (get_effective settings w.db)
  store_if_given-Makes n (some v) short w = store_number-Makes n v short w

  pub store_mode-Makes :
      (v : Value)
      → Makes (λ e. record e { default_mode = asked_mode v e.default_mode }) (store_mode v)
  unfolding store_mode set_value
  store_mode-Makes null w = refl
  store_mode-Makes (text s) w = elim (Bool-cases (contains_text s default_modes)) [
    | inr g ↦ rw g tt
    | inl g ↦ rw g (
        get_effective-mode settings w.db s
        ∙ ap (λ t. record (get_effective settings w.db) { default_mode = t })
            (text_override-mode s settings.uploads.default_mode g))
  ]
  store_mode-Makes _ w = tt

  pub store_bucket-Makes :
      (buckets : List Text) (v : Value)
      → Makes
          (λ e. record e { default_bucket = asked_bucket v e.default_bucket })
          (store_bucket buckets v)
  unfolding store_bucket set_value
  store_bucket-Makes buckets null w = refl
  store_bucket-Makes buckets (text s) w =
      elim (Bool-cases (is_blank (strip s) || not (contains_text (strip s) buckets))) [
        | inl g ↦ rw g tt
        | inr g ↦ rw g (
            get_effective-bucket settings w.db (strip s)
            ∙ ap (λ t. record (get_effective settings w.db) { default_bucket = t })
                (text_override-solid (strip s) settings.storage.default_bucket (ground arith)))
      ]
  store_bucket-Makes buckets _ w = tt

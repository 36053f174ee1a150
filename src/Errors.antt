-- ===== src/Errors.antt =====
-- app/core/errors.py: the errors that a request can end with. `Error` has a constructor for each
-- code; one that the source raises with several messages has one constructor, since the message is
-- only shown. `exception` is a Python exception that no handler of the program maps to a response.
use pyupload_x.Base.{◌≡◌, refl, ◌⊎◌, inl, inr, ℕ, Bool, true, false, List, Text}
use pyupload_x.Base.Int.{ℤ}

pub data PyException : Type 0 where
  value_error integrity_error zero_division type_error file_not_found os_error overflow_error :
      PyException

pub data Error : Type 0 where
  upload_not_found upload_already_completed upload_aborted upload_expired : Error
  upload_state_conflict refresh_disabled : Error
  invalid_part_number : ℤ → ℕ → Error
  invalid_part_size : ℤ → ℕ → ℕ → Error
  missing_parts : List ℕ → Error
  part_etag_mismatch : ℕ → Error
  checksum_mismatch : Error
  object_already_exists : Text → Text → Error
  invalid_relative_path : Error
  duplicate_normalized_path : Text → Error
  manifest_incomplete manifest_hash_mismatch : Error
  directory_has_failed_entries : ℕ → Error
  directory_upload_not_found directory_upload_disabled entry_not_found : Error
  too_many_entries invalid_conflict_policy : Error
  invalid_lifecycle_policy : Error
  ttl_out_of_range : ℤ → ℤ → ℤ → Error
  file_under_legal_hold : Error
  storage_capability_not_supported : Text → Error
  storage_unavailable database_unavailable : Error
  authentication_required forbidden : Error
  invalid_bucket invalid_file_size too_many_parts invalid_upload_mode : Error
  file_too_large : ℤ → Error
  presign_batch_too_large : ℕ → Error
  file_not_found range_not_satisfiable : Error
  invalid_bucket_name bucket_already_exists bucket_not_deletable : Error
  bucket_not_found bucket_not_empty : Error
  invalid_settings : Error
  permanent_link_disabled permanent_link_not_configured : Error
  exception : PyException → Error

pub data Result {κ} (T : Type κ) : Type κ where
  err : Error → Result T
  ok : T → Result T

-- `if b: raise e`
abbrev pub raise_if : Bool → Error → Result (Unit {0})
raise_if true e = err e
raise_if false e = ok tt

-- What follows runs only if nothing was raised before it.
infixl 5 ◌>>=◌
abbrev pub ◌>>=◌ {κ ℓ} : {T : Type κ} {U : Type ℓ} (r : Result T) (next : T → Result U) → Result U
err e >>= next = err e
ok x >>= next = next x

infixl 5 ◌>>◌
abbrev pub ◌>>◌ {κ} : {U : Type κ} (check : Result (Unit {0})) (next : Result U) → Result U
check >> next = check >>= λ _. next

-- `status_code`; what no handler maps is a plain 500
unfoldable pub status_code : Error → ℕ
status_code Error.upload_not_found = 404
status_code Error.upload_already_completed = 409
status_code Error.upload_aborted = 409
status_code Error.upload_expired = 410
status_code Error.upload_state_conflict = 409
status_code Error.refresh_disabled = 409
status_code (Error.invalid_part_number _ _) = 400
status_code (Error.invalid_part_size _ _ _) = 400
status_code (Error.missing_parts _) = 409
status_code (Error.part_etag_mismatch _) = 409
status_code Error.checksum_mismatch = 409
status_code (Error.object_already_exists _ _) = 409
status_code Error.invalid_relative_path = 422
status_code (Error.duplicate_normalized_path _) = 409
status_code Error.manifest_incomplete = 409
status_code Error.manifest_hash_mismatch = 409
status_code (Error.directory_has_failed_entries _) = 409
status_code Error.directory_upload_not_found = 404
status_code Error.directory_upload_disabled = 409
status_code Error.entry_not_found = 404
status_code Error.too_many_entries = 422
status_code Error.invalid_conflict_policy = 422
status_code Error.invalid_lifecycle_policy = 422
status_code (Error.ttl_out_of_range _ _ _) = 422
status_code Error.file_under_legal_hold = 409
status_code (Error.storage_capability_not_supported _) = 501
status_code Error.storage_unavailable = 503
status_code Error.database_unavailable = 503
status_code Error.authentication_required = 401
status_code Error.forbidden = 403
status_code Error.invalid_bucket = 422
status_code Error.invalid_file_size = 422
status_code Error.too_many_parts = 422
status_code Error.invalid_upload_mode = 422
status_code (Error.file_too_large _) = 422
status_code (Error.presign_batch_too_large _) = 422
status_code Error.file_not_found = 404
status_code Error.range_not_satisfiable = 416
status_code Error.invalid_bucket_name = 422
status_code Error.bucket_already_exists = 409
status_code Error.bucket_not_deletable = 403
status_code Error.bucket_not_found = 404
status_code Error.bucket_not_empty = 409
status_code Error.invalid_settings = 422
status_code Error.permanent_link_disabled = 501
status_code Error.permanent_link_not_configured = 501
status_code (Error.exception _) = 500

unfoldable pub retryable : Error → Bool
retryable Error.storage_unavailable = true
retryable Error.database_unavailable = true
retryable _ = false

pub ok-injective {κ} : {T : Type κ} {x y : T} → ok x ≡ ok y → x ≡ y
ok-injective e = cc

-- A result is a value or an error.
pub Result-cases {κ} :
    {T : Type κ} (r : Result T) → ((x : T) × (r ≡ ok x)) ⊎ ((e : Error) × (r ≡ err e))
Result-cases (err e) = inr (e, refl)
Result-cases (ok x) = inl (x, refl)

-- What a bind that returned was made of.
pub >>=-eq-ok {κ ℓ} :
    {T : Type κ} {U : Type ℓ} (r : Result T) (next : T → Result U) {y : U}
    → (r >>= next) ≡ ok y
    → (x : T) × (r ≡ ok x) × (next x ≡ ok y)
>>=-eq-ok (err e) next done = cc
>>=-eq-ok (ok x) next done = (x, refl, done)

-- A check that was passed.
pub raise_if-eq-ok {κ} :
    {U : Type κ} (b : Bool) (e : Error) (next : Result U) {y : U}
    → (raise_if b e >>= λ _. next) ≡ ok y
    → (b ≡ false) × (next ≡ ok y)
raise_if-eq-ok false e next done = (refl, done)
raise_if-eq-ok true e next done = cc

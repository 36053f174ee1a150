-- ===== src/Tests/Sessions.antt =====
-- A session that takes its two parts, or lacks one, is completed, aborted or expires.
use pyupload_x.Base.{
  ℕ, ◌≤◌, ◌≡◌, refl, true, false, none, some, List, [], ◌∷◌, arith, length, select, any, All,
  contains, text_eq, utf8_width, utf8_length, ◌+◌,
}
use pyupload_x.Base.Int.{pos}
use pyupload_x.Errors.{Result, ok, err}
use pyupload_x.Db.Rows.{UploadSession, FileObject}
use pyupload_x.Db.Uploads.{get_upload}
use pyupload_x.Request.{World, route}
use pyupload_x.Uploads.Create.{create_session}
use pyupload_x.Uploads.Parts.{proxy_upload_part}
use pyupload_x.Uploads.Complete.{complete, existing_file}
use pyupload_x.Uploads.Finish.{abort}
use pyupload_x.Uploads.Sound.{IsSound}
use pyupload_x.Errors.{missing_parts}
use pyupload_x.Buckets.{is_bucket_allowed}
use pyupload_x.Paths.{normalize_relative_path}
use pyupload_x.Request.Settings.{get_max_file_size, get_lifecycle_default}
use pyupload_x.Lifecycle.Policy.{compute_effective_lifecycle}
use pyupload_x.Uploads.Complete.Checks.{is_open}
use pyupload_x.Uploads.Missing.{IsMissing, complete-IsMissing}
use pyupload_x.Uploads.Afterwards.{complete-again, IsRefused, abort-IsRefused}
use pyupload_x.Uploads.Passes.{passes, passes-finish}
use pyupload_x.Uploads.Finish.{is_open_status, is_overdue, expire_upload_sessions}
use pyupload_x.Uploads.Sweep.{Swept, expire-Swept}
use pyupload_x.Uploads.Plan.{plan}
use pyupload_x.Uploads.Create.{new_row}
use pyupload_x.Uploads.Complete.{file_row}
use pyupload_x.Lifecycle.Policy.{or_value}
use pyupload_x.Db.Rows.{UploadMode}
use pyupload_x.Uploads.Completion.{is_row}
use pyupload_x.Uploads.Endings.{complete-has_parts}
use pyupload_x.Uploads.Sound.Runs.{
  creates, puts, completes, passes as later, Run, done, after, Run-IsSound, empty_db-IsSound,
}
use pyupload_x.Uploads.Geometry.{IsCreated, create_session-IsCreated}
use pyupload_x.Tests.Samples.{app, who, start, new_upload}

abbrev created : World ℕ
created = (route (create_session app who new_upload) start).1

abbrev one_part : World ℕ
one_part = (route (proxy_upload_part app who 0 (pos 1) (1 ∷ 2 ∷ 3 ∷ 4 ∷ []) 4 none) created).1

abbrev two_parts : World ℕ
two_parts = (route (proxy_upload_part app who 0 (pos 2) (5 ∷ 6 ∷ []) 2 none) one_part).1

two_parts-Run : Run app start two_parts
two_parts-Run =
    after
      (after (after done (creates who new_upload)) (puts who 0 (pos 1) (1 ∷ 2 ∷ 3 ∷ 4 ∷ []) 4 none))
      (puts who 0 (pos 2) (5 ∷ 6 ∷ []) 2 none)

Run-IsSound_example : IsSound two_parts.db
Run-IsSound_example = Run-IsSound app two_parts-Run empty_db-IsSound

abbrev row : World ℕ → UploadSession
row w = or_value (get_upload w.db 0 (some who.tenant_id)) (
    new_row app who new_upload
      (record {
        key = [];
        total_size = 0;
        part_size = 0;
        total_parts = 0;
        mode = UploadMode.proxy;
        effective = none;
      })
      none start)

abbrev ok_value : {A : Type 0} → A → Result A → A
ok_value d (ok a) = a
ok_value d (err e) = d

row_found : get_upload two_parts.db 0 (some who.tenant_id) ≡ some (row two_parts)
unfolding create_session proxy_upload_part get_upload plan existing_file complete abort
    is_bucket_allowed text_eq normalize_relative_path utf8_length utf8_width get_max_file_size
    compute_effective_lifecycle get_lifecycle_default
row_found = refl

row_new : existing_file app who (row two_parts) two_parts.db ≡ none
unfolding create_session proxy_upload_part get_upload plan existing_file complete abort
    is_bucket_allowed text_eq normalize_relative_path utf8_length utf8_width get_max_file_size
    compute_effective_lifecycle get_lifecycle_default
row_new = refl

two_parts-IsSound : IsSound two_parts.db
two_parts-IsSound = Run-IsSound app two_parts-Run empty_db-IsSound

abbrev whole : FileObject
whole =
    ok_value
      (file_row app who (row two_parts)
        (record { bucket = []; object_key = []; size_bytes = 0; etag = none }) 0)
      (complete app who 0 two_parts).0

abbrev ended : World ℕ
ended = (complete app who 0 two_parts).1

completed : complete app who 0 two_parts ≡ (ok whole, ended)
unfolding create_session proxy_upload_part get_upload plan existing_file complete abort
    is_bucket_allowed text_eq normalize_relative_path utf8_length utf8_width get_max_file_size
    compute_effective_lifecycle get_lifecycle_default
completed = refl

complete-has_parts_example : any (is_row 0 1) two_parts.db.parts ≡ true
unfolding create_session proxy_upload_part get_upload plan existing_file complete abort
    is_bucket_allowed text_eq normalize_relative_path utf8_length utf8_width get_max_file_size
    compute_effective_lifecycle get_lifecycle_default
complete-has_parts_example =
    complete-has_parts app who 0 two_parts (row two_parts) whole ended 1 two_parts-IsSound row_found
      row_new completed (omega arith) (omega arith)

lacking : any (is_row 0 2) one_part.db.parts ≡ false
unfolding create_session proxy_upload_part get_upload plan existing_file complete abort
    is_bucket_allowed text_eq normalize_relative_path utf8_length utf8_width get_max_file_size
    compute_effective_lifecycle get_lifecycle_default
lacking = refl

one_part-Run : Run app start one_part
one_part-Run =
    after (after done (creates who new_upload)) (puts who 0 (pos 1) (1 ∷ 2 ∷ 3 ∷ 4 ∷ []) 4 none)

one_found : get_upload one_part.db 0 (some who.tenant_id) ≡ some (row one_part)
unfolding create_session proxy_upload_part get_upload plan existing_file complete abort
    is_bucket_allowed text_eq normalize_relative_path utf8_length utf8_width get_max_file_size
    compute_effective_lifecycle get_lifecycle_default
one_found = refl

one_open : is_open (row one_part).status ≡ true
unfolding create_session proxy_upload_part get_upload plan existing_file complete abort
    is_bucket_allowed text_eq normalize_relative_path utf8_length utf8_width get_max_file_size
    compute_effective_lifecycle get_lifecycle_default
one_open = refl

one-IsMissing : IsMissing (row one_part) one_part.db 2
unfolding create_session proxy_upload_part get_upload plan existing_file complete abort
    is_bucket_allowed text_eq normalize_relative_path utf8_length utf8_width get_max_file_size
    compute_effective_lifecycle get_lifecycle_default
one-IsMissing = (omega arith, omega arith, refl)

complete-IsMissing_example :
    (ms : List ℕ) × (complete app who 0 one_part ≡ (err (missing_parts ms), one_part))
    × (contains 2 ms ≡ true)
    × All (IsMissing (row one_part) one_part.db) ms
complete-IsMissing_example =
    complete-IsMissing app who 0 one_part (row one_part) 2
      (Run-IsSound app one_part-Run empty_db-IsSound) one_found one_open one-IsMissing

complete-again_example : complete app who 0 ended ≡ (ok whole, ended)
complete-again_example =
    complete-again app who 0 two_parts (row two_parts) whole ended two_parts-IsSound row_found
      row_new completed

abbrev dropped : World ℕ
dropped = (abort app who 0 one_part).1

abbrev dropped_row : UploadSession
dropped_row = ok_value (row one_part) (abort app who 0 one_part).0

aborted : abort app who 0 one_part ≡ (ok dropped_row, dropped)
unfolding create_session proxy_upload_part get_upload plan existing_file complete abort
    is_bucket_allowed text_eq normalize_relative_path utf8_length utf8_width get_max_file_size
    compute_effective_lifecycle get_lifecycle_default
aborted = refl

abbrev tried_again : World ℕ
tried_again = (route (complete app who 0) (record dropped { now = dropped.now + 5 })).1

abort-IsRefused_example : IsRefused app who 0 tried_again
abort-IsRefused_example =
    abort-IsRefused app who 0 one_part dropped_row dropped tried_again
      (Run-IsSound app one_part-Run empty_db-IsSound) aborted
      (after (after done (later dropped.store (dropped.now + 5) (omega arith))) (completes who 0))

abbrev first_row : UploadSession
first_row = ok_value (row start) (create_session app who new_upload start).0

abbrev first_world : World ℕ
first_world = (create_session app who new_upload start).1

made : create_session app who new_upload start ≡ (ok first_row, first_world)
unfolding create_session proxy_upload_part get_upload plan existing_file complete abort
    is_bucket_allowed text_eq normalize_relative_path utf8_length utf8_width get_max_file_size
    compute_effective_lifecycle get_lifecycle_default
made = refl

create_session-IsCreated_example : IsCreated app who new_upload start first_row first_world
create_session-IsCreated_example =
    create_session-IsCreated app who new_upload start first_row first_world made

abbrev much_later : World ℕ
much_later = record created { now = 900000000 }

expire-Swept_example :
    (n : ℕ) × (w' : World ℕ) × (expire_upload_sessions 5 much_later ≡ (ok n, w'))
    × (n ≤ 5)
    × Swept much_later.now much_later.db.uploads w'.db.uploads
    × (length (select (is_overdue much_later.now) much_later.db.uploads) ≤ 5
        → select (is_overdue much_later.now) w'.db.uploads ≡ [])
expire-Swept_example =
    expire-Swept 5 much_later
      (Run-IsSound app (after done (creates who new_upload)) empty_db-IsSound)

-- Two passes of one session each, a second apart.
passes-finish_example :
    select (is_overdue much_later.now) (passes 1 (900000000 ∷ 901000000 ∷ []) much_later).db.uploads
    ≡ []
passes-finish_example =
    passes-finish 1 (900000000 ∷ 901000000 ∷ []) much_later.now much_later
      (Run-IsSound app (after done (creates who new_upload)) empty_db-IsSound) (omega arith) few
  where
    few : length (select (λ u. is_open_status u.status) much_later.db.uploads) ≤ 2
    few =
        unfold create_session plan get_upload is_bucket_allowed text_eq normalize_relative_path
          utf8_length utf8_width get_max_file_size compute_effective_lifecycle
          get_lifecycle_default in
        omega arith

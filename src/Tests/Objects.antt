-- ===== src/Tests/Objects.antt =====
-- A file that is uploaded, held, extended, linked and deleted.
use pyupload_x.Base.{
  ℕ, ◌+◌, ◌≡◌, refl, true, false, none, some, [], ◌∷◌, ◌++◌, arith, Text, codes, text_eq,
  utf8_width, utf8_length,
}
use pyupload_x.Base.Int.{pos}
use pyupload_x.Errors.{Result, ok, err}
use pyupload_x.Lifecycle.Mode.{seconds, Mode, LifecycleAction}
use pyupload_x.Lifecycle.Policy.{Effective, compute_effective_lifecycle}
use pyupload_x.Lifecycle.Policy.Retention.{IsAllowed, compute_effective_lifecycle-IsAllowed}
use pyupload_x.Db.Rows.{FileObject}
use pyupload_x.Db.Files.{get_file}
use pyupload_x.Request.{World}
use pyupload_x.Buckets.{is_bucket_allowed}
use pyupload_x.Paths.{normalize_relative_path}
use pyupload_x.Request.Settings.{get_max_file_size, get_lifecycle_default}
use pyupload_x.Files.Access.{delete, get}
use pyupload_x.Uploads.Create.{uuid_text}
use pyupload_x.Files.Links.{
  create_permanent_link, strip_end, verify_link_token, create_permanent_link-verifies,
}
use pyupload_x.Files.Proxy.{proxy_upload, uploaded_row, IsUploaded, proxy_upload-IsUploaded}
use pyupload_x.Files.Removal.{IsGone, delete-IsGone}
use pyupload_x.Retention.Service.{extend, set_legal_hold}
use pyupload_x.Retention.Renewal.{extend-ignores_extension}
use pyupload_x.Retention.Worker.{is_due, act, process_batch}
use pyupload_x.Retention.Passes.{act-not_due}
use pyupload_x.Retention.Holds.{process_batch-held}
use pyupload_x.Tests.Samples.{app, who, start, new_file, rules, server}

abbrev ok_value : {A : Type 0} → A → Result A → A
ok_value d (ok a) = a
ok_value d (err e) = d

abbrev blank : FileObject
blank =
    uploaded_row app who new_file [] none
      (record { bucket = []; object_key = []; size_bytes = 0; etag = none }) 0

abbrev stored : FileObject
stored = ok_value blank (proxy_upload app who new_file start).0

abbrev with_file : World ℕ
with_file = (proxy_upload app who new_file start).1

uploaded : proxy_upload app who new_file start ≡ (ok stored, with_file)
unfolding proxy_upload delete get_file set_legal_hold extend create_permanent_link is_bucket_allowed
    text_eq normalize_relative_path utf8_length utf8_width get_max_file_size
    compute_effective_lifecycle get_lifecycle_default uploaded_row get
uploaded = refl

proxy_upload-IsUploaded_example : IsUploaded app who new_file start stored with_file
proxy_upload-IsUploaded_example =
    proxy_upload-IsUploaded app who new_file start stored with_file uploaded

found : get_file with_file.db 0 (some who.tenant_id) ≡ some stored
unfolding proxy_upload delete get_file set_legal_hold extend create_permanent_link is_bucket_allowed
    text_eq normalize_relative_path utf8_length utf8_width get_max_file_size
    compute_effective_lifecycle get_lifecycle_default uploaded_row get
found = refl

abbrev without_file : World ℕ
without_file = (delete app who 0 with_file).1

deleted : delete app who 0 with_file ≡ (ok tt, without_file)
unfolding proxy_upload delete get_file set_legal_hold extend create_permanent_link is_bucket_allowed
    text_eq normalize_relative_path utf8_length utf8_width get_max_file_size
    compute_effective_lifecycle get_lifecycle_default uploaded_row get
deleted = refl

delete-IsGone_example : (stored.legal_hold ≡ false) × IsGone app who 0 without_file
unfolding proxy_upload delete get_file set_legal_hold extend create_permanent_link is_bucket_allowed
    text_eq normalize_relative_path utf8_length utf8_width get_max_file_size
    compute_effective_lifecycle get_lifecycle_default uploaded_row get
delete-IsGone_example =
    delete-IsGone app who 0 with_file stored without_file (refl, tt) found deleted

abbrev held : World ℕ
held = (set_legal_hold app who 0 true with_file).1

abbrev held_file : FileObject
held_file = record stored { legal_hold = true }

held_found : get_file held.db 0 (some who.tenant_id) ≡ some held_file
unfolding proxy_upload delete get_file set_legal_hold extend create_permanent_link is_bucket_allowed
    text_eq normalize_relative_path utf8_length utf8_width get_max_file_size
    compute_effective_lifecycle get_lifecycle_default uploaded_row get
held_found = refl

process_batch-held_example :
    get_file (process_batch app 5 held).1.db 0 (some who.tenant_id) ≡ some held_file
unfolding proxy_upload delete get_file set_legal_hold extend create_permanent_link is_bucket_allowed
    text_eq normalize_relative_path utf8_length utf8_width get_max_file_size
    compute_effective_lifecycle get_lifecycle_default uploaded_row get
process_batch-held_example =
    process_batch-held app 5 0 (some who.tenant_id) held_file held (refl, tt) held_found refl

act-not_due_example : is_due 99000000 (act app stored with_file).0.0 ≡ false
act-not_due_example = act-not_due app stored with_file 99000000

abbrev extended : FileObject
extended = ok_value blank (extend app who 0 (pos 50) with_file).0

abbrev extended_world : World ℕ
extended_world = (extend app who 0 (pos 50) with_file).1

extend_ok : extend app who 0 (pos 50) with_file ≡ (ok extended, extended_world)
unfolding proxy_upload delete get_file set_legal_hold extend create_permanent_link is_bucket_allowed
    text_eq normalize_relative_path utf8_length utf8_width get_max_file_size
    compute_effective_lifecycle get_lifecycle_default uploaded_row get
extend_ok = refl

extend-ignores_extension_example : extended.expires_at ≡ some (stored.completed_at + seconds 10)
unfolding proxy_upload delete get_file set_legal_hold extend create_permanent_link is_bucket_allowed
    text_eq normalize_relative_path utf8_length utf8_width get_max_file_size
    compute_effective_lifecycle get_lifecycle_default uploaded_row get
extend-ignores_extension_example =
    extend-ignores_extension app who 0 (pos 50) with_file stored extended extended_world 9 refl
      found refl refl extend_ok

abbrev mac : Text → Text → Text
mac k m = b'0' ∷ k ++ m

abbrev link : Text
link = ok_value [] (create_permanent_link mac app who 0 (codes "http://h/") with_file).0

linked : create_permanent_link mac app who 0 (codes "http://h/") with_file ≡ (ok link, with_file)
unfolding proxy_upload delete get_file set_legal_hold extend create_permanent_link is_bucket_allowed
    text_eq normalize_relative_path utf8_length utf8_width get_max_file_size
    compute_effective_lifecycle get_lifecycle_default uploaded_row get
linked = refl

create_permanent_link-verifies_example :
    (token : Text) × (link
      ≡ strip_end (codes "http://h/")
        ++ codes "/v1/files/"
        ++ uuid_text 0
        ++ codes "/download-link?token="
        ++ token)
    × (verify_link_token mac app.settings 0 token ≡ true)
create_permanent_link-verifies_example =
    create_permanent_link-verifies mac app who 0 (codes "http://h/") with_file link with_file
      (λ k m. refl) linked

abbrev ten_seconds : Effective
ten_seconds = record {
  mode = Mode.ttl;
  action = LifecycleAction.delete;
  ttl_seconds = some (pos 10);
  expires_at = some 10000005;
}

ten : compute_effective_lifecycle rules server none (some 5) 0 ≡ ok ten_seconds
unfolding proxy_upload delete get_file set_legal_hold extend create_permanent_link is_bucket_allowed
    text_eq normalize_relative_path utf8_length utf8_width get_max_file_size
    compute_effective_lifecycle get_lifecycle_default uploaded_row get
ten = refl

compute_effective_lifecycle-IsAllowed_example : IsAllowed rules 5 ten_seconds
compute_effective_lifecycle-IsAllowed_example =
    compute_effective_lifecycle-IsAllowed rules server none (some 5) 0 ten_seconds (omega arith) ten

-- ===== src/Tests/Samples.antt =====
-- A configuration, a backend with fixed answers, and requests for the examples.
use pyupload_x.Base.{ℕ, ◌+◌, true, false, none, some, [], ◌∷◌, length, codes}
use pyupload_x.Base.Int.{pos}
use pyupload_x.Errors.{ok}
use pyupload_x.Config.{Settings, BackendName}
use pyupload_x.Lifecycle.Mode.{Mode, LifecycleAction}
use pyupload_x.Lifecycle.Policy.{PolicyRules, ServerDefault}
use pyupload_x.Db.Uploads.{Dialect}
use pyupload_x.Storage.{StorageAdapter}
use pyupload_x.Request.{World, Identity, App}
use pyupload_x.Uploads.Plan.{NewUpload}
use pyupload_x.Uploads.Sound.Runs.{empty_db}
use pyupload_x.Files.Proxy.{NewFile}

abbrev pub rules : PolicyRules
rules = record {
  allow_client_override = true;
  permanent_allowed = true;
  minimum_ttl_seconds = 1;
  maximum_ttl_seconds = 100;
  allowed_modes = Mode.ttl ∷ Mode.permanent ∷ Mode.expires_at ∷ [];
  allowed_actions = LifecycleAction.delete ∷ [];
}

abbrev pub server : ServerDefault
server = record {
  mode = some Mode.ttl;
  action = some LifecycleAction.delete;
  ttl_seconds = some (pos 10);
}

abbrev pub settings : Settings
settings = record {
  storage = record {
    backend = BackendName.s3;
    default_bucket = codes "b";
    allowed_buckets = codes "b" ∷ [];
  };
  uploads = record {
    default_mode = codes "proxy";
    direct_upload_threshold_bytes = 8;
    object_conflict_policy = codes "replace";
    multipart = record {
      enabled = true;
      default_part_size_bytes = 4;
      minimum_part_size_bytes = 2;
      maximum_part_size_bytes = 8;
      maximum_parts = 10;
      maximum_presign_batch_size = 5;
    };
    session = record {
      expires_after_seconds = 60;
      maximum_lifetime_seconds = 600;
      refresh_enabled = true;
    };
    maximum_bytes = 64;
  };
  presign = record {
    default_expires_seconds = 60;
    maximum_expires_seconds = 600;
    upload_part_expires_seconds = 60;
  };
  permanent_link = record { enabled = true; secret = some (codes "k") };
  directory_upload = record {
    enabled = true;
    limits = record {
      maximum_path_depth = 8;
      maximum_relative_path_bytes = 64;
      maximum_entries_per_manifest_request = 4;
    };
    default_policy = codes "reject";
    allowed_policies = codes "reject" ∷ [];
  };
  lifecycle = record { enabled = true; default_policy = server; policy = rules };
}

-- the state of the backend counts the calls that changed it
abbrev pub storage : StorageAdapter ℕ
storage = record {
  capabilities = record {
    multipart = true;
    presigned_put = true;
    presigned_get = true;
    presigned_upload_part = true;
    list_parts = false;
  };
  backend_name = BackendName.s3;
  is_local = false;
  bucket_exists = λ b n. true;
  create_bucket = λ b n. (ok tt, n + 1);
  delete_bucket = λ b n. (ok tt, n + 1);
  put_object = λ b k stream size type n. (
    ok (record { bucket = b; object_key = k; size_bytes = length stream; etag = some (codes "e") }),
    n + 1,
  );
  get_object = λ b k offset len n. ok [];
  delete_object = λ b k n. (ok tt, n + 1);
  object_exists = λ b k n. false;
  initiate_multipart_upload = λ b k n. (ok (codes "u"), n + 1);
  upload_part = λ b k id number stream size sum n. (
    ok (record {
      part_number = number;
      etag = codes "p";
      size_bytes = pos (length stream);
      checksum_sha256 = none;
    }),
    n + 1,
  );
  list_parts = λ b k id n. ok [];
  complete_multipart_upload = λ b k id parts n.
      (ok (record { bucket = b; object_key = k; size_bytes = 6; etag = some (codes "e") }), n + 1);
  abort_multipart_upload = λ b k id n. (ok tt, n + 1);
  create_presigned_put_url = λ b k seconds. ok (codes "put");
  create_presigned_get_url = λ b k seconds. ok (codes "get");
  create_presigned_upload_part_url = λ b k id number seconds. ok (codes "part");
}

abbrev pub app : App ℕ
app = record { storage = storage; settings = settings; dialect = Dialect.postgresql; nfc = λ s. s }

abbrev pub who : Identity
who = record { tenant_id = codes "t"; principal_id = codes "p" }

abbrev pub start : World ℕ
start = record { db = empty_db; store = 0; now = 1000000 }

abbrev pub new_upload : NewUpload
new_upload = record {
  bucket = codes "b";
  object_key = codes "a/c";
  original_filename = [];
  content_type = none;
  total_size = pos 6;
  part_size = some (pos 4);
  upload_mode = codes "proxy";
  file_fingerprint = none;
  expected_sha256 = none;
  lifecycle = none;
}

abbrev pub new_file : NewFile
new_file = record {
  bucket = codes "b";
  object_key = codes "a/c";
  original_filename = [];
  content_type = none;
  size_bytes = 2;
  stream = 7 ∷ 8 ∷ [];
  checksum_sha256 = none;
  file_fingerprint = none;
  lifecycle = none;
  metadata = [];
}

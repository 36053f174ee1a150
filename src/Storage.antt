-- ===== src/Storage.antt =====
-- app/storage/base.py and capabilities.py: the contract of a storage backend, over a state `S` of the
-- backend. A stream is the list of the bytes that it yields.
pub mod FileSystem
pub mod Chunks
pub mod Local
use pyupload_x.Base.{ℕ, Bool, Option, List, Text}
use pyupload_x.Base.Int.{ℤ}
use pyupload_x.Errors.{Result}
use pyupload_x.Config.{BackendName}

abbrev pub Bytes : Type 0
Bytes = List ℕ

pub record StorageCapabilities : Type 0 where
  pub multipart : Bool
  pub presigned_put : Bool
  pub presigned_get : Bool
  pub presigned_upload_part : Bool
  pub list_parts : Bool

pub record StoredObject : Type 0 where
  pub bucket : Text
  pub object_key : Text
  pub size_bytes : ℕ
  pub etag : Option Text

-- `UploadedPart`; the services also build it from the rows of a table
pub record StoredPart : Type 0 where
  pub part_number : ℕ
  pub etag : Text
  pub size_bytes : ℤ
  pub checksum_sha256 : Option Text

-- What a call that changes the backend leaves: its result or error, and the state.
abbrev pub Effect : Type 0 → Type 0 → Type 0
Effect S A = S → Result A × S

-- `is_local` is `isinstance(storage, LocalStorageAdapter)`. A method that only reads has no new state.
pub record StorageAdapter (S : Type 0) : Type 0 where
  pub capabilities : StorageCapabilities
  pub backend_name : BackendName
  pub is_local : Bool
  pub bucket_exists : Text → S → Bool
  pub create_bucket : Text → Effect S Unit
  pub delete_bucket : Text → Effect S Unit
  pub put_object : Text → Text → Bytes → ℕ → Option Text → Effect S StoredObject
  pub get_object : Text → Text → ℕ → Option ℕ → S → Result Bytes
  pub delete_object : Text → Text → Effect S Unit
  pub object_exists : Text → Text → S → Bool
  pub initiate_multipart_upload : Text → Text → Effect S Text
  pub upload_part : Text → Text → Text → ℕ → Bytes → ℕ → Option Text → Effect S StoredPart
  pub list_parts : Text → Text → Text → S → Result (List StoredPart)
  pub complete_multipart_upload : Text → Text → Text → List StoredPart → Effect S StoredObject
  pub abort_multipart_upload : Text → Text → Text → Effect S Unit
  pub create_presigned_put_url : Text → Text → ℤ → Result Text
  pub create_presigned_get_url : Text → Text → ℤ → Result Text
  pub create_presigned_upload_part_url : Text → Text → Text → ℕ → ℤ → Result Text

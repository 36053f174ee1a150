-- ===== src/Db.antt =====
-- app/db: the rows and tables, and the repositories over them. A table is a list of rows in the order
-- of insertion. Keys (`uuid4`) are numbers from a counter, which stands for their being fresh.
pub mod Rows
pub mod Uploads
pub mod Files
pub mod Directories
use pyupload_x.Base.{ℕ, Option, List, Text}
use Directories.{DirectoryJob, DirectoryEntry}
use Rows.{
  UploadSession, UploadPart, FileObject, LifecycleEvent, OutboxMessage, StorageBucket,
  StoredDefault,
}

-- `settings` are the rows of `app_settings` that hold a number or a text, and `lifecycle_override` the
-- row `lifecycle.default_policy`, read from its JSON text.
pub record Db : Type 0 where
  pub uploads : List UploadSession
  pub parts : List UploadPart
  pub files : List FileObject
  pub events : List LifecycleEvent
  pub outbox : List OutboxMessage
  pub buckets : List StorageBucket
  pub settings : List (Text × Text)
  pub lifecycle_override : Option StoredDefault
  pub jobs : List DirectoryJob
  pub entries : List DirectoryEntry
  pub next_id : ℕ

-- ===== src/Lib.antt =====
-- pyuploadX: a service that stores files behind an HTTP API, and its client library.
--
-- A request reaches a service method with the identity of its caller. The method reads and writes the
-- tables of the database, calls the storage backend, and may raise; the route commits the tables when
-- it returns and rolls them back when it raises, while the backend keeps what was done. A worker
-- expires upload sessions and acts on files whose retention is over.
--
-- The modules and the code they model:
--   Errors                    app/core/errors.py
--   Config                    app/config/models.py
--   Db, Db/*                  app/db/models.py and app/db/repositories
--   Storage                   app/storage/base.py and capabilities.py, as an interface over any state
--   Request, Request/*        the session of a request; app/services/setting_service.py (reading)
--   Buckets, Buckets/*        app/services/bucket_service.py
--   Overrides, Overrides/*    app/services/setting_service.py (writing), app/api/v1/settings.py
--   Ranges, Ranges/*          app/core/ranges.py
--   Paths, Paths/*            app/directory_upload/paths.py and sdk/pyuploadx/paths.py
--   Lifecycle, Lifecycle/*    app/lifecycle/policy.py and state_machine.py
--   Uploads, Uploads/*        app/services/upload_service.py and cleanup_service.py
--   Retention, Retention/*    app/services/lifecycle_service.py, app/worker/lifecycle.py and enqueue of
--                             app/services/webhook_service.py
--   Files, Files/*            app/services/file_service.py and app/core/permanent_links.py
--   Directories, Directories/*
--                             app/services/directory_upload_service.py and app/directory_upload
--   Storage/FileSystem, Storage/Chunks, Storage/Local, Storage/Local/*
--                             app/storage/local.py, over a tree of files and folders
--   Sdk, Sdk/*                sdk/pyuploadx/multipart.py, retry.py, and the requests and the parallel
--                             download of client.py
--   Webhooks, Webhooks/*      deliver_due of app/services/webhook_service.py
--   Base, Base/*              names, lists, texts and integers that the others share
--   Tests, Tests/*            a small configuration and backend, and the theorems applied to them
--
-- A method is an `Action`: a function from the world (tables, backend, clock) to a result or an error,
-- and the world it leaves. The methods keep their names; a part of a long method that has a name of
-- its own is a definition of its own. The conventions:
--   * A text is the list of its code points, none of them a lone surrogate. Unicode normalisation is
--     a parameter, with the laws `NfcLaws` where a theorem needs them, and so are the keyed hash of
--     permanent links and the random part of the client's delays, which are in whole microseconds.
--   * A key that the code draws at random (uuid4) is the next number of a counter, which stands for
--     its being fresh.
--   * A time is a number of microseconds since the year 1, and does not move within a request. Time
--     arithmetic does not overflow; a time written as ISO text is the time it stands for.
--   * A field of a request that is missing, null or empty is `none`. The JSON text of the lifecycle
--     override is its fields.
--   * `int()` reads ASCII digits and at most 4300 of them. The quotient that counts the parts is
--     exact, as the code's division of floats is below 2^53 bytes.
--   * Sizes and durations of the configuration are natural numbers.
--   * SHA-256 is a parameter, a function from bytes to a text. A disk is a tree of named nodes with a
--     list of the write faults to come: it has no links and no permissions, and no crash between two
--     calls. A path with `..` is the path it resolves to.
--   * `ORDER BY` a text is by its code points.
-- Loops are recursion on lists or numbers. Three run on fuel: the loops that read a file in chunks on
-- one more than the length of what is left, which each round shortens, the loop that tries a request
-- on the number of attempts it may make, and the printing of a decimal on one more than the number.
--
-- Not modelled: the web framework, logging and counters, which only pass on or report; the S3 client,
-- which the interface of Storage stands for; authentication, idempotency keys, reconciliation,
-- directory listings, and the client library's batch and directory state, on which no
-- modelled method depends.
pub mod Base
pub mod Errors
pub mod Ranges
pub mod Overrides
pub mod Paths
pub mod Lifecycle
pub mod Config
pub mod Db
pub mod Storage
pub mod Request
pub mod Buckets
pub mod Uploads
pub mod Retention
pub mod Files
pub mod Tests
pub mod Directories
pub mod Webhooks
pub mod Sdk

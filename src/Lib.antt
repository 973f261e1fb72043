-- ===== src/Lib.antt =====
-- The voice asset server: a service that takes recordings from its clients, live over a websocket or as
-- files, transcribes them with external providers and keeps assets, transcripts and corrections.
--
-- What is modelled, and where (paths of the Go code from the repository's root):
--
-- - Base, with its children: shared types, Boolean tests, lists, tables, pages, results and integers of 64
--   bits. An `int64` or an `int` that can be negative is an integer of Base.Int, and a sum that the code
--   stores is wrapped by `wrap64`.
-- - Text, with its children: Go strings as lists of bytes, with the parts of unicode/utf8, strings, regexp
--   and encoding/base64 in use.
-- - Identifier: internal/platform/identifier/uuid.go. The random source is a list of bytes.
-- - Auth: internal/auth/permissions.go, and the principal of internal/auth/service.go. Auth.Password is
--   internal/auth/password.go.
-- - Realtime.Protocol: the events of internal/realtime/protocol.go and their
--   validation. Decoding JSON is left out: an event is given by its fields.
-- - Realtime.Session, with its children: internal/realtime/session.go. A method with a value receiver
--   is a function that returns the new session or an error. The constraints of the table
--   recording_sessions (migrations/000013_realtime_recording_sessions.up.sql) are Session.RowChecks.
-- - Realtime.Hub, with its children: internal/realtime/stream_hub.go. Entries are shared through
--   indices, each operation is atomic under the locks it takes, and the provider is a parameter, the
--   record StreamFactory. The context of an entry ends at the session's end, on a clock of its own.
-- - Realtime.MockStream, with its children: internal/realtime/mock_stream.go, and the check of an update
--   in internal/realtime/controller.go.
-- - Realtime.Repository: internal/realtime/postgres_repository.go, over a table as a list of rows. Each
--   transaction is one function; the database answers every query.
-- - Realtime.Service: internal/realtime/service.go over the repository. What other requests do between
--   a read and the write that follows it is a parameter of the request's environment.
-- - Membership, with its children: internal/membership. Membership is the repository, Membership.Service
--   the service with its checks, Membership.Listing the list in pages, over Base.Paging.
-- - Transcript, with its children: internal/transcript, the queries and their service.
-- - Review, with its children: internal/review. Review has the data and the loop over the decisions,
--   Review.Content the text that the accepted changes give, Review.Repository and Review.Approval the
--   transactions, Review.Service the service. JSON is read and written by parameters, one of
--   which gives the form in which the database returns it; the segments of a revision stand with its row.
-- - Organization, with its children: internal/organization. Organization has the tables,
--   Organization.Reads, Organization.Tags and Organization.Annotations the queries of the repository,
--   Organization.Service the reads and Organization.Requests the writes of the service.
-- - Job, with its children: internal/job. Job has the rows of the tables and the helpers; Job.Leases is
--   `Claim`, `Succeed` and `Fail`, Job.Requests the creation of jobs under an idempotency key, and
--   Job.Requests.Service internal/job/service.go. A transaction is one function; which rows are locked
--   by others, and what they commit while it waits, are parameters.
-- - Asr, with its children: internal/asr/registry.go and internal/asr/errors.go. Asr has the operations of
--   the registry, Asr.Calls the transcription, Asr.Capability is internal/asr/capability.go; the adapters
--   of the providers are parameters.
-- - Audio.Wav: internal/audio/wav.go.
-- - Upload, with its children: the pure functions of internal/upload/service.go on parts and declarations.
--
-- The service holds the session in the database and changes it by the functions of Realtime.Session; the
-- hub holds the provider's stream of a session; the controller, which is not modelled, drives both. Users
-- create jobs through the job service; workers claim them under leases, have the recording transcribed
-- through the registry of Asr, and report success or failure. A corrected transcript is reviewed over the
-- tables of Transcript, where the result is read again. Every request carries a principal of Auth.
--
-- Bounds: counters of a session are at most 2 ^ 62 where a theorem needs room, lease numbers and file
-- sizes are those of their machine types. The loop over the chunks of a WAV file runs on as many rounds
-- as the file has bytes, and one more; each round advances by at least eight bytes, so that this is
-- enough. The loop of `Claim` runs on one round for each job and one more: a round that does not return
-- ends a job that was running. `AcceptAudio` makes at most three attempts, as the code does.
--
-- Not modelled: the controller's loop, JSON, HTTP, files, the network and the database's failures, and
-- the packages under internal/ that are not named above.
pub mod Base
pub mod Text
pub mod Identifier
pub mod Auth
pub mod Realtime
pub mod Asr
pub mod Audio
pub mod Upload
pub mod Job
pub mod Membership
pub mod Transcript
pub mod Review
pub mod Organization

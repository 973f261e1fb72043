-- ===== src/Job/Requests.antt =====
-- The repository of internal/job: `CreateTranscription`, `CreateCorrection` and `Get` of
-- internal/job/postgres_repository.go. `read_id` is how the database reads an identifier from text, if it
-- does; `others` is what other transactions commit while this one waits for a lock or before it inserts;
-- `clock` is the database's clock. The digest of a request and the encoding of a payload (SHA-256 and
-- encoding/json) are parameters.
pub mod Service
pub mod Replay
use voice_asset_server.Base.{
  ℕ, zero, suc, ◌+◌, Bool, true, false, not, ◌&&◌, ◌||◌, Option, none, some, List, [], ◌∷◌, ◌++◌,
  ltb, leb, ◌==◌, if◌then◌else◌, length, text_eq, Result, ok, err,
}
use voice_asset_server.Base.Table.{find}
use voice_asset_server.Text.{Bytes, codes, trim_space, between}
use voice_asset_server.Identifier.{new_uuid_from, normalize_uuid}
use voice_asset_server.Auth.{
  Principal, can, transcriptions_write, transcripts_read, corrections_write,
}
use voice_asset_server.Job.{
  Error, forbidden, invalid_input, not_found, asset_not_ready, revision_not_correctable,
  correction_active, idempotency_conflict, internal, State, queued, running, Time, Job, Row, Asset,
  AssetStatus, asset_ready, asset_processing, Revision, Database, row_id, is_running, waits,
  valid_worker_id, job_of,
}

pub record CreateTranscriptionParams : Type 0 where
  pub job_id : Bytes
  pub audit_id : Bytes
  pub workspace_id : Bytes
  pub asset_id : Bytes
  pub created_by : Bytes
  pub kind : Bytes
  pub payload : Bytes
  pub max_attempts : ℕ
  pub idempotency_key : Bytes
  pub request_hash : Bytes

pub record CreateCorrectionParams : Type 0 where
  pub job_id : Bytes
  pub audit_id : Bytes
  pub workspace_id : Bytes
  pub source_revision_id : Bytes
  pub created_by : Bytes
  pub kind : Bytes
  pub payload : Bytes
  pub max_attempts : ℕ
  pub idempotency_key : Bytes
  pub request_hash : Bytes

-- `loadByIdempotencyKey`
unfoldable pub load_by_key : Bytes → Bytes → List Row → Option Row
load_by_key workspace key [] = none
load_by_key workspace key (r ∷ rows) =
    if text_eq r.job.workspace_id workspace && text_eq r.idempotency_key key
    then some r
    else load_by_key workspace key rows

-- What a job that exists under the key means for the request. A stored digest fills its column, so that
-- reading strips no blanks from it.
abbrev pub replay : Row → Bytes → Result Error (Job × Bool)
replay r hash = if text_eq r.request_hash hash then ok (r.job, true) else err idempotency_conflict

abbrev is_active : State → Bool
is_active s = is_running s || waits s

-- The primary key, and jobs_asset_kind_active_unique. The asset is not null.
unfoldable pub violates_unique : Job → List Row → Bool
violates_unique j [] = false
violates_unique j (r ∷ rows) =
    text_eq r.job.id j.id
    || (text_eq r.job.asset_id j.asset_id && text_eq r.job.kind j.kind && is_active r.job.state)
    || violates_unique j rows

abbrev pub is_ready : AssetStatus → Bool
is_ready asset_ready = true
is_ready _ = false

abbrev is_asset : Bytes → Bytes → Asset → Bool
is_asset id workspace a = text_eq a.id id && text_eq a.workspace_id workspace && not a.deleted

unfoldable pub find_asset : Bytes → Bytes → List Asset → Option Asset
find_asset id workspace [] = none
find_asset id workspace (a ∷ assets) =
    if is_asset id workspace a then some a else find_asset id workspace assets

-- UPDATE assets SET status = 'processing' ... WHERE status = 'ready': `RowsAffected`, and the rows.
unfoldable pub mark_processing : Bytes → Bytes → List Asset → ℕ × List Asset
mark_processing id workspace [] = (0, [])
mark_processing id workspace (a ∷ assets) =
    let (count, rest) = mark_processing id workspace assets in
    if text_eq a.id id && text_eq a.workspace_id workspace && is_ready a.status
    then (count + 1, (record a { status = asset_processing; version = a.version + 1 }) ∷ rest)
    else (count, a ∷ rest)

abbrev pub new_job : Bytes → Bytes → Bytes → Bytes → Bytes → Bytes → ℕ → Time → Job
new_job id workspace asset created_by kind payload max_attempts clock = record {
  id = id;
  workspace_id = workspace;
  asset_id = asset;
  created_by = created_by;
  kind = kind;
  state = queued;
  payload = payload;
  attempts = 0;
  max_attempts = max_attempts;
  available_at = clock;
  lease_owner = none;
  lease_expires_at = none;
  last_error_code = none;
  result_revision_id = none;
  created_at = clock;
  updated_at = clock;
}

-- The outcome of INSERT ... ON CONFLICT (workspace_id, idempotency_key) DO NOTHING.
pub data Inserted : Type 0 where
  inserted : List Row → Inserted
  key_exists : Row → Inserted
  violated : Inserted
  check_failed : Inserted

-- The constraints on the key, the digest and the membership of the creator are left out: the service
-- gives a valid key and a digest, and the creator is the principal of the request.
unfoldable pub insert_job : Job → Bytes → Bytes → List Row → Inserted
insert_job j key hash rows = elim (load_by_key j.workspace_id key rows) [
  | some r ↦ key_exists r
  | none ↦
      if not (between 1 20 j.max_attempts)
      then check_failed
      else if violates_unique j rows
      then violated
      else inserted ((record { job = j; idempotency_key = key; request_hash = hash }) ∷ rows)
]

abbrev Answer : Type 0
Answer = Result Error (Job × Bool) × Database

mark_asset : Database → CreateTranscriptionParams → Job → List Row → Answer
mark_asset db p j rows =
    let (count, assets) = mark_processing p.asset_id p.workspace_id db.assets in
    if count == 1
    then (
      ok (j, false),
      record db { rows = rows; assets = assets; audits = p.audit_id ∷ db.audits },
    )
    else (err asset_not_ready, db)

insert_transcription : Database → CreateTranscriptionParams → Job → Inserted → Answer
unfolding mark_asset
insert_transcription db p j (inserted rows) = mark_asset db p j rows
insert_transcription db p j (key_exists r) = (replay r p.request_hash, db)
insert_transcription db p j violated = (err internal, db)
insert_transcription db p j check_failed = (err internal, db)

transcription_job : CreateTranscriptionParams → Time → Job
transcription_job p clock =
    new_job p.job_id p.workspace_id p.asset_id p.created_by p.kind p.payload p.max_attempts clock

-- Once the asset is locked.
with_asset : Database → (Database → Database) → CreateTranscriptionParams → Time → Asset → Answer
unfolding insert_transcription transcription_job
with_asset db others p clock a = elim (load_by_key p.workspace_id p.idempotency_key db.rows) [
  | some r ↦ (replay r p.request_hash, db)
  | none ↦
      if not (is_ready a.status) || not a.has_original
      then (err asset_not_ready, db)
      else (let db' = others db in
          let j = transcription_job p clock in
          insert_transcription db' p j (insert_job j p.idempotency_key p.request_hash db'.rows))
]

lock_asset :
    Database → (Database → Database) → CreateTranscriptionParams → Time → Option Asset → Answer
unfolding with_asset
lock_asset db others p clock none = (err not_found, db)
lock_asset db others p clock (some a) = with_asset db others p clock a

-- `CreateTranscription` of the repository, for an asset's identifier that the database has read.
unfoldable pub create_transcription :
    Database → (ℕ → Database → Database) → CreateTranscriptionParams → Time → Answer
unfolding lock_asset
create_transcription db others p clock =
    elim (load_by_key p.workspace_id p.idempotency_key db.rows) [
      | some r ↦ (replay r p.request_hash, db)
      | none ↦
          let db' = others 0 db in
          lock_asset db' (others 1) p clock (find_asset p.asset_id p.workspace_id db'.assets)
    ]

-- `correctableRevisionKind`
unfoldable pub correctable_revision_kind : Bytes → Bool
correctable_revision_kind kind =
    text_eq kind (codes "raw_asr")
    || text_eq kind (codes "normalized")
    || text_eq kind (codes "llm_corrected")
    || text_eq kind (codes "human_edited")
    || text_eq kind (codes "approved")

unfoldable pub find_revision : Bytes → Bytes → List Revision → Option Revision
find_revision id workspace [] = none
find_revision id workspace (r ∷ revisions) =
    if text_eq r.id id && text_eq r.workspace_id workspace && not r.asset_deleted
    then some r
    else find_revision id workspace revisions

insert_correction : Database → CreateCorrectionParams → Job → Inserted → Answer
insert_correction db p j (inserted rows) =
    (ok (j, false), record db { rows = rows; audits = p.audit_id ∷ db.audits })
insert_correction db p j (key_exists r) = (replay r p.request_hash, db)
insert_correction db p j violated = (err correction_active, db)
insert_correction db p j check_failed = (err internal, db)

correction_job : CreateCorrectionParams → Revision → Time → Job
correction_job p r clock =
    new_job p.job_id p.workspace_id r.asset_id p.created_by p.kind p.payload p.max_attempts clock

with_revision :
    Database → (Database → Database) → CreateCorrectionParams → Time → Option Revision → Answer
unfolding insert_correction correction_job
with_revision db others p clock none = (err not_found, db)
with_revision db others p clock (some r) =
    if not r.has_segments || not (correctable_revision_kind r.kind)
    then (err revision_not_correctable, db)
    else let db' = others db in
      let j = correction_job p r clock in
      insert_correction db' p j (insert_job j p.idempotency_key p.request_hash db'.rows)

-- `CreateCorrection` of the repository.
unfoldable pub create_correction :
    Database → (ℕ → Database → Database) → CreateCorrectionParams → Time → Answer
unfolding with_revision
create_correction db others p clock = elim (load_by_key p.workspace_id p.idempotency_key db.rows) [
  | some r ↦ (replay r p.request_hash, db)
  | none ↦
      let db' = others 0 db in
      with_revision db' (others 1) p clock
        (find_revision p.source_revision_id p.workspace_id db'.revisions)
]

unfoldable pub find_in_workspace : Bytes → Bytes → List Row → Option Row
find_in_workspace id workspace [] = none
find_in_workspace id workspace (r ∷ rows) =
    if text_eq r.job.id id && text_eq r.job.workspace_id workspace
    then some r
    else find_in_workspace id workspace rows

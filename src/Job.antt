-- ===== src/Job.antt =====
-- Background jobs (internal/job): the rows of the tables jobs, job_attempts and assets that
-- internal/job/postgres_repository.go reads and writes, with its helpers. Attempts are counted
-- in ℕ: the tables hold them between 0 and 20. Payloads, audit entries and the times that only describe
-- a row are left out where no function reads them.
pub mod Leases
pub mod Requests
pub mod Samples
mod Tests
pub mod Attempts
pub mod Invariant
use voice_asset_server.Base.{
  ℕ, zero, suc, ◌+◌, Bool, true, false, not, ◌&&◌, ◌||◌, Option, none, some, List, [], ◌∷◌, ltb,
  leb, ◌==◌, if◌then◌else◌, length, all, text_eq, Result, ok, err,
}
use voice_asset_server.Base.Table.{find, modify}
use voice_asset_server.Text.{Bytes, codes, chunks, is_control, between}

-- `internal` stands for every error that wraps none of the others; `out_of_fuel` is no error of the
-- source, since the loop of `claim` is run with a bound on its rounds.
pub data Error : Type 0 where
  forbidden invalid_input not_found asset_not_ready revision_not_correctable correction_active
        idempotency_conflict no_claimable_job lease_conflict invalid_error_code internal
        out_of_fuel :
      Error

pub data State : Type 0 where
  queued running retry_wait succeeded failed cancelled : State

pub data Outcome : Type 0 where
  attempt_succeeded attempt_retry attempt_failed attempt_lease_expired : Outcome

-- Times are in nanoseconds; 0 is the zero time.
abbrev pub Time : Type 0
Time = ℕ

-- `Job`. A job without an asset has an empty `asset_id`.
pub record Job : Type 0 where
  pub id : Bytes
  pub workspace_id : Bytes
  pub asset_id : Bytes
  pub created_by : Bytes
  pub kind : Bytes
  pub state : State
  pub payload : Bytes
  pub attempts : ℕ
  pub max_attempts : ℕ
  pub available_at : Time
  pub lease_owner : Option Bytes
  pub lease_expires_at : Option Time
  pub last_error_code : Option Bytes
  pub result_revision_id : Option Bytes
  pub created_at : Time
  pub updated_at : Time

-- A row of the table jobs, with the two columns that `Job` leaves out.
pub record Row : Type 0 where
  pub job : Job
  pub idempotency_key : Bytes
  pub request_hash : Bytes

-- A row of the table job_attempts.
pub record Attempt : Type 0 where
  pub job_id : Bytes
  pub attempt : ℕ
  pub worker_id : Bytes
  pub outcome : Option Outcome
  pub error_code : Option Bytes
  pub started_at : Time
  pub finished_at : Option Time

pub data AssetStatus : Type 0 where
  asset_uploading asset_ready asset_processing asset_failed asset_other : AssetStatus

pub record Asset : Type 0 where
  pub id : Bytes
  pub workspace_id : Bytes
  pub status : AssetStatus
  pub deleted : Bool
  pub has_original : Bool
  pub version : ℕ

-- A transcript revision, joined with its transcript and asset.
pub record Revision : Type 0 where
  pub id : Bytes
  pub workspace_id : Bytes
  pub asset_id : Bytes
  pub kind : Bytes
  pub has_segments : Bool
  pub asset_deleted : Bool

pub record Database : Type 0 where
  pub rows : List Row
  pub attempts : List Attempt
  pub assets : List Asset
  pub revisions : List Revision
  pub audits : List Bytes

abbrev pub row_id : Row → Bytes
row_id r = r.job.id

abbrev pub is_running : State → Bool
is_running running = true
is_running _ = false

abbrev pub waits : State → Bool
waits queued = true
waits retry_wait = true
waits _ = false

abbrev pub is_processing : AssetStatus → Bool
is_processing asset_processing = true
is_processing _ = false

abbrev pub error_lease_expired : Bytes
error_lease_expired = codes "lease_expired"

-- `IsSafeErrorCode`
unfoldable pub is_safe_error_code : Bytes → Bool
is_safe_error_code s =
    text_eq s (codes "internal_error")
    || text_eq s (codes "provider_unavailable")
    || text_eq s (codes "invalid_audio")
    || text_eq s (codes "provider_rejected")
    || text_eq s (codes "worker_timeout")
    || text_eq s error_lease_expired

-- `validWorkerID`, and `validIdempotencyKey` of internal/job/service.go.
unfoldable pub valid_worker_id : Bytes → Bool
valid_worker_id s = between 1 200 (length s) && all (λ c. not (is_control c.rune)) (chunks s)

abbrev is_text : Bytes → Option Bytes → Bool
is_text s none = false
is_text s (some t) = text_eq t s

abbrev is_after : Time → Option Time → Bool
is_after now none = false
is_after now (some t) = ltb now t

-- `ownsLiveLease`
unfoldable pub owns_live_lease : Job → Bytes → Time → Bool
owns_live_lease j worker now =
    is_running j.state && is_text worker j.lease_owner && is_after now j.lease_expires_at

-- The clock of a transaction, `GREATEST($1, clock_timestamp())`.
abbrev pub greatest : Time → Time → Time
greatest a b = if ltb a b then b else a

abbrev pub is_open : Option Outcome → Bool
is_open none = true
is_open (some o) = false

abbrev pub is_attempt : Bytes → ℕ → Attempt → Bool
is_attempt id n a = text_eq a.job_id id && a.attempt == n

-- The rows of job_attempts with this job and number.
unfoldable pub count_attempts : Bytes → ℕ → List Attempt → ℕ
count_attempts id n [] = 0
count_attempts id n (a ∷ rest) = (if is_attempt id n a then 1 else 0) + count_attempts id n rest

-- Of these, the ones without an outcome: `RowsAffected` of `finishAttempt`.
unfoldable pub count_open : Bytes → ℕ → List Attempt → ℕ
count_open id n [] = 0
count_open id n (a ∷ rest) =
    (if is_attempt id n a && is_open a.outcome then 1 else 0) + count_open id n rest

unfoldable pub close_open : Bytes → ℕ → Outcome → Option Bytes → Time → List Attempt → List Attempt
close_open id n outcome code now [] = []
close_open id n outcome code now (a ∷ rest) =
    (if is_attempt id n a && is_open a.outcome
      then (record a { outcome = some outcome; error_code = code; finished_at = some now })
      else a)
    ∷ close_open id n outcome code now rest

-- `finishAttempt`
unfoldable pub finish_attempt :
    Bytes → ℕ → Outcome → Option Bytes → Time → List Attempt → Result Error (List Attempt)
finish_attempt id n outcome code now attempts =
    if count_open id n attempts == 1
    then ok (close_open id n outcome code now attempts)
    else err lease_conflict

abbrev fails_with : Bytes → Bytes → Asset → Bool
fails_with asset workspace a =
    text_eq a.id asset && text_eq a.workspace_id workspace && is_processing a.status

-- The asset of a job that failed for good fails too, if it is in processing.
unfoldable pub fail_asset : Bytes → Bytes → List Asset → List Asset
fail_asset asset workspace [] = []
fail_asset asset workspace (a ∷ assets) =
    (if fails_with asset workspace a
      then record a { status = asset_failed; version = a.version + 1 }
      else a)
    ∷ fail_asset asset workspace assets

unfoldable pub fail_asset_of : Job → List Asset → List Asset
fail_asset_of j assets =
    if text_eq j.asset_id [] then assets else fail_asset j.asset_id j.workspace_id assets

-- UPDATE jobs SET ... WHERE id = $1
abbrev pub update_job : Bytes → (Job → Job) → List Row → List Row
update_job id f rows = modify row_id id (λ r. record r { job = f r.job }) rows

abbrev pub job_of : Option Row → Result Error Job
job_of none = err not_found
job_of (some r) = ok r.job

-- `lockJob`
unfoldable pub lock_job : List Row → Bytes → Result Error Job
unfolding find
lock_job rows id = job_of (find row_id id rows)

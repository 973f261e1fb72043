-- ===== src/Job/Leases.antt =====
-- internal/job/postgres_repository.go: `Claim`, `Succeed` and `Fail`. A transaction sees the rows that
-- no other has locked; `locked` tells which are, `clock` is `clock_timestamp()`. On an error the
-- transaction is rolled back.
pub mod Claims
pub mod Loop
pub mod Work
pub mod Ownership
pub mod Order
use voice_asset_server.Base.{
  ℕ, zero, suc, ◌+◌, ◌-◌, Bool, true, false, not, ◌&&◌, ◌||◌, Option, none, some, List, [], ◌∷◌,
  ltb, leb, ◌==◌, if◌then◌else◌, length, text_eq, Result, ok, err,
}
use voice_asset_server.Base.Int.{ℤ, pos, leb_ℤ, pos_part}
use voice_asset_server.Base.Paging.{text_ltb}
use voice_asset_server.Text.{Bytes, trim_space}
use voice_asset_server.Job.{
  Error, invalid_input, not_found, no_claimable_job, lease_conflict, invalid_error_code, internal,
  out_of_fuel, State, running, retry_wait, succeeded, failed, Outcome, attempt_succeeded,
  attempt_retry, attempt_failed, attempt_lease_expired, Time, Job, Row, Attempt, Revision, Database,
  is_running, waits, error_lease_expired, is_safe_error_code, valid_worker_id, owns_live_lease,
  greatest, count_attempts, finish_attempt, fail_asset_of, update_job, lock_job,
}

pub record ClaimParams : Type 0 where
  pub kind : Bytes
  pub worker_id : Bytes
  pub now : Time
  pub lease_duration : ℤ

pub record SucceedParams : Type 0 where
  pub job_id : Bytes
  pub worker_id : Bytes
  pub result_revision_id : Option Bytes
  pub now : Time

pub record FailParams : Type 0 where
  pub job_id : Bytes
  pub worker_id : Bytes
  pub error_code : Bytes
  pub now : Time
  pub retry_at : Time

abbrev pub has_expired : Time → Option Time → Bool
has_expired now none = false
has_expired now (some t) = leb t now

-- WHERE kind = $1 AND (...)
unfoldable pub is_claimable : Bytes → Time → Job → Bool
is_claimable kind now j =
    text_eq j.kind kind
    && ((waits j.state && leb j.available_at now && ltb j.attempts j.max_attempts)
        || (is_running j.state && has_expired now j.lease_expires_at))

abbrev rank : State → ℕ
rank running = 0
rank _ = 1

-- ORDER BY CASE WHEN state = 'running' THEN 0 ELSE 1 END, available_at, created_at, id
pub comes_before : Job → Job → Bool
unfolding text_ltb
comes_before i j =
    ltb (rank i.state) (rank j.state)
    || (rank i.state == rank j.state
        && (ltb i.available_at j.available_at
            || (i.available_at == j.available_at
                && (ltb i.created_at j.created_at
                    || (i.created_at == j.created_at && text_ltb i.id j.id)))))

first_of : Job → Option Job → Job
unfolding comes_before
first_of i none = i
first_of i (some j) = if comes_before j i then j else i

-- SELECT ... ORDER BY ... FOR UPDATE SKIP LOCKED LIMIT 1
unfoldable pub pick : (Bytes → Bool) → Bytes → Time → List Row → Option Job
unfolding first_of
pick locked kind now [] = none
pick locked kind now (r ∷ rows) =
    let rest = pick locked kind now rows in
    if is_claimable kind now r.job && not (locked r.job.id)
    then some (first_of r.job rest)
    else rest

-- An expired lease on the last attempt.
abbrev pub exhausted : Time → Job → Job
exhausted now j = record j {
  state = failed;
  lease_owner = none;
  lease_expires_at = none;
  last_error_code = some error_lease_expired;
  updated_at = now;
}

-- The job under a new lease.
abbrev pub leased : Bytes → Time → Time → ℕ → Job → Job
leased worker expires now attempt j = record j {
  state = running;
  attempts = attempt;
  lease_owner = some worker;
  lease_expires_at = some expires;
  last_error_code = none;
  updated_at = now;
}

-- The UPDATE and the INSERT that hand the job out. The number of an attempt is unique for its job.
pub lease : Database → Job → Bytes → Time → Time → Result Error Job × Database
lease db j worker expires now =
    let attempt = suc j.attempts in
    if not (count_attempts j.id attempt db.attempts == 0) then (err internal, db) else (
      ok (leased worker expires now attempt j),
      record db {
        rows = update_job j.id (leased worker expires now attempt) db.rows;
        attempts =
            (record {
              job_id = j.id;
              attempt = attempt;
              worker_id = worker;
              outcome = none;
              error_code = none;
              started_at = now;
              finished_at = none;
            })
            ∷ db.attempts;
      },
    )

abbrev pub fail_exhausted : Database → Job → List Attempt → Time → Database
fail_exhausted db j attempts now = record db {
  rows = update_job j.id (exhausted now) db.rows;
  attempts = attempts;
  assets = fail_asset_of j db.assets;
}

-- The loop; the first argument bounds its rounds, and an error rolls back to `start`.
unfoldable pub claim_loop :
    ℕ
    → (Bytes → Bool)
    → Bytes
    → Bytes
    → ℕ
    → Time
    → Database
    → Database
    → Result Error Job × Database
unfolding pick lease
claim_loop zero locked kind worker duration now start db = (err out_of_fuel, start)
claim_loop (suc fuel) locked kind worker duration now start db =
    elim (pick locked kind now db.rows) [
      | none ↦ (err no_claimable_job, db)
      | some j ↦ elim (is_running j.state) [
        | false ↦ lease db j worker (now + duration) now
        | true ↦
            elim (finish_attempt j.id j.attempts attempt_lease_expired (some error_lease_expired)
              now db.attempts) [
                | err e ↦ (err e, start)
                | ok attempts ↦ elim (leb j.max_attempts j.attempts) [
                  | true ↦
                      claim_loop fuel locked kind worker duration now start
                        (fail_exhausted db j attempts now)
                  | false ↦ lease (record db { attempts = attempts }) j worker (now + duration) now
                ]
              ]
      ]
    ]

-- `Claim`; one round for each job, and one more.
unfoldable pub claim : Database → (Bytes → Bool) → ClaimParams → Time → Result Error Job × Database
claim db locked p clock =
    let worker = trim_space p.worker_id in
    if text_eq p.kind []
      || not (valid_worker_id worker)
      || p.now == 0
      || leb_ℤ p.lease_duration (pos 0)
    then (err invalid_input, db)
    else claim_loop (suc (length db.rows)) locked p.kind worker (pos_part p.lease_duration)
        (greatest p.now clock) db db

abbrev pub completed : Option Bytes → Time → Job → Job
completed revision now j = record j {
  state = succeeded;
  lease_owner = none;
  lease_expires_at = none;
  last_error_code = none;
  result_revision_id = revision;
  updated_at = now;
}

-- An update of the job whose attempt is finished, with what follows on the assets.
finish_with : Database → Job → (Job → Job) → List Attempt → Bool → Result Error Job × Database
finish_with db j f attempts final = (
  ok (f j),
  record db {
    rows = update_job j.id f db.rows;
    attempts = attempts;
    assets = if final then fail_asset_of j db.assets else db.assets;
  },
)

-- A revision of the table transcript_revisions, or none: what jobs.result_revision_id may refer to.
unfoldable pub is_known_revision : Option Bytes → List Revision → Bool
is_known_revision none revisions = true
is_known_revision (some id) [] = false
is_known_revision (some id) (r ∷ revisions) =
    text_eq r.id id || is_known_revision (some id) revisions

-- The attempt is finished first; `allowed` tells whether the update of the job keeps its foreign key.
finish_owned :
    Database
    → Job
    → Outcome
    → Option Bytes
    → Time
    → (Job → Job)
    → Bool
    → Bool
    → Result Error Job × Database
unfolding finish_with
finish_owned db j outcome code now f final allowed =
    elim (finish_attempt j.id j.attempts outcome code now db.attempts) [
      | err e ↦ (err e, db)
      | ok attempts ↦ if allowed then finish_with db j f attempts final else (err internal, db)
    ]

succeed_locked :
    Database → SucceedParams → Bytes → Time → Result Error Job → Result Error Job × Database
unfolding finish_owned
succeed_locked db p worker now (err e) = (err e, db)
succeed_locked db p worker now (ok j) =
    if not (owns_live_lease j worker now)
    then (err lease_conflict, db)
    else finish_owned db j attempt_succeeded none now (completed p.result_revision_id now) false
        (is_known_revision p.result_revision_id db.revisions)

-- `Succeed`
unfoldable pub succeed : Database → SucceedParams → Time → Result Error Job × Database
unfolding succeed_locked
succeed db p clock =
    let worker = trim_space p.worker_id in
    if text_eq p.job_id [] || not (valid_worker_id worker) || p.now == 0
    then (err invalid_input, db)
    else succeed_locked db p worker (greatest p.now clock) (lock_job db.rows p.job_id)

abbrev pub retried : Bytes → Time → Time → Job → Job
retried code available now j = record j {
  state = retry_wait;
  available_at = available;
  lease_owner = none;
  lease_expires_at = none;
  last_error_code = some code;
  updated_at = now;
}

abbrev pub failed_for_good : Bytes → Time → Job → Job
failed_for_good code now j = record j {
  state = failed;
  lease_owner = none;
  lease_expires_at = none;
  last_error_code = some code;
  updated_at = now;
}

fail_locked : Database → FailParams → Bytes → Time → Result Error Job → Result Error Job × Database
unfolding finish_owned
fail_locked db p worker now (err e) = (err e, db)
fail_locked db p worker now (ok j) =
    if not (owns_live_lease j worker now)
    then (err lease_conflict, db)
    else if leb j.max_attempts j.attempts
    then finish_owned db j attempt_failed (some p.error_code) now (failed_for_good p.error_code now)
        true true
    else finish_owned db j attempt_retry (some p.error_code) now
        (retried p.error_code (now + (p.retry_at - p.now)) now) false true

-- `Fail`
unfoldable pub fail : Database → FailParams → Time → Result Error Job × Database
unfolding fail_locked
fail db p clock =
    let worker = trim_space p.worker_id in
    if not (is_safe_error_code p.error_code)
    then (err invalid_error_code, db)
    else if text_eq p.job_id []
        || not (valid_worker_id worker)
        || p.now == 0
        || p.retry_at == 0
        || not (ltb p.now p.retry_at)
    then (err invalid_input, db)
    else fail_locked db p worker (greatest p.now clock) (lock_job db.rows p.job_id)

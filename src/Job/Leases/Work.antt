-- ===== src/Job/Leases/Work.antt =====
-- The three transactions of a worker: they keep the tables sound, and a lease belongs to its worker until
-- it expires.
use voice_asset_server.Base.{
  suc, ◌+◌, ◌-◌, ◌≡◌, refl, sym, ap, subst, ◌∙◌, Bool, true, false, not, ◌||◌, if◌then◌else◌,
  Option, none, some, List, [], ◌∷◌, arith, ltb, leb, ◌==◌, text_eq, Result, ok, err, length,
  Bool-cases, Option-cases, inl, inr, ◌⊎◌,
}
use voice_asset_server.Base.Int.{leb_ℤ, pos, pos_part}
use voice_asset_server.Base.Table.{find, find-key, All-find}
use voice_asset_server.Text.{Bytes, trim_space}
use voice_asset_server.Job.{
  Job, Row, Attempt, Database, Error, invalid_input, internal, Outcome, attempt_succeeded,
  attempt_failed, attempt_retry, row_id, is_safe_error_code, Time, finish_attempt, valid_worker_id,
  greatest, owns_live_lease, lock_job, job_of,
}
use voice_asset_server.Job.Invariant.{IsRow, IsSound}
use voice_asset_server.Job.Leases.{
  ClaimParams, SucceedParams, FailParams, claim, succeed, fail, succeed_locked, fail_locked,
  finish_owned, finish_with, is_known_revision, completed, retried, failed_for_good,
}
use voice_asset_server.Job.Leases.Claims.{Outcomes}
use voice_asset_server.Job.Leases.Loop.{Ends, end_lem, live-le-length, claim_loop_lem}

abbrev pub lease_end : ClaimParams → Time → Time
lease_end p clock = greatest p.now clock + pos_part p.lease_duration

-- On sound tables a claim ends, and leaves them sound. Unless its parameters are refused, it hands out a
-- job of the table that is running for this worker until the end of the lease and within the limit of
-- its attempts, or says that there is no job to claim: it never fails otherwise.
pub claim-Outcomes :
    (db : Database) (locked : Bytes → Bool) (p : ClaimParams) (clock : Time)
    → IsSound db
    → let out = claim db locked p clock in
      IsSound out.1
      × (Outcomes (trim_space p.worker_id) (lease_end p clock) out.0 out.1
          ⊎ (out ≡ (err invalid_input, db)))
unfolding claim
claim-Outcomes db locked p clock s =
    elim (Bool-cases (
      text_eq p.kind []
      || not (valid_worker_id (trim_space p.worker_id))
      || p.now == 0
      || leb_ℤ p.lease_duration (pos 0))) [
        | inl bad ↦ rw bad (s, inr refl)
        | inr good ↦
            let (sound, outcome) =
              claim_loop_lem (suc (length db.rows)) locked p.kind (trim_space p.worker_id)
                (pos_part p.lease_duration) (greatest p.now clock) db db
                (omega (arith, live-le-length db.rows)) s in
            rw good (sound, inl outcome)
      ]

Ends-completed : (revision : Option Bytes) (now : Time) → Ends (completed revision now)
Ends-completed revision now = record {
  same_id = λ j. refl;
  same_attempts = λ j. refl;
  same_limit = λ j. refl;
  ended = λ j. refl;
  no_owner = λ j. refl;
  no_expiry = λ j. refl;
  safe = λ j. refl;
}

module _ (code : Bytes) (now : Time) (h : is_safe_error_code code ≡ true) where
  Ends-retried : (available : Time) → Ends (retried code available now)
  Ends-retried available = record {
    same_id = λ j. refl;
    same_attempts = λ j. refl;
    same_limit = λ j. refl;
    ended = λ j. refl;
    no_owner = λ j. refl;
    no_expiry = λ j. refl;
    safe = λ j. h;
  }

  Ends-failed_for_good : Ends (failed_for_good code now)
  Ends-failed_for_good = record {
    same_id = λ j. refl;
    same_attempts = λ j. refl;
    same_limit = λ j. refl;
    ended = λ j. refl;
    no_owner = λ j. refl;
    no_expiry = λ j. refl;
    safe = λ j. h;
  }

-- A job that is locked by its identifier is a row of the table.
pub locked_row :
    (db : Database) (id : Bytes) (j : Job)
    → IsSound db
    → lock_job db.rows id ≡ ok j
    → (r : Row) × (find row_id j.id db.rows ≡ some r) × (r.job ≡ j) × IsRow db.attempts r
unfolding lock_job
locked_row db id j s h = elim (Option-cases (find row_id id db.rows)) [
  | inl missing ↦ let k = rw (missing, lock_job) at h in absurd (ground arith)
  | inr (r, found) ↦
      let e : r.job ≡ j = same (rw (found, lock_job) at h) in
      (
        r,
        subst (λ i. find row_id i db.rows ≡ some r)
            (sym (find-key row_id id db.rows r found) ∙ ap (λ (i : Job). i.id) e) found,
        e,
        All-find row_id (IsRow db.attempts) id db.rows r s.rows found,
      )
]
  where
    same :
        {i : Job}
        → job_of (some (record { job = i; idempotency_key = []; request_hash = [] })) ≡ ok j
        → i ≡ j
    same h = ground arith

-- A finished attempt, with what `end_lem` wants.
finish_owned-IsSound :
    (db : Database) (j : Job) (r : Row) (o : Outcome) (code : Option Bytes) (now : Time)
    (f : Job → Job) (final allowed : Bool)
    → Ends f
    → IsSound db
    → find row_id j.id db.rows ≡ some r
    → r.job ≡ j
    → IsRow db.attempts r
    → IsSound (finish_owned db j o code now f final allowed).1
unfolding finish_owned
finish_owned-IsSound db j r o code now f final allowed ends s found is_j p =
    split (finish_attempt j.id j.attempts o code now db.attempts) refl
  where
    split :
        (out : Result Error (List Attempt))
        → finish_attempt j.id j.attempts o code now db.attempts ≡ out
        → IsSound (finish_owned db j o code now f final allowed).1
    split (err e) h = rw (h, finish_owned) s
    split (ok attempts) h =
        rw (h, finish_owned)
          (by_allowed allowed (
            end_lem f ends db (finish_with db j f attempts final).1 j r o code now s found is_j p h
              refl))
      where
        by_allowed :
            (b : Bool)
            → IsSound (finish_with db j f attempts final).1
            → IsSound (if b then finish_with db j f attempts final else (err internal, db)).1
        by_allowed true k = k
        by_allowed false k = s

succeed_locked-IsSound :
    (db : Database) (p : SucceedParams) (worker : Bytes) (now : Time) (l : Result Error Job)
    → IsSound db
    → lock_job db.rows p.job_id ≡ l
    → IsSound (succeed_locked db p worker now l).1
unfolding succeed_locked
succeed_locked-IsSound db p worker now (err e) s h = s
succeed_locked-IsSound db p worker now (ok j) s h =
    elim (Bool-cases (owns_live_lease j worker now)) [
      | inr lost ↦ rw lost s
      | inl owned ↦
          let (r, found, is_j, q) = locked_row db p.job_id j s h in
          rw owned (
            finish_owned-IsSound db j r attempt_succeeded none now
              (completed p.result_revision_id now) false
              (is_known_revision p.result_revision_id db.revisions)
              (Ends-completed p.result_revision_id now) s found is_j q)
    ]

fail_locked-IsSound :
    (db : Database) (p : FailParams) (worker : Bytes) (now : Time) (l : Result Error Job)
    → is_safe_error_code p.error_code ≡ true
    → IsSound db
    → lock_job db.rows p.job_id ≡ l
    → IsSound (fail_locked db p worker now l).1
unfolding fail_locked
fail_locked-IsSound db p worker now (err e) safe s h = s
fail_locked-IsSound db p worker now (ok j) safe s h =
    elim (Bool-cases (owns_live_lease j worker now)) [
      | inr lost ↦ rw lost s
      | inl owned ↦
          let (r, found, is_j, q) = locked_row db p.job_id j s h in
          elim (Bool-cases (leb j.max_attempts j.attempts)) [
            | inl last ↦
                rw (owned, last)
                  (finish_owned-IsSound db j r attempt_failed (some p.error_code) now
                    (failed_for_good p.error_code now) true true
                    (Ends-failed_for_good p.error_code now safe) s found is_j q)
            | inr again ↦
                rw (owned, again)
                  (finish_owned-IsSound db j r attempt_retry (some p.error_code) now
                    (retried p.error_code (now + (p.retry_at - p.now)) now) false true
                    (Ends-retried p.error_code now safe (now + (p.retry_at - p.now))) s found is_j
                    q)
          ]
    ]

-- What a worker asks for, and the clock of the database then.
pub data Request : Type 0 where
  claims : (Bytes → Bool) → ClaimParams → Time → Request
  succeeds : SucceedParams → Time → Request
  fails : FailParams → Time → Request

-- The tables after a request.
unfoldable pub after : Database → Request → Database
after db (claims locked p clock) = (claim db locked p clock).1
after db (succeeds p clock) = (succeed db p clock).1
after db (fails p clock) = (fail db p clock).1

unfoldable pub after_all : Database → List Request → Database
unfolding after
after_all db [] = db
after_all db (q ∷ qs) = after_all (after db q) qs

succeed-IsSound :
    (db : Database) (p : SucceedParams) (clock : Time) → IsSound db → IsSound (succeed db p clock).1
unfolding succeed
succeed-IsSound db p clock s =
    elim (Bool-cases
      (text_eq p.job_id [] || not (valid_worker_id (trim_space p.worker_id)) || p.now == 0)) [
        | inl bad ↦ rw (bad, succeed) s
        | inr good ↦
            rw (good, succeed)
              (succeed_locked-IsSound db p (trim_space p.worker_id) (greatest p.now clock) _ s refl)
      ]

fail-IsSound :
    (db : Database) (p : FailParams) (clock : Time) → IsSound db → IsSound (fail db p clock).1
unfolding fail
fail-IsSound db p clock s = elim (Bool-cases (is_safe_error_code p.error_code)) [
  | inr unsafe ↦ rw (unsafe, fail) s
  | inl safe ↦
      elim (Bool-cases (
        text_eq p.job_id []
        || not (valid_worker_id (trim_space p.worker_id))
        || p.now == 0
        || p.retry_at == 0
        || not (ltb p.now p.retry_at))) [
          | inl bad ↦ rw (safe, bad, fail) s
          | inr good ↦
              rw (safe, good, fail)
                (fail_locked-IsSound db p (trim_space p.worker_id) (greatest p.now clock) _ safe s
                  refl)
        ]
]

after-IsSound : (db : Database) (q : Request) → IsSound db → IsSound (after db q)
unfolding after
after-IsSound db (claims locked p clock) s = (claim-Outcomes db locked p clock s).0
after-IsSound db (succeeds p clock) s = succeed-IsSound db p clock s
after-IsSound db (fails p clock) s = fail-IsSound db p clock s

-- Whatever workers ask for, in whatever order, the tables stay sound: identifiers are keys, a job has a
-- lease exactly while it is running, no job is tried more often than its limit, the last attempt of a
-- running job is open, and no other attempt of a job is open, nor any of a job that is not running.
pub after_all-IsSound : (db : Database) (qs : List Request) → IsSound db → IsSound (after_all db qs)
unfolding after_all
after_all-IsSound db [] s = s
after_all-IsSound db (q ∷ qs) s = after_all-IsSound (after db q) qs (after-IsSound db q s)

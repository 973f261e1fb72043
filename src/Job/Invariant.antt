-- ===== src/Job/Invariant.antt =====
-- What holds of the tables between transactions: the constraints on a job's row, and that the last attempt
-- of a running job is open and no other attempt of any job is.
use voice_asset_server.Base.{
  ℕ, ◌≤◌, ◌<◌, ◌≡◌, Bool, true, false, not, ◌&&◌, Option, none, some, List, text_eq, All, ◌==◌,
}
use voice_asset_server.Base.Table.{find, Unique, Unique-modify, All-modify}
use voice_asset_server.Text.{Bytes}
use voice_asset_server.Job.{
  Job, Row, Attempt, Database, row_id, is_running, is_safe_error_code, count_attempts, count_open,
  update_job,
}
use voice_asset_server.Job.Attempts.{Agrees}

abbrev is_some {ℓ} : {A : Type ℓ} → Option A → Bool
is_some none = false
is_some (some a) = true

abbrev same : Bool → Bool → Bool
same true b = b
same false b = not b

abbrev pub code_is_safe : Option Bytes → Bool
code_is_safe none = true
code_is_safe (some c) = is_safe_error_code c

-- The constraints jobs_running_lease_check and jobs_lease_pair_check.
abbrev pub lease_check : Job → Bool
lease_check j =
    same (is_running j.state) (is_some j.lease_owner)
    && same (is_some j.lease_owner) (is_some j.lease_expires_at)

-- A row of the table jobs, with the attempts of its job.
pub record IsRow (attempts : List Attempt) (r : Row) : Type 0 where
  pub leases : lease_check r.job ≡ true
  pub limit : r.job.attempts ≤ r.job.max_attempts
  pub code : code_is_safe r.job.last_error_code ≡ true
  pub one_open : is_running r.job.state ≡ true → count_open r.job.id r.job.attempts attempts ≡ 1
  pub others_closed :
      (n : ℕ)
      → (is_running r.job.state && (n == r.job.attempts)) ≡ false
      → count_open r.job.id n attempts ≡ 0
  pub numbered : (n : ℕ) → r.job.attempts < n → count_attempts r.job.id n attempts ≡ 0

pub record IsSound (db : Database) : Type 0 where
  pub keys : Unique row_id db.rows
  pub rows : All (IsRow db.attempts) db.rows

IsRow-Agrees :
    (id : Bytes) (old new : List Attempt) (r : Row)
    → Agrees id old new
    → text_eq r.job.id id ≡ false
    → IsRow old r
    → IsRow new r
IsRow-Agrees id old new r a d p = record {
  leases = p.leases;
  limit = p.limit;
  code = p.code;
  one_open = λ h. rw (a.same_open r.job.id r.job.attempts d) (p.one_open h);
  others_closed = λ n h. rw (a.same_open r.job.id n d) (p.others_closed n h);
  numbered = λ n h. rw (a.same_attempts r.job.id n d) (p.numbered n h);
}

-- An update of one job and of its attempts.
pub IsSound-update_job :
    (db db' : Database) (id : Bytes) (f : Job → Job) (c : Row)
    → IsSound db
    → find row_id id db.rows ≡ some c
    → ((j : Job) → (f j).id ≡ j.id)
    → db'.rows ≡ update_job id f db.rows
    → Agrees id db.attempts db'.attempts
    → (IsRow db.attempts c → IsRow db'.attempts (record c { job = f c.job }))
    → IsSound db'
IsSound-update_job db db' id f c s h keeps e a here = record {
  keys =
      rw e (
        Unique-modify row_id (λ r. record r { job = f r.job }) (λ r. keeps r.job) id db.rows
          s.keys);
  rows = rw e (
      All-modify row_id (IsRow db.attempts) (IsRow db'.attempts) id
        (λ r. record r { job = f r.job }) db.rows c s.keys h s.rows here
        (λ r d p. IsRow-Agrees id db.attempts db'.attempts r a d p));
}

-- ===== src/Job/Leases/Loop.antt =====
-- The loop of `claim`: it ends, keeps the tables sound, and gives a job or the news that there is none.
use voice_asset_server.Base.{
  ℕ, zero, suc, ◌+◌, ◌≤◌, ◌<◌, ◌≡◌, refl, sym, subst, ◌∙◌, Bool, true, false, Option, none, some,
  List, [], ◌∷◌, arith, leb, ◌==◌, ◌&&◌, if◌then◌else◌, text_eq, ok, length, Bool-cases,
  Option-cases, inl, inr,
}
use voice_asset_server.Base.Table.{find, modify}
use voice_asset_server.Text.{Bytes, codes}
use voice_asset_server.Job.{
  Job, Row, Attempt, Database, Outcome, row_id, is_running, is_safe_error_code, count_attempts,
  count_open, update_job, Time, finish_attempt, close_open, error_lease_expired,
  attempt_lease_expired,
}
use voice_asset_server.Job.Attempts.{
  Agrees-refl, Agrees-finish_attempt, count_attempts-finish_attempt, finish_attempt-ok,
  finish_attempt-count_open,
}
use voice_asset_server.Job.Invariant.{IsRow, IsSound, IsSound-update_job, code_is_safe}
use voice_asset_server.Job.Leases.{is_claimable, pick, exhausted, claim_loop, fail_exhausted}
use voice_asset_server.Job.Leases.Claims.{picked, lease_lem, Outcomes}

-- The update ends the lease and keeps the count.
pub record Ends (f : Job → Job) : Type 0 where
  pub same_id : (j : Job) → (f j).id ≡ j.id
  pub same_attempts : (j : Job) → (f j).attempts ≡ j.attempts
  pub same_limit : (j : Job) → (f j).max_attempts ≡ j.max_attempts
  pub ended : (j : Job) → is_running (f j).state ≡ false
  pub no_owner : (j : Job) → (f j).lease_owner ≡ none
  pub no_expiry : (j : Job) → (f j).lease_expires_at ≡ none
  pub safe : (j : Job) → code_is_safe (f j).last_error_code ≡ true

not_last : (b c : Bool) → c ≡ false → (b && c) ≡ false
not_last b c h = ground arith

-- Only the last attempt of a job can be open.
others_of :
    (attempts : List Attempt) (r : Row) (j : Job)
    → r.job ≡ j
    → IsRow attempts r
    → (n : ℕ) → (n == j.attempts) ≡ false
    → count_open j.id n attempts ≡ 0
others_of attempts r j is_j p n h =
    subst (λ (i : Job). (n == i.attempts) ≡ false → count_open i.id n attempts ≡ 0) is_j
      (λ d. p.others_closed n (not_last (is_running r.job.state) (n == r.job.attempts) d)) h

-- A job that waits has no open attempt.
closed_of :
    (attempts : List Attempt) (r : Row) (j : Job)
    → r.job ≡ j
    → IsRow attempts r
    → is_running j.state ≡ false
    → (n : ℕ) → count_open j.id n attempts ≡ 0
closed_of attempts r j is_j p h n =
    subst (λ (i : Job). is_running i.state ≡ false → count_open i.id n attempts ≡ 0) is_j
      (λ d. p.others_closed n (rw d refl)) h

module _ (f : Job → Job) (ends : Ends f) where
  ended_row :
      (old new : List Attempt) (r : Row)
      → IsRow old r
      → ((n : ℕ) → count_attempts r.job.id n new ≡ count_attempts r.job.id n old)
      → ((n : ℕ) → count_open r.job.id n new ≡ 0)
      → IsRow new (record r { job = f r.job })
  ended_row old new r p same closed = record {
    leases = rw (ends.ended r.job, ends.no_owner r.job, ends.no_expiry r.job);
    limit = rw (ends.same_attempts r.job, ends.same_limit r.job) p.limit;
    code = ends.safe r.job;
    one_open = λ h. absurd (ground (arith, ends.ended r.job));
    others_closed = λ n h. rw (ends.same_id r.job) (closed n);
    numbered = λ n h.
        rw (ends.same_id r.job)
          (same n ∙ p.numbered n (subst (λ k. k < n) (ends.same_attempts r.job) h));
  }

  -- Ending the lease of a running job keeps the tables sound.
  pub end_lem :
      (db db' : Database) (j : Job) (r : Row) (o : Outcome) (code : Option Bytes) (now : Time)
      → IsSound db
      → find row_id j.id db.rows ≡ some r
      → r.job ≡ j
      → IsRow db.attempts r
      → finish_attempt j.id j.attempts o code now db.attempts ≡ ok db'.attempts
      → db'.rows ≡ update_job j.id f db.rows
      → IsSound db'
  end_lem db db' j r o code now s found is_j p done rows =
      IsSound-update_job db db' j.id f r s found ends.same_id rows
        (Agrees-finish_attempt j.id j.attempts o code now db.attempts db'.attempts done)
        (λ q.
          ended_row db.attempts db'.attempts r q
            (λ n.
              count_attempts-finish_attempt j.id j.attempts o code now db.attempts db'.attempts done
                r.job.id n)
            (λ n.
              subst (λ (i : Job). count_open i.id n db'.attempts ≡ 0) (sym is_j)
                (finish_attempt-count_open j.id j.attempts o code now db.attempts db'.attempts done
                  (others_of db.attempts r j is_j p) n)))

lease_expired_safe : is_safe_error_code error_lease_expired ≡ true
unfolding is_safe_error_code text_eq codes
lease_expired_safe = refl

Ends-exhausted : (now : Time) → Ends (exhausted now)
Ends-exhausted now = record {
  same_id = λ j. refl;
  same_attempts = λ j. refl;
  same_limit = λ j. refl;
  ended = λ j. refl;
  no_owner = λ j. refl;
  no_expiry = λ j. refl;
  safe = λ j. lease_expired_safe;
}

-- How many jobs are running.
pub live : List Row → ℕ
live [] = 0
live (r ∷ rows) = (if is_running r.job.state then 1 else 0) + live rows

pub live-le-length : (rows : List Row) → live rows ≤ length rows
unfolding live
live-le-length [] = omega arith
live-le-length (r ∷ rows) = ground (arith, live-le-length rows)

module _ (now : Time) (id : Bytes) where
  live-exhausted_le : (rows : List Row) → live (update_job id (exhausted now) rows) ≤ live rows
  unfolding live modify
  live-exhausted_le [] = omega arith
  live-exhausted_le (r ∷ rows) = ground (arith, live-exhausted_le rows)

  -- One job fewer is running once an expired one has failed.
  live-exhausted_lt :
      (rows : List Row) (c : Row)
      → find row_id id rows ≡ some c
      → is_running c.job.state ≡ true
      → live (update_job id (exhausted now) rows) < live rows
  unfolding live modify find
  live-exhausted_lt [] c h k = absurd (ground arith)
  live-exhausted_lt (r ∷ rows) c h k = elim (Bool-cases (text_eq r.job.id id)) [
    | inl same ↦
        let e : r ≡ c = ground arith in
        let running_row : is_running r.job.state ≡ true = rw e k in
        ground (arith, live-exhausted_le rows)
    | inr differs ↦ ground (arith, live-exhausted_lt rows c)
  ]

waiting_room :
    (kind : Bytes) (now : Time) (j : Job)
    → is_claimable kind now j ≡ true
    → is_running j.state ≡ false
    → j.attempts < j.max_attempts
unfolding is_claimable
waiting_room kind now j h k = ground arith

below : (m n : ℕ) → leb m n ≡ false → n < m
below m n h = ground arith

-- From any sound tables, with more rounds than running jobs, the loop gives a job or finds none.
pub claim_loop_lem :
    (fuel : ℕ) (locked : Bytes → Bool) (kind worker : Bytes) (duration : ℕ) (now : Time)
    (start db : Database)
    → live db.rows < fuel
    → IsSound db
    → let out = claim_loop fuel locked kind worker duration now start db in
      IsSound out.1 × Outcomes worker (now + duration) out.0 out.1
unfolding claim_loop
claim_loop_lem zero locked kind worker duration now start db m s = absurd (omega arith)
claim_loop_lem (suc fuel) locked kind worker duration now start db m s =
    elim (Option-cases (pick locked kind now db.rows)) [
      | inl nothing ↦ rw (nothing, claim_loop) (s, inr refl)
      | inr (j, e) ↦
          let (claimable, one_row) = picked locked kind now db j s e in
          let (r, found, is_j, p) = one_row in
          elim (Bool-cases (is_running j.state)) [
            | inr waiting ↦
                rw (e, waiting, claim_loop)
                  (lease_lem worker (now + duration) now db db.attempts j r s found is_j p
                    (Agrees-refl j.id db.attempts) (λ n. refl)
                    (closed_of db.attempts r j is_j p waiting)
                    (waiting_room kind now j claimable waiting))
            | inl run ↦
                let one : count_open j.id j.attempts db.attempts ≡ 1 =
                  subst (λ (i : Job). count_open i.id i.attempts db.attempts ≡ 1) is_j
                    (p.one_open (subst (λ (i : Job). is_running i.state ≡ true) (sym is_j) run)) in
                let done =
                  finish_attempt-ok j.id j.attempts attempt_lease_expired (some error_lease_expired)
                    now db.attempts one in
                let closed =
                  close_open j.id j.attempts attempt_lease_expired (some error_lease_expired) now
                    db.attempts in
                elim (Bool-cases (leb j.max_attempts j.attempts)) [
                  | inl last ↦
                      rw (e, run, done, last, claim_loop)
                        (claim_loop_lem fuel locked kind worker duration now start
                          (fail_exhausted db j closed now)
                          (omega (
                            arith,
                            live-exhausted_lt now j.id db.rows r found
                                (subst (λ (i : Job). is_running i.state ≡ true) (sym is_j) run),
                          ))
                          (end_lem (exhausted now) (Ends-exhausted now) db
                            (fail_exhausted db j closed now) j r attempt_lease_expired
                            (some error_lease_expired) now s found is_j p done refl))
                  | inr room ↦
                      rw (e, run, done, room, claim_loop)
                        (lease_lem worker (now + duration) now db closed j r s found is_j p
                          (Agrees-finish_attempt j.id j.attempts attempt_lease_expired
                            (some error_lease_expired) now db.attempts closed done)
                          (λ n.
                            count_attempts-finish_attempt j.id j.attempts attempt_lease_expired
                              (some error_lease_expired) now db.attempts closed done j.id n)
                          (finish_attempt-count_open j.id j.attempts attempt_lease_expired
                            (some error_lease_expired) now db.attempts closed done
                            (others_of db.attempts r j is_j p))
                          (below j.max_attempts j.attempts room))
                ]
          ]
    ]

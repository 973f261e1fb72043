-- ===== src/Job/Leases/Ownership.antt =====
-- A lease belongs to the worker that claimed it, until it expires.
use voice_asset_server.Base.{
  ◌≤◌, ◌<◌, ◌≡◌, refl, sym, ap, subst, ◌∙◌, Bool, true, false, ◌&&◌, none, [], arith, ltb, ◌==◌,
  if◌then◌else◌, text_eq, text_eq_refl, Result, ok, err, inl, inr, ◌⊎◌, lt→ltb,
}
use voice_asset_server.Base.Table.{All-find}
use voice_asset_server.Text.{Bytes, trim_space}
use voice_asset_server.Job.{
  Job, Database, Error, invalid_input, invalid_error_code, lease_conflict, attempt_succeeded,
  row_id, count_open, Time, valid_worker_id, greatest, owns_live_lease, lock_job,
}
use voice_asset_server.Job.Attempts.{finish_attempt-ok}
use voice_asset_server.Job.Invariant.{IsRow, IsSound}
use voice_asset_server.Job.Leases.{
  ClaimParams, SucceedParams, FailParams, claim, succeed, fail, succeed_locked, fail_locked,
  finish_owned, finish_with, is_known_revision, completed,
}
use voice_asset_server.Job.Leases.Claims.{Outcomes, Handed}
use voice_asset_server.Job.Leases.Work.{claim-Outcomes, lease_end}

-- Another worker, or too late.
abbrev pub Outside : Bytes → Time → Bytes → Time → Type 0
Outside worker expires other now = (text_eq worker other ≡ false) ⊎ (expires ≤ now)

-- Nobody but the worker, and nobody from `expires` on, finishes the job.
pub record IsExclusive (db : Database) (j : Job) (worker : Bytes) (expires : Time) : Type 0 where
  pub no_succeed :
      (p : SucceedParams) (clock : Time)
      → p.job_id ≡ j.id
      → Outside worker expires (trim_space p.worker_id) (greatest p.now clock)
      → (e : Error) × (succeed db p clock ≡ (err e, db))
  pub no_fail :
      (p : FailParams) (clock : Time)
      → p.job_id ≡ j.id
      → Outside worker expires (trim_space p.worker_id) (greatest p.now clock)
      → (e : Error) × (fail db p clock ≡ (err e, db))

handed_lock :
    (db : Database) (worker : Bytes) (expires : Time) (j : Job)
    → Handed db worker expires j
    → lock_job db.rows j.id ≡ ok j
unfolding lock_job
handed_lock db worker expires j h = rw (h.found, lock_job) (ap ok h.stored)

owns_handed :
    (db : Database) (worker other : Bytes) (expires now : Time) (j : Job)
    → Handed db worker expires j
    → owns_live_lease j other now ≡ (text_eq worker other && ltb now expires)
unfolding owns_live_lease
owns_handed db worker other expires now j h = rw (h.live, h.owner, h.until) refl

Outside-false :
    (worker other : Bytes) (expires now : Time)
    → Outside worker expires other now
    → (text_eq worker other && ltb now expires) ≡ false
Outside-false worker other expires now (inl differs) = rw differs refl
Outside-false worker other expires now (inr late) = ground arith

refused :
    {A : Type 0} (db : Database) (b : Bool) (d e : Error)
    → (x : Error) × ((◌≡◌ {A = Result Error A × Database}
        (if b then (err d, db) else (err e, db))
        (err x, db)))
refused db true d e = (d, refl)
refused db false d e = (e, refl)

refused_twice :
    {A : Type 0} (db : Database) (b c : Bool) (d e f : Error)
    → (x : Error) × ((◌≡◌ {A = Result Error A × Database}
        (if b then (err d, db) else if c then (err e, db) else (err f, db))
        (err x, db)))
refused_twice db true c d e f = (d, refl)
refused_twice db false true d e f = (e, refl)
refused_twice db false false d e f = (f, refl)

Handed-IsExclusive :
    (db : Database) (worker : Bytes) (expires : Time) (j : Job)
    → Handed db worker expires j
    → IsExclusive db j worker expires
unfolding succeed fail succeed_locked fail_locked
Handed-IsExclusive db worker expires j h = record {
  no_succeed = λ p clock own out.
      rw
        (
          own,
          handed_lock db worker expires j h,
          owns_handed db worker (trim_space p.worker_id) expires (greatest p.now clock) j h,
          Outside-false worker (trim_space p.worker_id) expires (greatest p.now clock) out,
          succeed,
          succeed_locked,
        )
        (refused db _ invalid_input lease_conflict);
  no_fail = λ p clock own out.
      rw
        (
          own,
          handed_lock db worker expires j h,
          owns_handed db worker (trim_space p.worker_id) expires (greatest p.now clock) j h,
          Outside-false worker (trim_space p.worker_id) expires (greatest p.now clock) out,
          fail,
          fail_locked,
        )
        (refused_twice db _ _ invalid_error_code invalid_input lease_conflict);
}

ok_eq : (i j : Job) → ◌≡◌ {A = Result Error Job} (ok i) (ok j) → i ≡ j
ok_eq i j h = cc

err_ne_ok : {e : Error} {j : Job} → ◌≡◌ {A = Result Error Job} (err e) (ok j) → ⊥
err_ne_ok h = cc

module _ (db db' : Database) (locked : Bytes → Bool) (p : ClaimParams) (clock : Time) (j : Job)
    (s : IsSound db) (claimed : claim db locked p clock ≡ (ok j, db')) where
  handed : Handed db' (trim_space p.worker_id) (lease_end p clock) j
  handed = from_outcome (claim-Outcomes db locked p clock s).1
    where
      from_outcome :
          (Outcomes
              (trim_space p.worker_id)
              (lease_end p clock)
              (claim db locked p clock).0
              (claim db locked p clock).1
            ⊎ (claim db locked p clock ≡ (err invalid_input, db)))
          → Handed db' (trim_space p.worker_id) (lease_end p clock) j
      from_outcome (inl (inl (i, e, h))) =
          subst (λ k. Handed db' (trim_space p.worker_id) (lease_end p clock) k)
            (ok_eq i j (sym e ∙ ap (λ (o : Result Error Job × Database). o.0) claimed))
            (subst (λ d. Handed d (trim_space p.worker_id) (lease_end p clock) i)
              (ap (λ (o : Result Error Job × Database). o.1) claimed) h)
      from_outcome (inl (inr e)) =
          absurd (err_ne_ok (sym e ∙ ap (λ (o : Result Error Job × Database). o.0) claimed))
      from_outcome (inr e) =
          absurd (err_ne_ok (ap (λ (o : Result Error Job × Database). o.0) (sym e ∙ claimed)))

  -- A job that was claimed is finished by nobody else while the lease lasts, and by nobody at all once
  -- it has expired: every such request of `succeed` or `fail` is refused and changes nothing.
  pub claim-IsExclusive : IsExclusive db' j (trim_space p.worker_id) (lease_end p clock)
  claim-IsExclusive = Handed-IsExclusive db' (trim_space p.worker_id) (lease_end p clock) j handed

  claim-IsSound : IsSound db'
  claim-IsSound =
      subst IsSound (ap (λ (o : Result Error Job × Database). o.1) claimed)
        (claim-Outcomes db locked p clock s).0

  can_finish : count_open j.id j.attempts db'.attempts ≡ 1
  can_finish =
      let h = handed in
      let r = All-find row_id (IsRow db'.attempts) j.id db'.rows h.row claim-IsSound.rows h.found in
      subst (λ (i : Job). count_open i.id i.attempts db'.attempts ≡ 1) h.stored
        (r.one_open (rw (h.stored, h.live) refl))

  -- The worker that claimed a job and reports its success in time is heard, if it gives no revision or
  -- one that exists: the job is returned as succeeded, with this revision.
  pub claim-succeed :
      (q : SucceedParams) (later : Time)
      → q.job_id ≡ j.id
      → trim_space q.worker_id ≡ trim_space p.worker_id
      → text_eq q.job_id [] ≡ false
      → valid_worker_id (trim_space q.worker_id) ≡ true
      → (q.now == 0) ≡ false
      → greatest q.now later < lease_end p clock
      → is_known_revision q.result_revision_id db'.revisions ≡ true
      → (succeed db' q later).0 ≡ ok (completed q.result_revision_id (greatest q.now later) j)
  unfolding succeed succeed_locked finish_owned finish_with
  claim-succeed q later own same known valid on_time before exists =
      let h = handed in
      let now = greatest q.now later in
      let owns : owns_live_lease j (trim_space q.worker_id) now ≡ true =
        owns_handed db' (trim_space p.worker_id) (trim_space q.worker_id) (lease_end p clock) now j
          h
        ∙ rw (same, text_eq_refl (trim_space p.worker_id), lt→ltb now (lease_end p clock) before)
            refl in
      let done =
        finish_attempt-ok j.id j.attempts attempt_succeeded none now db'.attempts can_finish in
      let lock : lock_job db'.rows q.job_id ≡ ok j =
        subst (λ i. lock_job db'.rows i ≡ ok j) (sym own)
          (handed_lock db' (trim_space p.worker_id) (lease_end p clock) j h) in
      rw (known, valid, on_time, lock, succeed, succeed_locked)
        (rw (owns, done, exists, finish_owned) refl)

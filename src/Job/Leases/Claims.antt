-- ===== src/Job/Leases/Claims.antt =====
-- The job that `claim` picks, and how it is handed out.
use voice_asset_server.Base.{
  ℕ, suc, ◌≤◌, ◌<◌, ◌≡◌, refl, sym, ap, subst, ◌∙◌, Bool, true, not, ◌&&◌, none, some, List, [],
  ◌∷◌, arith, text_eq_refl, All, Result, ok, err, Bool-cases, Option-cases, inl, inr, ◌⊎◌,
}
use voice_asset_server.Base.Table.{find, All-find, All-find_self, All-map, find-modify}
use voice_asset_server.Text.{Bytes}
use voice_asset_server.Job.{
  running, Job, Row, Attempt, Database, Error, no_claimable_job, row_id, count_attempts, count_open,
  update_job, Time,
}
use voice_asset_server.Job.Attempts.{Agrees, Agrees-cons, count_open-le-count_attempts}
use voice_asset_server.Job.Invariant.{IsRow, IsSound, IsSound-update_job}
use voice_asset_server.Job.Leases.{is_claimable, first_of, pick, leased, lease}

first_of-cases : (i j : Job) → (first_of i (some j) ≡ i) ⊎ (first_of i (some j) ≡ j)
unfolding first_of
first_of-cases i j = ground arith

some_eq : (i j : Job) → some i ≡ some j → i ≡ j
some_eq i j h = cc

head_only : (i j : Job) → some (first_of i none) ≡ some j → i ≡ j
unfolding first_of
head_only i j h = cc

-- The job that is picked is one of the rows, and claimable.
pick_lem :
    (locked : Bytes → Bool) (kind : Bytes) (now : Time) (P : Job → Type 0) (rows : List Row)
    (j : Job)
    → All (λ r. is_claimable kind now r.job ≡ true → P r.job) rows
    → pick locked kind now rows ≡ some j
    → P j
unfolding pick
pick_lem locked kind now P [] j a h = absurd (ground arith)
pick_lem locked kind now P (r ∷ rows) j a h =
    elim (Bool-cases (is_claimable kind now r.job && not (locked r.job.id))) [
      | inr no_match ↦ pick_lem locked kind now P rows j a.1 (rw (no_match, pick) at h)
      | inl match ↦ elim (Option-cases (pick locked kind now rows)) [
        | inl none_left ↦
            subst P (head_only r.job j (rw (match, none_left, pick) at h)) (a.0 (ground arith))
        | inr (i, found) ↦
            let e = some_eq (first_of r.job (some i)) j (rw (match, found, pick) at h) in
            elim (first_of-cases r.job i) [
              | inl first ↦ subst P (sym first ∙ e) (a.0 (ground arith))
              | inr second ↦
                  pick_lem locked kind now P rows j a.1 (found ∙ ap some (sym second ∙ e))
            ]
      ]
    ]

-- A picked job is a row of the table, by its identifier.
pub picked :
    (locked : Bytes → Bool) (kind : Bytes) (now : Time) (db : Database) (j : Job)
    → IsSound db
    → pick locked kind now db.rows ≡ some j
    → (is_claimable kind now j ≡ true)
      × ((r : Row) × (find row_id j.id db.rows ≡ some r) × (r.job ≡ j) × IsRow db.attempts r)
picked locked kind now db j s h =
    pick_lem locked kind now
      (λ i.
        (is_claimable kind now i ≡ true)
        × ((r : Row) × (find row_id i.id db.rows ≡ some r) × (r.job ≡ i) × IsRow db.attempts r))
      db.rows j
      (All-map row_id (λ r. find row_id r.job.id db.rows ≡ some r)
        (λ r.
          is_claimable kind now r.job ≡ true
          → (is_claimable kind now r.job ≡ true)
            × ((q : Row) × (find row_id r.job.id db.rows ≡ some q)
                × (q.job ≡ r.job)
                × IsRow db.attempts q))
        db.rows
        (λ r p c.
          (c, (r, p, refl, All-find row_id (IsRow db.attempts) r.job.id db.rows r s.rows p)))
        (All-find_self row_id db.rows s.keys))
      h

-- What a worker is handed: a row of the table that is running under its lease, within the limit.
pub record Handed (db : Database) (worker : Bytes) (expires : Time) (j : Job) : Type 0 where
  pub row : Row
  pub found : find row_id j.id db.rows ≡ some row
  pub stored : row.job ≡ j
  pub live : j.state ≡ running
  pub owner : j.lease_owner ≡ some worker
  pub until : j.lease_expires_at ≡ some expires
  pub within : j.attempts ≤ j.max_attempts

abbrev pub Outcomes : Bytes → Time → Result Error Job → Database → Type 0
Outcomes worker expires out db =
    ((j : Job) × (out ≡ ok j) × Handed db worker expires j) ⊎ (out ≡ err no_claimable_job)

module _ (worker : Bytes) (expires now : Time) where
  lease_row :
      (old new : List Attempt) (r : Row) (a : Attempt)
      → IsRow old r
      → ((n : ℕ) → count_attempts r.job.id n new ≡ count_attempts r.job.id n old)
      → ((n : ℕ) → count_open r.job.id n new ≡ 0)
      → r.job.attempts < r.job.max_attempts
      → a.job_id ≡ r.job.id
      → a.attempt ≡ suc r.job.attempts
      → a.outcome ≡ none
      → IsRow (a ∷ new) (record r { job = leased worker expires now (suc r.job.attempts) r.job })
  unfolding count_attempts count_open
  lease_row old new r a p same closed room own number no_outcome = record {
    leases = refl;
    limit = omega arith;
    code = refl;
    one_open = λ h. ground (
      arith,
      text_eq_refl r.job.id,
      p.numbered (suc r.job.attempts),
      same (suc r.job.attempts),
      count_open-le-count_attempts r.job.id (suc r.job.attempts) new,
    );
    others_closed = λ n h. ground (arith, closed n);
    numbered = λ n h. ground (arith, p.numbered n, same n);
  }

  -- Handing a job out, with the attempts as they are once an expired one is closed.
  pub lease_lem :
      (db : Database) (new : List Attempt) (j : Job) (r : Row)
      → IsSound db
      → find row_id j.id db.rows ≡ some r
      → r.job ≡ j
      → IsRow db.attempts r
      → Agrees j.id db.attempts new
      → ((n : ℕ) → count_attempts j.id n new ≡ count_attempts j.id n db.attempts)
      → ((n : ℕ) → count_open j.id n new ≡ 0)
      → j.attempts < j.max_attempts
      → let out = lease (record db { attempts = new }) j worker expires now in
        IsSound out.1 × Outcomes worker expires out.0 out.1
  unfolding lease
  lease_lem db new j r s found is_j p agrees same closed room =
      let fresh : count_attempts j.id (suc j.attempts) new ≡ 0 =
        same (suc j.attempts)
        ∙ subst (λ i. count_attempts i.id (suc i.attempts) db.attempts ≡ 0) is_j
            (p.numbered (suc r.job.attempts) (omega arith)) in
      let attempt : Attempt = record {
        job_id = j.id;
        attempt = suc j.attempts;
        worker_id = worker;
        outcome = none;
        error_code = none;
        started_at = now;
        finished_at = none;
      } in
      let f = leased worker expires now (suc j.attempts) in
      let db' = record db { rows = update_job j.id f db.rows; attempts = attempt ∷ new } in
      rw fresh (
        IsSound-update_job db db' j.id f r s found (λ i. refl) refl (Agrees-cons attempt _ _ agrees)
            (λ q.
              subst
                (λ (i : Job).
                  IsRow (attempt ∷ new)
                    (record r { job = leased worker expires now (suc i.attempts) r.job }))
                is_j
                (lease_row db.attempts new r attempt q
                  (λ n.
                    subst
                      (λ (i : Job). count_attempts i.id n new ≡ count_attempts i.id n db.attempts)
                      (sym is_j) (same n))
                  (λ n. subst (λ (i : Job). count_open i.id n new ≡ 0) (sym is_j) (closed n))
                  (subst (λ (i : Job). i.attempts < i.max_attempts) (sym is_j) room)
                  (sym (ap (λ (i : Job). i.id) is_j)) (sym (ap (λ (i : Job). suc i.attempts) is_j))
                  refl)),
        inl (
          f j,
          refl,
          record {
            row = record r { job = f r.job };
            found =
                find-modify row_id (λ q. record q { job = f q.job }) (λ q. refl) j.id db.rows r
                  found;
            stored = ap f is_j;
            live = refl;
            owner = refl;
            until = refl;
            within = omega arith;
          },
        ),
      )

-- ===== src/Job/Requests/Replay.antt =====
-- Creating a job is idempotent under its key, and keeps the tables sound.
use voice_asset_server.Base.{
  ℕ, ◌≡◌, refl, ap, subst, ◌∙◌, Bool, true, false, not, ◌||◌, Option, none, some, List, ◌∷◌, arith,
  ◌==◌, if◌then◌else◌, text_eq, text_eq_refl, Result, ok, err, Bool-cases, Option-cases, inl, inr,
}
use voice_asset_server.Text.{Bytes, between}
use voice_asset_server.Job.{Error, idempotency_conflict, Job, Row, Asset, Database, Time}
use voice_asset_server.Job.Requests.{
  CreateTranscriptionParams, create_transcription, is_ready, load_by_key, replay, violates_unique,
  insert_job, inserted, insert_transcription, mark_asset, mark_processing, with_asset, lock_asset,
  find_asset, transcription_job,
}

-- A job that was inserted is found under its key, with the hash of its request.
load_by_key-head :
    (j : Job) (key hash : Bytes) (rows : List Row)
    → load_by_key j.workspace_id key
        ((record { job = j; idempotency_key = key; request_hash = hash }) ∷ rows)
      ≡ some (record { job = j; idempotency_key = key; request_hash = hash })
unfolding load_by_key
load_by_key-head j key hash rows = rw (text_eq_refl j.workspace_id, text_eq_refl key) refl

-- The rows after an insertion, and what the check of the unique columns has shown.
insert_job-inserted :
    (j : Job) (key hash : Bytes) (rows rows' : List Row)
    → insert_job j key hash rows ≡ inserted rows'
    → (rows' ≡ (record { job = j; idempotency_key = key; request_hash = hash }) ∷ rows)
      × (violates_unique j rows ≡ false)
unfolding insert_job
insert_job-inserted j key hash rows rows' h = ground arith

-- What an answer says of the tables: a job that is new is stored under the key of the request.
abbrev Stored : CreateTranscriptionParams → Result Error (Job × Bool) × Database → Type 0
Stored p (ok (j, false), db) =
    load_by_key p.workspace_id p.idempotency_key db.rows
    ≡ some (record { job = j; idempotency_key = p.idempotency_key; request_hash = p.request_hash })
Stored p (ok (j, true), db) = Unit
Stored p (err e, db) = Unit

replay-Stored :
    (db : Database) (p : CreateTranscriptionParams) (r : Row)
    → Stored p (replay r p.request_hash, db)
replay-Stored db p r = elim (Bool-cases (text_eq r.request_hash p.request_hash)) [
  | inl same ↦ rw same tt
  | inr differs ↦ rw differs tt
]

mark_asset-Stored :
    (db : Database) (p : CreateTranscriptionParams) (clock : Time) (rows : List Row)
    → Stored p (
        mark_asset db p (transcription_job p clock) (
          (record {
            job = transcription_job p clock;
            idempotency_key = p.idempotency_key;
            request_hash = p.request_hash;
          })
          ∷ rows))
unfolding mark_asset transcription_job
mark_asset-Stored db p clock rows =
    elim (Bool-cases ((mark_processing p.asset_id p.workspace_id db.assets).0 == 1)) [
      | inl one ↦
          rw one
            (load_by_key-head (transcription_job p clock) p.idempotency_key p.request_hash rows)
      | inr none_ready ↦ rw none_ready tt
    ]

insert_transcription-Stored :
    (db : Database) (p : CreateTranscriptionParams) (clock : Time)
    → Stored p (
        insert_transcription db p
          (transcription_job p clock)
          (insert_job (transcription_job p clock) p.idempotency_key p.request_hash db.rows))
unfolding insert_transcription insert_job transcription_job
insert_transcription-Stored db p clock =
    elim (Option-cases (load_by_key p.workspace_id p.idempotency_key db.rows)) [
      | inl fresh ↦ elim (Bool-cases (between 1 20 p.max_attempts)) [
        | inr bad ↦ rw (fresh, bad, insert_job, insert_transcription, Stored) tt
        | inl fine ↦ elim (Bool-cases (violates_unique (transcription_job p clock) db.rows)) [
          | inl clash ↦ rw (fresh, fine, clash, insert_job, insert_transcription, Stored) tt
          | inr free ↦
              rw (fresh, fine, free, insert_job, insert_transcription)
                (mark_asset-Stored db p clock db.rows)
        ]
      ]
      | inr (r, known) ↦ rw (known, insert_job, insert_transcription) (replay-Stored db p r)
    ]

lock_asset-Stored :
    (db : Database) (others : Database → Database) (p : CreateTranscriptionParams) (clock : Time)
    (a : Option Asset)
    → Stored p (lock_asset db others p clock a)
unfolding lock_asset with_asset
lock_asset-Stored db others p clock none = tt
lock_asset-Stored db others p clock (some a) =
    elim (Option-cases (load_by_key p.workspace_id p.idempotency_key db.rows)) [
      | inr (r, known) ↦ rw (known, with_asset, lock_asset) (replay-Stored db p r)
      | inl fresh ↦ elim (Bool-cases (not (is_ready a.status) || not a.has_original)) [
        | inl unready ↦ rw (fresh, unready, with_asset, lock_asset, Stored) tt
        | inr ready ↦
            rw (fresh, ready, with_asset, lock_asset)
              (insert_transcription-Stored (others db) p clock)
      ]
    ]

create_transcription-Stored :
    (db : Database) (others : ℕ → Database → Database) (p : CreateTranscriptionParams)
    (clock : Time)
    → Stored p (create_transcription db others p clock)
unfolding create_transcription
create_transcription-Stored db others p clock =
    elim (Option-cases (load_by_key p.workspace_id p.idempotency_key db.rows)) [
      | inr (r, known) ↦ rw (known, create_transcription) (replay-Stored db p r)
      | inl fresh ↦
          rw (fresh, create_transcription)
            (lock_asset-Stored (others 0 db) (others 1) p clock
              (find_asset p.asset_id p.workspace_id (others 0 db).assets))
    ]

-- After a request has created a job, a request of the same workspace under the same key is answered
-- from the stored job and changes nothing, whatever else it asks for: with the same hash it returns that
-- job as a replay, with another hash it is refused as a conflict.
pub create_transcription-again :
    (db db' : Database) (others others' : ℕ → Database → Database) (p q : CreateTranscriptionParams)
    (clock later : Time) (j : Job)
    → create_transcription db others p clock ≡ (ok (j, false), db')
    → q.workspace_id ≡ p.workspace_id
    → q.idempotency_key ≡ p.idempotency_key
    → create_transcription db' others' q later ≡ (
      if text_eq p.request_hash q.request_hash then ok (j, true) else err idempotency_conflict,
      db',
    )
unfolding create_transcription
create_transcription-again db db' others others' p q clock later j made same_workspace same_key =
    let stored : load_by_key q.workspace_id q.idempotency_key db'.rows
        ≡ some (record {
          job = j;
          idempotency_key = p.idempotency_key;
          request_hash = p.request_hash;
        }) =
      ap (λ w. load_by_key w q.idempotency_key db'.rows) same_workspace
      ∙ ap (λ k. load_by_key p.workspace_id k db'.rows) same_key
      ∙ subst (Stored p) made (create_transcription-Stored db others p clock) in
    rw (stored, create_transcription) refl

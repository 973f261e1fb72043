-- ===== src/Job/Tests.antt =====
-- The theorems on the job queue at concrete inputs.
use voice_asset_server.Base.{
  ℕ, ◌≡◌, refl, Bool, true, false, some, [], ◌∷◌, arith, text_eq, if◌then◌else◌, ok, err, ◌⊎◌,
}
use voice_asset_server.Base.Int.{pos}
use voice_asset_server.Base.Table.{find, modify}
use voice_asset_server.Text.{Bytes, codes, trim_space, is_control}
use voice_asset_server.Job.{
  Job, Database, asset_ready, idempotency_conflict, finish_attempt, count_open, count_attempts,
  close_open, fail_asset, fail_asset_of, valid_worker_id, invalid_input,
}
use voice_asset_server.Job.Invariant.{IsSound}
use voice_asset_server.Job.Leases.{
  ClaimParams, SucceedParams, is_claimable, pick, claim_loop, claim, leased, completed, succeed,
  is_known_revision,
}
use voice_asset_server.Job.Leases.Order.{IsFirst, pick-IsFirst}
use voice_asset_server.Job.Leases.Claims.{Outcomes}
use voice_asset_server.Job.Leases.Work.{
  lease_end, claim-Outcomes, claims, fails, after_all, after_all-IsSound,
}
use voice_asset_server.Job.Leases.Ownership.{IsExclusive, claim-IsExclusive, claim-succeed}
use voice_asset_server.Job.Requests.{
  CreateTranscriptionParams, load_by_key, violates_unique, find_asset, mark_processing, insert_job,
  create_transcription,
}
use voice_asset_server.Job.Requests.Replay.{create_transcription-again}
use voice_asset_server.Job.Samples.{stuck, waiting, tables, tables-IsSound}

abbrev nothing_locked : Bytes → Bool
nothing_locked id = false

abbrev by_worker : ClaimParams
by_worker = record { kind = codes "k"; worker_id = codes "w1"; now = 100; lease_duration = pos 30 }

abbrev handed : Job
handed = leased (codes "w1") 130 100 1 waiting

abbrev tables_after : Database
tables_after = (claim tables nothing_locked by_worker 90).1

claim_runs : claim tables nothing_locked by_worker 90 ≡ (ok handed, tables_after)
unfolding claim claim_loop pick is_claimable finish_attempt count_open count_attempts close_open
    fail_asset fail_asset_of find modify valid_worker_id text_eq codes trim_space is_control
claim_runs = refl

claim-Outcomes_example :
    let out = claim tables nothing_locked by_worker 90 in
    IsSound out.1
    × (Outcomes (trim_space (codes "w1")) (lease_end by_worker 90) out.0 out.1
        ⊎ (out ≡ (err invalid_input, tables)))
claim-Outcomes_example = claim-Outcomes tables nothing_locked by_worker 90 tables-IsSound

after_all-IsSound_example : IsSound (
    after_all tables (
      claims nothing_locked by_worker 90
      ∷ fails
          (record {
            job_id = codes "b";
            worker_id = codes "w1";
            error_code = codes "internal_error";
            now = 110;
            retry_at = 120;
          })
          111
      ∷ []))
after_all-IsSound_example =
    after_all-IsSound tables
      (claims nothing_locked by_worker 90
        ∷ fails
            (record {
              job_id = codes "b";
              worker_id = codes "w1";
              error_code = codes "internal_error";
              now = 110;
              retry_at = 120;
            })
            111
        ∷ [])
      tables-IsSound

claim-IsExclusive_example :
    IsExclusive tables_after handed (trim_space (codes "w1")) (lease_end by_worker 90)
claim-IsExclusive_example =
    claim-IsExclusive tables tables_after nothing_locked by_worker 90 handed tables-IsSound
      claim_runs

abbrev success : SucceedParams
success = record {
  job_id = codes "b";
  worker_id = codes "w1";
  result_revision_id = some (codes "r");
  now = 110;
}

valid_worker : valid_worker_id (trim_space success.worker_id) ≡ true
unfolding valid_worker_id trim_space codes is_control
valid_worker = refl

has_id : text_eq success.job_id [] ≡ false
unfolding text_eq codes
has_id = refl

revision_exists : is_known_revision success.result_revision_id tables_after.revisions ≡ true
unfolding is_known_revision claim claim_loop pick is_claimable finish_attempt count_open
    count_attempts close_open fail_asset fail_asset_of find modify valid_worker_id text_eq codes
    trim_space is_control
revision_exists = refl

lease_end_value : lease_end by_worker 90 ≡ 130
lease_end_value = refl

claim-succeed_example :
    (succeed tables_after success 115).0 ≡ ok (completed (some (codes "r")) 115 handed)
claim-succeed_example =
    claim-succeed tables tables_after nothing_locked by_worker 90 handed tables-IsSound claim_runs
      success 115 refl refl has_id valid_worker refl (rw lease_end_value (omega arith))
      revision_exists

abbrev ready_tables : Database
ready_tables = record tables {
  rows = [];
  assets =
      (record {
        id = codes "z";
        workspace_id = codes "w";
        status = asset_ready;
        deleted = false;
        has_original = true;
        version = 1;
      })
      ∷ [];
}

abbrev transcription : CreateTranscriptionParams
transcription = record {
  job_id = codes "c";
  audit_id = codes "d";
  workspace_id = codes "w";
  asset_id = codes "z";
  created_by = codes "u";
  kind = codes "k";
  payload = [];
  max_attempts = 3;
  idempotency_key = codes "4";
  request_hash = codes "h";
}

abbrev undisturbed : ℕ → Database → Database
undisturbed n db = db

abbrev created : Job
created = record waiting {
  id = codes "c";
  asset_id = codes "z";
  available_at = 60;
  created_at = 60;
  updated_at = 60;
}

abbrev created_tables : Database
created_tables = (create_transcription ready_tables undisturbed transcription 60).1

create_runs :
    create_transcription ready_tables undisturbed transcription 60
    ≡ (ok (created, false), created_tables)
unfolding create_transcription load_by_key find_asset mark_processing insert_job violates_unique
    text_eq codes
create_runs = refl

create_transcription-again_example :
    create_transcription created_tables undisturbed
      (record transcription { asset_id = codes "y" })
      70
    ≡ (
      if text_eq (codes "h") (codes "h") then ok (created, true) else err idempotency_conflict,
      created_tables,
    )
create_transcription-again_example =
    create_transcription-again ready_tables created_tables undisturbed undisturbed transcription
      (record transcription { asset_id = codes "y" }) 60 70 created create_runs refl refl

-- The job whose lease has expired comes before the one that waits.
pick_runs : pick nothing_locked (codes "k") 100 tables.rows ≡ some stuck
unfolding pick is_claimable text_eq codes
pick_runs = refl

pick-IsFirst_example :
    IsFirst nothing_locked
      (codes "k")
      100
      (pick nothing_locked (codes "k") 100 tables.rows)
      tables.rows
pick-IsFirst_example = pick-IsFirst nothing_locked (codes "k") 100 tables.rows

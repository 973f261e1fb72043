-- ===== src/Job/Samples.antt =====
-- Tables with two jobs, for the tests of the job queue: one ran into the end of its last lease, one waits.
use voice_asset_server.Base.{refl, true, false, none, some, [], ◌∷◌, arith, text_eq}
use voice_asset_server.Text.{codes}
use voice_asset_server.Job.{
  queued, running, Job, Attempt, Asset, asset_processing, Revision, Database, count_attempts,
  count_open,
}
use voice_asset_server.Job.Invariant.{IsSound}

abbrev pub waiting : Job
waiting = record {
  id = codes "b";
  workspace_id = codes "w";
  asset_id = codes "y";
  created_by = codes "u";
  kind = codes "k";
  state = queued;
  payload = [];
  attempts = 0;
  max_attempts = 3;
  available_at = 10;
  lease_owner = none;
  lease_expires_at = none;
  last_error_code = none;
  result_revision_id = none;
  created_at = 10;
  updated_at = 10;
}

abbrev pub stuck : Job
stuck = record waiting {
  id = codes "a";
  asset_id = codes "x";
  state = running;
  attempts = 1;
  max_attempts = 1;
  lease_owner = some (codes "v");
  lease_expires_at = some 50;
}

abbrev first_attempt : Attempt
first_attempt = record {
  job_id = codes "a";
  attempt = 1;
  worker_id = codes "v";
  outcome = none;
  error_code = none;
  started_at = 20;
  finished_at = none;
}

abbrev processing : Asset
processing = record {
  id = codes "x";
  workspace_id = codes "w";
  status = asset_processing;
  deleted = false;
  has_original = true;
  version = 2;
}

abbrev revision : Revision
revision = record {
  id = codes "r";
  workspace_id = codes "w";
  asset_id = codes "y";
  kind = codes "human";
  has_segments = true;
  asset_deleted = false;
}

abbrev pub tables : Database
tables = record {
  rows =
      (record { job = stuck; idempotency_key = codes "1"; request_hash = [] })
      ∷ (record { job = waiting; idempotency_key = codes "2"; request_hash = [] })
      ∷ [];
  attempts = first_attempt ∷ [];
  assets = processing ∷ [];
  revisions = revision ∷ [];
  audits = [];
}

pub tables-IsSound : IsSound tables
unfolding text_eq codes count_attempts count_open
tables-IsSound = record {
  keys = ((refl, tt), (tt, tt));
  rows = (
    record {
      leases = refl;
      limit = omega arith;
      code = refl;
      one_open = λ h. refl;
      others_closed = λ n h. ground arith;
      numbered = λ n h. ground arith;
    },
    (
      record {
        leases = refl;
        limit = omega arith;
        code = refl;
        one_open = λ h. ground arith;
        others_closed = λ n h. refl;
        numbered = λ n h. refl;
      },
      tt,
    ),
  );
}

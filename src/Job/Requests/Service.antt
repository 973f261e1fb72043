-- ===== src/Job/Requests/Service.antt =====
-- internal/job/service.go: the requests of users. The errors of the repository that the service does not
-- name become `internal`, which they are here already.
use voice_asset_server.Base.{
  ℕ, Bool, not, ◌||◌, Option, none, some, if◌then◌else◌, text_eq, ◌++◌, ◌∷◌, [], Result, ok, err,
}
use voice_asset_server.Text.{Bytes, codes, trim_space}
use voice_asset_server.Identifier.{new_uuid_from, normalize_uuid}
use voice_asset_server.Auth.{
  Principal, can, transcriptions_write, transcripts_read, corrections_write,
}
use voice_asset_server.Job.{
  Error, forbidden, invalid_input, not_found, internal, Time, Job, Database, valid_worker_id,
  job_of,
}
use voice_asset_server.Job.Requests.{
  CreateTranscriptionParams, CreateCorrectionParams, create_transcription, create_correction,
  find_in_workspace,
}

-- What a request reads of the world: `digest` is the SHA-256 digest in hexadecimal digits.
pub record Env : Type 0 where
  pub principal : Principal
  pub random : Bytes
  pub clock : Time
  pub others : ℕ → Database → Database
  pub digest : Bytes → Bytes
  pub encode_asset : Bytes → Bytes
  pub encode_revision : Bytes → Bytes
  pub read_id : Bytes → Option Bytes

abbrev pub default_max_attempts : ℕ
default_max_attempts = 3

abbrev pub kind_mock_transcribe : Bytes
kind_mock_transcribe = codes "mock_transcribe"

abbrev pub kind_llm_correct : Bytes
kind_llm_correct = codes "llm_correct"

abbrev pub transcription_params :
    Env → Bytes → Bytes → Bytes → Bytes → Bytes → CreateTranscriptionParams
transcription_params env asset read key job audit = record {
  job_id = job;
  audit_id = audit;
  workspace_id = env.principal.workspace_id;
  asset_id = read;
  created_by = env.principal.user_id;
  kind = kind_mock_transcribe;
  payload = env.encode_asset asset;
  max_attempts = default_max_attempts;
  idempotency_key = key;
  request_hash = env.digest (kind_mock_transcribe ++ (0 ∷ asset));
}

abbrev pub correction_params : Env → Bytes → Bytes → Bytes → Bytes → CreateCorrectionParams
correction_params env revision key job audit = record {
  job_id = job;
  audit_id = audit;
  workspace_id = env.principal.workspace_id;
  source_revision_id = revision;
  created_by = env.principal.user_id;
  kind = kind_llm_correct;
  payload = env.encode_revision revision;
  max_attempts = default_max_attempts;
  idempotency_key = key;
  request_hash = env.digest (kind_llm_correct ++ (0 ∷ revision));
}

-- Two fresh identifiers.
with_ids :
    Env
    → (Bytes → Bytes → Result Error (Job × Bool) × Database)
    → Database
    → Result Error (Job × Bool) × Database
with_ids env use_ids db = elim (new_uuid_from env.random) [
  | err e ↦ (err internal, db)
  | ok (job, rest) ↦ elim (new_uuid_from rest) [
    | err e ↦ (err internal, db)
    | ok (audit, rest') ↦ use_ids job audit
  ]
]

-- Text that is no identifier fails the first query that compares it.
transcribe :
    Database
    → Env
    → Bytes
    → Bytes
    → Option Bytes
    → Bytes
    → Bytes
    → Result Error (Job × Bool) × Database
transcribe db env asset key none job audit = (err internal, db)
transcribe db env asset key (some read) job audit =
    create_transcription db env.others (transcription_params env asset read key job audit) env.clock

-- `CreateTranscription`
unfoldable pub request_transcription :
    Database → Env → Bytes → Bytes → Result Error (Job × Bool) × Database
unfolding with_ids transcribe
request_transcription db env asset_text key_text =
    let asset = trim_space asset_text in
    let key = trim_space key_text in
    if not (can env.principal transcriptions_write)
    then (err forbidden, db)
    else if text_eq asset [] || not (valid_worker_id key)
    then (err invalid_input, db)
    else with_ids env (transcribe db env asset key (env.read_id asset)) db

correct : Database → Env → Bytes → Option Bytes → Result Error (Job × Bool) × Database
unfolding with_ids
correct db env key none = (err invalid_input, db)
correct db env key (some revision) =
    if not (valid_worker_id key)
    then (err invalid_input, db)
    else with_ids env
        (λ job audit.
          create_correction db env.others (correction_params env revision key job audit) env.clock)
        db

-- `CreateCorrection`
unfoldable pub request_correction :
    Database → Env → Bytes → Bytes → Result Error (Job × Bool) × Database
unfolding correct
request_correction db env revision_text key_text =
    if not (can env.principal corrections_write)
    then (err forbidden, db)
    else correct db env (trim_space key_text) (normalize_uuid revision_text)

get_read : Database → Env → Option Bytes → Result Error Job
get_read db env none = err internal
get_read db env (some id) = job_of (find_in_workspace id env.principal.workspace_id db.rows)

-- `Get`
unfoldable pub get : Database → Env → Bytes → Result Error Job
unfolding get_read
get db env id =
    if not (can env.principal transcripts_read)
    then err forbidden
    else if text_eq (trim_space id) []
    then err not_found
    else get_read db env (env.read_id (trim_space id))

-- ===== src/Review/Samples.antt =====
-- The data that the tests of this package run on: a transcript of two segments, of which the correction
-- changes the first.
use voice_asset_server.Base.{◌==◌, false, Option, none, some, List, [], ◌∷◌, if◌then◌else◌, text_eq}
use voice_asset_server.Base.Int.{pos}
use voice_asset_server.Text.{Bytes, codes}
use voice_asset_server.Transcript.{Segment, Revision, Row, llm_corrected, revision, Transcript}
use voice_asset_server.Review.{Change, Record, accept_change}
use voice_asset_server.Review.Content.{Content}
use voice_asset_server.Review.Repository.{Codec, Database, DecisionParams, ApprovalParams}
use voice_asset_server.Review.Approval.{pending}

abbrev pub segment : Bytes → Bytes → Segment
segment id text = record {
  id = id;
  ordinal = 0;
  start_ms = pos 0;
  end_ms = pos 40;
  speaker = none;
  text = text;
  confidence = none;
  words = codes "[]";
}

abbrev pub change : Change
change = record {
  segment_id = codes "s1";
  original = codes "teh";
  replacement = codes "the";
  confidence = 0;
  reason = codes "spelling";
}

abbrev row : Bytes → Option Bytes → Bytes → Bytes → Bytes → List Segment → Row
row id parent kind text diff segments = record {
  id = id;
  transcript_id = codes "t";
  parent_revision_id = parent;
  kind = kind;
  text = text;
  provider_snapshot = codes "{}";
  hotword_snapshot = codes "{}";
  glossary_snapshot = codes "{}";
  diff = diff;
  validation_result = codes "{}";
  provider_raw_object_id = none;
  source_job_id = none;
  created_by = none;
  created_by_type = codes "system";
  model = none;
  prompt_version = none;
  review_status = pending;
  created_at = 3;
  segments = segments;
}

abbrev parent_row : Row
parent_row =
    row (codes "p") none (codes "normalized") (codes "say teh word") (codes "{}")
      (segment (codes "s1") (codes "teh") ∷ segment (codes "s2") (codes "word") ∷ [])

abbrev source_row : Row
source_row =
    row (codes "s") (some (codes "p")) llm_corrected (codes "say the word") (codes "diff")
      (segment (codes "c1") (codes "the") ∷ segment (codes "c2") (codes "word") ∷ [])

abbrev transcript : Transcript
transcript = record { id = codes "t"; asset_id = codes "a"; language = codes "en"; created_at = 1 }

abbrev pub parent : Revision
parent = revision parent_row transcript

abbrev pub source : Revision
source = revision source_row transcript

abbrev pub db : Database
db = record {
  tables = record {
    assets = (record { id = codes "a"; workspace_id = codes "w"; is_deleted = false }) ∷ [];
    transcripts = transcript ∷ [];
    revisions = source_row ∷ parent_row ∷ [];
  };
  reviews = [];
  audits = [];
  users = codes "u" ∷ [];
  memberships = (codes "w", codes "u") ∷ [];
}

-- The only diff that it reads is the one of the sample; the database puts a space behind every colon.
abbrev spaced : Bytes → Bytes
spaced [] = []
spaced (c ∷ s) = let rest = spaced s in if c == 58 then c ∷ 32 ∷ rest else c ∷ rest

abbrev pub codec : Codec
codec = record {
  read_changes = λ diff. if text_eq diff (codes "diff") then some (change ∷ []) else none;
  write_reviewed = λ source indexes. codes "{}";
  jsonb = spaced;
}

abbrev pub decision_params : DecisionParams
decision_params = record {
  id = codes "d1";
  audit_id = codes "d2";
  workspace_id = codes "w";
  revision_id = codes "s";
  reviewer_id = codes "u";
  action = accept_change;
  change_index = some (pos 0);
}

-- The sample after the decision.
abbrev pub accepting : Record
accepting = record {
  id = codes "d1";
  workspace_id = codes "w";
  revision_id = codes "s";
  reviewer_id = codes "u";
  action = accept_change;
  change_index = some 0;
  resulting_revision_id = [];
  created_at = 7;
}

abbrev pub decided_db : Database
decided_db = record db { reviews = accepting ∷ [] }

abbrev pub approval_params : ApprovalParams
approval_params = record {
  review_id = codes "r1";
  audit_id = codes "r2";
  workspace_id = codes "w";
  revision_id = codes "s";
  reviewer_id = codes "u";
  human_revision_id = codes "h";
  approved_revision_id = codes "b";
  human_segment_ids = codes "h1" ∷ codes "h2" ∷ [];
  approved_segment_ids = codes "b1" ∷ codes "b2" ∷ [];
  accept_pending = false;
}

abbrev pub content : Content
content = record {
  text = codes "say the word";
  segments =
      (record (segment (codes "h1") (codes "the")) { ordinal = 0 })
      ∷ (record (segment (codes "h2") (codes "word")) { ordinal = 1 })
      ∷ [];
  indexes = 0 ∷ [];
}

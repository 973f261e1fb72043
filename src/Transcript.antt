-- ===== src/Transcript.antt =====
-- Transcripts: internal/transcript/service.go and the queries of internal/transcript/postgres_repository.go
-- over the tables transcripts, transcript_revisions with transcript_segments, and assets. JSON is kept as
-- the text that the database returns, times are in microseconds, and a float64 is kept by its bits.
pub mod Load
pub mod Latest
use voice_asset_server.Base.{
  ℕ, Bool, true, false, not, ◌&&◌, Option, none, some, List, [], ◌∷◌, if◌then◌else◌, text_eq,
  Result, ok, err,
}
use voice_asset_server.Base.Int.{ℤ}
use voice_asset_server.Base.Table.{find}
use voice_asset_server.Base.Paging.{Key, newest_first}
use voice_asset_server.Text.{Bytes, codes, trim_space}
use voice_asset_server.Auth.{Principal, can, transcripts_read}

pub data Error : Type 0 where
  forbidden not_found : Error

abbrev pub Time : Type 0
Time = ℕ

abbrev pub llm_corrected : Bytes
llm_corrected = codes "llm_corrected"

abbrev pub human_edited : Bytes
human_edited = codes "human_edited"

abbrev pub approved : Bytes
approved = codes "approved"

pub record Segment : Type 0 where
  pub id : Bytes
  pub ordinal : ℕ
  pub start_ms : ℤ
  pub end_ms : ℤ
  pub speaker : Option Bytes
  pub text : Bytes
  pub confidence : Option ℕ
  pub words : Bytes

pub record Revision : Type 0 where
  pub id : Bytes
  pub transcript_id : Bytes
  pub asset_id : Bytes
  pub parent_revision_id : Bytes
  pub kind : Bytes
  pub language : Bytes
  pub text : Bytes
  pub provider_snapshot : Bytes
  pub hotword_snapshot : Bytes
  pub glossary_snapshot : Bytes
  pub diff : Bytes
  pub validation_result : Bytes
  pub provider_raw_object_id : Bytes
  pub source_job_id : Bytes
  pub created_by : Bytes
  pub created_by_type : Bytes
  pub model : Bytes
  pub prompt_version : Bytes
  pub review_status : Bytes
  pub created_at : Time
  pub segments : List Segment

pub record Summary : Type 0 where
  pub id : Bytes
  pub asset_id : Bytes
  pub language : Bytes
  pub latest_revision_id : Bytes
  pub latest_kind : Bytes
  pub latest_text : Bytes
  pub created_at : Time
  pub revision_created_at : Time

-- A row of transcript_revisions, with its rows of transcript_segments in the order of their ordinals.
pub record Row : Type 0 where
  pub id : Bytes
  pub transcript_id : Bytes
  pub parent_revision_id : Option Bytes
  pub kind : Bytes
  pub text : Bytes
  pub provider_snapshot : Bytes
  pub hotword_snapshot : Bytes
  pub glossary_snapshot : Bytes
  pub diff : Bytes
  pub validation_result : Bytes
  pub provider_raw_object_id : Option Bytes
  pub source_job_id : Option Bytes
  pub created_by : Option Bytes
  pub created_by_type : Bytes
  pub model : Option Bytes
  pub prompt_version : Option Bytes
  pub review_status : Bytes
  pub created_at : Time
  pub segments : List Segment

pub record Transcript : Type 0 where
  pub id : Bytes
  pub asset_id : Bytes
  pub language : Bytes
  pub created_at : Time

pub record Asset : Type 0 where
  pub id : Bytes
  pub workspace_id : Bytes
  pub is_deleted : Bool

pub record Tables : Type 0 where
  pub assets : List Asset
  pub transcripts : List Transcript
  pub revisions : List Row

abbrev pub or_empty : Option Bytes → Bytes
or_empty none = []
or_empty (some s) = s

-- What `Scan` and the assignments after it make of a row.
abbrev pub revision : Row → Transcript → Revision
revision r t = record {
  id = r.id;
  transcript_id = r.transcript_id;
  asset_id = t.asset_id;
  parent_revision_id = or_empty r.parent_revision_id;
  kind = r.kind;
  language = t.language;
  text = r.text;
  provider_snapshot = r.provider_snapshot;
  hotword_snapshot = r.hotword_snapshot;
  glossary_snapshot = r.glossary_snapshot;
  diff = r.diff;
  validation_result = r.validation_result;
  provider_raw_object_id = or_empty r.provider_raw_object_id;
  source_job_id = or_empty r.source_job_id;
  created_by = or_empty r.created_by;
  created_by_type = r.created_by_type;
  model = or_empty r.model;
  prompt_version = or_empty r.prompt_version;
  review_status = r.review_status;
  created_at = r.created_at;
  segments = r.segments;
}

-- asset.workspace_id = $2 AND asset.deleted_at IS NULL
abbrev pub is_visible : Bytes → Asset → Bool
is_visible workspace a = text_eq a.workspace_id workspace && not a.is_deleted

-- The two joins.
pub join_asset : Bytes → Row → Transcript → Option Asset → Option Revision
join_asset workspace r t none = none
join_asset workspace r t (some a) = if is_visible workspace a then some (revision r t) else none

pub join_transcript : Tables → Bytes → Row → Option Transcript → Option Revision
unfolding join_asset
join_transcript db workspace r none = none
join_transcript db workspace r (some t) =
    join_asset workspace r t (find (λ a. a.id) t.asset_id db.assets)

pub load_row : Tables → Bytes → Option Row → Option Revision
unfolding join_transcript
load_row db workspace none = none
load_row db workspace (some r) =
    join_transcript db workspace r (find (λ t. t.id) r.transcript_id db.transcripts)

-- The query for a revision, which is `GetRevision` and is written once more as `loadRevision` of
-- internal/review/postgres_repository.go; there is no row or one.
unfoldable pub load : Tables → Bytes → Bytes → Option Revision
unfolding load_row
load db workspace id = load_row db workspace (find (λ r. r.id) id db.revisions)

-- WHERE transcript_id = t.id
unfoldable pub revisions_of : Bytes → List Row → List Row
revisions_of transcript [] = []
revisions_of transcript (r ∷ rows) =
    let rest = revisions_of transcript rows in
    if text_eq r.transcript_id transcript then r ∷ rest else rest

abbrev pub row_key : Row → Key
row_key r = (r.created_at, r.id)

abbrev transcript_key : Transcript → Key
transcript_key t = (t.created_at, t.id)

abbrev pub head_of {ℓ} : {A : Type ℓ} → List A → Option A
head_of [] = none
head_of (x ∷ xs) = some x

-- ORDER BY created_at DESC, id DESC LIMIT 1
unfoldable pub latest : Bytes → List Row → Option Row
unfolding revisions_of
latest transcript rows = head_of (newest_first row_key (revisions_of transcript rows))

abbrev summary : Transcript → Row → Summary
summary t r = record {
  id = t.id;
  asset_id = t.asset_id;
  language = t.language;
  latest_revision_id = r.id;
  latest_kind = r.kind;
  latest_text = r.text;
  created_at = t.created_at;
  revision_created_at = r.created_at;
}

-- JOIN LATERAL, of the transcripts in their order.
summaries_of : List Row → Bytes → List Transcript → List Summary
unfolding latest
summaries_of rows asset [] = []
summaries_of rows asset (t ∷ ts) =
    let rest = summaries_of rows asset ts in
    if text_eq t.asset_id asset
    then elim (latest t.id rows) [ none ↦ rest | some r ↦ summary t r ∷ rest ]
    else rest

list_asset : Tables → Bytes → Bytes → Option Asset → Result Error (List Summary)
unfolding summaries_of
list_asset db workspace asset none = err not_found
list_asset db workspace asset (some a) =
    if is_visible workspace a
    then ok (summaries_of db.revisions asset (newest_first transcript_key db.transcripts))
    else err not_found

-- `List` of the repository
unfoldable pub summaries : Tables → Bytes → Bytes → Result Error (List Summary)
unfolding list_asset
summaries db workspace asset = list_asset db workspace asset (find (λ a. a.id) asset db.assets)

-- `List` of the service
unfoldable pub list_transcripts : Tables → Principal → Bytes → Result Error (List Summary)
list_transcripts db p asset_text =
    let asset = trim_space asset_text in
    if not (can p transcripts_read)
    then err forbidden
    else if text_eq asset []
    then err not_found
    else summaries db p.workspace_id asset

-- `GetRevision` of the service
unfoldable pub get_revision : Tables → Principal → Bytes → Result Error Revision
get_revision db p id_text =
    let id = trim_space id_text in
    if not (can p transcripts_read)
    then err forbidden
    else if text_eq id []
    then err not_found
    else elim (load db p.workspace_id id) [ none ↦ err not_found | some r ↦ ok r ]

-- ===== src/Review/Repository.antt =====
-- The tables of a review, `AddDecision` and the inserts of `Approve` of internal/review/postgres_repository.go, over the tables of the transcripts,
-- transcript_revision_reviews and audit_logs. A transaction answers with a value and its tables, or with an
-- error and the tables that it began with. Reading and writing JSON is a parameter; failures of the
-- connection are left out, and the identifiers of audit entries are taken to be new.
use voice_asset_server.Base.{
  ℕ, ◌^◌, Bool, true, false, not, ◌&&◌, ◌||◌, Option, none, some, List, [], ◌∷◌, ltb, if◌then◌else◌,
  text_eq, length, map, Result, ok, err,
}
use voice_asset_server.Base.Int.{ℤ, pos, negsuc, leb_ℤ}
use voice_asset_server.Base.Table.{find}
use voice_asset_server.Text.{Bytes, codes}
use voice_asset_server.Transcript.{Segment, Revision, Row, Tables, Time, load, llm_corrected}
use voice_asset_server.Review.{
  Error, invalid_input, not_found, conflict, repository, Action, approve, accept_change,
  reject_change, accept_all, reject_all, Change, Record, is_decision,
}

-- `decodeChanges`, where no list of changes is an error, the diff of a human edit, and `jsonb`: the text
-- that the database returns for JSON that is stored in a column of this type, with its own spaces and
-- order of keys.
pub record Codec : Type 0 where
  pub read_changes : Bytes → Option (List Change)
  pub write_reviewed : Bytes → List ℕ → Bytes
  pub jsonb : Bytes → Bytes

pub record Audit : Type 0 where
  pub id : Bytes
  pub actor_id : Bytes
  pub action : Bytes
  pub target_id : Bytes

-- `users` and `memberships` are what the foreign keys refer to, a membership as a workspace and a user.
pub record Database : Type 0 where
  pub tables : Tables
  pub reviews : List Record
  pub audits : List Audit
  pub users : List Bytes
  pub memberships : List (Bytes × Bytes)

-- The service passes no `approve` here.
pub record DecisionParams : Type 0 where
  pub id : Bytes
  pub audit_id : Bytes
  pub workspace_id : Bytes
  pub revision_id : Bytes
  pub reviewer_id : Bytes
  pub action : Action
  pub change_index : Option ℤ

pub record ApprovalParams : Type 0 where
  pub review_id : Bytes
  pub audit_id : Bytes
  pub workspace_id : Bytes
  pub revision_id : Bytes
  pub reviewer_id : Bytes
  pub human_revision_id : Bytes
  pub approved_revision_id : Bytes
  pub human_segment_ids : List Bytes
  pub approved_segment_ids : List Bytes
  pub accept_pending : Bool

pub record ApprovalResult : Type 0 where
  pub review_record : Record
  pub human_revision : Revision
  pub approved_revision : Revision

unfoldable pub is_listed : Bytes → List Bytes → Bool
is_listed s [] = false
is_listed s (t ∷ ts) = text_eq t s || is_listed s ts

unfoldable pub is_member : Bytes → Bytes → List (Bytes × Bytes) → Bool
is_member workspace user [] = false
is_member workspace user ((w, u) ∷ rest) =
    (text_eq w workspace && text_eq u user) || is_member workspace user rest

abbrev pub is_some {ℓ} : {A : Type ℓ} → Option A → Bool
is_some none = false
is_some (some a) = true

-- The column change_index, an integer that is not negative: none when a check refuses the value, which
-- also holds when there is a value and the action takes none, or the other way round.
unfoldable pub index_column : Action → Option ℤ → Option (Option ℕ)
index_column accept_change (some (pos i)) = if ltb i (2 ^ 31) then some (some i) else none
index_column reject_change (some (pos i)) = if ltb i (2 ^ 31) then some (some i) else none
index_column accept_change (some (negsuc i)) = none
index_column reject_change (some (negsuc i)) = none
index_column accept_change none = none
index_column reject_change none = none
index_column accept_all none = some none
index_column reject_all none = some none
index_column approve none = some none
index_column accept_all (some i) = none
index_column reject_all (some i) = none
index_column approve (some i) = none

abbrev pub audit : Bytes → Bytes → Bytes → Bytes → Audit
audit id actor action target = record {
  id = id;
  actor_id = actor;
  action = action;
  target_id = target;
}

abbrev pub decision : DecisionParams → Option ℕ → Time → Record
decision p index clock = record {
  id = p.id;
  workspace_id = p.workspace_id;
  revision_id = p.revision_id;
  reviewer_id = p.reviewer_id;
  action = p.action;
  change_index = index;
  resulting_revision_id = [];
  created_at = clock;
}

-- The writes of `AddDecision`.
abbrev pub with_decision : Database → DecisionParams → Option ℕ → Time → Database
with_decision db p index clock = record db {
  reviews = decision p index clock ∷ db.reviews;
  audits = audit p.audit_id p.reviewer_id (codes "correction.reviewed") p.revision_id ∷ db.audits;
}

unfoldable pub insert_row :
    Database → DecisionParams → Time → Option (Option ℕ) → Result Error Record × Database
insert_row db p clock none = (err repository, db)
insert_row db p clock (some index) =
    if is_some (find (λ r. r.id) p.id db.reviews)
      || not (is_member p.workspace_id p.reviewer_id db.memberships)
    then (err repository, db)
    else (ok (decision p index clock), with_decision db p index clock)

-- *params.ChangeIndex >= len(changes)
abbrev pub is_beyond : Option ℤ → List Change → Bool
is_beyond none changes = false
is_beyond (some i) changes = leb_ℤ (pos (length changes)) i

unfoldable pub add_on :
    Database
    → DecisionParams
    → Time
    → Revision
    → Option (List Change)
    → Result Error Record × Database
unfolding insert_row index_column
add_on db p clock target none = (err conflict, db)
add_on db p clock target (some changes) =
    if not (text_eq target.kind llm_corrected)
    then (err conflict, db)
    else if is_beyond p.change_index changes
    then (err invalid_input, db)
    else insert_row db p clock (index_column p.action p.change_index)

-- `loadRevision`: the query of the transcripts, written again.
abbrev pub load_revision : Tables → Bytes → Bytes → Option Revision
load_revision = load

-- `AddDecision`; `clock` is when the row is written.
unfoldable pub add_decision :
    Codec → Database → DecisionParams → Time → Result Error Record × Database
unfolding add_on
add_decision codec db p clock = elim (load_revision db.tables p.workspace_id p.revision_id) [
  | none ↦ (err not_found, db)
  | some target ↦ add_on db p clock target (codec.read_changes target.diff)
]

-- `cloneWithIDs`; there are as many identifiers as segments.
unfoldable pub clone_with_ids : List Segment → List Bytes → List Segment
clone_with_ids [] ids = []
clone_with_ids (s ∷ ss) [] = []
clone_with_ids (s ∷ ss) (id ∷ ids) = record s { id = id } ∷ clone_with_ids ss ids

-- `childRevision`
unfoldable pub child_revision :
    Revision
    → Bytes
    → Bytes
    → Bytes
    → Bytes
    → Bytes
    → Bytes
    → Bytes
    → List Segment
    → Time
    → Revision
child_revision source id parent kind text status actor diff segments now = record source {
  id = id;
  parent_revision_id = parent;
  kind = kind;
  text = text;
  diff = diff;
  source_job_id = [];
  created_by = actor;
  created_by_type = codes "user";
  review_status = status;
  created_at = now;
  segments = segments;
}

abbrev pub null_if_empty : Bytes → Option Bytes
null_if_empty [] = none
null_if_empty (c ∷ s) = some (c ∷ s)

abbrev pub stored_segment : (Bytes → Bytes) → Segment → Segment
stored_segment jsonb s = record s { words = jsonb s.words }

-- The row that `insertRevision` writes, with the rows of `insertSegments`; JSON stands in the form in which
-- the database returns it.
unfoldable pub revision_row : (Bytes → Bytes) → Revision → Row
revision_row jsonb r = record {
  id = r.id;
  transcript_id = r.transcript_id;
  parent_revision_id = some r.parent_revision_id;
  kind = r.kind;
  text = r.text;
  provider_snapshot = jsonb r.provider_snapshot;
  hotword_snapshot = jsonb r.hotword_snapshot;
  glossary_snapshot = jsonb r.glossary_snapshot;
  diff = jsonb r.diff;
  validation_result = jsonb r.validation_result;
  provider_raw_object_id = null_if_empty r.provider_raw_object_id;
  source_job_id = none;
  created_by = some r.created_by;
  created_by_type = codes "user";
  model = some r.model;
  prompt_version = some r.prompt_version;
  review_status = r.review_status;
  created_at = r.created_at;
  segments = map (stored_segment jsonb) r.segments;
}

-- The primary key of transcript_segments.
unfoldable pub segment_exists : Bytes → List Row → Bool
segment_exists id [] = false
segment_exists id (r ∷ rows) = is_some (find (λ s. s.id) id r.segments) || segment_exists id rows

unfoldable pub segments_are_new : List Segment → List Row → Bool
unfolding segment_exists
segments_are_new [] rows = true
segments_are_new (s ∷ ss) rows =
    not (is_some (find (λ t. t.id) s.id ss))
    && not (segment_exists s.id rows)
    && segments_are_new ss rows

-- `insertRevision` and `insertSegments`; none is a violation of a key.
unfoldable pub insert_revision :
    (Bytes → Bytes) → List Bytes → Revision → List Row → Option (List Row)
insert_revision jsonb users r rows =
    if is_some (find (λ q. q.id) r.id rows)
      || not (is_listed r.created_by users)
      || not (segments_are_new r.segments rows)
    then none
    else some (revision_row jsonb r ∷ rows)

-- The key of the table, and the index transcript_revision_reviews_one_approval.
unfoldable pub approval_exists : Bytes → Bytes → List Record → Bool
approval_exists id revision [] = false
approval_exists id revision (r ∷ reviews) =
    text_eq r.id id
    || (text_eq r.revision_id revision && not (is_decision r.action))
    || approval_exists id revision reviews

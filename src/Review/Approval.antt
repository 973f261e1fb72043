-- ===== src/Review/Approval.antt =====
-- `Approve` of internal/review/postgres_repository.go: a correction under review becomes a revision edited
-- by a human and an approved one.
pub mod Cases
pub mod Stored
pub mod Once
pub mod Final
pub mod Complete
pub mod Newest
use voice_asset_server.Base.{
  ℕ, Bool, true, false, not, ◌&&◌, ◌||◌, Option, none, some, List, [], ◌∷◌, ◌==◌, if◌then◌else◌,
  text_eq, length, Result, ok, err,
}
use voice_asset_server.Text.{Bytes, codes}
use voice_asset_server.Transcript.{
  Segment, Revision, Row, Time, load, llm_corrected, human_edited, approved,
}
use voice_asset_server.Review.{
  Error, not_found, conflict, repository, Action, approve, Change, Record, load_decisions,
  decide_all, undecided,
}
use voice_asset_server.Review.Content.{Content, build}
use voice_asset_server.Review.Repository.{
  Codec, Database, ApprovalParams, ApprovalResult, audit, is_member, clone_with_ids, child_revision,
  insert_revision, approval_exists, load_revision,
}

abbrev pub pending : Bytes
pending = codes "pending"

-- What `Approve` refuses before it reads the parent.
abbrev pub is_under_review : Revision → Bool
is_under_review r =
    text_eq r.kind llm_corrected
    && not (text_eq r.parent_revision_id [])
    && text_eq r.review_status pending

abbrev pub human_of : Codec → ApprovalParams → Time → Revision → Content → Revision
human_of codec p now source c =
    child_revision source p.human_revision_id source.id human_edited c.text (codes "reviewed")
      p.reviewer_id (codec.write_reviewed source.id c.indexes) c.segments now

abbrev pub approved_of : ApprovalParams → Time → Revision → Content → Revision
approved_of p now source c =
    child_revision source p.approved_revision_id p.human_revision_id approved c.text
      (codes "approved") p.reviewer_id (codes "{\"changes\":[]}")
      (clone_with_ids c.segments p.approved_segment_ids) now

abbrev pub approval : ApprovalParams → Time → Revision → Record
approval p now source = record {
  id = p.review_id;
  workspace_id = p.workspace_id;
  revision_id = source.id;
  reviewer_id = p.reviewer_id;
  action = approve;
  change_index = none;
  resulting_revision_id = p.approved_revision_id;
  created_at = now;
}

abbrev pub result_of : Codec → ApprovalParams → Time → Revision → Content → ApprovalResult
result_of codec p now source c = record {
  review_record = approval p now source;
  human_revision = human_of codec p now source c;
  approved_revision = approved_of p now source c;
}

-- The insert of the review, and what the transaction leaves.
pub insert_review :
    Codec
    → Database
    → ApprovalParams
    → Time
    → Revision
    → Content
    → List Row
    → Result Error ApprovalResult × Database
insert_review codec db p now source c rows =
    if approval_exists p.review_id source.id db.reviews
    then (err conflict, db)
    else if not (is_member p.workspace_id p.reviewer_id db.memberships)
    then (err repository, db)
    else (
      ok (result_of codec p now source c),
      record db {
        tables = record db.tables { revisions = rows };
        reviews = approval p now source ∷ db.reviews;
        audits =
            audit p.audit_id p.reviewer_id (codes "transcript.approved") p.approved_revision_id
            ∷ db.audits;
      },
    )

pub insert_children :
    Codec
    → Database
    → ApprovalParams
    → Time
    → Revision
    → Option Content
    → Result Error ApprovalResult × Database
unfolding insert_review
insert_children codec db p now source none = (err conflict, db)
insert_children codec db p now source (some c) =
    elim (insert_revision codec.jsonb db.users (human_of codec p now source c)
      db.tables.revisions) [
        | none ↦ (err repository, db)
        | some rows ↦
            elim (insert_revision codec.jsonb db.users (approved_of p now source c) rows) [
              | none ↦ (err repository, db)
              | some rows' ↦ insert_review codec db p now source c rows'
            ]
      ]

-- The content, once it is known which changes are accepted.
pub build_accepted :
    ApprovalParams → Revision → Revision → List Change → Option (List Bool) → Option Content
build_accepted p source parent changes none = none
build_accepted p source parent changes (some accepted) =
    build changes accepted parent.text parent.segments source.segments p.human_segment_ids

-- The content, by the decisions in their order.
unfoldable pub reviewed_content :
    ApprovalParams → List Record → Revision → Revision → List Change → Option Content
unfolding build_accepted
reviewed_content p reviews source parent changes = build_accepted p source parent changes (
    decide_all (load_decisions p.workspace_id source.id reviews)
      (undecided p.accept_pending changes))

pub approve_changes :
    Codec
    → Database
    → ApprovalParams
    → Time
    → Revision
    → Revision
    → Option (List Change)
    → Result Error ApprovalResult × Database
unfolding insert_children
approve_changes codec db p now source parent none = (err conflict, db)
approve_changes codec db p now source parent (some changes) =
    if not (length source.segments == length parent.segments)
      || not (length p.human_segment_ids == length parent.segments)
      || not (length p.approved_segment_ids == length parent.segments)
    then (err conflict, db)
    else insert_children codec db p now source (reviewed_content p db.reviews source parent changes)

pub approve_source :
    Codec → Database → ApprovalParams → Time → Revision → Result Error ApprovalResult × Database
unfolding approve_changes
approve_source codec db p now source =
    if not (is_under_review source)
    then (err conflict, db)
    else elim (load_revision db.tables p.workspace_id source.parent_revision_id) [
      | none ↦ (err conflict, db)
      | some parent ↦ approve_changes codec db p now source parent (codec.read_changes source.diff)
    ]

-- `Approve`; `now` is the `clock_timestamp()` at its beginning.
unfoldable pub approve_revision :
    Codec → Database → ApprovalParams → Time → Result Error ApprovalResult × Database
unfolding approve_source
approve_revision codec db p now = elim (load_revision db.tables p.workspace_id p.revision_id) [
  | none ↦ (err not_found, db)
  | some source ↦ approve_source codec db p now source
]

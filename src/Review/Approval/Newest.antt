-- ===== src/Review/Approval/Newest.antt =====
-- Which of the two revisions of an approval the list of transcripts shows.
use voice_asset_server.Base.{
  ◌≡◌, refl, ap, ◌∙◌, Bool, true, false, not, Option, none, some, List, ◌∷◌, if◌then◌else◌, Result,
  ok, err,
}
use voice_asset_server.Base.Paging.{text_ltb}
use voice_asset_server.Text.{Bytes}
use voice_asset_server.Transcript.{Revision, Row, Time, load, latest}
use voice_asset_server.Transcript.Latest.{IsBefore, latest_of_two}
use voice_asset_server.Review.{Error, not_found, conflict, repository}
use voice_asset_server.Review.Content.{Content}
use voice_asset_server.Review.Repository.{
  Codec, Database, ApprovalParams, ApprovalResult, child_revision, revision_row, approval_exists,
  is_member,
}
use voice_asset_server.Review.Approval.{
  human_of, approved_of, insert_review, approve_source, approve_revision,
}
use voice_asset_server.Review.Approval.Cases.{IsInserted, approve_source_cases}

-- The latest revision of the transcript is the edited one if its identifier is the greater, and the
-- approved one otherwise.
abbrev pub ShowsGreater : (Bytes → Bytes) → Result Error ApprovalResult × Database → Type 0
ShowsGreater jsonb (err e, db) = Unit
ShowsGreater jsonb (ok r, db) =
    latest r.human_revision.transcript_id db.tables.revisions
    ≡ some (
        if text_ltb r.approved_revision.id r.human_revision.id
        then revision_row jsonb r.human_revision
        else revision_row jsonb r.approved_revision)

shows_or :
    (jsonb : Bytes → Bytes) (b : Bool) (e : Error) (db : Database)
    (rest : Result Error ApprovalResult × Database)
    → ShowsGreater jsonb rest
    → ShowsGreater jsonb (if b then (err e, db) else rest)
shows_or jsonb true e db rest d = tt
shows_or jsonb false e db rest d = d

module _ (codec : Codec) (db : Database) (p : ApprovalParams) (now : Time)
    (before : IsBefore now db.tables.revisions) where
  insert_review-ShowsGreater :
      (source : Revision) (c : Content) (rows rows' : List Row)
      → IsInserted codec.jsonb (human_of codec p now source c) db.tables.revisions rows
      → IsInserted codec.jsonb (approved_of p now source c) rows rows'
      → ShowsGreater codec.jsonb (insert_review codec db p now source c rows')
  unfolding insert_review child_revision revision_row
  insert_review-ShowsGreater source c rows rows' h a =
      shows_or codec.jsonb (approval_exists p.review_id source.id db.reviews) conflict db _ (
        shows_or codec.jsonb (not (is_member p.workspace_id p.reviewer_id db.memberships))
          repository db _
          (ap (latest source.transcript_id) (
              a.added ∙ ap (λ k. revision_row codec.jsonb (approved_of p now source c) ∷ k) h.added)
            ∙ latest_of_two (revision_row codec.jsonb (approved_of p now source c))
                (revision_row codec.jsonb (human_of codec p now source c)) db.tables.revisions
                before refl refl))

  -- Both revisions of an approval have one time of creation. When no revision is as late, the list of
  -- transcripts shows of the two the one whose random identifier is greater, which may be the edited one.
  pub approve_revision-ShowsGreater : ShowsGreater codec.jsonb (approve_revision codec db p now)
  unfolding approve_revision
  approve_revision-ShowsGreater = by_source (load db.tables p.workspace_id p.revision_id)
    where
      by_source :
          (o : Option Revision)
          → ShowsGreater codec.jsonb (elim o [
            | none ↦ (err not_found, db)
            | some source ↦ approve_source codec db p now source
          ])
      by_source none = tt
      by_source (some source) =
          approve_source_cases codec db p now source (ShowsGreater codec.jsonb) (λ e h. tt)
            (λ c rows rows' given. insert_review-ShowsGreater source c rows rows')

-- ===== src/Review/Approval/Once.antt =====
-- A correction is approved at most once.
use voice_asset_server.Base.{
  ◌≡◌, refl, sym, subst, Bool, true, false, not, ◌||◌, ◌⊎◌, Option, none, some, List, ◌∷◌, arith,
  if◌then◌else◌, text_eq, text_eq_refl, inl, Result, ok, err,
}
use voice_asset_server.Text.{Bytes}
use voice_asset_server.Transcript.{Revision, Row, Time, load}
use voice_asset_server.Review.{Error, not_found, conflict, repository, Record, is_decision}
use voice_asset_server.Review.Content.{Content}
use voice_asset_server.Review.Repository.{
  Codec, Database, ApprovalParams, ApprovalResult, approval_exists, is_member,
}
use voice_asset_server.Review.Approval.{approval, insert_review, approve_source, approve_revision}
use voice_asset_server.Review.Approval.Cases.{approve_source_cases}
use voice_asset_server.Review.Approval.Stored.{IsApproved, Done, approve_revision-Done}

-- Under whatever identifier, the index refuses another approval of the revision.
abbrev pub IsTaken : Bytes → List Record → Type 0
IsTaken revision reviews = (id : Bytes) → approval_exists id revision reviews ≡ true

abbrev pub Refused : Database → Result Error ApprovalResult × Database → Type 0
Refused db (ok r, db') = ⊥
Refused db (err e, db') = (db' ≡ db) × ((e ≡ conflict) ⊎ (e ≡ repository))

or_true : (a b : Bool) → ((a || true) || b) ≡ true
or_true a b = ground arith

approval_first :
    (id : Bytes) (r : Record) (reviews : List Record)
    → is_decision r.action ≡ false
    → approval_exists id r.revision_id (r ∷ reviews) ≡ true
unfolding approval_exists
approval_first id r reviews h =
    rw (text_eq_refl r.revision_id, h)
      (or_true (text_eq r.id id) (approval_exists id r.revision_id reviews))

abbrev Failed : Result Error ApprovalResult × Database → Type 0
Failed (err e, db) = Unit
Failed (ok r, db) = ⊥

module _ (codec : Codec) (db : Database) (p : ApprovalParams) (now : Time) (source : Revision) where
  approve_source-Refused :
      IsTaken source.id db.reviews → Refused db (approve_source codec db p now source)
  unfolding insert_review
  approve_source-Refused taken =
      approve_source_cases codec db p now source (Refused db) (λ e h. (refl, h))
        (λ c rows rows' given h a. rw (taken p.review_id, insert_review) (refl, inl refl))

  abbrev Takes : Result Error ApprovalResult × Database → Type 0
  Takes (err e, db') = Unit
  Takes (ok r, db') = IsTaken source.id db'.reviews

  guarded :
      (b : Bool) (e : Error) (rest : Result Error ApprovalResult × Database)
      → Takes rest
      → Takes (if b then (err e, db) else rest)
  guarded true e rest d = tt
  guarded false e rest d = d

  insert_review-Takes :
      (c : Content) (rows : List Row) → Takes (insert_review codec db p now source c rows)
  unfolding insert_review
  insert_review-Takes c rows =
      guarded (approval_exists p.review_id source.id db.reviews) conflict _ (
        guarded (not (is_member p.workspace_id p.reviewer_id db.memberships)) repository _
          (λ id. approval_first id (approval p now source) db.reviews refl))

  approve_source-Takes : Takes (approve_source codec db p now source)
  approve_source-Takes =
      approve_source_cases codec db p now source Takes (λ e h. tt)
        (λ c rows rows' given h a. insert_review-Takes c rows')

-- Once a correction has been approved, every further approval of it is refused, as a conflict or as an
-- error of the repository, and changes nothing.
pub approve_revision-once :
    (codec : Codec) (db db' : Database) (p p' : ApprovalParams) (now now' : Time)
    (r : ApprovalResult)
    → approve_revision codec db p now ≡ (ok r, db')
    → p'.workspace_id ≡ p.workspace_id
    → p'.revision_id ≡ p.revision_id
    → Refused db' (approve_revision codec db' p' now')
unfolding approve_revision
approve_revision-once codec db db' p p' now now' r runs same_workspace same_revision =
    by_source (load db.tables p.workspace_id p.revision_id) refl runs
  where
    stored : IsApproved codec.jsonb db db' p.workspace_id r
    stored = subst (Done codec.jsonb db p.workspace_id) runs (approve_revision-Done codec db p now)

    answer :
        Database → ApprovalParams → Time → Option Revision → Result Error ApprovalResult × Database
    answer db p now o = elim o [
      | none ↦ (err not_found, db)
      | some source ↦ approve_source codec db p now source
    ]

    by_source :
        (o : Option Revision)
        → load db.tables p.workspace_id p.revision_id ≡ o
        → answer db p now o ≡ (ok r, db')
        → Refused db' (answer db' p' now' (load db'.tables p'.workspace_id p'.revision_id))
    by_source none h g = absurd (subst Failed g tt)
    by_source (some source) h g =
        let kept = stored.kept p.revision_id source h in
        let same =
          subst (λ k. load db'.tables p.workspace_id k ≡ some source) (sym same_revision) kept in
        let loaded =
          subst (λ k. load db'.tables k p'.revision_id ≡ some source) (sym same_workspace) same in
        subst (λ o. Refused db' (answer db' p' now' o)) (sym loaded)
          (approve_source-Refused codec db' p' now' source
            (subst (Takes codec db p now source) g (approve_source-Takes codec db p now source)))

-- ===== src/Review/Approval/Cases.antt =====
-- The ways in which an approval ends.
use voice_asset_server.Base.{
  ◌≡◌, refl, Bool, true, false, not, ◌||◌, ◌⊎◌, Option, none, some, List, ◌∷◌, ◌==◌, arith, length,
  if◌then◌else◌, Bool-cases, inl, inr, Result, err,
}
use voice_asset_server.Base.Table.{find}
use voice_asset_server.Text.{Bytes}
use voice_asset_server.Transcript.{Revision, Row, Time, load}
use voice_asset_server.Review.{Error, conflict, repository, Change}
use voice_asset_server.Review.Content.{Content}
use voice_asset_server.Review.Repository.{
  Codec, Database, ApprovalParams, ApprovalResult, is_some, is_listed, revision_row,
  segments_are_new, insert_revision,
}
use voice_asset_server.Review.Approval.{
  is_under_review, human_of, approved_of, insert_review, insert_children, reviewed_content,
  approve_changes, approve_source,
}

-- What an insert that succeeds does.
pub record IsInserted (jsonb : Bytes → Bytes) (r : Revision) (rows rows' : List Row) : Type 0 where
  pub added : rows' ≡ revision_row jsonb r ∷ rows
  pub is_new : find (λ q. q.id) r.id rows ≡ none

Inserts : (Bytes → Bytes) → Revision → List Row → Option (List Row) → Type 0
Inserts jsonb r rows none = Unit
Inserts jsonb r rows (some rows') = IsInserted jsonb r rows rows'

none_found {ℓ} : {A : Type ℓ} (o : Option A) → is_some o ≡ false → o ≡ none
none_found none h = refl
none_found (some a) h = absurd (ground arith)

insert_revision-Inserts :
    (jsonb : Bytes → Bytes) (users : List Bytes) (r : Revision) (rows : List Row)
    → Inserts jsonb r rows (insert_revision jsonb users r rows)
unfolding insert_revision Inserts
insert_revision-Inserts jsonb users r rows =
    elim (Bool-cases (
      is_some (find (λ q. q.id) r.id rows)
      || not (is_listed r.created_by users)
      || not (segments_are_new r.segments rows))) [
        | inl violated ↦ rw (violated, insert_revision, Inserts) tt
        | inr fine ↦
            rw (fine, insert_revision, Inserts)
              (record { added = refl; is_new = none_found _ (first_false _ _ _ fine) })
      ]
  where
    first_false : (a b c : Bool) → (a || b || c) ≡ false → a ≡ false
    first_false a b c h = ground arith

-- Where the content of an approval comes from.
pub record IsGiven (codec : Codec) (db : Database) (p : ApprovalParams) (source : Revision)
    (c : Content) : Type 0 where
  pub parent : Revision
  pub changes : List Change
  pub parent_loaded : load db.tables p.workspace_id source.parent_revision_id ≡ some parent
  pub changes_read : codec.read_changes source.diff ≡ some changes
  pub content_given : reviewed_content p db.reviews source parent changes ≡ some c

-- What holds of the refusals and of what the insert of the review leaves holds of every approval.
module _ (codec : Codec) (db : Database) (p : ApprovalParams) (now : Time) (source : Revision)
    (Q : Result Error ApprovalResult × Database → Type 0)
    (refuse : (e : Error) → (e ≡ conflict) ⊎ (e ≡ repository) → Q (err e, db))
    (store : (c : Content) (rows rows' : List Row)
      → IsGiven codec db p source c
      → IsInserted codec.jsonb (human_of codec p now source c) db.tables.revisions rows
      → IsInserted codec.jsonb (approved_of p now source c) rows rows'
      → Q (insert_review codec db p now source c rows')) where
  refuse_or :
      (b : Bool) (rest : Result Error ApprovalResult × Database)
      → Q rest
      → Q (if b then (err conflict, db) else rest)
  refuse_or true rest q = refuse conflict (inl refl)
  refuse_or false rest q = q

  insert_children_cases :
      (o : Option Content)
      → ((c : Content) → o ≡ some c → IsGiven codec db p source c)
      → Q (insert_children codec db p now source o)
  unfolding insert_children Inserts
  insert_children_cases none given = refuse conflict (inl refl)
  insert_children_cases (some c) given = by_human _ (
      insert_revision-Inserts codec.jsonb db.users (human_of codec p now source c)
        db.tables.revisions)
    where
      by_approved :
          (rows : List Row) (o : Option (List Row))
          → IsInserted codec.jsonb (human_of codec p now source c) db.tables.revisions rows
          → Inserts codec.jsonb (approved_of p now source c) rows o
          → Q (elim o [
            | none ↦ (err repository, db)
            | some rows' ↦ insert_review codec db p now source c rows'
          ])
      by_approved rows none h a = refuse repository (inr refl)
      by_approved rows (some rows') h a = store c rows rows' (given c refl) h a

      by_human :
          (o : Option (List Row))
          → Inserts codec.jsonb (human_of codec p now source c) db.tables.revisions o
          → Q (elim o [
            | none ↦ (err repository, db)
            | some rows ↦
                elim (insert_revision codec.jsonb db.users (approved_of p now source c) rows) [
                  | none ↦ (err repository, db)
                  | some rows' ↦ insert_review codec db p now source c rows'
                ]
          ])
      by_human none h = refuse repository (inr refl)
      by_human (some rows) h =
          by_approved rows _ h
            (insert_revision-Inserts codec.jsonb db.users (approved_of p now source c) rows)

  pub approve_source_cases : Q (approve_source codec db p now source)
  unfolding approve_source approve_changes
  approve_source_cases =
      refuse_or (not (is_under_review source)) _
        (by_parent (load db.tables p.workspace_id source.parent_revision_id) refl)
    where
      by_changes :
          (parent : Revision) (o : Option (List Change))
          → load db.tables p.workspace_id source.parent_revision_id ≡ some parent
          → codec.read_changes source.diff ≡ o
          → Q (approve_changes codec db p now source parent o)
      by_changes parent none loaded read = refuse conflict (inl refl)
      by_changes parent (some changes) loaded read =
          refuse_or
            (not (length source.segments == length parent.segments)
              || not (length p.human_segment_ids == length parent.segments)
              || not (length p.approved_segment_ids == length parent.segments))
            _
            (insert_children_cases (reviewed_content p db.reviews source parent changes) (λ c gives.
              record {
                parent = parent;
                changes = changes;
                parent_loaded = loaded;
                changes_read = read;
                content_given = gives;
              }))

      by_parent :
          (o : Option Revision)
          → load db.tables p.workspace_id source.parent_revision_id ≡ o
          → Q (elim o [
            | none ↦ (err conflict, db)
            | some parent ↦
                approve_changes codec db p now source parent (codec.read_changes source.diff)
          ])
      by_parent none loaded = refuse conflict (inl refl)
      by_parent (some parent) loaded =
          by_changes parent (codec.read_changes source.diff) loaded refl

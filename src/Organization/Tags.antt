-- ===== src/Organization/Tags.antt =====
-- `AddTags` and `RemoveTags` of internal/organization/postgres_repository.go. A transaction answers with a
-- value and its tables, or with an error and the tables that it began with; failures of the connection are
-- left out.
pub mod Assigned
pub mod Again
use voice_asset_server.Base.{
  ℕ, zero, suc, ◌+◌, Bool, true, false, not, ◌&&◌, ◌||◌, List, [], ◌∷◌, ◌==◌, if◌then◌else◌,
  text_eq, length, Result, ok, err,
}
use voice_asset_server.Text.{Bytes, codes}
use voice_asset_server.Organization.{
  Error, not_found, internal, Assignment, Tag, Audit, Database, has_asset, count, is_row,
  is_assigned,
}

pub record TagMutationParams : Type 0 where
  pub audit_id : Bytes
  pub workspace_id : Bytes
  pub asset_id : Bytes
  pub actor_id : Bytes
  pub actor_type : Bytes
  pub credential_id : Bytes
  pub request_id : Bytes
  pub tag_ids : List Bytes

pub record TagMutationResult : Type 0 where
  pub asset_id : Bytes
  pub tag_ids : List Bytes
  pub changed_count : ℕ

unfoldable pub is_among : Bytes → List Bytes → Bool
is_among s [] = false
is_among s (t ∷ ts) = text_eq t s || is_among s ts

unfoldable pub is_member : Bytes → Bytes → List (Bytes × Bytes) → Bool
is_member workspace user [] = false
is_member workspace user ((w, u) ∷ rest) =
    (text_eq w workspace && text_eq u user) || is_member workspace user rest

-- The rows of asset_tags after a write, and how many have changed.
pub record Write : Type 0 where
  pub changed : ℕ
  pub rows : List Assignment

module _ (workspace asset : Bytes) where
  -- INSERT ... ON CONFLICT DO NOTHING, of the tags in their order.
  unfoldable pub insert_tags : Bytes → List Bytes → List Assignment → Write
  insert_tags actor [] rows = record { changed = 0; rows = rows }
  insert_tags actor (t ∷ ts) rows =
      let known = is_assigned workspace asset t rows in
      let row : Assignment = record {
        workspace_id = workspace;
        asset_id = asset;
        tag_id = t;
        created_by = actor;
      } in
      let rest = insert_tags actor ts (if known then rows else row ∷ rows) in
      record { changed = (if known then 0 else 1) + rest.changed; rows = rest.rows }

  -- WHERE workspace_id = $1 AND asset_id = $2 AND tag_id = ANY($3)
  abbrev pub is_removed : List Bytes → Assignment → Bool
  is_removed ts s =
      text_eq s.workspace_id workspace && text_eq s.asset_id asset && is_among s.tag_id ts

  -- DELETE
  unfoldable pub delete_tags : List Bytes → List Assignment → Write
  delete_tags ts [] = record { changed = 0; rows = [] }
  delete_tags ts (s ∷ rows) =
      let rest = delete_tags ts rows in
      if is_removed ts s
      then record { changed = suc rest.changed; rows = rest.rows }
      else record { changed = rest.changed; rows = s ∷ rest.rows }

-- The two kinds of write. An insert that changes something needs its author to be a member.
unfoldable pub write : Bool → Database → TagMutationParams → Write
write true db p = insert_tags p.workspace_id p.asset_id p.actor_id p.tag_ids db.assignments
write false db p = delete_tags p.workspace_id p.asset_id p.tag_ids db.assignments

abbrev pub lacks_author : Bool → Database → TagMutationParams → ℕ → Bool
lacks_author add db p changed =
    add && not (changed == 0) && not (is_member p.workspace_id p.actor_id db.memberships)

abbrev action_of : Bool → Bytes
action_of true = codes "asset.tags_added"
action_of false = codes "asset.tags_removed"

abbrev pub tagged : Bool → Database → TagMutationParams → Write → Database
tagged add db p w = record db {
  assignments = w.rows;
  audits =
      (record {
        id = p.audit_id;
        actor_id = p.actor_id;
        actor_type = p.actor_type;
        action = action_of add;
        target_id = p.asset_id;
        request_id = p.request_id;
      })
      ∷ db.audits;
}

-- SELECT count(*) FROM tags WHERE workspace_id = $1 AND id = ANY($2)
unfoldable pub known_tags : Database → TagMutationParams → ℕ
known_tags db p =
    count (λ t. text_eq t.workspace_id p.workspace_id && is_among t.id p.tag_ids) db.tags

-- The primary key of audit_logs.
unfoldable pub has_audit : Bytes → List Audit → Bool
has_audit id [] = false
has_audit id (a ∷ audits) = text_eq a.id id || has_audit id audits

-- `mutateTags` of the repository, to add or to remove.
unfoldable pub mutate_tags :
    Bool → Database → TagMutationParams → Result Error TagMutationResult × Database
mutate_tags add db p =
    let w = write add db p in
    if not (has_asset db p.workspace_id p.asset_id)
    then (err not_found, db)
    else if not (known_tags db p == length p.tag_ids)
    then (err not_found, db)
    else if lacks_author add db p w.changed
    then (err internal, db)
    else if has_audit p.audit_id db.audits
    then (err internal, db)
    else (
      ok (record { asset_id = p.asset_id; tag_ids = p.tag_ids; changed_count = w.changed }),
      tagged add db p w,
    )

-- ===== src/Organization/Tags/Assigned.antt =====
-- The tags of the assets as a set, whatever the rows are that keep it.
use voice_asset_server.Base.{
  suc, ◌≡◌, refl, sym, ap, ◌∙◌, Bool, true, false, not, ◌&&◌, ◌||◌, List, [], ◌∷◌, arith, ◌==◌,
  if◌then◌else◌, text_eq, text_eq_sound, text_eq_comm, length, and_split, Result, ok, err,
}
use voice_asset_server.Text.{Bytes}
use voice_asset_server.Organization.{
  Error, not_found, internal, Assignment, Database, has_asset, is_row, is_assigned,
}
use voice_asset_server.Organization.Tags.{
  TagMutationParams, TagMutationResult, Write, is_among, insert_tags, is_removed, delete_tags,
  write, lacks_author, known_tags, tagged, has_audit, mutate_tags,
}

-- The set: which asset of which workspace has which tag.
abbrev pub Assigned : Type 0
Assigned = Bytes → Bytes → Bytes → Bool

unfoldable pub assigned : Database → Assigned
assigned db workspace asset tag = is_assigned workspace asset tag db.assignments

-- The tags that a request is about.
abbrev pub requested : TagMutationParams → Assigned
requested p workspace asset tag =
    text_eq p.workspace_id workspace && text_eq p.asset_id asset && is_among tag p.tag_ids

-- Union and difference.
abbrev pub mutated : Bool → Assigned → Assigned → Assigned
mutated true these those workspace asset tag =
    these workspace asset tag || those workspace asset tag
mutated false these those workspace asset tag =
    not (these workspace asset tag) && those workspace asset tag

is_assigned_same :
    (w a t w' a' t' : Bytes) (rows : List Assignment)
    → (text_eq w w' && text_eq a a' && text_eq t t') ≡ true
    → is_assigned w a t rows ≡ is_assigned w' a' t' rows
is_assigned_same w a t w' a' t' rows h =
    let (left, same_tag) = and_split _ _ h in
    let (same_workspace, same_asset) = and_split _ _ left in
    ap (λ k. is_assigned k a t rows) (text_eq_sound w w' same_workspace)
    ∙ ap (λ k. is_assigned w' k t rows) (text_eq_sound a a' same_asset)
    ∙ ap (λ k. is_assigned w' a' k rows) (text_eq_sound t t' same_tag)

-- The Boolean algebra that the writes need.
insert_first :
    (place among here there : Bool)
    → ((place && among) || ((place && here) || there)) ≡ ((place && (here || among)) || there)
insert_first place among here there = ground arith

module _ (w a actor : Bytes) (w' a' t' : Bytes) where
  abbrev row_of : Bytes → Assignment
  row_of t = record { workspace_id = w; asset_id = a; tag_id = t; created_by = actor }

  with_row :
      (t : Bytes) (rows : List Assignment)
      → is_assigned w' a' t' (if is_assigned w a t rows then rows else row_of t ∷ rows)
        ≡ ((text_eq w w' && text_eq a a' && text_eq t t') || is_assigned w' a' t' rows)
  with_row t rows =
      by_known (is_assigned w a t rows) (text_eq w w' && text_eq a a' && text_eq t t') refl refl
    where
      by_known :
          (known same : Bool)
          → is_assigned w a t rows ≡ known
          → (text_eq w w' && text_eq a a' && text_eq t t') ≡ same
          → is_assigned w' a' t' (if known then rows else row_of t ∷ rows)
            ≡ (same || is_assigned w' a' t' rows)
      by_known true true k m = sym (is_assigned_same w a t w' a' t' rows m) ∙ k
      by_known true false k m = refl
      by_known false same k m = unfold is_assigned in ap (λ b. b || is_assigned w' a' t' rows) m

  pub insert_tags-is_assigned :
      (ts : List Bytes) (rows : List Assignment)
      → is_assigned w' a' t' (insert_tags w a actor ts rows).rows
        ≡ (((text_eq w w' && text_eq a a') && is_among t' ts) || is_assigned w' a' t' rows)
  unfolding insert_tags is_among
  insert_tags-is_assigned [] rows = ground (arith, is_assigned)
  insert_tags-is_assigned (t ∷ ts) rows =
      insert_tags-is_assigned ts (if is_assigned w a t rows then rows else row_of t ∷ rows)
      ∙ ap (λ b. ((text_eq w w' && text_eq a a') && is_among t' ts) || b) (with_row t rows)
      ∙ insert_first (text_eq w w' && text_eq a a') (is_among t' ts) (text_eq t t')
          (is_assigned w' a' t' rows)

  is_removed_same :
      (ts : List Bytes) (s : Assignment)
      → is_row w' a' t' s ≡ true
      → is_removed w a ts s ≡ (text_eq w w' && text_eq a a' && is_among t' ts)
  is_removed_same ts s h =
      let (left, same_tag) = and_split _ _ h in
      let (same_workspace, same_asset) = and_split _ _ left in
      ap (λ k. text_eq k w && text_eq s.asset_id a && is_among s.tag_id ts)
        (text_eq_sound s.workspace_id w' same_workspace)
      ∙ ap (λ k. text_eq w' w && text_eq k a && is_among s.tag_id ts)
          (text_eq_sound s.asset_id a' same_asset)
      ∙ ap (λ k. text_eq w' w && text_eq a' a && is_among k ts) (text_eq_sound s.tag_id t' same_tag)
      ∙ ap (λ b. b && text_eq a' a && is_among t' ts) (text_eq_comm w' w)
      ∙ ap (λ b. text_eq w w' && b && is_among t' ts) (text_eq_comm a' a)

  delete_tags-is_assigned :
      (ts : List Bytes) (rows : List Assignment)
      → is_assigned w' a' t' (delete_tags w a ts rows).rows
        ≡ (not (text_eq w w' && text_eq a a' && is_among t' ts) && is_assigned w' a' t' rows)
  unfolding delete_tags is_assigned
  delete_tags-is_assigned ts [] = ground arith
  delete_tags-is_assigned ts (s ∷ rows) =
      by_row (is_removed w a ts s) (is_row w' a' t' s) refl refl (delete_tags-is_assigned ts rows)
    where
      gone : Bool
      gone = text_eq w w' && text_eq a a' && is_among t' ts

      rest : Write
      rest = delete_tags w a ts rows

      cut : Bool → Write
      cut removed =
          if removed
          then record { changed = suc rest.changed; rows = rest.rows }
          else record { changed = rest.changed; rows = s ∷ rest.rows }

      by_row :
          (removed same : Bool)
          → is_removed w a ts s ≡ removed
          → is_row w' a' t' s ≡ same
          → is_assigned w' a' t' rest.rows ≡ (not gone && is_assigned w' a' t' rows)
          → is_assigned w' a' t' (cut removed).rows
            ≡ (not gone && (is_row w' a' t' s || is_assigned w' a' t' rows))
      by_row true true r m later =
          let e : gone ≡ true = sym (is_removed_same ts s m) ∙ r in ground (arith, later, e)
      by_row true false r m later = rw m later
      by_row false true r m later =
          let e : gone ≡ false = sym (is_removed_same ts s m) ∙ r in ground (arith, later, e, m)
      by_row false false r m later = rw m later

-- An answer, against the set.
abbrev pub Mutates :
    Bool → Database → TagMutationParams → Result Error TagMutationResult × Database → Type 0
Mutates add db p (err e, db') = db' ≡ db
Mutates add db p (ok r, db') =
    (workspace asset tag : Bytes)
    → assigned db' workspace asset tag ≡ mutated add (requested p) (assigned db) workspace asset tag

guarded :
    (add : Bool) (db : Database) (p : TagMutationParams) (b : Bool) (e : Error)
    (rest : Result Error TagMutationResult × Database)
    → Mutates add db p rest
    → Mutates add db p (if b then (err e, db) else rest)
guarded add db p true e rest m = refl
guarded add db p false e rest m = m

write-assigned :
    (add : Bool) (db : Database) (p : TagMutationParams) (workspace asset tag : Bytes)
    → is_assigned workspace asset tag (write add db p).rows
      ≡ mutated add (requested p) (assigned db) workspace asset tag
unfolding write assigned
write-assigned true db p workspace asset tag =
    insert_tags-is_assigned p.workspace_id p.asset_id p.actor_id workspace asset tag p.tag_ids
      db.assignments
write-assigned false db p workspace asset tag =
    delete_tags-is_assigned p.workspace_id p.asset_id p.actor_id workspace asset tag p.tag_ids
      db.assignments

-- Adding and removing tags refine union and difference: after an answered request an asset has a tag
-- exactly if the request adds this tag to it or the asset had it before, and, for a removal, if it had it
-- and the request does not remove it. A refused request changes nothing.
pub mutate_tags-Mutates :
    (add : Bool) (db : Database) (p : TagMutationParams) → Mutates add db p (mutate_tags add db p)
unfolding mutate_tags assigned
mutate_tags-Mutates add db p =
    guarded add db p (not (has_asset db p.workspace_id p.asset_id)) not_found _ (
      guarded add db p (not (known_tags db p == length p.tag_ids)) not_found _ (
        guarded add db p (lacks_author add db p (write add db p).changed) internal _ (
          guarded add db p (has_audit p.audit_id db.audits) internal
            (
              ok (record {
                asset_id = p.asset_id;
                tag_ids = p.tag_ids;
                changed_count = (write add db p).changed;
              }),
              tagged add db p (write add db p),
            )
            (write-assigned add db p))))

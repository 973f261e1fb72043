-- ===== src/Organization/Tags/Again.antt =====
-- A request for tags that is made again.
use voice_asset_server.Base.{
  ℕ, ◌+◌, ◌≡◌, refl, ap, subst, ◌∙◌, Bool, true, false, not, ◌||◌, List, [], ◌∷◌, arith, ◌==◌,
  if◌then◌else◌, text_eq, text_eq_refl, length, All, Bool-cases, inl, inr, Result, ok, err,
}
use voice_asset_server.Text.{Bytes}
use voice_asset_server.Organization.{
  Error, not_found, internal, Assignment, Database, has_asset, is_assigned,
}
use voice_asset_server.Organization.Tags.{
  TagMutationParams, TagMutationResult, Write, is_among, insert_tags, is_removed, delete_tags,
  write, lacks_author, known_tags, tagged, has_audit, mutate_tags,
}
use voice_asset_server.Organization.Tags.Assigned.{insert_tags-is_assigned}

abbrev untouched : List Assignment → Write
untouched rows = record { changed = 0; rows = rows }

abbrev behind : Assignment → Write → Write
behind s x = record { changed = x.changed; rows = s ∷ x.rows }

abbrev none_more : Write → Write
none_more x = record { changed = 0 + x.changed; rows = x.rows }

among_all :
    (ts zs : List Bytes)
    → ((t : Bytes) → is_among t ts ≡ true → is_among t zs ≡ true)
    → All (λ t. is_among t zs ≡ true) ts
unfolding is_among
among_all [] zs h = tt
among_all (t ∷ ts) zs h = (
  h t (ap (λ b. b || is_among t ts) (text_eq_refl t)),
  among_all ts zs (λ u k. h u (either (text_eq t u) (is_among u ts) k)),
)
  where
    either : (a b : Bool) → b ≡ true → (a || b) ≡ true
    either a b k = ground arith

module _ (w a actor : Bytes) where
  insert_known :
      (ts : List Bytes) (rows : List Assignment)
      → All (λ t. is_assigned w a t rows ≡ true) ts
      → insert_tags w a actor ts rows ≡ untouched rows
  unfolding insert_tags
  insert_known [] rows k = refl
  insert_known (t ∷ ts) rows k = rw (k.0) (ap none_more (insert_known ts rows k.1))

module _ (w a actor : Bytes) where
  insert_again :
      (other : Bytes) (ts : List Bytes) (rows : List Assignment)
      → insert_tags w a other ts (insert_tags w a actor ts rows).rows
        ≡ untouched (insert_tags w a actor ts rows).rows
  insert_again other ts rows =
      insert_known w a other ts (insert_tags w a actor ts rows).rows
        (known ts (among_all ts ts (λ t h. h)))
    where
      known :
          (us : List Bytes)
          → All (λ t. is_among t ts ≡ true) us
          → All (λ t. is_assigned w a t (insert_tags w a actor ts rows).rows ≡ true) us
      known [] k = tt
      known (t ∷ us) k = (
        insert_tags-is_assigned w a actor w a t ts rows
            ∙ rw (text_eq_refl w, text_eq_refl a, k.0) refl,
        known us k.1,
      )

module _ (w a : Bytes) where
  delete_unlisted :
      (ts : List Bytes) (rows : List Assignment)
      → All (λ s. is_removed w a ts s ≡ false) rows
      → delete_tags w a ts rows ≡ untouched rows
  unfolding delete_tags
  delete_unlisted ts [] k = refl
  delete_unlisted ts (s ∷ rows) k = rw (k.0) (ap (behind s) (delete_unlisted ts rows k.1))

  kept :
      (ts : List Bytes) (rows : List Assignment)
      → All (λ s. is_removed w a ts s ≡ false) (delete_tags w a ts rows).rows
  unfolding delete_tags
  kept ts [] = tt
  kept ts (s ∷ rows) = elim (Bool-cases (is_removed w a ts s)) [
    | inl gone ↦ rw gone (kept ts rows)
    | inr stays ↦ rw stays (stays, kept ts rows)
  ]

-- Another request for the same tags of the same asset.
abbrev pub renewed : TagMutationParams → TagMutationParams → TagMutationParams
renewed p q = record q { workspace_id = p.workspace_id; asset_id = p.asset_id; tag_ids = p.tag_ids }

-- A write that is made again on its own rows.
write_again :
    (add : Bool) (db db' : Database) (p q : TagMutationParams)
    → db'.assignments ≡ (write add db p).rows
    → write add db' (renewed p q) ≡ untouched db'.assignments
unfolding write
write_again true db db' p q e =
    rw (e) (insert_again p.workspace_id p.asset_id p.actor_id q.actor_id p.tag_ids db.assignments)
write_again false db db' p q e = rw (e) (
    delete_unlisted p.workspace_id p.asset_id p.tag_ids
      (delete_tags p.workspace_id p.asset_id p.tag_ids db.assignments).rows
      (kept p.workspace_id p.asset_id p.tag_ids db.assignments))

abbrev pub Unchanged :
    Database → TagMutationResult → Result Error TagMutationResult × Database → Type 0
Unchanged db r (err e, db') = ⊥
Unchanged db r (ok r', db') =
    (r' ≡ record r { changed_count = 0 }) × (db'.assignments ≡ db.assignments)

abbrev Repeats :
    Bool
    → TagMutationParams
    → TagMutationParams
    → Result Error TagMutationResult × Database
    → Type 0
Repeats add p q (err e, db') = Unit
Repeats add p q (ok r, db') =
    has_audit q.audit_id db'.audits ≡ false → Unchanged db' r (mutate_tags add db' (renewed p q))

abbrev answered : TagMutationParams → ℕ → TagMutationResult
answered p n = record { asset_id = p.asset_id; tag_ids = p.tag_ids; changed_count = n }

untouched_answer :
    (add : Bool) (db : Database) (p : TagMutationParams) (n : ℕ)
    → not (has_asset db p.workspace_id p.asset_id) ≡ false
    → not (known_tags db p == length p.tag_ids) ≡ false
    → write add db p ≡ untouched db.assignments
    → has_audit p.audit_id db.audits ≡ false
    → Unchanged db (answered p n) (mutate_tags add db p)
unfolding mutate_tags
untouched_answer true db p n has knows same new =
    rw (mutate_tags, has, knows, same, new) (refl, refl)
untouched_answer false db p n has knows same new =
    rw (mutate_tags, has, knows, same, new) (refl, refl)

guarded :
    (add : Bool) (db : Database) (p q : TagMutationParams) (b : Bool) (e : Error)
    (rest : Result Error TagMutationResult × Database)
    → (b ≡ false → Repeats add p q rest)
    → Repeats add p q (if b then (err e, db) else rest)
guarded add db p q true e rest m = tt
guarded add db p q false e rest m = m refl

mutate_tags-Repeats :
    (add : Bool) (db : Database) (p q : TagMutationParams) → Repeats add p q (mutate_tags add db p)
unfolding mutate_tags known_tags
mutate_tags-Repeats add db p q =
    let done = tagged add db p (write add db p) in
    guarded add db p q (not (has_asset db p.workspace_id p.asset_id)) not_found _ (λ has.
      guarded add db p q (not (known_tags db p == length p.tag_ids)) not_found _ (λ knows.
        guarded add db p q (lacks_author add db p (write add db p).changed) internal _ (λ may.
          guarded add db p q (has_audit p.audit_id db.audits) internal
            (ok (answered p (write add db p).changed), done)
            (λ new fresh.
              untouched_answer add done (renewed p q) (write add db p).changed has knows
                (write_again add db done p q refl) fresh))))

-- A request that adds or removes tags can be made again: after an answered one, another request to add, or
-- to remove, the same tags of the same asset, by whomever it is made, answers the same, except that it
-- reports no change, and no asset has other tags than before. The identifier of its audit entry has to be
-- one that is not in use.
pub mutate_tags-again :
    (add : Bool) (db db' : Database) (p q : TagMutationParams) (r : TagMutationResult)
    → mutate_tags add db p ≡ (ok r, db')
    → has_audit q.audit_id db'.audits ≡ false
    → Unchanged db' r (mutate_tags add db' (renewed p q))
mutate_tags-again add db db' p q r runs =
    subst (Repeats add p q) runs (mutate_tags-Repeats add db p q)

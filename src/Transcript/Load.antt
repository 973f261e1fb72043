-- ===== src/Transcript/Load.antt =====
-- Loading a revision after a row has been added.
use voice_asset_server.Base.{
  ◌≡◌, refl, sym, ap, subst, ◌∙◌, Bool, true, false, Option, none, some, List, ◌∷◌, arith,
  if◌then◌else◌, text_eq, text_eq_sound, text_eq_refl, Bool-cases, inl, inr,
}
use voice_asset_server.Base.Table.{find, find-key}
use voice_asset_server.Text.{Bytes}
use voice_asset_server.Transcript.{
  Revision, Row, Transcript, Asset, Tables, is_visible, revision, join_asset, join_transcript,
  load_row, load,
}

-- The transcript and the asset behind a revision that a query has found.
pub record IsLoaded (db : Tables) (workspace : Bytes) (q : Revision) : Type 0 where
  pub transcript : Transcript
  pub asset : Asset
  pub transcript_found : find (λ t. t.id) q.transcript_id db.transcripts ≡ some transcript
  pub asset_found : find (λ a. a.id) transcript.asset_id db.assets ≡ some asset
  pub visible : is_visible workspace asset ≡ true
  pub same_asset : transcript.asset_id ≡ q.asset_id
  pub same_language : transcript.language ≡ q.language

module _ (db : Tables) (workspace : Bytes) where
  abbrev Loads : Option Revision → Type 0
  Loads none = Unit
  Loads (some q) = IsLoaded db workspace q

  join_asset-Loads :
      (r : Row) (t : Transcript) (o : Option Asset)
      → find (λ t. t.id) r.transcript_id db.transcripts ≡ some t
      → find (λ a. a.id) t.asset_id db.assets ≡ o
      → Loads (join_asset workspace r t o)
  unfolding join_asset
  join_asset-Loads r t none h g = tt
  join_asset-Loads r t (some a) h g = elim (Bool-cases (is_visible workspace a)) [
    | inl seen ↦
        rw (seen, join_asset)
          (record {
            transcript = t;
            asset = a;
            transcript_found = h;
            asset_found = g;
            visible = seen;
            same_asset = refl;
            same_language = refl;
          })
    | inr hidden ↦ rw (hidden, join_asset) tt
  ]

  join_transcript-Loads :
      (r : Row) (o : Option Transcript)
      → find (λ t. t.id) r.transcript_id db.transcripts ≡ o
      → Loads (join_transcript db workspace r o)
  unfolding join_transcript
  join_transcript-Loads r none h = tt
  join_transcript-Loads r (some t) h = join_asset-Loads r t _ h refl

  load_row-Loads : (o : Option Row) → Loads (load_row db workspace o)
  unfolding load_row
  load_row-Loads none = tt
  load_row-Loads (some r) = join_transcript-Loads r _ refl

  pub load-IsLoaded :
      (id : Bytes) (q : Revision) → load db workspace id ≡ some q → IsLoaded db workspace q
  unfolding load
  load-IsLoaded id q h = subst Loads h (load_row-Loads (find (λ r. r.id) id db.revisions))

  abbrev pub with_rows : List Row → Tables
  with_rows rows = record db { revisions = rows }

  -- A row of the same transcript is loaded, once it is found.
  pub load_found :
      (q : Revision) (rows : List Row) (id : Bytes) (r : Row) (x : IsLoaded db workspace q)
      → find (λ s. s.id) id rows ≡ some r
      → r.transcript_id ≡ q.transcript_id
      → load (with_rows rows) workspace id ≡ some (revision r x.transcript)
  unfolding load load_row join_transcript join_asset
  load_found q rows id r x h e =
      let g : find (λ t. t.id) r.transcript_id db.transcripts ≡ some x.transcript =
        subst (λ k. find (λ t. t.id) k db.transcripts ≡ some x.transcript) (sym e)
          x.transcript_found in
      rw (h, load, load_row, g, join_transcript, x.asset_found, join_asset, x.visible) refl

  same_row :
      (rows : List Row) (o : Option Row)
      → load_row (with_rows rows) workspace o ≡ load_row db workspace o
  unfolding load_row join_transcript
  same_row rows none = refl
  same_row rows (some r) = by_transcript (find (λ t. t.id) r.transcript_id db.transcripts)
    where
      by_transcript :
          (o : Option Transcript)
          → join_transcript (with_rows rows) workspace r o ≡ join_transcript db workspace r o
      by_transcript none = refl
      by_transcript (some t) = refl

  -- Only the row with the identifier matters.
  pub load_same :
      (rows : List Row) (id : Bytes)
      → find (λ r. r.id) id rows ≡ find (λ r. r.id) id db.revisions
      → load (with_rows rows) workspace id ≡ load db workspace id
  unfolding load
  load_same rows id h =
      ap (load_row (with_rows rows) workspace) h ∙ same_row rows (find (λ r. r.id) id db.revisions)

-- A new row hides no other.
pub find_behind :
    (r : Row) (rows : List Row) (id : Bytes) (s : Row)
    → find (λ q. q.id) r.id rows ≡ none
    → find (λ q. q.id) id rows ≡ some s
    → find (λ q. q.id) id (r ∷ rows) ≡ some s
unfolding find
find_behind r rows id s h g = elim (Bool-cases (text_eq r.id id)) [
  | inl same ↦
      let e = text_eq_sound r.id id same in
      absurd (differ (subst (λ k. find (λ q. q.id) k rows ≡ none) e h))
  | inr other ↦ rw (other, find) g
]
  where
    differ : find (λ q. q.id) id rows ≡ none → ⊥
    differ k = ground (arith, k, g)

pub find_front : (r : Row) (rows : List Row) → find (λ q. q.id) r.id (r ∷ rows) ≡ some r
unfolding find
find_front r rows = rw (text_eq_refl r.id, find) refl

-- What is loaded has the identifier that was asked for.
pub load-id :
    (db : Tables) (workspace id : Bytes) (q : Revision) → load db workspace id ≡ some q → q.id ≡ id
unfolding load load_row join_transcript join_asset
load-id db workspace id q h = by_row (find (λ r. r.id) id db.revisions) refl h
  where
    Keeps : Row → Option Revision → Type 0
    Keeps r none = Unit
    Keeps r (some q) = q.id ≡ r.id

    by_asset : (r : Row) (t : Transcript) (o : Option Asset) → Keeps r (join_asset workspace r t o)
    by_asset r t none = tt
    by_asset r t (some a) = by_test (is_visible workspace a)
      where
        by_test : (b : Bool) → Keeps r (if b then some (revision r t) else none)
        by_test true = refl
        by_test false = tt

    by_transcript : (r : Row) (o : Option Transcript) → Keeps r (join_transcript db workspace r o)
    by_transcript r none = tt
    by_transcript r (some t) = by_asset r t (find (λ a. a.id) t.asset_id db.assets)

    by_row :
        (o : Option Row)
        → find (λ r. r.id) id db.revisions ≡ o
        → load_row db workspace o ≡ some q
        → q.id ≡ id
    by_row none e g = absurd (ground (arith, g))
    by_row (some r) e g =
        subst (Keeps r) g (by_transcript r (find (λ t. t.id) r.transcript_id db.transcripts))
        ∙ find-key (λ r. r.id) id db.revisions r e

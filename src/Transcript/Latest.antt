-- ===== src/Transcript/Latest.antt =====
-- The latest revision of a transcript, as the list of transcripts of
-- internal/transcript/postgres_repository.go shows it.
use voice_asset_server.Base.{
  ◌<◌, ◌≡◌, refl, ap, subst, ◌∙◌, Bool, true, false, some, List, [], ◌∷◌, arith, if◌then◌else◌,
  text_eq, text_eq_refl, All, Bool-cases, inl, inr,
}
use voice_asset_server.Base.Paging.{precedes, insert, newest_first, text_ltb}
use voice_asset_server.Text.{Bytes}
use voice_asset_server.Transcript.{Row, Time, row_key, revisions_of, latest, head_of}

abbrev pub IsBefore : Time → List Row → Type 0
IsBefore now = All (λ r. r.created_at < now)

insert-IsBefore :
    (now : Time) (r : Row) (rows : List Row)
    → r.created_at < now
    → IsBefore now rows
    → IsBefore now (insert row_key r rows)
unfolding insert
insert-IsBefore now r [] h a = (h, tt)
insert-IsBefore now r (s ∷ rows) h a = elim (Bool-cases (precedes (row_key r) (row_key s))) [
  | inl later ↦ rw later (a.0, insert-IsBefore now r rows h a.1)
  | inr first ↦ rw first (h, a)
]

newest_first-IsBefore :
    (now : Time) (rows : List Row) → IsBefore now rows → IsBefore now (newest_first row_key rows)
unfolding newest_first
newest_first-IsBefore now [] a = tt
newest_first-IsBefore now (r ∷ rows) a =
    insert-IsBefore now r (newest_first row_key rows) a.0 (newest_first-IsBefore now rows a.1)

revisions_of-IsBefore :
    (now : Time) (transcript : Bytes) (rows : List Row)
    → IsBefore now rows
    → IsBefore now (revisions_of transcript rows)
unfolding revisions_of
revisions_of-IsBefore now transcript [] a = tt
revisions_of-IsBefore now transcript (r ∷ rows) a =
    elim (Bool-cases (text_eq r.transcript_id transcript)) [
      | inl own ↦ rw own (a.0, revisions_of-IsBefore now transcript rows a.1)
      | inr other ↦ rw other (revisions_of-IsBefore now transcript rows a.1)
    ]

insert_newest :
    (r : Row) (rows : List Row) → IsBefore r.created_at rows → insert row_key r rows ≡ r ∷ rows
unfolding insert
insert_newest r [] a = refl
insert_newest r (s ∷ rows) a = rw (not_later a.0) refl
  where
    not_later : s.created_at < r.created_at → precedes (row_key r) (row_key s) ≡ false
    not_later h = unfold precedes in ground arith

-- Of two new rows of one time the one with the greater identifier is the latest.
pub latest_of_two :
    (r s : Row) (rows : List Row)
    → IsBefore s.created_at rows
    → r.created_at ≡ s.created_at
    → r.transcript_id ≡ s.transcript_id
    → latest s.transcript_id (r ∷ s ∷ rows) ≡ some (if text_ltb r.id s.id then s else r)
unfolding latest revisions_of newest_first
latest_of_two r s rows before same_time same_transcript =
    let own : text_eq r.transcript_id s.transcript_id ≡ true =
      subst (λ t. text_eq r.transcript_id t ≡ true) same_transcript
        (text_eq_refl r.transcript_id) in
    rw (own, text_eq_refl s.transcript_id)
      (ap (λ k. head_of (insert row_key r k))
          (insert_newest s old (
            newest_first-IsBefore s.created_at (revisions_of s.transcript_id rows)
              (revisions_of-IsBefore s.created_at s.transcript_id rows before)))
        ∙ by_order (text_ltb r.id s.id) same_key)
  where
    old : List Row
    old = newest_first row_key (revisions_of s.transcript_id rows)

    same_key : precedes (row_key r) (row_key s) ≡ text_ltb r.id s.id
    same_key = unfold precedes in ground arith

    by_order :
        (b : Bool)
        → precedes (row_key r) (row_key s) ≡ b
        → head_of (insert row_key r (s ∷ old)) ≡ some (if b then s else r)
    by_order true h = unfold insert in rw h refl
    by_order false h = unfold insert in rw h refl

-- ===== src/Realtime/Repository/Locking.antt =====
-- Optimistic locking: of two writers that read the same version of a session, one is refused.
use voice_asset_server.Base.{
  ◌≡◌, refl, sym, ap, subst, ◌∙◌, Bool, true, false, not, ◌&&◌, Option, none, some, List, [], ◌∷◌,
  arith, text_eq, text_eq_sound, if◌then◌else◌, ok, err, Bool-cases, inl, inr,
}
use voice_asset_server.Base.Int.{ℤ, pos, negsuc, eqb_ℤ, wrap64, ◌+ℤ◌}
use voice_asset_server.Text.{Bytes}
use voice_asset_server.Realtime.{version_conflict, Time}
use voice_asset_server.Realtime.Session.{Session, inc64}
use voice_asset_server.Realtime.Repository.{
  Database, Row, Audit, update, update_rows, updated_row, commit_update,
}

-- No row has this identifier.
abbrev pub Absent : Bytes → List Row → Type 0
Absent id [] = Unit
Absent id (r ∷ rows) = (text_eq r.session.id id ≡ false) × Absent id rows

-- The identifier is a key of the table.
abbrev pub UniqueIds : List Row → Type 0
UniqueIds [] = Unit
UniqueIds (r ∷ rows) = Absent r.session.id rows × UniqueIds rows

update_rows-Absent :
    (expected : ℤ) (s : Session) (t : Time) (rows : List Row)
    → Absent s.id rows
    → update_rows expected s t rows ≡ (none, rows)
unfolding update_rows
update_rows-Absent expected s t [] h = refl
update_rows-Absent expected s t (r ∷ rows) h = rw (update_rows-Absent expected s t rows h.1, h.0)

inc64_ne : (n : ℤ) → eqb_ℤ (inc64 n) n ≡ false
unfolding wrap64 ◌+ℤ◌
inc64_ne (pos n) = ground arith
inc64_ne (negsuc n) = ground arith

and_false : (b : Bool) → (b && false) ≡ false
and_false true = refl
and_false false = refl

none_ne_some : {A B : Type 0} {x y : B} {a : A} → ◌≡◌ {A = Option A × B} (none, x) (some a, y) → ⊥
none_ne_some {A} {B} h = cc (ap (λ (p : Option A × B). p.0) h)

-- Two writes of one session, and what the first leaves.
module _ (expected : ℤ) (s u : Session) (t t' : Time) (same_id : u.id ≡ s.id) where
  -- The row that was written has the next version.
  after_hit :
      (r : Row) (rows : List Row)
      → s.version ≡ inc64 expected
      → Absent u.id rows
      → let r' = record r { session = updated_row r.session s t } in
        update_rows expected u t' (r' ∷ rows) ≡ (none, r' ∷ rows)
  unfolding update_rows updated_row
  after_hit r rows v absent =
      rw (update_rows-Absent expected u t' rows absent, v, inc64_ne expected) (rw and_false)

  hit_rows :
      (r : Row) (rows rows' : List Row) (found : Session)
      → text_eq r.session.id s.id ≡ true
      → Absent s.id rows
      → update_rows expected s t (r ∷ rows) ≡ (some found, rows')
      → rows' ≡ record r { session = updated_row r.session s t } ∷ rows
  unfolding update_rows
  hit_rows r rows rows' found id absent e =
      ground (arith, update_rows-Absent expected s t rows absent)

  miss_rows :
      (r : Row) (rows : List Row)
      → text_eq r.session.id s.id ≡ false
      → update_rows expected s t (r ∷ rows)
        ≡ ((update_rows expected s t rows).0, r ∷ (update_rows expected s t rows).1)
  unfolding update_rows
  miss_rows r rows id = rw id

  after_miss :
      (r : Row) (rows : List Row)
      → text_eq r.session.id u.id ≡ false
      → update_rows expected u t' rows ≡ (none, rows)
      → update_rows expected u t' (r ∷ rows) ≡ (none, r ∷ rows)
  unfolding update_rows
  after_miss r rows id e = rw (e, id)

  nil_refused :
      {found : Session} {rows' : List Row} → update_rows expected s t [] ≡ (some found, rows') → ⊥
  unfolding update_rows
  nil_refused e = none_ne_some e

  second_refused :
      (rows : List Row)
      → UniqueIds rows
      → s.version ≡ inc64 expected
      → (found : Session) (rows' : List Row) → update_rows expected s t rows ≡ (some found, rows')
      → update_rows expected u t' rows' ≡ (none, rows')
  second_refused [] h v found rows' e = absurd (nil_refused e)
  second_refused (r ∷ rows) h v found rows' e = elim (Bool-cases (text_eq r.session.id s.id)) [
    | inl hit ↦
        let absent : Absent s.id rows = subst (λ i. Absent i rows) (text_eq_sound _ _ hit) h.0 in
        rw (hit_rows r rows rows' found hit absent e)
          (after_hit r rows v (subst (λ i. Absent i rows) (sym same_id) absent))
    | inr miss ↦
        let p = sym (miss_rows r rows miss) ∙ e in
        let rest =
          second_refused rows h.1 v found (update_rows expected s t rows).1
            (ap (λ (q : Option Session × List Row). (q.0, (update_rows expected s t rows).1)) p) in
        rw (sym (ap (λ (q : Option Session × List Row). q.1) p))
          (after_miss r _ (rw same_id miss) rest)
  ]

committed :
    (db db' : Database) (a : Option Audit) (r : Option Session × List Row) (saved : Session)
    → commit_update db a r ≡ (ok saved, db')
    → (r.0 ≡ some saved) × (db'.rows ≡ r.1)
unfolding commit_update
committed db db' a (none, rows) saved e = absurd (ground arith)
committed db db' a (some s, rows) saved e = ground arith

update-committed :
    (db db' : Database) (expected : ℤ) (s : Session) (a : Option Audit) (t : Time) (saved : Session)
    → update db expected s a t ≡ (ok saved, db')
    → (eqb_ℤ s.version (inc64 expected) ≡ true)
      × (commit_update db a (update_rows expected s t db.rows) ≡ (ok saved, db'))
unfolding update
update-committed db db' expected s a t saved e =
    elim (Bool-cases (eqb_ℤ s.version (inc64 expected))) [
      | inl same ↦ (same, rw same at e)
      | inr other ↦ absurd (ground arith)
    ]

update-none :
    (db : Database) (expected : ℤ) (u : Session) (b : Option Audit) (t : Time)
    → update_rows expected u t db.rows ≡ (none, db.rows)
    → update db expected u b t ≡ (err version_conflict, db)
unfolding update
update-none db expected u b t e = rw e (same_branches (not (eqb_ℤ u.version (inc64 expected))) _)
  where
    same_branches : {A : Type 0} (c : Bool) (x : A) → (if c then x else x) ≡ x
    same_branches true x = refl
    same_branches false x = refl

eq_of_eqb : (a b : ℤ) → eqb_ℤ a b ≡ true → a ≡ b
eq_of_eqb a b h = ground arith

-- Once one writer has updated a session from the version that it read, any other update of that session
-- from the same version is refused as a version conflict and writes nothing. Identifiers are unique.
pub update-conflict :
    (db db' : Database) (expected : ℤ) (s u saved : Session) (a b : Option Audit) (t t' : Time)
    → UniqueIds db.rows
    → u.id ≡ s.id
    → update db expected s a t ≡ (ok saved, db')
    → update db' expected u b t' ≡ (err version_conflict, db')
update-conflict db db' expected s u saved a b t t' unique same_id e =
    let (v, c) = update-committed db db' expected s a t saved e in
    let (f, stored) = committed db db' a (update_rows expected s t db.rows) saved c in
    let rows = (update_rows expected s t db.rows).1 in
    let second =
      second_refused expected s u t t' same_id db.rows unique (eq_of_eqb _ _ v) saved rows
        (ap (λ (o : Option Session). (o, rows)) f) in
    update-none db' expected u b t' (rw stored second)

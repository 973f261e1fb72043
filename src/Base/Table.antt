-- ===== src/Base/Table.antt =====
-- Tables as lists of rows with a text for a key: a query and an update by key, and what an update
-- does to a property of all rows.
use mathlib.Core.Path.{◌≡◌, sym, ap, subst}
use mathlib.Core.Bool.{Bool, true, false}
use mathlib.Core.Option.{Option, none, some}
use mathlib.Core.List.{List, [], ◌∷◌}
use mathlib.Core.Logic.{inl, inr}
use Prim.Native.Nat.{ℕ}
use native.Mathlib.Omega.{arith}
use voice_asset_server.Base.Tests.{if◌then◌else◌, Bool-cases}
use voice_asset_server.Base.Lists.{All, text_eq, text_eq_sound, text_eq_refl, text_eq_comm}

module _ {R : Type 0} (key : R → List ℕ) where
  -- WHERE key = $1
  unfoldable pub find : List ℕ → List R → Option R
  find id [] = none
  find id (r ∷ rows) = if text_eq (key r) id then some r else find id rows

  -- UPDATE ... WHERE key = $1
  unfoldable pub modify : List ℕ → (R → R) → List R → List R
  modify id f [] = []
  modify id f (r ∷ rows) = (if text_eq (key r) id then f r else r) ∷ modify id f rows

  -- No row has this key.
  abbrev pub Absent : List ℕ → List R → Type 0
  Absent id = All (λ r. text_eq (key r) id ≡ false)

  -- The column is a key.
  abbrev pub Unique : List R → Type 0
  Unique [] = Unit
  Unique (r ∷ rows) = Absent (key r) rows × Unique rows

  pub find-key : (id : List ℕ) (rows : List R) (r : R) → find id rows ≡ some r → key r ≡ id
  unfolding find
  find-key id [] r h = absurd (ground arith)
  find-key id (s ∷ rows) r h = elim (Bool-cases (text_eq (key s) id)) [
    | inl same ↦ let e : s ≡ r = ground arith in rw (sym e) (text_eq_sound _ _ same)
    | inr other ↦ find-key id rows r (ground arith)
  ]

  pub All-find :
      (P : R → Type 0) (id : List ℕ) (rows : List R) (r : R)
      → All P rows
      → find id rows ≡ some r
      → P r
  unfolding find
  All-find P id [] r a h = absurd (ground arith)
  All-find P id (s ∷ rows) r a h = elim (Bool-cases (text_eq (key s) id)) [
    | inl same ↦ let e : s ≡ r = ground arith in rw (sym e) a.0
    | inr other ↦ All-find P id rows r a.1 (ground arith)
  ]

  modify-Absent :
      (P Q : R → Type 0) (id : List ℕ) (f : R → R) (rows : List R)
      → Absent id rows
      → All P rows
      → ((r : R) → text_eq (key r) id ≡ false → P r → Q r)
      → All Q (modify id f rows)
  unfolding modify
  modify-Absent P Q id f [] a p other = tt
  modify-Absent P Q id f (r ∷ rows) a p other =
      (rw (a.0) (other r a.0 p.0), modify-Absent P Q id f rows a.1 p.1 other)

  -- A property of all rows after an update: from the one row with the key, and from the others.
  pub All-modify :
      (P Q : R → Type 0) (id : List ℕ) (f : R → R) (rows : List R) (c : R)
      → Unique rows
      → find id rows ≡ some c
      → All P rows
      → (P c → Q (f c))
      → ((r : R) → text_eq (key r) id ≡ false → P r → Q r)
      → All Q (modify id f rows)
  unfolding find modify
  All-modify P Q id f [] c u h p here other = tt
  All-modify P Q id f (r ∷ rows) c u h p here other = elim (Bool-cases (text_eq (key r) id)) [
    | inl same ↦
        let e : r ≡ c = ground arith in
        let absent : Absent id rows =
          subst (λ k. Absent k rows) (text_eq_sound (key r) id same) u.0 in
        (
          rw same (subst (λ s. Q (f s)) (sym e) (here (subst P e p.0))),
          modify-Absent P Q id f rows absent p.1 other,
        )
    | inr differs ↦ (
      rw differs (other r differs p.0),
      All-modify P Q id f rows c u.1 (ground arith) p.1 here other,
    )
  ]

  pub All-map : (P Q : R → Type 0) (rows : List R) → ((r : R) → P r → Q r) → All P rows → All Q rows
  All-map P Q [] f p = tt
  All-map P Q (r ∷ rows) f p = (f r p.0, All-map P Q rows f p.1)

  module _ (f : R → R) (same_key : (r : R) → key (f r) ≡ key r) where
    Absent-modify : (k id : List ℕ) (rows : List R) → Absent k rows → Absent k (modify id f rows)
    unfolding modify
    Absent-modify k id [] a = tt
    Absent-modify k id (r ∷ rows) a = (keeps (text_eq (key r) id), Absent-modify k id rows a.1)
      where
        keeps : (b : Bool) → text_eq (key (if b then f r else r)) k ≡ false
        keeps true = rw (same_key r) (a.0)
        keeps false = a.0

    pub Unique-modify : (id : List ℕ) (rows : List R) → Unique rows → Unique (modify id f rows)
    unfolding modify
    Unique-modify id [] u = tt
    Unique-modify id (r ∷ rows) u = (keeps (text_eq (key r) id), Unique-modify id rows u.1)
      where
        keeps : (b : Bool) → Absent (key (if b then f r else r)) (modify id f rows)
        keeps true = rw (same_key r) (Absent-modify (key r) id rows u.0)
        keeps false = Absent-modify (key r) id rows u.0

    pub find-modify :
        (id : List ℕ) (rows : List R) (c : R)
        → find id rows ≡ some c
        → find id (modify id f rows) ≡ some (f c)
    unfolding find modify
    find-modify id [] c h = absurd (ground arith)
    find-modify id (r ∷ rows) c h = elim (Bool-cases (text_eq (key r) id)) [
      | inl same ↦ let e : r ≡ c = ground arith in rw (same, same_key r, same) (ap some (ap f e))
      | inr differs ↦ rw (differs, differs) (find-modify id rows c (ground arith))
    ]

  later_found :
      (r : R) (all rows : List R)
      → Absent (key r) rows
      → All (λ s. find (key s) all ≡ some s) rows
      → All (λ s. find (key s) (r ∷ all) ≡ some s) rows
  unfolding find
  later_found r all [] a p = tt
  later_found r all (s ∷ rows) a p =
      (rw (text_eq_comm (key r) (key s), a.0) (p.0), later_found r all rows a.1 p.1)

  -- Every row is found by its key.
  pub All-find_self : (rows : List R) → Unique rows → All (λ r. find (key r) rows ≡ some r) rows
  All-find_self [] u = tt
  All-find_self (r ∷ rows) u = (head, later_found r rows rows u.0 (All-find_self rows u.1))
    where
      head : find (key r) (r ∷ rows) ≡ some r
      head = unfold find in rw (text_eq_refl (key r))

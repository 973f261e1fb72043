-- ===== src/Base/Paging.antt =====
-- Lists in pages: rows are ordered by a time and an identifier, the greatest first, and a page starts
-- below the last row of the page before.
pub mod Walk
use mathlib.Core.Path.{◌≡◌, refl, sym, ap, subst, ◌∙◌}
use mathlib.Core.Bool.{Bool, true, false, not, ◌&&◌, ◌||◌}
use mathlib.Core.Option.{Option, none, some}
use mathlib.Core.List.{List, [], ◌∷◌, ◌++◌}
use mathlib.Core.Logic.{◌⊎◌, inl, inr}
use Prim.Native.Nat.{ℕ, zero, suc, ◌≤◌, ◌<◌, ◌+◌}
use native.Mathlib.Omega.{arith}
use voice_asset_server.Base.Tests.{if◌then◌else◌, ltb, leb, ◌==◌, Bool-cases}
use voice_asset_server.Base.Lists.{
  All, text_eq, text_eq_sound, text_eq_refl, text_eq_comm, take, length,
}
use voice_asset_server.Base.Table.{Absent, Unique}

-- The order of texts, byte by byte.
unfoldable pub text_ltb : List ℕ → List ℕ → Bool
text_ltb s [] = false
text_ltb [] (b ∷ t) = true
text_ltb (a ∷ s) (b ∷ t) = let rest = text_ltb s t in ltb a b || (a == b && rest)

pub text_ltb_asym : (s t : List ℕ) → (text_ltb s t && text_ltb t s) ≡ false
unfolding text_ltb
text_ltb_asym [] [] = refl
text_ltb_asym [] (b ∷ t) = refl
text_ltb_asym (a ∷ s) [] = refl
text_ltb_asym (a ∷ s) (b ∷ t) = let rest = text_ltb_asym s t in ground arith

text_ltb_trans : (s t u : List ℕ) → (text_ltb s t && text_ltb t u && not (text_ltb s u)) ≡ false
unfolding text_ltb
text_ltb_trans s [] u = refl
text_ltb_trans [] (b ∷ t) [] = refl
text_ltb_trans [] (b ∷ t) (c ∷ u) = ground arith
text_ltb_trans (a ∷ s) (b ∷ t) [] = ground arith
text_ltb_trans (a ∷ s) (b ∷ t) (c ∷ u) = let rest = text_ltb_trans s t u in ground arith

pub text_ltb_split :
    (s t u : List ℕ) → (text_ltb s u && not (text_ltb s t) && not (text_ltb t u)) ≡ false
unfolding text_ltb
text_ltb_split s t [] = refl
text_ltb_split [] [] (c ∷ u) = refl
text_ltb_split [] (b ∷ t) (c ∷ u) = refl
text_ltb_split (a ∷ s) [] (c ∷ u) = ground arith
text_ltb_split (a ∷ s) (b ∷ t) (c ∷ u) = let rest = text_ltb_split s t u in ground arith

text_ltb_total : (s t : List ℕ) → (text_eq s t || text_ltb s t || text_ltb t s) ≡ true
unfolding text_ltb text_eq
text_ltb_total [] [] = refl
text_ltb_total [] (b ∷ t) = refl
text_ltb_total (a ∷ s) [] = refl
text_ltb_total (a ∷ s) (b ∷ t) = let rest = text_ltb_total s t in ground arith

abbrev pub Key : Type 0
Key = ℕ × List ℕ

-- (a, b) < (c, d) on rows of SQL
unfoldable pub precedes : Key → Key → Bool
precedes a b = ltb a.0 b.0 || (a.0 == b.0 && text_ltb a.1 b.1)

pub precedes_asym : (a b : Key) → precedes a b ≡ true → precedes b a ≡ false
unfolding precedes
precedes_asym a b h = let x = text_ltb_asym a.1 b.1 in ground arith

precedes_trans : (a b c : Key) → precedes a b ≡ true → precedes b c ≡ true → precedes a c ≡ true
unfolding precedes
precedes_trans a b c h k = let x = text_ltb_trans a.1 b.1 c.1 in ground arith

precedes_total : (a b : Key) → text_eq a.1 b.1 ≡ false → precedes a b ≡ false → precedes b a ≡ true
unfolding precedes
precedes_total a b d h = let x = text_ltb_total a.1 b.1 in ground arith

module _ {R : Type 0} (key : R → Key) where
  unfoldable pub insert : R → List R → List R
  insert r [] = r ∷ []
  insert r (s ∷ rows) =
      let rest = insert r rows in if precedes (key r) (key s) then s ∷ rest else r ∷ s ∷ rows

  -- ORDER BY key DESC
  unfoldable pub newest_first : List R → List R
  unfolding insert
  newest_first [] = []
  newest_first (r ∷ rows) = insert r (newest_first rows)

  -- WHERE $1 IS NULL OR key < $1
  abbrev pub is_below : Option Key → R → Bool
  is_below none r = true
  is_below (some k) r = precedes (key r) k

  unfoldable pub keep_below : Option Key → List R → List R
  keep_below from [] = []
  keep_below from (r ∷ rows) =
      let rest = keep_below from rows in if is_below from r then r ∷ rest else rest

  -- A query for a page.
  unfoldable pub page : ℕ → Option Key → List R → List R
  unfolding newest_first keep_below
  page limit from rows = take limit (keep_below from (newest_first rows))

  unfoldable pub last_key : List R → Option Key
  last_key [] = none
  last_key (r ∷ []) = some (key r)
  last_key (r ∷ s ∷ rows) = last_key (s ∷ rows)

  -- The answer to a request for `limit` rows, of which one more was queried: the rows, and where the
  -- next page starts, if there is one.
  unfoldable pub answer : ℕ → List R → List R × Option Key
  unfolding last_key
  answer limit rows =
      if ltb limit (length rows)
      then (take limit rows, last_key (take limit rows))
      else (rows, none)

  abbrev pub Below : R → List R → Type 0
  Below r = All (λ s. precedes (key s) (key r) ≡ true)

  abbrev pub Sorted : List R → Type 0
  Sorted [] = Unit
  Sorted (r ∷ rows) = Below r rows × Sorted rows

  Below-trans :
      (r s : R) (rows : List R) → precedes (key s) (key r) ≡ true → Below s rows → Below r rows
  Below-trans r s [] h b = tt
  Below-trans r s (t ∷ rows) h b =
      (precedes_trans (key t) (key s) (key r) b.0 h, Below-trans r s rows h b.1)

  insert-Below :
      (r s : R) (rows : List R)
      → precedes (key r) (key s) ≡ true
      → Below s rows
      → Below s (insert r rows)
  unfolding insert
  insert-Below r s [] h b = (h, tt)
  insert-Below r s (t ∷ rows) h b = elim (Bool-cases (precedes (key r) (key t))) [
    | inl later ↦ rw later (b.0, insert-Below r s rows h b.1)
    | inr earlier ↦ rw earlier (h, b)
  ]

  abbrev pub id_of : R → List ℕ
  id_of r = (key r).1

  insert-Sorted :
      (r : R) (rows : List R)
      → All (λ s. text_eq (id_of s) (id_of r) ≡ false) rows
      → Sorted rows
      → Sorted (insert r rows)
  unfolding insert
  insert-Sorted r [] a s = (tt, tt)
  insert-Sorted r (t ∷ rows) a s = elim (Bool-cases (precedes (key r) (key t))) [
    | inl later ↦ rw later (insert-Below r t rows later s.0, insert-Sorted r rows a.1 s.1)
    | inr earlier ↦
        let h =
          precedes_total (key r) (key t) (rw (text_eq_comm (id_of r) (id_of t)) (a.0)) earlier in
        rw earlier ((h, Below-trans r t rows h s.0), s)
  ]

  insert-Absent :
      (id : List ℕ) (r : R) (rows : List R)
      → text_eq (id_of r) id ≡ false
      → Absent id_of id rows
      → Absent id_of id (insert r rows)
  unfolding insert
  insert-Absent id r [] h a = (h, tt)
  insert-Absent id r (s ∷ rows) h a = elim (Bool-cases (precedes (key r) (key s))) [
    | inl later ↦ rw later (a.0, insert-Absent id r rows h a.1)
    | inr earlier ↦ rw earlier (h, a)
  ]

  newest_first-Absent :
      (id : List ℕ) (rows : List R) → Absent id_of id rows → Absent id_of id (newest_first rows)
  unfolding newest_first
  newest_first-Absent id [] a = tt
  newest_first-Absent id (r ∷ rows) a =
      insert-Absent id r (newest_first rows) a.0 (newest_first-Absent id rows a.1)

  pub newest_first-Sorted : (rows : List R) → Unique id_of rows → Sorted (newest_first rows)
  unfolding newest_first
  newest_first-Sorted [] u = tt
  newest_first-Sorted (r ∷ rows) u =
      insert-Sorted r (newest_first rows) (newest_first-Absent (id_of r) rows u.0)
        (newest_first-Sorted rows u.1)

-- ===== src/Base/Paging/Walk.antt =====
-- Following the pages from the first one gives every row once, in order.
use mathlib.Core.Path.{◌≡◌, refl, sym, ap, subst, ◌∙◌}
use mathlib.Core.Bool.{Bool, true, false}
use mathlib.Core.Option.{Option, none, some}
use mathlib.Core.List.{List, [], ◌∷◌, ◌++◌}
use mathlib.Core.Logic.{inl, inr}
use Prim.Native.Nat.{ℕ, zero, suc, ◌≤◌, ◌<◌, ◌+◌}
use native.Mathlib.Omega.{arith}
use voice_asset_server.Base.Tests.{ltb, Bool-cases, ltb→lt, lt→ltb}
use voice_asset_server.Base.Lists.{All, take, length, length-append}
use voice_asset_server.Base.Table.{Unique}
use voice_asset_server.Base.Paging.{
  Key, insert, precedes, precedes_asym, newest_first, is_below, keep_below, page, last_key, answer,
  Below, Sorted, newest_first-Sorted, id_of,
}

module _ {R : Type 0} (key : R → Key) where
  abbrev pub prepend : List R → Option (List R) → Option (List R)
  prepend xs none = none
  prepend xs (some ys) = some (xs ++ ys)

  -- A page, and what comes after it.
  abbrev pub joined : List R × Option Key → (Key → Option (List R)) → Option (List R)
  joined (items, none) next = some items
  joined (items, some k) next = prepend items (next k)

  -- A client that follows the pages until there is no next one; it gives up after so many of them.
  unfoldable pub walk : ℕ → ℕ → Option Key → List R → Option (List R)
  unfolding page answer
  walk zero limit from rows = none
  walk (suc fuel) limit from rows =
      joined (answer key limit (page key (suc limit) from rows))
        (λ k. walk fuel limit (some k) rows)

  keep_below-none : (rows : List R) → keep_below key none rows ≡ rows
  unfolding keep_below
  keep_below-none [] = refl
  keep_below-none (r ∷ rows) = ap (λ s. r ∷ s) (keep_below-none rows)

  keep_below-all :
      (x : R) (rows : List R) → Below key x rows → keep_below key (some (key x)) rows ≡ rows
  unfolding keep_below
  keep_below-all x [] b = refl
  keep_below-all x (r ∷ rows) b = rw (b.0, keep_below-all x rows b.1) refl

  first_of : (x : R) (xs ys : List R) → (P : R → Type 0) → All P (xs ++ (x ∷ ys)) → P x
  first_of x [] ys P a = a.0
  first_of x (r ∷ xs) ys P a = first_of x xs ys P a.1

  -- What is below a row is what comes after it.
  keep_below-after :
      (x : R) (xs ys : List R)
      → Sorted key (xs ++ (x ∷ ys))
      → keep_below key (some (key x)) (xs ++ (x ∷ ys)) ≡ ys
  unfolding keep_below
  keep_below-after x [] ys s =
      rw (itself (precedes (key x) (key x)) refl, keep_below-all x ys s.0) refl
    where
      itself : (b : Bool) → precedes (key x) (key x) ≡ b → precedes (key x) (key x) ≡ false
      itself true h = precedes_asym (key x) (key x) h
      itself false h = h
  keep_below-after x (r ∷ xs) ys s =
      let lower : precedes (key x) (key r) ≡ true =
        first_of x xs ys (λ t. precedes (key t) (key r) ≡ true) s.0 in
      rw (precedes_asym (key x) (key r) lower, keep_below-after x xs ys s.1) refl

  last_key-append : (x : R) (xs : List R) → last_key key (xs ++ (x ∷ [])) ≡ some (key x)
  unfolding last_key
  last_key-append x [] = refl
  last_key-append x (r ∷ []) = refl
  last_key-append x (r ∷ s ∷ xs) = last_key-append x (s ∷ xs)

  take_all : (n : ℕ) (rows : List R) → length rows ≤ n → take n rows ≡ rows
  take_all zero [] h = refl
  take_all zero (r ∷ rows) h = absurd (omega arith)
  take_all (suc n) [] h = refl
  take_all (suc n) (r ∷ rows) h = ap (λ s. r ∷ s) (take_all n rows (omega arith))

  take-take : (n : ℕ) (rows : List R) → take n (take (suc n) rows) ≡ take n rows
  take-take zero rows = refl
  take-take (suc n) [] = refl
  take-take (suc n) (r ∷ rows) = ap (λ s. r ∷ s) (take-take n rows)

  length-take : (n : ℕ) (rows : List R) → n < length rows → length (take (suc n) rows) ≡ suc n
  length-take zero [] h = absurd (omega arith)
  length-take zero (r ∷ rows) h = refl
  length-take (suc n) [] h = absurd (omega arith)
  length-take (suc n) (r ∷ rows) h = ap suc (length-take n rows (omega arith))

  -- A page that is full, its last row, and the rows after it.
  record Cut (n : ℕ) (rows : List R) : Type 0 where
    before : List R
    last : R
    after : List R
    whole : rows ≡ before ++ (last ∷ after)
    taken : take (suc n) rows ≡ before ++ (last ∷ [])

  cut : (n : ℕ) (rows : List R) → n < length rows → Cut n rows
  cut n [] h = absurd (omega arith)
  cut zero (r ∷ rows) h = record { before = []; last = r; after = rows; whole = refl; taken = refl }
  cut (suc n) (r ∷ rows) h =
      let c = cut n rows (omega arith) in
      record {
        before = r ∷ c.before;
        last = c.last;
        after = c.after;
        whole = ap (λ s. r ∷ s) c.whole;
        taken = ap (λ s. r ∷ s) c.taken;
      }

  append_assoc : (xs ys zs : List R) → (xs ++ ys) ++ zs ≡ xs ++ (ys ++ zs)
  append_assoc [] ys zs = refl
  append_assoc (x ∷ xs) ys zs = ap (λ s. x ∷ s) (append_assoc xs ys zs)

  answer_full :
      (n : ℕ) (rows : List R) (c : Cut n rows)
      → suc n < length rows
      → answer key (suc n) (take (suc (suc n)) rows)
        ≡ (c.before ++ (c.last ∷ []), some (key c.last))
  unfolding answer
  answer_full n rows c h =
      let more : ltb (suc n) (length (take (suc (suc n)) rows)) ≡ true =
        lt→ltb (suc n) (length (take (suc (suc n)) rows))
          (rw (length-take (suc n) rows h) (omega arith)) in
      rw (more, take-take (suc n) rows, c.taken, last_key-append c.last c.before) refl

  answer_short :
      (n : ℕ) (rows : List R)
      → length rows ≤ suc n
      → answer key (suc n) (take (suc (suc n)) rows) ≡ (rows, none)
  unfolding answer
  answer_short n rows h =
      let e = take_all (suc (suc n)) rows (omega arith) in
      let last : ltb (suc n) (length rows) ≡ false = ground arith in rw (e, last) refl

  walk_lem :
      (fuel n : ℕ) (from : Option Key) (rows xs zs : List R)
      → Sorted key (newest_first key rows)
      → newest_first key rows ≡ xs ++ zs
      → keep_below key from (newest_first key rows) ≡ zs
      → length zs < fuel
      → walk fuel (suc n) from rows ≡ some zs
  unfolding walk page
  walk_lem zero n from rows xs zs s whole kept h = absurd (omega arith)
  walk_lem (suc fuel) n from rows xs zs s whole kept h =
      elim (Bool-cases (ltb (suc n) (length zs))) [
        | inr short ↦ rw (kept, answer_short n zs (ground arith)) refl
        | inl more ↦
            let long = ltb→lt (suc n) (length zs) more in
            let c = cut n zs (omega arith) in
            let size : length zs ≡ length c.before + suc (length c.after) =
              ap length c.whole ∙ length-append c.before (c.last ∷ c.after) in
            let split : newest_first key rows ≡ (xs ++ c.before) ++ (c.last ∷ c.after) =
              whole
              ∙ ap (λ t. xs ++ t) c.whole
              ∙ sym (append_assoc xs c.before (c.last ∷ c.after)) in
            let below : keep_below key (some (key c.last)) (newest_first key rows) ≡ c.after =
              ap (keep_below key (some (key c.last))) split
              ∙ keep_below-after c.last (xs ++ c.before) c.after (subst (Sorted key) split s) in
            let rest =
              walk_lem fuel n (some (key c.last)) rows ((xs ++ c.before) ++ (c.last ∷ [])) c.after s
                (split ∙ sym (append_assoc (xs ++ c.before) (c.last ∷ []) c.after)) below
                (omega arith) in
            let shown : answer key (suc n) (page key (suc (suc n)) from rows)
                ≡ (c.before ++ (c.last ∷ []), some (key c.last)) =
              ap (λ t. answer key (suc n) (take (suc (suc n)) t)) kept ∙ answer_full n zs c long in
            ap (λ o. joined o (λ k. walk fuel (suc n) (some k) rows)) shown
            ∙ ap (prepend (c.before ++ (c.last ∷ []))) rest
            ∙ ap some (append_assoc c.before (c.last ∷ []) c.after ∙ sym c.whole)
      ]

  -- The pages, put together, are all rows in order.
  pub walk-newest_first :
      (n : ℕ) (rows : List R)
      → Unique (id_of key) rows
      → walk (suc (length (newest_first key rows))) (suc n) none rows ≡ some (newest_first key rows)
  walk-newest_first n rows u =
      walk_lem (suc (length (newest_first key rows))) n none rows [] (newest_first key rows)
        (newest_first-Sorted key rows u) refl (keep_below-none (newest_first key rows))
        (omega arith)

  module _ (P : Key → Type 0) where
    abbrev Holds : R → Type 0
    Holds r = P (key r)

    insert-All : (r : R) (rows : List R) → Holds r → All Holds rows → All Holds (insert key r rows)
    unfolding insert
    insert-All r [] p a = (p, tt)
    insert-All r (s ∷ rows) p a = elim (Bool-cases (precedes (key r) (key s))) [
      | inl later ↦ rw later (a.0, insert-All r rows p a.1)
      | inr earlier ↦ rw earlier (p, a)
    ]

    newest_first-All : (rows : List R) → All Holds rows → All Holds (newest_first key rows)
    unfolding newest_first
    newest_first-All [] a = tt
    newest_first-All (r ∷ rows) a =
        insert-All r (newest_first key rows) a.0 (newest_first-All rows a.1)

    keep_below-All :
        (from : Option Key) (rows : List R) → All Holds rows → All Holds (keep_below key from rows)
    unfolding keep_below
    keep_below-All from [] a = tt
    keep_below-All from (r ∷ rows) a = elim (Bool-cases (is_below key from r)) [
      | inl below ↦ rw below (a.0, keep_below-All from rows a.1)
      | inr above ↦ rw above (keep_below-All from rows a.1)
    ]

    take-All : (n : ℕ) (rows : List R) → All Holds rows → All Holds (take n rows)
    take-All zero rows a = tt
    take-All (suc n) [] a = tt
    take-All (suc n) (r ∷ rows) a = (a.0, take-All n rows a.1)

    last_key-All : (rows : List R) (k : Key) → All Holds rows → last_key key rows ≡ some k → P k
    unfolding last_key
    last_key-All [] k a h = absurd (ground arith)
    last_key-All (r ∷ []) k a h = let e : key r ≡ k = cc in subst P e a.0
    last_key-All (r ∷ s ∷ rows) k a h = last_key-All (s ∷ rows) k a.1 h

    -- What holds of the key of every row holds of the key where the next page starts.
    pub answer-All :
        (n m : ℕ) (from : Option Key) (rows : List R) (k : Key)
        → All Holds rows
        → (answer key n (page key m from rows)).1 ≡ some k
        → P k
    unfolding answer page
    answer-All n m from rows k a h =
        let shown =
          take-All m _ (keep_below-All from (newest_first key rows) (newest_first-All rows a)) in
        elim (Bool-cases (ltb n (length (page key m from rows)))) [
          | inl more ↦
              last_key-All (take n (page key m from rows)) k (take-All n _ shown) (rw more at h)
          | inr done ↦ absurd (none_some k (rw done at h))
        ]
      where
        none_some : (k : Key) → none ≡ some k → ⊥
        none_some k e = cc

-- ===== src/Membership/Listing/Pages.antt =====
-- A client that follows the cursors of the member list sees every member once, in order.
use voice_asset_server.Base.{
  ℕ, zero, suc, ◌≡◌, refl, sym, ap, ◌∙◌, true, false, Option, none, some, List, [], ◌++◌, ◌==◌,
  text_eq, text_eq_refl, length, All, Result, ok, err,
}
use voice_asset_server.Base.Table.{Unique}
use voice_asset_server.Base.Paging.{Key, page, answer, newest_first, id_of}
use voice_asset_server.Base.Paging.Walk.{walk, prepend, joined, walk-newest_first, answer-All}
use voice_asset_server.Text.{Bytes}
use voice_asset_server.Identifier.{normalize_uuid}
use voice_asset_server.Membership.{Error, internal, Member, Database, valid_roles, valid_statuses}
use voice_asset_server.Membership.Service.{
  Cursors, Env, ListInput, authorize_read, normalize_optional_choice,
}
use voice_asset_server.Membership.Listing.{
  select_members, member_key, list_members, list_limit, binding, cursor_fits, list_start, start_of,
  encode_cursor, with_cursor, list_valid, list,
}

-- The key of a stored member, a canonical identifier and a time that is not the zero time, of which a
-- cursor is written that is read back, and that is neither empty, nor too long, nor between spaces.
pub record IsStored (cursors : Cursors) (bound : Bytes) (k : Key) : Type 0 where
  pub canonical : normalize_uuid k.1 ≡ some k.1
  pub dated : (k.0 == 0) ≡ false
  pub back : cursors.read (cursors.write bound k.0 k.1) ≡ some (bound, k.0, k.1)
  pub not_empty : text_eq (cursors.write bound k.0 k.1) [] ≡ false
  pub fits : cursor_fits (cursors.write bound k.0 k.1) ≡ true

abbrev follow_on : List Member → Result Error (List Member) → Result Error (List Member)
follow_on items (ok rest) = ok (items ++ rest)
follow_on items (err e) = err e

-- A page, and what comes after it.
abbrev following :
    Result Error (List Member × Option Bytes)
    → (Bytes → Result Error (List Member))
    → Result Error (List Member)
following (err e) next = err e
following (ok (items, none)) next = ok items
following (ok (items, some cursor)) next = follow_on items (next cursor)

-- A client that follows the cursors; it gives up after so many pages.
unfoldable pub follow : ℕ → Database → Env → ListInput → Result Error (List Member)
follow zero db env input = err internal
follow (suc fuel) db env input =
    following (list db env input) (λ c. follow fuel db env (record input { cursor = c }))

abbrev from_walk : Option (List Member) → Result Error (List Member)
from_walk none = err internal
from_walk (some members) = ok members

follow_on-from_walk :
    (items : List Member) (o : Option (List Member))
    → follow_on items (from_walk o) ≡ from_walk (prepend member_key items o)
follow_on-from_walk items none = refl
follow_on-from_walk items (some rest) = refl

module _ (db : Database) (env : Env) (input : ListInput) (workspace role status : Bytes) (n : ℕ)
    (may_read : authorize_read env.principal ≡ ok workspace)
    (known_role : normalize_optional_choice env.lower_table input.role valid_roles ≡ some role)
    (known_status : normalize_optional_choice env.lower_table input.status valid_statuses
      ≡ some status)
    (limited : list_limit input.limit ≡ some (suc n))
    (stored : All
      (λ m. IsStored env.cursors (binding workspace role status) (member_key m))
      (select_members workspace role status db.users db.rows)) where
  abbrev members : List Member
  members = select_members workspace role status db.users db.rows

  abbrev at_cursor : Bytes → ListInput
  at_cursor encoded = record input { cursor = encoded }

  list_lem :
      (from : Option Key) (encoded : Bytes)
      → list_start env.cursors (binding workspace role status) encoded ≡ some from
      → list db env (at_cursor encoded)
        ≡ with_cursor env.cursors
            (binding workspace role status)
            (answer member_key (suc n) (page member_key (suc (suc n)) from members))
  unfolding list list_valid list_members
  list_lem from encoded start =
      rw (may_read, known_role, known_status, limited, start, list, list_valid) refl

  abbrev written : Key → Bytes
  written k = env.cursors.write (binding workspace role status) k.0 k.1

  start_written :
      (k : Key)
      → IsStored env.cursors (binding workspace role status) k
      → list_start env.cursors (binding workspace role status) (written k) ≡ some (some k)
  unfolding list_start start_of
  start_written k s =
      rw (s.not_empty, s.fits, s.back, text_eq_refl (binding workspace role status), s.canonical)
        refl

  encoded_key :
      (k : Key)
      → IsStored env.cursors (binding workspace role status) k
      → encode_cursor env.cursors (binding workspace role status) k ≡ some (written k)
  unfolding encode_cursor
  encoded_key k s = rw (s.canonical, s.dated, encode_cursor) refl

  with_cursor-some :
      (items : List Member) (k : Key)
      → IsStored env.cursors (binding workspace role status) k
      → with_cursor env.cursors (binding workspace role status) (items, some k)
        ≡ ok (items, some (written k))
  unfolding with_cursor
  with_cursor-some items k s = rw (encoded_key k s, with_cursor) refl

  with_cursor-none :
      (items : List Member)
      → with_cursor env.cursors (binding workspace role status) (items, none) ≡ ok (items, none)
  unfolding with_cursor
  with_cursor-none items = refl

  follow_lem :
      (fuel : ℕ) (from : Option Key) (encoded : Bytes)
      → list_start env.cursors (binding workspace role status) encoded ≡ some from
      → follow fuel db env (at_cursor encoded)
        ≡ from_walk (walk member_key fuel (suc n) from members)
  unfolding follow walk
  follow_lem zero from encoded start = refl
  follow_lem (suc fuel) from encoded start =
      by_answer (λ k s. follow_lem fuel (some k) (written k) (start_written k s)) _ refl
    where
      by_answer :
          ((k : Key)
            → IsStored env.cursors (binding workspace role status) k
            → follow fuel db env (at_cursor (written k))
              ≡ from_walk (walk member_key fuel (suc n) (some k) members))
          → (out : List Member × Option Key)
          → answer member_key (suc n) (page member_key (suc (suc n)) from members) ≡ out
          → follow (suc fuel) db env (at_cursor encoded)
            ≡ from_walk (walk member_key (suc fuel) (suc n) from members)
      by_answer later (items, none) e =
          ap (λ o. following o (λ c. follow fuel db env (at_cursor c)))
            (list_lem from encoded start
              ∙ ap (with_cursor env.cursors (binding workspace role status)) e
              ∙ with_cursor-none items)
          ∙ sym (
              ap
                (λ o.
                  from_walk
                    (joined member_key o (λ k. walk member_key fuel (suc n) (some k) members)))
                e)
      by_answer later (items, some k) e =
          let s : IsStored env.cursors (binding workspace role status) k =
            answer-All member_key (IsStored env.cursors (binding workspace role status)) (suc n)
              (suc (suc n)) from members k stored (ap (λ (o : List Member × Option Key). o.1) e) in
          ap (λ o. following o (λ c. follow fuel db env (at_cursor c)))
            (list_lem from encoded start
              ∙ ap (with_cursor env.cursors (binding workspace role status)) e
              ∙ with_cursor-some items k s)
          ∙ ap (follow_on items) (later k s)
          ∙ follow_on-from_walk items (walk member_key fuel (suc n) (some k) members)
          ∙ sym (
              ap
                (λ o.
                  from_walk
                    (joined member_key o (λ k. walk member_key fuel (suc n) (some k) members)))
                e)

  -- A client that asks for the first page and follows the cursors, for at most one page more than there
  -- are members, gets every member that it asked for once, the latest update first.
  pub follow-newest_first :
      input.cursor ≡ []
      → Unique (id_of member_key) members
      → follow (suc (length (newest_first member_key members))) db env input
        ≡ ok (newest_first member_key members)
  unfolding list_start
  follow-newest_first first unique =
      let pages = suc (length (newest_first member_key members)) in
      ap (λ c. follow pages db env (at_cursor c)) first
      ∙ follow_lem pages none [] (unfold text_eq in refl)
      ∙ ap from_walk (walk-newest_first member_key n members unique)

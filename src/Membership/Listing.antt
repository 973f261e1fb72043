-- ===== src/Membership/Listing.antt =====
-- The list of members: `List` of internal/membership/service.go and of
-- internal/membership/postgres_repository.go, with the cursors that name the pages.
pub mod Pages
use voice_asset_server.Base.{
  ℕ, zero, suc, ◌+◌, Bool, true, false, not, ◌&&◌, ◌||◌, Option, none, some, List, [], ◌∷◌, ◌++◌,
  ltb, leb, ◌==◌, if◌then◌else◌, text_eq, length, take, Result, ok, err, ◌<◌, ◌≤◌,
}
use voice_asset_server.Base.Int.{ℤ, pos, negsuc}
use voice_asset_server.Base.Paging.{Key, page, answer}
use voice_asset_server.Text.{Bytes, trim_space, between}
use voice_asset_server.Identifier.{normalize_uuid}
use voice_asset_server.Membership.{
  Error, invalid_input, Time, Member, Row, User, Database, valid_roles, valid_statuses, find_user,
  member,
}
use voice_asset_server.Membership.Service.{
  Cursors, Env, ListInput, authorize_read, normalize_optional_choice,
}

abbrev pub default_list_limit : ℕ
default_list_limit = 50

abbrev pub max_list_limit : ℕ
max_list_limit = 100

abbrev pub max_cursor_length : ℕ
max_cursor_length = 1024

abbrev matches : Bytes → Bytes → Bytes → Row → Bool
matches workspace role status r =
    text_eq r.workspace_id workspace
    && (text_eq role [] || text_eq r.role role)
    && (text_eq status [] || text_eq r.status status)

abbrev add_member : Row → Option User → List Member → List Member
add_member r none members = members
add_member r (some u) members = member r u ∷ members

-- The rows that a list is about, joined with their users.
unfoldable pub select_members : Bytes → Bytes → Bytes → List User → List Row → List Member
select_members workspace role status users [] = []
select_members workspace role status users (r ∷ rows) =
    let rest = select_members workspace role status users rows in
    if matches workspace role status r then add_member r (find_user r.user_id users) rest else rest

abbrev pub member_key : Member → Key
member_key m = (m.updated_at, m.id)

-- `List` of the repository
unfoldable pub list_members : Database → Bytes → Bytes → Bytes → ℕ → Option Key → List Member
unfolding select_members
list_members db workspace role status limit from =
    page member_key limit from (select_members workspace role status db.users db.rows)

-- The first part of `normalizeListInput`.
abbrev pub list_limit : ℤ → Option ℕ
list_limit (negsuc n) = none
list_limit (pos n) =
    if n == 0 then some default_list_limit else if leb n max_list_limit then some n else none

-- strings.Join([]string{workspaceID, role, status}, "\x00")
abbrev pub binding : Bytes → Bytes → Bytes → Bytes
binding workspace role status = workspace ++ ((0 ∷ role) ++ (0 ∷ status))

abbrev pub cursor_fits : Bytes → Bool
cursor_fits s = leb (length s) max_cursor_length && text_eq (trim_space s) s

start_of : Bytes → Option (Bytes × Time × Bytes) → Option Key
start_of bound none = none
start_of bound (some (b, at, id)) =
    if not (text_eq b bound)
    then none
    else elim (normalize_uuid id) [ none ↦ none | some read ↦ some (at, read) ]

-- The second part of `normalizeListInput`: where the page starts.
unfoldable pub list_start : Cursors → Bytes → Bytes → Option (Option Key)
unfolding start_of
list_start cursors bound encoded =
    if text_eq encoded []
    then some none
    else if not (cursor_fits encoded)
    then none
    else elim (start_of bound (cursors.read encoded)) [ none ↦ none | some k ↦ some (some k) ]

-- `encodeCursor`
unfoldable pub encode_cursor : Cursors → Bytes → Key → Option Bytes
encode_cursor cursors bound k = elim (normalize_uuid k.1) [
  | none ↦ none
  | some id ↦ if k.0 == 0 then none else some (cursors.write bound k.0 id)
]

-- The page as it is answered, with the cursor of the next one.
with_cursor : Cursors → Bytes → List Member × Option Key → Result Error (List Member × Option Bytes)
unfolding encode_cursor
with_cursor cursors bound (items, none) = ok (items, none)
with_cursor cursors bound (items, some k) = elim (encode_cursor cursors bound k) [
  | none ↦ err invalid_input
  | some cursor ↦ ok (items, some cursor)
]

list_valid :
    Database
    → Cursors
    → Bytes
    → Option Bytes
    → Option Bytes
    → ℤ
    → Bytes
    → Result Error (List Member × Option Bytes)
unfolding list_members list_start with_cursor
list_valid db cursors workspace (some role) (some status) limit encoded = elim (list_limit limit) [
  | none ↦ err invalid_input
  | some n ↦ elim (list_start cursors (binding workspace role status) encoded) [
    | none ↦ err invalid_input
    | some from ↦
        with_cursor cursors (binding workspace role status)
          (answer member_key n (list_members db workspace role status (suc n) from))
  ]
]
list_valid db cursors workspace none status limit encoded = err invalid_input
list_valid db cursors workspace (some role) none limit encoded = err invalid_input

-- `List`
unfoldable pub list : Database → Env → ListInput → Result Error (List Member × Option Bytes)
unfolding list_valid
list db env input = elim (authorize_read env.principal) [
  | err e ↦ err e
  | ok workspace ↦
      list_valid db env.cursors workspace
        (normalize_optional_choice env.lower_table input.role valid_roles)
        (normalize_optional_choice env.lower_table input.status valid_statuses) input.limit
        input.cursor
]

-- ===== src/Membership.antt =====
-- Workspace members: internal/membership/postgres_repository.go over the tables that it reads and writes.
-- A transaction locks its workspace first, so that it is one function of the database. Times are in
-- microseconds, as the database keeps them. Audit entries are given by their identifiers, which are taken
-- to be new.
pub mod Owners
pub mod Revocation
pub mod Service
pub mod Listing
mod Tests
use voice_asset_server.Base.{
  ℕ, zero, suc, ◌+◌, Bool, true, false, not, ◌&&◌, ◌||◌, Option, none, some, List, [], ◌∷◌, ltb,
  leb, ◌==◌, if◌then◌else◌, text_eq, Result, ok, err,
}
use voice_asset_server.Base.Int.{ℤ, pos, eqb_ℤ, i64_half}
use voice_asset_server.Text.{Bytes, codes}

-- `internal` stands for every error that wraps none of the others.
pub data Error : Type 0 where
  forbidden invalid_input not_found conflict version_conflict last_owner internal : Error

abbrev pub Time : Type 0
Time = ℕ

pub record Member : Type 0 where
  pub id : Bytes
  pub workspace_id : Bytes
  pub email : Bytes
  pub role : Bytes
  pub status : Bytes
  pub version : ℕ
  pub created_at : Time
  pub updated_at : Time

pub record CreateParams : Type 0 where
  pub user_id : Bytes
  pub audit_id : Bytes
  pub workspace_id : Bytes
  pub actor_id : Bytes
  pub request_id : Bytes
  pub email : Bytes
  pub password_hash : Bytes
  pub role : Bytes

pub record UpdateParams : Type 0 where
  pub user_id : Bytes
  pub audit_id : Bytes
  pub workspace_id : Bytes
  pub actor_id : Bytes
  pub request_id : Bytes
  pub expected_version : ℤ
  pub role : Option Bytes
  pub status : Option Bytes
  pub updated_at : Time

pub record User : Type 0 where
  pub id : Bytes
  pub email : Bytes
  pub password_hash : Bytes

-- A row of the table memberships.
pub record Row : Type 0 where
  pub workspace_id : Bytes
  pub user_id : Bytes
  pub role : Bytes
  pub status : Bytes
  pub version : ℕ
  pub created_at : Time
  pub updated_at : Time

-- A row of the table sessions, or of api_keys, where the user is the one who created the key.
pub record Credential : Type 0 where
  pub workspace_id : Bytes
  pub user_id : Bytes
  pub created_at : Time
  pub revoked_at : Option Time

pub record Database : Type 0 where
  pub workspaces : List Bytes
  pub users : List User
  pub rows : List Row
  pub sessions : List Credential
  pub api_keys : List Credential
  pub audits : List Bytes

abbrev pub owner : Bytes
owner = codes "owner"

abbrev pub active : Bytes
active = codes "active"

abbrev pub disabled : Bytes
disabled = codes "disabled"

-- The keys of `validRoles`, and the constraint on the column role.
unfoldable pub valid_roles : List Bytes
valid_roles = owner ∷ codes "admin" ∷ codes "editor" ∷ codes "viewer" ∷ codes "agent" ∷ []

-- The keys of `validStatuses`, and the constraint on the column status.
unfoldable pub valid_statuses : List Bytes
valid_statuses = active ∷ disabled ∷ []

unfoldable pub is_among : Bytes → List Bytes → Bool
is_among s [] = false
is_among s (t ∷ ts) = text_eq t s || is_among s ts

-- SELECT id FROM workspaces WHERE id = $1 FOR UPDATE: `lockWorkspace` succeeds.
abbrev has_workspace : Database → Bytes → Bool
has_workspace db id = is_among id db.workspaces

-- The primary key is the workspace and the user.
abbrev pub is_row : Bytes → Bytes → Row → Bool
is_row workspace user r = text_eq r.workspace_id workspace && text_eq r.user_id user

unfoldable pub find_row : Bytes → Bytes → List Row → Option Row
find_row workspace user [] = none
find_row workspace user (r ∷ rows) =
    if is_row workspace user r then some r else find_row workspace user rows

unfoldable pub modify_row : Bytes → Bytes → (Row → Row) → List Row → List Row
modify_row workspace user f [] = []
modify_row workspace user f (r ∷ rows) =
    (if is_row workspace user r then f r else r) ∷ modify_row workspace user f rows

unfoldable pub find_user : Bytes → List User → Option User
find_user id [] = none
find_user id (u ∷ users) = if text_eq u.id id then some u else find_user id users

-- The primary key of users, and users_email_unique. The addresses are in lower case already.
unfoldable pub user_exists : Bytes → Bytes → List User → Bool
user_exists id email [] = false
user_exists id email (u ∷ users) =
    text_eq u.id id || text_eq u.email email || user_exists id email users

-- A row of `memberSelect`, of a membership that is joined with its user.
abbrev pub member : Row → User → Member
member r u = record {
  id = u.id;
  workspace_id = r.workspace_id;
  email = u.email;
  role = r.role;
  status = r.status;
  version = r.version;
  created_at = r.created_at;
  updated_at = r.updated_at;
}

-- The rows that `Create` inserts.
abbrev pub new_row : CreateParams → Time → Row
new_row p clock = record {
  workspace_id = p.workspace_id;
  user_id = p.user_id;
  role = p.role;
  status = active;
  version = 1;
  created_at = clock;
  updated_at = clock;
}

abbrev pub new_user : CreateParams → User
new_user p = record { id = p.user_id; email = p.email; password_hash = p.password_hash }

abbrev pub is_some {ℓ} : {A : Type ℓ} → Option A → Bool
is_some none = false
is_some (some a) = true

-- `Create`
unfoldable pub create_member : Database → CreateParams → Time → Result Error Member × Database
create_member db p clock =
    if not (has_workspace db p.workspace_id)
    then (err not_found, db)
    else if user_exists p.user_id p.email db.users
    then (err conflict, db)
    else if is_some (find_row p.workspace_id p.user_id db.rows)
    then (err conflict, db)
    else if not (is_among p.role valid_roles)
    then (err internal, db)
    else (
      ok (member (new_row p clock) (new_user p)),
      record db {
        users = new_user p ∷ db.users;
        rows = new_row p clock ∷ db.rows;
        audits = p.audit_id ∷ db.audits;
      },
    )

abbrev pub or_else : Option Bytes → Bytes → Bytes
or_else none s = s
or_else (some t) s = t

abbrev pub is_active_owner : Row → Bool
is_active_owner r = text_eq r.role owner && text_eq r.status active

-- SELECT count(*) FROM memberships WHERE workspace_id = $1 AND role = 'owner' AND status = 'active'
unfoldable pub active_owners : Bytes → List Row → ℕ
active_owners workspace [] = 0
active_owners workspace (r ∷ rows) =
    (if text_eq r.workspace_id workspace && is_active_owner r then 1 else 0)
    + active_owners workspace rows

abbrev pub later : Time → Time → Time
later a b = if ltb a b then b else a

-- The UPDATE of a row.
abbrev pub updated : Bytes → Bytes → Time → Row → Row
updated role status now r = record r {
  role = role;
  status = status;
  version = suc r.version;
  updated_at = later now (r.updated_at + 1);
}

-- UPDATE ... SET revoked_at = GREATEST($3, created_at) WHERE ... AND revoked_at IS NULL
abbrev pub revoke : Bytes → Bytes → Time → Credential → Credential
revoke workspace user now c =
    if text_eq c.workspace_id workspace && text_eq c.user_id user && not (is_some c.revoked_at)
    then record c { revoked_at = some (later now c.created_at) }
    else c

unfoldable pub revoke_all : Bytes → Bytes → Time → List Credential → List Credential
revoke_all workspace user now [] = []
revoke_all workspace user now (c ∷ cs) =
    revoke workspace user now c ∷ revoke_all workspace user now cs

-- The writes of `Update`. A version is a bigint.
pub persist : Database → UpdateParams → Row → User → Bytes → Bytes → Result Error Member × Database
persist db p c u role status =
    if not (ltb (suc c.version) i64_half)
      || not (is_among role valid_roles && is_among status valid_statuses)
    then (err internal, db)
    else let rows =
        modify_row p.workspace_id p.user_id (updated role status p.updated_at) db.rows in
      let audits = p.audit_id ∷ db.audits in
      let answer : Result Error Member = ok (member (updated role status p.updated_at c) u) in
      if text_eq c.status active && text_eq status disabled
      then (
        answer,
        record db {
          rows = rows;
          audits = audits;
          sessions = revoke_all p.workspace_id p.user_id p.updated_at db.sessions;
          api_keys = revoke_all p.workspace_id p.user_id p.updated_at db.api_keys;
        },
      )
      else (answer, record db { rows = rows; audits = audits })

-- Once the row is locked.
pub update_locked : Database → UpdateParams → Row → User → Result Error Member × Database
unfolding persist
update_locked db p c u =
    let role = or_else p.role c.role in
    let status = or_else p.status c.status in
    if not (eqb_ℤ (pos c.version) p.expected_version)
    then (err version_conflict, db)
    else if text_eq role c.role && text_eq status c.status
    then (ok (member c u), db)
    else if is_active_owner c
        && not (text_eq role owner && text_eq status active)
        && leb (active_owners p.workspace_id db.rows) 1
    then (err last_owner, db)
    else persist db p c u role status

-- A membership without its user is no row of the join.
pub update_joined :
    Database → UpdateParams → Option Row → Option User → Result Error Member × Database
unfolding update_locked
update_joined db p (some c) (some u) = update_locked db p c u
update_joined db p (some c) none = (err not_found, db)
update_joined db p none u = (err not_found, db)

-- `Update`
unfoldable pub update_member : Database → UpdateParams → Result Error Member × Database
unfolding update_joined
update_member db p =
    if not (has_workspace db p.workspace_id)
    then (err not_found, db)
    else update_joined db p (find_row p.workspace_id p.user_id db.rows)
        (find_user p.user_id db.users)

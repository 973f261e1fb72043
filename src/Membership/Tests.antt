-- ===== src/Membership/Tests.antt =====
-- The theorems on members at concrete inputs.
use voice_asset_server.Base.{
  suc, ◌≡◌, refl, true, none, some, List, [], ◌∷◌, ◌++◌, arith, text_eq, drop, take, get_elem?, ok,
  length, All,
}
use voice_asset_server.Base.Int.{pos}
use voice_asset_server.Base.Table.{Unique}
use voice_asset_server.Base.Paging.{newest_first}
use voice_asset_server.Text.{Bytes, codes, trim_space}
use voice_asset_server.Identifier.{normalize_uuid, is_uuid}
use voice_asset_server.Auth.{all_scopes, can, contains}
use voice_asset_server.Membership.{
  Database, Row, Member, UpdateParams, owner, active, disabled, active_owners, update_member,
  find_row, find_user, modify_row, revoke_all, is_among, valid_roles, valid_statuses,
}
use voice_asset_server.Membership.Owners.{IsOwned}
use voice_asset_server.Membership.Revocation.{IsRevoked, update_member-IsRevoked}
use voice_asset_server.Membership.Service.{
  Env, Cursors, ListInput, authorize_read, normalize_optional_choice,
}
use voice_asset_server.Membership.Service.Requests.{after_all, after_all-Owned, updates}
use voice_asset_server.Membership.Listing.{select_members, member_key, binding}
use voice_asset_server.Membership.Listing.Pages.{IsStored, follow, follow-newest_first}

abbrev workspace : Bytes
workspace = codes "00000000-0000-4000-8000-00000000000a"

abbrev first_user : Bytes
first_user = codes "00000000-0000-4000-8000-000000000001"

abbrev second_user : Bytes
second_user = codes "00000000-0000-4000-8000-000000000002"

abbrev first_row : Row
first_row = record {
  workspace_id = workspace;
  user_id = first_user;
  role = owner;
  status = active;
  version = 1;
  created_at = 50;
  updated_at = 50;
}

abbrev second_row : Row
second_row = record first_row { user_id = second_user; updated_at = 60 }

abbrev db : Database
db = record {
  workspaces = workspace ∷ [];
  users =
      (record { id = first_user; email = codes "a@b"; password_hash = [] })
      ∷ (record { id = second_user; email = codes "c@d"; password_hash = [] })
      ∷ [];
  rows = first_row ∷ second_row ∷ [];
  sessions =
      (record {
        workspace_id = workspace;
        user_id = second_user;
        created_at = 70;
        revoked_at = none;
      })
      ∷ [];
  api_keys = [];
  audits = [];
}

db-IsOwned : IsOwned workspace db.rows
unfolding text_eq codes active_owners
db-IsOwned = record { keys = ((refl, tt), (tt, tt)); owners = omega arith }

-- A codec of cursors: the identifier, the time and the binding, one after the other.
abbrev cursors : Cursors
cursors = record {
  write = λ bound at id. id ++ (at ∷ bound);
  read = λ s. elim (get_elem? s 36) [ none ↦ none | some at ↦ some (drop 37 s, at, take 36 s) ];
}

abbrev env : Env
env = record {
  principal = record {
    user_id = first_user;
    workspace_id = workspace;
    role = owner;
    email = codes "a@b";
    scopes = all_scopes;
    credential_type = codes "session";
    credential_id = first_user;
  };
  salts = [];
  random = [];
  now = 80;
  clock = 80;
  derive = λ password salt iterations size. none;
  lower_table = λ r. r;
  cursors = cursors;
}

after_all-Owned_example :
    IsOwned workspace
      (after_all db (
        updates env second_user (pos 1) (record { role = none; status = some disabled }) (codes "r")
        ∷ updates env first_user
            (pos 1)
            (record { role = none; status = some disabled })
            (codes "r")
        ∷ [])).rows
after_all-Owned_example =
    after_all-Owned workspace db
      (updates env second_user (pos 1) (record { role = none; status = some disabled }) (codes "r")
        ∷ updates env first_user (pos 1) (record { role = none; status = some disabled })
            (codes "r")
        ∷ [])
      db-IsOwned

abbrev disable_second : UpdateParams
disable_second = record {
  user_id = second_user;
  audit_id = first_user;
  workspace_id = workspace;
  actor_id = first_user;
  request_id = codes "r";
  expected_version = pos 1;
  role = none;
  status = some disabled;
  updated_at = 80;
}

abbrev second_member : Member
second_member = record {
  id = second_user;
  workspace_id = workspace;
  email = codes "c@d";
  role = owner;
  status = disabled;
  version = 2;
  created_at = 50;
  updated_at = 80;
}

abbrev db_after : Database
db_after = (update_member db disable_second).1

found : find_row workspace second_user db.rows ≡ some second_row
unfolding find_row text_eq codes
found = refl

was_active : text_eq active active ≡ true
unfolding text_eq codes
was_active = refl

is_disabled : text_eq disabled disabled ≡ true
unfolding text_eq codes
is_disabled = refl

update_runs : update_member db disable_second ≡ (ok second_member, db_after)
unfolding update_member find_row find_user text_eq codes is_among active_owners modify_row
    valid_roles valid_statuses revoke_all
update_runs = refl

update_member-IsRevoked_example :
    IsRevoked workspace second_user db_after.sessions
    × IsRevoked workspace second_user db_after.api_keys
update_member-IsRevoked_example =
    update_member-IsRevoked db db_after disable_second second_row second_member found was_active
      update_runs is_disabled

abbrev first_page : ListInput
first_page = record { limit = pos 1; cursor = []; role = []; status = [] }

may_read : authorize_read env.principal ≡ ok workspace
unfolding authorize_read can contains normalize_uuid is_uuid codes
may_read = refl

any_choice : (allowed : List Bytes) → normalize_optional_choice env.lower_table [] allowed ≡ some []
unfolding normalize_optional_choice trim_space text_eq
any_choice allowed = refl

All-IsStored :
    All
      (λ m. IsStored cursors (binding workspace [] []) (member_key m))
      (select_members workspace [] [] db.users db.rows)
unfolding select_members find_user text_eq codes normalize_uuid is_uuid trim_space
All-IsStored = (
  record { canonical = refl; dated = refl; back = refl; not_empty = refl; fits = refl },
  (record { canonical = refl; dated = refl; back = refl; not_empty = refl; fits = refl }, tt),
)

all_distinct : Unique (λ m. m.id) (select_members workspace [] [] db.users db.rows)
unfolding select_members find_user text_eq codes
all_distinct = ((refl, tt), (tt, tt))

follow-newest_first_example :
    let members = newest_first member_key (select_members workspace [] [] db.users db.rows) in
    follow (suc (length members)) db env first_page ≡ ok members
follow-newest_first_example =
    follow-newest_first db env first_page workspace [] [] 0 may_read (any_choice valid_roles)
      (any_choice valid_statuses) refl All-IsStored refl all_distinct

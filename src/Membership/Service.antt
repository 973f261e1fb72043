-- ===== src/Membership/Service.antt =====
-- internal/membership/service.go, and `List` of the repository. What Unicode and the encoding of a cursor
-- (JSON in base64) are is a parameter. An error that the service wraps is the error it wraps.
pub mod Requests
use voice_asset_server.Base.{
  ℕ, zero, suc, ◌+◌, Bool, true, false, not, ◌&&◌, ◌||◌, Option, none, some, List, [], ◌∷◌, ◌++◌,
  ltb, leb, ◌==◌, if◌then◌else◌, text_eq, length, Result, ok, err,
}
use voice_asset_server.Base.Int.{ℤ, pos, negsuc, leb_ℤ}
use voice_asset_server.Base.Paging.{Key, page, answer}
use voice_asset_server.Text.{Bytes, codes, trim_space, rune_count, between}
use voice_asset_server.Text.Case.{to_lower}
use voice_asset_server.Identifier.{new_uuid_from, normalize_uuid}
use voice_asset_server.Auth.{Principal, can, admin_read, admin_write}
use voice_asset_server.Auth.Password.{Derive, hash, default_password_iterations}
use voice_asset_server.Membership.{
  Error, forbidden, invalid_input, not_found, internal, Time, Member, Row, User, Database,
  CreateParams, UpdateParams, owner, valid_roles, valid_statuses, is_among, find_user, member,
  create_member, update_member,
}

-- How a cursor is written and read: the binding, the time and the identifier.
pub record Cursors : Type 0 where
  pub write : Bytes → Time → Bytes → Bytes
  pub read : Bytes → Option (Bytes × Time × Bytes)

-- What a request reads of the world.
pub record Env : Type 0 where
  pub principal : Principal
  pub salts : Bytes
  pub random : Bytes
  pub now : Time
  pub clock : Time
  pub derive : Derive
  pub lower_table : ℕ → ℕ
  pub cursors : Cursors

pub record CreateInput : Type 0 where
  pub email : Bytes
  pub password : Bytes
  pub role : Bytes

pub record UpdateInput : Type 0 where
  pub role : Option Bytes
  pub status : Option Bytes

pub record ListInput : Type 0 where
  pub limit : ℤ
  pub cursor : Bytes
  pub role : Bytes
  pub status : Bytes

-- `authorizeRead`
unfoldable pub authorize_read : Principal → Result Error Bytes
authorize_read p =
    if not (can p admin_read) then err forbidden else elim (normalize_uuid p.workspace_id) [
      | none ↦ err forbidden
      | some workspace ↦ ok workspace
    ]

-- `authorizeWrite`
unfoldable pub authorize_write : Principal → Result Error Bytes
unfolding authorize_read
authorize_write p = elim (authorize_read p) [
  | err e ↦ err forbidden
  | ok workspace ↦
      if not (text_eq p.role owner) || not (can p admin_write) then err forbidden else ok workspace
]

abbrev is_blank : ℕ → Bool
is_blank c = c == b' ' || c == 0x09 || c == 0x0d || c == 0x0a

unfoldable pub has_blank : Bytes → Bool
has_blank [] = false
has_blank (c ∷ s) = is_blank c || has_blank s

-- strings.LastIndexByte
last_index : ℕ → Bytes → Option ℕ
last_index b [] = none
last_index b (c ∷ s) = elim (last_index b s) [
  | some i ↦ some (suc i)
  | none ↦ if c == b then some 0 else none
]

-- `normalizeEmail`. There is no further `@` behind the last one.
unfoldable pub normalize_email : (ℕ → ℕ) → Bytes → Option Bytes
unfolding last_index
normalize_email table value =
    let email = to_lower table (trim_space value) in
    if ltb (length email) 3 || ltb 254 (length email) || has_blank email
    then none
    else elim (last_index b'@' email) [
      | none ↦ none
      | some i ↦ if i == 0 || suc i == length email then none else some email
    ]

-- `normalizeChoice`
unfoldable pub normalize_choice : (ℕ → ℕ) → Bytes → List Bytes → Option Bytes
normalize_choice table value allowed =
    let choice = to_lower table (trim_space value) in
    if is_among choice allowed then some choice else none

-- `normalizeOptionalChoice`
unfoldable pub normalize_optional_choice : (ℕ → ℕ) → Bytes → List Bytes → Option Bytes
unfolding normalize_choice
normalize_optional_choice table value allowed =
    if text_eq (trim_space value) [] then some [] else normalize_choice table value allowed

-- `normalizeOptionalPointer`
unfoldable pub normalize_optional_pointer :
    (ℕ → ℕ) → Option Bytes → List Bytes → Option (Option Bytes)
unfolding normalize_choice
normalize_optional_pointer table none allowed = some none
normalize_optional_pointer table (some value) allowed =
    elim (normalize_choice table value allowed) [ none ↦ none | some choice ↦ some (some choice) ]

-- `validRequestID`
unfoldable pub valid_request_id : Bytes → Bool
valid_request_id s = between 1 200 (length s) && text_eq (trim_space s) s

pub create_with_ids :
    Database → Env → Bytes → Bytes → Bytes → Bytes → Bytes → Result Error Member × Database
create_with_ids db env workspace email role password_hash request =
    elim (new_uuid_from env.random) [
      | err e ↦ (err internal, db)
      | ok (user, rest) ↦ elim (new_uuid_from rest) [
        | err e ↦ (err internal, db)
        | ok (audit, rest') ↦
            create_member db
              (record {
                user_id = user;
                audit_id = audit;
                workspace_id = workspace;
                actor_id = env.principal.user_id;
                request_id = request;
                email = email;
                password_hash = password_hash;
                role = role;
              })
              env.clock
      ]
    ]

pub create_valid :
    Database
    → Env
    → Bytes
    → Option Bytes
    → Option Bytes
    → Bytes
    → Bytes
    → Result Error Member × Database
unfolding create_with_ids
create_valid db env workspace (some email) (some role) password request =
    if ltb (rune_count password) 12
      || ltb 1024 (rune_count password)
      || not (valid_request_id request)
    then (err invalid_input, db)
    else elim (hash env.derive default_password_iterations env.salts password) [
      | none ↦ (err internal, db)
      | some (password_hash, rest) ↦
          create_with_ids db env workspace email role password_hash request
    ]
create_valid db env workspace none role password request = (err invalid_input, db)
create_valid db env workspace (some email) none password request = (err invalid_input, db)

-- `Create`
unfoldable pub create : Database → Env → CreateInput → Bytes → Result Error Member × Database
unfolding create_valid authorize_write
create db env input request = elim (authorize_write env.principal) [
  | err e ↦ (err e, db)
  | ok workspace ↦
      create_valid db env workspace (normalize_email env.lower_table input.email)
        (normalize_choice env.lower_table input.role valid_roles) input.password request
]

pub is_none {ℓ} : {A : Type ℓ} → Option A → Bool
is_none none = true
is_none (some a) = false

pub update_valid :
    Database
    → Env
    → Bytes
    → Bytes
    → ℤ
    → Option (Option Bytes)
    → Option (Option Bytes)
    → Bytes
    → Result Error Member × Database
unfolding is_none
update_valid db env workspace user expected (some role) (some status) request =
    if leb_ℤ expected (pos 0) || (is_none role && is_none status) || not (valid_request_id request)
    then (err invalid_input, db)
    else elim (new_uuid_from env.random) [
      | err e ↦ (err internal, db)
      | ok (audit, rest) ↦ update_member db (record {
        user_id = user;
        audit_id = audit;
        workspace_id = workspace;
        actor_id = env.principal.user_id;
        request_id = request;
        expected_version = expected;
        role = role;
        status = status;
        updated_at = env.now;
      })
    ]
update_valid db env workspace user expected none status request = (err invalid_input, db)
update_valid db env workspace user expected (some role) none request = (err invalid_input, db)

-- `Update`
unfoldable pub update :
    Database → Env → Bytes → ℤ → UpdateInput → Bytes → Result Error Member × Database
unfolding update_valid authorize_write
update db env user_text expected input request = elim (authorize_write env.principal) [
  | err e ↦ (err e, db)
  | ok workspace ↦ elim (normalize_uuid user_text) [
    | none ↦ (err not_found, db)
    | some user ↦
        update_valid db env workspace user expected
          (normalize_optional_pointer env.lower_table input.role valid_roles)
          (normalize_optional_pointer env.lower_table input.status valid_statuses) request
  ]
]

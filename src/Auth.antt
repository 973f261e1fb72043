-- ===== src/Auth.antt =====
-- Principals, roles and scopes (internal/auth/permissions.go, `Principal` of
-- internal/auth/service.go).
pub mod Roles
pub mod Password
mod Tests
use voice_asset_server.Base.{
  ℕ, Bool, true, false, ◌||◌, List, [], ◌∷◌, ◌==◌, text_eq, if◌then◌else◌,
}
use voice_asset_server.Text.{Bytes, codes}

pub data Scope : Type 0 where
  assets_read audio_read assets_write transcripts_read transcriptions_write corrections_write
        metadata_write admin_read admin_write :
      Scope

abbrev pub scope_name : Scope → Bytes
scope_name assets_read = codes "assets:read"
scope_name audio_read = codes "audio:read"
scope_name assets_write = codes "assets:write"
scope_name transcripts_read = codes "transcripts:read"
scope_name transcriptions_write = codes "transcriptions:write"
scope_name corrections_write = codes "corrections:write"
scope_name metadata_write = codes "metadata:write"
scope_name admin_read = codes "admin:read"
scope_name admin_write = codes "admin:write"

-- `allScopes`
abbrev pub all_scopes : List Scope
all_scopes =
    admin_read ∷ admin_write ∷ assets_read ∷ assets_write ∷ audio_read ∷ corrections_write
    ∷ metadata_write ∷ transcriptions_write ∷ transcripts_read ∷ []

abbrev pub editor_scopes : List Scope
editor_scopes =
    assets_read ∷ assets_write ∷ audio_read ∷ corrections_write ∷ metadata_write
    ∷ transcriptions_write ∷ transcripts_read ∷ []

abbrev pub reader_scopes : List Scope
reader_scopes = assets_read ∷ audio_read ∷ transcripts_read ∷ []

abbrev scope_index : Scope → ℕ
scope_index assets_read = 0
scope_index audio_read = 1
scope_index assets_write = 2
scope_index transcripts_read = 3
scope_index transcriptions_write = 4
scope_index corrections_write = 5
scope_index metadata_write = 6
scope_index admin_read = 7
scope_index admin_write = 8

-- `candidate == scope`
abbrev pub scope_eq : Scope → Scope → Bool
scope_eq a b = scope_index a == scope_index b

unfoldable pub contains : Scope → List Scope → Bool
contains s [] = false
contains s (c ∷ cs) = scope_eq c s || contains s cs

unfoldable pub scopes_for_role : Bytes → List Scope
scopes_for_role role =
    if text_eq role (codes "owner") || text_eq role (codes "admin")
    then all_scopes
    else if text_eq role (codes "editor")
    then editor_scopes
    else if text_eq role (codes "viewer") || text_eq role (codes "agent")
    then reader_scopes
    else []

pub record Principal : Type 0 where
  pub user_id : Bytes
  pub workspace_id : Bytes
  pub role : Bytes
  pub email : Bytes
  pub scopes : List Scope
  pub credential_type : Bytes
  pub credential_id : Bytes

unfoldable pub can : Principal → Scope → Bool
unfolding contains
can p scope = contains scope p.scopes

-- ===== src/Auth/Roles.antt =====
-- What the roles may do.
use voice_asset_server.Base.{◌≡◌, true, arith, ◌⊎◌, text_eq_sound}
use voice_asset_server.Text.{Bytes, codes}
use voice_asset_server.Auth.{admin_write, transcriptions_write, scopes_for_role, contains}

-- Only an owner or an admin may write what belongs to the administration, and only these and an
-- editor may write transcriptions.
scopes_for_role-writers :
    (role : Bytes)
    → (contains admin_write (scopes_for_role role) ≡ true
        → (role ≡ codes "owner") ⊎ (role ≡ codes "admin"))
      × (contains transcriptions_write (scopes_for_role role) ≡ true
          → (role ≡ codes "owner") ⊎ ((role ≡ codes "admin") ⊎ (role ≡ codes "editor")))
unfolding scopes_for_role contains
scopes_for_role-writers role = ground (
  arith,
  text_eq_sound role (codes "owner"),
  text_eq_sound role (codes "admin"),
  text_eq_sound role (codes "editor"),
)

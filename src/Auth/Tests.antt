-- ===== src/Auth/Tests.antt =====
-- The scopes of a role.
use voice_asset_server.Base.{◌≡◌, refl, false, text_eq}
use voice_asset_server.Text.{codes}
use voice_asset_server.Auth.{admin_write, scopes_for_role, contains}

editor_without_admin : contains admin_write (scopes_for_role (codes "editor")) ≡ false
unfolding scopes_for_role contains text_eq codes
editor_without_admin = refl

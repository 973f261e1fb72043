-- ===== src/Membership/Service/Requests.antt =====
-- Whatever is asked for, a workspace keeps an active owner.
use voice_asset_server.Base.{
  ◌≡◌, refl, false, not, ◌&&◌, ◌||◌, Option, none, some, List, [], ◌∷◌, ltb, Result, ok, err,
  Bool-cases, Option-cases, inl, inr,
}
use voice_asset_server.Base.Int.{ℤ, pos, leb_ℤ}
use voice_asset_server.Text.{Bytes, rune_count}
use voice_asset_server.Identifier.{new_uuid_from, normalize_uuid}
use voice_asset_server.Auth.Password.{hash, default_password_iterations}
use voice_asset_server.Membership.{Error, Database}
use voice_asset_server.Membership.Owners.{IsOwned, Owned, create_member-Owned, update_member-Owned}
use voice_asset_server.Membership.Service.{
  Env, CreateInput, UpdateInput, authorize_write, create_with_ids, create_valid, create,
  update_valid, update, is_none, normalize_email, normalize_optional_pointer, valid_request_id,
}

pub data Request : Type 0 where
  creates : Env → CreateInput → Bytes → Request
  updates : Env → Bytes → ℤ → UpdateInput → Bytes → Request

unfoldable pub after : Database → Request → Database
after db (creates env input request) = (create db env input request).1
after db (updates env user expected input request) = (update db env user expected input request).1

unfoldable pub after_all : Database → List Request → Database
unfolding after
after_all db [] = db
after_all db (q ∷ qs) = after_all (after db q) qs

module _ (w : Bytes) (db : Database) (s : IsOwned w db.rows) (env : Env) where
  create_with_ids-Owned :
      (workspace email role password_hash request : Bytes)
      → Owned w (create_with_ids db env workspace email role password_hash request)
  unfolding create_with_ids
  create_with_ids-Owned workspace email role password_hash request = from_first _ refl
    where
      from_first :
          (first : _)
          → new_uuid_from env.random ≡ first
          → Owned w (create_with_ids db env workspace email role password_hash request)
      from_first (err e) h = rw (h, create_with_ids) s
      from_first (ok (user, rest)) h = from_second _ refl
        where
          from_second :
              (second : _)
              → new_uuid_from rest ≡ second
              → Owned w (create_with_ids db env workspace email role password_hash request)
          from_second (err e) k = rw (h, k, create_with_ids) s
          from_second (ok (audit, rest')) k =
              rw (h, k, create_with_ids) (create_member-Owned w db s _ env.clock)

  create_valid-Owned :
      (workspace : Bytes) (email role : Option Bytes) (password request : Bytes)
      → Owned w (create_valid db env workspace email role password request)
  unfolding create_valid
  create_valid-Owned workspace none role password request = s
  create_valid-Owned workspace (some email) none password request = s
  create_valid-Owned workspace (some email) (some role) password request =
      elim (Bool-cases (
        ltb (rune_count password) 12
        || ltb 1024 (rune_count password)
        || not (valid_request_id request))) [
          | inl bad ↦ rw (bad, create_valid) s
          | inr fine ↦
              elim (Option-cases (hash env.derive default_password_iterations env.salts password)) [
                | inl fails ↦ rw (fine, fails, create_valid) s
                | inr ((password_hash, rest), hashed) ↦
                    rw (fine, hashed, create_valid)
                      (create_with_ids-Owned workspace email role password_hash request)
              ]
        ]

  create-Owned : (input : CreateInput) (request : Bytes) → Owned w (create db env input request)
  unfolding create
  create-Owned input request = from_workspace _ refl
    where
      from_workspace :
          (out : Result Error Bytes)
          → authorize_write env.principal ≡ out
          → Owned w (create db env input request)
      from_workspace (err e) h = rw (h, create) s
      from_workspace (ok workspace) h =
          rw (h, create)
            (create_valid-Owned workspace (normalize_email env.lower_table input.email) _
              input.password request)

  update_valid-Owned :
      (workspace user : Bytes) (expected : ℤ) (role status : Option (Option Bytes))
      (request : Bytes)
      → Owned w (update_valid db env workspace user expected role status request)
  unfolding update_valid
  update_valid-Owned workspace user expected none status request = s
  update_valid-Owned workspace user expected (some role) none request = s
  update_valid-Owned workspace user expected (some role) (some status) request =
      elim (Bool-cases (
        leb_ℤ expected (pos 0)
        || (is_none role && is_none status)
        || not (valid_request_id request))) [
          | inl bad ↦ rw (bad, update_valid) s
          | inr fine ↦ from_id fine _ refl
        ]
    where
      from_id :
          (leb_ℤ expected (pos 0)
              || (is_none role && is_none status)
              || not (valid_request_id request))
            ≡ false
          → (id : _) → new_uuid_from env.random ≡ id
          → Owned w (update_valid db env workspace user expected (some role) (some status) request)
      from_id fine (err e) h = rw (fine, h, update_valid) s
      from_id fine (ok (audit, rest)) h = rw (fine, h, update_valid) (update_member-Owned w db s _)

  update-Owned :
      (user_text : Bytes) (expected : ℤ) (input : UpdateInput) (request : Bytes)
      → Owned w (update db env user_text expected input request)
  unfolding update
  update-Owned user_text expected input request = from_workspace _ refl
    where
      from_workspace :
          (out : Result Error Bytes)
          → authorize_write env.principal ≡ out
          → Owned w (update db env user_text expected input request)
      from_workspace (err e) h = rw (h, update) s
      from_workspace (ok workspace) h = elim (Option-cases (normalize_uuid user_text)) [
        | inl bad ↦ rw (h, bad, update) s
        | inr (user, fine) ↦
            rw (h, fine, update)
              (update_valid-Owned workspace user expected
                (normalize_optional_pointer env.lower_table input.role _)
                (normalize_optional_pointer env.lower_table input.status _) request)
      ]

after-Owned :
    (w : Bytes) (db : Database) (q : Request) → IsOwned w db.rows → IsOwned w (after db q).rows
unfolding after
after-Owned w db (creates env input request) s = create-Owned w db s env input request
after-Owned w db (updates env user expected input request) s =
    update-Owned w db s env user expected input request

-- Whatever is asked for, by whomever and in whatever order, a workspace that has an active owner keeps
-- one, and the members of the workspaces stay unique.
pub after_all-Owned :
    (w : Bytes) (db : Database) (qs : List Request)
    → IsOwned w db.rows
    → IsOwned w (after_all db qs).rows
unfolding after_all
after_all-Owned w db [] s = s
after_all-Owned w db (q ∷ qs) s = after_all-Owned w (after db q) qs (after-Owned w db q s)

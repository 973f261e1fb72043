-- ===== src/Membership/Revocation.antt =====
-- A member who is disabled has no live session and no live API key left.
use voice_asset_server.Base.{
  ◌≡◌, sym, ap, subst, ◌∙◌, true, false, not, ◌&&◌, ◌||◌, some, List, [], ◌∷◌, arith, ltb, leb,
  text_eq, text_eq_sound, All, Result, ok, err, Bool-cases, Option-cases, inl, inr, suc,
}
use voice_asset_server.Base.Int.{pos, eqb_ℤ, i64_half}
use voice_asset_server.Text.{Bytes, codes}
use voice_asset_server.Membership.{
  Error, Member, Row, User, Credential, Database, UpdateParams, Time, active, disabled, owner,
  is_some, revoke, revoke_all, persist, update_locked, update_joined, update_member, find_row,
  find_user, is_among, valid_roles, valid_statuses, or_else, is_active_owner, active_owners,
}

-- No live credential of this user in this workspace.
abbrev pub IsRevoked : Bytes → Bytes → List Credential → Type 0
IsRevoked workspace user = All (λ c.
    (text_eq c.workspace_id workspace && text_eq c.user_id user && not (is_some c.revoked_at))
    ≡ false)

revoke_all-IsRevoked :
    (workspace user : Bytes) (now : Time) (cs : List Credential)
    → IsRevoked workspace user (revoke_all workspace user now cs)
unfolding revoke_all
revoke_all-IsRevoked workspace user now [] = tt
revoke_all-IsRevoked workspace user now (c ∷ cs) =
    (head, revoke_all-IsRevoked workspace user now cs)
  where
    head :
        let r = revoke workspace user now c in
        (text_eq r.workspace_id workspace && text_eq r.user_id user && not (is_some r.revoked_at))
        ≡ false
    head =
        elim (Bool-cases (
          text_eq c.workspace_id workspace
          && text_eq c.user_id user
          && not (is_some c.revoked_at))) [
            | inl live ↦ rw live (ground arith)
            | inr gone ↦ rw gone gone
          ]

-- What an answer says of the credentials: a member who is disabled now has none.
abbrev Ends : UpdateParams → Result Error Member × Database → Type 0
Ends p (err e, db) = Unit
Ends p (ok m, db) =
    text_eq m.status disabled ≡ true
    → IsRevoked p.workspace_id p.user_id db.sessions
      × IsRevoked p.workspace_id p.user_id db.api_keys

active_ne_disabled : (s : Bytes) → text_eq s active ≡ true → text_eq s disabled ≡ true → ⊥
unfolding text_eq codes
active_ne_disabled s h k =
    absurd (differ (sym (text_eq_sound s active h) ∙ text_eq_sound s disabled k))
  where
    differ : active ≡ disabled → ⊥
    differ e = true_ne_false (sym (ap (λ s. text_eq s active) e))
      where
        true_ne_false : false ≡ true → ⊥
        true_ne_false h = cc

module _ (db : Database) (p : UpdateParams) (c : Row) (u : User)
    (was : text_eq c.status active ≡ true) where
  persist-Ends : (role status : Bytes) → Ends p (persist db p c u role status)
  unfolding persist
  persist-Ends role status =
      elim (Bool-cases (
        not (ltb (suc c.version) i64_half)
        || not (is_among role valid_roles && is_among status valid_statuses))) [
          | inl bad ↦ rw (bad, persist) tt
          | inr fine ↦ elim (Bool-cases (text_eq status disabled)) [
            | inl ends ↦
                rw (fine, was, ends, persist)
                  (λ h. (
                    revoke_all-IsRevoked p.workspace_id p.user_id p.updated_at db.sessions,
                    revoke_all-IsRevoked p.workspace_id p.user_id p.updated_at db.api_keys,
                  ))
            | inr stays ↦ rw (fine, was, stays, persist) (λ h. absurd (ground arith))
          ]
        ]

  update_locked-Ends : Ends p (update_locked db p c u)
  unfolding update_locked
  update_locked-Ends =
      let role = or_else p.role c.role in
      let status = or_else p.status c.status in
      elim (Bool-cases (eqb_ℤ (pos c.version) p.expected_version)) [
        | inr stale ↦ rw (stale, update_locked) tt
        | inl fresh ↦ elim (Bool-cases (text_eq role c.role && text_eq status c.status)) [
          | inl same ↦
              rw (fresh, same, update_locked) (λ h. absurd (active_ne_disabled c.status was h))
          | inr differs ↦
              elim (Bool-cases (
                is_active_owner c
                && not (text_eq role owner && text_eq status active)
                && leb (active_owners p.workspace_id db.rows) 1)) [
                  | inl last ↦ rw (fresh, differs, last, update_locked) tt
                  | inr allowed ↦
                      rw (fresh, differs, allowed, update_locked) (persist-Ends role status)
                ]
        ]
      ]

-- When an update of an active member is accepted and the member is disabled after it, no session and no
-- API key of the member in the workspace is live any more.
pub update_member-IsRevoked :
    (db db' : Database) (p : UpdateParams) (c : Row) (m : Member)
    → find_row p.workspace_id p.user_id db.rows ≡ some c
    → text_eq c.status active ≡ true
    → update_member db p ≡ (ok m, db')
    → text_eq m.status disabled ≡ true
    → IsRevoked p.workspace_id p.user_id db'.sessions
      × IsRevoked p.workspace_id p.user_id db'.api_keys
unfolding update_member update_joined
update_member-IsRevoked db db' p c m found was done ends = subst (Ends p) done answer ends
  where
    answer : Ends p (update_member db p)
    answer = elim (Bool-cases (is_among p.workspace_id db.workspaces)) [
      | inr unknown ↦ rw (unknown, update_member) tt
      | inl known ↦ elim (Option-cases (find_user p.user_id db.users)) [
        | inl nobody ↦ rw (known, found, nobody, update_member, update_joined) tt
        | inr (u, user) ↦
            rw (known, found, user, update_member, update_joined) (update_locked-Ends db p c u was)
      ]
    ]

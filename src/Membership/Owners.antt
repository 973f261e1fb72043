-- ===== src/Membership/Owners.antt =====
-- A workspace keeps an active owner.
use voice_asset_server.Base.{
  ℕ, suc, ◌+◌, ◌≤◌, ◌<◌, ◌≡◌, refl, sym, subst, Bool, true, false, not, ◌&&◌, ◌||◌, Option, none,
  some, List, [], ◌∷◌, arith, ltb, leb, if◌then◌else◌, text_eq, text_eq_sound, All, Result,
  Bool-cases, Option-cases, inl, inr, and_split,
}
use voice_asset_server.Base.Int.{pos, eqb_ℤ, i64_half}
use voice_asset_server.Text.{Bytes}
use voice_asset_server.Membership.{
  Row, User, Database, CreateParams, UpdateParams, Time, Member, Error, is_row, find_row,
  modify_row, is_active_owner, active_owners, updated, owner, active, disabled, persist,
  update_locked, update_joined, update_member, create_member, find_user, is_among, valid_roles,
  valid_statuses, user_exists, or_else,
}

-- The primary key of the table.
abbrev pub Keys : List Row → Type 0
Keys [] = Unit
Keys (r ∷ rows) = All (λ s. is_row r.workspace_id r.user_id s ≡ false) rows × Keys rows

-- The table memberships, for a workspace that has an owner who can act.
pub record IsOwned (workspace : Bytes) (rows : List Row) : Type 0 where
  pub keys : Keys rows
  pub owners : 1 ≤ active_owners workspace rows

abbrev weight : Bytes → Row → ℕ
weight workspace r = if text_eq r.workspace_id workspace && is_active_owner r then 1 else 0

module _ (workspace user role status : Bytes) (now : Time) where
  abbrev change : Row → Row
  change = updated role status now

  abbrev changed : List Row → List Row
  changed rows = modify_row workspace user change rows

  changed-Absent :
      (w u : Bytes) (rows : List Row)
      → All (λ s. is_row w u s ≡ false) rows
      → All (λ s. is_row w u s ≡ false) (changed rows)
  unfolding modify_row
  changed-Absent w u [] a = tt
  changed-Absent w u (r ∷ rows) a = elim (Bool-cases (is_row workspace user r)) [
    | inl same ↦ (rw same (a.0), changed-Absent w u rows a.1)
    | inr other ↦ (rw other (a.0), changed-Absent w u rows a.1)
  ]

  changed-Keys : (rows : List Row) → Keys rows → Keys (changed rows)
  unfolding modify_row
  changed-Keys [] k = tt
  changed-Keys (r ∷ rows) k = elim (Bool-cases (is_row workspace user r)) [
    | inl same ↦ rw same (changed-Absent r.workspace_id r.user_id rows k.0, changed-Keys rows k.1)
    | inr other ↦ rw other (changed-Absent r.workspace_id r.user_id rows k.0, changed-Keys rows k.1)
  ]

  changed_other :
      (rows : List Row) → All (λ s. is_row workspace user s ≡ false) rows → changed rows ≡ rows
  unfolding modify_row
  changed_other [] a = refl
  changed_other (r ∷ rows) a = rw (a.0, changed_other rows a.1) refl

  owners_kept :
      (w : Bytes) (rows : List Row)
      → (text_eq role owner && text_eq status active) ≡ true
      → active_owners w rows ≤ active_owners w (changed rows)
  unfolding modify_row active_owners
  owners_kept w [] still = omega arith
  owners_kept w (r ∷ rows) still =
      let rest = owners_kept w rows still in
      let e = and_split (text_eq role owner) (text_eq status active) still in
      elim (Bool-cases (is_row workspace user r)) [
        | inl same ↦ rw (same, e.0, e.1) (ground arith)
        | inr other ↦ rw other (omega arith)
      ]

  owners_lost :
      (w : Bytes) (rows : List Row) (c : Row)
      → Keys rows
      → find_row workspace user rows ≡ some c
      → active_owners w rows ≤ active_owners w (changed rows) + weight w c
  unfolding modify_row active_owners find_row
  owners_lost w [] c k h = absurd (ground arith)
  owners_lost w (r ∷ rows) c k h = elim (Bool-cases (is_row workspace user r)) [
    | inl same ↦
        let e : r ≡ c = ground arith in
        let s = and_split (text_eq r.workspace_id workspace) (text_eq r.user_id user) same in
        let absent : All (λ s. is_row workspace user s ≡ false) rows =
          subst (λ v. All (λ s. is_row workspace v s ≡ false) rows) (text_eq_sound _ _ s.1)
            (subst (λ v. All (λ s. is_row v r.user_id s ≡ false) rows) (text_eq_sound _ _ s.0)
              k.0) in
        rw (same, changed_other rows absent, sym e) (omega arith)
    | inr other ↦ let rest = owners_lost w rows c k.1 (ground arith) in rw other (omega arith)
  ]

  owners_elsewhere :
      (w : Bytes) (rows : List Row)
      → text_eq workspace w ≡ false
      → active_owners w (changed rows) ≡ active_owners w rows
  unfolding modify_row active_owners
  owners_elsewhere w [] d = refl
  owners_elsewhere w (r ∷ rows) d = elim (Bool-cases (is_row workspace user r)) [
    | inl same ↦
        let s = and_split (text_eq r.workspace_id workspace) (text_eq r.user_id user) same in
        rw (same, owners_elsewhere w rows d, text_eq_sound _ _ s.0, d) refl
    | inr other ↦ rw (other, owners_elsewhere w rows d) refl
  ]

and_false : (b : Bool) → (◌≡◌ {A = ℕ} (if b && false then 1 else 0) 0)
and_false true = refl
and_false false = refl

more_than : (n : ℕ) → leb n 1 ≡ false → 1 < n
more_than n h = ground arith

weight_small : (w : Bytes) (c : Row) → weight w c ≤ 1
weight_small w c = ground arith

-- What an answer leaves of the table.
abbrev pub Owned : Bytes → Result Error Member × Database → Type 0
Owned w out = IsOwned w out.1.rows

module _ (w : Bytes) (db : Database) (s : IsOwned w db.rows) where
  still_owned :
      (p : UpdateParams) (c : Row) (role status : Bytes)
      → find_row p.workspace_id p.user_id db.rows ≡ some c
      → (is_active_owner c
          && not (text_eq role owner && text_eq status active)
          && leb (active_owners p.workspace_id db.rows) 1)
        ≡ false
      → 1
        ≤ active_owners w
            (modify_row p.workspace_id p.user_id (updated role status p.updated_at) db.rows)
  still_owned p c role status found allowed =
      let n = s.owners in
      elim (Bool-cases (text_eq p.workspace_id w)) [
        | inr differs ↦
            rw
              (owners_elsewhere p.workspace_id p.user_id role status p.updated_at w db.rows differs)
              n
        | inl same ↦ elim (Bool-cases (text_eq role owner && text_eq status active)) [
          | inl still ↦
              let kept =
                owners_kept p.workspace_id p.user_id role status p.updated_at w db.rows still in
              omega arith
          | inr loses ↦
              let lost =
                owners_lost p.workspace_id p.user_id role status p.updated_at w db.rows c s.keys
                  found in
              elim (Bool-cases (is_active_owner c)) [
                | inr idle ↦
                    let e : weight w c ≡ 0 = rw idle (and_false (text_eq c.workspace_id w)) in
                    omega arith
                | inl acts ↦
                    let one = weight_small w c in
                    let two : leb (active_owners w db.rows) 1 ≡ false =
                      rw (acts, loses, text_eq_sound _ _ same) at allowed in
                    let many = more_than (active_owners w db.rows) two in omega arith
              ]
        ]
      ]

  persist-Owned :
      (p : UpdateParams) (c : Row) (u : User) (role status : Bytes)
      → 1
        ≤ active_owners w
            (modify_row p.workspace_id p.user_id (updated role status p.updated_at) db.rows)
      → Owned w (persist db p c u role status)
  unfolding persist
  persist-Owned p c u role status one =
      let after : IsOwned w
          (modify_row p.workspace_id p.user_id (updated role status p.updated_at) db.rows) =
        record {
          keys = changed-Keys p.workspace_id p.user_id role status p.updated_at db.rows s.keys;
          owners = one;
        } in
      elim (Bool-cases (
        not (ltb (suc c.version) i64_half)
        || not (is_among role valid_roles && is_among status valid_statuses))) [
          | inl bad ↦ rw (bad, persist) s
          | inr fine ↦ elim (Bool-cases (text_eq c.status active && text_eq status disabled)) [
            | inl ends ↦ rw (fine, ends, persist) after
            | inr stays ↦ rw (fine, stays, persist) after
          ]
        ]

  update_locked-Owned :
      (p : UpdateParams) (c : Row) (u : User)
      → find_row p.workspace_id p.user_id db.rows ≡ some c
      → Owned w (update_locked db p c u)
  unfolding update_locked
  update_locked-Owned p c u found =
      let role = or_else p.role c.role in
      let status = or_else p.status c.status in
      elim (Bool-cases (eqb_ℤ (pos c.version) p.expected_version)) [
        | inr stale ↦ rw (stale, update_locked) s
        | inl fresh ↦ elim (Bool-cases (text_eq role c.role && text_eq status c.status)) [
          | inl same ↦ rw (fresh, same, update_locked) s
          | inr differs ↦
              elim (Bool-cases (
                is_active_owner c
                && not (text_eq role owner && text_eq status active)
                && leb (active_owners p.workspace_id db.rows) 1)) [
                  | inl last ↦ rw (fresh, differs, last, update_locked) s
                  | inr allowed ↦
                      rw (fresh, differs, allowed, update_locked)
                        (persist-Owned p c u role status
                          (still_owned p c role status found allowed))
                ]
        ]
      ]

  update_joined-Owned :
      (p : UpdateParams) (c : Option Row) (u : Option User)
      → find_row p.workspace_id p.user_id db.rows ≡ c
      → Owned w (update_joined db p c u)
  unfolding update_joined
  update_joined-Owned p none u found = s
  update_joined-Owned p (some c) none found = s
  update_joined-Owned p (some c) (some u) found = update_locked-Owned p c u found

  pub update_member-Owned : (p : UpdateParams) → Owned w (update_member db p)
  unfolding update_member
  update_member-Owned p = elim (Bool-cases (is_among p.workspace_id db.workspaces)) [
    | inr unknown ↦ rw (unknown, update_member) s
    | inl known ↦
        rw (known, update_member) (update_joined-Owned p _ (find_user p.user_id db.users) refl)
  ]

  missing_row :
      (workspace user : Bytes) (rows : List Row)
      → find_row workspace user rows ≡ none
      → All (λ r. is_row workspace user r ≡ false) rows
  unfolding find_row
  missing_row workspace user [] h = tt
  missing_row workspace user (r ∷ rows) h = elim (Bool-cases (is_row workspace user r)) [
    | inl same ↦ absurd (ground arith)
    | inr other ↦ (other, missing_row workspace user rows (ground arith))
  ]

  pub create_member-Owned : (p : CreateParams) (clock : Time) → Owned w (create_member db p clock)
  unfolding create_member
  create_member-Owned p clock = elim (Bool-cases (is_among p.workspace_id db.workspaces)) [
    | inr unknown ↦ rw (unknown, create_member) s
    | inl known ↦ elim (Bool-cases (user_exists p.user_id p.email db.users)) [
      | inl taken ↦ rw (known, taken, create_member) s
      | inr free ↦ elim (Option-cases (find_row p.workspace_id p.user_id db.rows)) [
        | inr (r, exists) ↦ rw (known, free, exists, create_member) s
        | inl fresh ↦ elim (Bool-cases (is_among p.role valid_roles)) [
          | inr bad ↦ rw (known, free, fresh, bad, create_member) s
          | inl fine ↦
              rw (known, free, fresh, fine, create_member)
                (record {
                  keys = (missing_row p.workspace_id p.user_id db.rows fresh, s.keys);
                  owners = unfold active_owners in let n = s.owners in omega arith;
                })
        ]
      ]
    ]
  ]

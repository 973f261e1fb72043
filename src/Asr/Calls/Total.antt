-- ===== src/Asr/Calls/Total.antt =====
-- How often the providers are called for a registry that was built by its operations, when every adapter
-- refuses a policy outside the limits of `ValidateProfileAgainst` (internal/asr/capability.go).
use voice_asset_server.Base.{
  ℕ, suc, ◌+◌, ◌*◌, ◌≤◌, ◌≡◌, refl, ap, Bool, true, false, not, ◌||◌, Option, none, some, List, [],
  ◌∷◌, arith, if◌then◌else◌, text_eq, length, Result, ok, err, All, Bool-cases, inl, inr,
}
use voice_asset_server.Base.Table.{find, modify, All-find}
use voice_asset_server.Text.{Bytes, trim_space}
use voice_asset_server.Asr.{
  Error, already_registered, not_registered, Profile, Provider, Target, Registry, new_registry,
  target_id, target_of, set, set_provider, activate, remove, without, route, targets_of,
  route_targets, active_targets, is_registered, is_in,
}
use voice_asset_server.Asr.Route.{Operation, sets, activates, removes, kept, after, after_all}
use voice_asset_server.Asr.Calls.{Outside, transcribe, transcribe_route}
use voice_asset_server.Asr.Calls.Bounds.{Counts, budget, transcribe-Ends}

abbrev Fits : Profile → Type 0
Fits p = (1 ≤ p.retry.max_attempts) × (p.retry.max_attempts ≤ 10)

-- An adapter that refuses a policy outside the limits.
abbrev pub Checks : Operation → Type 0
Checks (sets profile none replace) = Unit
Checks (sets profile (some provider) replace) = (p : Profile) → provider.validates p ≡ true → Fits p
Checks (activates ids) = Unit
Checks (removes id) = Unit

abbrev FitAll : List Target → Type 0
FitAll = All (λ t. Fits t.profile)

FitAll-modify :
    (id : Bytes) (t : Target) (targets : List Target)
    → Fits t.profile
    → FitAll targets
    → FitAll (modify target_id id (λ s. t) targets)
unfolding modify
FitAll-modify id t [] f a = tt
FitAll-modify id t (s ∷ targets) f a = elim (Bool-cases (text_eq s.profile.id id)) [
  | inl same ↦ rw same (f, FitAll-modify id t targets f a.1)
  | inr other ↦ rw other (a.0, FitAll-modify id t targets f a.1)
]

FitAll-without : (id : Bytes) (targets : List Target) → FitAll targets → FitAll (without id targets)
unfolding without
FitAll-without id [] a = tt
FitAll-without id (t ∷ targets) a = elim (Bool-cases (text_eq t.profile.id id)) [
  | inl same ↦ rw same (FitAll-without id targets a.1)
  | inr other ↦ rw other (a.0, FitAll-without id targets a.1)
]

abbrev KeepsFit : Registry → Result Error Registry → Type 0
KeepsFit g out = FitAll (kept g out).targets

set-FitAll :
    (g : Registry) (profile : Profile) (provider : Option Provider) (replace : Bool)
    → Checks (sets profile provider replace)
    → FitAll g.targets
    → KeepsFit g (set g profile provider replace)
unfolding set set_provider
set-FitAll g profile none replace c a = a
set-FitAll g profile (some provider) replace c a =
    elim (Bool-cases
      (text_eq (trim_space profile.id) [] || not (text_eq profile.provider_id provider.id))) [
        | inl bad ↦ rw (bad, set, set_provider) a
        | inr named ↦ elim (Bool-cases (provider.validates profile)) [
          | inr refused ↦ rw (named, refused, set, set_provider) a
          | inl valid ↦ elim (Bool-cases (is_registered profile.id g.targets)) [
            | inl known ↦ rw (named, valid, known, set, set_provider) (replaced replace valid)
            | inr fresh ↦ rw (named, valid, fresh, set, set_provider) (added replace valid)
          ]
        ]
      ]
  where
    replaced :
        (b : Bool)
        → provider.validates profile ≡ true
        → KeepsFit g (
            if b
            then ok (record g {
              targets = modify target_id profile.id (λ t. target_of profile provider) g.targets;
            })
            else err already_registered)
    replaced false valid = a
    replaced true valid =
        FitAll-modify profile.id (target_of profile provider) g.targets (c profile valid) a

    added :
        (b : Bool)
        → provider.validates profile ≡ true
        → KeepsFit g (
            if b
            then err not_registered
            else ok (record g { targets = target_of profile provider ∷ g.targets }))
    added true valid = a
    added false valid = (c profile valid, a)

activate-FitAll : (g : Registry) (ids : List Bytes) → FitAll g.targets → KeepsFit g (activate g ids)
unfolding activate
activate-FitAll g [] a = a
activate-FitAll g (id ∷ ids) a = by_route _ refl
  where
    by_route :
        (out : Result Error (List Bytes))
        → route g.targets [] (id ∷ ids) ≡ out
        → KeepsFit g (activate g (id ∷ ids))
    by_route (err e) h = rw (h, activate) a
    by_route (ok ns) h = rw (h, activate) a

remove-FitAll : (g : Registry) (id : Bytes) → FitAll g.targets → KeepsFit g (remove g id)
unfolding remove
remove-FitAll g id a = elim (Bool-cases (is_registered id g.targets)) [
  | inr unknown ↦ rw (unknown, remove) a
  | inl known ↦ elim (Bool-cases (is_in id g.active)) [
    | inl routed ↦ rw (known, routed, remove) a
    | inr idle ↦ rw (known, idle, remove) (FitAll-without id g.targets a)
  ]
]

after_all-FitAll :
    (g : Registry) (os : List Operation)
    → All Checks os
    → FitAll g.targets
    → FitAll (after_all g os).targets
unfolding after_all after
after_all-FitAll g [] c a = a
after_all-FitAll g (sets profile provider replace ∷ os) c a =
    after_all-FitAll (after g (sets profile provider replace)) os c.1
      (set-FitAll g profile provider replace c.0 a)
after_all-FitAll g (activates ids ∷ os) c a =
    after_all-FitAll (after g (activates ids)) os c.1 (activate-FitAll g ids a)
after_all-FitAll g (removes id ∷ os) c a =
    after_all-FitAll (after g (removes id)) os c.1 (remove-FitAll g id a)

-- Targets that fit, and how many there are.
abbrev FitsRoute : List Bytes → Result Error (List Target) → Type 0
FitsRoute ids (err e) = Unit
FitsRoute ids (ok ts) =
    All (λ t. 1 ≤ t.profile.retry.max_attempts) ts
    × (budget ts ≤ 10 * length ids)
    × (length ts ≡ length ids)

targets_of-FitsRoute :
    (targets : List Target) (ids : List Bytes)
    → FitAll targets
    → FitsRoute ids (targets_of targets ids)
unfolding targets_of
targets_of-FitsRoute targets [] a = (tt, omega arith, refl)
targets_of-FitsRoute targets (id ∷ ids) a =
    by_found _ refl (targets_of targets ids) (targets_of-FitsRoute targets ids a) refl
  where
    by_found :
        (found : Option Target)
        → find target_id id targets ≡ found
        → (rest : Result Error (List Target)) → FitsRoute ids rest
        → targets_of targets ids ≡ rest
        → FitsRoute (id ∷ ids) (targets_of targets (id ∷ ids))
    by_found none h rest r k = rw (h, targets_of) tt
    by_found (some t) h (err e) r k = rw (h, k, targets_of) tt
    by_found (some t) h (ok ts) r k =
        let f = All-find target_id (λ t. Fits t.profile) id targets t a h in
        rw (h, k, targets_of) ((f.0, r.0), omega (arith, f.1, r.1), ap suc r.2)

route_targets-FitsRoute :
    (targets : List Target) (ids : List Bytes)
    → FitAll targets
    → FitsRoute ids (route_targets targets ids)
unfolding route_targets
route_targets-FitsRoute targets [] a = tt
route_targets-FitsRoute targets (id ∷ ids) a = targets_of-FitsRoute targets (id ∷ ids) a

module _ {A W : Type 0} (o : Outside A W) (calls : W → ℕ) (c : Counts o calls) where
  total_lem :
      (g : Registry) (w : W)
      → FitAll g.targets
      → calls (transcribe o g w).1 ≤ 10 * length g.active + calls w
  unfolding transcribe active_targets transcribe_route
  total_lem g w a = by_targets _ refl (route_targets-FitsRoute g.targets g.active a)
    where
      by_targets :
          (out : Result Error (List Target))
          → active_targets g ≡ out
          → FitsRoute g.active out
          → calls (transcribe o g w).1 ≤ 10 * length g.active + calls w
      by_targets (err e) h r = rw (h, transcribe) (omega arith)
      by_targets (ok []) h r = rw (h, transcribe) (omega arith)
      by_targets (ok (t ∷ ts)) h r =
          let most = transcribe-Ends o calls c g t ts w h r.0 in omega (arith, r.1, most.0)

  -- However the registry was built, when every adapter refuses a policy without attempts or with more than
  -- ten, a transcription calls the providers at most ten times for each profile of the active route.
  pub transcribe-calls :
      (os : List Operation) (w : W)
      → All Checks os
      → let g = after_all new_registry os in
        calls (transcribe o g w).1 ≤ 10 * length g.active + calls w
  transcribe-calls os w checks =
      total_lem (after_all new_registry os) w (after_all-FitAll new_registry os checks tt)

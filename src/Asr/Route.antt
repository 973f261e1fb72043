-- ===== src/Asr/Route.antt =====
-- The active route of the registry names registered profiles only, each once.
use voice_asset_server.Base.{
  ◌≡◌, refl, ap, ◌∙◌, Bool, true, false, not, ◌||◌, Option, none, some, List, [], ◌∷◌, arith,
  if◌then◌else◌, text_eq, text_eq_sound, text_eq_comm, All, Result, ok, err, Bool-cases, inl, inr,
  map,
}
use voice_asset_server.Base.Table.{find, modify, find-key}
use voice_asset_server.Text.{Bytes, trim_space}
use voice_asset_server.Asr.{
  Error, no_active_profile, already_registered, not_registered, Profile, Provider, Target, Registry,
  new_registry, target_id, target_of, is_registered, set, set_provider, is_in, route, activate,
  without, remove, targets_of, route_targets, active_targets,
}

abbrev Registered : List Target → List Bytes → Type 0
Registered targets = All (λ id. is_registered id targets ≡ true)

abbrev pub Distinct : List Bytes → Type 0
Distinct [] = Unit
Distinct (id ∷ ids) = (is_in id ids ≡ false) × Distinct ids

-- A route that can be followed.
pub record IsRouted (g : Registry) : Type 0 where
  pub registered : Registered g.targets g.active
  pub distinct : Distinct g.active

pub data Operation : Type 0 where
  sets : Profile → Option Provider → Bool → Operation
  activates : List Bytes → Operation
  removes : Bytes → Operation

abbrev pub kept : Registry → Result Error Registry → Registry
kept g (err e) = g
kept g (ok h) = h

-- The registry after an operation; a refused one changes nothing.
unfoldable pub after : Registry → Operation → Registry
after g (sets profile provider replace) = kept g (set g profile provider replace)
after g (activates ids) = kept g (activate g ids)
after g (removes id) = kept g (remove g id)

unfoldable pub after_all : Registry → List Operation → Registry
unfolding after
after_all g [] = g
after_all g (o ∷ os) = after_all (after g o) os

Registered-weaken :
    (old new : List Target) (ids : List Bytes)
    → ((id : Bytes) → is_registered id old ≡ true → is_registered id new ≡ true)
    → Registered old ids
    → Registered new ids
Registered-weaken old new [] f a = tt
Registered-weaken old new (id ∷ ids) f a = (f id a.0, Registered-weaken old new ids f a.1)

-- Replacing the target of a profile leaves the same profiles.
is_registered-modify :
    (profile : Profile) (provider : Provider) (id : Bytes) (targets : List Target)
    → is_registered id (modify target_id profile.id (λ t. target_of profile provider) targets)
      ≡ is_registered id targets
unfolding is_registered modify
is_registered-modify profile provider id [] = refl
is_registered-modify profile provider id (t ∷ targets) =
    elim (Bool-cases (text_eq t.profile.id profile.id)) [
      | inl same ↦
          rw (same, is_registered-modify profile provider id targets, text_eq_sound _ _ same) refl
      | inr other ↦ rw (other, is_registered-modify profile provider id targets) refl
    ]

is_registered-without :
    (id gone : Bytes) (targets : List Target)
    → text_eq id gone ≡ false
    → is_registered id targets ≡ true
    → is_registered id (without gone targets) ≡ true
unfolding is_registered without
is_registered-without id gone [] d h = h
is_registered-without id gone (t ∷ targets) d h = elim (Bool-cases (text_eq t.profile.id gone)) [
  | inl same ↦
      let e : text_eq t.profile.id id ≡ false =
        ap (λ s. text_eq s id) (text_eq_sound _ _ same) ∙ text_eq_comm gone id ∙ d in
      rw same (is_registered-without id gone targets d (rw e at h))
  | inr other ↦ elim (Bool-cases (text_eq t.profile.id id)) [
    | inl here ↦ rw (other, here) refl
    | inr elsewhere ↦
        rw (other, elsewhere) (is_registered-without id gone targets d (rw elsewhere at h))
  ]
]

Registered-without :
    (gone : Bytes) (targets : List Target) (ids : List Bytes)
    → is_in gone ids ≡ false
    → Registered targets ids
    → Registered (without gone targets) ids
unfolding is_in
Registered-without gone targets [] h a = tt
Registered-without gone targets (id ∷ ids) h a = (
  is_registered-without id gone targets (ground arith) a.0,
  Registered-without gone targets ids (ground arith) a.1,
)

abbrev Avoids : List Bytes → List Bytes → Type 0
Avoids seen ids = All (λ s. is_in s ids ≡ false) seen

Avoids-nil : (seen : List Bytes) → Avoids seen []
unfolding is_in
Avoids-nil [] = tt
Avoids-nil (s ∷ seen) = (refl, Avoids-nil seen)

Avoids-cons :
    (id : Bytes) (seen ids : List Bytes)
    → is_in id seen ≡ false
    → Avoids seen ids
    → Avoids seen (id ∷ ids)
unfolding is_in
Avoids-cons id [] ids h a = tt
Avoids-cons id (s ∷ seen) ids h a =
    (rw (text_eq_comm id s) (ground (arith, a.0)), Avoids-cons id seen ids (ground arith) a.1)

-- What the loop of `Activate` gives.
abbrev Routes : List Target → List Bytes → Result Error (List Bytes) → Type 0
Routes targets seen (err e) = Unit
Routes targets seen (ok ids) = Registered targets ids × Distinct ids × Avoids seen ids

route-Routes :
    (targets : List Target) (seen ids : List Bytes) → Routes targets seen (route targets seen ids)
unfolding route
route-Routes targets seen [] = (tt, tt, Avoids-nil seen)
route-Routes targets seen (id ∷ ids) =
    from_rest _ (route-Routes targets (trim_space id ∷ seen) ids) refl
  where
    from_rest :
        (rest : Result Error (List Bytes))
        → Routes targets (trim_space id ∷ seen) rest
        → route targets (trim_space id ∷ seen) ids ≡ rest
        → Routes targets seen (route targets seen (id ∷ ids))
    from_rest rest r h = elim (Bool-cases (is_registered (trim_space id) targets)) [
      | inr unknown ↦ rw (unknown, route) tt
      | inl known ↦ elim (Bool-cases (is_in (trim_space id) seen)) [
        | inl twice ↦ rw (known, twice, route) tt
        | inr once ↦ rw (known, once, h, route) (by_rest rest r known once)
      ]
    ]
      where
        by_rest :
            (rest : Result Error (List Bytes))
            → Routes targets (trim_space id ∷ seen) rest
            → is_registered (trim_space id) targets ≡ true
            → is_in (trim_space id) seen ≡ false
            → Routes targets seen (elim rest [ err e ↦ err e | ok ns ↦ ok (trim_space id ∷ ns) ])
        by_rest (err e) r known once = tt
        by_rest (ok ns) (registered, distinct, avoids) known once = (
          (known, registered),
          (avoids.0, distinct),
          Avoids-cons (trim_space id) seen ns once avoids.1,
        )

abbrev Kept : Registry → Result Error Registry → Type 0
Kept g out = IsRouted (kept g out)

set-IsRouted :
    (g : Registry) (profile : Profile) (provider : Option Provider) (replace : Bool)
    → IsRouted g
    → Kept g (set g profile provider replace)
unfolding set set_provider
set-IsRouted g profile none replace s = s
set-IsRouted g profile (some provider) replace s =
    elim (Bool-cases
      (text_eq (trim_space profile.id) [] || not (text_eq profile.provider_id provider.id))) [
        | inl bad ↦ rw (bad, set, set_provider) s
        | inr named ↦ elim (Bool-cases (provider.validates profile)) [
          | inr refused ↦ rw (named, refused, set, set_provider) s
          | inl valid ↦ elim (Bool-cases (is_registered profile.id g.targets)) [
            | inl known ↦ rw (named, valid, known, set, set_provider) (replaced replace)
            | inr fresh ↦ rw (named, valid, fresh, set, set_provider) (added replace)
          ]
        ]
      ]
  where
    replaced :
        (b : Bool)
        → Kept g (
            if b
            then ok (record g {
              targets = modify target_id profile.id (λ t. target_of profile provider) g.targets;
            })
            else err already_registered)
    replaced false = s
    replaced true = record {
      registered =
          Registered-weaken g.targets
            (modify target_id profile.id (λ t. target_of profile provider) g.targets) g.active
            (λ id h. is_registered-modify profile provider id g.targets ∙ h) s.registered;
      distinct = s.distinct;
    }

    added :
        (b : Bool)
        → Kept g (
            if b
            then err not_registered
            else ok (record g { targets = target_of profile provider ∷ g.targets }))
    added true = s
    added false = record {
      registered =
          Registered-weaken g.targets (target_of profile provider ∷ g.targets) g.active
            (λ id h. unfold is_registered in rw h (or_true (text_eq profile.id id))) s.registered;
      distinct = s.distinct;
    }
      where
        or_true : (b : Bool) → (b || true) ≡ true
        or_true true = refl
        or_true false = refl

activate-IsRouted : (g : Registry) (ids : List Bytes) → IsRouted g → Kept g (activate g ids)
unfolding activate
activate-IsRouted g [] s = s
activate-IsRouted g (id ∷ ids) s = by_route _ (route-Routes g.targets [] (id ∷ ids)) refl
  where
    by_route :
        (out : Result Error (List Bytes))
        → Routes g.targets [] out
        → route g.targets [] (id ∷ ids) ≡ out
        → Kept g (activate g (id ∷ ids))
    by_route (err e) r h = rw (h, activate) s
    by_route (ok ns) (registered, distinct, avoids) h =
        rw (h, activate) (record { registered = registered; distinct = distinct })

remove-IsRouted : (g : Registry) (id : Bytes) → IsRouted g → Kept g (remove g id)
unfolding remove
remove-IsRouted g id s = elim (Bool-cases (is_registered id g.targets)) [
  | inr unknown ↦ rw (unknown, remove) s
  | inl known ↦ elim (Bool-cases (is_in id g.active)) [
    | inl routed ↦ rw (known, routed, remove) s
    | inr idle ↦
        rw (known, idle, remove)
          (record {
            registered = Registered-without id g.targets g.active idle s.registered;
            distinct = s.distinct;
          })
  ]
]

after-IsRouted : (g : Registry) (o : Operation) → IsRouted g → IsRouted (after g o)
unfolding after
after-IsRouted g (sets profile provider replace) s = set-IsRouted g profile provider replace s
after-IsRouted g (activates ids) s = activate-IsRouted g ids s
after-IsRouted g (removes id) s = remove-IsRouted g id s

after_all-IsRouted : (g : Registry) (os : List Operation) → IsRouted g → IsRouted (after_all g os)
unfolding after_all
after_all-IsRouted g [] s = s
after_all-IsRouted g (o ∷ os) s = after_all-IsRouted (after g o) os (after-IsRouted g o s)

find-is_registered :
    (id : Bytes) (targets : List Target)
    → is_registered id targets ≡ true
    → (t : Target) × (find target_id id targets ≡ some t)
unfolding is_registered find
find-is_registered id [] h = absurd (ground arith)
find-is_registered id (t ∷ targets) h = elim (Bool-cases (text_eq t.profile.id id)) [
  | inl here ↦ (t, rw here refl)
  | inr elsewhere ↦
      let rest = find-is_registered id targets (rw elsewhere at h) in
      (rest.0, rw elsewhere (rest.1))
]

-- The targets of the route, one for each of its profiles, in its order.
abbrev pub Targets : List Bytes → Result Error (List Target) → Type 0
Targets ids out = (ts : List Target) × (out ≡ ok ts) × (map target_id ts ≡ ids)

targets_of-Targets :
    (targets : List Target) (ids : List Bytes)
    → Registered targets ids
    → Targets ids (targets_of targets ids)
unfolding targets_of
targets_of-Targets targets [] a = ([], refl, refl)
targets_of-Targets targets (id ∷ ids) a =
    let here = find-is_registered id targets a.0 in
    let rest = targets_of-Targets targets ids a.1 in
    (
      here.0 ∷ rest.0,
      rw (here.1, rest.1, targets_of) refl,
      ap2 (find-key target_id id targets here.0 here.1) rest.2,
    )
  where
    ap2 : {s t : Bytes} {ss ts : List Bytes} → s ≡ t → ss ≡ ts → (s ∷ ss) ≡ (t ∷ ts)
    ap2 h k = cc

-- An empty route is refused, and any other has its targets.
abbrev pub Answers : List Bytes → Result Error (List Target) → Type 0
Answers [] out = out ≡ err no_active_profile
Answers (id ∷ ids) out = Targets (id ∷ ids) out

route_targets-Answers :
    (targets : List Target) (ids : List Bytes)
    → Registered targets ids
    → Answers ids (route_targets targets ids)
unfolding route_targets
route_targets-Answers targets [] a = refl
route_targets-Answers targets (id ∷ ids) a = targets_of-Targets targets (id ∷ ids) a

-- Whatever sequence of operations has built the registry, a transcription starts with the targets of the
-- active route, each profile of it once and in its order, and none of them is missing, if the route has a
-- profile; an empty route is refused.
pub active_targets-Targets :
    (os : List Operation)
    → let g = after_all new_registry os in Distinct g.active × Answers g.active (active_targets g)
unfolding active_targets
active_targets-Targets os =
    let s = after_all-IsRouted new_registry os (record { registered = tt; distinct = tt }) in
    let g = after_all new_registry os in
    (s.distinct, route_targets-Answers g.targets g.active s.registered)

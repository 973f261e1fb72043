-- ===== src/Organization/Requests.antt =====
-- The writes of internal/organization/service.go over the repository.
use voice_asset_server.Base.{
  Bool, not, ◌&&◌, ◌||◌, Option, none, some, List, [], ◌∷◌, ltb, if◌then◌else◌, text_eq, length,
  Result, ok, err,
}
use voice_asset_server.Base.Int.{ℤ}
use voice_asset_server.Base.Paging.{text_ltb}
use voice_asset_server.Text.{Bytes, codes, trim_space, between}
use voice_asset_server.Identifier.{new_uuid_from, normalize_uuid}
use voice_asset_server.Auth.{Principal, can, metadata_write}
use voice_asset_server.Organization.{
  Error, forbidden, invalid_input, internal, Annotation, Database,
}
use voice_asset_server.Organization.Tags.{TagMutationResult, is_among, mutate_tags}
use voice_asset_server.Organization.Annotations.{valid_annotation, create_annotation}
use voice_asset_server.Organization.Service.{Env}

pub record AnnotationCreateInput : Type 0 where
  pub kind : Bytes
  pub start_ms : ℤ
  pub end_ms : Option ℤ
  pub body : Bytes

-- `organizationActorType`
unfoldable pub organization_actor_type : Principal → Bytes
organization_actor_type p =
    if text_eq p.role (codes "agent") || text_eq p.credential_type (codes "api_key")
    then codes "agent"
    else codes "user"

-- The loop of `normalizeTagIDs`, with what it has seen.
pub distinct_ids : List Bytes → List Bytes → Option (List Bytes)
distinct_ids seen [] = some []
distinct_ids seen (v ∷ vs) = elim (normalize_uuid v) [
  | none ↦ none
  | some id ↦
      let rest = distinct_ids (id ∷ seen) vs in
      if is_among id seen then none else elim rest [ none ↦ none | some ids ↦ some (id ∷ ids) ]
]

insert_id : Bytes → List Bytes → List Bytes
insert_id id [] = id ∷ []
insert_id id (t ∷ ts) =
    let rest = insert_id id ts in if text_ltb t id then t ∷ rest else id ∷ t ∷ ts

-- slices.Sort
sort_ids : List Bytes → List Bytes
unfolding insert_id
sort_ids [] = []
sort_ids (id ∷ ids) = insert_id id (sort_ids ids)

-- `normalizeTagIDs`
unfoldable pub normalize_tag_ids : List Bytes → Option (List Bytes)
unfolding distinct_ids sort_ids
normalize_tag_ids values =
    if not (between 1 100 (length values))
    then none
    else elim (distinct_ids [] values) [ none ↦ none | some ids ↦ some (sort_ids ids) ]

abbrev valid_request_id : Bytes → Bool
valid_request_id s = text_eq (trim_space s) s && not (text_eq s []) && not (ltb 200 (length s))

mutate_valid :
    Bool
    → Database
    → Env
    → Option Bytes
    → Option (List Bytes)
    → Bytes
    → Result Error TagMutationResult × Database
mutate_valid add db env none ids request = (err invalid_input, db)
mutate_valid add db env (some asset) none request = (err invalid_input, db)
mutate_valid add db env (some asset) (some ids) request =
    if not (valid_request_id request)
    then (err invalid_input, db)
    else elim (new_uuid_from env.random) [
      | err e ↦ (err internal, db)
      | ok (audit, rest) ↦ mutate_tags add db (record {
        audit_id = audit;
        workspace_id = env.principal.workspace_id;
        asset_id = asset;
        actor_id = env.principal.user_id;
        actor_type = organization_actor_type env.principal;
        credential_id = env.principal.credential_id;
        request_id = request;
        tag_ids = ids;
      })
    ]

-- `mutateTags`: `AddTags` and `RemoveTags`.
unfoldable pub change_tags :
    Bool → Database → Env → Bytes → List Bytes → Bytes → Result Error TagMutationResult × Database
unfolding mutate_valid
change_tags add db env asset_text tag_ids request =
    if not (can env.principal metadata_write)
    then (err forbidden, db)
    else mutate_valid add db env (normalize_uuid asset_text) (normalize_tag_ids tag_ids) request

create_with_ids :
    Database → Env → Bytes → AnnotationCreateInput → Bytes → Result Error Annotation × Database
create_with_ids db env asset input request = elim (new_uuid_from env.random) [
  | err e ↦ (err internal, db)
  | ok (id, rest) ↦ elim (new_uuid_from rest) [
    | err e ↦ (err internal, db)
    | ok (audit, rest') ↦
        create_annotation db
          (record {
            id = id;
            audit_id = audit;
            workspace_id = env.principal.workspace_id;
            asset_id = asset;
            actor_id = env.principal.user_id;
            actor_type = organization_actor_type env.principal;
            credential_id = env.principal.credential_id;
            request_id = request;
            kind = input.kind;
            body = input.body;
            start_ms = input.start_ms;
            end_ms = input.end_ms;
          })
          env.clock
  ]
]

-- `CreateAnnotation`
unfoldable pub annotate :
    Database → Env → Bytes → AnnotationCreateInput → Bytes → Result Error Annotation × Database
unfolding create_with_ids
annotate db env asset_text raw request =
    let kind = trim_space raw.kind in
    let body = trim_space raw.body in
    let input = record raw { kind = kind; body = body } in
    if not (can env.principal metadata_write)
    then (err forbidden, db)
    else elim (normalize_uuid asset_text) [
      | none ↦ (err invalid_input, db)
      | some asset ↦
          if not (valid_annotation kind raw.start_ms raw.end_ms body)
            || not (valid_request_id request)
          then (err invalid_input, db)
          else create_with_ids db env asset input request
    ]

-- ===== src/Organization/Annotations.antt =====
-- `CreateAnnotation` of internal/organization/postgres_repository.go, and the check of
-- internal/organization/service.go before it.
use voice_asset_server.Base.{
  ℕ, Bool, true, false, not, ◌&&◌, ◌||◌, Option, none, some, List, [], ◌∷◌, leb, ◌==◌,
  if◌then◌else◌, text_eq, all, Result, ok, err,
}
use voice_asset_server.Base.Int.{ℤ, pos, leb_ℤ, ltb_ℤ}
use voice_asset_server.Text.{Bytes, codes, chunks, rune_count, is_control}
use voice_asset_server.Organization.{
  Error, not_found, internal, Time, Annotation, NoteRow, Database, has_asset,
}
use voice_asset_server.Organization.Tags.{is_member, has_audit}

pub record AnnotationCreateParams : Type 0 where
  pub id : Bytes
  pub audit_id : Bytes
  pub workspace_id : Bytes
  pub asset_id : Bytes
  pub actor_id : Bytes
  pub actor_type : Bytes
  pub credential_id : Bytes
  pub request_id : Bytes
  pub kind : Bytes
  pub body : Bytes
  pub start_ms : ℤ
  pub end_ms : Option ℤ

abbrev is_known_kind : Bytes → Bool
is_known_kind kind = text_eq kind (codes "bookmark") || text_eq kind (codes "note")

abbrev ends_after : ℤ → Option ℤ → Bool
ends_after start none = true
ends_after start (some end) = ltb_ℤ start end

abbrev is_plain : ℕ → Bool
is_plain r = not (is_control r) || r == 0x0a || r == 0x0d || r == 0x09

-- `validAnnotation`, of a kind, the two times and a body
unfoldable pub valid_annotation : Bytes → ℤ → Option ℤ → Bytes → Bool
valid_annotation kind start end body =
    is_known_kind kind
    && leb_ℤ (pos 0) start
    && ends_after start end
    && not (text_eq kind (codes "note") && text_eq body [])
    && leb (rune_count body) 4000
    && all (λ c. is_plain c.rune) (chunks body)

-- The checks on the columns of annotations.
unfoldable pub columns_fit : AnnotationCreateParams → Bool
columns_fit p =
    is_known_kind p.kind
    && leb_ℤ (pos 0) p.start_ms
    && ends_after p.start_ms p.end_ms
    && leb (rune_count p.body) 4000

unfoldable pub note_exists : Bytes → List NoteRow → Bool
note_exists id [] = false
note_exists id (r ∷ rows) = text_eq r.annotation.id id || note_exists id rows

-- The row that is written, with the database's clock.
abbrev pub annotation_of : AnnotationCreateParams → Time → Annotation
annotation_of p clock = record {
  id = p.id;
  workspace_id = p.workspace_id;
  asset_id = p.asset_id;
  kind = p.kind;
  start_ms = p.start_ms;
  end_ms = p.end_ms;
  body = p.body;
  version = 1;
  created_by = p.actor_id;
  created_at = clock;
  updated_at = clock;
}

-- `CreateAnnotation` of the repository
unfoldable pub create_annotation :
    Database → AnnotationCreateParams → Time → Result Error Annotation × Database
create_annotation db p clock =
    if not (has_asset db p.workspace_id p.asset_id)
    then (err not_found, db)
    else if note_exists p.id db.annotations
        || not (columns_fit p)
        || not (is_member p.workspace_id p.actor_id db.memberships)
        || has_audit p.audit_id db.audits
    then (err internal, db)
    else (
      ok (annotation_of p clock),
      record db {
        annotations =
            (record { annotation = annotation_of p clock; is_deleted = false }) ∷ db.annotations;
        audits =
            (record {
              id = p.audit_id;
              actor_id = p.actor_id;
              actor_type = p.actor_type;
              action = codes "annotation.created";
              target_id = p.id;
              request_id = p.request_id;
            })
            ∷ db.audits;
      },
    )

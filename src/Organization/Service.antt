-- ===== src/Organization/Service.antt =====
-- The reads of internal/organization/service.go over the repository. How a cursor is encoded, JSON in base64, and the
-- digest of what it is bound to are parameters.
use voice_asset_server.Base.{
  ℕ, suc, not, ◌||◌, Option, none, some, List, [], ltb, leb, ◌==◌, if◌then◌else◌, text_eq, length,
  Result, ok, err,
}
use voice_asset_server.Base.Int.{ℤ, pos, negsuc}
use voice_asset_server.Base.Paging.{Key, answer}
use voice_asset_server.Text.{Bytes, codes, trim_space}
use voice_asset_server.Identifier.{normalize_uuid}
use voice_asset_server.Auth.{Principal, can, assets_read}
use voice_asset_server.Organization.{
  Error, forbidden, invalid_input, not_found, Time, Collection, Tag, Annotation, ProcessingStatus,
  Database,
}
use voice_asset_server.Organization.Reads.{
  collection_key, tag_key, annotation_key, find_collection, list_collections, list_tags,
  list_asset_tags, list_annotations, processing_status,
}

-- A decoded cursor: its kind, the digest of its binding, the time and the identifier.
pub record ListCursor : Type 0 where
  pub kind : Bytes
  pub binding_hash : Bytes
  pub created_at : Time
  pub id : Bytes

pub record Cursors : Type 0 where
  pub write : ListCursor → Bytes
  pub read : Bytes → Option ListCursor
  pub digest : Bytes → Bytes

-- What a request reads of the world.
pub record Env : Type 0 where
  pub principal : Principal
  pub random : Bytes
  pub clock : Time
  pub cursors : Cursors

pub record ListInput : Type 0 where
  pub limit : ℤ
  pub cursor : Bytes

-- The limit of `normalizeListInput`
abbrev list_limit : ℤ → Option ℕ
list_limit (negsuc n) = none
list_limit (pos n) = if n == 0 then some 50 else if leb n 100 then some n else none

start_of : Cursors → Bytes → Bytes → Option ListCursor → Option Key
start_of cursors kind binding none = none
start_of cursors kind binding (some c) =
    if not (text_eq c.kind kind) || not (text_eq c.binding_hash (cursors.digest binding))
    then none
    else elim (normalize_uuid c.id) [ none ↦ none | some id ↦ some (c.created_at, id) ]

-- `decodeCursor`: where the page starts.
unfoldable pub decode_cursor : Cursors → Bytes → Bytes → Bytes → Option (Option Key)
unfolding start_of
decode_cursor cursors kind binding value =
    if text_eq value []
    then some none
    else if ltb 1024 (length value) || not (text_eq (trim_space value) value)
    then none
    else elim (start_of cursors kind binding (cursors.read value)) [
      | none ↦ none
      | some k ↦ some (some k)
    ]

-- `normalizeListInput`
unfoldable pub normalize_list_input : Cursors → ListInput → Bytes → Bytes → Option (ℕ × Option Key)
unfolding decode_cursor
normalize_list_input cursors input kind binding = elim (list_limit input.limit) [
  | none ↦ none
  | some limit ↦ elim (decode_cursor cursors kind binding input.cursor) [
    | none ↦ none
    | some from ↦ some (limit, from)
  ]
]

-- `encodeCursor`
abbrev encode_cursor : Cursors → Bytes → Bytes → Key → Bytes
encode_cursor cursors kind binding k =
    cursors.write
      (record { kind = kind; binding_hash = cursors.digest binding; created_at = k.0; id = k.1 })

with_cursor {ℓ} :
    {R : Type ℓ} → Cursors → Bytes → Bytes → List R × Option Key → List R × Option Bytes
with_cursor cursors kind binding (items, none) = (items, none)
with_cursor cursors kind binding (items, some k) =
    (items, some (encode_cursor cursors kind binding k))

-- A page of what is kept under a binding: one row more than the limit is asked for.
paged :
    {R : Type 0}
    → (R → Key)
    → Env
    → ListInput
    → Bytes
    → Bytes
    → (ℕ → Option Key → Result Error (List R))
    → Result Error (List R × Option Bytes)
unfolding normalize_list_input with_cursor
paged key env input kind binding query =
    elim (normalize_list_input env.cursors input kind binding) [
      | none ↦ err invalid_input
      | some (limit, from) ↦ elim (query (suc limit) from) [
        | err e ↦ err e
        | ok rows ↦ ok (with_cursor env.cursors kind binding (answer key limit rows))
      ]
    ]

-- `ListCollections`
unfoldable pub read_collections :
    Database → Env → ListInput → Result Error (List Collection × Option Bytes)
unfolding paged
read_collections db env input =
    let workspace = env.principal.workspace_id in
    if not (can env.principal assets_read)
    then err forbidden
    else paged collection_key env input (codes "collections") workspace
        (λ limit from. ok (list_collections db workspace limit from))

-- `ListTags`
unfoldable pub read_tags : Database → Env → ListInput → Result Error (List Tag × Option Bytes)
unfolding paged
read_tags db env input =
    let workspace = env.principal.workspace_id in
    if not (can env.principal assets_read)
    then err forbidden
    else paged tag_key env input (codes "tags") workspace
        (λ limit from. ok (list_tags db workspace limit from))

-- `ListAssetTags`
unfoldable pub read_asset_tags :
    Database → Env → Bytes → ListInput → Result Error (List Tag × Option Bytes)
unfolding paged
read_asset_tags db env asset_text input =
    if not (can env.principal assets_read)
    then err forbidden
    else elim (normalize_uuid asset_text) [
      | none ↦ err not_found
      | some asset ↦
          paged tag_key env input (codes "asset_tags") asset
            (list_asset_tags db env.principal.workspace_id asset)
    ]

-- `ListAnnotations`
unfoldable pub read_annotations :
    Database → Env → Bytes → ListInput → Result Error (List Annotation × Option Bytes)
unfolding paged
read_annotations db env asset_text input =
    if not (can env.principal assets_read)
    then err forbidden
    else elim (normalize_uuid asset_text) [
      | none ↦ err not_found
      | some asset ↦
          paged annotation_key env input (codes "annotations") asset
            (list_annotations db env.principal.workspace_id asset)
    ]

-- `GetCollection`
unfoldable pub get_collection : Database → Env → Bytes → Result Error Collection
get_collection db env id_text =
    if not (can env.principal assets_read) then err forbidden else elim (normalize_uuid id_text) [
      | none ↦ err not_found
      | some id ↦ find_collection db env.principal.workspace_id id
    ]

-- `GetProcessingStatus`
unfoldable pub get_processing_status : Database → Env → Bytes → Result Error ProcessingStatus
get_processing_status db env asset_text =
    if not (can env.principal assets_read)
    then err forbidden
    else elim (normalize_uuid asset_text) [
      | none ↦ err not_found
      | some asset ↦ processing_status db env.principal.workspace_id asset
    ]

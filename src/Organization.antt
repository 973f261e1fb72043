-- ===== src/Organization.antt =====
-- Collections, tags, annotations and the processing of assets: the data of
-- internal/organization/service.go, and the tables of internal/organization/postgres_repository.go. Times are in microseconds.
pub mod Reads
pub mod Tags
pub mod Annotations
pub mod Service
pub mod Requests
mod Tests
use voice_asset_server.Base.{
  ℕ, zero, suc, ◌+◌, Bool, true, false, not, ◌&&◌, ◌||◌, Option, none, some, List, [], ◌∷◌, ltb,
  if◌then◌else◌, text_eq, take, Result, ok, err,
}
use voice_asset_server.Base.Int.{ℤ}
use voice_asset_server.Base.Paging.{Key, page, newest_first}
use voice_asset_server.Text.{Bytes, codes}

-- `internal` stands for every error that wraps none of the others.
pub data Error : Type 0 where
  forbidden invalid_input not_found internal : Error

abbrev pub Time : Type 0
Time = ℕ

pub record Collection : Type 0 where
  pub id : Bytes
  pub workspace_id : Bytes
  pub name : Bytes
  pub description : Bytes
  pub version : ℕ
  pub asset_count : ℕ
  pub created_at : Time
  pub updated_at : Time

pub record Tag : Type 0 where
  pub id : Bytes
  pub workspace_id : Bytes
  pub name : Bytes
  pub color : Option Bytes
  pub asset_count : ℕ
  pub created_at : Time

pub record Annotation : Type 0 where
  pub id : Bytes
  pub workspace_id : Bytes
  pub asset_id : Bytes
  pub kind : Bytes
  pub start_ms : ℤ
  pub end_ms : Option ℤ
  pub body : Bytes
  pub version : ℕ
  pub created_by : Bytes
  pub created_at : Time
  pub updated_at : Time

pub record ProcessingJob : Type 0 where
  pub id : Bytes
  pub kind : Bytes
  pub state : Bytes
  pub attempts : ℕ
  pub max_attempts : ℕ
  pub last_error_code : Option Bytes
  pub result_revision_id : Option Bytes
  pub created_at : Time
  pub updated_at : Time

pub record ProcessingStatus : Type 0 where
  pub asset_id : Bytes
  pub asset_status : Bytes
  pub active : Bool
  pub jobs : List ProcessingJob
  pub updated_at : Time

-- A row of the table assets.
pub record Asset : Type 0 where
  pub id : Bytes
  pub workspace_id : Bytes
  pub collection_id : Option Bytes
  pub status : Bytes
  pub updated_at : Time
  pub is_deleted : Bool

-- A row of the table asset_tags.
pub record Assignment : Type 0 where
  pub workspace_id : Bytes
  pub asset_id : Bytes
  pub tag_id : Bytes
  pub created_by : Bytes

pub record NoteRow : Type 0 where
  pub annotation : Annotation
  pub is_deleted : Bool

pub record JobRow : Type 0 where
  pub workspace_id : Bytes
  pub asset_id : Option Bytes
  pub job : ProcessingJob

pub record Audit : Type 0 where
  pub id : Bytes
  pub actor_id : Bytes
  pub actor_type : Bytes
  pub action : Bytes
  pub target_id : Bytes
  pub request_id : Bytes

-- The rows of collections and of tags have no count yet: it is 0. A membership is a workspace and a user.
pub record Database : Type 0 where
  pub assets : List Asset
  pub collections : List Collection
  pub tags : List Tag
  pub assignments : List Assignment
  pub annotations : List NoteRow
  pub jobs : List JobRow
  pub memberships : List (Bytes × Bytes)
  pub audits : List Audit

-- SELECT ... FROM assets WHERE workspace_id = $1 AND id = $2 AND deleted_at IS NULL
abbrev is_live : Bytes → Bytes → Asset → Bool
is_live workspace id a = text_eq a.workspace_id workspace && text_eq a.id id && not a.is_deleted

unfoldable pub find_live_asset : Bytes → Bytes → List Asset → Option Asset
find_live_asset workspace id [] = none
find_live_asset workspace id (a ∷ assets) =
    if is_live workspace id a then some a else find_live_asset workspace id assets

abbrev pub is_some {ℓ} : {A : Type ℓ} → Option A → Bool
is_some none = false
is_some (some a) = true

-- SELECT EXISTS (...)
abbrev pub has_asset : Database → Bytes → Bytes → Bool
has_asset db workspace id = is_some (find_live_asset workspace id db.assets)

unfoldable pub count {ℓ} : {A : Type ℓ} → (A → Bool) → List A → ℕ
count test [] = 0
count test (x ∷ xs) = (if test x then 1 else 0) + count test xs

unfoldable pub select {ℓ} : {A : Type ℓ} → (A → Bool) → List A → List A
select test [] = []
select test (x ∷ xs) = let rest = select test xs in if test x then x ∷ rest else rest

-- The primary key of asset_tags.
abbrev pub is_row : Bytes → Bytes → Bytes → Assignment → Bool
is_row workspace asset tag s =
    text_eq s.workspace_id workspace && text_eq s.asset_id asset && text_eq s.tag_id tag

unfoldable pub is_assigned : Bytes → Bytes → Bytes → List Assignment → Bool
is_assigned workspace asset tag [] = false
is_assigned workspace asset tag (s ∷ rows) =
    is_row workspace asset tag s || is_assigned workspace asset tag rows

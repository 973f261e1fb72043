-- ===== src/Organization/Reads.antt =====
-- The reads of internal/organization/postgres_repository.go, over the tables that they join.
use voice_asset_server.Base.{
  ℕ, Bool, false, not, ◌&&◌, ◌||◌, Option, none, some, List, [], ◌∷◌, ltb, if◌then◌else◌, text_eq,
  take, Result, ok, err,
}
use voice_asset_server.Base.Paging.{Key, page, newest_first}
use voice_asset_server.Text.{Bytes, codes}
use voice_asset_server.Organization.{
  Error, not_found, Collection, Tag, Annotation, ProcessingJob, ProcessingStatus, Database,
  find_live_asset, has_asset, count, select, is_assigned,
}

unfoldable pub map_rows {ℓ κ} : {A : Type ℓ} {B : Type κ} → (A → B) → List A → List B
map_rows f [] = []
map_rows f (x ∷ xs) = f x ∷ map_rows f xs

abbrev option_is : Option Bytes → Bytes → Bool
option_is none s = false
option_is (some t) s = text_eq t s

-- count(asset.id) FILTER (WHERE asset.deleted_at IS NULL), of the assets in the collection
abbrev counted_collection : Database → Collection → Collection
counted_collection db c = record c {
  asset_count =
      count
        (λ a.
          text_eq a.workspace_id c.workspace_id
          && option_is a.collection_id c.id
          && not a.is_deleted)
        db.assets;
}

-- The same of the assets that have the tag.
abbrev counted_tag : Database → Tag → Tag
counted_tag db t = record t {
  asset_count =
      count
        (λ s.
          text_eq s.workspace_id t.workspace_id
          && text_eq s.tag_id t.id
          && has_asset db s.workspace_id s.asset_id)
        db.assignments;
}

abbrev pub collection_key : Collection → Key
collection_key c = (c.created_at, c.id)

abbrev pub tag_key : Tag → Key
tag_key t = (t.created_at, t.id)

abbrev pub annotation_key : Annotation → Key
annotation_key a = (a.created_at, a.id)

first_of : List Collection → Result Error Collection
first_of [] = err not_found
first_of (c ∷ cs) = ok c

-- `GetCollection` of the repository
unfoldable pub find_collection : Database → Bytes → Bytes → Result Error Collection
unfolding first_of
find_collection db workspace id = first_of (
    map_rows (counted_collection db)
      (select (λ c. text_eq c.workspace_id workspace && text_eq c.id id) db.collections))

-- `ListCollections` of the repository
unfoldable pub list_collections : Database → Bytes → ℕ → Option Key → List Collection
list_collections db workspace limit from = page collection_key limit from (
    map_rows (counted_collection db)
      (select (λ c. text_eq c.workspace_id workspace) db.collections))

-- `ListTags` of the repository
unfoldable pub list_tags : Database → Bytes → ℕ → Option Key → List Tag
list_tags db workspace limit from =
    page tag_key limit from
      (map_rows (counted_tag db) (select (λ t. text_eq t.workspace_id workspace) db.tags))

-- `ListAssetTags` of the repository: an assignment joins one tag, and a tag one assignment.
unfoldable pub list_asset_tags : Database → Bytes → Bytes → ℕ → Option Key → Result Error (List Tag)
list_asset_tags db workspace asset limit from =
    if not (has_asset db workspace asset)
    then err not_found
    else ok (
        page tag_key limit from (
          map_rows (counted_tag db) (
            select
              (λ t.
                text_eq t.workspace_id workspace && is_assigned workspace asset t.id db.assignments)
              db.tags)))

-- `ListAnnotations` of the repository
unfoldable pub list_annotations :
    Database → Bytes → Bytes → ℕ → Option Key → Result Error (List Annotation)
list_annotations db workspace asset limit from =
    if not (has_asset db workspace asset)
    then err not_found
    else ok (
        page annotation_key limit from (
          map_rows (λ r. r.annotation)
            (select
              (λ r.
                text_eq r.annotation.workspace_id workspace
                && text_eq r.annotation.asset_id asset
                && not r.is_deleted)
              db.annotations)))

abbrev job_key : ProcessingJob → Key
job_key j = (j.created_at, j.id)

abbrev is_active_job : ProcessingJob → Bool
is_active_job j =
    text_eq j.state (codes "queued")
    || text_eq j.state (codes "running")
    || text_eq j.state (codes "retry_wait")

-- The loop over the jobs.
unfoldable pub with_jobs : List ProcessingJob → ProcessingStatus → ProcessingStatus
with_jobs [] s = s
with_jobs (j ∷ jobs) s =
    let s' = record s {
      active = is_active_job j || s.active;
      updated_at = if ltb s.updated_at j.updated_at then j.updated_at else s.updated_at;
    } in
    let rest = with_jobs jobs s' in record rest { jobs = j ∷ rest.jobs }

-- `GetProcessingStatus` of the repository
unfoldable pub processing_status : Database → Bytes → Bytes → Result Error ProcessingStatus
processing_status db workspace asset = elim (find_live_asset workspace asset db.assets) [
  | none ↦ err not_found
  | some a ↦ ok (
      with_jobs
        (take 20 (
          newest_first job_key (
            map_rows (λ r. r.job)
              (select (λ r. text_eq r.workspace_id workspace && option_is r.asset_id asset)
                db.jobs))))
        (record {
          asset_id = asset;
          asset_status = a.status;
          active = false;
          jobs = [];
          updated_at = a.updated_at;
        }))
]

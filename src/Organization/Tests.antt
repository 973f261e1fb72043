-- ===== src/Organization/Tests.antt =====
-- The theorems on tags at a concrete input.
use voice_asset_server.Base.{◌≡◌, refl, none, [], ◌∷◌, true, false, ok, text_eq}
use voice_asset_server.Text.{Bytes, codes}
use voice_asset_server.Organization.{Tag, Database, find_live_asset, count, is_assigned}
use voice_asset_server.Organization.Tags.{
  TagMutationParams, is_among, is_member, insert_tags, write, known_tags, has_audit, mutate_tags,
}
use voice_asset_server.Organization.Tags.Assigned.{Mutates, mutate_tags-Mutates}
use voice_asset_server.Organization.Tags.Again.{Unchanged, renewed, mutate_tags-again}

abbrev tag : Bytes → Tag
tag id = record {
  id = id;
  workspace_id = codes "w";
  name = id;
  color = none;
  asset_count = 0;
  created_at = 1;
}

-- An asset that has the tag t1 of two.
abbrev db : Database
db = record {
  assets =
      (record {
        id = codes "a";
        workspace_id = codes "w";
        collection_id = none;
        status = codes "ready";
        updated_at = 2;
        is_deleted = false;
      })
      ∷ [];
  collections = [];
  tags = tag (codes "t1") ∷ tag (codes "t2") ∷ [];
  assignments =
      (record {
        workspace_id = codes "w";
        asset_id = codes "a";
        tag_id = codes "t1";
        created_by = codes "u";
      })
      ∷ [];
  annotations = [];
  jobs = [];
  memberships = (codes "w", codes "u") ∷ [];
  audits = [];
}

abbrev params : TagMutationParams
params = record {
  audit_id = codes "x";
  workspace_id = codes "w";
  asset_id = codes "a";
  actor_id = codes "u";
  actor_type = codes "user";
  credential_id = [];
  request_id = codes "r";
  tag_ids = codes "t1" ∷ codes "t2" ∷ [];
}

mutate_tags-Mutates_example : Mutates true db params (mutate_tags true db params)
mutate_tags-Mutates_example = mutate_tags-Mutates true db params

-- One of the two tags is new.
one_added : mutate_tags true db params ≡ (
  ok (record { asset_id = codes "a"; tag_ids = params.tag_ids; changed_count = 1 }),
  (mutate_tags true db params).1,
)
unfolding mutate_tags find_live_asset known_tags count is_among write insert_tags is_assigned
    is_member text_eq codes has_audit
one_added = refl

-- The same tags once more, by somebody else.
abbrev other_params : TagMutationParams
other_params = record params { audit_id = codes "y"; actor_id = codes "v"; request_id = codes "q" }

audit_is_new : has_audit other_params.audit_id (mutate_tags true db params).1.audits ≡ false
unfolding has_audit mutate_tags find_live_asset known_tags count is_among write insert_tags
    is_assigned is_member text_eq codes
audit_is_new = refl

mutate_tags-again_example :
    Unchanged
      (mutate_tags true db params).1
      (record { asset_id = codes "a"; tag_ids = params.tag_ids; changed_count = 1 })
      (mutate_tags true (mutate_tags true db params).1 (renewed params other_params))
mutate_tags-again_example =
    mutate_tags-again true db (mutate_tags true db params).1 params other_params
      (record { asset_id = codes "a"; tag_ids = params.tag_ids; changed_count = 1 }) one_added
      audit_is_new

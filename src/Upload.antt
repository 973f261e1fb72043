-- ===== src/Upload.antt =====
-- The parts of an upload (internal/upload/service.go): their sizes, and the list that completes one.
pub mod Sizes
mod Tests
use voice_asset_server.Base.{
  ℕ, zero, suc, ◌+◌, ◌*◌, Bool, true, false, not, ◌&&◌, ◌||◌, Option, none, some, List, [], ◌∷◌,
  ltb, leb, ◌==◌, if◌then◌else◌, length, all, text_eq, Result, ok, err,
}
use voice_asset_server.Base.Int.{
  ℤ, pos, ◌+ℤ◌, ◌-ℤ◌, ◌*ℤ◌, ltb_ℤ, leb_ℤ, eqb_ℤ, wrap64, quot, pos_part,
}
use voice_asset_server.Text.{Bytes, codes, chunks, is_control, rune_count, matches_sha256}
use voice_asset_server.Identifier.{is_uuid}

-- `ErrIncomplete`
pub data Error : Type 0 where
  incomplete : Error

pub data State : Type 0 where
  active assembling completed cancelled failed : State

-- `Session`; the fields that these functions read.
pub record Session : Type 0 where
  pub state : State
  pub expected_size : ℤ
  pub part_size : ℤ
  pub expires_at : ℕ

pub record Part : Type 0 where
  pub number : ℤ
  pub size_bytes : ℤ
  pub sha256 : Bytes
  pub storage_key : Bytes

-- `storage.PartRef`
pub record PartRef : Type 0 where
  pub number : ℤ
  pub key : Bytes
  pub size : ℤ
  pub sha256 : Bytes

pub record CreateInput : Type 0 where
  pub asset_id : Bytes
  pub filename : Bytes
  pub mime_type : Bytes
  pub size_bytes : ℤ
  pub sha256 : Bytes

-- (total + part - 1) / part, for a positive size of the parts.
unfoldable pub part_count : ℤ → ℤ → ℤ
part_count total part = quot (wrap64 (total +ℤ part -ℤ pos 1)) (pos_part part)

-- `expectedPartSize`
unfoldable pub expected_part_size : ℤ → ℤ → ℤ → Option ℤ
expected_part_size total part number =
    if leb_ℤ total (pos 0) || leb_ℤ part (pos 0) || leb_ℤ number (pos 0)
    then none
    else if ltb_ℤ (part_count total part) number
    then none
    else if ltb_ℤ number (part_count total part)
    then some part
    else some (wrap64 (total -ℤ (part_count total part -ℤ pos 1) *ℤ part))

abbrev size_matches : ℤ → Option ℤ → Bool
size_matches size none = false
size_matches size (some expected) = eqb_ℤ size expected

abbrev pub part_fits : Session → ℤ → Part → Bool
part_fits s number part =
    size_matches part.size_bytes (expected_part_size s.expected_size s.part_size number)
    && eqb_ℤ part.number number
    && not (text_eq part.storage_key [])
    && matches_sha256 part.sha256

abbrev pub part_ref : Part → PartRef
part_ref part = record {
  number = part.number;
  key = part.storage_key;
  size = part.size_bytes;
  sha256 = part.sha256;
}

abbrev add_ref : Part → Result Error (List PartRef) → Result Error (List PartRef)
add_ref part (ok refs) = ok (part_ref part ∷ refs)
add_ref part (err e) = err e

-- The loop, from this index on.
refs_from : Session → ℕ → List Part → Result Error (List PartRef)
refs_from s index [] = ok []
refs_from s index (part ∷ parts) =
    let rest = refs_from s (suc index) parts in
    if part_fits s (pos (suc index)) part then add_ref part rest else err incomplete

-- `completionPartRefs`
unfoldable pub completion_part_refs : Session → List Part → Result Error (List PartRef)
unfolding refs_from
completion_part_refs s parts =
    if leb_ℤ s.expected_size (pos 0) || leb_ℤ s.part_size (pos 0)
    then err incomplete
    else if not (eqb_ℤ (pos (length parts)) (part_count s.expected_size s.part_size))
    then err incomplete
    else refs_from s 0 parts

abbrev is_over : State → Bool
is_over failed = true
is_over cancelled = true
is_over completed = true
is_over _ = false

-- `shouldDeleteParts`
unfoldable pub should_delete_parts : Session → ℕ → Bool
should_delete_parts s now =
    is_over s.state || (not (s.expires_at == 0) && not (ltb now s.expires_at))

-- `validDeclaration`
unfoldable pub valid_declaration : CreateInput → Bool
valid_declaration d =
    is_uuid d.asset_id
    && leb 1 (rune_count d.filename)
    && leb (rune_count d.filename) 255
    && all (λ c. not (c == b'/' || c == 92)) d.filename
    && leb_ℤ (pos 44) d.size_bytes
    && leb_ℤ d.size_bytes (pos (512 * 1024 * 1024))
    && (text_eq d.mime_type (codes "audio/wav")
        || text_eq d.mime_type (codes "audio/x-wav")
        || text_eq d.mime_type (codes "audio/mp4"))
    && matches_sha256 d.sha256
    && all (λ c. not (is_control c.rune)) (chunks d.filename)

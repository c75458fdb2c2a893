-- ===== src/MemoEditor/Service/UpdateMask.antt =====
-- The update of a memo: the mask of the fields that the editor changed, and the values of these
-- (`buildUpdateMask` of MemoEditor/services/memoService.ts). lodash's `isEqual` and the conversions of
-- protobuf timestamps are parameters.
use kube_memos_eks.MemoEditor.State.{
  Timestamp, Visibility, Attachment, MemoRelation, Location, EditorState,
}
use kube_memos_eks.Base.{
  ◌==◌, if◌then◌else◌, Eq, any, Text, ℕ, String, Bool, ◌||◌, Option, none, some, List, [], ◌∷◌,
  ◌++◌, map,
}

-- `Memo` of types/proto/api/v1/memo_service_pb.ts, with the fields that the editor reads.
pub record Memo : Type 0 where
  pub name : String
  pub content : Text
  pub visibility : Visibility
  pub attachments : List Attachment
  pub relations : List MemoRelation
  pub location : Option Location
  pub create_time : Option Timestamp
  pub update_time : Option Timestamp

-- `Partial<Memo>`: `none` is an absent key.
pub record MemoPatch : Type 0 where
  pub name : Option String
  pub content : Option Text
  pub visibility : Option Visibility
  pub attachments : Option (List Attachment)
  pub relations : Option (List MemoRelation)
  pub location : Option (Option Location)
  pub create_time : Option Timestamp
  pub update_time : Option Timestamp

-- The paths of an update mask.
pub data MaskPath : Type 0 where
  content visibility attachments relations location create_time update_time : MaskPath

abbrev pub path_code : MaskPath → ℕ
path_code MaskPath.content = 0
path_code MaskPath.visibility = 1
path_code MaskPath.attachments = 2
path_code MaskPath.relations = 3
path_code MaskPath.location = 4
path_code MaskPath.create_time = 5
path_code MaskPath.update_time = 6

unfoldable pub has_path : MaskPath → List MaskPath → Bool
has_path p mask = any (λ q. path_code q == path_code p) mask

-- `mask.add`: a set keeps one copy of each path, in the order of insertion.
unfoldable pub add_path : MaskPath → List MaskPath → List MaskPath
unfolding has_path
add_path p mask = if has_path p mask then mask else mask ++ p ∷ []

-- lodash's `isEqual` at the types where it is called, and the timestamp conversions of
-- `@bufbuild/protobuf`.
pub record Externals : Type 0 where
  pub equal_content : Eq Text
  pub equal_visibility : Eq Visibility
  pub equal_attachments : Eq (List Attachment)
  pub equal_relations : Eq (List MemoRelation)
  pub equal_location : Eq (Option Location)
  pub equal_date : Eq (Option ℕ)
  pub timestamp_date : Timestamp → ℕ
  pub timestamp_from_date : ℕ → Timestamp

-- `create(AttachmentSchema, { name: a.name })`
abbrev pub reference_to : Attachment → Attachment
reference_to a = record {
  name = a.name;
  filename = "";
  type = "";
  size = 0;
  content = [];
  external_link = "";
  create_time = none;
  memo = none;
}

unfoldable pub to_attachment_references : List Attachment → List Attachment
to_attachment_references as' = map reference_to as'

abbrev pub MaskPatch : Type 0
MaskPatch = List MaskPath × MemoPatch

module _ (x : Externals) where
  open x use {
    equal_content, equal_visibility, equal_attachments, equal_relations, equal_location, equal_date,
    timestamp_date, timestamp_from_date,
  }

  abbrev pub date_of : Option Timestamp → Option ℕ
  date_of none = none
  date_of (some t) = some (timestamp_date t)

  -- The statements of `buildUpdateMask`, one function for each, over the mask and the patch so far.
  unfoldable pub mask_content : Memo → EditorState → MaskPatch → MaskPatch
  mask_content prev s (mask, patch) =
      if equal_content.beq s.content prev.content
      then (mask, patch)
      else (add_path MaskPath.content mask, record patch { content = some s.content })

  unfoldable pub mask_visibility : Memo → EditorState → MaskPatch → MaskPatch
  mask_visibility prev s (mask, patch) =
      if equal_visibility.beq s.metadata.visibility prev.visibility then (mask, patch) else (
        add_path MaskPath.visibility mask,
        record patch { visibility = some s.metadata.visibility },
      )

  unfoldable pub mask_attachments : Memo → List Attachment → MaskPatch → MaskPatch
  mask_attachments prev all_attachments (mask, patch) =
      if equal_attachments.beq all_attachments prev.attachments then (mask, patch) else (
        add_path MaskPath.attachments mask,
        record patch { attachments = some (to_attachment_references all_attachments) },
      )

  unfoldable pub mask_relations : Memo → EditorState → MaskPatch → MaskPatch
  mask_relations prev s (mask, patch) =
      if equal_relations.beq s.metadata.relations prev.relations then (mask, patch) else (
        add_path MaskPath.relations mask,
        record patch { relations = some s.metadata.relations },
      )

  unfoldable pub mask_location : Memo → EditorState → MaskPatch → MaskPatch
  mask_location prev s (mask, patch) =
      if equal_location.beq s.metadata.location prev.location
      then (mask, patch)
      else (add_path MaskPath.location mask, record patch { location = some s.metadata.location })

  -- `["content", "attachments", "relations", "location"].some((key) => mask.has(key))`
  unfoldable pub mask_touch : MaskPatch → MaskPatch
  mask_touch (mask, patch) =
      if has_path MaskPath.content mask
        || has_path MaskPath.attachments mask
        || has_path MaskPath.relations mask
        || has_path MaskPath.location mask
      then (add_path MaskPath.update_time mask, patch)
      else (mask, patch)

  unfoldable pub mask_create_time : Memo → Option ℕ → MaskPatch → MaskPatch
  mask_create_time prev none (mask, patch) = (mask, patch)
  mask_create_time prev (some t) (mask, patch) =
      if equal_date.beq (some t) (date_of prev.create_time) then (mask, patch) else (
        add_path MaskPath.create_time mask,
        record patch { create_time = some (timestamp_from_date t) },
      )

  unfoldable pub mask_update_time : Memo → Option ℕ → MaskPatch → MaskPatch
  mask_update_time prev none (mask, patch) = (mask, patch)
  mask_update_time prev (some t) (mask, patch) =
      if equal_date.beq (some t) (date_of prev.update_time) then (mask, patch) else (
        add_path MaskPath.update_time mask,
        record patch { update_time = some (timestamp_from_date t) },
      )

  abbrev pub initial_patch : Memo → EditorState → MemoPatch
  initial_patch prev s = record {
    name = some prev.name;
    content = some s.content;
    visibility = none;
    attachments = none;
    relations = none;
    location = none;
    create_time = none;
    update_time = none;
  }

  unfoldable pub build_update_mask : Memo → EditorState → List Attachment → MaskPatch
  build_update_mask prev s all_attachments = mask_update_time prev s.timestamps.update_time (
      mask_create_time prev s.timestamps.create_time (
        mask_touch (
          mask_location prev s (
            mask_relations prev s (
              mask_attachments prev all_attachments
                (mask_visibility prev s (mask_content prev s ([], initial_patch prev s))))))))

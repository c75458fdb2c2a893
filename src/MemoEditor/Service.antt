-- ===== src/MemoEditor/Service.antt =====
-- Saving and loading a memo (MemoEditor/services/memoService.ts and uploadService.ts). The server's
-- client, lodash's `isEqual` and the conversions of protobuf timestamps are parameters; a thrown
-- error leaves the world as the failing call left it.
mod UpdateMask
pub mod Mask
pub mod Laws
pub mod Effects
unfoldable pub use UpdateMask.*
use kube_memos_eks.Errors.{Thrown}
use kube_memos_eks.MemoEditor.State.{
  Timestamp, Visibility, Attachment, MemoRelation, Location, LocalFile, File, Metadata, Timestamps,
  EditorState, not_loading,
}
use kube_memos_eks.Base.{
  if◌then◌else◌, truthy_string, nullish, Action, ◌>>=◌, pure, ℕ, ◌*◌, String, Bool, true, false,
  Option, none, some, List, [], ◌∷◌, ◌++◌,
}

-- The generated clients that the services call, and `file.arrayBuffer()`.
pub record MemoClient (W : Type 0) : Type 0 where
  pub array_buffer : File → Action W Thrown (List ℕ)
  pub create_attachment : Attachment → Action W Thrown Attachment
  pub get_memo : String → Action W Thrown Memo
  pub update_memo : MemoPatch → List MaskPath → Action W Thrown Memo
  pub create_memo : MemoPatch → Action W Thrown Memo
  pub create_memo_comment : String → MemoPatch → Action W Thrown Memo

pub record SaveOptions : Type 0 where
  pub memo_name : Option String
  pub parent_memo_name : Option String

pub record SaveResult : Type 0 where
  pub memo_name : String
  pub has_changes : Bool

module _ {W : Type 0} (x : Externals) (client : MemoClient W) where
  open client use {
    array_buffer, create_attachment, get_memo, update_memo, create_memo, create_memo_comment,
  }

  abbrev upload_of : File → List ℕ → Attachment
  upload_of f buffer = record {
    name = "";
    filename = f.name;
    type = f.type;
    size = f.size;
    content = buffer;
    external_link = "";
    create_time = none;
    memo = none;
  }

  -- The files are sent one by one, in order; the first failure ends the loop.
  unfoldable pub upload_files : List LocalFile → Action W Thrown (List Attachment)
  upload_files [] = pure []
  upload_files (f ∷ fs) = do
    buffer ← array_buffer f.file
    attachment ← create_attachment (upload_of f.file buffer)
    rest ← upload_files fs
    pure (attachment ∷ rest)

  abbrev new_memo : EditorState → List Attachment → MemoPatch
  new_memo s all_attachments = record {
    name = none;
    content = some s.content;
    visibility = some s.metadata.visibility;
    attachments = some (to_attachment_references all_attachments);
    relations = some s.metadata.relations;
    location = some s.metadata.location;
    create_time = timestamp s.timestamps.create_time;
    update_time = timestamp s.timestamps.update_time;
  }
    where
      timestamp : Option ℕ → Option Timestamp
      timestamp = elim [ none ↦ none | some t ↦ some (x.timestamp_from_date t) ]

  -- The update of an existing memo: no call if the mask is empty.
  unfoldable pub send_update : Memo → MaskPatch → Action W Thrown SaveResult
  send_update prev ([], patch) = pure (record { memo_name = prev.name; has_changes = false })
  send_update prev (p ∷ mask, patch) = do
    memo ← update_memo patch (p ∷ mask)
    pure (record { memo_name = memo.name; has_changes = true })

  unfoldable pub update_existing :
      EditorState → String → List Attachment → Action W Thrown SaveResult
  unfolding send_update
  update_existing s memo_name all_attachments = do
    prev ← get_memo memo_name
    send_update prev (build_update_mask x prev s all_attachments)

  unfoldable pub create_new :
      EditorState → Option String → List Attachment → Action W Thrown SaveResult
  create_new s parent all_attachments = do
    memo ←
        (if truthy_string parent
          then create_memo_comment (nullish parent "") (new_memo s all_attachments)
          else create_memo (new_memo s all_attachments))
    pure (record { memo_name = memo.name; has_changes = true })

  unfoldable pub save : EditorState → SaveOptions → Action W Thrown SaveResult
  unfolding upload_files update_existing create_new
  save s o = do
    uploaded ← upload_files s.local_files
    let all_attachments = s.metadata.attachments ++ uploaded
    if truthy_string o.memo_name
        then update_existing s (nullish o.memo_name "") all_attachments
        else create_new s o.parent_memo_name all_attachments

  abbrev pub state_of : Memo → EditorState
  state_of memo = record {
    content = memo.content;
    metadata = record {
      visibility = memo.visibility;
      attachments = memo.attachments;
      relations = memo.relations;
      location = memo.location;
    };
    ui = record {
      is_focus_mode = false;
      is_loading = not_loading;
      is_dragging = false;
      is_composing = false;
    };
    timestamps = record {
      create_time = date_of x memo.create_time;
      update_time = date_of x memo.update_time;
    };
    local_files = [];
  }

  unfoldable pub load : String → Action W Thrown EditorState
  load memo_name = do memo ← get_memo memo_name; pure (state_of memo)

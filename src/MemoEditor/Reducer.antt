-- ===== src/MemoEditor/Reducer.antt =====
-- The reducer (MemoEditor/state/reducer.ts), and which parts of the state each action can change.
pub mod Laws
use kube_memos_eks.MemoEditor.State.{
  Visibility, Attachment, MemoRelation, Metadata, Loading, LocalFile, EditorState, LoadingKey,
  PartialMetadata, EditorAction, init_memo, update_content, set_metadata, add_attachment,
  remove_attachment, add_relation, remove_relation, add_local_file, remove_local_file,
  clear_local_files, toggle_focus_mode, set_loading, set_dragging, set_composing, reset,
  initial_state,
}
use kube_memos_eks.Base.{
  nullish, filter, String, Bool, false, not, none, some, [], ◌∷◌, ◌++◌, str_eq,
}

-- `{ ...metadata, ...payload }`
unfoldable pub merge_metadata : PartialMetadata → Metadata → Metadata
merge_metadata p m = record {
  visibility = nullish p.visibility m.visibility;
  attachments = nullish p.attachments m.attachments;
  relations = nullish p.relations m.relations;
  location = nullish p.location m.location;
}

-- `{ ...isLoading, [key]: value }`
unfoldable pub set_loading_key : LoadingKey → Bool → Loading → Loading
set_loading_key LoadingKey.saving b l = record l { saving = b }
set_loading_key LoadingKey.uploading b l = record l { uploading = b }
set_loading_key LoadingKey.loading b l = record l { loading = b }

-- `r.relatedMemo?.name !== name`
abbrev pub relates_to : String → MemoRelation → Bool
relates_to name r = elim r.related_memo [ none ↦ false | some m ↦ str_eq m.name name ]

unfoldable pub editor_reducer : EditorState → EditorAction → EditorState
unfolding merge_metadata set_loading_key
editor_reducer s (init_memo content metadata timestamps) = record s {
  content = content;
  metadata = metadata;
  timestamps = timestamps;
}
editor_reducer s (update_content content) = record s { content = content }
editor_reducer s (set_metadata p) = record s { metadata = merge_metadata p s.metadata }
editor_reducer s (add_attachment a) = record s {
  metadata = record (s.metadata) { attachments = s.metadata.attachments ++ a ∷ [] };
}
editor_reducer s (remove_attachment name) = record s {
  metadata = record (s.metadata) {
    attachments = filter (λ a. not (str_eq a.name name)) s.metadata.attachments;
  };
}
editor_reducer s (add_relation r) = record s {
  metadata = record (s.metadata) { relations = s.metadata.relations ++ r ∷ [] };
}
editor_reducer s (remove_relation name) = record s {
  metadata = record (s.metadata) {
    relations = filter (λ r. not (relates_to name r)) s.metadata.relations;
  };
}
editor_reducer s (add_local_file f) = record s { local_files = s.local_files ++ f ∷ [] }
editor_reducer s (remove_local_file url) = record s {
  local_files = filter (λ f. not (str_eq f.preview_url url)) s.local_files;
}
editor_reducer s clear_local_files = record s { local_files = [] }
editor_reducer s toggle_focus_mode = record s {
  ui = record (s.ui) { is_focus_mode = not s.ui.is_focus_mode };
}
editor_reducer s (set_loading key b) = record s {
  ui = record (s.ui) { is_loading = set_loading_key key b s.ui.is_loading };
}
editor_reducer s (set_dragging b) = record s { ui = record (s.ui) { is_dragging = b } }
editor_reducer s (set_composing b) = record s { ui = record (s.ui) { is_composing = b } }
editor_reducer s reset = initial_state

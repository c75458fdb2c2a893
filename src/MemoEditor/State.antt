-- ===== src/MemoEditor/State.antt =====
-- The editor's state and the messages that it holds (MemoEditor/state/types.ts and the message types
-- of types/proto/api/v1 that it names, with the fields that the editor reads).
-- A coordinate is a double, held as its bit pattern; a `Date` is its milliseconds.
use kube_memos_eks.Base.{Text, ℕ, String, Bool, false, Option, none, List, []}

pub data Visibility : Type 0 where
  private protected public : Visibility

-- A protobuf timestamp.
pub record Timestamp : Type 0 where
  pub seconds : ℕ
  pub nanos : ℕ

pub record Attachment : Type 0 where
  pub name : String
  pub filename : String
  pub type : String
  pub size : ℕ
  pub content : List ℕ
  pub external_link : String
  pub create_time : Option Timestamp
  pub memo : Option String

pub data RelationType : Type 0 where
  unspecified reference comment : RelationType

pub record RelatedMemo : Type 0 where
  pub name : String
  pub snippet : String

pub record MemoRelation : Type 0 where
  pub type : RelationType
  pub memo : Option RelatedMemo
  pub related_memo : Option RelatedMemo

pub record Location : Type 0 where
  pub placeholder : String
  pub latitude : ℕ
  pub longitude : ℕ

-- The browser's `File`.
pub record File : Type 0 where
  pub name : String
  pub type : String
  pub size : ℕ
  pub bytes : List ℕ

pub record LocalFile : Type 0 where
  pub file : File
  pub preview_url : String

pub record Metadata : Type 0 where
  pub visibility : Visibility
  pub attachments : List Attachment
  pub relations : List MemoRelation
  pub location : Option Location

pub record Loading : Type 0 where
  pub saving : Bool
  pub uploading : Bool
  pub loading : Bool

pub record Ui : Type 0 where
  pub is_focus_mode : Bool
  pub is_loading : Loading
  pub is_dragging : Bool
  pub is_composing : Bool

pub record Timestamps : Type 0 where
  pub create_time : Option ℕ
  pub update_time : Option ℕ

pub record EditorState : Type 0 where
  pub content : Text
  pub metadata : Metadata
  pub ui : Ui
  pub timestamps : Timestamps
  pub local_files : List LocalFile

pub data LoadingKey : Type 0 where
  saving uploading loading : LoadingKey

-- `Partial<…>` as a spread reads it: `none` is an absent key, `some x` overwrites. A location that is
-- present may be `undefined`.
pub record PartialMetadata : Type 0 where
  pub visibility : Option Visibility
  pub attachments : Option (List Attachment)
  pub relations : Option (List MemoRelation)
  pub location : Option (Option Location)

pub data EditorAction : Type 0 where
  init_memo : Text → Metadata → Timestamps → EditorAction
  update_content : Text → EditorAction
  set_metadata : PartialMetadata → EditorAction
  add_attachment : Attachment → EditorAction
  remove_attachment : String → EditorAction
  add_relation : MemoRelation → EditorAction
  remove_relation : String → EditorAction
  add_local_file : LocalFile → EditorAction
  remove_local_file : String → EditorAction
  clear_local_files : EditorAction
  toggle_focus_mode : EditorAction
  set_loading : LoadingKey → Bool → EditorAction
  set_dragging : Bool → EditorAction
  set_composing : Bool → EditorAction
  reset : EditorAction

abbrev pub not_loading : Loading
not_loading = record { saving = false; uploading = false; loading = false }

abbrev pub initial_state : EditorState
initial_state = record {
  content = [];
  metadata = record { visibility = private; attachments = []; relations = []; location = none };
  ui = record {
    is_focus_mode = false;
    is_loading = not_loading;
    is_dragging = false;
    is_composing = false;
  };
  timestamps = record { create_time = none; update_time = none };
  local_files = [];
}

-- ===== src/Markdown/TextArea.antt =====
-- The text area of the memo editor and the actions that the editor's parts call
-- (components/MemoEditor/Editor/index.tsx). The element is its value and its selection; the browser
-- keeps the selection inside the value and its start at or before its end, as `setSelectionRange`
-- does. `changes` are the contents that `onContentChange` was called with, newest first. Focus,
-- height and scrolling are the browser's.
use kube_memos_eks.Base.{
  ltb, if◌then◌else◌, nullish, length, get_elem?, take, drop, Text, text_eq, join, split, ℕ, zero,
  suc, ◌+◌, ◌-◌, ◌≤◌, Option, List, [], ◌∷◌, ◌++◌,
}
use kube_memos_eks.Markdown.ListItem.{newline}
pub mod Laws

pub record TextArea : Type 0 where
  pub value : Text
  pub selection_start : ℕ
  pub selection_end : ℕ
  pub changes : List Text

abbrev min : ℕ → ℕ → ℕ
min a b = if ltb a b then a else b

-- `slice(from, to)` for indices from the front.
abbrev pub slice : ℕ → ℕ → Text → Text
slice from to s = drop from (take to s)

-- `setSelectionRange`, as the platform defines it.
abbrev pub set_selection_range : ℕ → ℕ → TextArea → TextArea
set_selection_range from to a = record a {
  selection_start = min (min from (min to (length a.value))) (length a.value);
  selection_end = min to (length a.value);
}

-- `updateContent`
abbrev pub update_content : TextArea → TextArea
update_content a = record a { changes = a.value ∷ a.changes }

-- `content || prev.slice(cursorPos, endPos)`
abbrev pub or_selected : Text → TextArea → Text
or_selected [] a = slice a.selection_start a.selection_end a.value
or_selected (c ∷ s) a = c ∷ s

-- `insertText`
unfoldable pub insert_text : Text → Text → Text → TextArea → TextArea
insert_text content before behind a =
    let actual = or_selected content a in
    let value =
      take a.selection_start a.value
      ++ (before ++ (actual ++ (behind ++ drop a.selection_end a.value))) in
    let cursor = a.selection_start + length before + length actual in
    update_content (set_selection_range cursor cursor (record a { value = value }))

-- `removeText`
unfoldable pub remove_text : ℕ → ℕ → TextArea → TextArea
remove_text start count a = update_content (
    set_selection_range start start
      (record a { value = take start a.value ++ drop (start + count) a.value }))

-- `editor.value = text`: the platform moves the cursor behind a value that differs.
abbrev pub assign_value : Text → TextArea → TextArea
assign_value text a = record a {
  value = text;
  selection_start = if text_eq text a.value then a.selection_start else length text;
  selection_end = if text_eq text a.value then a.selection_end else length text;
}

-- `setContent`
unfoldable pub set_content : Text → TextArea → TextArea
set_content text a = update_content (assign_value text a)

-- `getSelectedContent`
abbrev pub get_selected_content : TextArea → Text
get_selected_content a = slice a.selection_start a.selection_end a.value

-- `setCursorPosition`
unfoldable pub set_cursor_position : ℕ → Option ℕ → TextArea → TextArea
set_cursor_position start end a = set_selection_range start (nullish end start) a

-- `getCursorLineNumber`
unfoldable pub get_cursor_line_number : TextArea → ℕ
get_cursor_line_number a = length (split newline (take a.selection_start a.value)) - 1

-- `getLine`
unfoldable pub get_line : ℕ → TextArea → Text
get_line n a = nullish (get_elem? (split newline a.value) n) []

abbrev repeat : ℕ → List Text
repeat zero = []
repeat (suc n) = [] ∷ repeat n

-- `lines[n] = text`: an assignment behind the end fills the gap with holes, which join as nothing.
abbrev pub assign : List Text → ℕ → Text → List Text
assign [] n text = repeat n ++ text ∷ []
assign (x ∷ xs) zero text = text ∷ xs
assign (x ∷ xs) (suc n) text = x ∷ assign xs n text

-- `setLine`
unfoldable pub set_line : ℕ → Text → TextArea → TextArea
set_line n text a =
    update_content (assign_value (join (newline ∷ []) (assign (split newline a.value) n text)) a)

-- The selection lies inside the value.
abbrev pub IsValid : TextArea → Type 0
IsValid a = (a.selection_start ≤ a.selection_end) × (a.selection_end ≤ length a.value)

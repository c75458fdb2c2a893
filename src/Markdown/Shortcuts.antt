-- ===== src/Markdown/Shortcuts.antt =====
-- The editor's Markdown shortcuts and the Enter key in a list
-- (components/MemoEditor/Editor/shortcuts.ts and useListCompletion.ts).
use kube_memos_eks.Markdown.ListItem.{
  newline, is_bullet, is_mark, after_bullet, number_of, detect_last_list_item,
  generate_list_continuation, last_line, after_spaces,
}
use kube_memos_eks.Markdown.Decimal.{is_digit}
use kube_memos_eks.Markdown.TextArea.{
  TextArea, insert_text, remove_text, set_cursor_position, get_selected_content, slice,
}
pub mod Laws
use kube_memos_eks.Base.{
  ltb, ◌==◌, if◌then◌else◌, is_some, nullish, length, take, drop, all, Text, codes, text_eq,
  is_space, span, drop_spaces, trim, is_blank, starts_with, ends_with, ℕ, ◌+◌, ◌-◌, String, Bool,
  true, false, not, ◌&&◌, ◌||◌, Option, none, some, [], ◌∷◌, ◌++◌, str_eq,
}

-- `s.slice(n, -n)`, for n above 0.
abbrev pub slice_inside : ℕ → Text → Text
slice_inside n s = slice n (length s - n) s

-- `toggleTextStyle`
unfoldable pub toggle_text_style : Text → TextArea → TextArea
toggle_text_style delimiter a =
    let selected = get_selected_content a in
    let cursor = a.selection_start in
    let unstyled = slice_inside (length delimiter) selected in
    if starts_with selected delimiter && ends_with selected delimiter
    then set_cursor_position cursor (some (cursor + length unstyled)) (insert_text unstyled [] [] a)
    else set_cursor_position (cursor + length delimiter)
        (some (cursor + length delimiter + length selected))
        (insert_text (delimiter ++ (selected ++ delimiter)) [] [] a)

-- `URL_REGEX`: `/^https?:\/\/[^\s]+$/`
abbrev is_address : Text → Bool
is_address [] = false
is_address (c ∷ s) = all (λ d. not (is_space d)) (c ∷ s)

abbrev pub is_url : Text → Bool
is_url s =
    (starts_with s (codes "http://") && is_address (drop 7 s))
    || (starts_with s (codes "https://") && is_address (drop 8 s))

-- An empty url is falsy, yet it is not `undefined`.
abbrev pub is_given : Option Text → Bool
is_given none = false
is_given (some []) = false
is_given (some (_ ∷ _)) = true

abbrev pub url_placeholder : Text
url_placeholder = codes "url"

abbrev pub link_offset : ℕ
link_offset = 3

-- `insertHyperlink`
unfoldable pub insert_hyperlink : Option Text → TextArea → TextArea
insert_hyperlink url a =
    let cursor = a.selection_start in
    let selected = get_selected_content a in
    let href = nullish url url_placeholder in
    let url_start = cursor + length selected + link_offset in
    let linked =
      insert_text (codes "[" ++ (selected ++ (codes "](" ++ (href ++ codes ")")))) [] [] a in
    if not (is_given url) && is_url (trim selected)
    then set_cursor_position (cursor + 1) (some (cursor + 1))
        (insert_text (codes "[](" ++ (selected ++ codes ")")) [] [] a)
    else if text_eq href url_placeholder
    then set_cursor_position url_start (some (url_start + length href)) linked
    else linked

-- `hyperlinkHighlightedText`
unfoldable pub hyperlink_highlighted_text : Text → TextArea → TextArea
hyperlink_highlighted_text url a =
    let selected = get_selected_content a in
    let position = a.selection_start + length selected + length url + 4 in
    set_cursor_position position (some position)
      (insert_text (codes "[" ++ (selected ++ (codes "](" ++ (url ++ codes ")")))) [] [] a)

-- `handleMarkdownShortcuts`, given the key in lower case: whether the browser's own handling is
-- prevented, and the text area.
unfoldable pub handle_markdown_shortcuts : String → TextArea → Bool × TextArea
handle_markdown_shortcuts key a =
    if str_eq key "b"
    then (true, toggle_text_style (codes "**") a)
    else if str_eq key "i"
    then (true, toggle_text_style (codes "*") a)
    else if str_eq key "k"
    then (true, insert_hyperlink none a)
    else (false, a)

-- `/^(\s*)([-*+])\s*$/`, behind the indentation.
abbrev is_empty_unordered : Text → Bool
is_empty_unordered s = elim (after_bullet s) [ none ↦ false | some (_, r) ↦ is_blank r ]

-- `/^(\s*)([-*+])\s+\[([ xX])\]\s*$/`
abbrev is_empty_box : Text → Bool
is_empty_box (a ∷ b ∷ c ∷ s) = a == b'[' && (is_mark b && (c == b']' && is_blank s))
is_empty_box _ = false

abbrev is_empty_task : Text → Bool
is_empty_task s = elim (after_bullet s) [
  | none ↦ false
  | some (_, r) ↦ elim (after_spaces r) [ none ↦ false | some t ↦ is_empty_box t ]
]

-- `/^(\s*)(\d+)[.)]\s*$/`
abbrev is_empty_ordered : Text → Bool
is_empty_ordered s = elim (number_of (span is_digit s)) [ none ↦ false | some (_, r) ↦ is_blank r ]

-- `isEmptyListItem`
unfoldable pub is_empty_list_item : Text → Bool
is_empty_list_item line =
    let s = drop_spaces line in is_empty_unordered s || (is_empty_task s || is_empty_ordered s)

-- What the handler knows of a key press: the key, the modifiers, and the composition's state.
pub record KeyPress : Type 0 where
  pub is_enter : Bool
  pub has_modifier : Bool
  pub is_in_ime : Bool
  pub now : ℕ
  pub last_composition_end : ℕ

-- `handleKeyDown` of useListCompletion: whether the default is prevented, and the text area. The
-- clock does not run backwards.
unfoldable pub handle_enter : KeyPress → TextArea → Bool × TextArea
handle_enter e a =
    let before = take a.selection_start a.value in
    let info = detect_last_list_item before in
    let line = last_line before in
    if not e.is_enter || (e.is_in_ime || e.has_modifier)
    then (false, a)
    else if ltb (e.now - e.last_composition_end) 100
    then (false, a)
    else if not (is_some info.type)
    then (false, a)
    else if is_empty_list_item line
    then (true, remove_text (a.selection_start - length line) (length line) a)
    else (true, insert_text (newline ∷ generate_list_continuation info) [] [] a)

-- ===== src/Markdown/Suggestions.antt =====
-- The popups that complete the word at the cursor (components/MemoEditor/Editor/useSuggestions.ts,
-- TagSuggestions.tsx, SlashCommands.tsx and commands.ts). Lower case is the platform's: an argument.
pub mod Laws
pub mod Selection
use mathlib.Core.List.{reverse}
use kube_memos_eks.Markdown.ListItem.{newline}
use kube_memos_eks.Markdown.TextArea.{TextArea, insert_text, remove_text, set_cursor_position}
use kube_memos_eks.Base.{
  ltb, ◌==◌, if◌then◌else◌, nullish, length, get_elem?, take, drop, Text, codes, is_space, span,
  starts_with, ℕ, ◌+◌, ◌-◌, ◌%◌, Bool, false, not, ◌&&◌, Option, none, some, List, [], ◌∷◌, ◌++◌,
}

abbrev pub non_space : ℕ → Bool
non_space c = not (is_space c)

-- `/\S*$/` and `/^\S*/`
abbrev pub word_before : TextArea → Text
word_before a = reverse (span non_space (reverse (take a.selection_end a.value))).0

abbrev pub word_after : TextArea → Text
word_after a = (span non_space (drop a.selection_end a.value)).0

-- `getCurrentWord`
unfoldable pub get_current_word : TextArea → Text × ℕ
get_current_word a = (word_before a ++ word_after a, a.selection_end - length (word_before a))

pub data Key : Type 0 where
  escape arrow_left arrow_right arrow_down arrow_up enter tab other : Key

-- Whether there is a position, and the index that is selected.
pub record Popup : Type 0 where
  pub has_position : Bool
  pub selected : ℕ

-- `handleNavigation`: one step down or up, around the ends.
abbrev pub next_selected : ℕ → ℕ → ℕ
next_selected selected count = (selected + 1) % count

abbrev pub previous_selected : ℕ → ℕ → ℕ
previous_selected selected count = (selected + count - 1) % count

module _ {T : Type 0} (to_lower : Text → Text) (trigger : ℕ) (items : List T)
    (filter_items : List T → Text → List T) where
  -- `suggestionsRef.current`, as a render computes it.
  unfoldable pub suggestions : TextArea → List T
  suggestions a =
      if starts_with (get_current_word a).0 (trigger ∷ [])
      then filter_items items (to_lower (drop 1 (get_current_word a).0))
      else []

-- `isVisibleRef.current`, with the suggestions of the render.
abbrev pub is_visible : {T : Type 0} → Popup → List T → Bool
is_visible p rendered = p.has_position && ltb 0 (length rendered)

module _ {T : Type 0} (on_autocomplete : Option T → Text → ℕ → TextArea → TextArea) where
  -- `handleAutocomplete`; the current word is that of the text area, and not of the render.
  unfoldable pub handle_autocomplete : Option T → Popup → TextArea → Popup × TextArea
  handle_autocomplete item p a = (
    record p { has_position = false },
    on_autocomplete item (get_current_word a).0 (get_current_word a).1 a,
  )

  -- The tests of `handleKeyDown` behind the first.
  abbrev pub press : Key → List T → Popup → TextArea → Popup × TextArea
  press escape rendered p a = (record p { has_position = false }, a)
  press arrow_left rendered p a = (record p { has_position = false }, a)
  press arrow_right rendered p a = (record p { has_position = false }, a)
  press arrow_down rendered p a =
      (record p { selected = next_selected p.selected (length rendered) }, a)
  press arrow_up rendered p a =
      (record p { selected = previous_selected p.selected (length rendered) }, a)
  press enter rendered p a = handle_autocomplete (get_elem? rendered p.selected) p a
  press tab rendered p a = handle_autocomplete (get_elem? rendered p.selected) p a
  press other rendered p a = (p, a)

  -- `handleKeyDown`, with the suggestions, the position and the index of the last render. What a key
  -- does to the caret is the browser's.
  unfoldable pub handle_key_down : Key → List T → Popup → TextArea → Popup × TextArea
  handle_key_down key rendered p a =
      if is_visible p rendered then press key rendered p a else (p, a)

abbrev is_trigger : ℕ → Option ℕ → Bool
is_trigger trigger none = false
is_trigger trigger (some c) = c == trigger

-- `handleInput`
unfoldable pub handle_input : ℕ → TextArea → Popup
handle_input trigger a = record {
  has_position =
      starts_with (get_current_word a).0 (trigger ∷ [])
      && not (is_trigger trigger (get_elem? a.value a.selection_end));
  selected = 0;
}

-- `onAutocomplete` of TagSuggestions: a missing tag is printed as "undefined".
unfoldable pub complete_tag : Option Text → Text → ℕ → TextArea → TextArea
complete_tag tag word index a =
    insert_text (b'#' ∷ (nullish tag (codes "undefined") ++ codes " ")) [] []
      (remove_text index (length word) a)

pub record Command : Type 0 where
  pub name : Text
  pub output : Text
  pub cursor_offset : ℕ

-- `editorCommands`
abbrev pub editor_commands : List Command
editor_commands =
    record { name = codes "todo"; output = codes "- [ ] "; cursor_offset = 6 }
    ∷ record {
      name = codes "code";
      output = codes "```" ++ newline ∷ newline ∷ codes "```";
      cursor_offset = 4;
    }
    ∷ record { name = codes "link"; output = codes "[text](url)"; cursor_offset = 1 }
    ∷ record {
      name = codes "table";
      output =
          codes "| Header | Header |"
          ++ newline ∷ codes "| ------ | ------ |"
          ++ newline ∷ codes "| Cell   | Cell |";
      cursor_offset = 1;
    }
    ∷ []

-- `handleCommandAutocomplete`; an offset that is absent or 0 is falsy.
unfoldable pub complete_command : Command → Text → ℕ → TextArea → TextArea
complete_command c word index a =
    let inserted = insert_text c.output [] [] (remove_text index (length word) a) in
    if ltb 0 c.cursor_offset
    then set_cursor_position (index + c.cursor_offset) none inserted
    else inserted

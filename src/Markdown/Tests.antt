-- ===== src/Markdown/Tests.antt =====
-- The Markdown tools at concrete texts.
use kube_memos_eks.Markdown.ListItem.{
  newline, ordered, detect_last_list_item, detect_line, info_of, match_task, is_bullet,
  match_unordered, match_ordered, generate_list_continuation,
}
use kube_memos_eks.Markdown.Decimal.{parse_from}
use kube_memos_eks.Markdown.ListItem.Continuation.{next_info}
use kube_memos_eks.Markdown.TextArea.{TextArea}
use kube_memos_eks.Markdown.Shortcuts.{KeyPress, handle_enter, is_empty_list_item}
use kube_memos_eks.Markdown.Shortcuts.Laws.{before_cursor, handle_enter_continues}
use kube_memos_eks.Markdown.Tasks.Extract.{extract_tasks, task_content}
use kube_memos_eks.Markdown.Tasks.Extract.Laws.{shape, extract_tasks-toggle_task_at_line}
use kube_memos_eks.Markdown.Tasks.{
  TaskNode, extract_tasks_from_ast, match_task_line, toggle_task_at_line,
}
use kube_memos_eks.Markdown.Tasks.Toggle.{toggle_task_at_line_frame}
use kube_memos_eks.Markdown.Tags.{text_segment, tag_segment, parse_tags_from_text, print_segments}
use kube_memos_eks.Markdown.Tags.Laws.{IsTag, parse_tags_from_text_lossless}
use kube_memos_eks.Markdown.Suggestions.{
  get_current_word, complete_tag, Key, arrow_down, suggestions, handle_key_down, handle_input,
  is_visible,
}
use kube_memos_eks.Markdown.Suggestions.Selection.{
  View, Reach, here, next, inputs, presses, shown, pressed, render, selection_in_range,
  selection_out_of_range,
}
use mathlib.Core.Option
use kube_memos_eks.Base.{
  leb, length, get_elem?, filter, All, Text, codes, is_space, is_line_terminator, starts_with,
  split, ℕ, ◌≡◌, refl, ap, ◌≢◌, Bool, true, false, ◌&&◌, none, some, List, [], ◌∷◌, ◌++◌, map,
  arith,
}

abbrev third_item : Text
third_item = codes "notes" ++ newline ∷ codes "  3. eggs"

third_item_info :
    detect_last_list_item third_item
    ≡ record { type = some ordered; symbol = none; number = some 3; indent = codes "  " }
unfolding detect_last_list_item detect_line info_of match_task is_space is_bullet match_unordered
    match_ordered parse_from
third_item_info = refl

has_type : (detect_last_list_item third_item).type ≢ none
has_type e = cc (ap (λ i. i.type) third_item_info)

abbrev area : TextArea
area = record {
  value = third_item;
  selection_start = length third_item;
  selection_end = length third_item;
  changes = [];
}

abbrev enter : KeyPress
enter = record {
  is_enter = true;
  has_modifier = false;
  is_in_ime = false;
  now = 900;
  last_composition_end = 100;
}

handle_enter_continues_example :
    ((handle_enter enter area).0 ≡ true)
    × (before_cursor (handle_enter enter area).1
        ≡ third_item ++ newline ∷ generate_list_continuation (detect_last_list_item third_item))
    × (detect_last_list_item (before_cursor (handle_enter enter area).1)
        ≡ next_info (detect_last_list_item third_item))
unfolding is_empty_list_item is_space is_bullet
handle_enter_continues_example =
    handle_enter_continues enter area (omega arith, omega arith) (refl, refl, refl, refl) has_type
      refl

abbrev selecting : TextArea
selecting = record {
  value = codes "a word here";
  selection_start = 2;
  selection_end = 6;
  changes = [];
}

abbrev chores : Text
chores = codes "- [ ] wash" ++ newline ∷ codes "* [x] cook"

chores_toggled :
    toggle_task_at_line chores 0 true ≡ codes "- [x] wash" ++ newline ∷ codes "* [x] cook"
unfolding toggle_task_at_line match_task_line is_space is_bullet is_line_terminator
chores_toggled = refl

toggle_task_at_line_frame_example :
    get_elem? (split newline (toggle_task_at_line chores 0 true)) 1
    ≡ get_elem? (split newline chores) 1
toggle_task_at_line_frame_example =
    toggle_task_at_line_frame chores 0 1 true (λ e. absurd (omega arith))

abbrev chore_nodes : Text → List TaskNode
chore_nodes _ = record { line = 1; checked = false } ∷ record { line = 2; checked = true } ∷ []

chores_extracted :
    extract_tasks chore_nodes chores
    ≡ some (
        record {
          line_number = 0;
          task_index = 0;
          checked = false;
          content = codes "wash";
          indentation = 0;
        }
        ∷ record {
          line_number = 1;
          task_index = 1;
          checked = true;
          content = codes "cook";
          indentation = 0;
        }
        ∷ [])
unfolding extract_tasks task_content is_space is_bullet is_line_terminator Option.bind
chores_extracted = refl

extract_tasks-toggle_task_at_line_example :
    Option.map (map shape) (extract_tasks chore_nodes (toggle_task_at_line chores 0 true))
    ≡ Option.map (map shape) (extract_tasks chore_nodes chores)
unfolding toggle_task_at_line match_task_line is_space is_bullet is_line_terminator
    extract_tasks_from_ast
extract_tasks-toggle_task_at_line_example =
    extract_tasks-toggle_task_at_line chore_nodes chores 0 true refl

-- Lower-case letters alone.
abbrev is_letter : ℕ → Bool
is_letter c = leb 97 c && leb c 122

tagged :
    parse_tags_from_text is_letter (codes "see #work now")
    ≡ text_segment (codes "see ") ∷ tag_segment (codes "work") ∷ text_segment (codes " now") ∷ []
unfolding parse_tags_from_text
tagged = refl

parse_tags_from_text_lossless_example :
    (print_segments (parse_tags_from_text is_letter (codes "see #work now"))
      ≡ codes "see #work now")
    × All (IsTag is_letter) (parse_tags_from_text is_letter (codes "see #work now"))
parse_tags_from_text_lossless_example =
    parse_tags_from_text_lossless is_letter (codes "see #work now")

-- Three tags are offered, and one is chosen.
abbrev by_prefix : List Text → Text → List Text
by_prefix tags query = filter (λ t. starts_with t query) tags

abbrev tags : List Text
tags = codes "ab" ∷ codes "cd" ∷ codes "ef" ∷ []

-- A tag, and behind it a new one with the caret at the end.
abbrev at_end : TextArea
at_end = record { value = codes "#ab #"; selection_start = 5; selection_end = 5; changes = [] }

abbrev at_start : TextArea
at_start = record at_end { selection_start = 0; selection_end = 0 }

abbrev view_with : ℕ → View Text
view_with n = record {
  popup = record { has_position = true; selected = n };
  area = at_end;
  rendered = tags;
}

moved-Reach : Reach (λ t. t) b'#' tags by_prefix complete_tag (view_with 1)
unfolding handle_input handle_key_down suggestions get_current_word is_space
moved-Reach =
    next
      (next (here at_end []) (
        inputs
          (record {
            popup = record { has_position = false; selected = 0 };
            area = at_end;
            rendered = [];
          })
          at_end))
      (presses arrow_down (view_with 0))

selection_in_range_example :
    (tags ≡ shown (λ t. t) b'#' tags by_prefix complete_tag at_end)
    × ((item : Text) × (get_elem? (shown (λ t. t) b'#' tags by_prefix complete_tag at_end) 1
          ≡ some item)
        × ((pressed (λ t. t) b'#' tags by_prefix complete_tag Key.enter (view_with 1)).area ≡ (
            complete_tag
              (some item)
              (get_current_word at_end).0
              (get_current_word at_end).1
              at_end)))
selection_in_range_example =
    selection_in_range (λ t. t) b'#' tags by_prefix complete_tag (view_with 1) moved-Reach refl

-- The view behind Home and Arrow Down.
abbrev home_and_down : View Text
home_and_down =
    render (λ t. t) b'#' tags by_prefix complete_tag
      (pressed (λ t. t) b'#' tags by_prefix complete_tag arrow_down
        (record (view_with 1) { area = at_start }))

home_and_down_completes_undefined :
    (is_visible home_and_down.popup home_and_down.rendered ≡ true)
    × ((pressed (λ t. t) b'#' tags by_prefix complete_tag Key.enter home_and_down).area
        ≡ (complete_tag none (get_current_word at_start).0 (get_current_word at_start).1 at_start))
unfolding suggestions get_current_word is_space
home_and_down_completes_undefined =
    selection_out_of_range (λ t. t) b'#' tags by_prefix complete_tag (view_with 1) at_start refl
      (omega arith) (omega arith) (omega arith)

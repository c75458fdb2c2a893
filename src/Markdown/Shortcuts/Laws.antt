-- ===== src/Markdown/Shortcuts/Laws.antt =====
-- Enter in a list, and the styles.
use mathlib.Core.List.{append_assoc}
use kube_memos_eks.Markdown.ListItem.{
  newline, detect_last_list_item, generate_list_continuation, last_line,
}
use kube_memos_eks.Markdown.ListItem.Continuation.{continuation_detected, next_info}
use kube_memos_eks.Markdown.TextArea.Laws.{
  take-insert_text, insert_text-replaced, replaced, length-replaced, set_selection_range_inside,
}
use kube_memos_eks.Markdown.TextArea.{
  TextArea, insert_text, get_selected_content, IsValid, slice, set_selection_range,
  set_cursor_position,
}
use kube_memos_eks.Markdown.Shortcuts.{
  handle_enter, KeyPress, is_empty_list_item, toggle_text_style,
}
use kube_memos_eks.Base.{
  ltb, is_some, length, take, drop, take-append, drop-append, length-take, Text, starts_with,
  ends_with, ℕ, ◌+◌, ◌-◌, ◌≡◌, refl, sym, ap, ◌∙◌, ◌≢◌, true, false, ◌&&◌, Option, none, some, [],
  ◌∷◌, ◌++◌, arith, length-append,
}

-- The text before the cursor.
abbrev pub before_cursor : TextArea → Text
before_cursor a = take a.selection_start a.value

-- Enter without a modifier, outside a composition and not just after one.
abbrev pub IsPlainEnter : KeyPress → Type 0
IsPlainEnter e =
    (e.is_enter ≡ true)
    × (e.is_in_ime ≡ false)
    × (e.has_modifier ≡ false)
    × (ltb (e.now - e.last_composition_end) 100 ≡ false)

is_some_of : {A : Type 0} (o : Option A) → o ≢ none → is_some o ≡ true
is_some_of none h = absurd (h refl)
is_some_of (some a) h = refl

handle_enter_inserts :
    (e : KeyPress) (a : TextArea)
    → IsPlainEnter e
    → (detect_last_list_item (before_cursor a)).type ≢ none
    → is_empty_list_item (last_line (before_cursor a)) ≡ false
    → handle_enter e a ≡ (
      true,
      insert_text
          (newline ∷ generate_list_continuation (detect_last_list_item (before_cursor a)))
          []
          []
          a,
    )
unfolding handle_enter
handle_enter_inserts e a (p, q, r, t) n k =
    rw (p, q, r, t, is_some_of (detect_last_list_item (before_cursor a)).type n, k)

-- In a list item with a text, Enter without a modifier or a composition inserts a line before whose end the next item is detected: the
-- same type, symbol and indentation, and the number that follows.
pub handle_enter_continues :
    (e : KeyPress) (a : TextArea)
    → IsValid a
    → IsPlainEnter e
    → (detect_last_list_item (before_cursor a)).type ≢ none
    → is_empty_list_item (last_line (before_cursor a)) ≡ false
    → ((handle_enter e a).0 ≡ true)
      × (before_cursor (handle_enter e a).1
          ≡ before_cursor a
            ++ newline ∷ generate_list_continuation (detect_last_list_item (before_cursor a)))
      × (detect_last_list_item (before_cursor (handle_enter e a).1)
          ≡ next_info (detect_last_list_item (before_cursor a)))
handle_enter_continues e a v p n k =
    let run = handle_enter_inserts e a p n k in
    let before =
      ap (λ x. before_cursor x.1) run
      ∙ take-insert_text newline
          (generate_list_continuation (detect_last_list_item (before_cursor a))) a v in
    (
      ap (λ x. x.0) run,
      before,
      ap detect_last_list_item before ∙ continuation_detected (before_cursor a) n,
    )

slice_middle :
    (n m : ℕ) (x y z : Text)
    → n ≡ length x
    → m ≡ length x + length y
    → slice n m (x ++ (y ++ z)) ≡ y
slice_middle n m x y z e h =
    ap (λ k. drop n (take k (x ++ (y ++ z)))) (h ∙ sym (length-append x y))
    ∙ ap (λ t. drop n (take (length (x ++ y)) t)) (sym (append_assoc x y z))
    ∙ ap (drop n) (take-append (x ++ y) z)
    ∙ ap (λ k. drop k (x ++ y)) e
    ∙ drop-append x y

-- Selecting a part of a text that replaces the selection.
select_inserted :
    (x y z : Text) (a w : TextArea)
    → IsValid a
    → w.value ≡ replaced (x ++ (y ++ z)) a
    → get_selected_content (
        set_selection_range
          (a.selection_start + length x)
          (a.selection_start + length x + length y)
          w)
      ≡ y
select_inserted x y z a w (h, k) e =
    let l = length-replaced (x ++ (y ++ z)) a (h, k) in
    let whole = length-append x (y ++ z) in
    let part = length-append y z in
    let size = ap length e in
    let before = length-take a.selection_start a.value (omega arith) in
    let (from, to) =
      set_selection_range_inside (a.selection_start + length x)
        (a.selection_start + length x + length y) w (omega arith) (omega arith) in
    ap
      (λ n.
        slice n
          (set_selection_range (a.selection_start + length x)
            (a.selection_start + length x + length y) w).selection_end
          w.value)
      from
    ∙ ap (λ n. slice (a.selection_start + length x) n w.value) to
    ∙ ap (slice (a.selection_start + length x) (a.selection_start + length x + length y))
        (e ∙ grouped)
    ∙ slice_middle (a.selection_start + length x) (a.selection_start + length x + length y)
        (take a.selection_start a.value ++ x) y (z ++ drop a.selection_end a.value)
        (omega (arith, length-append (take a.selection_start a.value) x))
        (omega (arith, length-append (take a.selection_start a.value) x))
  where
    grouped :
        replaced (x ++ (y ++ z)) a
        ≡ (take a.selection_start a.value ++ x) ++ (y ++ (z ++ drop a.selection_end a.value))
    grouped =
        ap (take a.selection_start a.value ++◌) (
          append_assoc x (y ++ z) (drop a.selection_end a.value)
          ∙ ap (x ++◌) (append_assoc y z (drop a.selection_end a.value)))
        ∙ sym (
            append_assoc (take a.selection_start a.value) x
              (y ++ (z ++ drop a.selection_end a.value)))

wrapping :
    (c : ℕ) (d : Text) (a : TextArea)
    → (starts_with (get_selected_content a) (c ∷ d) && ends_with (get_selected_content a) (c ∷ d))
      ≡ false
    → toggle_text_style (c ∷ d) a
      ≡ set_selection_range
          (a.selection_start + length (c ∷ d))
          (a.selection_start + length (c ∷ d) + length (get_selected_content a))
          (insert_text ((c ∷ d) ++ (get_selected_content a ++ (c ∷ d))) [] [] a)
unfolding toggle_text_style set_cursor_position
wrapping c d a h = rw h

-- Giving a style, by a nonempty delimiter, to a selection inside the value that does not have it: the delimiters stand around the selected text,
-- which stays selected, and the rest is kept.
pub toggle_text_style_wraps :
    (c : ℕ) (d : Text) (a : TextArea)
    → IsValid a
    → (starts_with (get_selected_content a) (c ∷ d) && ends_with (get_selected_content a) (c ∷ d))
      ≡ false
    → ((toggle_text_style (c ∷ d) a).value
        ≡ replaced ((c ∷ d) ++ (get_selected_content a ++ (c ∷ d))) a)
      × (get_selected_content (toggle_text_style (c ∷ d) a) ≡ get_selected_content a)
toggle_text_style_wraps c d a v h =
    let selected = get_selected_content a in
    let w = insert_text ((c ∷ d) ++ (selected ++ (c ∷ d))) [] [] a in
    let (e, _) = insert_text-replaced c (d ++ (selected ++ (c ∷ d))) a v in
    let run = wrapping c d a h in
    (
      ap (λ x. x.value) run ∙ e,
      ap get_selected_content run ∙ select_inserted (c ∷ d) selected (c ∷ d) a w v e,
    )

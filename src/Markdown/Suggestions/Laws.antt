-- ===== src/Markdown/Suggestions/Laws.antt =====
-- A completion replaces the word at the cursor and nothing else.
use kube_memos_eks.Markdown.TextArea.{TextArea, insert_text, remove_text, IsValid}
use kube_memos_eks.Markdown.TextArea.Laws.{
  insert_text-replaced, remove_text-IsValid, take-take, drop_past,
}
use kube_memos_eks.Markdown.Suggestions.{get_current_word, complete_tag, word_before, word_after}
use kube_memos_eks.Base.{
  length, take, drop, length-take, Text, codes, ℕ, ◌+◌, ◌-◌, ◌≤◌, ◌≡◌, refl, sym, ap, ◌∙◌, some, [],
  ◌∷◌, ◌++◌, arith, length-append,
}

-- What a removal inside the value leaves.
remove_text_lem :
    (i n : ℕ) (a : TextArea)
    → i ≤ length a.value
    → ((remove_text i n a).value ≡ take i a.value ++ drop (i + n) a.value)
      × ((remove_text i n a).selection_start ≡ i)
      × ((remove_text i n a).selection_end ≡ i)
unfolding remove_text
remove_text_lem i n a h =
    let size = length-append (take i a.value) (drop (i + n) a.value) in
    let part = length-take i a.value h in (refl, ground arith, ground arith)

add_zero : (n : ℕ) → n + 0 ≡ n
add_zero n = omega arith

-- Text that is inserted where text was removed stands in its place.
insert_text-remove_text :
    (i n c : ℕ) (s : Text) (a : TextArea)
    → i ≤ length a.value
    → (insert_text (c ∷ s) [] [] (remove_text i n a)).value
      ≡ take i a.value ++ ((c ∷ s) ++ drop (i + n) a.value)
insert_text-remove_text i n c s a h =
    let (v, p, q) = remove_text_lem i n a h in
    let rest = drop (i + n) a.value in
    (insert_text-replaced c s (remove_text i n a) (remove_text-IsValid i n a)).0
    ∙ ap
        (λ j.
          take j (remove_text i n a).value
          ++ ((c ∷ s) ++ drop (remove_text i n a).selection_end (remove_text i n a).value))
        p
    ∙ ap (λ j. take i (remove_text i n a).value ++ ((c ∷ s) ++ drop j (remove_text i n a).value)) q
    ∙ ap (λ t. take i t ++ ((c ∷ s) ++ drop i t)) v
    ∙ ap (λ t. t ++ ((c ∷ s) ++ drop i (take i a.value ++ rest))) (take-take i a.value rest h)
    ∙ ap (λ t. take i a.value ++ ((c ∷ s) ++ t))
        (ap (λ j. drop j (take i a.value ++ rest)) (sym (add_zero i))
          ∙ drop_past i a.value [] rest h)

-- Completing a tag replaces the word at the cursor, on both sides of it, by the tag with its "#" and
-- a space; the text before and behind the word is kept.
pub complete_tag_replaces :
    (tag : Text) (a : TextArea)
    → IsValid a
    → (complete_tag (some tag) (get_current_word a).0 (get_current_word a).1 a).value
      ≡ take (get_current_word a).1 a.value
        ++ (b'#' ∷ (tag ++ codes " ")
            ++ drop ((get_current_word a).1 + length (get_current_word a).0) a.value)
unfolding complete_tag get_current_word
complete_tag_replaces tag a (h, k) =
    insert_text-remove_text (a.selection_end - length (word_before a))
      (length (word_before a ++ word_after a)) b'#' (tag ++ codes " ") a (omega arith)

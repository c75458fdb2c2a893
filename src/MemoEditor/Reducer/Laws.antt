-- ===== src/MemoEditor/Reducer/Laws.antt =====
-- The draft that a user can lose, and the names that an attachment or a relation goes by.
use kube_memos_eks.MemoEditor.State.{
  Attachment, EditorState, EditorAction, add_attachment, remove_attachment, reset,
  toggle_focus_mode, set_loading, set_dragging, set_composing,
}
use kube_memos_eks.MemoEditor.Reducer.{editor_reducer}
use mathlib.Core.List.{append-nil}
use kube_memos_eks.Base.{
  filter, any, filter-append, String, ◌≡◌, refl, ◌≢◌, Bool, true, false, not, List, [], ◌∷◌, arith,
  eq_iff, str_eq,
}

-- The actions on the user interface alone.
abbrev pub is_ui_action : EditorAction → Bool
is_ui_action toggle_focus_mode = true
is_ui_action (set_loading _ _) = true
is_ui_action (set_dragging _) = true
is_ui_action (set_composing _) = true
is_ui_action _ = false

-- What a save would send, as one record: the state without its `ui`.
pub record SameDraft (s t : EditorState) : Type 0 where
  pub content : t.content ≡ s.content
  pub metadata : t.metadata ≡ s.metadata
  pub timestamps : t.timestamps ≡ s.timestamps
  pub local_files : t.local_files ≡ s.local_files

-- A user interface action leaves the whole draft as it was; every other action but `reset` leaves
-- the user interface as it was.
pub editor_reducer-frame :
    (s : EditorState) (a : EditorAction)
    → (is_ui_action a ≡ true → SameDraft s (editor_reducer s a))
      × (is_ui_action a ≡ false → (a ≢ reset) → (editor_reducer s a).ui ≡ s.ui)
unfolding editor_reducer
editor_reducer-frame s reset = (λ h. cc, λ h n. absurd (n refl))
editor_reducer-frame s toggle_focus_mode = (
  λ h. record { content = refl; metadata = refl; timestamps = refl; local_files = refl },
  λ h n. cc,
)
editor_reducer-frame s (set_loading _ _) = (
  λ h. record { content = refl; metadata = refl; timestamps = refl; local_files = refl },
  λ h n. cc,
)
editor_reducer-frame s (set_dragging _) = (
  λ h. record { content = refl; metadata = refl; timestamps = refl; local_files = refl },
  λ h n. cc,
)
editor_reducer-frame s (set_composing _) = (
  λ h. record { content = refl; metadata = refl; timestamps = refl; local_files = refl },
  λ h n. cc,
)
editor_reducer-frame s _ = (λ h. cc, λ h n. refl)

module _ {A : Type 0} (p : A → Bool) where
  -- What a filter leaves has no element that fails the test, and a list of none loses nothing.
  pub any-filter-not : (xs : List A) → any p (filter (λ x. not (p x)) xs) ≡ false
  any-filter-not [] = refl
  any-filter-not (x ∷ xs) = ground (arith, any-filter-not xs)

  pub filter-not_of_any : (xs : List A) → any p xs ≡ false → filter (λ x. not (p x)) xs ≡ xs
  filter-not_of_any [] h = refl
  filter-not_of_any (x ∷ xs) h = ground (arith, filter-not_of_any xs)

abbrev pub has_attachment : String → EditorState → Bool
has_attachment name s = any (λ a. str_eq a.name name) s.metadata.attachments

-- After a removal no attachment has the name, whatever stood there. Removing a name just added
-- takes back the addition, if the name was new.
pub remove_attachment-add_attachment :
    (s : EditorState) (a : Attachment)
    → (has_attachment a.name (editor_reducer s (remove_attachment a.name)) ≡ false)
      × (has_attachment a.name s ≡ false
          → (editor_reducer
              (editor_reducer s (add_attachment a))
              (remove_attachment a.name)).metadata.attachments
            ≡ s.metadata.attachments)
unfolding editor_reducer
remove_attachment-add_attachment s a = (
  any-filter-not (λ (b : Attachment). str_eq b.name a.name) s.metadata.attachments,
  λ h.
      rw
        (filter-append (λ (b : Attachment). not (str_eq b.name a.name)) s.metadata.attachments
          (a ∷ []))
        (rw (filter-not_of_any (λ (b : Attachment). str_eq b.name a.name) s.metadata.attachments h)
          (ground (arith, eq_iff a.name a.name, append-nil s.metadata.attachments))),
)

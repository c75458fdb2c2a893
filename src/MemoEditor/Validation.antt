-- ===== src/MemoEditor/Validation.antt =====
-- When the editor may save (MemoEditor/services/validationService.ts).
use kube_memos_eks.MemoEditor.State.{EditorState}
use kube_memos_eks.Base.{
  if◌then◌else◌, Bool-cases, Text, text_eq, text_eq_sound, trim, is_blank, trim-eq-nil_iff, String,
  ◌≡◌, refl, ◌≢◌, ◌↔◌, ◌⊎◌, inl, inr, Bool, true, false, ◌&&◌, Option, none, some, List, [], ◌∷◌,
  arith,
}

pub record ValidationResult : Type 0 where
  pub valid : Bool
  pub reason : Option String

abbrev is_empty {ℓ} : {A : Type ℓ} → List A → Bool
is_empty [] = true
is_empty (_ ∷ _) = false

-- `!content.trim() && attachments.length === 0 && localFiles.length === 0`
unfoldable pub has_nothing : EditorState → Bool
has_nothing s =
    text_eq (trim s.content) [] && (is_empty s.metadata.attachments && is_empty s.local_files)

abbrev refuse : String → ValidationResult
refuse reason = record { valid = false; reason = some reason }

unfoldable pub can_save : EditorState → ValidationResult
unfolding has_nothing
can_save s =
    if s.ui.is_loading.loading
    then refuse "Loading memo content"
    else if has_nothing s
    then refuse "Content, attachment, or file required"
    else if s.ui.is_loading.uploading
    then refuse "Wait for upload to complete"
    else if s.ui.is_loading.saving
    then refuse "Save in progress"
    else record { valid = true; reason = none }

-- The independent description: nothing is going on, and there is something to save.
pub record MaySave (s : EditorState) : Type 0 where
  pub loaded : s.ui.is_loading.loading ≡ false
  pub uploaded : s.ui.is_loading.uploading ≡ false
  pub saved : s.ui.is_loading.saving ≡ false
  pub something :
      ((is_blank s.content ≡ false) ⊎ (s.metadata.attachments ≢ [])) ⊎ (s.local_files ≢ [])

trim-blank : (t : Text) → text_eq (trim t) [] ≡ is_blank t
trim-blank t = elim (Bool-cases (is_blank t)) [
  | inl e ↦ rw e (rw ((trim-eq-nil_iff t).1 e))
  | inr e ↦ elim (Bool-cases (text_eq (trim t) [])) [
    | inl f ↦ cc ((trim-eq-nil_iff t).0 (text_eq_sound (trim t) [] f))
    | inr f ↦ rw (e, f)
  ]
]

module _ {A : Type 0} where
  is_empty-ne : (xs : List A) → is_empty xs ≡ false → xs ≢ []
  is_empty-ne [] h = cc
  is_empty-ne (x ∷ xs) h = λ e. cc

  ne-is_empty : (xs : List A) → xs ≢ [] → is_empty xs ≡ false
  ne-is_empty [] h = absurd (h refl)
  ne-is_empty (x ∷ xs) h = refl

can_save_sound : (s : EditorState) → (can_save s).valid ≡ true → MaySave s
unfolding can_save
can_save_sound s h = record {
  loaded = ground arith;
  uploaded = ground arith;
  saved = ground arith;
  something =
      ground (
        arith,
        trim-blank s.content,
        is_empty-ne s.metadata.attachments,
        is_empty-ne s.local_files,
      );
}

can_save_complete : (s : EditorState) → MaySave s → (can_save s).valid ≡ true
unfolding can_save
can_save_complete s m =
    ground
      (arith, trim-blank s.content, ne-is_empty s.metadata.attachments, ne-is_empty s.local_files)

-- A save is allowed exactly when nothing is being loaded, uploaded or saved and the draft has text
-- that is not all white space, an attachment or a local file.
pub can_save_iff : (s : EditorState) → ((can_save s).valid ≡ true) ↔ MaySave s
can_save_iff s = (can_save_sound s, can_save_complete s)

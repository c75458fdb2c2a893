-- ===== src/MemoEditor/Attachments/Laws.antt =====
-- The split of the attachments into media and documents.
use mathlib.Core.List.{append_assoc, append-nil}
use kube_memos_eks.MemoEditor.Attachments.{
  AttachmentItem, FileCategory, image, video, document, eq_category, filter_by_category, is_media,
  separate_from, separate_media_and_docs,
}
use kube_memos_eks.Base.{
  if◌then◌else◌, Bool-cases, any, ◌≡◌, refl, sym, ap, ◌∙◌, inl, inr, ◌||◌, List, [], ◌∷◌, ◌++◌,
}

abbrev documents : List AttachmentItem → List AttachmentItem
documents items = filter_by_category items (document ∷ [])

abbrev medias : List AttachmentItem → List AttachmentItem
medias items = filter_by_category items (image ∷ video ∷ [])

medias-cons :
    (i : AttachmentItem) (items : List AttachmentItem)
    → medias (i ∷ items) ≡ (if is_media i then i ∷ medias items else medias items)
unfolding filter_by_category
medias-cons i items = on i.category
  where
    on :
        (c : FileCategory)
        → (if any (eq_category c) (image ∷ video ∷ []) then i ∷ medias items else medias items)
          ≡ (if eq_category c image || eq_category c video then i ∷ medias items else medias items)
    on image = refl
    on video = refl
    on document = refl

documents-cons :
    (i : AttachmentItem) (items : List AttachmentItem)
    → documents (i ∷ items) ≡ (if is_media i then documents items else i ∷ documents items)
unfolding filter_by_category
documents-cons i items = on i.category
  where
    on :
        (c : FileCategory)
        → (if any (eq_category c) (document ∷ []) then i ∷ documents items else documents items) ≡ (
            if eq_category c image || eq_category c video
            then documents items
            else i ∷ documents items)
    on image = refl
    on video = refl
    on document = refl

separate_from_lem :
    (media docs items : List AttachmentItem)
    → separate_from media docs items ≡ (media ++ medias items, docs ++ documents items)
unfolding filter_by_category
separate_from_lem media docs [] =
    ap (λ x. (x, docs)) (sym (append-nil media))
    ∙ ap (λ x. (media ++ [], x)) (sym (append-nil docs))
separate_from_lem media docs (i ∷ items) = elim (Bool-cases (is_media i)) [
  | inl e ↦
      let m = medias-cons i items ∙ ap (λ b. if b then i ∷ medias items else medias items) e in
      let d =
        documents-cons i items ∙ ap (λ b. if b then documents items else i ∷ documents items) e in
      ap
        (λ b.
          if b
          then separate_from (media ++ i ∷ []) docs items
          else separate_from media (docs ++ i ∷ []) items)
        e
      ∙ separate_from_lem (media ++ i ∷ []) docs items
      ∙ ap (λ x. (x, docs ++ documents items)) (append_assoc media (i ∷ []) (medias items))
      ∙ ap (λ x. (media ++ x, docs ++ documents items)) (sym m)
      ∙ ap (λ x. (media ++ medias (i ∷ items), docs ++ x)) (sym d)
  | inr e ↦
      let m = medias-cons i items ∙ ap (λ b. if b then i ∷ medias items else medias items) e in
      let d =
        documents-cons i items ∙ ap (λ b. if b then documents items else i ∷ documents items) e in
      ap
        (λ b.
          if b
          then separate_from (media ++ i ∷ []) docs items
          else separate_from media (docs ++ i ∷ []) items)
        e
      ∙ separate_from_lem media (docs ++ i ∷ []) items
      ∙ ap (λ x. (media ++ medias items, x)) (append_assoc docs (i ∷ []) (documents items))
      ∙ ap (λ x. (media ++ x, docs ++ i ∷ documents items)) (sym m)
      ∙ ap (λ x. (media ++ medias (i ∷ items), docs ++ x)) (sym d)
]

-- The split gives the items that the two filters by category give, in their order: images and videos
-- on one side, documents on the other.
pub separate_media_and_docs_lem :
    (items : List AttachmentItem)
    → separate_media_and_docs items
      ≡ (filter_by_category items (image ∷ video ∷ []), filter_by_category items (document ∷ []))
unfolding separate_media_and_docs
separate_media_and_docs_lem items = separate_from_lem [] [] items

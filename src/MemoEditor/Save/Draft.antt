-- ===== src/MemoEditor/Save/Draft.antt =====
-- The draft of a new memo in local storage, and the first load of the editor.
use kube_memos_eks.MemoEditor.State.{LoadingKey, set_loading, Visibility}
use kube_memos_eks.MemoEditor.Reducer.{editor_reducer}
use kube_memos_eks.MemoEditor.Service.{Externals, MemoClient}
use kube_memos_eks.MemoEditor.Save.{dispatch, Page, cache_save, cache_load, init, init_new}
use kube_memos_eks.Base.{
  if◌then◌else◌, Bool-cases, Text, text_eq, text_eq_iff, trim, is_blank, Storage, trim-eq-nil_iff,
  ok, String, ◌≡◌, refl, inl, inr, true, false, Option, none, some, [], ◌∷◌, arith, eq_iff,
}

blank-ne :
    (content : Text)
    → is_blank content ≡ false
    → (text_eq (trim content) [] ≡ false) × (text_eq content [] ≡ false)
blank-ne [] h = cc
blank-ne (c ∷ s) h = ground (arith, text_eq_iff (trim (c ∷ s)) [], trim-eq-nil_iff (c ∷ s))

-- What `save` stores, `load` finds; a draft of white space is stored as no draft.
pub cache_load-cache_save :
    (key : String) (content : Text) (st st' : Storage Text)
    → cache_save key content st ≡ ok st'
    → cache_load key st' ≡ ok (if is_blank content then [] else content)
unfolding cache_save cache_load
cache_load-cache_save key content st st' saved = elim (Bool-cases (is_blank content)) [
  | inl blank ↦
      rw blank
        (ground (arith, text_eq_iff (trim content) [], trim-eq-nil_iff content, eq_iff key key))
  | inr full ↦ rw full (ground (arith, blank-ne content full, eq_iff key key))
]

load_saved :
    (key : String) (content : Text) (st st' : Storage Text)
    → is_blank content ≡ false
    → cache_save key content st ≡ ok st'
    → cache_load key st' ≡ ok content
load_saved key content st st' full saved =
    rw full at (cache_load-cache_save key content st st' saved)

init_new-content :
    {W : Type 0} (key : String) (content : Text) (v : Option Visibility) (p : Page W)
    → cache_load key p.cache ≡ ok content
    → text_eq content [] ≡ false
    → (init_new key v p).editor.content ≡ content
unfolding init_new editor_reducer
init_new-content key content none p cached full = rw (cached, init_new, full)
init_new-content key content (some v) p cached full = rw (cached, init_new, full)

module _ {W : Type 0} (x : Externals) (client : MemoClient W) where
  -- The draft that the last automatic save stored is in the editor of a new memo after its first
  -- load, whatever the editor held; and the loading flag is down.
  pub init-cache_save :
      (key : String) (content : Text) (st : Storage Text) (v : Option Visibility) (p : Page W)
      → is_blank content ≡ false
      → cache_save key content st ≡ ok p.cache
      → ((init x client none key v p).editor.content ≡ content)
        × ((init x client none key v p).editor.ui.is_loading.loading ≡ false)
  unfolding init editor_reducer
  init-cache_save key content st v p full saved =
      let busy = dispatch (set_loading LoadingKey.loading true) p in
      (
        init_new-content key content v busy (load_saved key content st p.cache full saved)
            (blank-ne content full).1,
        refl,
      )

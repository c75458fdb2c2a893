-- ===== src/MemoEditor/Save/AutoSave.antt =====
-- The automatic save of drafts (MemoEditor/hooks/useAutoSave.ts and the debounced `save` of
-- MemoEditor/services/cacheService.ts). All editors of the page share the one debounced function: of
-- the calls within the delay the last one runs, when the delay has passed.
use kube_memos_eks.MemoEditor.State.{Visibility}
use kube_memos_eks.MemoEditor.Service.{Externals, MemoClient}
use kube_memos_eks.MemoEditor.Save.{
  Page, cache_save, cache_load, cache_clear, init, stored_or, save_call,
}
use kube_memos_eks.MemoEditor.Save.Draft.{cache_load-cache_save, init-cache_save}
use kube_memos_eks.Base.{
  if◌then◌else◌, Bool-cases, Text, text_eq, trim, is_blank, Storage, ok, String, ◌≡◌, refl, sym, ap,
  ◌∙◌, inl, inr, true, false, Option, none, some, List, [], ◌∷◌, arith, str_eq,
}

pub record Drafts : Type 0 where
  pub pending : Option (String × Text)
  pub storage : Storage Text

-- The effect of `useAutoSave` on a key and a content: a call of `cacheService.save`.
unfoldable pub save_later : String → Text → Drafts → Drafts
save_later key content d = record d { pending = some (key, content) }

-- The delay has passed.
unfoldable pub run_pending : Drafts → Drafts
run_pending d = record { pending = none; storage = save_call d.pending d.storage }

-- `cacheService.clear`, as the editor calls it after a save.
unfoldable pub clear_draft : String → Drafts → Drafts
clear_draft key d = record d { storage = stored_or d.storage (cache_clear key d.storage) }

-- The edits of all editors, each with the editor's key.
abbrev pub edit_all : List (String × Text) → Drafts → Drafts
edit_all [] d = d
edit_all ((key, content) ∷ rest) d = edit_all rest (save_later key content d)

storage-edit_all :
    (edits : List (String × Text)) (d : Drafts) → (edit_all edits d).storage ≡ d.storage
unfolding save_later
storage-edit_all [] d = refl
storage-edit_all ((key, content) ∷ rest) d = storage-edit_all rest (save_later key content d)

cache_save-writes :
    (key : String) (content : Text) (st : Storage Text)
    → st.available ≡ true
    → st.has_room ≡ true
    → cache_save key content st ≡ ok (stored_or st (cache_save key content st))
unfolding cache_save
cache_save-writes key content st av room = elim (Bool-cases (text_eq (trim content) [])) [
  | inl e ↦ rw (e, av) refl
  | inr e ↦ rw (e, av, room) refl
]

module _ {W : Type 0} (x : Externals) (client : MemoClient W) where
  -- After whatever edits, the last one of an editor for a new memo is in that editor when the delay
  -- has passed and the page is loaded again, if the storage can be written and the text is not blank.
  pub init-run_pending :
      (edits : List (String × Text)) (key : String) (content : Text) (d : Drafts)
      (v : Option Visibility) (p : Page W)
      → is_blank content ≡ false
      → d.storage.available ≡ true
      → d.storage.has_room ≡ true
      → p.cache ≡ (run_pending (save_later key content (edit_all edits d))).storage
      → ((init x client none key v p).editor.content ≡ content)
        × ((init x client none key v p).editor.ui.is_loading.loading ≡ false)
  unfolding run_pending save_later
  init-run_pending edits key content d v p full av room loaded =
      init-cache_save x client key content d.storage v p full (
        cache_save-writes key content d.storage av room
        ∙ ap ok (
            sym (
              loaded
              ∙ ap (λ st. stored_or st (cache_save key content st)) (storage-edit_all edits d))))

cache_load-other :
    (k l : String) (content : Text) (st : Storage Text)
    → str_eq l k ≡ false
    → cache_load k (stored_or st (cache_save l content st)) ≡ cache_load k st
unfolding cache_load cache_save
cache_load-other k l content st h = ground arith

cleared-writable :
    (k : String) (st : Storage Text)
    → st.available ≡ true
    → st.has_room ≡ true
    → ((stored_or st (cache_clear k st)).available ≡ true)
      × ((stored_or st (cache_clear k st)).has_room ≡ true)
unfolding cache_clear
cleared-writable k st av room = (ground arith, ground arith)

-- The debounced function and a save of the memo: an edit of another editor within the delay drops
-- the edit that was waiting, which is then not stored; and a draft that is cleared while it waits
-- is stored again when the delay has passed.
pub run_pending_loses_and_revives :
    (k l : String) (content other : Text) (d : Drafts)
    → str_eq l k ≡ false
    → is_blank content ≡ false
    → d.storage.available ≡ true
    → d.storage.has_room ≡ true
    → (cache_load k (run_pending (save_later l other (save_later k content d))).storage
        ≡ cache_load k d.storage)
      × (cache_load k (run_pending (clear_draft k (save_later k content d))).storage ≡ ok content)
unfolding run_pending save_later clear_draft
run_pending_loses_and_revives k l content other d h full av room =
    let cleared = stored_or d.storage (cache_clear k d.storage) in
    let (av', room') = cleared-writable k d.storage av room in
    (
      cache_load-other k l other d.storage h,
      cache_load-cache_save k content cleared (stored_or cleared (cache_save k content cleared))
            (cache_save-writes k content cleared av' room')
          ∙ ap (λ b. ok (if b then [] else content)) full,
    )

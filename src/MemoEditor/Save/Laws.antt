-- ===== src/MemoEditor/Save/Laws.antt =====
-- What the save button does on each of its paths.
use kube_memos_eks.Errors.{Thrown, handle_error_message}
use kube_memos_eks.MemoEditor.State.{EditorState, EditorAction, set_loading, reset}
use kube_memos_eks.MemoEditor.State
use kube_memos_eks.MemoEditor.Reducer.{editor_reducer}
use kube_memos_eks.MemoEditor.Reducer.Laws.{SameDraft}
use kube_memos_eks.MemoEditor.Validation.{can_save}
use kube_memos_eks.MemoEditor.Service.{Externals, MemoClient, SaveOptions, save}
use kube_memos_eks.MemoEditor.Save.{Page, Desk, Event, play, desk, handle_save, cache_clear}
use kube_memos_eks.Base.{
  length, Text, Storage, update, ok, err, security_error, ◌+◌, String, ◌≡◌, refl, true, false, none,
  List, [], ◌∷◌, ◌++◌, arith, length-append,
}

cache_clear_unavailable :
    (key : String) (cache : Storage Text)
    → cache.available ≡ false
    → cache_clear key cache ≡ err security_error
unfolding cache_clear
cache_clear_unavailable key cache h = ground arith

module _ {W : Type 0} (x : Externals) (client : MemoClient W) where
  module _ (o : SaveOptions) (key : String) (during typed : List Event) (p : Page W) where
    abbrev pub saved_page : Page W
    saved_page = handle_save x client o key during typed p

    -- A click that may not save changes nothing but the messages shown.
    pub handle_save_refused :
        (can_save p.editor).valid ≡ false
        → (shown : List String) × (saved_page ≡ record p { toasts = shown })
    unfolding handle_save
    handle_save_refused h = rw h (_, refl)

    -- Once a click has passed the check, the saving flag is down at the end, whether the save fails or
    -- succeeds and whatever was typed meanwhile.
    pub handle_save_saving :
        (can_save p.editor).valid ≡ true → saved_page.editor.ui.is_loading.saving ≡ false
    unfolding handle_save editor_reducer
    handle_save_saving h = ground arith

    -- What the user and the timer have changed when the save comes back.
    abbrev pub awaited : Desk
    awaited =
        play key during
          (record (desk p) { editor = editor_reducer p.editor (set_loading State.saving true) })

    -- The same when the queries are refreshed, from an editor whose stored draft was removed.
    abbrev pub refreshed : Desk
    refreshed = play key typed (record awaited {
      cache = record awaited.cache { items = update awaited.cache.items key none };
    })

    -- A failed save loses nothing: the draft, the stored draft and the one that waits to be stored are
    -- what the user and the timer made of them meanwhile, one message is shown, and the parent is told
    -- nothing.
    pub handle_save_failure :
        (e : Thrown) (w : W)
        → (can_save p.editor).valid ≡ true
        → save x client p.editor o p.server ≡ (err e, w)
        → SameDraft awaited.editor saved_page.editor
          × (saved_page.cache ≡ awaited.cache)
          × (saved_page.pending ≡ awaited.pending)
          × (length saved_page.toasts ≡ length p.toasts + 1)
          × (saved_page.confirmed ≡ p.confirmed)
          × (saved_page.cancelled ≡ p.cancelled)
    unfolding handle_save editor_reducer
    handle_save_failure e w h failed =
        rw (h, failed)
          (
            record { content = refl; metadata = refl; timestamps = refl; local_files = refl },
            refl,
            refl,
            length-append p.toasts (_ ∷ []),
            refl,
            refl,
          )

    -- Where the browser forbids storage, a save that reached the server is reported as failed: the
    -- server's world is the one after the save, but an error is shown, the draft stays, no query is
    -- marked stale and the parent is told nothing.
    pub handle_save_no_storage :
        (name : String) (w : W)
        → (can_save p.editor).valid ≡ true
        → awaited.cache.available ≡ false
        → save x client p.editor o p.server
          ≡ (ok (record { memo_name = name; has_changes = true }), w)
        → SameDraft awaited.editor saved_page.editor
          × (saved_page.server ≡ w)
          × (saved_page.toasts ≡ p.toasts ++ "Failed to save memo: SecurityError" ∷ [])
          × (saved_page.invalidated ≡ p.invalidated)
          × (saved_page.confirmed ≡ p.confirmed)
    unfolding handle_save editor_reducer handle_error_message
    handle_save_no_storage name w h room done =
        rw (h, done, cache_clear_unavailable key awaited.cache room)
          (
            record { content = refl; metadata = refl; timestamps = refl; local_files = refl },
            refl,
            refl,
            refl,
            refl,
          )

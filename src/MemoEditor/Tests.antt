-- ===== src/MemoEditor/Tests.antt =====
-- The editor at a concrete draft, with a server that keeps one memo.
mod Equality
use kube_memos_eks.MemoEditor.Tests.Equality.{externals}
use kube_memos_eks.Errors.{an_error}
use kube_memos_eks.MemoEditor.State
use kube_memos_eks.MemoEditor.State.{
  Visibility, private, protected, public, Attachment, RelationType, unspecified, reference, comment,
  RelatedMemo, MemoRelation, Location, LocalFile, EditorState, EditorAction, update_content,
  set_loading,
}
use kube_memos_eks.MemoEditor.Service.{
  Memo, Externals, MemoClient, SaveOptions, build_update_mask, mask_update_time, mask_create_time,
  mask_touch, has_path, mask_location, mask_relations, mask_attachments, mask_visibility,
  mask_content, add_path, save, load, state_of, upload_files,
}
use kube_memos_eks.MemoEditor.Service.Laws.{
  SendsDraft, Unchanged, build_update_mask-SendsDraft, build_update_mask-eq-nil_iff,
}
use kube_memos_eks.MemoEditor.Attachments.{
  AttachmentItem, image, video, document, attachment_to_item, file_to_item, filter_by_category,
  separate_media_and_docs,
}
use kube_memos_eks.MemoEditor.Attachments.Laws.{separate_media_and_docs_lem}
use kube_memos_eks.MemoEditor.Service.Effects.{save_unchanged, save_upload_failed, save-load}
use kube_memos_eks.MemoEditor.Reducer.{editor_reducer}
use kube_memos_eks.MemoEditor.Reducer.Laws.{SameDraft}
use kube_memos_eks.MemoEditor.Validation.{can_save, MaySave, can_save_iff}
use kube_memos_eks.MemoEditor.Save.{
  Page, Desk, Event, acts, fires, QueryKey, handle_save, init, cache_save, cache_load, cache_clear,
}
use kube_memos_eks.MemoEditor.Save.Laws.{
  awaited, refreshed, handle_save_failure, handle_save_no_storage, handle_save_saving,
}
use kube_memos_eks.MemoEditor.Save.Draft.{cache_load-cache_save, init-cache_save}
use kube_memos_eks.MemoEditor.Save.AutoSave.{
  Drafts, save_later, run_pending, clear_draft, edit_all, init-run_pending,
  run_pending_loses_and_revives,
}
use kube_memos_eks.Base.{
  if◌then◌else◌, Text, codes, is_space, trim, Storage, ok, err, ℕ, ◌+◌, ◌≡◌, refl, inl, inr, true,
  false, none, some, List, [], ◌∷◌, str_eq, length,
}

-- The server's world is its memo and the number of its writes; an upload gives the file a name.
pub record World : Type 0 where
  pub memo : Memo
  pub writes : ℕ

abbrev written : World → World
written w = record w { writes = w.writes + 1 }

abbrev client : MemoClient World
client = record {
  array_buffer = λ f w. (ok f.bytes, w);
  create_attachment = λ a w. (
    if str_eq a.filename "bad"
        then err (an_error "refused" none)
        else ok (record a { name = "attachments/1" }),
    w,
  );
  get_memo = λ name w. (ok w.memo, w);
  update_memo = λ patch mask w. (ok w.memo, written w);
  create_memo = λ patch w. (ok w.memo, written w);
  create_memo_comment = λ parent patch w. (ok w.memo, written w);
}

abbrev memo : Memo
memo = record {
  name = "memos/7";
  content = codes "hello";
  visibility = public;
  attachments = [];
  relations = [];
  location = none;
  create_time = some (record { seconds = 3; nanos = 0 });
  update_time = none;
}

abbrev world : World
world = record { memo = memo; writes = 0 }

abbrev loaded : EditorState
loaded = state_of externals client memo

abbrev edited : EditorState
edited = record loaded { content = codes "bye" }

abbrev bad_file : LocalFile
bad_file = record {
  file = record { name = "bad"; type = "image/png"; size = 1; bytes = 1 ∷ [] };
  preview_url = "blob:1";
}

abbrev with_file : EditorState
with_file = record edited { local_files = bad_file ∷ [] }

abbrev existing : SaveOptions
existing = record { memo_name = some "memos/7"; parent_memo_name = none }

loaded-Unchanged : Unchanged externals memo loaded []
loaded-Unchanged = record {
  content = refl;
  visibility = refl;
  attachments = refl;
  relations = refl;
  location = refl;
  create_time = inr refl;
  update_time = inl refl;
}

build_update_mask-SendsDraft_example :
    SendsDraft edited [] memo (build_update_mask externals memo edited [])
build_update_mask-SendsDraft_example = build_update_mask-SendsDraft externals memo edited []

save_unchanged_example :
    save externals client loaded existing world
    ≡ (ok (record { memo_name = "memos/7"; has_changes = false }), world)
unfolding upload_files
save_unchanged_example =
    save_unchanged externals client loaded "memos/7" none [] memo world world world refl refl refl
      loaded-Unchanged

save-load_example :
    save externals client loaded existing world
    ≡ (ok (record { memo_name = "memos/7"; has_changes = false }), world)
unfolding load
save-load_example =
    save-load externals client "memos/7" loaded memo world world world refl refl refl refl

abbrev drafts : Storage Text
drafts = record { available = true; has_room = true; items = λ _. some (codes "draft") }

abbrev no_drafts : Storage Text
no_drafts = record { available = false; has_room = false; items = λ _. none }

abbrev page_of : EditorState → Storage Text → Page World
page_of s cache = record {
  editor = s;
  cache = cache;
  pending = none;
  server = world;
  toasts = [];
  invalidated = [];
  confirmed = [];
  cancelled = 0;
}

abbrev typing : List Event
typing = acts (update_content (codes "more")) ∷ fires ∷ []

edited_may : (can_save edited).valid ≡ true
unfolding can_save trim is_space
edited_may = refl

with_file_may : (can_save with_file).valid ≡ true
unfolding can_save trim is_space
with_file_may = refl

edited_saved :
    save externals client edited existing world
    ≡ (ok (record { memo_name = "memos/7"; has_changes = true }), written world)
unfolding save build_update_mask mask_update_time mask_create_time mask_touch has_path mask_location
    mask_relations mask_attachments mask_visibility mask_content add_path
edited_saved = refl

with_file_fails :
    save externals client with_file existing world ≡ (err (an_error "refused" none), world)
unfolding save
with_file_fails = refl

abbrev saved_edits : Page World
saved_edits = handle_save externals client existing "key" typing [] (page_of edited drafts)

abbrev failed_page : Page World
failed_page = handle_save externals client existing "key" typing [] (page_of with_file drafts)

abbrev unstored_page : Page World
unstored_page = handle_save externals client existing "key" typing [] (page_of edited no_drafts)

-- The page when the save comes back.
abbrev came_back : Page World → Desk
came_back = awaited externals client existing "key" typing []

-- What was typed while the save was awaited is stored by the timer, and stays when the save fails;
-- when it succeeds, it is removed, and the emptied editor waits to be stored.
stored_meanwhile :
    (failed_page.cache.items "key" ≡ some (codes "more"))
    × (failed_page.pending ≡ none)
    × (saved_edits.cache.items "key" ≡ none)
    × (saved_edits.pending ≡ some ("key", []))
unfolding handle_save editor_reducer cache_save cache_clear can_save save build_update_mask
    mask_update_time mask_create_time mask_touch has_path mask_location mask_relations
    mask_attachments mask_visibility mask_content add_path trim is_space
stored_meanwhile = (refl, refl, refl, refl)

abbrev cleared : Page World → Desk
cleared = refreshed externals client existing "key" typing []

handle_save_failure_example :
    SameDraft (came_back (page_of with_file drafts)).editor failed_page.editor
    × (failed_page.cache ≡ (came_back (page_of with_file drafts)).cache)
    × (failed_page.pending ≡ (came_back (page_of with_file drafts)).pending)
    × (length failed_page.toasts ≡ 1)
    × (failed_page.confirmed ≡ [])
    × (failed_page.cancelled ≡ 0)
handle_save_failure_example =
    handle_save_failure externals client existing "key" typing [] (page_of with_file drafts)
      (an_error "refused" none) world with_file_may with_file_fails

handle_save_no_storage_example :
    SameDraft (came_back (page_of edited no_drafts)).editor unstored_page.editor
    × (unstored_page.server ≡ written world)
    × (unstored_page.toasts ≡ "Failed to save memo: SecurityError" ∷ [])
    × (unstored_page.invalidated ≡ [])
    × (unstored_page.confirmed ≡ [])
unfolding cache_save editor_reducer trim is_space
handle_save_no_storage_example =
    handle_save_no_storage externals client existing "key" typing [] (page_of edited no_drafts)
      "memos/7" (written world) edited_may refl edited_saved

abbrev no_edits : Drafts
no_edits = record { pending = none; storage = drafts }

init-run_pending_example :
    ((init externals client none "key" none (
        page_of edited
          (run_pending (
            save_later "key"
              (codes "hi")
              (edit_all (("key", codes "h") ∷ []) no_edits))).storage)).editor.content
      ≡ codes "hi")
    × ((init externals client none "key" none (
          page_of edited
            (run_pending
              (save_later "key" (codes "hi") (edit_all (("key", codes "h") ∷ []) no_edits))).storage
                )).editor.ui.is_loading.loading
        ≡ false)
unfolding is_space
init-run_pending_example =
    init-run_pending externals client (("key", codes "h") ∷ []) "key" (codes "hi") no_edits none
      (page_of edited
        (run_pending
          (save_later "key" (codes "hi") (edit_all (("key", codes "h") ∷ []) no_edits))).storage)
      refl refl refl refl

run_pending_loses_and_revives_example :
    (cache_load "new"
        (run_pending
          (save_later "comment" (codes "b") (save_later "new" (codes "a") no_edits))).storage
      ≡ cache_load "new" drafts)
    × (cache_load "new"
          (run_pending (clear_draft "new" (save_later "new" (codes "a") no_edits))).storage
        ≡ ok (codes "a"))
unfolding is_space
run_pending_loses_and_revives_example =
    run_pending_loses_and_revives "new" "comment" (codes "a") (codes "b") no_edits refl refl refl
      refl

abbrev shown_items : List AttachmentItem
shown_items =
    attachment_to_item [] (record {
      name = codes "attachments/1";
      filename = codes "a.pdf";
      type = codes "application/pdf";
      size = 3;
      external_link = [];
    })
    ∷ file_to_item (record {
      name = codes "b.png";
      type = codes "image/png";
      size = 4;
      preview_url = codes "blob:1";
    })
    ∷ []

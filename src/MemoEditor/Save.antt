-- ===== src/MemoEditor/Save.antt =====
-- The save button and the first load of the editor (MemoEditor/index.tsx, hooks/useMemoInit.ts,
-- hooks/useAutoSave.ts and services/cacheService.ts).
pub mod Laws
pub mod Draft
pub mod AutoSave
use Prim.Native.String
use kube_memos_eks.Errors.{
  Thrown, HandleOptions, handle_error_message, service_error_message, storage_thrown,
}
use kube_memos_eks.MemoEditor.State.{
  Visibility, EditorState, EditorAction, LoadingKey, PartialMetadata, init_memo, update_content,
  set_metadata, set_loading, reset,
}
use kube_memos_eks.MemoEditor.Reducer.{editor_reducer}
use kube_memos_eks.MemoEditor.Validation.{can_save}
use kube_memos_eks.MemoEditor.Service.{Externals, MemoClient, SaveOptions, SaveResult, save, load}
use kube_memos_eks.Base.{
  if◌then◌else◌, truthy_string, nullish, Text, text_eq, trim, Result, StorageError, Storage,
  get_item, set_item, remove_item, ok, err, ℕ, ◌+◌, String, true, false, not, Option, none, some,
  List, [], ◌∷◌, ◌++◌,
}

-- `cacheService`. What `save` does when its debounce timer fires, and the timer's delay, are apart.
unfoldable pub cache_key : String → Option String → String
cache_key username key =
    String.◌++◌ (String.◌++◌ username "-") (if truthy_string key then nullish key "" else "")

unfoldable pub cache_save : String → Text → Storage Text → Result StorageError (Storage Text)
cache_save key content storage =
    if text_eq (trim content) [] then remove_item key storage else set_item key content storage

-- `getItem(key) || ""`
unfoldable pub cache_load : String → Storage Text → Result StorageError Text
cache_load key storage = elim (get_item key storage) [ ok v ↦ ok (nullish v []) | err e ↦ err e ]

unfoldable pub cache_clear : String → Storage Text → Result StorageError (Storage Text)
cache_clear key storage = remove_item key storage

-- The keys of the query cache that the editor touches.
pub data QueryKey : Type 0 where
  memo_lists user_stats : QueryKey
  memo_comments memo_detail : String → QueryKey

-- The editor's state, and what it does outside: the draft cache, the draft whose save waits for the
-- debounce timer, the server, the messages shown, the
-- queries marked stale, and the calls of the parent's `onConfirm` and `onCancel`.
pub record Page (W : Type 0) : Type 0 where
  pub editor : EditorState
  pub cache : Storage Text
  pub pending : Option (String × Text)
  pub server : W
  pub toasts : List String
  pub invalidated : List QueryKey
  pub confirmed : List String
  pub cancelled : ℕ

-- The storage after a write that may throw: out of the timer nothing catches it.
abbrev pub stored_or : Storage Text → Result StorageError (Storage Text) → Storage Text
stored_or st (ok st') = st'
stored_or st (err _) = st

-- The debounced save that waits, run.
abbrev pub save_call : Option (String × Text) → Storage Text → Storage Text
save_call none st = st
save_call (some (key, content)) st = stored_or st (cache_save key content st)

-- What the user and the timer change while a call is awaited.
pub record Desk : Type 0 where
  pub editor : EditorState
  pub cache : Storage Text
  pub pending : Option (String × Text)

-- The effect of `useAutoSave`, which runs when the content has changed.
abbrev pub auto_save : String → Text → Desk → Desk
auto_save key before d = record d {
  pending = if text_eq before d.editor.content then d.pending else some (key, d.editor.content);
}

abbrev pub act : String → EditorAction → Desk → Desk
act key a d = auto_save key d.editor.content (record d { editor = editor_reducer d.editor a })

-- The debounce timer fires.
abbrev pub save_pending : Desk → Desk
save_pending d = record d { cache = save_call d.pending d.cache; pending = none }

-- While a call is awaited the user's typing dispatches actions, and the timer fires.
pub data Event : Type 0 where
  acts : EditorAction → Event
  fires : Event

abbrev pub happen : String → Event → Desk → Desk
happen key (acts a) d = act key a d
happen key fires d = save_pending d

abbrev pub play : String → List Event → Desk → Desk
play key [] d = d
play key (e ∷ es) d = play key es (happen key e d)

abbrev pub invalidations : Option String → List QueryKey
invalidations parent =
    memo_lists
    ∷ user_stats
    ∷ (if truthy_string parent then memo_comments (nullish parent "") ∷ [] else [])

abbrev pub only_visibility : Visibility → PartialMetadata
only_visibility v = record {
  visibility = some v;
  attachments = none;
  relations = none;
  location = none;
}

module _ {W : Type 0} where
  abbrev pub dispatch : EditorAction → Page W → Page W
  dispatch a p = record p { editor = editor_reducer p.editor a }

  abbrev pub desk : Page W → Desk
  desk p = record { editor = p.editor; cache = p.cache; pending = p.pending }

  abbrev pub with_desk : Desk → Page W → Page W
  with_desk d p = record p { editor = d.editor; cache = d.cache; pending = d.pending }

  abbrev pub await : String → List Event → Page W → Page W
  await key es p = with_desk (play key es (desk p)) p

  abbrev pub toast : String → Page W → Page W
  toast message p = record p { toasts = p.toasts ++ message ∷ [] }

  -- `finally`
  unfoldable pub finish_save : Page W → Page W
  finish_save p = dispatch (set_loading LoadingKey.saving false) p

  -- `catch`
  unfoldable pub fail_save : Thrown → Page W → Page W
  fail_save e p =
      toast
        (handle_error_message e (record {
          context = some "Failed to save memo";
          fallback_message = some (service_error_message e);
        }))
        p

  -- The rest of the `try` block once the cached draft is cleared.
  unfoldable pub succeed_save :
      SaveOptions → String → List Event → String → Storage Text → Page W → Page W
  succeed_save o key typed memo_name cache p =
      let refreshed = record p {
        cache = cache;
        invalidated = p.invalidated ++ invalidations o.parent_memo_name;
      } in
      let awaited = await key typed refreshed in
      let cleared = with_desk (act key reset (desk awaited)) awaited in
      record cleared { confirmed = cleared.confirmed ++ memo_name ∷ [] }

  unfoldable pub after_save : SaveOptions → String → List Event → SaveResult → Page W → Page W
  unfolding fail_save succeed_save cache_clear
  after_save o key typed r p =
      if not r.has_changes
      then record (toast "editor.no-changes-detected" p) { cancelled = p.cancelled + 1 }
      else elim (cache_clear key p.cache) [
        | ok cache ↦ succeed_save o key typed r.memo_name cache p
        | err e ↦ fail_save (storage_thrown e) p
      ]

  -- The two ways on from the awaited save, and `finally` behind both.
  unfoldable pub settle_save :
      SaveOptions → String → List Event → Result Thrown SaveResult × W → Page W → Page W
  unfolding finish_save fail_save after_save
  settle_save o key typed (ok r, w) busy =
      finish_save (after_save o key typed r (record busy { server = w }))
  settle_save o key typed (err e, w) busy = finish_save (fail_save e (record busy { server = w }))

  -- `handleSave`. `during` and `typed` are what happens while the save and then the
  -- refresh of the queries are awaited. The save itself is given the state of the click.
  unfoldable pub handle_save :
      Externals → MemoClient W → SaveOptions → String → List Event → List Event → Page W → Page W
  unfolding settle_save
  handle_save x client o key during typed p =
      let verdict = can_save p.editor in
      if not verdict.valid
      then toast (if truthy_string verdict.reason then nullish verdict.reason "" else "Cannot save")
          p
      else let busy = await key during (dispatch (set_loading LoadingKey.saving true) p) in
        settle_save o key typed (save x client p.editor o p.server) busy

  -- The `else` branch of `init`: the cached draft, then the default visibility. A storage error
  -- ends it.
  unfoldable pub init_new : String → Option Visibility → Page W → Page W
  init_new key default_visibility p = elim (cache_load key p.cache) [
    | err e ↦ p
    | ok cached ↦
        let drafted = if text_eq cached [] then p else dispatch (update_content cached) p in
        elim default_visibility [
          | none ↦ drafted
          | some v ↦ dispatch (set_metadata (only_visibility v)) drafted
        ]
  ]

  abbrev pub init_existing : Externals → MemoClient W → String → Page W → Page W
  init_existing x client memo_name p =
      let stale = record p { invalidated = p.invalidated ++ memo_detail memo_name ∷ [] } in
      let (outcome, w) = load x client memo_name p.server in
      elim outcome [
        | ok s ↦
            dispatch (init_memo s.content s.metadata s.timestamps) (record stale { server = w })
        | err e ↦ record stale { server = w }
      ]

  -- `init`: errors are logged, and the loading flag always falls. The save of a draft that the new
  -- content asks for, which `useAutoSave` does behind it, is not part of it.
  unfoldable pub init :
      Externals → MemoClient W → Option String → String → Option Visibility → Page W → Page W
  unfolding init_new
  init x client memo_name key default_visibility p =
      let busy = dispatch (set_loading LoadingKey.loading true) p in
      dispatch (set_loading LoadingKey.loading false) (
        if truthy_string memo_name
        then init_existing x client (nullish memo_name "") busy
        else init_new key default_visibility busy)

-- ===== src/View/Settings.antt =====
-- The settings of the memo view and their copy in local storage (contexts/ViewContext.tsx). The JSON
-- form of the settings is a parameter.
use kube_memos_eks.Base.{
  if◌then◌else◌, truthy, nullish, Result, StorageError, Storage, get_item, set_item, attempt, ok,
  err, String, ◌≡◌, refl, ap, Bool, true, false, not, Option, none, some, List, [], ◌∷◌, arith,
  eq_iff, str_eq,
}

pub data LayoutMode : Type 0 where
  list masonry : LayoutMode

pub record ViewState : Type 0 where
  pub order_by_time_asc : Bool
  pub layout : LayoutMode

-- What the program reads of a stored object: the truth of the one key, where it has a value, and the
-- other if it is a text.
pub record StoredView : Type 0 where
  pub order_by_time_asc : Option Bool
  pub layout : Option String

abbrev pub name_of_layout : LayoutMode → String
name_of_layout list = "LIST"
name_of_layout masonry = "MASONRY"

abbrev pub stored_of : ViewState → StoredView
stored_of s = record {
  order_by_time_asc = some s.order_by_time_asc;
  layout = some (name_of_layout s.layout);
}

-- `JSON.stringify` and `JSON.parse` here: a text that does not parse, or parses to `null`, throws.
pub record ViewJson : Type 0 where
  pub stringify : ViewState → String
  pub parse : String → Option StoredView
  pub parse-stringify : (s : ViewState) → parse (stringify s) ≡ some (stored_of s)
  pub stringify-truthy : (s : ViewState) → truthy (stringify s) ≡ true

abbrev pub local_storage_key : String
local_storage_key = "memos-view-setting"

abbrev pub default_view : ViewState
default_view = record { order_by_time_asc = false; layout = list }

-- `["LIST", "MASONRY"].includes(data.layout) ? data.layout : "LIST"`
abbrev pub valid_layout : Option String → LayoutMode
valid_layout none = list
valid_layout (some s) = if str_eq s "MASONRY" then masonry else list

abbrev pub read_view : Option StoredView → ViewState
read_view none = default_view
read_view (some d) = record {
  order_by_time_asc = nullish d.order_by_time_asc false;
  layout = valid_layout d.layout;
}

valid_layout-name_of_layout : (m : LayoutMode) → valid_layout (some (name_of_layout m)) ≡ m
valid_layout-name_of_layout list = refl
valid_layout-name_of_layout masonry = refl

read_view-stored_of : (s : ViewState) → read_view (some (stored_of s)) ≡ s
read_view-stored_of s = ap (λ m. record s { layout = m }) (valid_layout-name_of_layout s.layout)

pub data Operation : Type 0 where
  toggles : Operation
  sets : LayoutMode → Operation

module _ (j : ViewJson) where
  abbrev from_cached : Result StorageError (Option String) → ViewState
  from_cached (err _) = default_view
  from_cached (ok none) = default_view
  from_cached (ok (some cached)) =
      if truthy cached then read_view (j.parse cached) else default_view

  -- `getInitialState`
  unfoldable pub get_initial_state : Storage String → ViewState
  get_initial_state st = from_cached (get_item local_storage_key st)

  -- `persistToStorage`
  unfoldable pub persist_to_storage : ViewState → Storage String → Storage String
  persist_to_storage s st = attempt (set_item local_storage_key (j.stringify s) ∷ []) st

  -- `toggleSortOrder` and `setLayout`
  unfoldable pub toggle_sort_order : ViewState × Storage String → ViewState × Storage String
  toggle_sort_order (s, st) =
      let s' = record s { order_by_time_asc = not s.order_by_time_asc } in
      (s', persist_to_storage s' st)

  unfoldable pub set_layout : LayoutMode → ViewState × Storage String → ViewState × Storage String
  set_layout layout (s, st) =
      let s' = record s { layout = layout } in (s', persist_to_storage s' st)

  abbrev pub operate : Operation → ViewState × Storage String → ViewState × Storage String
  operate toggles v = toggle_sort_order v
  operate (sets layout) v = set_layout layout v

  abbrev pub run : List Operation → ViewState × Storage String → ViewState × Storage String
  run [] v = v
  run (o ∷ os) v = run os (operate o v)

  -- The storage can be written, and a page that loads reads the settings from it.
  abbrev IsStored : ViewState × Storage String → Type 0
  IsStored v = (v.1.available ≡ true) × (v.1.has_room ≡ true) × (get_initial_state v.1 ≡ v.0)

  persist-IsStored :
      (s : ViewState) (st : Storage String)
      → st.available ≡ true
      → st.has_room ≡ true
      → IsStored (s, persist_to_storage s st)
  unfolding get_initial_state persist_to_storage
  persist-IsStored s st av room = (
    ground arith,
    ground arith,
    ground (
      arith,
      j.parse-stringify s,
      j.stringify-truthy s,
      read_view-stored_of s,
      eq_iff local_storage_key local_storage_key,
    ),
  )

  operate-IsStored :
      (o : Operation) (s : ViewState) (st : Storage String)
      → st.available ≡ true
      → st.has_room ≡ true
      → IsStored (operate o (s, st))
  unfolding toggle_sort_order set_layout
  operate-IsStored toggles s st av room =
      persist-IsStored (record s { order_by_time_asc = not s.order_by_time_asc }) st av room
  operate-IsStored (sets layout) s st av room =
      persist-IsStored (record s { layout = layout }) st av room

  run-IsStored :
      (os : List Operation) (v : ViewState × Storage String) → IsStored v → IsStored (run os v)
  run-IsStored [] v h = h
  run-IsStored (o ∷ os) (s, st) (av, room, h) =
      run-IsStored os (operate o (s, st)) (operate-IsStored o s st av room)

  -- After one change of the view's settings or more, a page that loads starts with the settings that
  -- they ended with, if the storage can be written.
  pub get_initial_state-run :
      (o : Operation) (os : List Operation) (s : ViewState) (st : Storage String)
      → st.available ≡ true
      → st.has_room ≡ true
      → get_initial_state (run (o ∷ os) (s, st)).1 ≡ (run (o ∷ os) (s, st)).0
  get_initial_state-run o os s st av room =
      let (_, _, h) = run-IsStored os (operate o (s, st)) (operate-IsStored o s st av room) in h

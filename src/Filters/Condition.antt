-- ===== src/Filters/Condition.antt =====
-- The filter expression that a memo list is asked for with, and the list's order
-- (hooks/useMemoFilters.ts and hooks/useMemoSorting.ts). Reading a day as a moment is the
-- platform's `Date`: an argument that gives the first second of the day, printed.
use kube_memos_eks.Filters.Query.{MemoFilter}
use kube_memos_eks.Markdown.Decimal.{is_digit, print_nat}
pub mod Sorting
use kube_memos_eks.Base.Sorting.{sort}
use kube_memos_eks.Base.{
  ltb, if◌then◌else◌, length, drop, filter, find, Text, codes, text_eq, span, starts_with, join,
  split, ℕ, ◌+◌, ◌*◌, Bool, false, not, ◌&&◌, ◌||◌, Option, none, some, List, [], ◌∷◌, ◌++◌, map,
}

pub data Visibility : Type 0 where
  visibility_unspecified private protected public : Visibility

pub record Shortcut : Type 0 where
  pub name : Text
  pub filter_text : Text

-- `extractUserIdFromName`: the digits behind the first "users/" that digits follow.
abbrev pub extract_user_id_from_name : Text → Text
extract_user_id_from_name [] = []
extract_user_id_from_name (c ∷ s) =
    let found = (span is_digit (drop 5 s)).0 in
    let rest = extract_user_id_from_name s in
    if starts_with (c ∷ s) (codes "users/") && ltb 0 (length found) then found else rest

-- `getVisibilityName`
abbrev pub get_visibility_name : Visibility → Text
get_visibility_name public = codes "PUBLIC"
get_visibility_name protected = codes "PROTECTED"
get_visibility_name private = codes "PRIVATE"
get_visibility_name visibility_unspecified = codes "PRIVATE"

-- `getShortcutId`: the last of exactly four parts.
abbrev fourth : List Text → Text
fourth (a ∷ b ∷ c ∷ d ∷ []) = d
fourth _ = []

abbrev pub get_shortcut_id : Text → Text
get_shortcut_id name = fourth (split b'/' name)

pub record UseMemoFiltersOptions : Type 0 where
  pub creator_name : Text
  pub include_shortcuts : Bool
  pub include_pinned : Bool
  pub visibilities : List Visibility

-- What the contexts give.
pub record Contexts : Type 0 where
  pub shortcuts : List Shortcut
  pub filters : List MemoFilter
  pub current_shortcut : Option Text
  pub display_with_update_time : Bool
  pub seconds_of_day : Text → ℕ

abbrev quote : Text → Text
quote s = b'"' ∷ (s ++ b'"' ∷ [])

-- One round of the loop over the filters: the condition that is pushed, if any. A factor that no test
-- names pushes none.
abbrev pub day_condition : Text → ℕ → Text
day_condition factor from =
    factor
    ++ (codes " >= "
        ++ (print_nat from
            ++ (codes " && " ++ (factor ++ (codes " < " ++ print_nat (from + 60 * 60 * 24))))))

unfoldable pub condition_of : Bool → Contexts → MemoFilter → Option Text
condition_of include_pinned x f =
    if text_eq f.factor (codes "contentSearch")
    then some (codes "content.contains(" ++ (quote f.value ++ codes ")"))
    else if text_eq f.factor (codes "tagSearch")
    then some (codes "tag in [" ++ (quote f.value ++ codes "]"))
    else if text_eq f.factor (codes "pinned")
    then (if include_pinned then some (codes "pinned") else none)
    else if text_eq f.factor (codes "property.hasLink")
    then some (codes "has_link")
    else if text_eq f.factor (codes "property.hasTaskList")
    then some (codes "has_task_list")
    else if text_eq f.factor (codes "property.hasCode")
    then some (codes "has_code")
    else if text_eq f.factor (codes "displayTime")
    then some (
        day_condition
          (if x.display_with_update_time then codes "updated_ts" else codes "created_ts")
          (x.seconds_of_day f.value))
    else none

abbrev pub push_some : Option Text → List Text → List Text
push_some none cs = cs
push_some (some c) cs = c ∷ cs

abbrev pub conditions_of : Bool → Contexts → List MemoFilter → List Text
conditions_of include_pinned x [] = []
conditions_of include_pinned x (f ∷ fs) =
    push_some (condition_of include_pinned x f) (conditions_of include_pinned x fs)

-- `creatorName` is falsy when it is missing or empty.
abbrev pub creator_condition : Text → Option Text
creator_condition [] = none
creator_condition (c ∷ s) = some (codes "creator_id == " ++ extract_user_id_from_name (c ∷ s))

abbrev is_current : Option Text → Shortcut → Bool
is_current none s = false
is_current (some id) s = text_eq (get_shortcut_id s.name) id

abbrev pub filter_of_shortcut : Option Shortcut → Option Text
filter_of_shortcut none = none
filter_of_shortcut (some s) = if ltb 0 (length s.filter_text) then some s.filter_text else none

abbrev pub shortcut_condition : Bool → Contexts → Option Text
shortcut_condition include_shortcuts x =
    if include_shortcuts
    then filter_of_shortcut (find (is_current x.current_shortcut) x.shortcuts)
    else none

abbrev pub visibility_condition : List Visibility → Option Text
visibility_condition [] = none
visibility_condition (v ∷ vs) = some (
    codes "visibility in ["
    ++ (join (codes ", ") (map (λ u. quote (get_visibility_name u)) (v ∷ vs)) ++ codes "]"))

unfoldable pub all_conditions : UseMemoFiltersOptions → Contexts → List Text
all_conditions o x = push_some (creator_condition o.creator_name) (
    push_some (shortcut_condition o.include_shortcuts x) (
      conditions_of o.include_pinned x x.filters
      ++ push_some (visibility_condition o.visibilities) []))

abbrev pub join_conditions : List Text → Option Text
join_conditions [] = none
join_conditions (c ∷ cs) = some (join (codes " && ") (c ∷ cs))

-- `useMemoFilters`
unfoldable pub use_memo_filters : UseMemoFiltersOptions → Contexts → Option Text
use_memo_filters o x = join_conditions (all_conditions o x)

-- `orderBy` of `useMemoSorting`
unfoldable pub order_by : Bool → Bool → Text
order_by pinned_first order_by_time_asc =
    let time_order =
      if order_by_time_asc then codes "display_time asc" else codes "display_time desc" in
    if pinned_first then codes "pinned desc, " ++ time_order else time_order

-- A memo, as far as the order reads it: its time in whole seconds, which without a display time is
-- that of the comparison.
pub record Sortable : Type 0 where
  pub is_listed : Bool
  pub pinned : Bool
  pub unix : ℕ

-- Whether the comparison of `listSort` puts its first argument strictly before its second.
unfoldable pub comes_before : Bool → Bool → Sortable → Sortable → Bool
comes_before pinned_first asc a b =
    if pinned_first && ((a.pinned && not b.pinned) || (not a.pinned && b.pinned))
    then a.pinned
    else if asc
    then ltb a.unix b.unix
    else ltb b.unix a.unix

-- `listSort` sorts the memos of the wanted state.
unfoldable pub list_sort : Bool → Bool → List Sortable → List Sortable
list_sort pinned_first asc memos =
    sort (comes_before pinned_first asc) (filter (λ m. m.is_listed) memos)

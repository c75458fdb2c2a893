-- ===== src/Markdown/Tasks.antt =====
-- Checking and unchecking task list items (utils/markdown-manipulation.ts). The tasks of a text come
-- from the Markdown parser (`fromMarkdown` with the GFM extensions), which is an argument: for each
-- list item with a checkbox, its line counted from 1 and whether it is checked, in document order.
use kube_memos_eks.Markdown.ListItem.{newline, after_bullet, after_checkbox, is_mark}
pub mod Laws
pub mod Toggle
pub mod Extract
use mathlib.Core.Option
use kube_memos_eks.Base.{
  ◌==◌, if◌then◌else◌, length, get_elem?, set, filter, all, Text, is_space, is_line_terminator,
  span, drop_spaces, join, split, ℕ, ◌-◌, Bool, false, not, ◌&&◌, Option, none, some, List, [], ◌∷◌,
  ◌++◌, map,
}

pub record TaskNode : Type 0 where
  pub line : ℕ
  pub checked : Bool

pub record TaskInfo : Type 0 where
  pub line_number : ℕ
  pub checked : Bool

-- `extractTasksFromAst`: a line that is 0 is falsy, and its item is passed over.
unfoldable pub extract_tasks_from_ast : (Text → List TaskNode) → Text → List TaskInfo
extract_tasks_from_ast from_markdown markdown =
    map (λ n. record { line_number = n.line - 1; checked = n.checked })
      (filter (λ n. not (n.line == 0)) (from_markdown markdown))

-- `.*$` after `\s+`, in a line: the pattern has no flag, so `.` stops at a line terminator and `$` is
-- the end of the text. White space before the rest may be a line terminator.
abbrev pub is_rest : Text → Bool
is_rest s = all (λ c. not (is_line_terminator c)) (drop_spaces s)

-- `(\s+.*)$`. Where the suffix is matched at all, a match exists with `\s+` the whole white space.
abbrev pub is_suffix : Text → Bool
is_suffix [] = false
is_suffix (c ∷ s) = is_space c && is_rest s

-- The three groups of `^(\s*[-*+]\s+)\[([ xX])\](\s+.*)$`, without the mark between them: no class
-- that repeats meets what follows it.
pub record TaskLine : Type 0 where
  pub prefix : Text
  pub suffix : Text

abbrev pub task_suffix : Text → Text → Option TaskLine
task_suffix prefix (a ∷ b ∷ c ∷ s) =
    if a == b'[' && (is_mark b && (c == b']' && is_suffix s))
    then some (record { prefix = prefix; suffix = s })
    else none
task_suffix prefix _ = none

abbrev pub task_spaces : Text → Text → Option TaskLine
task_spaces prefix [] = none
task_spaces prefix (c ∷ s) =
    if is_space c then task_suffix (prefix ++ c ∷ (span is_space s).0) (span is_space s).1 else none

abbrev pub after_symbol : Text → Option (ℕ × Text) → Option TaskLine
after_symbol indent none = none
after_symbol indent (some (symbol, r)) = task_spaces (indent ++ symbol ∷ []) r

abbrev pub task_bullet : Text × Text → Option TaskLine
task_bullet (indent, s) = after_symbol indent (after_bullet s)

unfoldable pub match_task_line : Text → Option TaskLine
match_task_line line = task_bullet (span is_space line)

-- The mark of a box.
abbrev pub checkmark : Bool → ℕ
checkmark checked = if checked then b'x' else 32

abbrev pub write_task : Bool → TaskLine → Text
write_task checked m = m.prefix ++ b'[' ∷ checkmark checked ∷ b']' ∷ m.suffix

-- A line of a text is replaced where it is a task.
abbrev pub toggle_line : Bool → Text → Option Text
toggle_line checked line = elim (match_task_line line) [
  | none ↦ none
  | some m ↦ some (write_task checked m)
]

-- `toggleTaskAtLine`, for a line number that is not negative.
unfoldable pub toggle_task_at_line : Text → ℕ → Bool → Text
toggle_task_at_line markdown n checked = elim (get_elem? (split newline markdown) n) [
  | none ↦ markdown
  | some line ↦ elim (toggle_line checked line) [
    | none ↦ markdown
    | some new ↦ join (newline ∷ []) (set (split newline markdown) n new)
  ]
]

module _ (from_markdown : Text → List TaskNode) where
  -- `toggleTaskAtIndex`
  unfoldable pub toggle_task_at_index : Text → ℕ → Bool → Text
  toggle_task_at_index markdown i checked =
      elim (get_elem? (extract_tasks_from_ast from_markdown markdown) i) [
        | none ↦ markdown
        | some t ↦ toggle_task_at_line markdown t.line_number checked
      ]

  pub record TaskCount : Type 0 where
    pub total : ℕ
    pub completed : ℕ
    pub incomplete : ℕ

  -- `countTasks`
  unfoldable pub count_tasks : Text → TaskCount
  count_tasks markdown =
      let tasks = extract_tasks_from_ast from_markdown markdown in
      let completed = length (filter (λ t. t.checked) tasks) in
      record { total = length tasks; completed = completed; incomplete = length tasks - completed }

  -- `getTaskLineNumber`: `none` is -1.
  unfoldable pub get_task_line_number : Text → ℕ → Option ℕ
  get_task_line_number markdown i =
      Option.map (λ t. t.line_number) (get_elem? (extract_tasks_from_ast from_markdown markdown) i)

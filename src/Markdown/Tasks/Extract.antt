-- ===== src/Markdown/Tasks/Extract.antt =====
-- The tasks of a text with what stands behind their boxes (`extractTasks` of
-- utils/markdown-manipulation.ts).
use kube_memos_eks.Markdown.ListItem.{newline, after_bullet, after_checkbox, after_spaces}
use kube_memos_eks.Markdown.Tasks.{TaskNode}
pub mod Lines
pub mod Laws
use mathlib.Core.Option
use kube_memos_eks.Base.{
  ◌==◌, length, get_elem?, filter, Text, is_space, is_line_terminator, span, split, ℕ, suc, ◌-◌,
  Bool, not, Option, none, some, List, [], ◌∷◌,
}

pub record TaskItem : Type 0 where
  pub line_number : ℕ
  pub task_index : ℕ
  pub checked : Bool
  pub content : Text
  pub indentation : ℕ

-- `(.*)`, and the content is empty where there is no match.
abbrev pub content_of : Option Text → Text
content_of none = []
content_of (some s) = (span (λ c. not (is_line_terminator c)) s).0

-- `^\s*[-*+]\s+\[[ xX]\]\s+(.*)`, behind the bullet.
abbrev pub after_box : Text → Option Text
after_box r = Option.bind (Option.bind (after_spaces r) after_checkbox) after_spaces

abbrev pub content_behind : Option (ℕ × Text) → Text
content_behind none = []
content_behind (some (_, r)) = content_of (after_box r)

unfoldable pub task_content : Text → Text
task_content line = content_behind (after_bullet (span is_space line).1)

-- The length of `^(\s*)`.
abbrev pub task_indentation : Text → ℕ
task_indentation line = length (span is_space line).0

abbrev pub task_item : ℕ → TaskNode → Text → TaskItem
task_item i n line = record {
  line_number = n.line - 1;
  task_index = i;
  checked = n.checked;
  content = task_content line;
  indentation = task_indentation line;
}

abbrev pub prepend_task :
    ℕ → TaskNode → Option Text → Option (List TaskItem) → Option (List TaskItem)
prepend_task i n none rest = none
prepend_task i n (some line) none = none
prepend_task i n (some line) (some rest) = some (task_item i n line ∷ rest)

-- The tasks from an index on. Where the text has no such line, `line.match` throws: `none`.
abbrev pub extract_from : List Text → ℕ → List TaskNode → Option (List TaskItem)
extract_from lines i [] = some []
extract_from lines i (n ∷ ns) =
    prepend_task i n (get_elem? lines (n.line - 1)) (extract_from lines (suc i) ns)

unfoldable pub extract_tasks : (Text → List TaskNode) → Text → Option (List TaskItem)
extract_tasks from_markdown markdown =
    extract_from (split newline markdown) 0
      (filter (λ n. not (n.line == 0)) (from_markdown markdown))

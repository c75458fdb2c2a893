-- ===== src/Markdown/Tasks/Extract/Laws.antt =====
-- The extracted tasks: they are those that the index counts, and toggling changes only marks.
use kube_memos_eks.Markdown.Tasks.Extract.{
  TaskItem, extract_tasks, task_item, prepend_task, extract_from,
}
use kube_memos_eks.Markdown.ListItem.{newline}
use kube_memos_eks.Markdown.Tasks.{TaskNode, TaskInfo, extract_tasks_from_ast, toggle_task_at_line}
use mathlib.Core.Option
use kube_memos_eks.Markdown.Tasks.Extract.Lines.{read_line, read_line-toggle_task_at_line}
use kube_memos_eks.Base.{
  ◌==◌, get_elem?, filter, Text, split, ℕ, zero, suc, ◌-◌, ◌≡◌, refl, sym, ap, ◌∙◌, Bool, not,
  Option, none, some, List, [], ◌∷◌, map, arith,
}

abbrev info : TaskItem → TaskInfo
info t = record { line_number = t.line_number; checked = t.checked }

abbrev info_of_node : TaskNode → TaskInfo
info_of_node n = record { line_number = n.line - 1; checked = n.checked }

prepend_task-some :
    (i : ℕ) (n : TaskNode) (line? : Option Text) (rest? : Option (List TaskItem))
    (items : List TaskItem)
    → prepend_task i n line? rest? ≡ some items
    → (line : Text) × (rest : List TaskItem) × (rest? ≡ some rest)
      × (items ≡ task_item i n line ∷ rest)
prepend_task-some i n none rest? items h = cc
prepend_task-some i n (some line) none items h = cc
prepend_task-some i n (some line) (some rest) items h = (line, rest, refl, ground arith)

extract_from-info :
    (lines : List Text) (i : ℕ) (ns : List TaskNode) (items : List TaskItem)
    → extract_from lines i ns ≡ some items
    → map info items ≡ map info_of_node ns
extract_from-info lines i [] items h = ground arith
extract_from-info lines i (n ∷ ns) items h =
    let (line, rest, r, e) =
      prepend_task-some i n (get_elem? lines (n.line - 1)) (extract_from lines (suc i) ns) items
        h in
    ap (map info) e ∙ ap (info_of_node n ∷◌) (extract_from-info lines (suc i) ns rest r)

-- The tasks of `extractTasks` are, in order, those that `toggleTaskAtIndex` counts.
pub extract_tasks-extract_tasks_from_ast :
    (from_markdown : Text → List TaskNode) (markdown : Text) (items : List TaskItem)
    → extract_tasks from_markdown markdown ≡ some items
    → map info items ≡ extract_tasks_from_ast from_markdown markdown
unfolding extract_tasks extract_tasks_from_ast
extract_tasks-extract_tasks_from_ast from_markdown markdown items h =
    extract_from-info (split newline markdown) 0
      (filter (λ n. not (n.line == 0)) (from_markdown markdown)) items h

-- A task without its mark.
pub record Shape : Type 0 where
  pub line_number : ℕ
  pub task_index : ℕ
  pub read : Text × ℕ

abbrev pub shape : TaskItem → Shape
shape t = record {
  line_number = t.line_number;
  task_index = t.task_index;
  read = (t.content, t.indentation);
}

abbrev prepend_shape : ℕ → ℕ → Option (Text × ℕ) → Option (List Shape) → Option (List Shape)
prepend_shape i n none rest = none
prepend_shape i n (some read) none = none
prepend_shape i n (some read) (some rest) =
    some (record { line_number = n; task_index = i; read = read } ∷ rest)

abbrev shapes_from : List (Text × ℕ) → ℕ → List ℕ → Option (List Shape)
shapes_from lines i [] = some []
shapes_from lines i (n ∷ ns) = prepend_shape i n (get_elem? lines n) (shapes_from lines (suc i) ns)

shape-prepend_task :
    (i : ℕ) (n : TaskNode) (l : Option Text) (r : Option (List TaskItem))
    → Option.map (map shape) (prepend_task i n l r)
      ≡ prepend_shape i (n.line - 1) (Option.map read_line l) (Option.map (map shape) r)
shape-prepend_task i n none r = refl
shape-prepend_task i n (some l) none = refl
shape-prepend_task i n (some l) (some r) = refl

get_elem?-map-read_line :
    (xs : List Text) (n : ℕ)
    → Option.map read_line (get_elem? xs n) ≡ get_elem? (map read_line xs) n
get_elem?-map-read_line [] n = refl
get_elem?-map-read_line (x ∷ xs) zero = refl
get_elem?-map-read_line (x ∷ xs) (suc n) = get_elem?-map-read_line xs n

shape-extract_from :
    (lines : List Text) (i : ℕ) (ns : List TaskNode)
    → Option.map (map shape) (extract_from lines i ns)
      ≡ shapes_from (map read_line lines) i (map (λ t. t.line_number) (map info_of_node ns))
shape-extract_from lines i [] = refl
shape-extract_from lines i (n ∷ ns) =
    shape-prepend_task i n (get_elem? lines (n.line - 1)) (extract_from lines (suc i) ns)
    ∙ ap
        (λ x.
          prepend_shape i (n.line - 1) x (Option.map (map shape) (extract_from lines (suc i) ns)))
        (get_elem?-map-read_line lines (n.line - 1))
    ∙ ap (prepend_shape i (n.line - 1) (get_elem? (map read_line lines) (n.line - 1)))
        (shape-extract_from lines (suc i) ns)

module _ (from_markdown : Text → List TaskNode) where
  abbrev pub task_lines : Text → List ℕ
  task_lines markdown = map (λ t. t.line_number) (extract_tasks_from_ast from_markdown markdown)

  shape-extract_tasks :
      (markdown : Text)
      → Option.map (map shape) (extract_tasks from_markdown markdown)
        ≡ shapes_from (map read_line (split newline markdown)) 0 (task_lines markdown)
  unfolding extract_tasks extract_tasks_from_ast
  shape-extract_tasks markdown =
      shape-extract_from (split newline markdown) 0
        (filter (λ n. not (n.line == 0)) (from_markdown markdown))

  -- Toggling a task changes no task's content, indentation, line or index, where the parser finds
  -- the tasks of the toggled text at the same lines.
  pub extract_tasks-toggle_task_at_line :
      (markdown : Text) (n : ℕ) (checked : Bool)
      → task_lines (toggle_task_at_line markdown n checked) ≡ task_lines markdown
      → Option.map
          (map shape)
          (extract_tasks from_markdown (toggle_task_at_line markdown n checked))
        ≡ Option.map (map shape) (extract_tasks from_markdown markdown)
  extract_tasks-toggle_task_at_line markdown n checked h =
      let toggled = toggle_task_at_line markdown n checked in
      shape-extract_tasks toggled
      ∙ ap (λ x. shapes_from x 0 (task_lines toggled))
          (read_line-toggle_task_at_line markdown n checked)
      ∙ ap (shapes_from (map read_line (split newline markdown)) 0) h
      ∙ sym (shape-extract_tasks markdown)

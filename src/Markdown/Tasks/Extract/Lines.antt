-- ===== src/Markdown/Tasks/Extract/Lines.antt =====
-- What is read of a task in its line, which toggling leaves.
use kube_memos_eks.Markdown.Tasks.Extract.{
  task_content, task_indentation, content_of, after_box, content_behind,
}
use kube_memos_eks.Markdown.ListItem.{newline, after_bullet, after_checkbox, after_spaces}
use kube_memos_eks.Markdown.Tasks.{TaskLine, match_task_line, write_task, toggle_task_at_line}
use kube_memos_eks.Markdown.Tasks.Laws.{
  Item, match-Item, match-write_task, bullet_not_space, Gap, span-Rest,
}
use kube_memos_eks.Markdown.Tasks.Toggle.{outcome, unchanged, changed, split-toggle}
use mathlib.Core.Option
use mathlib.Core.Option.{some-injective}
use mathlib.Core.List.{append_assoc}
use kube_memos_eks.Base.{
  if◌then◌else◌, length, get_elem?, set, Text, is_space, span, split, span_prefix, ℕ, zero, suc,
  ◌≡◌, refl, sym, ap, ◌∙◌, Bool, true, ◌&&◌, none, some, List, [], ◌∷◌, ◌++◌, map,
}

-- What a line says of its task depends only on the parts around the mark.
after_spaces-Gap :
    (prefix r : Text) (m : TaskLine) → Gap prefix r m → after_box r ≡ after_spaces m.suffix
unfolding Option.bind
after_spaces-Gap prefix r m (gap, spaces, t, e', g, hs, (mark, e'', p, k, u)) =
    ap after_box e'
    ∙ ap
        (λ b.
          Option.bind
            (Option.bind (if b then some (span is_space (spaces ++ t)).1 else none) after_checkbox)
            after_spaces)
        g
    ∙ ap (λ x. Option.bind (after_checkbox x.1) after_spaces)
        (span-Rest (prefix ++ gap ∷ spaces) spaces t m hs (mark, e'', p, k, u))
    ∙ ap (λ x. Option.bind (after_checkbox x) after_spaces) e''
    ∙ ap (λ b. Option.bind (if b && true then some m.suffix else none) after_spaces) k

task_content-Item :
    (line : Text) (m : TaskLine)
    → Item line m
    → task_content line ≡ content_of (after_spaces m.suffix)
unfolding task_content
task_content-Item line m (indent, symbol, r, e, h, b, gap) =
    ap (λ x. content_behind (after_bullet (span is_space x).1)) e
    ∙ ap (λ x. content_behind (after_bullet x.1))
        (span_prefix is_space indent symbol r h (bullet_not_space symbol b))
    ∙ ap (λ x. content_behind (if x then some (symbol, r) else none)) b
    ∙ ap content_of (after_spaces-Gap (indent ++ symbol ∷ []) r m gap)

task_indentation-Item :
    (line : Text) (m : TaskLine) → Item line m → task_indentation line ≡ task_indentation m.prefix
task_indentation-Item line m
      (indent, symbol, r, e, h, b, (gap, spaces, t, e', g, hs, (mark, e'', p, k, u))) =
    let nb = bullet_not_space symbol b in
    ap (λ x. task_indentation x) e
    ∙ ap (λ x. length x.0) (span_prefix is_space indent symbol r h nb)
    ∙ sym (
        ap (λ x. task_indentation x) (p ∙ append_assoc indent (symbol ∷ []) (gap ∷ spaces))
        ∙ ap (λ x. length x.0) (span_prefix is_space indent symbol (gap ∷ spaces) h nb))

-- What `extractTasks` reads in a line.
abbrev pub read_line : Text → Text × ℕ
read_line line = (task_content line, task_indentation line)

read_line-write_task :
    (line : Text) (m : TaskLine) (checked : Bool)
    → match_task_line line ≡ some m
    → read_line (write_task checked m) ≡ read_line line
read_line-write_task line m checked h =
    let i = match-Item line m h in
    let j = match-Item (write_task checked m) m (match-write_task line m checked h) in
    ap (λ x. (x, task_indentation (write_task checked m)))
      (task_content-Item (write_task checked m) m j ∙ sym (task_content-Item line m i))
    ∙ ap (λ x. (task_content line, x))
        (task_indentation-Item (write_task checked m) m j ∙ sym (task_indentation-Item line m i))

map-set_same :
    (xs : List Text) (n : ℕ) (v line : Text)
    → get_elem? xs n ≡ some line
    → read_line v ≡ read_line line
    → map read_line (set xs n v) ≡ map read_line xs
map-set_same [] n v line h e = refl
map-set_same (x ∷ xs) zero v line h e =
    ap (λ y. y ∷ map read_line xs) (e ∙ ap read_line (sym (some-injective x line h)))
map-set_same (x ∷ xs) (suc n) v line h e = ap (read_line x ∷◌) (map-set_same xs n v line h e)

-- Toggling a task leaves the content and the indentation that are read in each line of the text.
pub read_line-toggle_task_at_line :
    (markdown : Text) (n : ℕ) (checked : Bool)
    → map read_line (split newline (toggle_task_at_line markdown n checked))
      ≡ map read_line (split newline markdown)
read_line-toggle_task_at_line markdown n checked = elim (outcome markdown n) [
  | unchanged u ↦ ap (λ x. map read_line (split newline x)) (u checked)
  | changed line m e h ↦
      ap (map read_line) (split-toggle markdown n checked line m e h)
      ∙ map-set_same (split newline markdown) n (write_task checked m) line e
          (read_line-write_task line m checked h)
]

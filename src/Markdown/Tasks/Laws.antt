-- ===== src/Markdown/Tasks/Laws.antt =====
-- Toggling a task: what it leaves of the text, and that the last of two calls counts.
use mathlib.Core.Path.{subst}
use mathlib.Core.List.{append_assoc}
use kube_memos_eks.Markdown.ListItem.{newline, is_mark, is_bullet}
use kube_memos_eks.Markdown.Tasks.{
  TaskLine, is_suffix, task_suffix, task_spaces, task_bullet, after_symbol, match_task_line,
  checkmark, write_task,
}
use kube_memos_eks.Base.{
  ◌==◌, if◌then◌else◌, Bool-cases, all, Text, is_space, span, lacks, all-append, span-all,
  span-append, span_prefix, ℕ, ◌≡◌, refl, sym, ap, ◌∙◌, inl, inr, Bool, true, false, not, none,
  some, [], ◌∷◌, ◌++◌, arith,
}

-- What a task line that is found is made of, step by step.
abbrev pub Rest : Text → Text → TaskLine → Type 0
Rest prefix s m =
    (mark : ℕ) × (s ≡ b'[' ∷ mark ∷ b']' ∷ m.suffix)
    × (m.prefix ≡ prefix)
    × (is_mark mark ≡ true)
    × (is_suffix m.suffix ≡ true)

task_suffix-Rest :
    (prefix s : Text) (m : TaskLine) → task_suffix prefix s ≡ some m → Rest prefix s m
task_suffix-Rest prefix [] m h = cc
task_suffix-Rest prefix (a ∷ []) m h = cc
task_suffix-Rest prefix (a ∷ b ∷ []) m h = cc
task_suffix-Rest prefix (a ∷ b ∷ c ∷ s) m h =
    (b, ground arith, ground arith, ground arith, ground arith)

Rest-task_suffix :
    (prefix s : Text) (m : TaskLine) → Rest prefix s m → task_suffix prefix s ≡ some m
Rest-task_suffix prefix s m (mark, e, p, k, u) = ap (task_suffix prefix) e ∙ ground arith

abbrev pub Gap : Text → Text → TaskLine → Type 0
Gap prefix s m =
    (gap : ℕ) × (spaces : Text) × (t : Text) × (s ≡ gap ∷ (spaces ++ t))
    × (is_space gap ≡ true)
    × (all is_space spaces ≡ true)
    × Rest (prefix ++ gap ∷ spaces) t m

task_spaces-Gap : (prefix s : Text) (m : TaskLine) → task_spaces prefix s ≡ some m → Gap prefix s m
task_spaces-Gap prefix [] m h = cc
task_spaces-Gap prefix (c ∷ s) m h = elim (Bool-cases (is_space c)) [
  | inl g ↦ (
    c,
    (span is_space s).0,
    (span is_space s).1,
    ap (c ∷◌) (sym (span-append is_space s)),
    g,
    span-all is_space s,
    task_suffix-Rest (prefix ++ c ∷ (span is_space s).0) (span is_space s).1 m (ground arith),
  )
  | inr g ↦ absurd (ground arith)
]

pub span-Rest :
    (prefix spaces t : Text) (m : TaskLine)
    → all is_space spaces ≡ true
    → Rest prefix t m
    → span is_space (spaces ++ t) ≡ (spaces, t)
unfolding is_space
span-Rest prefix spaces t m h (mark, e, _, _, _) =
    ap (λ x. span is_space (spaces ++ x)) e
    ∙ span_prefix is_space spaces b'[' (mark ∷ b']' ∷ m.suffix) h refl
    ∙ ap (λ x. (spaces, x)) (sym e)

Gap-task_spaces : (prefix s : Text) (m : TaskLine) → Gap prefix s m → task_spaces prefix s ≡ some m
Gap-task_spaces prefix s m (gap, spaces, t, e, g, h, r) =
    ap (task_spaces prefix) e
    ∙ ap
        (λ b.
          if b
          then task_suffix (prefix ++ gap ∷ (span is_space (spaces ++ t)).0)
              (span is_space (spaces ++ t)).1
          else none)
        g
    ∙ ap (λ p. task_suffix (prefix ++ gap ∷ p.0) p.1)
        (span-Rest (prefix ++ gap ∷ spaces) spaces t m h r)
    ∙ Rest-task_suffix (prefix ++ gap ∷ spaces) t m r

abbrev pub Item : Text → TaskLine → Type 0
Item line m =
    (indent : Text) × (symbol : ℕ) × (r : Text) × (line ≡ indent ++ symbol ∷ r)
    × (all is_space indent ≡ true)
    × (is_bullet symbol ≡ true)
    × Gap (indent ++ symbol ∷ []) r m

task_bullet-Item :
    (indent s : Text) (m : TaskLine)
    → all is_space indent ≡ true
    → task_bullet (indent, s) ≡ some m
    → Item (indent ++ s) m
task_bullet-Item indent [] m h e = cc
task_bullet-Item indent (c ∷ s) m h e = elim (Bool-cases (is_bullet c)) [
  | inl b ↦ (indent, c, s, refl, h, b, task_spaces-Gap (indent ++ c ∷ []) s m (ground arith))
  | inr b ↦ absurd (ground arith)
]

pub match-Item : (line : Text) (m : TaskLine) → match_task_line line ≡ some m → Item line m
unfolding match_task_line
match-Item line m h =
    subst (λ x. Item x m) (span-append is_space line)
      (task_bullet-Item (span is_space line).0 (span is_space line).1 m (span-all is_space line) h)

pub bullet_not_space : (c : ℕ) → is_bullet c ≡ true → is_space c ≡ false
unfolding is_bullet is_space
bullet_not_space c h = ground arith

Item-match : (line : Text) (m : TaskLine) → Item line m → match_task_line line ≡ some m
unfolding match_task_line
Item-match line m (indent, symbol, r, e, h, b, gap) =
    ap (λ x. task_bullet (span is_space x)) e
    ∙ ap task_bullet (span_prefix is_space indent symbol r h (bullet_not_space symbol b))
    ∙ ap (λ x. after_symbol indent (if x then some (symbol, r) else none)) b
    ∙ Gap-task_spaces (indent ++ symbol ∷ []) r m gap

-- The text of a task line with any mark.
abbrev with_mark : ℕ → TaskLine → Text
with_mark k m = m.prefix ++ b'[' ∷ k ∷ b']' ∷ m.suffix

regroup :
    (indent spaces x : Text) (symbol gap : ℕ) (prefix : Text)
    → prefix ≡ (indent ++ symbol ∷ []) ++ gap ∷ spaces
    → prefix ++ x ≡ indent ++ symbol ∷ gap ∷ (spaces ++ x)
regroup indent spaces x symbol gap prefix p =
    ap (λ q. q ++ x) p
    ∙ append_assoc (indent ++ symbol ∷ []) (gap ∷ spaces) x
    ∙ append_assoc indent (symbol ∷ []) (gap ∷ (spaces ++ x))

with_mark-Item :
    (line : Text) (m : TaskLine) (k : ℕ) → Item line m → is_mark k ≡ true → Item (with_mark k m) m
with_mark-Item line m k
      (indent, symbol, r, e, h, b, (gap, spaces, t, e', g, hs, (mark, e'', p, _, u))) kk =
    let x = b'[' ∷ k ∷ b']' ∷ m.suffix in
    let body : Gap (indent ++ symbol ∷ []) (gap ∷ (spaces ++ x)) m =
      (gap, spaces, x, refl, g, hs, (k, refl, p, kk, u)) in
    (indent, symbol, gap ∷ (spaces ++ x), regroup indent spaces x symbol gap m.prefix p, h, b, body)

-- A task line is its parts with its own mark.
line-with_mark :
    (line : Text) (m : TaskLine)
    → Item line m
    → (k : ℕ) × (is_mark k ≡ true) × (line ≡ with_mark k m)
line-with_mark line m
      (indent, symbol, r, e, h, b, (gap, spaces, t, e', g, hs, (mark, e'', p, k, u))) =
    (
      mark,
      k,
      e
          ∙ ap (λ x. indent ++ symbol ∷ x) (e' ∙ ap (λ x. gap ∷ (spaces ++ x)) e'')
          ∙ sym (regroup indent spaces (b'[' ∷ mark ∷ b']' ∷ m.suffix) symbol gap m.prefix p),
    )

checkmark-is_mark : (checked : Bool) → is_mark (checkmark checked) ≡ true
checkmark-is_mark true = refl
checkmark-is_mark false = refl

-- A toggled line is again a task, with the same parts.
pub match-write_task :
    (line : Text) (m : TaskLine) (checked : Bool)
    → match_task_line line ≡ some m
    → match_task_line (write_task checked m) ≡ some m
match-write_task line m checked h =
    Item-match (write_task checked m) m
      (with_mark-Item line m (checkmark checked) (match-Item line m h) (checkmark-is_mark checked))

lacks-with_mark :
    (j k : ℕ) (m : TaskLine)
    → is_mark k ≡ true
    → lacks newline (with_mark j m) ≡ true
    → lacks newline (with_mark k m) ≡ true
lacks-with_mark j k m h l =
    let before = all-append (λ c. not (c == newline)) m.prefix (b'[' ∷ j ∷ b']' ∷ m.suffix) in
    let behind = all-append (λ c. not (c == newline)) m.prefix (b'[' ∷ k ∷ b']' ∷ m.suffix) in
    ground arith

pub lacks-write_task :
    (line : Text) (m : TaskLine) (checked : Bool)
    → match_task_line line ≡ some m
    → lacks newline line ≡ true
    → lacks newline (write_task checked m) ≡ true
lacks-write_task line m checked h l =
    let (j, _, e) = line-with_mark line m (match-Item line m h) in
    lacks-with_mark j (checkmark checked) m (checkmark-is_mark checked)
      (ap (lacks newline) (sym e) ∙ l)

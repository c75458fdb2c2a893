-- ===== src/Markdown/ListItem/Continuation.antt =====
-- A list that the editor continues is a list: the inserted line is detected as the next item.
use mathlib.Core.Option
use kube_memos_eks.Markdown.Decimal.{
  is_digit, parse_from, print_nat, parse_from-print_nat, all-print_nat, print_nat-ne,
}
use kube_memos_eks.Markdown.ListItem.{
  task, unordered, ordered, ListItemInfo, newline, is_bullet, after_spaces, number_of, indent_of,
  match_task, match_unordered, match_ordered, info_of, detect_line, last_line,
  detect_last_list_item, generate_list_continuation,
}
use kube_memos_eks.Base.{
  ◌==◌, all, Text, codes, is_space, span, drop_spaces, split_at, lacks, last, all-append,
  split_at-lacks, split-lacks, span-all, span-append, span_prefix, ℕ, ◌+◌, ◌≡◌, refl, ap, ◌∙◌, ◌≢◌,
  Bool, true, false, not, Option, none, some, List, [], ◌∷◌, ◌++◌, arith,
}

last_after_newline : (x s t : Text) → last x (split_at newline (s ++ newline ∷ t)).1 ≡ last_line t
last_after_newline x [] t = refl
last_after_newline x (c ∷ s) t = ground (
  arith,
  last_after_newline x s t,
  last_after_newline (split_at newline (s ++ newline ∷ t)).0 s t,
)

last_line-append : (s t : Text) → last_line (s ++ newline ∷ t) ≡ last_line t
last_line-append s t = last_after_newline (split_at newline (s ++ newline ∷ t)).0 s t

last_line-lacks : (t : Text) → lacks newline t ≡ true → last_line t ≡ t
last_line-lacks t h = rw (split_at-lacks newline t h)

all-last :
    (p : Text → Bool) (x : Text) (xs : List Text) → all p (x ∷ xs) ≡ true → p (last x xs) ≡ true
all-last p x [] h = ground arith
all-last p x (y ∷ ys) h = all-last p y ys (ground arith)

lacks-last_line : (s : Text) → lacks newline (last_line s) ≡ true
lacks-last_line s =
    all-last (lacks newline) (split_at newline s).0 (split_at newline s).1 (split-lacks newline s)

lacks-indent : (line : Text) → lacks newline line ≡ true → lacks newline (indent_of line) ≡ true
lacks-indent line h =
    let parts =
      all-append (λ c. not (c == newline)) (span is_space line).0 (span is_space line).1 in
    let whole = ap (lacks newline) (span-append is_space line) in ground (arith, parts, whole)

detect_line_body :
    (indent t : Text) (c : ℕ)
    → all is_space indent ≡ true
    → is_space c ≡ false
    → detect_line (indent ++ c ∷ t)
      ≡ info_of indent (match_task (c ∷ t)) (match_unordered (c ∷ t)) (match_ordered (c ∷ t))
unfolding detect_line
detect_line_body indent t c h n =
    ap (λ p. info_of p.0 (match_task p.1) (match_unordered p.1) (match_ordered p.1))
      (span_prefix is_space indent c t h n)

bullet_not_space : (c : ℕ) → is_bullet c ≡ true → (is_space c ≡ false) × ((c == newline) ≡ false)
unfolding is_bullet is_space
bullet_not_space c h = ground arith

match_task_bullet : (s : Text) (c : ℕ) → match_task s ≡ some c → is_bullet c ≡ true
unfolding match_task
match_task_bullet [] c h = cc
match_task_bullet (d ∷ s) c h = ground arith

match_unordered_bullet : (s : Text) (c : ℕ) → match_unordered s ≡ some c → is_bullet c ≡ true
unfolding match_unordered
match_unordered_bullet [] c h = cc
match_unordered_bullet (d ∷ s) c h = ground arith

-- The same item with the next number.
abbrev pub next_info : ListItemInfo → ListItemInfo
next_info i = record i { number = elim i.number [ none ↦ none | some n ↦ some (n + 1) ] }

-- The three bodies that are generated.
detect_task :
    (indent : Text) (c : ℕ)
    → all is_space indent ≡ true
    → is_bullet c ≡ true
    → detect_line (indent ++ (c ∷ codes " [ ] "))
      ≡ record { type = some task; symbol = some c; number = none; indent = indent }
unfolding Option.bind
detect_task indent c h b =
    detect_line_body indent (codes " [ ] ") c h (bullet_not_space c b).0 ∙ read
  where
    read :
        info_of indent
          (match_task (c ∷ codes " [ ] "))
          (match_unordered (c ∷ codes " [ ] "))
          (match_ordered (c ∷ codes " [ ] "))
        ≡ record { type = some task; symbol = some c; number = none; indent = indent }
    read = unfold info_of match_task is_space in rw (b, info_of, match_task)

detect_unordered :
    (indent : Text) (c : ℕ)
    → all is_space indent ≡ true
    → is_bullet c ≡ true
    → detect_line (indent ++ (c ∷ codes " "))
      ≡ record { type = some unordered; symbol = some c; number = none; indent = indent }
unfolding Option.bind
detect_unordered indent c h b =
    detect_line_body indent (codes " ") c h (bullet_not_space c b).0 ∙ read
  where
    read :
        info_of indent
          (match_task (c ∷ codes " "))
          (match_unordered (c ∷ codes " "))
          (match_ordered (c ∷ codes " "))
        ≡ record { type = some unordered; symbol = some c; number = none; indent = indent }
    read =
        unfold info_of match_task match_unordered is_space in
        rw (b, info_of, match_task, match_unordered)

digit_other : (c : ℕ) → is_digit c ≡ true → (is_space c ≡ false) × (is_bullet c ≡ false)
unfolding is_bullet is_space
digit_other c h = ground arith

match_ordered_digits :
    (c : ℕ) (ds : Text)
    → all is_digit (c ∷ ds) ≡ true
    → match_ordered ((c ∷ ds) ++ codes ". ") ≡ some (parse_from 0 (c ∷ ds))
unfolding match_ordered is_space
match_ordered_digits c ds h =
    ap
      (λ p. elim (number_of p) [
        | none ↦ none
        | some (n, r) ↦ elim (after_spaces r) [ none ↦ none | some _ ↦ some n ]
      ])
      (span_prefix is_digit (c ∷ ds) b'.' (codes " ") h refl)

detect_ordered_digits :
    (indent : Text) (c : ℕ) (ds : Text)
    → all is_space indent ≡ true
    → all is_digit (c ∷ ds) ≡ true
    → detect_line (indent ++ ((c ∷ ds) ++ codes ". ")) ≡ record {
      type = some ordered;
      symbol = none;
      number = some (parse_from 0 (c ∷ ds));
      indent = indent;
    }
unfolding Option.bind
detect_ordered_digits indent c ds h d =
    detect_line_body indent (ds ++ codes ". ") c h (digit_other c (ground arith)).0 ∙ read
  where
    read :
        info_of indent
          (match_task (c ∷ ds ++ codes ". "))
          (match_unordered (c ∷ ds ++ codes ". "))
          (match_ordered ((c ∷ ds) ++ codes ". "))
        ≡ record {
          type = some ordered;
          symbol = none;
          number = some (parse_from 0 (c ∷ ds));
          indent = indent;
        }
    read = rw (match_ordered_digits c ds d) (
        unfold info_of match_task match_unordered in
        rw ((digit_other c (ground arith)).1, info_of, match_task, match_unordered))

detect_ordered :
    (indent : Text) (n : ℕ)
    → all is_space indent ≡ true
    → detect_line (indent ++ (print_nat n ++ codes ". "))
      ≡ record { type = some ordered; symbol = none; number = some n; indent = indent }
detect_ordered indent n h = on (print_nat n) refl (print_nat-ne n)
  where
    on :
        (t : Text)
        → print_nat n ≡ t
        → t ≢ []
        → detect_line (indent ++ (t ++ codes ". "))
          ≡ record { type = some ordered; symbol = none; number = some n; indent = indent }
    on [] e ne = absurd (ne refl)
    on (c ∷ ds) e ne =
        rw (← parse_from-print_nat n, e)
          (detect_ordered_digits indent c ds h (rw e at (all-print_nat n)))

-- What the three patterns are given at the last line.
abbrev text_of : Text → Text
text_of content = drop_spaces (last_line content)

detect_lacks :
    (s body : Text)
    → lacks newline body ≡ true
    → detect_last_list_item (s ++ newline ∷ body) ≡ detect_line body
unfolding detect_last_list_item
detect_lacks s body h = ap detect_line (last_line-append s body ∙ last_line-lacks body h)

lacks-append :
    (s t : Text) → lacks newline s ≡ true → lacks newline t ≡ true → lacks newline (s ++ t) ≡ true
lacks-append s t h k = rw (all-append (λ c. not (c == newline)) s t, h, k)

lacks_digits : (s : Text) → all is_digit s ≡ true → lacks newline s ≡ true
lacks_digits [] h = refl
lacks_digits (c ∷ s) h = ground (arith, lacks_digits s)

-- A generated line has no newline, and is detected as the next item.
generated :
    (indent : Text) (s : Text) (t u o : Option ℕ)
    → lacks newline indent ≡ true
    → all is_space indent ≡ true
    → ((c : ℕ) → t ≡ some c → is_bullet c ≡ true)
    → ((c : ℕ) → u ≡ some c → is_bullet c ≡ true)
    → (info_of indent t u o).type ≢ none
    → detect_last_list_item (s ++ newline ∷ generate_list_continuation (info_of indent t u o))
      ≡ next_info (info_of indent t u o)
unfolding detect_last_list_item generate_list_continuation info_of
generated indent s (some c) u o l h bt bu ne =
    detect_lacks s (indent ++ (c ∷ codes " [ ] "))
      (lacks-append indent (c ∷ codes " [ ] ") l (ground (arith, bullet_not_space c (bt c refl))))
    ∙ detect_task indent c h (bt c refl)
generated indent s none (some c) o l h bt bu ne =
    detect_lacks s (indent ++ (c ∷ codes " "))
      (lacks-append indent (c ∷ codes " ") l (ground (arith, bullet_not_space c (bu c refl))))
    ∙ detect_unordered indent c h (bu c refl)
generated indent s none none (some n) l h bt bu ne =
    detect_lacks s (indent ++ (print_nat (n + 1) ++ codes ". ")) (
      lacks-append indent (print_nat (n + 1) ++ codes ". ") l (
        lacks-append (print_nat (n + 1)) (codes ". ")
          (lacks_digits (print_nat (n + 1)) (all-print_nat (n + 1))) refl))
    ∙ detect_ordered indent (n + 1) h
generated indent s none none none l h bt bu ne = absurd (ne refl)

-- Pressing Enter at the end of a list item gives a text whose last line is the next item: of the
-- same type, with the same symbol and indentation, and the number that follows.
pub continuation_detected :
    (content : Text)
    → (detect_last_list_item content).type ≢ none
    → detect_last_list_item
        (content ++ newline ∷ generate_list_continuation (detect_last_list_item content))
      ≡ next_info (detect_last_list_item content)
unfolding detect_last_list_item detect_line
continuation_detected content ne =
    generated (indent_of (last_line content)) content (match_task (text_of content))
      (match_unordered (text_of content)) (match_ordered (text_of content))
      (lacks-indent (last_line content) (lacks-last_line content))
      (span-all is_space (last_line content)) (match_task_bullet (text_of content))
      (match_unordered_bullet (text_of content)) ne

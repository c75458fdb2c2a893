-- ===== src/Markdown/Tasks/Toggle.antt =====
-- Toggling a task: the other lines stay, and of two calls the last counts.
use kube_memos_eks.Markdown.ListItem.{newline}
use kube_memos_eks.Markdown.Tasks.{TaskLine, match_task_line, write_task, toggle_task_at_line}
use kube_memos_eks.Markdown.Tasks.Laws.{match-write_task, lacks-write_task}
use kube_memos_eks.Base.{
  Option-cases, get_elem?, set, all, Text, join, split_at, split, lacks, split-join, split-lacks, ℕ,
  zero, suc, ◌≡◌, refl, sym, ap, ◌∙◌, ◌≢◌, inl, inr, Bool, true, some, List, [], ◌∷◌, arith,
}

all-set :
    (xs : List Text) (n : ℕ) (v : Text)
    → all (lacks newline) xs ≡ true
    → lacks newline v ≡ true
    → all (lacks newline) (set xs n v) ≡ true
all-set [] n v h l = refl
all-set (x ∷ xs) zero v h l = ground arith
all-set (x ∷ xs) (suc n) v h l = ground (arith, all-set xs n v)

split-join-set :
    (x : Text) (xs : List Text) (n : ℕ) (v : Text)
    → all (lacks newline) (x ∷ xs) ≡ true
    → lacks newline v ≡ true
    → split newline (join (newline ∷ []) (set (x ∷ xs) n v)) ≡ set (x ∷ xs) n v
split-join-set x xs zero v h l = split-join newline v xs (ground arith)
split-join-set x xs (suc n) v h l =
    split-join newline x (set xs n v) (ground (arith, all-set xs n v))

get_elem?-set :
    (xs : List Text) (n : ℕ) (v u : Text)
    → get_elem? xs n ≡ some u
    → get_elem? (set xs n v) n ≡ some v
get_elem?-set [] n v u h = cc
get_elem?-set (x ∷ xs) zero v u h = refl
get_elem?-set (x ∷ xs) (suc n) v u h = get_elem?-set xs n v u h

get_elem?-set_other :
    (xs : List Text) (n k : ℕ) (v : Text) → k ≢ n → get_elem? (set xs n v) k ≡ get_elem? xs k
get_elem?-set_other [] n k v h = refl
get_elem?-set_other (x ∷ xs) zero zero v h = absurd (h refl)
get_elem?-set_other (x ∷ xs) zero (suc k) v h = refl
get_elem?-set_other (x ∷ xs) (suc n) zero v h = refl
get_elem?-set_other (x ∷ xs) (suc n) (suc k) v h = get_elem?-set_other xs n k v (λ e. h (ap suc e))

set-set : (xs : List Text) (n : ℕ) (v w : Text) → set (set xs n v) n w ≡ set xs n w
set-set [] n v w = refl
set-set (x ∷ xs) zero v w = refl
set-set (x ∷ xs) (suc n) v w = ap (x ∷◌) (set-set xs n v w)

all-get_elem? :
    (xs : List Text) (n : ℕ) (v : Text)
    → all (lacks newline) xs ≡ true
    → get_elem? xs n ≡ some v
    → lacks newline v ≡ true
all-get_elem? [] n v h e = cc
all-get_elem? (x ∷ xs) zero v h e = ground arith
all-get_elem? (x ∷ xs) (suc n) v h e = all-get_elem? xs n v (ground arith) e

-- The three cases of a call.
pub data Outcome (markdown : Text) (n : ℕ) : Type 0 where
  unchanged :
      ((checked : Bool) → toggle_task_at_line markdown n checked ≡ markdown) → Outcome markdown n
  changed :
      (line : Text) (m : TaskLine)
      → get_elem? (split newline markdown) n ≡ some line
      → match_task_line line ≡ some m
      → Outcome markdown n

pub outcome : (markdown : Text) (n : ℕ) → Outcome markdown n
unfolding toggle_task_at_line
outcome markdown n = elim (Option-cases (get_elem? (split newline markdown) n)) [
  | inl e ↦ unchanged (λ checked. rw e)
  | inr (line, e) ↦ elim (Option-cases (match_task_line line)) [
    | inl h ↦ unchanged (λ checked. rw (e, h))
    | inr (m, h) ↦ changed line m e h
  ]
]

toggle_changed :
    (markdown : Text) (n : ℕ) (checked : Bool) (line : Text) (m : TaskLine)
    → get_elem? (split newline markdown) n ≡ some line
    → match_task_line line ≡ some m
    → toggle_task_at_line markdown n checked
      ≡ join (newline ∷ []) (set (split newline markdown) n (write_task checked m))
unfolding toggle_task_at_line
toggle_changed markdown n checked line m e h = rw (e, h)

pub split-toggle :
    (markdown : Text) (n : ℕ) (checked : Bool) (line : Text) (m : TaskLine)
    → get_elem? (split newline markdown) n ≡ some line
    → match_task_line line ≡ some m
    → split newline (toggle_task_at_line markdown n checked)
      ≡ set (split newline markdown) n (write_task checked m)
split-toggle markdown n checked line m e h =
    ap (split newline) (toggle_changed markdown n checked line m e h)
    ∙ split-join-set (split_at newline markdown).0 (split_at newline markdown).1 n
        (write_task checked m) (split-lacks newline markdown)
        (lacks-write_task line m checked h
          (all-get_elem? (split newline markdown) n line (split-lacks newline markdown) e))

-- Of two calls at the same line, the last alone counts.
pub toggle_task_at_line_last :
    (markdown : Text) (n : ℕ) (c d : Bool)
    → toggle_task_at_line (toggle_task_at_line markdown n c) n d ≡ toggle_task_at_line markdown n d
toggle_task_at_line_last markdown n c d = elim (outcome markdown n) [
  | unchanged u ↦ ap (λ x. toggle_task_at_line x n d) (u c)
  | changed line m e h ↦
      let parts = split-toggle markdown n c line m e h in
      toggle_changed (toggle_task_at_line markdown n c) n d (write_task c m) m
        (ap (λ x. get_elem? x n) parts
          ∙ get_elem?-set (split newline markdown) n (write_task c m) line e)
        (match-write_task line m c h)
      ∙ ap (join (newline ∷ [])) (
          ap (λ x. set x n (write_task d m)) parts
          ∙ set-set (split newline markdown) n (write_task c m) (write_task d m))
      ∙ sym (toggle_changed markdown n d line m e h)
]

-- Toggling a task leaves every other line as it is.
pub toggle_task_at_line_frame :
    (markdown : Text) (n k : ℕ) (checked : Bool)
    → k ≢ n
    → get_elem? (split newline (toggle_task_at_line markdown n checked)) k
      ≡ get_elem? (split newline markdown) k
toggle_task_at_line_frame markdown n k checked ne = elim (outcome markdown n) [
  | unchanged u ↦ ap (λ x. get_elem? (split newline x) k) (u checked)
  | changed line m e h ↦
      ap (λ x. get_elem? x k) (split-toggle markdown n checked line m e h)
      ∙ get_elem?-set_other (split newline markdown) n k (write_task checked m) ne
]

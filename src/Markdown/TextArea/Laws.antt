-- ===== src/Markdown/TextArea/Laws.antt =====
-- The actions of the text area: what they leave, and that they keep the selection inside the value.
use kube_memos_eks.Markdown.ListItem.{newline}
use kube_memos_eks.Markdown.TextArea.{
  TextArea, set_selection_range, insert_text, remove_text, IsValid, set_cursor_position, set_line,
  get_line, assign,
}
use kube_memos_eks.Base.{
  nullish, length, get_elem?, take, drop, all, take-append-drop, take-append, drop-append,
  length-take, Text, join, split_at, split, lacks, split-join, split-lacks, ℕ, zero, suc, ◌+◌, ◌≤◌,
  ◌≡◌, refl, ap, ◌∙◌, true, Option, none, some, List, [], ◌∷◌, ◌++◌, arith, length-append,
}

-- Every way of setting the selection keeps it inside the value.
insert_text-IsValid :
    (s before behind : Text) (a : TextArea) → IsValid (insert_text s before behind a)
unfolding insert_text
insert_text-IsValid s before behind a = ground arith

pub remove_text-IsValid : (start count : ℕ) (a : TextArea) → IsValid (remove_text start count a)
unfolding remove_text
remove_text-IsValid start count a = ground arith

set_cursor_position-IsValid :
    (start : ℕ) (end : Option ℕ) (a : TextArea) → IsValid (set_cursor_position start end a)
unfolding set_cursor_position
set_cursor_position-IsValid start none a = ground arith
set_cursor_position-IsValid start (some end) a = ground arith

pub take-take : (n : ℕ) (v w : Text) → n ≤ length v → take n (take n v ++ w) ≡ take n v
take-take zero v w h = refl
take-take (suc n) [] w h = absurd (omega arith)
take-take (suc n) (c ∷ v) w h = ap (c ∷◌) (take-take n v w (omega arith))

zero_add : (n : ℕ) → 0 + n ≡ n
zero_add n = omega arith

suc_add : (n m : ℕ) → suc n + m ≡ suc (n + m)
suc_add n m = omega arith

pub drop_past :
    (n : ℕ) (v x r : Text) → n ≤ length v → drop (n + length x) (take n v ++ (x ++ r)) ≡ r
drop_past zero v x r h = rw (zero_add (length x)) (drop-append x r)
drop_past (suc n) [] x r h = absurd (omega arith)
drop_past (suc n) (c ∷ v) x r h = rw (suc_add n (length x)) (drop_past n v x r (omega arith))

-- A nonempty text that is inserted at the cursor, with nothing selected, is removed again by
-- `remove_text` at that place: the value is what it was.
pub remove_text-insert_text :
    (c : ℕ) (s : Text) (a : TextArea)
    → IsValid a
    → a.selection_start ≡ a.selection_end
    → (remove_text a.selection_start (length (c ∷ s)) (insert_text (c ∷ s) [] [] a)).value ≡ a.value
unfolding remove_text insert_text
remove_text-insert_text c s a (h, k) e = rw (e) (
    rw
      (
        take-take a.selection_end a.value (c ∷ (s ++ drop a.selection_end a.value)) k,
        drop_past a.selection_end a.value (c ∷ s) (drop a.selection_end a.value) k,
      )
      (take-append-drop a.selection_end a.value))

get_elem?-assign : (xs : List Text) (n : ℕ) (t : Text) → get_elem? (assign xs n t) n ≡ some t
get_elem?-assign [] zero t = refl
get_elem?-assign [] (suc n) t = get_elem?-assign [] n t
get_elem?-assign (x ∷ xs) zero t = refl
get_elem?-assign (x ∷ xs) (suc n) t = get_elem?-assign xs n t

all-assign :
    (xs : List Text) (n : ℕ) (t : Text)
    → all (lacks newline) xs ≡ true
    → lacks newline t ≡ true
    → all (lacks newline) (assign xs n t) ≡ true
all-assign [] zero t h k = ground arith
all-assign [] (suc n) t h k = all-assign [] n t refl k
all-assign (x ∷ xs) zero t h k = ground arith
all-assign (x ∷ xs) (suc n) t h k = ground (arith, all-assign xs n t)

get_elem?-lines :
    (xs : List Text) (n : ℕ) (t x : Text)
    → all (lacks newline) (x ∷ xs) ≡ true
    → lacks newline t ≡ true
    → nullish (get_elem? (split newline (join (newline ∷ []) (assign (x ∷ xs) n t))) n) [] ≡ t
get_elem?-lines xs zero t x h k =
    ap (λ ys. nullish (get_elem? ys 0) []) (split-join newline t xs (ground arith))
get_elem?-lines xs (suc n) t x h k =
    ap (λ ys. nullish (get_elem? ys (suc n)) [])
      (split-join newline x (assign xs n t) (ground (arith, all-assign xs n t)))
    ∙ ap (λ o. nullish o []) (get_elem?-assign xs n t)

get_elem?-split :
    (s : Text) (n : ℕ) (t : Text)
    → lacks newline t ≡ true
    → nullish (get_elem? (split newline (join (newline ∷ []) (assign (split newline s) n t))) n) []
      ≡ t
get_elem?-split s n t h =
    get_elem?-lines (split_at newline s).1 n t (split_at newline s).0 (split-lacks newline s) h

-- A line without a newline that `set_line` writes is the line that `get_line` reads, also behind
-- the last line.
pub get_line-set_line :
    (n : ℕ) (t : Text) (a : TextArea) → lacks newline t ≡ true → get_line n (set_line n t a) ≡ t
unfolding get_line set_line
get_line-set_line n t a h = get_elem?-split a.value n t h

take_past :
    (n : ℕ) (v x r : Text)
    → n ≤ length v
    → take (n + length x) (take n v ++ (x ++ r)) ≡ take n v ++ x
take_past zero v x r h = rw (zero_add (length x)) (take-append x r)
take_past (suc n) [] x r h = absurd (omega arith)
take_past (suc n) (c ∷ v) x r h =
    rw (suc_add n (length x)) (ap (c ∷◌) (take_past n v x r (omega arith)))

-- A range inside the value is selected as it is given.
pub set_selection_range_inside :
    (from to : ℕ) (a : TextArea)
    → from ≤ to
    → to ≤ length a.value
    → ((set_selection_range from to a).selection_start ≡ from)
      × ((set_selection_range from to a).selection_end ≡ to)
set_selection_range_inside from to a h k = (ground arith, ground arith)

-- The value with the selection replaced.
abbrev pub replaced : Text → TextArea → Text
replaced s a = take a.selection_start a.value ++ (s ++ drop a.selection_end a.value)

pub length-replaced :
    (s : Text) (a : TextArea) → IsValid a → a.selection_start + length s ≤ length (replaced s a)
length-replaced s a (h, k) =
    let before = length-take a.selection_start a.value (omega arith) in
    let whole =
      length-append (take a.selection_start a.value) (s ++ drop a.selection_end a.value) in
    omega (arith, length-append s (drop a.selection_end a.value))

-- A text that is inserted stands between what was before and behind the selection, and the cursor is
-- behind it.
pub insert_text-replaced :
    (c : ℕ) (s : Text) (a : TextArea)
    → IsValid a
    → ((insert_text (c ∷ s) [] [] a).value ≡ replaced (c ∷ s) a)
      × ((insert_text (c ∷ s) [] [] a).selection_start ≡ a.selection_start + length (c ∷ s))
unfolding insert_text
insert_text-replaced c s a v = let l = length-replaced (c ∷ s) a v in (refl, ground arith)

-- What stands before the cursor then.
pub take-insert_text :
    (c : ℕ) (s : Text) (a : TextArea)
    → IsValid a
    → take (insert_text (c ∷ s) [] [] a).selection_start (insert_text (c ∷ s) [] [] a).value
      ≡ take a.selection_start a.value ++ (c ∷ s)
take-insert_text c s a (h, k) =
    let (e, p) = insert_text-replaced c s a (h, k) in
    ap (λ n. take n (insert_text (c ∷ s) [] [] a).value) p
    ∙ ap (take (a.selection_start + length (c ∷ s))) e
    ∙ take_past a.selection_start a.value (c ∷ s) (drop a.selection_end a.value) (omega arith)

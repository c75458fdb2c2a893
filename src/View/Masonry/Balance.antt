-- ===== src/View/Masonry/Balance.antt =====
-- The columns stay balanced: each memo goes to a shortest one, so that no column gets ahead of
-- another by more than what one memo and the prefix element take.
use kube_memos_eks.View.Masonry.{
  Column, Heights, heights_of, DistributionResult, distribute_items_to_columns,
  find_shortest_column_index, push_item, push_at, distribute_from, distribute_all, start_columns,
  empty_columns, sum,
}
use kube_memos_eks.View.Masonry.Shortest.{NotAbove, find_shortest_column_index_minimal}
use mathlib.Core.Path.{subst}
use mathlib.Core.Option.{some-injective}
use kube_memos_eks.Base.{
  get_elem?, All, ℕ, zero, suc, ◌+◌, ◌≤◌, ◌≡◌, refl, sym, some, List, [], ◌∷◌, map, arith,
}

-- Every column's height is between m and m + s.
abbrev Between : ℕ → ℕ → Column → Type 0
Between m s c = (m ≤ c.height) × (c.height ≤ m + s)

abbrev Balanced : ℕ → List Column → Type 0
Balanced s cs = (m : ℕ) × All (Between m s) cs

All-push_at :
    (P : Column → Type 0) (k i h : ℕ) (cs : List Column) (b : Column)
    → get_elem? cs k ≡ some b
    → P (push_item i h b)
    → All P cs
    → All P (push_at cs k i h)
All-push_at P k i h [] b e p a = tt
All-push_at P zero i h (c ∷ cs) b e p (q, a) =
    (subst (λ d. P (push_item i h d)) (sym (some-injective _ _ e)) p, a)
All-push_at P (suc k) i h (c ∷ cs) b e p (q, a) = (q, All-push_at P k i h cs b e p a)

Between-lowest :
    (m s : ℕ) (b : Column) (cs : List Column)
    → m ≤ b.height
    → All (Between m s) cs
    → All (NotAbove b) cs
    → All (Between b.height s) cs
Between-lowest m s b [] l a n = tt
Between-lowest m s b (c ∷ cs) l ((p, q), a) ((n, _), ns) =
    ((n, omega arith), Between-lowest m s b cs l a ns)

All-at :
    (P : Column → Type 0) (cs : List Column) (k : ℕ) (b : Column)
    → get_elem? cs k ≡ some b
    → All P cs
    → P b
All-at P [] k b e a = cc
All-at P (c ∷ cs) zero b e (p, a) = subst P (some-injective _ _ e) p
All-at P (c ∷ cs) (suc k) b e (p, a) = All-at P cs k b e a

push_at-Balanced :
    (s i h : ℕ) (cs : List Column)
    → h ≤ s
    → Balanced s cs
    → Balanced s (push_at cs (find_shortest_column_index cs) i h)
push_at-Balanced s i h [] l b = (0, tt)
push_at-Balanced s i h (c ∷ cs) l (m, a) =
    let k = find_shortest_column_index (c ∷ cs) in
    let (b, e, n) = find_shortest_column_index_minimal c cs in
    let (low, _) = All-at (Between m s) (c ∷ cs) k b e a in
    (
      b.height,
      All-push_at (Between b.height s) k i h (c ∷ cs) b e (omega arith, omega arith)
          (Between-lowest m s b (c ∷ cs) low a n),
    )

distribute_from-Balanced :
    (s i : ℕ) (hs : List ℕ) (cs : List Column)
    → All (λ h. h ≤ s) hs
    → Balanced s cs
    → Balanced s (distribute_from hs i cs)
distribute_from-Balanced s i [] cs l b = b
distribute_from-Balanced s i (h ∷ hs) cs (l, ls) b =
    distribute_from-Balanced s (suc i) hs (push_at cs (find_shortest_column_index cs) i h) ls
      (push_at-Balanced s i h cs l b)

empty_columns-Between : (s n : ℕ) → All (Between 0 s) (empty_columns n)
empty_columns-Between s zero = tt
empty_columns-Between s (suc n) = ((omega arith, omega arith), empty_columns-Between s n)

All-raise : (m p : ℕ) (hs : List ℕ) → All (λ h. h ≤ m) hs → All (λ h. h ≤ p + m) hs
All-raise m p [] l = tt
All-raise m p (h ∷ hs) (l, ls) = (omega arith, All-raise m p hs ls)

distribute_all-Balanced :
    (hs : List ℕ) (prefix n m : ℕ)
    → All (λ h. h ≤ m) hs
    → Balanced (prefix + m) (distribute_all hs prefix n)
distribute_all-Balanced [] prefix n m l =
    (0, ((omega arith, omega arith), empty_columns-Between (prefix + m) n))
distribute_all-Balanced (h ∷ hs) prefix n m (l, ls) =
    distribute_from-Balanced (prefix + m) 1 hs (push_at (start_columns prefix n) 0 0 h)
      (All-raise m prefix hs ls)
      (0, ((omega arith, omega arith), empty_columns-Between (prefix + m) n))

-- The heights of the columns.
abbrev column_heights_of : List Column → List ℕ
column_heights_of cs = map (λ c. c.height) cs

-- No two heights are further apart than s.
abbrev pub Apart : ℕ → List ℕ → Type 0
Apart s hs = All (λ a. All (λ b. a ≤ b + s) hs) hs

Balanced-below :
    (m s a : ℕ) (cs : List Column)
    → a ≤ m + s
    → All (Between m s) cs
    → All (λ b. a ≤ b + s) (column_heights_of cs)
Balanced-below m s a [] l bs = tt
Balanced-below m s a (c ∷ cs) l ((p, q), bs) = (omega arith, Balanced-below m s a cs l bs)

Balanced-Apart : (s : ℕ) (cs : List Column) → Balanced s cs → Apart s (column_heights_of cs)
Balanced-Apart s cs (m, b) = each cs b
  where
    each :
        (ds : List Column)
        → All (Between m s) ds
        → All (λ a. All (λ b. a ≤ b + s) (column_heights_of cs)) (column_heights_of ds)
    each [] a = tt
    each (d ∷ ds) ((p, q), a) = (Balanced-below m s d.height cs q b, each ds a)

-- What the columns hold in all.
sum-push_at :
    (k i h : ℕ) (cs : List Column) (b : Column)
    → get_elem? cs k ≡ some b
    → sum (column_heights_of (push_at cs k i h)) ≡ h + sum (column_heights_of cs)
sum-push_at k i h [] b e = cc
sum-push_at zero i h (c ∷ cs) b e = omega arith
sum-push_at (suc k) i h (c ∷ cs) b e = omega (arith, sum-push_at k i h cs b e)

-- At least one column.
abbrev HasColumn : List Column → Type 0
HasColumn cs = (c : Column) × (rest : List Column) × (cs ≡ c ∷ rest)

push_at-HasColumn : (k i h : ℕ) (c : Column) (cs : List Column) → HasColumn (push_at (c ∷ cs) k i h)
push_at-HasColumn zero i h c cs = (_, _, refl)
push_at-HasColumn (suc k) i h c cs = (_, _, refl)

sum-distribute_from :
    (i : ℕ) (hs : List ℕ) (cs : List Column)
    → HasColumn cs
    → sum (column_heights_of (distribute_from hs i cs)) ≡ sum hs + sum (column_heights_of cs)
sum-distribute_from i [] cs e = omega arith
sum-distribute_from i (h ∷ hs) cs (c, rest, e) =
    let k = find_shortest_column_index cs in
    let step =
      subst
        (λ ds.
          sum (column_heights_of (push_at ds (find_shortest_column_index ds) i h))
          ≡ h + sum (column_heights_of ds))
        (sym e) (at c rest) in
    let more =
      subst (λ ds. HasColumn (push_at ds (find_shortest_column_index ds) i h)) (sym e)
        (push_at-HasColumn (find_shortest_column_index (c ∷ rest)) i h c rest) in
    let all_rest = sum-distribute_from (suc i) hs (push_at cs k i h) more in
    omega (arith, step, all_rest)
  where
    at :
        (d : Column) (ds : List Column)
        → sum (column_heights_of (push_at (d ∷ ds) (find_shortest_column_index (d ∷ ds)) i h))
          ≡ h + sum (column_heights_of (d ∷ ds))
    at d ds =
        let (b, e, _) = find_shortest_column_index_minimal d ds in
        sum-push_at (find_shortest_column_index (d ∷ ds)) i h (d ∷ ds) b e

sum-empty_columns : (n : ℕ) → sum (column_heights_of (empty_columns n)) ≡ 0
sum-empty_columns zero = refl
sum-empty_columns (suc n) = omega (arith, sum-empty_columns n)

sum-distribute_all :
    (hs : List ℕ) (prefix n : ℕ)
    → sum (column_heights_of (distribute_all hs prefix n)) ≡ prefix + sum hs
sum-distribute_all [] prefix n = omega (arith, sum-empty_columns n)
sum-distribute_all (h ∷ hs) prefix n =
    let rest = sum-distribute_from 1 hs (push_at (start_columns prefix n) 0 0 h) (_, _, refl) in
    omega (arith, rest, sum-empty_columns n)

-- With a column or more, and memos of which none is higher than m, the heights of the columns add
-- up to those of the prefix element and of the memos, and no column is ahead of another by more
-- than the prefix element and m together.
pub distribute_items_to_columns_balanced :
    {Memo : Type 0} (heights : Heights Memo) (memos : List Memo) (columns prefix m : ℕ)
    → All (λ h. h ≤ m) (heights_of heights memos)
    → (r : DistributionResult) × (distribute_items_to_columns heights memos (suc columns) prefix
        ≡ some r)
      × (sum r.column_heights ≡ prefix + sum (heights_of heights memos))
      × Apart (prefix + m) r.column_heights
unfolding distribute_items_to_columns
distribute_items_to_columns_balanced heights [] zero prefix m l =
    (_, refl, omega arith, ((omega arith, tt), tt))
distribute_items_to_columns_balanced heights (x ∷ xs) zero prefix m l =
    (_, refl, omega arith, ((omega arith, tt), tt))
distribute_items_to_columns_balanced heights [] (suc n) prefix m l = (
  _,
  refl,
  sum-distribute_all [] prefix (suc n),
  Balanced-Apart (prefix + m) (distribute_all [] prefix (suc n))
      (distribute_all-Balanced [] prefix (suc n) m tt),
)
distribute_items_to_columns_balanced heights (x ∷ xs) (suc n) prefix m l =
    let hs = heights_of heights (x ∷ xs) in
    (
      _,
      refl,
      sum-distribute_all hs prefix (suc n),
      Balanced-Apart (prefix + m) (distribute_all hs prefix (suc n))
          (distribute_all-Balanced hs prefix (suc n) m l),
    )

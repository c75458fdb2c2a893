-- ===== src/View/Masonry/Columns.antt =====
-- Every memo is put in one column.
use kube_memos_eks.View.Masonry.Shortest.{find_shortest_column_index_minimal}
use kube_memos_eks.View.Masonry.{
  Column, Heights, heights_of, DistributionResult, distribute_items_to_columns,
  find_shortest_column_index, push_at, distribute_from, distribute_all, start_columns,
  empty_columns, indices_from,
}
use kube_memos_eks.Base.{
  ltb, leb, ◌==◌, if◌then◌else◌, nullish, length, get_elem?, ℕ, zero, suc, ◌+◌, ◌<◌, ◌≡◌, refl, ap,
  ◌∙◌, Bool, true, false, ◌&&◌, some, List, [], ◌∷◌, ◌++◌, map, arith,
}

abbrev pub bit : Bool → ℕ
bit true = 1
bit false = 0

-- How often a memo's index stands in a column, and in all of them.
abbrev pub occurs : ℕ → List ℕ → ℕ
occurs i [] = 0
occurs i (j ∷ js) = if i == j then 1 + occurs i js else occurs i js

abbrev pub placed : ℕ → List (List ℕ) → ℕ
placed i [] = 0
placed i (c ∷ cs) = occurs i c + placed i cs

abbrev items_of : List Column → List (List ℕ)
items_of cs = map (λ c. c.items) cs

occurs-append : (i : ℕ) (xs ys : List ℕ) → occurs i (xs ++ ys) ≡ occurs i xs + occurs i ys
occurs-append i [] ys = omega arith
occurs-append i (x ∷ xs) ys = ground (arith, occurs-append i xs ys)

placed-push_at :
    (i k j h : ℕ) (cs : List Column)
    → k < length cs
    → placed i (items_of (push_at cs k j h)) ≡ bit (i == j) + placed i (items_of cs)
placed-push_at i k j h [] l = absurd (omega arith)
placed-push_at i zero j h (c ∷ cs) l = ground (arith, occurs-append i c.items (j ∷ []))
placed-push_at i (suc k) j h (c ∷ cs) l = ground (arith, placed-push_at i k j h cs (omega arith))

length-push_at : (k j h : ℕ) (cs : List Column) → length (push_at cs k j h) ≡ length cs
length-push_at k j h [] = refl
length-push_at zero j h (c ∷ cs) = refl
length-push_at (suc k) j h (c ∷ cs) = ap suc (length-push_at k j h cs)

get_elem?-bound :
    {A : Type 0} (xs : List A) (k : ℕ) (x : A) → get_elem? xs k ≡ some x → k < length xs
get_elem?-bound [] k x h = cc
get_elem?-bound (y ∷ xs) zero x h = omega arith
get_elem?-bound (y ∷ xs) (suc k) x h = omega (arith, get_elem?-bound xs k x h)

find_shortest_column_index-bound :
    (cs : List Column) → 0 < length cs → find_shortest_column_index cs < length cs
find_shortest_column_index-bound [] h = absurd (omega arith)
find_shortest_column_index-bound (c ∷ cs) h =
    let (b, e, _) = find_shortest_column_index_minimal c cs in
    get_elem?-bound (c ∷ cs) (find_shortest_column_index (c ∷ cs)) b e

-- Whether a memo is among those from index j on.
abbrev within : ℕ → ℕ → List ℕ → ℕ
within i j hs = bit (leb j i && ltb i (j + length hs))

placed-distribute_from :
    (i j : ℕ) (hs : List ℕ) (cs : List Column)
    → 0 < length cs
    → placed i (items_of (distribute_from hs j cs)) ≡ within i j hs + placed i (items_of cs)
placed-distribute_from i j [] cs l = ground arith
placed-distribute_from i j (h ∷ hs) cs l =
    let k = find_shortest_column_index cs in
    let b = find_shortest_column_index-bound cs l in
    let rest =
      placed-distribute_from i (suc j) hs (push_at cs k j h)
        (omega (arith, length-push_at k j h cs)) in
    let step = placed-push_at i k j h cs b in ground arith

length-distribute_from :
    (j : ℕ) (hs : List ℕ) (cs : List Column) → length (distribute_from hs j cs) ≡ length cs
length-distribute_from j [] cs = refl
length-distribute_from j (h ∷ hs) cs =
    length-distribute_from (suc j) hs (push_at cs (find_shortest_column_index cs) j h)
    ∙ length-push_at (find_shortest_column_index cs) j h cs

placed-empty_columns : (i n : ℕ) → placed i (items_of (empty_columns n)) ≡ 0
placed-empty_columns i zero = refl
placed-empty_columns i (suc n) = omega (arith, placed-empty_columns i n)

length-empty_columns : (n : ℕ) → length (empty_columns n) ≡ n
length-empty_columns zero = refl
length-empty_columns (suc n) = ap suc (length-empty_columns n)

placed-distribute_all :
    (i : ℕ) (hs : List ℕ) (prefix n : ℕ)
    → placed i (items_of (distribute_all hs prefix n)) ≡ bit (ltb i (length hs))
placed-distribute_all i [] prefix n = ground (arith, placed-empty_columns i n)
placed-distribute_all i (h ∷ hs) prefix n =
    let rest =
      placed-distribute_from i 1 hs (push_at (start_columns prefix n) 0 0 h) (omega arith) in
    let none_yet = placed-empty_columns i n in ground arith

length-distribute_all : (hs : List ℕ) (prefix n : ℕ) → length (distribute_all hs prefix n) ≡ suc n
length-distribute_all [] prefix n = ap suc (length-empty_columns n)
length-distribute_all (h ∷ hs) prefix n =
    length-distribute_from 1 hs (push_at (start_columns prefix n) 0 0 h)
    ∙ ap suc (length-empty_columns n)

occurs-indices_from : (i j : ℕ) (hs : List ℕ) → occurs i (indices_from j hs) ≡ within i j hs
occurs-indices_from i j [] = ground arith
occurs-indices_from i j (h ∷ hs) = ground (arith, occurs-indices_from i (suc j) hs)

length-map : {A B : Type 0} (f : A → B) (xs : List A) → length (map f xs) ≡ length xs
length-map f [] = refl
length-map f (x ∷ xs) = ap suc (length-map f xs)

single-placed : (i : ℕ) (hs : List ℕ) → placed i (indices_from 0 hs ∷ []) ≡ bit (ltb i (length hs))
single-placed i hs = ground (arith, occurs-indices_from i 0 hs)

within_memos :
    {Memo : Type 0} (i : ℕ) (heights : Heights Memo) (memos : List Memo)
    → bit (ltb i (length (heights_of heights memos))) ≡ bit (ltb i (length memos))
within_memos i heights memos =
    ap (λ n. bit (ltb i n)) (length-map (λ m. nullish (heights.height_of m) 0) memos)

length-columns :
    (hs : List ℕ) (prefix n : ℕ)
    → length (items_of (distribute_all hs prefix (suc n))) ≡ suc (suc n)
length-columns hs prefix n =
    length-map (λ c. c.items) (distribute_all hs prefix (suc n))
    ∙ length-distribute_all hs prefix (suc n)

-- With a column or more, the distribution has that many columns, each memo's index stands in
-- exactly one of them, once, and no other index stands in any.
pub distribute_items_to_columns_partition :
    {Memo : Type 0} (heights : Heights Memo) (memos : List Memo) (columns prefix i : ℕ)
    → (r : DistributionResult) × (distribute_items_to_columns heights memos (suc columns) prefix
        ≡ some r)
      × (length r.distribution ≡ suc columns)
      × (placed i r.distribution ≡ bit (ltb i (length memos)))
unfolding distribute_items_to_columns
distribute_items_to_columns_partition heights [] zero prefix i = (_, refl, refl, single-placed i [])
distribute_items_to_columns_partition heights (m ∷ ms) zero prefix i =
    (_, refl, refl, single-placed i (heights_of heights (m ∷ ms)) ∙ within_memos i heights (m ∷ ms))
distribute_items_to_columns_partition heights [] (suc n) prefix i =
    (_, refl, length-columns [] prefix n, placed-distribute_all i [] prefix (suc n))
distribute_items_to_columns_partition heights (m ∷ ms) (suc n) prefix i = (
  _,
  refl,
  length-columns (heights_of heights (m ∷ ms)) prefix n,
  placed-distribute_all i (heights_of heights (m ∷ ms)) prefix (suc n)
      ∙ within_memos i heights (m ∷ ms),
)

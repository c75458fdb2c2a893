-- ===== src/View/TagTree.antt =====
-- The tree that the sidebar shows of the tags and their amounts (components/TagTree.tsx). A tag is its
-- code units, and "/" is 47.
pub mod Paths
pub mod Amounts
use kube_memos_eks.Base.Sorting.{sort}
use kube_memos_eks.Markdown.Decimal.{print_nat}
use kube_memos_eks.Base.{
  ltb, ◌==◌, if◌then◌else◌, any, Text, text_eq, split, ℕ, Bool, true, false, ◌&&◌, Option, none,
  some, List, [], ◌∷◌, ◌++◌,
}

-- `Tag`: its key, text and amount, and its `subTags`.
mutual
  pub data Tag : Type 0 where
    tag : Text → Text → ℕ → Tags → Tag

  pub data Tags : Type 0 where
    nil : Tags
    cons : Tag → Tags → Tags

abbrev pub TagAmount : Type 0
TagAmount = Text × ℕ

-- The order of code units, by which `sort` compares.
abbrev pub text_ltb : Text → Text → Bool
text_ltb s [] = false
text_ltb [] (_ ∷ _) = true
text_ltb (c ∷ s) (d ∷ t) = if c == d then text_ltb s t else ltb c d

-- `Array.from(rawTagAmounts).sort()`: an entry is compared as the text `tag,amount`, and `sort` is
-- stable.
unfoldable pub printed : TagAmount → Text
printed t = t.0 ++ 44 ∷ print_nat t.1

abbrev pub comes_before : TagAmount → TagAmount → Bool
comes_before u t = text_ltb (printed u) (printed t)

abbrev pub sort_tags : List TagAmount → List TagAmount
sort_tags tags = sort comes_before tags

-- `tagText` with one more key: the first has no text before it.
abbrev pub extend : Option Text → Text → Text
extend none key = key
extend (some tag_text) key = tag_text ++ 47 ∷ key

-- `sortedTagAmounts.some(([tag, amount]) => tag === tagText && amount > 1)`
abbrev pub has_several : List TagAmount → Text → Bool
has_several tags text = any (λ t. text_eq t.0 text && ltb 1 t.1) tags

abbrev pub amount_at : List TagAmount → ℕ → Text → ℕ
amount_at tags amount text = if has_several tags text then amount else 0

module _ (tags : List TagAmount) (amount : ℕ) where
  -- The inner loop over the keys that are left, at the tags below `tempObj`: the first tag with the
  -- text is gone into, or one is pushed at the end.
  abbrev pub insert_path : List Text → Option Text → Tags → Tags
  insert_path [] tag_text f = f
  insert_path (key ∷ keys) tag_text nil =
      cons
        (tag key (extend tag_text key) (amount_at tags amount (extend tag_text key))
          (insert_path keys (some (extend tag_text key)) nil))
        nil
  insert_path (key ∷ keys) tag_text (cons (tag k t a subs) f) =
      if text_eq t (extend tag_text key)
      then cons (tag k t a (insert_path keys (some (extend tag_text key)) subs)) f
      else cons (tag k t a subs) (insert_path (key ∷ keys) tag_text f)

-- The outer loop.
abbrev pub insert_all : List TagAmount → List TagAmount → Tags → Tags
insert_all tags [] f = f
insert_all tags (t ∷ ts) f = insert_all tags ts (insert_path tags t.1 (split 47 t.0) none f)

-- The effect: `root.subTags`.
unfoldable pub build_tags : List TagAmount → Tags
build_tags raw = insert_all (sort_tags raw) (sort_tags raw) nil

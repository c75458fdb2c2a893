-- ===== src/View/TagTree/Paths.antt =====
-- What stands in the tree: a path of keys exactly when it starts the path of a tag.
use mathlib.Core.Option
use kube_memos_eks.View.TagTree.{
  Tags, nil, cons, tag, TagAmount, extend, amount_at, insert_path, sort_tags, insert_all,
  build_tags,
}
use kube_memos_eks.Base.{
  if◌then◌else◌, Bool-cases, find, Text, text_eq, text_eq_sound, text_eq_refl, split, ℕ, ◌≡◌, refl,
  sym, ap, ◌∙◌, ◌≢◌, inl, inr, Bool, true, false, ◌&&◌, Option, none, some, List, [], ◌∷◌, ◌++◌,
  arith,
}

-- The amount of the tag that a path of keys leads to, from the text before it on.
abbrev pub lookup : Option Text → List Text → Tags → Option ℕ
lookup p [] f = none
lookup p (k ∷ ks) nil = none
lookup p (k ∷ []) (cons (tag key text a subs) f) =
    if text_eq text (extend p k) then some a else lookup p (k ∷ []) f
lookup p (k ∷ l ∷ ks) (cons (tag key text a subs) f) =
    if text_eq text (extend p k)
    then lookup (some (extend p k)) (l ∷ ks) subs
    else lookup p (k ∷ l ∷ ks) f

-- The text of the tag that a path leads to, from a text on.
abbrev pub text_from : Text → List Text → Text
text_from x [] = x
text_from x (l ∷ ks) = text_from (x ++ 47 ∷ l) ks

abbrev pub path_text : Option Text → Text → List Text → Text
path_text p k ks = text_from (extend p k) ks

abbrev pub starts_path : List Text → List Text → Bool
starts_path [] ps = true
starts_path (q ∷ qs) [] = false
starts_path (q ∷ qs) (r ∷ rs) = text_eq r q && starts_path qs rs

abbrev pub or_else : Option ℕ → Option ℕ → Option ℕ
or_else none d = d
or_else (some a) d = some a

text_eq-append : (s a b : Text) → text_eq (s ++ a) (s ++ b) ≡ text_eq a b
text_eq-append [] a b = refl
text_eq-append (c ∷ s) a b = ground (arith, text_eq-append s a b)

clash : true ≢ false
clash e = cc

extend-same : (p : Option Text) (a b : Text) → text_eq (extend p a) (extend p b) ≡ text_eq a b
extend-same none a b = refl
extend-same (some s) a b = text_eq-append s (47 ∷ a) (47 ∷ b)

-- What a tag that has the text of the path's first key leads to.
abbrev found : Text → ℕ → List Text → Tags → Option ℕ
found text a [] subs = some a
found text a (l ∷ ks) subs = lookup (some text) (l ∷ ks) subs

lookup-cons :
    (p : Option Text) (q : Text) (qs : List Text) (k t : Text) (a : ℕ) (subs f : Tags)
    → lookup p (q ∷ qs) (cons (tag k t a subs) f)
      ≡ (if text_eq t (extend p q) then found (extend p q) a qs subs else lookup p (q ∷ qs) f)
lookup-cons p q [] k t a subs f = refl
lookup-cons p q (l ∷ qs) k t a subs f = refl

module _ (tags : List TagAmount) (n : ℕ) where
  -- What a path from the text before it leads to after the keys of a tag are inserted.
  abbrev after_insert : Option Text → Text → List Text → List Text → Option ℕ → Option ℕ
  after_insert p q qs ps before =
      if starts_path (q ∷ qs) ps
      then or_else before (some (amount_at tags n (path_text p q qs)))
      else before

  -- Below a tag, given what holds for the paths in its tags.
  found-insert_path :
      (x : Text) (a : ℕ) (qs rs : List Text) (subs : Tags)
      → ((l : Text) (ls : List Text)
          → lookup (some x) (l ∷ ls) (insert_path tags n rs (some x) subs)
            ≡ after_insert (some x) l ls rs (lookup (some x) (l ∷ ls) subs))
      → found x a qs (insert_path tags n rs (some x) subs) ≡ (
          if starts_path qs rs
          then or_else (found x a qs subs) (some (amount_at tags n (text_from x qs)))
          else found x a qs subs)
  found-insert_path x a [] rs subs ih = refl
  found-insert_path x a (l ∷ ls) rs subs ih = ih l ls

  new_tag :
      (x : Text) (qs rs : List Text)
      → (if starts_path qs rs
          then or_else
              (found x (amount_at tags n x) qs nil)
              (some (amount_at tags n (text_from x qs)))
          else found x (amount_at tags n x) qs nil)
        ≡ (if starts_path qs rs then some (amount_at tags n (text_from x qs)) else none)
  new_tag x [] rs = refl
  new_tag x (l ∷ ls) rs = refl

  lookup-insert_path :
      (p : Option Text) (q : Text) (qs ps : List Text) (f : Tags)
      → lookup p (q ∷ qs) (insert_path tags n ps p f) ≡ after_insert p q qs ps (lookup p (q ∷ qs) f)
  lookup-insert_path p q qs [] f = refl
  lookup-insert_path p q qs (r ∷ rs) nil =
      let below =
        found-insert_path (extend p q) (amount_at tags n (extend p q)) qs rs nil
          (λ l ls. lookup-insert_path (some (extend p q)) l ls rs nil)
        ∙ new_tag (extend p q) qs rs in
      lookup-cons p q qs r (extend p r) (amount_at tags n (extend p r))
        (insert_path tags n rs (some (extend p r)) nil) nil
      ∙ elim (Bool-cases (text_eq r q)) [
        | inl e ↦ rw (extend-same p r q, text_eq_sound r q e, text_eq_refl q) below
        | inr e ↦ rw (extend-same p r q, e) refl
      ]
  lookup-insert_path p q qs (r ∷ rs) (cons (tag k t a subs) f) =
      let open_tag = lookup-cons p q qs k t a (insert_path tags n rs (some (extend p r)) subs) f in
      let kept = lookup-cons p q qs k t a subs f in
      let passed = lookup-cons p q qs k t a subs (insert_path tags n (r ∷ rs) p f) in
      let later = lookup-insert_path p q qs (r ∷ rs) f in
      let below =
        found-insert_path (extend p r) a qs rs subs
          (λ l ls. lookup-insert_path (some (extend p r)) l ls rs subs) in
      elim (Bool-cases (text_eq t (extend p r))) [
        | inl u ↦
            let at_q =
              ap (λ z. text_eq z (extend p q)) (text_eq_sound t (extend p r) u)
              ∙ extend-same p r q in
            elim (Bool-cases (text_eq r q)) [
              | inl e ↦
                  let same = text_eq_sound r q e in
                  rw (u, open_tag, kept, at_q, e)
                    (ap
                        (λ z.
                          found (extend p z) a qs (insert_path tags n rs (some (extend p r)) subs))
                        (sym same)
                      ∙ below
                      ∙ ap
                          (λ z.
                            if starts_path qs rs
                            then or_else (found (extend p z) a qs subs)
                                (some (amount_at tags n (text_from (extend p z) qs)))
                            else found (extend p z) a qs subs)
                          same)
              | inr e ↦ rw (u, open_tag, kept, at_q, e) refl
            ]
        | inr u ↦ elim (Bool-cases (text_eq t (extend p q))) [
          | inl v ↦ elim (Bool-cases (text_eq r q)) [
            | inl e ↦ absurd (clash (differ (text_eq_sound r q e) u v))
            | inr e ↦ rw (u, passed, kept, v, e) refl
          ]
          | inr v ↦ rw (u, passed, kept, v) later
        ]
      ]
    where
      differ : r ≡ q → text_eq t (extend p r) ≡ false → text_eq t (extend p q) ≡ true → true ≡ false
      differ e u v = sym v ∙ ap (λ z. text_eq t (extend p z)) (sym e) ∙ u

or_else_assoc : (a b c : Option ℕ) → or_else (or_else a b) c ≡ or_else a (or_else b c)
or_else_assoc none b c = refl
or_else_assoc (some a) b c = refl

-- The amount that the first tag below a path gives to it.
abbrev first_below : List TagAmount → Text → List Text → List TagAmount → Option ℕ
first_below tags q qs ts =
    Option.map (λ t. amount_at tags t.1 (path_text none q qs))
      (find (λ t. starts_path (q ∷ qs) (split 47 t.0)) ts)

lookup-insert_all :
    (tags ts : List TagAmount) (q : Text) (qs : List Text) (f : Tags)
    → lookup none (q ∷ qs) (insert_all tags ts f)
      ≡ or_else (lookup none (q ∷ qs) f) (first_below tags q qs ts)
lookup-insert_all tags [] q qs f = none_after (lookup none (q ∷ qs) f)
  where
    none_after : (a : Option ℕ) → a ≡ or_else a none
    none_after none = refl
    none_after (some a) = refl
lookup-insert_all tags (t ∷ ts) q qs f =
    lookup-insert_all tags ts q qs (insert_path tags t.1 (split 47 t.0) none f)
    ∙ ap (λ o. or_else o (first_below tags q qs ts))
        (lookup-insert_path tags t.1 none q qs (split 47 t.0) f)
    ∙ elim (Bool-cases (starts_path (q ∷ qs) (split 47 t.0))) [
      | inl e ↦ rw e (or_else_assoc (lookup none (q ∷ qs) f) _ _)
      | inr e ↦ rw e refl
    ]

-- A path of keys leads to a tag of the tree exactly when it starts the path of one of the tags. The
-- first of those in the sorted order has given it its amount: its own amount if a tag with that path
-- is there with an amount above 1, and else 0.
pub build_tags-lookup :
    (raw : List TagAmount) (q : Text) (qs : List Text)
    → lookup none (q ∷ qs) (build_tags raw)
      ≡ Option.map
          (λ t. amount_at (sort_tags raw) t.1 (path_text none q qs))
          (find (λ t. starts_path (q ∷ qs) (split 47 t.0)) (sort_tags raw))
unfolding build_tags
build_tags-lookup raw q qs = lookup-insert_all (sort_tags raw) (sort_tags raw) q qs nil

-- ===== src/Filters/Stats/Laws.antt =====
-- What the counts of tags add up to.
use kube_memos_eks.Filters.Stats.{
  Count, number, text, Counts, count_of, put_count, increased, add_count, add_counts, StatMemo,
  UserStats, one_each, count_tags, aggregate_tag_counts, Days, use_filtered_memo_stats,
}
use kube_memos_eks.Base.{
  if◌then◌else◌, Bool-cases, str_eq_refl, nullish, ℕ, ◌+◌, String, ◌≡◌, refl, sym, ap, ◌∙◌, inl,
  inr, Bool, false, Option, none, some, List, [], ◌∷◌, arith, eq_iff, str_eq,
}

-- What the pairs of a name add up to.
abbrev pub total : String → List (String × ℕ) → ℕ
total k [] = 0
total k ((j, n) ∷ rest) = (if str_eq j k then n else 0) + total k rest

-- How many memos have a tag, each as often as it has it.
abbrev pub occurrences : String → List String → ℕ
occurrences k ks = total k (one_each ks)

abbrev pub tagged : String → List StatMemo → ℕ
tagged k [] = 0
tagged k (m ∷ ms) = occurrences k m.tags + tagged k ms

abbrev pub aggregated : String → List UserStats → ℕ
aggregated k [] = 0
aggregated k (u ∷ us) = total k (nullish u.tag_count []) + aggregated k us

-- What a name's entry is worth, where one that is missing counts nothing.
abbrev pub value_of : String → Counts → Count
value_of k c = nullish (count_of k c) (number 0)

count_of-put_count :
    (k j : String) (v : Count) (c : Counts)
    → count_of k (put_count j v c) ≡ (if str_eq j k then some v else count_of k c)
count_of-put_count k j v [] = refl
count_of-put_count k j v ((i, u) ∷ rest) = elim (Bool-cases (str_eq i j)) [
  | inl e ↦ let same = ap (λ z. str_eq z k) ((eq_iff i j).0 e) in ground arith
  | inr e ↦ elim (Bool-cases (str_eq j k)) [
    | inl f ↦
        let apart = ap (str_eq i) (sym ((eq_iff j k).0 f)) ∙ e in
        ground (arith, count_of-put_count k j v rest)
    | inr f ↦ ground (arith, count_of-put_count k j v rest)
  ]
]

increased-value :
    (o : Option Count) (m n : ℕ)
    → nullish o (number 0) ≡ number m
    → increased o none n ≡ number (n + m)
increased-value none m n h = ground arith
increased-value (some (number k)) m n h = ground arith
increased-value (some (text s ns)) m n h = cc

zero_plus : (n : ℕ) → n ≡ 0 + n
zero_plus n = omega arith

module _ (inherited : String → Option String) (k : String) (free : inherited k ≡ none)
    (no_proto : str_eq k "__proto__" ≡ false) where
  value_of-add_count_same :
      (n m : ℕ) (c : Counts)
      → value_of k c ≡ number m
      → value_of k (add_count inherited k n c) ≡ number (n + m)
  value_of-add_count_same n m c h =
      ap
        (λ b.
          value_of k (if b then c else put_count k (increased (count_of k c) (inherited k) n) c))
        no_proto
      ∙ ap (λ o. value_of k (put_count k (increased (count_of k c) o n) c)) free
      ∙ ap (λ o. nullish o (number 0))
          (count_of-put_count k k (increased (count_of k c) none n) c
            ∙ ap (λ b. if b then some (increased (count_of k c) none n) else count_of k c)
                (str_eq_refl k))
      ∙ increased-value (count_of k c) m n h

  value_of-add_count_other :
      (j : String) (n m : ℕ) (c : Counts)
      → str_eq j k ≡ false
      → value_of k c ≡ number m
      → value_of k (add_count inherited j n c) ≡ number m
  value_of-add_count_other j n m c e h = elim (Bool-cases (str_eq j "__proto__")) [
    | inl q ↦ rw q h
    | inr q ↦
        let v = increased (count_of j c) (inherited j) n in
        ap (λ b. value_of k (if b then c else put_count j v c)) q
        ∙ ap (λ o. nullish o (number 0))
            (count_of-put_count k j v c ∙ ap (λ b. if b then some v else count_of k c) e)
        ∙ h
  ]

  value_of-add_count :
      (j : String) (n m : ℕ) (c : Counts)
      → value_of k c ≡ number m
      → value_of k (add_count inherited j n c) ≡ number ((if str_eq j k then n else 0) + m)
  value_of-add_count j n m c h = elim (Bool-cases (str_eq j k)) [
    | inl e ↦
        ap (λ i. value_of k (add_count inherited i n c)) ((eq_iff j k).0 e)
        ∙ value_of-add_count_same n m c h
        ∙ ap (λ b. number ((if b then n else 0) + m)) (sym e)
    | inr e ↦
        value_of-add_count_other j n m c e h
        ∙ ap number (zero_plus m)
        ∙ ap (λ b. number ((if b then n else 0) + m)) (sym e)
  ]

  value_of-add_counts :
      (ps : List (String × ℕ)) (m : ℕ) (c : Counts)
      → value_of k c ≡ number m
      → value_of k (add_counts inherited ps c) ≡ number (total k ps + m)
  value_of-add_counts [] m c h = h ∙ ap number (zero_plus m)
  value_of-add_counts ((j, n) ∷ rest) m c h =
      value_of-add_counts rest ((if str_eq j k then n else 0) + m) (add_count inherited j n c)
        (value_of-add_count j n m c h)
      ∙ ap number (omega arith)

  value_of-count_tags :
      (ms : List StatMemo) (m : ℕ) (c : Counts)
      → value_of k c ≡ number m
      → value_of k (count_tags inherited ms c) ≡ number (tagged k ms + m)
  unfolding count_tags
  value_of-count_tags [] m c h = h ∙ ap number (zero_plus m)
  value_of-count_tags (x ∷ ms) m c h =
      value_of-count_tags ms (occurrences k x.tags + m) (add_counts inherited (one_each x.tags) c)
        (value_of-add_counts (one_each x.tags) m c h)
      ∙ ap number (omega arith)

  value_of-aggregate_tag_counts :
      (us : List UserStats) (m : ℕ) (c : Counts)
      → value_of k c ≡ number m
      → value_of k (aggregate_tag_counts inherited us c) ≡ number (aggregated k us + m)
  unfolding aggregate_tag_counts
  value_of-aggregate_tag_counts [] m c h = h ∙ ap number (zero_plus m)
  value_of-aggregate_tag_counts (u ∷ us) m c h =
      let more = total k (nullish u.tag_count []) in
      value_of-aggregate_tag_counts us (more + m) (add_counts inherited (nullish u.tag_count []) c)
        (value_of-add_counts (nullish u.tag_count []) m c h)
      ∙ ap number (omega arith)

-- For a tag that is no name that every object inherits: its count, where no user is chosen, is the
-- number of times that the memos have it, and its aggregated count is the sum of what the users'
-- statistics say of it. Both are numbers.
pub use_filtered_memo_stats_counts :
    (d : Days) (k : String) (ms : List StatMemo) (us : List UserStats) (loading : Bool)
    → d.inherited k ≡ none
    → str_eq k "__proto__" ≡ false
    → (value_of k (use_filtered_memo_stats d none none (some ms) loading).tags
        ≡ number (tagged k ms))
      × (value_of k (aggregate_tag_counts d.inherited us []) ≡ number (aggregated k us))
unfolding use_filtered_memo_stats
use_filtered_memo_stats_counts d k ms us loading free no_proto = (
  value_of-count_tags d.inherited k free no_proto ms 0 [] refl ∙ ap number (omega arith),
  value_of-aggregate_tag_counts d.inherited k free no_proto us 0 [] refl ∙ ap number (omega arith),
)

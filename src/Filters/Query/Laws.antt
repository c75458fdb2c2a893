-- ===== src/Filters/Query/Laws.antt =====
-- The url holds the filters.
use mathlib.Core.Option
use mathlib.Core.Path.{subst}
use kube_memos_eks.Filters.Query.{
  MemoFilter, Codec, colon, comma, value_of, parse_filter, with_filter, parse_all,
  parse_filter_query, stringify_filter, stringify_filters, Provider, sync_from_url, sync_to_url,
  commit,
}
use kube_memos_eks.Base.{
  ltb, ◌==◌, if◌then◌else◌, Bool-cases, nullish, length, all, All, Text, text_eq, text_eq_sound,
  text_eq_refl, join, split_at, split, lacks, all-append, split_at-lacks, split_at-append,
  split-join, ℕ, ◌≡◌, refl, sym, ap, ◌∙◌, ◌≢◌, ◌⊎◌, inl, inr, Bool, true, not, ◌||◌, some, List, [],
  ◌∷◌, ◌++◌, map,
}

-- What `encodeURIComponent` gives is decoded again, and holds neither a colon nor a comma.
pub record IsUri (codec : Codec) : Type 0 where
  pub decode_encode : (s : Text) → codec.decode (codec.encode s) ≡ some s
  pub encode_colon : (s : Text) → lacks colon (codec.encode s) ≡ true
  pub encode_comma : (s : Text) → lacks comma (codec.encode s) ≡ true

-- A factor of the program's own kind has neither.
abbrev pub IsPlain : MemoFilter → Type 0
IsPlain f = (lacks colon f.factor ≡ true) × (lacks comma f.factor ≡ true)

cons_ne : (s t : Text) (c : ℕ) → s ++ c ∷ t ≢ []
cons_ne [] t c = λ e. cc
cons_ne (d ∷ s) t c = λ e. cc

join_ne : (sep x : Text) (xs : List Text) → x ≢ [] → join sep (x ∷ xs) ≢ []
join_ne sep [] xs h = absurd (h refl)
join_ne sep (c ∷ x) [] h = λ e. cc
join_ne sep (c ∷ x) (y ∷ xs) h = λ e. cc

module _ {codec : Codec} (uri : IsUri codec) where
  split-stringify :
      (f : MemoFilter)
      → IsPlain f
      → split_at colon (stringify_filter codec f) ≡ (f.factor, codec.encode f.value ∷ [])
  split-stringify f (h, _) =
      split_at-append colon f.factor (codec.encode f.value) h
      ∙ ap (λ p. (f.factor, p.0 ∷ p.1))
          (split_at-lacks colon (codec.encode f.value) (uri.encode_colon f.value))

  parse-stringify :
      (f : MemoFilter) → IsPlain f → parse_filter codec (stringify_filter codec f) ≡ some f
  parse-stringify f h =
      ap (λ p. Option.map (λ v. record { factor = p.0; value = v }) (codec.decode (value_of p.1)))
        (split-stringify f h)
      ∙ ap (Option.map (λ v. record { factor = f.factor; value = v })) (uri.decode_encode f.value)

  parse_all-map :
      (fs : List MemoFilter)
      → All IsPlain fs
      → parse_all codec (map (stringify_filter codec) fs) ≡ some fs
  parse_all-map [] h = refl
  parse_all-map (f ∷ fs) (h, hs) =
      ap (λ o. with_filter o (parse_all codec (map (stringify_filter codec) fs)))
        (parse-stringify f h)
      ∙ ap (with_filter (some f)) (parse_all-map fs hs)

  lacks-stringify : (f : MemoFilter) → IsPlain f → lacks comma (stringify_filter codec f) ≡ true
  lacks-stringify f (_, h) = rw (
    all-append (λ c. not (c == comma)) f.factor (colon ∷ codec.encode f.value),
    h,
    uri.encode_comma f.value,
  )

  all-stringify :
      (fs : List MemoFilter)
      → All IsPlain fs
      → all (lacks comma) (map (stringify_filter codec) fs) ≡ true
  all-stringify [] h = refl
  all-stringify (f ∷ fs) (h, hs) = rw (lacks-stringify f h, all-stringify fs hs)

  nonempty :
      (f : MemoFilter) (fs : List MemoFilter) (t : Text)
      → stringify_filters codec (f ∷ fs) ≡ t
      → t ≢ []
  unfolding stringify_filters
  nonempty f fs t e h =
      join_ne (comma ∷ []) (stringify_filter codec f) (map (stringify_filter codec) fs)
        (cons_ne f.factor (codec.encode f.value) colon) (e ∙ h)

  parse_nonempty :
      (t : Text)
      → t ≢ []
      → parse_filter_query codec (some t) ≡ nullish (parse_all codec (split comma t)) []
  unfolding parse_filter_query
  parse_nonempty [] h = absurd (h refl)
  parse_nonempty (c ∷ s) h = refl

  -- The filters that a url holds are read back from it, in order, if their factors hold neither a
  -- colon nor a comma.
  pub parse_filter_query-stringify_filters :
      (fs : List MemoFilter)
      → All IsPlain fs
      → parse_filter_query codec (some (stringify_filters codec fs)) ≡ fs
  unfolding stringify_filters
  parse_filter_query-stringify_filters [] h = unfold parse_filter_query in refl
  parse_filter_query-stringify_filters (f ∷ fs) h =
      parse_nonempty (stringify_filters codec (f ∷ fs))
        (nonempty f fs (stringify_filters codec (f ∷ fs)) refl)
      ∙ ap (λ ss. nullish (parse_all codec ss) [])
          (split-join comma (stringify_filter codec f) (map (stringify_filter codec) fs)
            (all-stringify (f ∷ fs) h))
      ∙ ap (λ o. nullish o []) (parse_all-map (f ∷ fs) h)

module _ (codec : Codec) where
  abbrev IsSynced : Provider → Type 0
  IsSynced p = nullish p.url [] ≡ p.last_synced_url

  from_url-IsSynced : (p : Provider) → IsSynced (sync_from_url codec p)
  unfolding sync_from_url
  from_url-IsSynced p = elim (Bool-cases (text_eq (nullish p.url []) p.last_synced_url)) [
    | inl e ↦ rw e (text_eq_sound (nullish p.url []) p.last_synced_url e)
    | inr e ↦ rw e
  ]

  from_url-synced : (p : Provider) → IsSynced p → sync_from_url codec p ≡ p
  unfolding sync_from_url
  from_url-synced p h =
      ap (λ b. if b then p else taken)
        (ap (λ u. text_eq u p.last_synced_url) h ∙ text_eq_refl p.last_synced_url)
    where
      taken : Provider
      taken = record p {
        last_synced_url = nullish p.url [];
        state = record p.state { filters = parse_filter_query codec (some (nullish p.url [])) };
        last_synced_store =
            stringify_filters codec (parse_filter_query codec (some (nullish p.url [])));
      }

  abbrev known : List MemoFilter → Provider → Bool
  known fs p =
      text_eq (stringify_filters codec fs) p.last_synced_store
      || text_eq (stringify_filters codec fs) p.last_synced_url

  -- The second effect does nothing, or writes the url.
  to_url-cases :
      (fs : List MemoFilter) (p : Provider)
      → ((sync_to_url codec fs p ≡ p) × (known fs p ≡ true))
        ⊎ (IsSynced (sync_to_url codec fs p) × (known fs (sync_to_url codec fs p) ≡ true))
  unfolding sync_to_url
  to_url-cases fs p = elim (Bool-cases (known fs p)) [
    | inl e ↦ inl (rw e, e)
    | inr e ↦ elim (Bool-cases (ltb 0 (length fs))) [
      | inl l ↦ inr (rw (e, l) (refl, same (stringify_filters codec fs)))
      | inr l ↦ inr (rw (e, l) (refl, same []))
    ]
  ]
    where
      same :
          (t : Text)
          → (text_eq (stringify_filters codec fs) (stringify_filters codec fs)
              || text_eq (stringify_filters codec fs) t)
            ≡ true
      same t =
          ap (λ b. b || text_eq (stringify_filters codec fs) t)
            (text_eq_refl (stringify_filters codec fs))

  to_url-known :
      (fs : List MemoFilter) (p : Provider) → known fs p ≡ true → sync_to_url codec fs p ≡ p
  unfolding sync_to_url
  to_url-known fs p h = rw h

  state-to_url : (fs : List MemoFilter) (p : Provider) → (sync_to_url codec fs p).state ≡ p.state
  unfolding sync_to_url
  state-to_url fs p = elim (Bool-cases (known fs p)) [
    | inl e ↦ rw e
    | inr e ↦ elim (Bool-cases (ltb 0 (length fs))) [ inl l ↦ rw (e, l) | inr l ↦ rw (e, l) ]
  ]

  to_url-IsSynced :
      (fs : List MemoFilter) (p : Provider) → IsSynced p → IsSynced (sync_to_url codec fs p)
  to_url-IsSynced fs p s = elim (to_url-cases fs p) [
    | inl (e, _) ↦ subst IsSynced (sym e) s
    | inr (h, _) ↦ h
  ]

  abbrev IsSettled : Provider → Type 0
  IsSettled p = IsSynced p × (known p.state.filters p ≡ true)

  commit-IsSynced : (p : Provider) → IsSynced (commit codec p)
  unfolding commit
  commit-IsSynced p = to_url-IsSynced p.state.filters (sync_from_url codec p) (from_url-IsSynced p)

  commit_synced : (p : Provider) → IsSynced p → commit codec p ≡ sync_to_url codec p.state.filters p
  unfolding commit
  commit_synced p s = ap (sync_to_url codec p.state.filters) (from_url-synced p s)

  to_url-IsSettled : (p : Provider) → IsSynced p → IsSettled (sync_to_url codec p.state.filters p)
  to_url-IsSettled p s = elim (to_url-cases p.state.filters p) [
    | inl (e, k) ↦ subst IsSettled (sym e) (s, k)
    | inr (h, k) ↦ (
      h,
      ap (λ t. known t.filters (sync_to_url codec p.state.filters p))
            (state-to_url p.state.filters p)
          ∙ k,
    )
  ]

  commit_settled : (p : Provider) → IsSettled p → commit codec p ≡ p
  commit_settled p (s, k) = commit_synced p s ∙ to_url-known p.state.filters p k

  -- From whatever the url, the filters and the marks are, two commits settle: a third changes nothing,
  -- and the filters are then those that the first took from the url or, if it had not changed, kept.
  pub commit_settles :
      (p : Provider)
      → (commit codec (commit codec (commit codec p)) ≡ commit codec (commit codec p))
        × ((commit codec (commit codec p)).state ≡ (sync_from_url codec p).state)
  commit_settles p =
      let once = commit codec p in
      let twice = commit_synced once (commit-IsSynced p) in
      (
        commit_settled (commit codec once)
            (subst IsSettled (sym twice) (to_url-IsSettled once (commit-IsSynced p))),
        ap (λ q. q.state) twice ∙ state-to_url once.state.filters once ∙ first,
      )
    where
      first : (commit codec p).state ≡ (sync_from_url codec p).state
      first = unfold commit in state-to_url p.state.filters (sync_from_url codec p)

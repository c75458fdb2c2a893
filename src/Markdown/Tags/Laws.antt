-- ===== src/Markdown/Tags/Laws.antt =====
-- Parsing tags loses nothing, and every tag is a run of tag characters of bounded length.
use mathlib.Core.Path.{subst}
use kube_memos_eks.Markdown.Tags.{
  Segment, text_segment, tag_segment, max_tag_length, hash, opens_tag, is_plain_hash, not_hash,
  step, previous, parse_from_position, parse_tags_from_text, print_segment, print_segments,
}
use kube_memos_eks.Base.{
  ltb, leb, if◌then◌else◌, Bool-cases, length, drop, all, All, Text, span, span-all, ℕ, zero, suc,
  ◌≤◌, ◌<◌, ◌≡◌, refl, sym, ap, ◌∙◌, inl, inr, Bool, true, ◌&&◌, Option, none, [], ◌∷◌, ◌++◌, arith,
}

drop-span : (p : ℕ → Bool) (s : Text) → (span p s).0 ++ drop (length (span p s).0) s ≡ s
drop-span p [] = refl
drop-span p (c ∷ s) = ground (arith, drop-span p s)

module _ (is_tag_char : ℕ → Bool) where
  -- A tag that is found: a nonempty run of tag characters, no longer than the limit.
  abbrev pub IsTag : Segment → Type 0
  IsTag (text_segment s) = Unit
  IsTag (tag_segment s) = (0 < length s) × (length s ≤ max_tag_length) × (all is_tag_char s ≡ true)

  -- What is known of a step: it prints the characters that it takes, and a tag is a tag.
  abbrev Fits : ℕ → Text → Segment × ℕ → Type 0
  Fits c s found = (print_segment found.0 ++ drop found.1 s ≡ c ∷ s) × IsTag found.0

  step-Fits : (prev : Option ℕ) (c : ℕ) (s : Text) → Fits c s (step is_tag_char prev c s)
  step-Fits prev c s =
      elim (Bool-cases (opens_tag is_tag_char (c ∷ s) && is_plain_hash prev (c ∷ s))) [
        | inl e ↦ subst (Fits c s) (sym (ap (λ b. if b then plain_hash else other) e)) (refl, tt)
        | inr e ↦ subst (Fits c s) (sym (ap (λ b. if b then plain_hash else other) e)) other-Fits
      ]
    where
      plain_hash : Segment × ℕ
      plain_hash = (text_segment (c ∷ []), 0)

      tagged : Segment × ℕ
      tagged = (tag_segment (span is_tag_char s).0, length (span is_tag_char s).0)

      plain : Segment × ℕ
      plain = (text_segment (c ∷ (span not_hash s).0), length (span not_hash s).0)

      test : Bool
      test =
          opens_tag is_tag_char (c ∷ s)
          && (ltb 0 (length (span is_tag_char s).0)
              && leb (length (span is_tag_char s).0) max_tag_length)

      other : Segment × ℕ
      other = if test then tagged else plain

      is_hash : (t : Text) → opens_tag is_tag_char (c ∷ t) ≡ true → c ≡ hash
      is_hash [] h = cc
      is_hash (d ∷ t) h = ground arith

      tagged-Fits : test ≡ true → Fits c s tagged
      tagged-Fits h =
          let opened : opens_tag is_tag_char (c ∷ s) ≡ true = ground arith in
          let long : ltb 0 (length (span is_tag_char s).0) ≡ true = ground arith in
          let short : leb (length (span is_tag_char s).0) max_tag_length ≡ true = ground arith in
          (
            ap (hash ∷◌) (drop-span is_tag_char s) ∙ ap (λ x. x ∷ s) (sym (is_hash s opened)),
            (ground arith, ground arith, span-all is_tag_char s),
          )

      other-Fits : Fits c s other
      other-Fits = elim (Bool-cases test) [
        | inl e ↦ subst (Fits c s) (sym (ap (λ b. if b then tagged else plain) e)) (tagged-Fits e)
        | inr e ↦
            subst (Fits c s) (sym (ap (λ b. if b then tagged else plain) e))
              (ap (c ∷◌) (drop-span not_hash s), tt)
      ]

  length-drop : (n : ℕ) (s : Text) → length (drop n s) ≤ length s
  length-drop zero s = omega arith
  length-drop (suc n) [] = omega arith
  length-drop (suc n) (c ∷ s) = omega (arith, length-drop n s)

  -- The parser loses nothing: with the "#" of its tags, the segments are the text; and each tag is a
  -- nonempty run of tag characters, of at most a hundred.
  parse_from_position-print :
      (fuel : ℕ) (prev : Option ℕ) (s : Text)
      → length s ≤ fuel
      → (print_segments (parse_from_position is_tag_char fuel prev s) ≡ s)
        × All IsTag (parse_from_position is_tag_char fuel prev s)
  parse_from_position-print zero prev [] h = (refl, tt)
  parse_from_position-print zero prev (c ∷ s) h = absurd (omega arith)
  parse_from_position-print (suc fuel) prev [] h = (refl, tt)
  parse_from_position-print (suc fuel) prev (c ∷ s) h =
      let found = step is_tag_char prev c s in
      let (e, t) = step-Fits prev c s in
      let (p, ts) =
        parse_from_position-print fuel (previous found.1 c s) (drop found.1 s)
          (omega (arith, length-drop found.1 s)) in
      (ap (print_segment found.0 ++◌) p ∙ e, (t, ts))

-- Parsing the tags of a text loses nothing: the segments, with the "#" of the tags, are the text; and
-- each tag is a nonempty run of tag characters, of at most a hundred.
pub parse_tags_from_text_lossless :
    (is_tag_char : ℕ → Bool) (s : Text)
    → (print_segments (parse_tags_from_text is_tag_char s) ≡ s)
      × All (IsTag is_tag_char) (parse_tags_from_text is_tag_char s)
unfolding parse_tags_from_text
parse_tags_from_text_lossless is_tag_char s =
    parse_from_position-print is_tag_char (length s) none s (omega arith)

-- ===== src/Markdown/Tags.antt =====
-- Tags in the text of a Markdown node (utils/remark-plugins/remark-tag.ts). A character is a code
-- point. Which of them are letters, numbers and symbols is the platform's Unicode table: a class
-- that holds neither "#" nor the space.
pub mod Laws
use kube_memos_eks.Base.{
  ltb, leb, ◌==◌, if◌then◌else◌, length, drop, Text, span, ℕ, zero, suc, Bool, false, not, ◌&&◌,
  ◌||◌, Option, none, some, List, [], ◌∷◌, ◌++◌,
}

pub data Segment : Type 0 where
  text_segment tag_segment : Text → Segment

abbrev pub max_tag_length : ℕ
max_tag_length = 100

abbrev pub hash : ℕ
hash = b'#'

-- The first test inside: a "#" before or behind, or a space behind, and it is plain text.
abbrev pub is_plain_hash : Option ℕ → Text → Bool
is_plain_hash (some p) (c ∷ d ∷ s) = p == hash || (d == hash || d == 32)
is_plain_hash none (c ∷ d ∷ s) = d == hash || d == 32
is_plain_hash prev _ = false

abbrev pub not_hash : ℕ → Bool
not_hash c = not (c == hash)

-- The character before the next one, when `n` characters after `c` were taken.
abbrev pub previous : ℕ → ℕ → Text → Option ℕ
previous zero c s = some c
previous (suc n) c [] = some c
previous (suc n) c (d ∷ s) = previous n d s

module _ (is_tag_char : ℕ → Bool) where
  -- `chars[i] === "#" && i + 1 < chars.length && isTagChar(chars[i + 1])`
  abbrev pub opens_tag : Text → Bool
  opens_tag (c ∷ d ∷ s) = c == hash && is_tag_char d
  opens_tag _ = false

  -- A step of the loop at a character: the segment that is pushed, and how many characters after this
  -- one it takes. `prev` is the character before.
  abbrev pub step : Option ℕ → ℕ → Text → Segment × ℕ
  step prev c s =
      let tag = (span is_tag_char s).0 in
      let plain = (span not_hash s).0 in
      if opens_tag (c ∷ s) && is_plain_hash prev (c ∷ s)
      then (text_segment (c ∷ []), 0)
      else if opens_tag (c ∷ s) && (ltb 0 (length tag) && leb (length tag) max_tag_length)
      then (tag_segment tag, length tag)
      else (text_segment (c ∷ plain), length plain)

  -- The loop on fuel: one step takes a character at least, so the length of the text is enough.
  abbrev pub parse_from_position : ℕ → Option ℕ → Text → List Segment
  parse_from_position zero prev s = []
  parse_from_position (suc fuel) prev [] = []
  parse_from_position (suc fuel) prev (c ∷ s) =
      let found = step prev c s in
      found.0 ∷ parse_from_position fuel (previous found.1 c s) (drop found.1 s)

  -- `parseTagsFromText`
  unfoldable pub parse_tags_from_text : Text → List Segment
  parse_tags_from_text s = parse_from_position (length s) none s

-- What a segment is printed as: a tag node has the "#" before its value.
abbrev pub print_segment : Segment → Text
print_segment (text_segment s) = s
print_segment (tag_segment s) = hash ∷ s

abbrev pub print_segments : List Segment → Text
print_segments [] = []
print_segments (x ∷ xs) = print_segment x ++ print_segments xs

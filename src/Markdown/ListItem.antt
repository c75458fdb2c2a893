-- ===== src/Markdown/ListItem.antt =====
-- List items at the end of a text, and how the next line continues them
-- (utils/markdown-list-detection.ts). The regular expressions are read as the functions that they
-- are: in each, what may repeat cannot match what follows it.
use kube_memos_eks.Markdown.Decimal.{is_digit, parse_from, print_nat}
pub mod Continuation
use mathlib.Core.Option
use kube_memos_eks.Base.{
  ◌==◌, if◌then◌else◌, nullish, Text, codes, is_space, span, drop_spaces, split_at, last, ℕ, ◌+◌,
  Bool, ◌&&◌, ◌||◌, Option, none, some, [], ◌∷◌, ◌++◌, map,
}

pub data ListType : Type 0 where
  task unordered ordered : ListType

-- `type: null` is `none`. A symbol is one code unit.
pub record ListItemInfo : Type 0 where
  pub type : Option ListType
  pub symbol : Option ℕ
  pub number : Option ℕ
  pub indent : Text

abbrev pub newline : ℕ
newline = 10

-- `[-*+]`
unfoldable pub is_bullet : ℕ → Bool
is_bullet c = c == b'-' || c == b'*' || c == b'+'

-- `[ xX]`
abbrev pub is_mark : ℕ → Bool
is_mark c = c == 32 || c == b'x' || c == b'X'

-- `\s+`, then the rest.
abbrev pub after_spaces : Text → Option Text
after_spaces [] = none
after_spaces (c ∷ s) = if is_space c then some (drop_spaces s) else none

-- `[-*+]`, behind the indentation: the symbol and the rest.
abbrev pub after_bullet : Text → Option (ℕ × Text)
after_bullet [] = none
after_bullet (c ∷ s) = if is_bullet c then some (c, s) else none

-- `\[([ xX])\]`
abbrev pub after_checkbox : Text → Option Text
after_checkbox (a ∷ b ∷ c ∷ s) = if a == b'[' && (is_mark b && c == b']') then some s else none
after_checkbox _ = none

-- `[.)]`
abbrev pub after_delimiter : Text → Option Text
after_delimiter [] = none
after_delimiter (c ∷ s) = if c == b'.' || c == b')' then some s else none

-- `(\d+)[.)]`
abbrev pub number_of : Text × Text → Option (ℕ × Text)
number_of ([], s) = none
number_of (c ∷ r, s) = Option.map (λ t. (parse_from 0 (c ∷ r), t)) (after_delimiter s)

abbrev pub after_number : Text → Option (ℕ × Text)
after_number s = number_of (span is_digit s)

abbrev pub indent_of : Text → Text
indent_of line = (span is_space line).0

-- The three patterns, at what follows the indentation.
unfoldable pub match_task : Text → Option ℕ
match_task s = elim (after_bullet s) [
  | none ↦ none
  | some (symbol, r) ↦ elim (Option.bind (after_spaces r) after_checkbox) [
    | none ↦ none
    | some u ↦ elim (after_spaces u) [ none ↦ none | some _ ↦ some symbol ]
  ]
]

unfoldable pub match_unordered : Text → Option ℕ
match_unordered s = elim (after_bullet s) [
  | none ↦ none
  | some (symbol, r) ↦ elim (after_spaces r) [ none ↦ none | some _ ↦ some symbol ]
]

unfoldable pub match_ordered : Text → Option ℕ
match_ordered s = elim (after_number s) [
  | none ↦ none
  | some (n, r) ↦ elim (after_spaces r) [ none ↦ none | some _ ↦ some n ]
]

unfoldable pub info_of : Text → Option ℕ → Option ℕ → Option ℕ → ListItemInfo
info_of indent (some symbol) _ _ = record {
  type = some task;
  symbol = some symbol;
  number = none;
  indent = indent;
}
info_of indent none (some symbol) _ = record {
  type = some unordered;
  symbol = some symbol;
  number = none;
  indent = indent;
}
info_of indent none none (some n) = record {
  type = some ordered;
  symbol = none;
  number = some n;
  indent = indent;
}
info_of indent none none none = record {
  type = none;
  symbol = none;
  number = none;
  indent = indent;
}

unfoldable pub detect_line : Text → ListItemInfo
detect_line line =
    let s = drop_spaces line in
    info_of (indent_of line) (match_task s) (match_unordered s) (match_ordered s)

abbrev pub last_line : Text → Text
last_line s = last (split_at newline s).0 (split_at newline s).1

-- `detectLastListItem`
unfoldable pub detect_last_list_item : Text → ListItemInfo
detect_last_list_item content = detect_line (last_line content)

-- A missing symbol is printed as a template literal prints `undefined`.
abbrev print_symbol : Option ℕ → Text
print_symbol none = codes "undefined"
print_symbol (some c) = c ∷ []

abbrev continuation_of : Option ListType → ListItemInfo → Text
continuation_of (some task) i = i.indent ++ (print_symbol i.symbol ++ codes " [ ] ")
continuation_of (some unordered) i = i.indent ++ (print_symbol i.symbol ++ codes " ")
continuation_of (some ordered) i = i.indent ++ (print_nat (nullish i.number 0 + 1) ++ codes ". ")
continuation_of none i = i.indent

-- `generateListContinuation`
unfoldable pub generate_list_continuation : ListItemInfo → Text
generate_list_continuation i = continuation_of i.type i

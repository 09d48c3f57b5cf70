-- ===== src/Protocol/Mentions.antt =====
-- src/protocol/mentions.ts: the @mentions of a message outside code, sorted by whether the roster
-- knows them.
pub mod Analysis
use telegent.Base.{
  Text, codes, text_eq, text_eq→eq, text_eq_refl, text_eq_iff, text_eq_ne, ltb, leb, ◌==◌,
  if◌then◌else◌, ==_iff, Bool-cases, Option-cases, is_some, or_else, Result, ok, err, ◌>>=◌, ◌>>◌,
  guard, occurs, occurs-append, length, length-append, filter, find, any, all, All, All-append,
  All-map, All-filter, includes, ℕ, zero, suc, ◌+◌, ◌-◌, ◌*◌, ◌/◌, ◌%◌, ◌^◌, ◌≤◌, ◌<◌, max, min,
  ◌≡◌, refl, sym, ap, subst, ◌∙◌, ◌≢◌, ◌↔◌, ◌⊎◌, inl, inr, Bool, true, false, not, ◌&&◌, ◌||◌,
  Option, none, some, List, [], ◌∷◌, ◌++◌, map, arith,
}
use telegent.Protocol.Validation.{is_safe_slug, is_slug_char, is_word_char, is_space}

pub record MentionAnalysis : Type 0 where
  pub mentions : List Text
  pub unknown : List Text

-- `" ".repeat(line.length)`
abbrev pub blank : Text → Text
blank line = map (λ c. 32) line

-- A backquote opens or closes inline code, and is itself masked.
unfoldable pub mask_inline_code : Bool → Text → Text
mask_inline_code in_inline [] = []
mask_inline_code in_inline (c ∷ line) =
    if c == 96
    then 32 ∷ mask_inline_code (not in_inline) line
    else (if in_inline then 32 else c) ∷ mask_inline_code in_inline line

abbrev pub starts_fence : Text → Bool
starts_fence (a ∷ b ∷ c ∷ s) = a == 96 && b == 96 && c == 96
starts_fence _ = false

-- `line.trimStart().startsWith("```")`
abbrev pub has_fence : Text → Bool
has_fence [] = false
has_fence (c ∷ s) = let rest = has_fence s in if is_space c then rest else starts_fence (c ∷ s)

unfoldable pub mask_lines : Bool → List Text → List Text
unfolding mask_inline_code
mask_lines in_fence [] = []
mask_lines in_fence (line ∷ lines) =
    if has_fence line
    then blank line ∷ mask_lines (not in_fence) lines
    else (if in_fence then blank line else mask_inline_code false line) ∷ mask_lines in_fence lines

-- `text.split("\n")`, which is never empty, and `lines.join("\n")`.
abbrev pub put_first : ℕ → List Text → List Text
put_first c [] = (c ∷ []) ∷ []
put_first c (line ∷ lines) = (c ∷ line) ∷ lines

abbrev pub split_lines : Text → List Text
split_lines [] = [] ∷ []
split_lines (c ∷ s) = let rest = split_lines s in if c == 10 then [] ∷ rest else put_first c rest

abbrev pub join_lines : List Text → Text
join_lines [] = []
join_lines (line ∷ []) = line
join_lines (line ∷ next ∷ lines) = line ++ 10 ∷ join_lines (next ∷ lines)

unfoldable pub mask_code : Text → Text
unfolding mask_lines
mask_code text = join_lines (mask_lines false (split_lines text))

-- `[a-z0-9-]*`, as much of it as there is.
abbrev pub alias_prefix : Text → Text
alias_prefix [] = []
alias_prefix (c ∷ s) = let rest = alias_prefix s in if is_slug_char c then c ∷ rest else []

-- `@([a-z0-9-]+)` at the head of a text.
abbrev pub at_alias : Text → Option Text
at_alias [] = none
at_alias (c ∷ s) =
    if c == b'@' then elim (alias_prefix s) [ [] ↦ none | (a ∷ rest) ↦ some (a ∷ rest) ] else none

-- `[^\w-]@([a-z0-9-]+)` at the head of a text.
abbrev pub after_boundary : Text → Option Text
after_boundary [] = none
after_boundary (c ∷ s) = if is_word_char c || c == b'-' then none else at_alias s

-- The aliases of the matches of `/(^|[^\w-])@([a-z0-9-]+)/g` past the start of the text, where `skip`
-- characters belong to the match before.
unfoldable pub scan : ℕ → Text → List Text
scan skip [] = []
scan (suc skip) (c ∷ s) = scan skip s
scan zero (c ∷ s) = elim (after_boundary (c ∷ s)) [
  | none ↦ scan 0 s
  | some alias ↦ alias ∷ scan (1 + length alias) s
]

-- At the start of the text, `^` matches first.
unfoldable pub matches : Text → List Text
unfolding scan
matches text = elim (at_alias text) [
  | none ↦ scan 0 text
  | some alias ↦ alias ∷ scan (1 + length alias) text
]

-- Where a match goes, unless it is there already: `seenMention` and `seenUnknown` hold what the lists
-- hold.
unfoldable pub sort_match : List Text → Text → MentionAnalysis → MentionAnalysis
sort_match roster alias a =
    if includes roster alias
    then (if includes a.mentions alias then a else record a { mentions = a.mentions ++ alias ∷ [] })
    else if includes a.unknown alias
    then a
    else record a { unknown = a.unknown ++ alias ∷ [] }

-- The two lists, in the order of first appearance.
unfoldable pub sort_matches : List Text → List Text → MentionAnalysis → MentionAnalysis
sort_matches roster [] a = a
sort_matches roster (alias ∷ rest) a = sort_matches roster rest (sort_match roster alias a)

unfoldable pub analyze_mentions : Text → List Text → MentionAnalysis
unfolding mask_code matches sort_matches
analyze_mentions text aliases =
    sort_matches (filter is_safe_slug aliases) (matches (mask_code text))
      (record { mentions = []; unknown = [] })

unfoldable pub parse_mentions : Text → List Text → List Text
unfolding analyze_mentions
parse_mentions text aliases = (analyze_mentions text aliases).mentions

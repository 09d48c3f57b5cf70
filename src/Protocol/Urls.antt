-- ===== src/Protocol/Urls.antt =====
-- src/protocol/urls.ts. `href` is `new URL(·).toString()` and `resolve` is `new URL(·, ·).toString()`,
-- each none where the constructor throws.
use telegent.Base.{Text, if◌then◌else◌, ◌==◌, Option, none, some, [], ◌∷◌, ◌++◌}

pub record UrlApi : Type 0 where
  pub href : Text → Option Text
  pub resolve : Text → Text → Option Text

-- A slash at the end is dropped.
abbrev pub drop_slash : Text → Text
drop_slash [] = []
drop_slash (c ∷ []) = if c == 47 then [] else c ∷ []
drop_slash (c ∷ d ∷ s) = c ∷ drop_slash (d ∷ s)

unfoldable pub normalize_base_url : UrlApi → Text → Option Text
normalize_base_url u base_url = elim (u.href base_url) [
  | none ↦ none
  | some url ↦ some (drop_slash url)
]

abbrev pub without_slash : Text → Text
without_slash [] = []
without_slash (c ∷ s) = if c == 47 then s else c ∷ s

unfoldable pub room_url : UrlApi → Text → Text → Option Text
unfolding normalize_base_url
room_url u base_url path = elim (normalize_base_url u base_url) [
  | none ↦ none
  | some base ↦ u.resolve (without_slash path) (base ++ 47 ∷ [])
]

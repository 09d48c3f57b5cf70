-- ===== src/Protocol/Forum/Tags.antt =====
-- The tags of a post once they are normalized.
use telegent.Base.{
  Text, text_eq, text_eq→eq, leb, Bool-cases, Result, ok, err, ◌>>=◌, occurs, occurs-append, length,
  All, All-append, includes, ◌≤◌, ◌≡◌, refl, subst, inl, inr, true, false, ◌||◌, List, [], ◌∷◌,
  ◌++◌, arith,
}
use telegent.Protocol.Validation.{is_safe_slug, trim}
use telegent.Protocol.Forum.{
  ForumError, normalize_forum_tags, collect_tags, cap_tags, is_empty, max_forum_tags,
}

-- Safe slugs, each once.
abbrev pub IsTags : List Text → Type 0
IsTags out = All (λ t. is_safe_slug t ≡ true) out × ((t : Text) → occurs t out ≤ 1)

occurs-includes : (t : Text) (xs : List Text) → includes xs t ≡ false → occurs t xs ≡ 0
occurs-includes t [] h = refl
occurs-includes t (x ∷ xs) h = ground (arith, occurs-includes t xs)

pushed-IsTags :
    (out : List Text) (tag : Text)
    → IsTags out
    → includes out tag ≡ false
    → is_safe_slug tag ≡ true
    → IsTags (out ++ tag ∷ [])
pushed-IsTags out tag h new safe = (
  All-append (λ t. is_safe_slug t ≡ true) out (tag ∷ []) h.0 (safe, tt),
  λ t. elim (Bool-cases (text_eq tag t)) [
    | inl same ↦
        let fresh : includes out t ≡ false =
          subst (λ (x : Text). includes out x ≡ false) (text_eq→eq tag t same) new in
        ground (arith, occurs-append t out (tag ∷ []), occurs-includes t out fresh, same)
    | inr other ↦ ground (arith, occurs-append t out (tag ∷ []), h.1 t, other)
  ],
)

collect_tags-IsTags :
    (lower : Text → Text) (tags out r : List Text)
    → IsTags out
    → collect_tags lower out tags ≡ ok r
    → IsTags r
unfolding collect_tags
collect_tags-IsTags lower [] out r h e =
    let same : out ≡ r = cc in subst (λ (x : List Text). IsTags x) same h
collect_tags-IsTags lower (raw ∷ tags) out r h e =
    let tag = lower (trim raw) in
    elim (Bool-cases (is_empty tag || includes out tag)) [
      | inl skipped ↦
          let rest : collect_tags lower out tags ≡ ok r = ground (arith, skipped, e) in
          collect_tags-IsTags lower tags out r h rest
      | inr new ↦ elim (Bool-cases (is_safe_slug tag)) [
        | inl safe ↦
            let rest : collect_tags lower (out ++ tag ∷ []) tags ≡ ok r =
              ground (arith, new, safe, e) in
            collect_tags-IsTags lower tags (out ++ tag ∷ []) r
              (pushed-IsTags out tag h (ground (arith, new)) safe) rest
        | inr unsafe ↦ absurd (ground (arith, new, unsafe, e))
      ]
    ]

-- Normalized tags are at most twelve safe slugs, each once.
pub normalize_forum_tags-IsTags :
    (lower : Text → Text) (tags out : List Text)
    → normalize_forum_tags lower tags ≡ ok out
    → IsTags out × (length out ≤ max_forum_tags)
unfolding normalize_forum_tags
normalize_forum_tags-IsTags lower tags out e = by_collected (collect_tags lower [] tags) refl e
  where
    by_collected :
        (c : Result ForumError (List Text))
        → collect_tags lower [] tags ≡ c
        → (c >>= λ o. cap_tags o) ≡ ok out
        → IsTags out × (length out ≤ max_forum_tags)
    by_collected (err x) same k = cc
    by_collected (ok o) same k = elim (Bool-cases (leb (length o) max_forum_tags)) [
      | inl few ↦
          let kept : o ≡ out = ground (arith, few, k) in
          subst (λ (x : List Text). IsTags x × (length x ≤ max_forum_tags)) kept
            (collect_tags-IsTags lower tags [] o (tt, λ t. omega arith) same, ground (arith, few))
      | inr many ↦ absurd (ground (arith, many, k))
    ]

-- ===== src/Protocol/Mentions/Analysis.antt =====
-- Which of a text's matches end up as mentions and which as unknown.
use telegent.Base.{
  Text, text_eq, text_eq→eq, if◌then◌else◌, occurs, occurs-append, filter, includes, ℕ, ◌+◌, ◌≡◌,
  ap, Bool, true, not, ◌&&◌, ◌||◌, List, [], ◌∷◌, ◌++◌, arith,
}
use telegent.Protocol.Validation.{is_safe_slug}
use telegent.Protocol.Mentions.{
  MentionAnalysis, matches, mask_code, sort_match, sort_matches, analyze_mentions,
}

includes-append :
    (xs : List Text) (x y : Text) → includes (xs ++ y ∷ []) x ≡ (includes xs x || text_eq y x)
includes-append [] x y = ground arith
includes-append (z ∷ xs) x y = ground (arith, includes-append xs x y)

-- What a list gains by a string: one of it, where it should and does not have it yet.
abbrev gained : Bool → List Text → List Text → Text → ℕ
gained wanted ms xs x = if wanted && includes ms x && not (includes xs x) then 1 else 0

includes-eq : (xs : List Text) (x y : Text) → text_eq x y ≡ true → includes xs x ≡ includes xs y
includes-eq xs x y e = ap (includes xs) (text_eq→eq x y e)

module _ (roster : List Text) (x m : Text) (a : MentionAnalysis) where
  occurs-sort_match :
      (occurs x (sort_match roster m a).mentions
        ≡ occurs x a.mentions + gained (includes roster x) (m ∷ []) a.mentions x)
      × (occurs x (sort_match roster m a).unknown
          ≡ occurs x a.unknown + gained (not (includes roster x)) (m ∷ []) a.unknown x)
  unfolding sort_match
  occurs-sort_match = ground (
    arith,
    includes-eq roster m x,
    includes-eq a.mentions m x,
    includes-eq a.unknown m x,
    occurs-append x a.mentions (m ∷ []),
    occurs-append x a.unknown (m ∷ []),
  )

  includes-sort_match :
      (includes (sort_match roster m a).mentions x
        ≡ (includes a.mentions x || text_eq m x && includes roster x))
      × (includes (sort_match roster m a).unknown x
          ≡ (includes a.unknown x || text_eq m x && not (includes roster x)))
  unfolding sort_match
  includes-sort_match = ground (
    arith,
    includes-eq roster m x,
    includes-eq a.mentions m x,
    includes-eq a.unknown m x,
    includes-append a.mentions x m,
    includes-append a.unknown x m,
  )

module _ (roster : List Text) (x : Text) where
  occurs-sort_matches :
      (ms : List Text) (a : MentionAnalysis)
      → (occurs x (sort_matches roster ms a).mentions
          ≡ occurs x a.mentions + gained (includes roster x) ms a.mentions x)
        × (occurs x (sort_matches roster ms a).unknown
            ≡ occurs x a.unknown + gained (not (includes roster x)) ms a.unknown x)
  unfolding sort_matches
  occurs-sort_matches [] a = ground arith
  occurs-sort_matches (m ∷ ms) a = ground (
    arith,
    occurs-sort_matches ms (sort_match roster m a),
    occurs-sort_match roster x m a,
    includes-sort_match roster x m a,
  )

-- Every string stands in `mentions` once if it is a match outside code and a safe alias of the
-- roster, and not at all otherwise; in `unknown` once if it is a match and no such alias, and not at
-- all otherwise.
pub occurs-analyze_mentions :
    (text : Text) (aliases : List Text) (x : Text)
    → let roster = filter is_safe_slug aliases in
      let found = includes (matches (mask_code text)) x in
      (occurs x (analyze_mentions text aliases).mentions
        ≡ (if found && includes roster x then 1 else 0))
      × (occurs x (analyze_mentions text aliases).unknown
          ≡ (if found && not (includes roster x) then 1 else 0))
unfolding analyze_mentions
occurs-analyze_mentions text aliases x =
    let ms = matches (mask_code text) in
    ground (
      arith,
      occurs-sort_matches (filter is_safe_slug aliases) x ms
          (record { mentions = []; unknown = [] }),
    )

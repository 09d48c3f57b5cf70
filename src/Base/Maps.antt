-- ===== src/Base/Maps.antt =====
-- `Map<string, V>` of the source: the entries in the order in which their keys were first set.
use mathlib.Core.Path.{◌≡◌, refl, ap, ◌∙◌}
use mathlib.Core.Bool.{◌&&◌}
use mathlib.Core.Option.{Option, none, some}
use mathlib.Core.List.{List, [], ◌∷◌}
use native.Mathlib.Omega.{arith}
use mathlib.Core.Logic.{inl, inr}
use telegent.Base.Tests.{Bool-cases, or_else, if◌then◌else◌}
use telegent.Base.Strings.{Text, text_eq, text_eq→eq, text_eq_iff}

abbrev pub Map {ℓ} : Type ℓ → Type ℓ
Map V = List (Text × V)

module _ {ℓ} {V : Type ℓ} where
  -- `m.get(k)`
  unfoldable pub lookup : Text → Map V → Option V
  lookup k [] = none
  lookup k ((j, v) ∷ m) = if text_eq j k then some v else lookup k m

  -- `m.set(k, v)`: a key that is there keeps its place.
  unfoldable pub insert : Text → V → Map V → Map V
  insert k v [] = (k, v) ∷ []
  insert k v ((j, w) ∷ m) = if text_eq j k then (j, v) ∷ m else (j, w) ∷ insert k v m

  -- `m.delete(k)`
  unfoldable pub delete : Text → Map V → Map V
  delete k [] = []
  delete k ((j, w) ∷ m) = let rest = delete k m in if text_eq j k then rest else (j, w) ∷ rest

  pub lookup-insert :
      (k j : Text) (v : V) (m : Map V)
      → lookup j (insert k v m) ≡ (if text_eq k j then some v else lookup j m)
  unfolding lookup insert
  lookup-insert k j v [] = refl
  lookup-insert k j v ((i, w) ∷ m) =
      ground (arith, text_eq_iff k j, text_eq_iff i k, text_eq_iff i j, lookup-insert k j v m)

  pub lookup-delete :
      (k j : Text) (m : Map V) → lookup j (delete k m) ≡ (if text_eq k j then none else lookup j m)
  unfolding lookup delete
  lookup-delete k j [] = ground arith
  lookup-delete k j ((i, w) ∷ m) =
      ground (arith, text_eq_iff k j, text_eq_iff i k, text_eq_iff i j, lookup-delete k j m)

  -- No key stands twice, which `insert` and `delete` keep.
  abbrev pub IsMap : Map V → Type ℓ
  IsMap [] = Unit
  IsMap ((k, v) ∷ m) = (lookup k m ≡ none) × IsMap m

  pub insert-IsMap : (k : Text) (v : V) (m : Map V) → IsMap m → IsMap (insert k v m)
  unfolding insert lookup
  insert-IsMap k v [] h = (refl, tt)
  insert-IsMap k v ((j, w) ∷ m) h = elim (Bool-cases (text_eq j k)) [
    | inl e ↦ rw e h
    | inr e ↦ rw e (
      ground (arith, lookup-insert k j v m, text_eq_iff j k, text_eq_iff k j, h.0),
      insert-IsMap k v m h.1,
    )
  ]

  pub delete-IsMap : (k : Text) (m : Map V) → IsMap m → IsMap (delete k m)
  unfolding delete lookup
  delete-IsMap k [] h = tt
  delete-IsMap k ((j, w) ∷ m) h = elim (Bool-cases (text_eq j k)) [
    | inl e ↦ rw e (delete-IsMap k m h.1)
    | inr e ↦ rw e (ground (arith, lookup-delete k j m, h.0), delete-IsMap k m h.1)
  ]

-- A value in a map of maps.
abbrev pub lookup_in {ℓ} : {V : Type ℓ} → Text → Text → Map (Map V) → Option V
lookup_in k j m = lookup j (or_else (lookup k m) [])

pub lookup_in-insert {ℓ} :
    {V : Type ℓ} (k j k' j' : Text) (v : V) (m : Map (Map V))
    → lookup_in k' j' (insert k (insert j v (or_else (lookup k m) [])) m)
      ≡ (if text_eq k k' && text_eq j j' then some v else lookup_in k' j' m)
lookup_in-insert k j k' j' v m = elim (Bool-cases (text_eq k k')) [
  | inl same ↦ rw (lookup-insert k k' (insert j v (or_else (lookup k m) [])) m) (
      rw same (
        lookup-insert j j' v (or_else (lookup k m) [])
        ∙ ap (λ i. if text_eq j j' then some v else lookup j' (or_else (lookup i m) []))
            (text_eq→eq k k' same)))
  | inr other ↦ rw (lookup-insert k k' (insert j v (or_else (lookup k m) [])) m) (rw other refl)
]

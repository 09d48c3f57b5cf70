-- ===== src/Server/Guards/Limits.antt =====
-- How many requests the loop guard and the rate limit let through.
use telegent.Base.{
  Text, text_eq, text_eq→eq, text_eq_refl, text_eq_ne, leb, ◌==◌, if◌then◌else◌, Bool-cases,
  or_else, Result, ok, err, any, All, ℕ, ◌+◌, min, ◌≡◌, refl, ap, ◌≢◌, inl, inr, Bool, true, false,
  ◌&&◌, none, List, [], ◌∷◌, ◌++◌, arith,
}
use telegent.Base.Maps.{Map, lookup, lookup-insert}
use telegent.Protocol.Types.{Participant}
use telegent.Server.Guards.{
  starts_with, drop_room, room_prefix, room_key, is_human, enforce_loop_guard,
}

text_eq-append : (p s t : Text) → text_eq (p ++ s) (p ++ t) ≡ text_eq s t
unfolding text_eq
text_eq-append [] s t = refl
text_eq-append (c ∷ p) s t = ground (arith, text_eq-append p s t)

text_eq-room_key : (r a b : Text) → text_eq (room_key r a) (room_key r b) ≡ text_eq a b
unfolding text_eq
text_eq-room_key r a b = text_eq-append r (b':' ∷ a) (b':' ∷ b)

-- A room id has no colon, so the keys of a room are those behind its prefix.
starts_with-room_key :
    (r q a : Text)
    → any (λ c. c == b':') r ≡ false
    → any (λ c. c == b':') q ≡ false
    → starts_with (room_prefix r) (room_key q a) ≡ text_eq r q
unfolding text_eq
starts_with-room_key [] [] a h k = refl
starts_with-room_key [] (d ∷ q) a h k = ground arith
starts_with-room_key (c ∷ r) [] a h k = ground arith
starts_with-room_key (c ∷ r) (d ∷ q) a h k =
    ground (arith, starts_with-room_key r q a (ground (arith, h)) (ground (arith, k)))

text_eq-other :
    (r q a b : Text)
    → any (λ c. c == b':') r ≡ false
    → any (λ c. c == b':') q ≡ false
    → text_eq r q ≡ false
    → text_eq (room_key r a) (room_key q b) ≡ false
unfolding text_eq
text_eq-other [] [] a b h k e = cc
text_eq-other [] (d ∷ q) a b h k e = ground arith
text_eq-other (c ∷ r) [] a b h k e = ground arith
text_eq-other (c ∷ r) (d ∷ q) a b h k e =
    ground (arith, text_eq-other r q a b (ground (arith, h)) (ground (arith, k)))

lookup-drop_room :
    (p k : Text) (m : Map ℕ)
    → lookup k (drop_room p m) ≡ (if starts_with p k then none else lookup k m)
unfolding lookup
lookup-drop_room p k [] = ground arith
lookup-drop_room p k ((j, n) ∷ m) = elim (Bool-cases (text_eq j k)) [
  | inl same ↦
      let equal : starts_with p j ≡ starts_with p k = ap (starts_with p) (text_eq→eq j k same) in
      ground (arith, same, equal, lookup-drop_room p k m)
  | inr other ↦ ground (arith, other, lookup-drop_room p k m)
]

abbrev pub passes {ℓ κ} : {E : Type ℓ} {A : Type κ} → Result E A → Bool
passes (ok a) = true
passes (err e) = false

abbrev pub NoHuman : List Participant → Type 0
NoHuman ps = All (λ p. is_human p.kind ≡ false) ps

-- The messages of one alias among those sent to a room, and those of them that the guard lets through.
abbrev pub sent_by : Text → List Participant → ℕ
sent_by alias [] = 0
sent_by alias (p ∷ ps) = (if text_eq p.alias alias then 1 else 0) + sent_by alias ps

pub passed_by : Text → ℕ → Text → Map ℕ → List Participant → ℕ
passed_by room limit alias counts [] = 0
passed_by room limit alias counts (p ∷ ps) =
    let (r, counts') = enforce_loop_guard room p limit counts in
    (if text_eq p.alias alias && passes r then 1 else 0) + passed_by room limit alias counts' ps

module _ (room : Text) (limit : ℕ) (alias : Text) where
  same_count :
      (p : Participant) (counts : Map ℕ)
      → text_eq p.alias alias ≡ true
      → or_else (lookup (room_key room p.alias) counts) 0
        ≡ or_else (lookup (room_key room alias) counts) 0
  same_count p counts e =
      ap (λ a. or_else (lookup (room_key room a) counts) 0) (text_eq→eq p.alias alias e)

  guard_agent :
      (p : Participant) (counts : Map ℕ)
      → is_human p.kind ≡ false
      → (passes (enforce_loop_guard room p limit counts).0
          ≡ leb (or_else (lookup (room_key room p.alias) counts) 0 + 1) limit)
        × (or_else (lookup (room_key room alias) (enforce_loop_guard room p limit counts).1) 0
            ≡ or_else (lookup (room_key room alias) counts) 0
              + (if text_eq p.alias alias then 1 else 0))
  unfolding enforce_loop_guard
  guard_agent p counts h =
      rw (h, enforce_loop_guard)
        (
          ground arith,
          ground (
            arith,
            lookup-insert (room_key room p.alias) (room_key room alias)
                (or_else (lookup (room_key room p.alias) counts) 0 + 1) counts,
            text_eq-room_key room p.alias alias,
            same_count p counts,
          ),
        )

  passed_by-agents :
      (counts : Map ℕ) (ps : List Participant)
      → NoHuman ps
      → let c = or_else (lookup (room_key room alias) counts) 0 in
        passed_by room limit alias counts ps + min limit c ≡ min limit (c + sent_by alias ps)
  unfolding passed_by
  passed_by-agents counts [] h = omega arith
  passed_by-agents counts (p ∷ ps) h = ground (
    arith,
    guard_agent p counts h.0,
    same_count p counts,
    passed_by-agents (enforce_loop_guard room p limit counts).1 ps h.1,
  )

-- After a human's message, and until the next one, the guard lets exactly the first `limit` messages of
-- each agent through, in whatever order the agents of the room send.
pub passed_by-sent_by :
    (room alias : Text) (limit : ℕ) (person : Participant) (counts : Map ℕ) (ps : List Participant)
    → is_human person.kind ≡ true
    → any (λ c. c == b':') room ≡ false
    → NoHuman ps
    → passed_by room limit alias (enforce_loop_guard room person limit counts).1 ps
      ≡ min limit (sent_by alias ps)
unfolding enforce_loop_guard
passed_by-sent_by room alias limit person counts ps h clean agents =
    rw (h, enforce_loop_guard)
      (ground (
        arith,
        passed_by-agents room limit alias (drop_room (room_prefix room) counts) ps agents,
        lookup-drop_room (room_prefix room) (room_key room alias) counts,
        starts_with-room_key room room alias clean clean,
        text_eq_refl room,
      ))

-- A message to one room leaves the counts of every other room as they are.
pub lookup-enforce_loop_guard :
    (room other alias : Text) (limit : ℕ) (p : Participant) (counts : Map ℕ)
    → any (λ c. c == b':') room ≡ false
    → any (λ c. c == b':') other ≡ false
    → room ≢ other
    → lookup (room_key other alias) (enforce_loop_guard room p limit counts).1
      ≡ lookup (room_key other alias) counts
unfolding enforce_loop_guard
lookup-enforce_loop_guard room other alias limit p counts clean clean' ne =
    elim (Bool-cases (is_human p.kind)) [
      | inl person ↦
          rw (person, enforce_loop_guard)
            (ground (
              arith,
              lookup-drop_room (room_prefix room) (room_key other alias) counts,
              starts_with-room_key room other alias clean clean',
              text_eq_ne room other ne,
            ))
      | inr agent ↦
          rw (agent, enforce_loop_guard)
            (ground (
              arith,
              lookup-insert (room_key room p.alias) (room_key other alias)
                  (or_else (lookup (room_key room p.alias) counts) 0 + 1) counts,
              text_eq-other room other p.alias alias clean clean' (text_eq_ne room other ne),
            ))
    ]

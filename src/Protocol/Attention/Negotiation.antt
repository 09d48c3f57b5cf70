-- ===== src/Protocol/Attention/Negotiation.antt =====
-- What the negotiation of an attention mode promises.
use telegent.Base.{
  ltb, Bool-cases, or_else, filter, text_eq, ok, map, ◌∙◌, ℕ, ◌≤◌, ◌≡◌, refl, ◌⊎◌, inl, inr, true,
  Option, none, some, List, [], ◌∷◌, arith,
}
use telegent.Protocol.Types.{
  AttentionMode, foreground_attended, wake_on_event, heartbeat, Participant,
}
use telegent.Protocol.Attention.{
  attention_modes, attention_rank, same_mode, has_mode, better, negotiate_loop,
  negotiate_effective_mode, negotiate_participant_attention, NegotiatedAttention, mode_text,
  parse_attention_mode, parse_all, normalize_supported_modes,
}

-- `negotiate_loop` chooses a mode that was seen or that is to come, none of which is better.
loop-chosen :
    (rank : ℕ) (best : Option AttentionMode) (ms : List AttentionMode) (b : AttentionMode)
    → negotiate_loop rank best ms ≡ some b
    → (best ≡ some b) ⊎ ((rank ≤ attention_rank b) × (has_mode b ms ≡ true))
unfolding negotiate_loop
loop-chosen rank best [] b e = inl e
loop-chosen rank best (m ∷ ms) b e = elim (loop-chosen rank (better rank best m) ms b e) [
  | inl now ↦ ground arith
  | inr later ↦ inr (later.0, ground arith)
]

loop-keeps :
    (rank : ℕ) (b : AttentionMode) (ms : List AttentionMode)
    → (c : AttentionMode) × (negotiate_loop rank (some b) ms ≡ some c)
      × (attention_rank c ≤ attention_rank b)
unfolding negotiate_loop
loop-keeps rank b [] = (b, refl, omega arith)
loop-keeps rank b (m ∷ ms) = elim (Bool-cases (ltb (attention_rank m) rank)) [
  | inl above ↦ rw above (loop-keeps rank b ms)
  | inr allowed ↦ elim (Bool-cases (ltb (attention_rank m) (attention_rank b))) [
    | inl more ↦ let (c, e, le) = loop-keeps rank m ms in rw (allowed, more) (c, e, ground arith)
    | inr less ↦ rw (allowed, less) (loop-keeps rank b ms)
  ]
]

loop-least :
    (rank : ℕ) (best : Option AttentionMode) (ms : List AttentionMode) (m : AttentionMode)
    → has_mode m ms ≡ true
    → rank ≤ attention_rank m
    → (c : AttentionMode) × (negotiate_loop rank best ms ≡ some c)
      × (attention_rank c ≤ attention_rank m)
unfolding negotiate_loop
loop-least rank best [] m h le = cc
loop-least rank best (x ∷ ms) m h le = elim (Bool-cases (same_mode x m)) [
  | inr other ↦ loop-least rank (better rank best x) ms m (ground arith) le
  | inl same ↦
      let (b, e, less) = by_best best same in
      let (c, f, lesser) = loop-keeps rank b ms in (c, rw e f, ground arith)
]
  where
    by_best :
        (o : Option AttentionMode)
        → same_mode x m ≡ true
        → (b : AttentionMode) × (better rank o x ≡ some b) × (attention_rank b ≤ attention_rank m)
    by_best none same = (x, ground arith, ground arith)
    by_best (some b) same = elim (Bool-cases (ltb (attention_rank x) (attention_rank b))) [
      | inl more ↦ (x, ground arith, ground arith)
      | inr less ↦ (b, ground arith, ground arith)
    ]

-- The effective mode never exceeds the request, is declared or else `manual`, and is at least as
-- capable as every declared mode that the request allows.
pub negotiate_best :
    (supported : List AttentionMode) (requested : AttentionMode)
    → let e = negotiate_effective_mode supported requested in
      (attention_rank requested ≤ attention_rank e)
      × ((has_mode e supported ≡ true) ⊎ (e ≡ AttentionMode.manual))
      × ((m : AttentionMode)
          → has_mode m supported ≡ true
          → attention_rank requested ≤ attention_rank m
          → attention_rank e ≤ attention_rank m)
unfolding negotiate_effective_mode
negotiate_best supported requested =
    by_choice (negotiate_loop (attention_rank requested) none supported) refl
  where
    by_choice :
        (o : Option AttentionMode)
        → negotiate_loop (attention_rank requested) none supported ≡ o
        → (attention_rank requested ≤ attention_rank (or_else o AttentionMode.manual))
          × ((has_mode (or_else o AttentionMode.manual) supported ≡ true)
              ⊎ (or_else o AttentionMode.manual ≡ AttentionMode.manual))
          × ((m : AttentionMode)
              → has_mode m supported ≡ true
              → attention_rank requested ≤ attention_rank m
              → attention_rank (or_else o AttentionMode.manual) ≤ attention_rank m)
    by_choice none e = (
      ground arith,
      inr refl,
      λ m h le.
          let (c, f, less) = loop-least (attention_rank requested) none supported m h le in cc,
    )
    by_choice (some b) e = elim (loop-chosen (attention_rank requested) none supported b e) [
      | inl now ↦ cc
      | inr (le, there) ↦ (
        le,
        inl there,
        λ m h le'.
            let (c, f, less) = loop-least (attention_rank requested) none supported m h le' in
            ground arith,
      )
    ]

has_mode-filter :
    (m : AttentionMode) (seen : List AttentionMode)
    → has_mode m (filter (λ x. has_mode x seen) attention_modes) ≡ has_mode m seen
has_mode-filter foreground_attended seen = ground arith
has_mode-filter wake_on_event seen = ground arith
has_mode-filter heartbeat seen = ground arith
has_mode-filter AttentionMode.manual seen = ground arith

parse-mode_text : (m : AttentionMode) → parse_attention_mode (mode_text m) ≡ ok m
unfolding parse_attention_mode text_eq
parse-mode_text foreground_attended = refl
parse-mode_text wake_on_event = refl
parse-mode_text heartbeat = refl
parse-mode_text AttentionMode.manual = refl

parse_all-mode_text : (ms : List AttentionMode) → parse_all (map mode_text ms) ≡ ok ms
unfolding parse_all
parse_all-mode_text [] = refl
parse_all-mode_text (m ∷ ms) = rw (parse-mode_text m, parse_all-mode_text ms) refl

-- The negotiation of a participant never throws on modes that are stored. It takes the host's request
-- as it is, or the most capable mode where the host made none, and keeps the declared modes. The
-- effective mode never exceeds the request, is declared or else `manual`, and is at least as capable as
-- every declared mode that the request allows.
pub negotiate_participant_best :
    (p : Participant)
    → (n : NegotiatedAttention) × (negotiate_participant_attention p ≡ ok n)
      × (n.requested_mode ≡ or_else p.requested_mode foreground_attended)
      × ((m : AttentionMode)
          → has_mode m n.supported_modes ≡ has_mode m (or_else p.supported_modes []))
      × (attention_rank (or_else p.requested_mode foreground_attended)
          ≤ attention_rank n.effective_mode)
      × ((has_mode n.effective_mode (or_else p.supported_modes []) ≡ true)
          ⊎ (n.effective_mode ≡ AttentionMode.manual))
      × ((m : AttentionMode)
          → has_mode m (or_else p.supported_modes []) ≡ true
          → attention_rank (or_else p.requested_mode foreground_attended) ≤ attention_rank m
          → attention_rank n.effective_mode ≤ attention_rank m)
unfolding negotiate_participant_attention normalize_supported_modes
negotiate_participant_best p =
    let declared = or_else p.supported_modes [] in
    let supported = filter (λ m. has_mode m declared) attention_modes in
    let requested = or_else p.requested_mode foreground_attended in
    let (below, chosen, least) = negotiate_best supported requested in
    (
      record {
        supported_modes = supported;
        requested_mode = requested;
        effective_mode = negotiate_effective_mode supported requested;
      },
      rw (parse_all-mode_text declared) refl,
      refl,
      λ m. has_mode-filter m declared,
      below,
      ground (arith, has_mode-filter (negotiate_effective_mode supported requested) declared),
      λ m there. least m (has_mode-filter m declared ∙ there),
    )

-- ===== src/Protocol/Attention.antt =====
-- src/protocol/attention.ts: the negotiation of a participant's attention mode.
pub mod Negotiation
use telegent.Base.{
  Text, codes, text_eq, text_eq→eq, text_eq_refl, text_eq_iff, text_eq_ne, ltb, leb, ◌==◌,
  if◌then◌else◌, ==_iff, Bool-cases, Option-cases, is_some, or_else, Result, ok, err, ◌>>=◌, ◌>>◌,
  guard, occurs, occurs-append, length, length-append, filter, find, any, all, All, All-append,
  All-map, All-filter, includes, ℕ, zero, suc, ◌+◌, ◌-◌, ◌*◌, ◌/◌, ◌%◌, ◌^◌, ◌≤◌, ◌<◌, max, min,
  ◌≡◌, refl, sym, ap, subst, ◌∙◌, ◌≢◌, ◌↔◌, ◌⊎◌, inl, inr, Bool, true, false, not, ◌&&◌, ◌||◌,
  Option, none, some, List, [], ◌∷◌, ◌++◌, map, arith,
}
use telegent.Protocol.Types.{
  AttentionMode, foreground_attended, wake_on_event, heartbeat, Participant,
}

abbrev pub attention_modes : List AttentionMode
attention_modes = foreground_attended ∷ wake_on_event ∷ heartbeat ∷ AttentionMode.manual ∷ []

-- The text of a mode.
abbrev pub mode_text : AttentionMode → Text
mode_text foreground_attended = codes "foreground_attended"
mode_text wake_on_event = codes "wake_on_event"
mode_text heartbeat = codes "heartbeat"
mode_text AttentionMode.manual = codes "manual"

pub data AttentionError : Type 0 where
  unknown_mode : AttentionError

unfoldable pub parse_attention_mode : Text → Result AttentionError AttentionMode
parse_attention_mode value = elim (find (λ m. text_eq (mode_text m) value) attention_modes) [
  | some m ↦ ok m
  | none ↦ err unknown_mode
]

-- 0 for the most capable mode.
abbrev pub attention_rank : AttentionMode → ℕ
attention_rank foreground_attended = 0
attention_rank wake_on_event = 1
attention_rank heartbeat = 2
attention_rank AttentionMode.manual = 3

abbrev pub same_mode : AttentionMode → AttentionMode → Bool
same_mode a b = attention_rank a == attention_rank b

abbrev pub has_mode : AttentionMode → List AttentionMode → Bool
has_mode m [] = false
has_mode m (x ∷ xs) = same_mode x m || has_mode m xs

-- The loop that parses the declared modes, all of them, before any is returned.
unfoldable pub parse_all : List Text → Result AttentionError (List AttentionMode)
parse_all [] = ok []
parse_all (raw ∷ raws) = do m ← parse_attention_mode raw; ms ← parse_all raws; ok (m ∷ ms)

unfoldable pub normalize_supported_modes : List Text → Result AttentionError (List AttentionMode)
unfolding parse_all
normalize_supported_modes raws = do
  seen ← parse_all raws
  ok (filter (λ m. has_mode m seen) attention_modes)

-- One round of the loop of `negotiateEffectiveMode`.
abbrev pub better : ℕ → Option AttentionMode → AttentionMode → Option AttentionMode
better requested_rank best mode =
    if ltb (attention_rank mode) requested_rank then best else elim best [
      | none ↦ some mode
      | some b ↦ if ltb (attention_rank mode) (attention_rank b) then some mode else some b
    ]

unfoldable pub negotiate_loop : ℕ → Option AttentionMode → List AttentionMode → Option AttentionMode
negotiate_loop requested_rank best [] = best
negotiate_loop requested_rank best (mode ∷ supported) =
    negotiate_loop requested_rank (better requested_rank best mode) supported

unfoldable pub negotiate_effective_mode : List AttentionMode → AttentionMode → AttentionMode
unfolding negotiate_loop
negotiate_effective_mode supported requested =
    or_else (negotiate_loop (attention_rank requested) none supported) AttentionMode.manual

unfoldable pub is_degraded : AttentionMode → AttentionMode → Bool
is_degraded effective requested = ltb (attention_rank requested) (attention_rank effective)

pub record NegotiatedAttention : Type 0 where
  pub supported_modes : List AttentionMode
  pub requested_mode : AttentionMode
  pub effective_mode : AttentionMode

-- The stored modes are given as their texts, and parsed again.
unfoldable pub negotiate_participant_attention :
    Participant → Result AttentionError NegotiatedAttention
unfolding normalize_supported_modes negotiate_effective_mode
negotiate_participant_attention p = do
  supported ← normalize_supported_modes (map mode_text (or_else p.supported_modes []))
  let requested = or_else p.requested_mode foreground_attended
  ok (record {
    supported_modes = supported;
    requested_mode = requested;
    effective_mode = negotiate_effective_mode supported requested;
  })

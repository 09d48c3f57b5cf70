-- ===== src/Platform/Metering/Ledger.antt =====
-- The counters of the ledger are the sums over the history of the usage that was recorded.
use telegent.Base.{
  Text, text_eq, text_eq→eq, text_eq_refl, ltb, ◌==◌, if◌then◌else◌, Bool-cases, ok, err, length,
  filter, any, ℕ, ◌+◌, ◌/◌, ◌≤◌, ◌<◌, ◌≡◌, refl, ap, ◌≢◌, inl, inr, Bool, true, false, ◌&&◌, Option,
  some, List, [], ◌∷◌, arith,
}
use native.Mathlib.Nat.{le-div_iff_mul-le, div-mul-le_self, le_trans}
use telegent.Base.Maps.{lookup, lookup-insert}
use mathlib.Core.Path.{fun_ext, ap₂}
use telegent.Tunnel.Protocol.{quota_exceeded}
use telegent.Platform.Metering.{
  tunnel, MeteredDimension, Counters, MeteringWindow, MeteringRecord, MeteringLedger, counter,
  add_to, zero_counters, new_ledger, window_for, finalize, metered, record_usage, usage,
  assert_within_quota, exceeded_dimensions, metered_dimensions, subject_pattern, route_minutes,
  active_public_rooms, participant_joins, relay_requests, bandwidth_bytes,
}

-- A call of `record` for a public route: when, for whom, of what, how much.
pub record Recorded : Type 0 where
  pub at : ℕ
  pub subject : Text
  pub dimension : MeteredDimension
  pub amount : ℕ

-- The ledger after a history, whose newest call comes first.
unfoldable pub replay : MeteringLedger → List Recorded → MeteringLedger
replay l [] = l
replay l (e ∷ es) = (record_usage e.at (replay l es) e.subject e.dimension (some e.amount) true).1

abbrev pub same_dimension : MeteredDimension → MeteredDimension → Bool
same_dimension route_minutes route_minutes = true
same_dimension active_public_rooms active_public_rooms = true
same_dimension participant_joins participant_joins = true
same_dimension relay_requests relay_requests = true
same_dimension bandwidth_bytes bandwidth_bytes = true
same_dimension _ _ = false

-- The usage of a subject in a dimension within a window, summed over a history.
abbrev pub total : Text → MeteredDimension → ℕ → ℕ → List Recorded → ℕ
total s d window_ms window [] = 0
total s d window_ms window (e ∷ es) =
    (if text_eq e.subject s && same_dimension e.dimension d && (e.at / window_ms) == window
      then e.amount
      else 0)
    + total s d window_ms window es

-- The clock does not run backwards over the history, up to `now`, and each subject is well formed.
abbrev pub IsHistory : ℕ → List Recorded → Type 0
IsHistory now [] = Unit
IsHistory now (e ∷ es) = (e.at ≤ now) × (subject_pattern e.subject ≡ true) × IsHistory e.at es

counter-add_to :
    (d e : MeteredDimension) (n : ℕ) (c : Counters)
    → counter d (add_to e n c) ≡ counter d c + (if same_dimension e d then n else 0)
unfolding counter add_to
counter-add_to d e n c = ground arith

counter-zero : (d : MeteredDimension) → counter d zero_counters ≡ 0
unfolding counter
counter-zero d = ground arith

div_mono : (a b w : ℕ) → 0 < w → a ≤ b → a / w ≤ b / w
div_mono a b w pos h = (le-div_iff_mul-le pos).1 (le_trans (div-mul-le_self a w) h)

-- Nothing was recorded in a window that is still to come.
total-future :
    (s : Text) (d : MeteredDimension) (w now window : ℕ) (es : List Recorded)
    → 0 < w
    → IsHistory now es
    → now / w < window
    → total s d w window es ≡ 0
total-future s d w now window [] pos h later = refl
total-future s d w now window (e ∷ es) pos h later =
    ground (arith, div_mono e.at now w pos h.0, total-future s d w e.at window es pos h.2)

-- The window that the ledger has for a subject.
abbrev window_of : ℕ → MeteringLedger → Text → MeteringWindow
window_of now l s = window_for now l.window_ms (lookup s l.store)

window_for-id : (now w : ℕ) (o : Option MeteringRecord) → (window_for now w o).window_id ≡ now / w
unfolding window_for
window_for-id now w o = ground arith

replay-config :
    (l : MeteringLedger) (es : List Recorded)
    → ((replay l es).window_ms ≡ l.window_ms) × ((replay l es).quota ≡ l.quota)
unfolding replay record_usage
replay-config l [] = (refl, refl)
replay-config l (e ∷ es) = ground (arith, replay-config l es)

IsHistory-later : (t now : ℕ) (es : List Recorded) → t ≤ now → IsHistory t es → IsHistory now es
IsHistory-later t now [] h k = tt
IsHistory-later t now (e ∷ es) h k = (omega arith, k.1, k.2)

abbrev stored : MeteringLedger → Recorded → MeteringLedger
stored l e = (record_usage e.at l e.subject e.dimension (some e.amount) true).1

-- One more call, as its own subject's next window sees it, and as another subject's does.
module _ (l : MeteringLedger) (e : Recorded) (now : ℕ) (d : MeteredDimension) where
  own-same :
      subject_pattern e.subject ≡ true
      → e.at / l.window_ms ≡ now / l.window_ms
      → counter d (window_of now (stored l e) e.subject).counters
        ≡ counter d (window_of e.at l e.subject).counters
          + (if same_dimension e.dimension d then e.amount else 0)
  unfolding record_usage window_for
  own-same valid same = ground (
    arith,
    lookup-insert e.subject e.subject (metered e.at l e.subject e.dimension e.amount) l.store,
    text_eq_refl e.subject,
    counter-add_to d e.dimension e.amount (window_of e.at l e.subject).counters,
    window_for-id e.at l.window_ms (lookup e.subject l.store),
  )

  own-next :
      subject_pattern e.subject ≡ true
      → e.at / l.window_ms ≢ now / l.window_ms
      → counter d (window_of now (stored l e) e.subject).counters ≡ 0
  unfolding record_usage window_for
  own-next valid other = ground (
    arith,
    lookup-insert e.subject e.subject (metered e.at l e.subject e.dimension e.amount) l.store,
    text_eq_refl e.subject,
    counter-zero d,
    window_for-id e.at l.window_ms (lookup e.subject l.store),
  )

  others :
      (s : Text)
      → text_eq e.subject s ≡ false
      → counter d (window_of now (stored l e) s).counters ≡ counter d (window_of now l s).counters
  unfolding record_usage
  others s other =
      ground
        (arith, lookup-insert e.subject s (metered e.at l e.subject e.dimension e.amount) l.store)

module _ (quota : Counters) (w : ℕ) (pos : 0 < w) (d : MeteredDimension) where
  window-total :
      (s : Text) (now : ℕ) (es : List Recorded)
      → IsHistory now es
      → counter d (window_of now (replay (new_ledger quota w) es) s).counters
        ≡ total s d w (now / w) es
  unfolding replay
  window-total s now [] h = unfold lookup window_for in counter-zero d
  window-total s now (e ∷ es) h = elim (Bool-cases (text_eq e.subject s)) [
    | inr other ↦ ground (
      arith,
      others (replay (new_ledger quota w) es) e now d s other,
      window-total s now es (IsHistory-later e.at now es h.0 h.2),
    )
    | inl same ↦
        let own : e.subject ≡ s = text_eq→eq e.subject s same in
        elim (Bool-cases ((e.at / w) == (now / w))) [
          | inl now_too ↦ ground (
            arith,
            own-same (replay (new_ledger quota w) es) e now d h.1,
            window-total e.subject e.at es h.2,
            replay-config (new_ledger quota w) es,
          )
          | inr past ↦ ground (
            arith,
            own-next (replay (new_ledger quota w) es) e now d h.1,
            total-future s d w e.at (now / w) es pos h.2,
            div_mono e.at now w pos h.0,
            replay-config (new_ledger quota w) es,
          )
        ]
  ]

exceeded-filter :
    (quota c : Counters) (q : MeteredDimension → Bool)
    → ((d : MeteredDimension) → ltb (counter d quota) (counter d c) ≡ q d)
    → exceeded_dimensions quota c ≡ filter q metered_dimensions
exceeded-filter quota c q h =
    unfold exceeded_dimensions in
    ap (λ (p : MeteredDimension → Bool). filter p metered_dimensions) (fun_ext h)

length-filter-any :
    (q : MeteredDimension → Bool) (ds : List MeteredDimension)
    → ltb 0 (length (filter q ds)) ≡ any q ds
length-filter-any q [] = refl
length-filter-any q (d ∷ ds) = ground (arith, length-filter-any q ds)

-- The dimensions in which a subject's usage in the window of `now` is above the quota.
abbrev pub over_quota : Counters → ℕ → Text → ℕ → List Recorded → MeteredDimension → Bool
over_quota quota w s now es d = ltb (counter d quota) (total s d w (now / w) es)

-- After any history with a clock that does not run backwards, the usage that is reported for a
-- well-formed subject has, in each dimension, the sum of what was recorded for it in the window of
-- `now`, and names as exceeded exactly the dimensions in which that sum is above the quota.
pub usage-total :
    (quota : Counters) (w now : ℕ) (s : Text) (es : List Recorded)
    → 0 < w
    → subject_pattern s ≡ true
    → IsHistory now es
    → (r : MeteringRecord) × (usage now (replay (new_ledger quota w) es) s ≡ ok r)
      × ((d : MeteredDimension) → counter d r.window.counters ≡ total s d w (now / w) es)
      × (r.exceeded_reasons ≡ filter (over_quota quota w s now es) metered_dimensions)
      × (r.exceeded ≡ any (over_quota quota w s now es) metered_dimensions)
usage-total quota w now s es pos valid h = (
  finalize now (replay (new_ledger quota w) es).quota s window,
  unfold usage in rw valid refl,
  λ d. unfold finalize in window-total quota w pos d s now es h,
  unfold finalize in reasons,
  unfold finalize in
      (rw reasons (length-filter-any (over_quota quota w s now es) metered_dimensions)),
)
  where
    window : MeteringWindow
    window = window_of now (replay (new_ledger quota w) es) s

    reasons :
        exceeded_dimensions (replay (new_ledger quota w) es).quota window.counters
        ≡ filter (over_quota quota w s now es) metered_dimensions
    reasons =
        exceeded-filter (replay (new_ledger quota w) es).quota window.counters
          (over_quota quota w s now es)
          λ d.
            ap₂ (λ a b. ltb a b) (ap (λ q. counter d q) (replay-config (new_ledger quota w) es).1)
              (window-total quota w pos d s now es h)

-- So a public forward is denied, with the quota's error, exactly when the usage in the window of
-- `now` is above the quota in some dimension.
pub quota_denies :
    (quota : Counters) (w now : ℕ) (s : Text) (es : List Recorded)
    → 0 < w
    → subject_pattern s ≡ true
    → IsHistory now es
    → assert_within_quota now (replay (new_ledger quota w) es) s true ≡ (
        if any (over_quota quota w s now es) metered_dimensions
        then err (tunnel (record { code = quota_exceeded; status = 429 }))
        else ok tt)
quota_denies quota w now s es pos valid h =
    let (r, e, totals, reasons, exceeded) = usage-total quota w now s es pos valid h in
    unfold assert_within_quota in rw e (rw (← exceeded) refl)

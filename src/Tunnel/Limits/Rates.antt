-- ===== src/Tunnel/Limits/Rates.antt =====
-- The rate windows of the broker's guards.
use telegent.Base.{
  leb, Bool-cases, ok, err, length, All, ℕ, suc, ◌+◌, ◌-◌, ◌≤◌, ◌<◌, max, min, ◌≡◌, refl, inl, inr,
  true, Option, none, some, List, [], ◌∷◌, arith,
}
use telegent.Tunnel.Protocol.{TunnelErrorCode}
use telegent.Tunnel.Limits.{RateWindow, admit_window, rate_window_ms}

-- How many requests of a key, at the given times, `admitRate` lets through.
pub admitted : ℕ → TunnelErrorCode → Option RateWindow → List ℕ → ℕ
admitted per code w [] = 0
admitted per code w (now ∷ times) = elim (admit_window now per code w) [
  | ok w' ↦ suc (admitted per code (some w') times)
  | err e ↦ admitted per code w times
]

-- Inside a window that holds `count` requests, the next `per - count` pass and no more.
admitted-open :
    (per : ℕ) (code : TunnelErrorCode) (w : RateWindow) (times : List ℕ)
    → w.count ≤ per
    → All (λ t. t < w.reset_at) times
    → admitted per code (some w) times ≡ min (length times) (per - w.count)
unfolding admitted admit_window
admitted-open per code w [] h k = omega arith
admitted-open per code w (now ∷ times) h k = elim (Bool-cases (leb per w.count)) [
  | inl full ↦ ground (arith, admitted-open per code w times h k.1)
  | inr room ↦
      ground
        (arith, admitted-open per code (record w { count = w.count + 1 }) times (ground arith) k.1)
]

admitted-full :
    (per : ℕ) (code : TunnelErrorCode) (w : RateWindow) (times : List ℕ)
    → leb per w.count ≡ true
    → All (λ t. t < w.reset_at) times
    → admitted per code (some w) times ≡ 0
unfolding admitted admit_window
admitted-full per code w [] h k = refl
admitted-full per code w (now ∷ times) h k = ground (arith, admitted-full per code w times h k.1)

-- No window of the key is running at `now`.
abbrev pub IsOver : ℕ → Option RateWindow → Type 0
IsOver now none = Unit
IsOver now (some w) = w.reset_at ≤ now

-- A request that finds no running window opens one. Of it and the requests that follow within the
-- minute, in any order, exactly the first `max 1 per` pass.
pub admitted-window :
    (per now : ℕ) (code : TunnelErrorCode) (o : Option RateWindow) (times : List ℕ)
    → IsOver now o
    → All (λ t. t < now + rate_window_ms) times
    → admitted per code o (now ∷ times) ≡ min (suc (length times)) (max 1 per)
unfolding admitted admit_window
admitted-window per now code o times over k = elim (Bool-cases (leb per 1)) [
  | inl one ↦ ground (arith, admitted-full per code opened times one k)
  | inr more ↦ ground (arith, admitted-open per code opened times (ground arith) k)
]
  where
    opened : RateWindow
    opened = record { reset_at = now + rate_window_ms; count = 1 }

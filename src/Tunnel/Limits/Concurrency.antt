-- ===== src/Tunnel/Limits/Concurrency.antt =====
-- The concurrency counts of the broker's guards, against the requests that hold a release handle.
use telegent.Base.{
  Text, text_eq, text_eq_refl, text_eq_iff, if◌then◌else◌, Result, ok, err, ℕ, ◌+◌, ◌≤◌, ◌<◌, ◌≡◌,
  refl, subst, ◌∙◌, ◌⊎◌, true, false, ◌&&◌, none, List, [], ◌∷◌, ◌++◌, arith,
}
use telegent.Base.Maps.{lookup, insert, lookup-insert, lookup-delete}
use telegent.Tunnel.Protocol.{TunnelError}
use telegent.Tunnel.Limits.{
  BrokerLimits, BrokerGuards, RequestGuardInput, Release, new_guards, counts_of, admit_concurrency,
  enter, release, settle_counts,
}

abbrev pub open_total : Text → List RequestGuardInput → ℕ
open_total slug [] = 0
open_total slug (r ∷ rs) = (if text_eq r.route_slug slug then 1 else 0) + open_total slug rs

abbrev pub open_waits : Text → List RequestGuardInput → ℕ
open_waits slug [] = 0
open_waits slug (r ∷ rs) =
    (if text_eq r.route_slug slug && r.is_wait then 1 else 0) + open_waits slug rs

-- The guards, and the requests that were admitted and have not been released.
pub record Tracked : Type 0 where
  pub guards : BrokerGuards
  pub open_requests : List RequestGuardInput

abbrev pub after_enter :
    List RequestGuardInput → Result TunnelError Release × BrokerGuards → Tracked
after_enter rs (ok handle, g) = record { guards = g; open_requests = handle.input ∷ rs }
after_enter rs (err e, g) = record { guards = g; open_requests = rs }

-- Requests come and end in any order; each handle is called once.
pub data Step (t : Tracked) : Tracked → Type 0 where
  enters :
      (now : ℕ) (input : RequestGuardInput)
      → Step t (after_enter t.open_requests (enter now t.guards input))
  releases :
      (before after : List RequestGuardInput) (input : RequestGuardInput)
      → t.open_requests ≡ before ++ input ∷ after
      → Step t (record {
        guards = (release t.guards (record { input = input; released = false })).0;
        open_requests = before ++ after;
      })

pub data Reach (t : Tracked) : Tracked → Type 0 where
  here : Reach t t
  next : {u v : Tracked} → Reach t u → Step u v → Reach t v

abbrev pub Counted : BrokerGuards → List RequestGuardInput → Text → Type 0
Counted g rs slug =
    ((counts_of g slug).total ≡ open_total slug rs)
    × ((counts_of g slug).waits ≡ open_waits slug rs)
    × (open_total slug rs ≤ g.limits.concurrent_requests_per_route)
    × (open_waits slug rs ≤ g.limits.concurrent_waits_per_route)
    × ((lookup slug g.inflight ≡ none) ⊎ (0 < open_total slug rs))

-- What `enter` does to the counts, whether it admits or throws.
abbrev Entered :
    BrokerGuards → RequestGuardInput → Result TunnelError Release × BrokerGuards → Type 0
Entered g input (err e, g') = (g'.inflight ≡ g.inflight) × (g'.limits ≡ g.limits)
Entered g input (ok handle, g') =
    (handle.input ≡ input)
    × (handle.released ≡ false)
    × (g'.limits ≡ g.limits)
    × (g'.inflight
        ≡ insert input.route_slug
            (record {
              total = (counts_of g input.route_slug).total + 1;
              waits = (if input.is_wait then 1 else 0) + (counts_of g input.route_slug).waits;
            })
            g.inflight)
    × ((counts_of g input.route_slug).total < g.limits.concurrent_requests_per_route)
    × (input.is_wait ≡ true
        → (counts_of g input.route_slug).waits < g.limits.concurrent_waits_per_route)

admit_concurrency-Entered :
    (g : BrokerGuards) (input : RequestGuardInput) → Entered g input (admit_concurrency g input)
unfolding admit_concurrency
admit_concurrency-Entered g input = ground arith

enter-Entered :
    (now : ℕ) (g : BrokerGuards) (input : RequestGuardInput) → Entered g input (enter now g input)
unfolding enter
enter-Entered now g input = ground arith

open_total-append :
    (slug : Text) (xs ys : List RequestGuardInput)
    → open_total slug (xs ++ ys) ≡ open_total slug xs + open_total slug ys
open_total-append slug [] ys = omega arith
open_total-append slug (x ∷ xs) ys = omega (arith, open_total-append slug xs ys)

open_waits-append :
    (slug : Text) (xs ys : List RequestGuardInput)
    → open_waits slug (xs ++ ys) ≡ open_waits slug xs + open_waits slug ys
open_waits-append slug [] ys = omega arith
open_waits-append slug (x ∷ xs) ys = omega (arith, open_waits-append slug xs ys)

open_waits-le-total :
    (slug : Text) (xs : List RequestGuardInput) → open_waits slug xs ≤ open_total slug xs
open_waits-le-total slug [] = omega arith
open_waits-le-total slug (x ∷ xs) = ground (arith, open_waits-le-total slug xs)

enters-Counted :
    (g : BrokerGuards) (rs : List RequestGuardInput) (input : RequestGuardInput)
    (r : Result TunnelError Release × BrokerGuards) (slug : Text)
    → Entered g input r
    → Counted g rs slug
    → Counted (after_enter rs r).guards (after_enter rs r).open_requests slug
enters-Counted g rs input (err e, g') slug s c = ground arith
enters-Counted g rs input (ok handle, g') slug s c = ground (
  arith,
  lookup-insert input.route_slug slug
      (record {
        total = (counts_of g input.route_slug).total + 1;
        waits = (if input.is_wait then 1 else 0) + (counts_of g input.route_slug).waits;
      })
      g.inflight,
  text_eq_iff input.route_slug slug,
)

releases-Counted :
    (g : BrokerGuards) (before after : List RequestGuardInput) (input : RequestGuardInput)
    (slug : Text)
    → Counted g (before ++ input ∷ after) input.route_slug
    → Counted g (before ++ input ∷ after) slug
    → Counted (release g (record { input = input; released = false })).0 (before ++ after) slug
unfolding release
releases-Counted g before after input slug own c = ground (
  arith,
  open_total-append slug before after,
  open_waits-append slug before after,
  open_total-append slug before (input ∷ after),
  open_waits-append slug before (input ∷ after),
  open_total-append input.route_slug before (input ∷ after),
  open_waits-append input.route_slug before (input ∷ after),
  open_waits-le-total slug before,
  open_waits-le-total slug after,
  lookup-insert input.route_slug slug (settle_counts input.is_wait (counts_of g input.route_slug))
      g.inflight,
  lookup-delete input.route_slug slug g.inflight,
  text_eq_iff input.route_slug slug,
  text_eq_refl input.route_slug,
)

after_enter-limits :
    (g : BrokerGuards) (rs : List RequestGuardInput) (input : RequestGuardInput)
    (r : Result TunnelError Release × BrokerGuards)
    → Entered g input r
    → (after_enter rs r).guards.limits ≡ g.limits
after_enter-limits g rs input (err e, g') s = ground arith
after_enter-limits g rs input (ok handle, g') s = ground arith

Step-limits : {t u : Tracked} → Step t u → u.guards.limits ≡ t.guards.limits
unfolding release
Step-limits {t} (enters now input) =
    after_enter-limits t.guards t.open_requests input (enter now t.guards input)
      (enter-Entered now t.guards input)
Step-limits {t} (releases before after input e) = ground arith

Reach-limits : {t u : Tracked} → Reach t u → u.guards.limits ≡ t.guards.limits
Reach-limits here = refl
Reach-limits (next r s) = Step-limits s ∙ Reach-limits r

Step-Counted :
    {t u : Tracked}
    → Step t u
    → ((slug : Text) → Counted t.guards t.open_requests slug)
    → (slug : Text) → Counted u.guards u.open_requests slug
Step-Counted {t} (enters now input) all_counted slug =
    enters-Counted t.guards t.open_requests input (enter now t.guards input) slug
      (enter-Entered now t.guards input) (all_counted slug)
Step-Counted {t} (releases before after input e) all_counted slug =
    releases-Counted t.guards before after input slug
      (subst (λ rs. Counted t.guards rs input.route_slug) e (all_counted input.route_slug))
      (subst (λ rs. Counted t.guards rs slug) e (all_counted slug))

Reach-Counted :
    (l : BrokerLimits) {t : Tracked}
    → Reach (record { guards = new_guards l; open_requests = [] }) t
    → (slug : Text) → Counted t.guards t.open_requests slug
unfolding lookup
Reach-Counted l here slug = ground arith
Reach-Counted l (next r s) slug = Step-Counted s (Reach-Counted l r) slug

-- From new guards, whatever the order in which requests enter, are refused and are released, the
-- counts of each route are those of its open requests, both are within the configured limits, and
-- an entry is kept only for a route with an open request.
pub counts-Reach :
    (l : BrokerLimits) {t : Tracked} (slug : Text)
    → Reach (record { guards = new_guards l; open_requests = [] }) t
    → ((counts_of t.guards slug).total ≡ open_total slug t.open_requests)
      × ((counts_of t.guards slug).waits ≡ open_waits slug t.open_requests)
      × (open_total slug t.open_requests ≤ l.concurrent_requests_per_route)
      × (open_waits slug t.open_requests ≤ l.concurrent_waits_per_route)
      × ((lookup slug t.guards.inflight ≡ none) ⊎ (0 < open_total slug t.open_requests))
counts-Reach l slug r = ground (arith, Reach-Counted l r slug, Reach-limits r)

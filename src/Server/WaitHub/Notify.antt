-- ===== src/Server/WaitHub/Notify.antt =====
-- What a notification does to the waiters.
use telegent.Base.{
  Text, text_eq, text_eq→eq, text_eq_refl, if◌then◌else◌, Bool-cases, or_else, ◌≡◌, refl, sym, ap,
  ◌∙◌, inl, inr, List, [], ◌∷◌, ◌++◌, arith,
}
use mathlib.Core.List.{append_assoc, append-nil}
use telegent.Base.Maps.{Map, lookup, lookup-insert, lookup-delete}
use telegent.Server.WaitHub.{
  WaitHub, waiters_of, remove_waiter, keep_waiters, done, done_each, notify,
}

lookup-keep_waiters :
    (room r : Text) (ws : List Text) (m : Map (List Text))
    → or_else (lookup r (keep_waiters room ws m)) []
      ≡ (if text_eq room r then ws else or_else (lookup r m) [])
lookup-keep_waiters room r [] m = ground (arith, lookup-delete room r m)
lookup-keep_waiters room r (w ∷ ws) m = ground (arith, lookup-insert room r (w ∷ ws) m)

-- Calling the waiters of a room in their order empties its set.
done_each-all :
    (room r : Text) (ws : List Text) (h : WaitHub)
    → waiters_of room h ≡ ws
    → ((done_each room ws h).released ≡ h.released ++ ws)
      × (waiters_of r (done_each room ws h) ≡ (if text_eq room r then [] else waiters_of r h))
unfolding done_each done remove_waiter
done_each-all room r [] h e = (
  sym (append-nil h.released),
  elim (Bool-cases (text_eq room r)) [
    | inl same ↦ rw same (ap (λ k. waiters_of k h) (sym (text_eq→eq room r same)) ∙ e)
    | inr other ↦ rw other refl
  ],
)
done_each-all room r (w ∷ ws) h e =
    let left : remove_waiter w (waiters_of room h) ≡ ws = rw e (rw (text_eq_refl w) refl) in
    let next : waiters_of room (done room w h) ≡ ws =
      unfold done in
      rw (lookup-keep_waiters room room (remove_waiter w (waiters_of room h)) h.waiters)
        (rw (text_eq_refl room) left) in
    let rest : _ = done_each-all room r ws (done room w h) next in
    (
      rest.0 ∙ (unfold done in append_assoc h.released (w ∷ []) ws),
      rest.1
          ∙ (unfold done in
              rw (lookup-keep_waiters room r (remove_waiter w (waiters_of room h)) h.waiters)
                (ground arith)),
    )

-- A notification resolves every request that waits on the room, in the order in which they came, and
-- none of another room; after it none waits on the room.
pub notify_all :
    (room : Text) (h : WaitHub)
    → ((notify room h).released ≡ h.released ++ waiters_of room h)
      × ((r : Text)
          → waiters_of r (notify room h) ≡ (if text_eq room r then [] else waiters_of r h))
unfolding notify
notify_all room h = (
  (done_each-all room room (waiters_of room h) h refl).0,
  λ r. (done_each-all room r (waiters_of room h) h refl).1,
)

-- ===== src/Tunnel/Relay/Queues.antt =====
-- The queues of the relay hub: what each change does to the ids that wait under a route.
use telegent.Base.{
  Text, text_eq, text_eq_iff, if◌then◌else◌, Option-cases, or_else, occurs, ◌-◌, ◌≡◌, ◌≢◌, inl, inr,
  some, List, [], ◌∷◌, ◌++◌, arith,
}
use telegent.Base.Maps.{Map, lookup, insert, lookup-insert, lookup-delete}
use telegent.Tunnel.Relay.{remove_first, store_queue, unqueue}

-- The queue of a route in a map of queues.
abbrev pub queue_in : Map (List Text) → Text → List Text
queue_in pending slug = or_else (lookup slug pending) []

-- No route keeps an empty queue.
abbrev pub IsTidy : Map (List Text) → Type 0
IsTidy pending = (slug : Text) → lookup slug pending ≢ some []

pub occurs-remove_first :
    (id j : Text) (xs : List Text)
    → occurs j (remove_first id xs) ≡ occurs j xs - (if text_eq id j then 1 else 0)
unfolding remove_first
occurs-remove_first id j [] = ground arith
occurs-remove_first id j (x ∷ xs) =
    ground (arith, text_eq_iff x id, text_eq_iff x j, text_eq_iff id j, occurs-remove_first id j xs)

pub queue-store :
    (slug s : Text) (q : List Text) (p : Map (List Text))
    → queue_in (store_queue slug q p) s ≡ (if text_eq slug s then q else queue_in p s)
unfolding store_queue
queue-store slug s [] p = ground (arith, lookup-delete slug s p)
queue-store slug s (x ∷ xs) p = ground (arith, lookup-insert slug s (x ∷ xs) p)

pub store-IsTidy :
    (slug : Text) (q : List Text) (p : Map (List Text)) → IsTidy p → IsTidy (store_queue slug q p)
unfolding store_queue
store-IsTidy slug [] p h s e = ground (arith, lookup-delete slug s p, h s)
store-IsTidy slug (x ∷ xs) p h s e = ground (arith, lookup-insert slug s (x ∷ xs) p, h s)

pub queue-unqueue :
    (id slug s : Text) (p : Map (List Text))
    → queue_in (unqueue id slug p) s
      ≡ (if text_eq slug s then remove_first id (queue_in p s) else queue_in p s)
unfolding unqueue remove_first
queue-unqueue id slug s p = elim (Option-cases (lookup slug p)) [
  | inl e ↦ rw (e, unqueue) (ground (arith, text_eq_iff slug s))
  | inr (q, e) ↦
      rw (e, unqueue) (ground (arith, queue-store slug s (remove_first id q) p, text_eq_iff slug s))
]

pub unqueue-IsTidy : (id slug : Text) (p : Map (List Text)) → IsTidy p → IsTidy (unqueue id slug p)
unfolding unqueue
unqueue-IsTidy id slug p h = elim (Option-cases (lookup slug p)) [
  | inl e ↦ rw (e, unqueue) h
  | inr (q, e) ↦ rw (e, unqueue) (store-IsTidy slug (remove_first id q) p h)
]

snoc-ne-nil : (xs : List Text) (x : Text) → xs ++ x ∷ [] ≢ []
snoc-ne-nil [] x e = cc
snoc-ne-nil (y ∷ xs) x e = cc

pub snoc-IsTidy :
    (slug id : Text) (p : Map (List Text))
    → IsTidy p
    → IsTidy (insert slug (queue_in p slug ++ id ∷ []) p)
snoc-IsTidy slug id p h t e = ground (
  arith,
  lookup-insert slug t (queue_in p slug ++ id ∷ []) p,
  h t,
  snoc-ne-nil (queue_in p slug) id,
)

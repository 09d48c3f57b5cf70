-- ===== src/Server/Handlers/Deliveries.antt =====
-- A client that asks again with the `next_since_id` of the last answer.
use telegent.Base.{
  Text, All, ℕ, ◌≤◌, ◌<◌, ◌≡◌, refl, sym, ap, subst, ◌∙◌, none, some, List, [], ◌∷◌, ◌++◌, arith,
}
use mathlib.Core.List.{append_assoc, append-nil}
use telegent.Protocol.Types.{Message, open_room}
use telegent.Storage.RoomStore.Changes.Ids.{Increasing}
use telegent.Server.WaitHub.{build_wait_response, last_id}
use telegent.Server.Room.{ServerApi, RoomServer}
use telegent.Server.Handlers.{after_id, wait_answer}

-- What the client gets over the states that its requests find: an answer that can be given at once, or
-- a heartbeat, after which it asks with the same id.
pub delivered : ServerApi → Text → ℕ → List RoomServer → List Message
delivered api alias since [] = []
delivered api alias since (s ∷ ss) = elim (wait_answer api alias since s.files.state s) [
  | none ↦ delivered api alias since ss
  | some r ↦ r.messages ++ delivered api alias r.next_since_id ss
]

-- The room stays open, and its log grows at its end only, with increasing ids, none of them 0.
abbrev pub Grows : List Message → List RoomServer → Type 0
Grows log [] = Unit
Grows log (s ∷ ss) =
    (s.files.state.status ≡ open_room)
    × Increasing s.files.messages
    × All (λ m. 0 < m.id) s.files.messages
    × ((new : List Message) × (s.files.messages ≡ log ++ new))
    × Grows s.files.messages ss

abbrev pub last_log : List Message → List RoomServer → List Message
last_log log [] = log
last_log log (s ∷ ss) = last_log s.files.messages ss

after_id-All : (n : ℕ) (ms : List Message) → All (λ m. n < m.id) ms → after_id n ms ≡ ms
after_id-All n [] h = refl
after_id-All n (m ∷ ms) h = ground (arith, after_id-All n ms h.1, h.0)

after_id-append :
    (n : ℕ) (xs ys : List Message)
    → All (λ m. m.id ≤ n) xs
    → All (λ m. n < m.id) ys
    → after_id n (xs ++ ys) ≡ ys
after_id-append n [] ys h k = after_id-All n ys k
after_id-append n (x ∷ xs) ys h k = ground (arith, after_id-append n xs ys h.1 k, h.0)

last_id-append : (n : ℕ) (xs ys : List Message) → last_id n (xs ++ ys) ≡ last_id (last_id n xs) ys
last_id-append n [] ys = refl
last_id-append n (x ∷ xs) ys = last_id-append x.id xs ys

All-right {κ} : (P : Message → Type κ) (xs ys : List Message) → All P (xs ++ ys) → All P ys
All-right P [] ys h = h
All-right P (x ∷ xs) ys h = All-right P xs ys h.1

-- The last id of a log parts it from what follows.
last_id-parts :
    (n : ℕ) (xs ys : List Message)
    → Increasing (xs ++ ys)
    → All (λ m. n < m.id) (xs ++ ys)
    → (n ≤ last_id n xs) × All (λ m. m.id ≤ last_id n xs) xs × All (λ m. last_id n xs < m.id) ys
last_id-parts n [] ys h k = (omega arith, tt, k)
last_id-parts n (x ∷ xs) ys h k =
    let rest : _ = last_id-parts x.id xs ys h.1 h.0 in
    (omega (arith, rest.0, k.0), (rest.0, rest.1), rest.2)

delivered-step :
    (api : ServerApi) (alias : Text) (since : ℕ) (s : RoomServer) (ss : List RoomServer)
    (new : List Message)
    → s.files.state.status ≡ open_room
    → after_id since s.files.messages ≡ new
    → delivered api alias since (s ∷ ss) ≡ new ++ delivered api alias (last_id since new) ss
unfolding delivered build_wait_response
delivered-step api alias since s ss [] open_still e = rw (open_still, delivered) (rw e refl)
delivered-step api alias since s ss (m ∷ ms) open_still e = rw (open_still, delivered) (rw e refl)

-- Of a room that stays open, a client that waits again and again with the id of the last answer gets
-- every message of the log that it finds in the end exactly once, in the order of the log, behind those
-- that it had when it began.
pub delivered-last_log :
    (api : ServerApi) (alias : Text) (log : List Message) (ss : List RoomServer)
    → Grows log ss
    → log ++ delivered api alias (last_id 0 log) ss ≡ last_log log ss
unfolding delivered
delivered-last_log api alias log [] g = append-nil log
delivered-last_log api alias log (s ∷ ss) (open_still, inc, pos, (new, e), g) =
    let parts : _ =
      last_id-parts 0 log new (subst (λ (x : List Message). Increasing x) e inc)
        (subst (λ (x : List Message). All (λ m. 0 < m.id) x) e pos) in
    let fresh : after_id (last_id 0 log) s.files.messages ≡ new =
      rw e (after_id-append (last_id 0 log) log new parts.1 parts.2) in
    let next : last_id (last_id 0 log) new ≡ last_id 0 s.files.messages =
      rw e (sym (last_id-append 0 log new)) in
    ap (λ x. log ++ x) (delivered-step api alias (last_id 0 log) s ss new open_still fresh)
    ∙ (sym (append_assoc log new (delivered api alias (last_id (last_id 0 log) new) ss))
        ∙ (rw next (rw (← e) (delivered-last_log api alias s.files.messages ss g))))

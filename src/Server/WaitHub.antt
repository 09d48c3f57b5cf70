-- ===== src/Server/WaitHub.antt =====
-- src/server/wait.ts: the requests that wait on a room, and the answer to a wait. A waiter is a name for
-- the closure `done`; it stands in the set of its room until it is called, and `released` lists the
-- waiters whose promise is resolved, in their order.
pub mod Notify
use telegent.Base.{
  Text, codes, text_eq, text_eq→eq, text_eq_refl, text_eq_iff, text_eq_ne, ltb, leb, ◌==◌,
  if◌then◌else◌, ==_iff, Bool-cases, Option-cases, is_some, or_else, Result, ok, err, ◌>>=◌, ◌>>◌,
  guard, occurs, occurs-append, length, length-append, filter, find, any, all, All, All-append,
  All-map, All-filter, includes, ℕ, zero, suc, ◌+◌, ◌-◌, ◌*◌, ◌/◌, ◌%◌, ◌^◌, ◌≤◌, ◌<◌, max, min,
  ◌≡◌, refl, sym, ap, subst, ◌∙◌, ◌≢◌, ◌↔◌, ◌⊎◌, inl, inr, Bool, true, false, not, ◌&&◌, ◌||◌,
  Option, none, some, List, [], ◌∷◌, ◌++◌, map, arith,
}
use telegent.Base.Maps.{Map, lookup, insert, delete}
use telegent.Base.Decimal.{decimal}
use telegent.Protocol.Types.{Message, RoomStatus}
use telegent.Protocol.Urls.{UrlApi, room_url}

pub record WaitHub : Type 0 where
  pub waiters : Map (List Text)
  pub released : List Text

abbrev pub new_wait_hub : WaitHub
new_wait_hub = record { waiters = []; released = [] }

abbrev pub waiters_of : Text → WaitHub → List Text
waiters_of room h = or_else (lookup room h.waiters) []

unfoldable pub wait : Text → Text → WaitHub → WaitHub
wait room waiter h = record h { waiters = insert room (waiters_of room h ++ waiter ∷ []) h.waiters }

-- `waiters.delete(done)`
unfoldable pub remove_waiter : Text → List Text → List Text
remove_waiter waiter [] = []
remove_waiter waiter (w ∷ ws) = if text_eq w waiter then ws else w ∷ remove_waiter waiter ws

abbrev pub keep_waiters : Text → List Text → Map (List Text) → Map (List Text)
keep_waiters room [] waiters = delete room waiters
keep_waiters room (w ∷ ws) waiters = insert room (w ∷ ws) waiters

-- The call of `done`, by a notification or by the timer of its request.
unfoldable pub done : Text → Text → WaitHub → WaitHub
unfolding remove_waiter
done room waiter h = record {
  waiters = keep_waiters room (remove_waiter waiter (waiters_of room h)) h.waiters;
  released = h.released ++ waiter ∷ [];
}

unfoldable pub done_each : Text → List Text → WaitHub → WaitHub
unfolding done
done_each room [] h = h
done_each room (w ∷ ws) h = done_each room ws (done room w h)

unfoldable pub notify : Text → WaitHub → WaitHub
unfolding done_each
notify room h = done_each room (waiters_of room h) h

pub record WaitResponse : Type 0 where
  pub room : Text
  pub room_status : RoomStatus
  pub participant : Text
  pub heartbeat : Bool
  pub messages : List Message
  pub mentioned : Bool
  pub next_since_id : ℕ
  pub keep_waiting : Bool
  pub next_cmd : Option Text

-- `messages.at(-1)?.id ?? sinceId`
abbrev pub last_id : ℕ → List Message → ℕ
last_id since [] = since
last_id since (m ∷ ms) = last_id m.id ms

pub record WaitInput : Type 0 where
  pub room : Text
  pub room_status : RoomStatus
  pub participant : Text
  pub messages : List Message
  pub since_id : ℕ
  pub base_url : Text
  pub heartbeat : Bool
  pub keep_waiting : Bool

abbrev pub wait_path : Text → ℕ → Text
wait_path participant since =
    codes "/wait?participant=" ++ (participant ++ (codes "&since_id=" ++ decimal since))

-- The double quotes of the command are written by their code.
abbrev pub wait_command : Text → Text
wait_command url =
    codes "curl -s "
    ++ 34 ∷ (url ++ 34 ∷ (codes " -H " ++ 34 ∷ (codes "Authorization: Bearer $TOKEN" ++ 34 ∷ [])))

unfoldable pub build_wait_response : UrlApi → WaitInput → WaitResponse
unfolding decimal
build_wait_response u i = record {
  room = i.room;
  room_status = i.room_status;
  participant = i.participant;
  heartbeat = i.heartbeat;
  messages = i.messages;
  mentioned = any (λ m. includes m.mentions i.participant) i.messages;
  next_since_id = last_id i.since_id i.messages;
  keep_waiting = i.keep_waiting;
  next_cmd =
      if i.keep_waiting
      then elim (room_url u i.base_url (wait_path i.participant (last_id i.since_id i.messages))) [
        | none ↦ none
        | some url ↦ some (wait_command url)
      ]
      else none;
}

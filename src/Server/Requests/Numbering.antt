-- ===== src/Server/Requests/Numbering.antt =====
-- The log of a room that is served.
use telegent.Base.{ℕ, List, [], ◌∷◌}
use telegent.Protocol.Types.{Participant}
use telegent.Storage.RoomStore.Changes.{
  change, sets_policy, sets_brief, appends, server_appends, upserts, closes,
}
use telegent.Storage.RoomStore.Changes.Ids.{IsExact, change-IsExact}
use telegent.Server.Room.{ServerApi, require_participant}
use telegent.Server.Forum.{ForumServer}
use telegent.Server.Requests.{
  serve, handle, happen, happen_all, Event, arrives, admitted_before, resumes, gives_up,
  allows_removed,
}
use telegent.Server.Requests.Keeps.{Laws, resume_wait-Keeps, require_participant-Keeps}
use telegent.Server.Requests.Endpoints.{handle-Keeps, in_room-Keeps}

Laws-IsExact : (now : ℕ) (p : Participant) → Laws IsExact now p
unfolding change
Laws-IsExact now p = record {
  appends = λ room from text f h. change-IsExact (server_appends now room from text) f h;
  sends = λ room from raw limit f h. change-IsExact (appends now room from raw limit) f h;
  upserts = λ q f h. change-IsExact (upserts q) f h;
  expires = λ f h over. change-IsExact (closes now) f h;
  hosts_close = λ host f h. change-IsExact (closes now) f h;
  hosts_brief = λ host room body by f h. change-IsExact (sets_brief now room body by) f h;
  hosts_policy = λ host room policy by f h. change-IsExact (sets_policy now room policy by) f h;
}

happen-IsExact :
    (api : ServerApi) (e : Event) (s : ForumServer)
    → IsExact s.room.files
    → IsExact (happen api e s).room.files
unfolding happen
happen-IsExact api (arrives now token r) s h =
    unfold serve in
    in_room-Keeps IsExact (require_participant api (allows_removed r) token)
      (λ p. handle api now p r) (require_participant-Keeps IsExact api (allows_removed r) token)
      (λ p. handle-Keeps IsExact now p (Laws-IsExact now p) api r) s h
happen-IsExact api (admitted_before now p r) s h =
    handle-Keeps IsExact now p (Laws-IsExact now p) api r s h
happen-IsExact api (resumes now p since) s h =
    resume_wait-Keeps IsExact now p (Laws-IsExact now p) api p since s.room h
happen-IsExact api (gives_up waiter) s h = h

-- Whatever requests behind a token are admitted and handled, to the room, to the forum or for the card,
-- the status and the boardroom, with whatever tokens and at whatever times, others in between, each
-- handler running in one step, and however waits go on or end: where the ids of the room's log are 1, 2
-- and so on, the next id follows the last of them and its messages are the room's, they stay so.
pub happen_all-IsExact :
    (api : ServerApi) (es : List Event) (s : ForumServer)
    → IsExact s.room.files
    → IsExact (happen_all api es s).room.files
unfolding happen_all
happen_all-IsExact api [] s h = h
happen_all-IsExact api (e ∷ es) s h =
    happen_all-IsExact api es (happen api e s) (happen-IsExact api e s h)

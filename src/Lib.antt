-- ===== src/Lib.antt =====
-- Agent Gather: rooms in which agents and people exchange messages. A host keeps a room on its own
-- machine; a public broker forwards participants to it over a tunnel; a platform shows the status
-- of the rooms and meters what the public routes use.
--
-- The tunnel (src/tunnel/). Tunnel/Protocol.antt has the types and errors of protocol.ts.
-- Tunnel/Limits.antt is the class BrokerGuards of limits.ts: `enter` admits a request, and
-- `release` is the call of the handle that `enter` returns. Tunnel/Relay.antt is the class RelayHub
-- of relay.ts: `enqueue`, `claim`, `respond`, `close_route`, and `expire`, the callback of a
-- request's timer. A promise is the entry of its request in `settled`, in the order in which
-- promises settle. Tunnel/Broker.antt has the state of the class TunnelBroker of broker.ts and its
-- private helpers, and Tunnel/Operations.antt its operations: `register`, `heartbeat`, `end_route`
-- (closeRoute), `resolve`, `snapshot`, `claim_relay`, `respond_relay`, and `forward`, split where
-- it awaits: `forward_enter` up to the first await, `forward_attended` and `forward_enqueue` in
-- forwardViaRelay, `forward_release` in the `finally`. Tunnel/Calls.antt makes each of them, and a
-- timer's callback, a call, and runs sequences of calls, so that calls of different requests
-- interleave in any order. Tunnel/HostSession.antt is the class HostTunnelSession of
-- host-session.ts as a state and its events, and Tunnel/Forwarding.antt is forwarding.ts, over a
-- function that stands for fetch. Tunnel/Logging.antt is logging.ts, and Cli/Args.antt and
-- Cli/State.antt are args.ts and state.ts of src/cli/.
--
-- The platform (src/platform/). Platform/Metering.antt is the class MeteringLedger of metering.ts,
-- over a store whose update is one step, as the type MeteringStore documents. Platform/Status.antt
-- is derivePlatformStatus of status.ts, and Platform/Accounts.antt is accounts.ts.
--
-- The protocol (src/protocol/). Protocol/Types.antt has the records of types.ts,
-- Protocol/Attention.antt the negotiation of attention.ts, Protocol/Validation.antt the slugs of
-- validation.ts, Protocol/Messages.antt the checks on client input of messages.ts, and
-- Protocol/Mentions.antt the mentions of mentions.ts: the masking of code, and the regular
-- expression as a scanner that skips what belongs to the match before.
--
-- The storage (src/storage/). Storage/RoomStore.antt has the files of a room and each operation of
-- room-store.ts on them; Storage/RoomStore/Changes.antt runs sequences of those operations. The
-- writer lock is taken as what it promises, that an operation runs alone; Storage/Lock.antt is the
-- lock itself, lock.ts, as a relation of steps of several writers. The two writes of an append are
-- two functions, `append_line` and `count_message`, so that a stop between them can be stated.
--
-- Protocol/Boardroom.antt, Protocol/Forum.antt and Protocol/Attendance.antt are boardroom.ts,
-- forum.ts and attendance.ts, Platform/Metering/Adapter.antt is createBrokerMeter of metering.ts,
-- and Tunnel/Headers.antt is redactHeaders of protocol.ts. Storage/Paths.antt is paths.ts.
--
-- Storage/BoardroomStore.antt and Storage/ForumStore.antt are boardroom-store.ts and
-- forum-store.ts: what each operation reads and writes of the files of one room.
--
-- The server (src/server/). Server/Guards.antt has the tests and limits of http.ts,
-- Server/WaitHub.antt is wait.ts, Server/Room.antt the state of a server and the steps of its
-- handlers, with verifyToken of src/auth/tokens.ts, Server/Bodies.antt what is read from a body,
-- and Server/Handlers.antt one function for each handler: `get_wait` up to the point where it
-- waits, and `resume_wait` from there. A handler is a function of the state with a result; what a
-- step has written stays when a later step throws. Server/Routes.antt has the table of
-- handleRequest. Server/Requests.antt has the requests behind a token, to the room, to the forum or
-- for the card, the status and the boardroom: `serve` is a handler behind requireParticipant, and
-- `happen_all` runs sequences of events: requests that arrive, requests that are handled after they
-- were admitted, waits that go on, and timers. After its admission a handler runs in one step to
-- its answer or its wait, so that in these sequences no other request comes between two of its
-- later awaits; the operations of the store one by one, in any order, are the sequences of
-- Storage/RoomStore/Changes.antt. A waiting request is a name in the set of its room, and its
-- promise is resolved when the name is in `released`. Server/Views.antt has what /status and
-- /boardroom show, and Server/Forum.antt the handlers of the forum, over the store of the forum.
-- Protocol/Urls.antt is urls.ts.
--
-- Modelling. A number is a natural number; the differences of times that the source takes are
-- compared as sums, and a subtraction stops at 0 where the source takes a maximum with 0. A string
-- is the list of its UTF-16 code units. A time stamp is the number of milliseconds that its ISO
-- text stands for. A synchronous operation reads the clock once, and its time is an argument. Every
-- recursion is on a list, so no fuel is needed. The ids that the source draws at random are
-- arguments; that request ids are new is a hypothesis where it is used. URL parsing and the byte
-- length of base64 text are the functions of the parameter NodeApi, and hashing, URLs and lower
-- case in the server those of ServerApi. An operation that throws returns `err` and the state as
-- the throw leaves it. The hooks of the meter are recorded in the order of their calls.
--
-- Not modelled: what another request does between two awaits of one handler of the server, where
-- that is neither its admission nor its wait; the texts of the cards that the server renders, the
-- registry of the platform; and, as input and output around the modelled parts, the HTTP plumbing,
-- the tunnel's client, files, the commands of the command line and the browser pages.
pub mod Base
pub mod Tunnel
pub mod Platform
pub mod Protocol
pub mod Storage
pub mod Server
pub mod Tests
pub mod Cli

-- ===== src/Wire/WebSocket/Clients/Sessions.antt =====
-- The order of the calls of the handlers of src/core/websocket_server.cpp.
use mcx.Prelude.{
  ℕ, Bool, true, false, All, ◌+◌, ◌%◌, ◌^◌, ◌≡◌, refl, sym, ap, ◌∙◌, Option, none, some, List, [],
  ◌∷◌, ◌++◌, map, arith, Option-cases, inl, inr, append_nil,
}
use mathlib.Core.List.{append_assoc}
use mcx.Prelude.Text.{Text}
use mcx.Wire.WebSocket.{ok, throws, decode_frame}
use mcx.Wire.WebSocket.Clients.{
  Connection, Event, connected, disconnected, message, WebSocketServer, get_client_count,
  insert_client, erase_client, record_event, perform_handshake, serving, terminated, handle_client,
  accept_connection, accept_loop,
}

abbrev pub Decode : List Text → List Text → Type 0
Decode [] [] = Unit
Decode [] (text ∷ texts) = ⊥
Decode (frame ∷ frames) [] = ⊥
Decode (frame ∷ frames) (text ∷ texts) = (decode_frame frame ≡ ok text) × Decode frames texts

-- The frames that are read before the flag is low.
abbrev pub heard : List (Bool × Text) → List Text
heard [] = []
heard ((true, frame) ∷ frames) = frame ∷ heard frames
heard ((false, frame) ∷ frames) = []

-- The connections that are found before the flag is low.
abbrev pub found : List (Bool × Option Connection) → List Connection
found [] = []
found ((true, none) ∷ rounds) = found rounds
found ((true, some connection) ∷ rounds) = connection ∷ found rounds
found ((false, connection) ∷ rounds) = []

abbrev pub IsUp : {A : Type 0} → Bool × A → Type 0
IsUp (flag, x) = flag ≡ true

-- The frames of each connection that are read decode to those texts.
abbrev pub DecodeAll : List Connection → List (List Text) → Type 0
DecodeAll [] [] = Unit
DecodeAll [] (texts ∷ rest) = ⊥
DecodeAll (connection ∷ connections) [] = ⊥
DecodeAll (connection ∷ connections) (texts ∷ rest) =
    Decode (heard connection.frames) texts × DecodeAll connections rest

abbrev pub idle : ℕ → List Event → WebSocketServer
idle id events = record { clients = []; next_client_id = id; events = events }

abbrev pub busy : ℕ → ℕ → List Event → WebSocketServer
busy id next events = record { clients = id ∷ []; next_client_id = next; events = events }

-- What the handlers are told of a connection: they count one client, or none behind its end.
abbrev pub session : ℕ → Option Text → List Text → List Event
session id none texts = []
session id (some response) texts =
    connected id 1 ∷ (map (message id 1) texts ++ (disconnected id 0 ∷ []))

abbrev pub sessions : ℕ → List Connection → List (List Text) → List Event
sessions id [] rest = []
sessions id (connection ∷ connections) [] = []
sessions id (connection ∷ connections) (texts ∷ rest) =
    session id (perform_handshake connection.hello) texts
    ++ sessions ((id + 1) % 2 ^ 32) connections rest

-- The frames that are read, with the flag up, before `rest`.
handle_client-read :
    (id next : ℕ) (frames rest : List (Bool × Text)) (texts : List Text) (events : List Event)
    → All IsUp frames
    → Decode (heard frames) texts
    → handle_client id (frames ++ rest) (busy id next events)
      ≡ handle_client id rest (busy id next (events ++ map (message id 1) texts))
unfolding handle_client record_event get_client_count
handle_client-read id next [] rest [] events up h =
    ap (λ l. handle_client id rest (busy id next l)) (sym (append_nil events))
handle_client-read id next [] rest (text ∷ texts) events up h = elim h [ ]
handle_client-read id next ((false, frame) ∷ frames) rest texts events up h = absurd (low up.0)
  where
    low : false ≡ true → ⊥
    low e = cc
handle_client-read id next ((true, frame) ∷ frames) rest [] events up h = elim h [ ]
handle_client-read id next ((true, frame) ∷ frames) rest (text ∷ texts) events up h =
    rw (handle_client, h.0)
      (handle_client-read id next frames rest texts (events ++ (message id 1 text ∷ [])) up.1 h.1
        ∙ ap (λ l. handle_client id rest (busy id next l))
            (append_assoc events (message id 1 text ∷ []) (map (message id 1) texts)))

handle_client-busy :
    (id next : ℕ) (frames : List (Bool × Text)) (texts : List Text) (events : List Event)
    → Decode (heard frames) texts
    → handle_client id frames (busy id next events)
      ≡ serving (idle next (events ++ (map (message id 1) texts ++ (disconnected id 0 ∷ []))))
unfolding handle_client erase_client record_event get_client_count
handle_client-busy id next [] [] events h = ground arith
handle_client-busy id next [] (text ∷ texts) events h = elim h [ ]
handle_client-busy id next ((false, frame) ∷ frames) [] events h = ground arith
handle_client-busy id next ((false, frame) ∷ frames) (text ∷ texts) events h = elim h [ ]
handle_client-busy id next ((true, frame) ∷ frames) [] events h = elim h [ ]
handle_client-busy id next ((true, frame) ∷ frames) (text ∷ texts) events h =
    rw (handle_client, h.0)
      (handle_client-busy id next frames texts (events ++ (message id 1 text ∷ [])) h.1
        ∙ ap (λ l. serving (idle next l)) (append_assoc events (message id 1 text ∷ []) _))

accept_connection-idle :
    (connection : Connection) (id : ℕ) (texts : List Text) (events : List Event)
    → Decode (heard connection.frames) texts
    → accept_connection connection (idle id events)
      ≡ serving (
          idle
            ((id + 1) % 2 ^ 32)
            (events ++ session id (perform_handshake connection.hello) texts))
unfolding accept_connection insert_client record_event get_client_count
accept_connection-idle connection id texts events h =
    elim (Option-cases (perform_handshake connection.hello)) [
      | inl e ↦
          rw (accept_connection, e)
            (ap (λ l. serving (idle ((id + 1) % 2 ^ 32) l)) (sym (append_nil events)))
      | inr (response, e) ↦
          rw (accept_connection, e)
            (handle_client-busy id ((id + 1) % 2 ^ 32) connection.frames texts
                (events ++ (connected id 1 ∷ [])) h
              ∙ ap (λ l. serving (idle ((id + 1) % 2 ^ 32) l))
                  (append_assoc events (connected id 1 ∷ []) _))
    ]

-- The number of the connection behind so many others.
abbrev pub id_after : ℕ → List Connection → ℕ
id_after id [] = id
id_after id (connection ∷ connections) = id_after ((id + 1) % 2 ^ 32) connections

accept_loop_step :
    (connection : Connection) (rest : List (Bool × Option Connection))
    (server server' : WebSocketServer)
    → accept_connection connection server ≡ serving server'
    → accept_loop ((true, some connection) ∷ rest) server ≡ accept_loop rest server'
unfolding accept_loop
accept_loop_step connection rest server server' e = rw (accept_loop, e) refl

-- The rounds before `after`, with the flag up.
accept_loop-before :
    (before after : List (Bool × Option Connection)) (texts : List (List Text)) (id : ℕ)
    (events : List Event)
    → All IsUp before
    → DecodeAll (found before) texts
    → accept_loop (before ++ after) (idle id events)
      ≡ accept_loop after
          (idle (id_after id (found before)) (events ++ sessions id (found before) texts))
unfolding accept_loop
accept_loop-before [] after [] id events up h =
    ap (λ l. accept_loop after (idle id l)) (sym (append_nil events))
accept_loop-before [] after (texts ∷ rest) id events up h = elim h [ ]
accept_loop-before ((false, c) ∷ before) after texts id events up h = absurd (low up.0)
  where
    low : false ≡ true → ⊥
    low e = cc
accept_loop-before ((true, none) ∷ before) after texts id events up h =
    accept_loop-before before after texts id events up.1 h
accept_loop-before ((true, some connection) ∷ before) after [] id events up h = elim h [ ]
accept_loop-before ((true, some connection) ∷ before) after (texts ∷ rest) id events up h =
    let here = session id (perform_handshake connection.hello) texts in
    let next = (id + 1) % 2 ^ 32 in
    accept_loop_step connection (before ++ after) _ _
      (accept_connection-idle connection id texts events h.0)
    ∙ accept_loop-before before after rest next (events ++ here) up.1 h.1
    ∙ ap (λ l. accept_loop after (idle (id_after next (found before)) l))
        (append_assoc events here _)

-- All the rounds, up to one that finds the flag low.
accept_loop-found :
    (rounds : List (Bool × Option Connection)) (texts : List (List Text)) (id : ℕ)
    (events : List Event)
    → DecodeAll (found rounds) texts
    → accept_loop rounds (idle id events)
      ≡ serving (idle (id_after id (found rounds)) (events ++ sessions id (found rounds) texts))
unfolding accept_loop
accept_loop-found [] [] id events h = ap (λ l. serving (idle id l)) (sym (append_nil events))
accept_loop-found [] (texts ∷ rest) id events h = elim h [ ]
accept_loop-found ((false, c) ∷ rounds) [] id events h =
    ap (λ l. serving (idle id l)) (sym (append_nil events))
accept_loop-found ((false, c) ∷ rounds) (texts ∷ rest) id events h = elim h [ ]
accept_loop-found ((true, none) ∷ rounds) texts id events h =
    accept_loop-found rounds texts id events h
accept_loop-found ((true, some connection) ∷ rounds) [] id events h = elim h [ ]
accept_loop-found ((true, some connection) ∷ rounds) (texts ∷ rest) id events h =
    let here = session id (perform_handshake connection.hello) texts in
    let next = (id + 1) % 2 ^ 32 in
    accept_loop_step connection rounds _ _ (accept_connection-idle connection id texts events h.0)
    ∙ accept_loop-found rounds rest next (events ++ here) h.1
    ∙ ap (λ l. serving (idle (id_after next (found rounds)) l)) (append_assoc events here _)

handle_client-throws :
    (id : ℕ) (frame : Text) (frames : List (Bool × Text)) (server : WebSocketServer)
    → decode_frame frame ≡ throws
    → handle_client id ((true, frame) ∷ frames) server ≡ terminated server
unfolding handle_client
handle_client-throws id frame frames server t = rw (handle_client, t) refl

-- A connection of which a frame throws behind others that were read.
bad_connection :
    (bad : Connection) (response frame : Text) (good frames : List (Bool × Text))
    (texts : List Text) (id : ℕ) (events : List Event)
    → perform_handshake bad.hello ≡ some response
    → bad.frames ≡ good ++ ((true, frame) ∷ frames)
    → All IsUp good
    → Decode (heard good) texts
    → decode_frame frame ≡ throws
    → accept_connection bad (idle id events)
      ≡ terminated (
          busy id
            ((id + 1) % 2 ^ 32)
            ((events ++ (connected id 1 ∷ [])) ++ map (message id 1) texts))
unfolding accept_connection insert_client record_event get_client_count
bad_connection bad response frame good frames texts id events e f up d t =
    let next = (id + 1) % 2 ^ 32 in
    let server = busy id next (events ++ (connected id 1 ∷ [])) in
    rw (accept_connection, e)
      (ap (λ l. handle_client id l server) f
        ∙ handle_client-read id next good ((true, frame) ∷ frames) texts
            (events ++ (connected id 1 ∷ [])) up d
        ∙ handle_client-throws id frame frames
            (busy id next ((events ++ (connected id 1 ∷ [])) ++ map (message id 1) texts)) t)

-- The connections that are found while the flag is up are served one after the other: each one that
-- shakes hands is announced, the messages of it that are read while the flag is up follow in order, and
-- its end is announced before the next connection is looked at, so that no handler ever counts more
-- than one client. A connection has the number behind that of the one before, modulo 2^32, also where
-- that one did not shake hands. All this holds where the frames that are read decode; one on which
-- std::string::substr throws, behind any number of others of its connection, ends the program for all
-- that come later, with the flag up until then.
pub accept_loop-sessions :
    (rounds before after : List (Bool × Option Connection)) (texts all : List (List Text)) (id : ℕ)
    (bad : Connection) (response frame : Text) (good frames : List (Bool × Text)) (said : List Text)
    → DecodeAll (found rounds) all
    → All IsUp before
    → DecodeAll (found before) texts
    → perform_handshake bad.hello ≡ some response
    → bad.frames ≡ good ++ ((true, frame) ∷ frames)
    → All IsUp good
    → Decode (heard good) said
    → decode_frame frame ≡ throws
    → let last = id_after id (found before) in
      (accept_loop rounds (idle id [])
        ≡ serving (idle (id_after id (found rounds)) (sessions id (found rounds) all)))
      × (accept_loop (before ++ ((true, some bad) ∷ after)) (idle id [])
          ≡ terminated (
              busy last ((last + 1) % 2 ^ 32) (
                (sessions id (found before) texts ++ (connected last 1 ∷ []))
                ++ map (message last 1) said)))
unfolding accept_loop
accept_loop-sessions rounds before after texts all id bad response frame good frames said a up h e f
      up' d t =
    (
      accept_loop-found rounds all id [] a,
      accept_loop-before before ((true, some bad) ∷ after) texts id [] up h
          ∙ rw
              (
                accept_loop,
                bad_connection bad response frame good frames said (id_after id (found before))
                    (sessions id (found before) texts) e f up' d t,
              )
              refl,
    )

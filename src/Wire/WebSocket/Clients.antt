-- ===== src/Wire/WebSocket/Clients.antt =====
-- The connections of src/core/websocket_server.cpp: AcceptLoop, PerformHandshake and HandleClient. What
-- the peers send is a value; the events record the calls of the handlers, each with what
-- GetClientCount gives at that time.
pub mod Sessions
use mcx.Prelude.{
  ℕ, Bool, true, false, ◌+◌, ◌%◌, ◌^◌, not, Option, none, some, List, [], ◌∷◌, ◌++◌, ◌==◌, length,
  keep_if,
}
use mcx.Prelude.Text.{Text, codes}
use mcx.Prelude.Search.{cut_at}
use mcx.Wire.WebSocket.{ok, throws, undefined, decode_frame}

-- What a peer sends: the first recv, where it gives anything, and those behind it, as long as they do,
-- each with what the test of `running_` before it reads.
pub record Connection : Type 0 where
  pub hello : Option Text
  pub frames : List (Bool × Text)

pub data Event : Type 0 where
  connected disconnected : ℕ → ℕ → Event
  message : ℕ → ℕ → Text → Event

pub record WebSocketServer : Type 0 where
  pub clients : List ℕ
  pub next_client_id : ℕ
  pub events : List Event

abbrev pub initial : WebSocketServer
initial = record { clients = []; next_client_id = 1; events = [] }

unfoldable pub get_client_count : WebSocketServer → ℕ
get_client_count server = length server.clients

unfoldable pub insert_client : ℕ → WebSocketServer → WebSocketServer
insert_client id server = record server {
  clients = id ∷ keep_if (λ c. not (c == id)) server.clients;
}

unfoldable pub erase_client : ℕ → WebSocketServer → WebSocketServer
erase_client id server = record server { clients = keep_if (λ c. not (c == id)) server.clients }

unfoldable pub record_event : Event → WebSocketServer → WebSocketServer
record_event event server = record server { events = server.events ++ (event ∷ []) }

-- The text that PerformHandshake sends; `none` where it fails. The key is looked for, and not used.
unfoldable pub perform_handshake : Option Text → Option Text
perform_handshake none = none
perform_handshake (some request) = elim (cut_at (codes "Sec-WebSocket-Key: ") request) [
  | none ↦ none
  | some key ↦ some (
      codes "HTTP/1.1 101 Switching Protocols"
      ++ (13
          ∷ 10
          ∷ (codes "Upgrade: websocket"
              ++ (13
                  ∷ 10
                  ∷ (codes "Connection: Upgrade"
                      ++ (13
                          ∷ 10
                          ∷ (codes "Sec-WebSocket-Accept: s3pPLMBiTxaQ9kYGzzhZRbK+xOo="
                              ++ (13 ∷ 10 ∷ 13 ∷ 10 ∷ []))))))))
]

-- The accept thread goes on, or it has left its loop by an exception that nothing catches, which ends
-- the program, or it has read past the end of a frame.
pub data Served : Type 0 where
  serving terminated broken : WebSocketServer → Served

-- HandleClient, up to the end of the connection, or to a test that finds the flag low.
unfoldable pub handle_client : ℕ → List (Bool × Text) → WebSocketServer → Served
unfolding erase_client record_event get_client_count
handle_client id [] server =
    let left = erase_client id server in
    serving (record_event (disconnected id (get_client_count left)) left)
handle_client id ((false, frame) ∷ frames) server =
    let left = erase_client id server in
    serving (record_event (disconnected id (get_client_count left)) left)
handle_client id ((true, frame) ∷ frames) server = elim (decode_frame frame) [
  | ok text ↦
      handle_client id frames (record_event (message id (get_client_count server) text) server)
  | throws ↦ terminated server
  | undefined ↦ broken server
]

-- One turn of AcceptLoop that finds a connection.
unfoldable pub accept_connection : Connection → WebSocketServer → Served
unfolding handle_client perform_handshake insert_client record_event get_client_count
accept_connection connection server =
    let id = server.next_client_id in
    let numbered = record server { next_client_id = (id + 1) % 2 ^ 32 } in
    let joined = insert_client id numbered in
    elim (perform_handshake connection.hello) [
      | none ↦ serving numbered
      | some response ↦
          handle_client id connection.frames
            (record_event (connected id (get_client_count joined)) joined)
    ]

-- A round is what the test of `running_` reads, and the connection that is found then, if any.
unfoldable pub accept_loop : List (Bool × Option Connection) → WebSocketServer → Served
unfolding accept_connection
accept_loop [] server = serving server
accept_loop ((false, found) ∷ rounds) server = serving server
accept_loop ((true, none) ∷ rounds) server = accept_loop rounds server
accept_loop ((true, some connection) ∷ rounds) server = elim (accept_connection connection server) [
  | serving server' ↦ accept_loop rounds server'
  | terminated server' ↦ terminated server'
  | broken server' ↦ broken server'
]

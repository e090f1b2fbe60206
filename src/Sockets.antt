-- ===== src/Sockets.antt =====
-- The listening sockets: Start and Stop of WebSocketServer (src/core/websocket_server.cpp) and of
-- RconServer (src/core/rcon.cpp), Listen of PaperBridge (src/integration/paper_bridge.cpp) up to its loop, and
-- what RconServer and PaperBridge do with a connection. The system is a parameter; the open descriptors of the process are a list.
pub mod Descriptors
pub mod Buffer
pub mod Client
pub mod Network
pub mod Paper
use mcx.Prelude.{
  ℕ, Bool, true, false, not, ◌||◌, Option, none, some, List, [], ◌∷◌, ◌++◌, ltb, ◌==◌,
  if◌then◌else◌, length, keep_if,
}
use mcx.Prelude.Text.{Text, codes}
use mcx.Prelude.Search.{c_str}

-- What socket gives where those descriptors are open, whether bind on a port succeeds, and listen.
pub record System : Type 0 where
  pub socket : List ℕ → Option ℕ
  pub binds : ℕ → Bool
  pub listens : Bool

-- The members that Start and Stop change; no descriptor is -1.
pub record Listener : Type 0 where
  pub port : ℕ
  pub server_fd : Option ℕ
  pub running : Bool

abbrev pub make_listener : ℕ → Listener
make_listener port = record { port = port; server_fd = none; running = false }

-- close: a descriptor that is not open is left alone.
abbrev pub close : ℕ → List ℕ → List ℕ
close fd fds = keep_if (λ other. not (other == fd)) fds

abbrev pub is_open : ℕ → List ℕ → Bool
is_open fd [] = false
is_open fd (other ∷ fds) = other == fd || is_open fd fds

module _ (system : System) where
  -- WebSocketServer::Start, with the descriptors that are open. An error closes the socket again.
  unfoldable pub start_web_socket : Listener → List ℕ → Listener × List ℕ
  start_web_socket server fds = elim (system.socket fds) [
    | none ↦ (record server { server_fd = none }, fds)
    | some fd ↦
        if not (system.binds server.port)
        then (record server { server_fd = some fd }, close fd (fd ∷ fds))
        else if not system.listens
        then (record server { server_fd = some fd }, close fd (fd ∷ fds))
        else (record server { server_fd = some fd; running = true }, fd ∷ fds)
  ]

  -- RconServer::Start, which does not ask whether listen succeeds.
  unfoldable pub start_rcon : Listener → List ℕ → Listener × List ℕ
  start_rcon server fds = elim (system.socket fds) [
    | none ↦ (record server { server_fd = none }, fds)
    | some fd ↦
        if not (system.binds server.port)
        then (record server { server_fd = some fd }, close fd (fd ∷ fds))
        else (record server { server_fd = some fd; running = true }, fd ∷ fds)
  ]

  -- PaperBridge::Listen up to its loop: the descriptor that it listens on, or `none`.
  unfoldable pub listen_paper : ℕ → List ℕ → Option ℕ × List ℕ
  listen_paper port fds = elim (system.socket fds) [
    | none ↦ (none, fds)
    | some fd ↦
        if not (system.binds port)
        then (none, close fd (fd ∷ fds))
        else if not system.listens
        then (none, close fd (fd ∷ fds))
        else (some fd, fd ∷ fds)
  ]

-- Stop of both servers; the join waits for the accept thread.
unfoldable pub stop_listener : Listener → List ℕ → Listener × List ℕ
stop_listener server fds = (
  record server { running = false },
  elim server.server_fd [ none ↦ fds | some fd ↦ close fd fds ],
)

-- RconServer::HandleClient: the commands that the handler, if there is one, is called with.
unfoldable pub handle_rcon_client : Bool → Option Text → List Text
handle_rcon_client has_handler none = []
handle_rcon_client has_handler (some bytes) = if has_handler then codes "help" ∷ [] else []

abbrev pub buffer_size : ℕ
buffer_size = 1024

-- What the callback of PaperBridge is called with after recv put those bytes, 1024 at most, into the
-- buffer, which is zero before:
-- the text up to the first zero; `none` where there is no zero, and the text is read past the buffer.
unfoldable pub paper_event : Text → Option Text
paper_event bytes =
    if ltb (length bytes) buffer_size || is_open 0 bytes then some (c_str bytes) else none

-- ===== src/Sockets/Client.antt =====
-- The connections of src/core/rcon.cpp: Connect and Disconnect of RconClient, and AcceptLoop of
-- RconServer with the members that SetPassword and OnCommand store.
use mcx.Prelude.{
  ℕ, zero, suc, ◌≡◌, refl, ap, ◌∙◌, Bool, true, false, Option, none, some, List, [], ◌∷◌, ◌++◌,
  arith, if◌then◌else◌, All, All-append, length, ◌+◌, length-append,
}
use mcx.Prelude.Text.{Text, codes}
use mcx.Sockets.{close, is_open, handle_rcon_client}
use mcx.Sockets.Descriptors.{close_new}

-- The members that Connect and Disconnect change; no descriptor is -1.
pub record RconClient : Type 0 where
  pub socket_fd : Option ℕ
  pub connected : Bool

abbrev pub new_client : RconClient
new_client = record { socket_fd = none; connected = false }

-- With the open descriptors: what `socket` gives, and whether `connect` succeeds.
unfoldable pub connect : Option ℕ → Bool → RconClient → List ℕ → Bool × RconClient × List ℕ
connect none succeeds client fds = (false, record client { socket_fd = none }, fds)
connect (some fd) true client fds =
    (true, record { socket_fd = some fd; connected = true }, fd ∷ fds)
connect (some fd) false client fds =
    (false, record client { socket_fd = none }, close fd (fd ∷ fds))

unfoldable pub disconnect : RconClient → List ℕ → RconClient × List ℕ
disconnect client fds = (
  record { socket_fd = none; connected = false },
  elim client.socket_fd [ none ↦ fds | some fd ↦ close fd fds ],
)

-- A new client that connects and disconnects leaves open what was open, whatever the system gives.
pub disconnect-connect :
    (socket : Option ℕ) (succeeds : Bool) (fds : List ℕ)
    → ((fd : ℕ) → socket ≡ some fd → is_open fd fds ≡ false)
    → let (result, client, opened) = connect socket succeeds new_client fds in
      (client.connected ≡ result) × ((disconnect client opened).1 ≡ fds)
unfolding connect disconnect
disconnect-connect none succeeds fds new = (refl, refl)
disconnect-connect (some fd) true fds new = (refl, close_new fd fds (new fd refl))
disconnect-connect (some fd) false fds new = (refl, close_new fd fds (new fd refl))

-- A second Connect of a client that is connected by `old`. Where it fails, the client still reports
-- a connection and has no socket; and whether or not it fails, `old` stays open behind Disconnect,
-- the new socket having another number that is not in use.
pub connect_again :
    (socket : Option ℕ) (succeeds : Bool) (old : ℕ) (fds : List ℕ)
    → ((fd : ℕ) → socket ≡ some fd → is_open fd (old ∷ fds) ≡ false)
    → let before : RconClient = record { socket_fd = some old; connected = true } in
      let (result, client, opened) = connect socket succeeds before (old ∷ fds) in
      (client.connected ≡ true)
      × (client.socket_fd ≡ (if result then socket else none))
      × ((disconnect client opened).1 ≡ old ∷ fds)
unfolding connect disconnect
connect_again none succeeds old fds new = (refl, refl, refl)
connect_again (some fd) true old fds new = (refl, refl, close_new fd (old ∷ fds) (new fd refl))
connect_again (some fd) false old fds new = (refl, refl, close_new fd (old ∷ fds) (new fd refl))

-- A turn of AcceptLoop: the descriptor of a connection that is waiting, and what `recv` takes of it.
pub record Arrival : Type 0 where
  pub fd : ℕ
  pub bytes : Option Text

-- The commands that the handler is called with, and the descriptors that are open; the loop ends
-- where its flag is low. `none` is a turn in which nobody connects.
unfoldable pub accept_rcon : Bool → List (Bool × Option Arrival) → List ℕ → List Text × List ℕ
unfolding handle_rcon_client
accept_rcon has_handler [] fds = ([], fds)
accept_rcon has_handler ((running, none) ∷ rounds) fds =
    let rest = accept_rcon has_handler rounds fds in if running then rest else ([], fds)
accept_rcon has_handler ((running, some a) ∷ rounds) fds =
    let rest = accept_rcon has_handler rounds (close a.fd (a.fd ∷ fds)) in
    if running then (handle_rcon_client has_handler a.bytes ++ rest.0, rest.1) else ([], fds)

-- The connections that sent a byte before the flag was low.
abbrev pub speakers : List (Bool × Option Arrival) → ℕ
speakers [] = 0
speakers ((false, a) ∷ rounds) = 0
speakers ((true, none) ∷ rounds) = speakers rounds
speakers ((true, some a) ∷ rounds) = elim a.bytes [ none ↦ 0 | some _ ↦ 1 ] + speakers rounds

abbrev pub IsNew : List ℕ → Bool × Option Arrival → Type 0
IsNew fds (running, none) = Unit
IsNew fds (running, some a) = is_open a.fd fds ≡ false

abbrev pub IsHelp : Text → Type 0
IsHelp command = command ≡ codes "help"

handle_rcon_client_lem :
    (bytes : Option Text)
    → (length (handle_rcon_client true bytes) ≡ elim bytes [ none ↦ 0 | some _ ↦ 1 ])
      × All IsHelp (handle_rcon_client true bytes)
unfolding handle_rcon_client
handle_rcon_client_lem none = (refl, tt)
handle_rcon_client_lem (some bytes) = (refl, (refl, tt))

-- With a handler, AcceptLoop calls it with `help` once for every connection that sends a byte while
-- the flag is up, whatever the bytes are, and with nothing else; and it leaves open what was open,
-- where each connection has a number that is not in use.
pub accept_rcon_lem :
    (rounds : List (Bool × Option Arrival)) (fds : List ℕ)
    → All (IsNew fds) rounds
    → (length (accept_rcon true rounds fds).0 ≡ speakers rounds)
      × All IsHelp (accept_rcon true rounds fds).0
      × ((accept_rcon true rounds fds).1 ≡ fds)
unfolding accept_rcon
accept_rcon_lem [] fds h = (refl, tt, refl)
accept_rcon_lem ((false, none) ∷ rounds) fds h = (refl, tt, refl)
accept_rcon_lem ((false, some a) ∷ rounds) fds h = (refl, tt, refl)
accept_rcon_lem ((true, none) ∷ rounds) fds h = accept_rcon_lem rounds fds h.1
accept_rcon_lem ((true, some a) ∷ rounds) fds h =
    let (count, helps, same) = accept_rcon_lem rounds fds h.1 in
    let (one, help) = handle_rcon_client_lem a.bytes in
    let heard = handle_rcon_client true a.bytes in
    rw (close_new a.fd fds h.0) (
      length-append heard (accept_rcon true rounds fds).0 ∙ omega (arith, count, one),
      All-append IsHelp heard (accept_rcon true rounds fds).0 help helps,
      same,
    )

All-IsNew : (rounds : List (Bool × Option Arrival)) → All (IsNew []) rounds
All-IsNew [] = tt
All-IsNew ((running, none) ∷ rounds) = (tt, All-IsNew rounds)
All-IsNew ((running, some a) ∷ rounds) = (refl, All-IsNew rounds)

-- `S` is what the handler changes.
pub record RconServer (S : Type 0) : Type 0 where
  pub password : Text
  pub command_handler : Option (Text → S → S)

module _ {S : Type 0} where
  unfoldable pub set_password : Text → RconServer S → RconServer S
  set_password password server = record server { password = password }

  unfoldable pub on_command : (Text → S → S) → RconServer S → RconServer S
  on_command handler server = record server { command_handler = some handler }

  abbrev pub has_handler : RconServer S → Bool
  has_handler server = elim server.command_handler [ none ↦ false | some _ ↦ true ]

  unfoldable pub run_commands : Option (Text → S → S) → List Text → S → S
  run_commands handler [] s = s
  run_commands handler (command ∷ commands) s =
      run_commands handler commands (elim handler [ none ↦ s | some run ↦ run command s ])

  -- What the turns of AcceptLoop make of the state.
  unfoldable pub serve : RconServer S → List (Bool × Option Arrival) → S → S
  unfolding run_commands accept_rcon
  serve server rounds s =
      run_commands server.command_handler (accept_rcon (has_handler server) rounds []).0 s

  repeat : (Text → S → S) → ℕ → S → S
  repeat run zero s = s
  repeat run (suc n) s = repeat run n (run (codes "help") s)

  run_commands-repeat :
      (run : Text → S → S) (commands : List Text) (s : S)
      → All IsHelp commands
      → run_commands (some run) commands s ≡ repeat run (length commands) s
  unfolding run_commands repeat
  run_commands-repeat run [] s h = refl
  run_commands-repeat run (command ∷ commands) s h =
      rw h.0 (run_commands-repeat run commands (run (codes "help") s) h.1)

  -- A server runs `help` once for each connection that sends a byte, whichever password is set.
  serve_lem :
      (server : RconServer S) (password : Text) (run : Text → S → S)
      (rounds : List (Bool × Option Arrival)) (s : S)
      → serve (set_password password (on_command run server)) rounds s
        ≡ repeat run (speakers rounds) s
  unfolding serve set_password on_command
  serve_lem server password run rounds s =
      let (count, helps, same) = accept_rcon_lem rounds [] (All-IsNew rounds) in
      run_commands-repeat run (accept_rcon true rounds []).0 s helps
      ∙ ap (λ n. repeat run n s) count

-- ===== src/Sockets/Descriptors.antt =====
-- The descriptors that Start and Stop of the servers open and close.
use mcx.Prelude.{
  ℕ, ◌≡◌, refl, ap, ◌∙◌, true, false, none, some, List, [], ◌∷◌, arith, Option-cases, Bool-cases,
  inl, inr,
}
use mcx.Sockets.{System, Listener, close, is_open, start_web_socket, start_rcon, stop_listener}

close_absent : (fd : ℕ) (fds : List ℕ) → is_open fd fds ≡ false → close fd fds ≡ fds
close_absent fd [] h = refl
close_absent fd (other ∷ fds) h = ground (arith, h, close_absent fd fds)

pub close_new : (fd : ℕ) (fds : List ℕ) → is_open fd fds ≡ false → close fd (fd ∷ fds) ≡ fds
close_new fd fds h = ground (arith, close_absent fd fds h)

is_open_closed : (fd : ℕ) (fds : List ℕ) → is_open fd (close fd fds) ≡ false
is_open_closed fd [] = refl
is_open_closed fd (other ∷ fds) = ground (arith, is_open_closed fd fds)

abbrev stopped : Listener × List ℕ → List ℕ
stopped r = (stop_listener r.0 r.1).1

module _ (system : System) where
  start_none :
      (server : Listener) (fds : List ℕ)
      → system.socket fds ≡ none
      → start_web_socket system server fds ≡ (record server { server_fd = none }, fds)
  unfolding start_web_socket
  start_none server fds s = rw (start_web_socket, s) refl

  start_unbound :
      (server : Listener) (fds : List ℕ) (fd : ℕ)
      → system.socket fds ≡ some fd
      → is_open fd fds ≡ false
      → system.binds server.port ≡ false
      → start_web_socket system server fds ≡ (record server { server_fd = some fd }, fds)
  unfolding start_web_socket
  start_unbound server fds fd s new b =
      rw (start_web_socket, s, b)
        (ap (λ l. (record server { server_fd = some fd }, l)) (close_new fd fds new))

  start_deaf :
      (server : Listener) (fds : List ℕ) (fd : ℕ)
      → system.socket fds ≡ some fd
      → is_open fd fds ≡ false
      → system.binds server.port ≡ true
      → system.listens ≡ false
      → start_web_socket system server fds ≡ (record server { server_fd = some fd }, fds)
  unfolding start_web_socket
  start_deaf server fds fd s new b l =
      rw (start_web_socket, s, b, l)
        (ap (λ k. (record server { server_fd = some fd }, k)) (close_new fd fds new))

  start_listening :
      (server : Listener) (fds : List ℕ) (fd : ℕ)
      → system.socket fds ≡ some fd
      → system.binds server.port ≡ true
      → system.listens ≡ true
      → start_web_socket system server fds
        ≡ (record server { server_fd = some fd; running = true }, fd ∷ fds)
  unfolding start_web_socket
  start_listening server fds fd s b l = rw (start_web_socket, s, b, l) refl

  start_rcon_bound :
      (server : Listener) (fds : List ℕ) (fd : ℕ)
      → system.socket fds ≡ some fd
      → system.binds server.port ≡ true
      → start_rcon system server fds
        ≡ (record server { server_fd = some fd; running = true }, fd ∷ fds)
  unfolding start_rcon
  start_rcon_bound server fds fd s b = rw (start_rcon, s, b) refl

  -- Start and then Stop of a WebSocketServer leaves open what was open before, however far Start came.
  stop_listener-start_web_socket :
      (server : Listener) (fds : List ℕ)
      → ((fd : ℕ) → system.socket fds ≡ some fd → is_open fd fds ≡ false)
      → (stop_listener
          (start_web_socket system server fds).0
          (start_web_socket system server fds).1).1
        ≡ fds
  unfolding stop_listener
  stop_listener-start_web_socket server fds new = elim (Option-cases (system.socket fds)) [
    | inl s ↦ ap stopped (start_none server fds s)
    | inr (fd, s) ↦ elim (Bool-cases (system.binds server.port)) [
      | inl b ↦ elim (Bool-cases system.listens) [
        | inl l ↦ ap stopped (start_listening server fds fd s b l) ∙ close_new fd fds (new fd s)
        | inr l ↦
            ap stopped (start_deaf server fds fd s (new fd s) b l) ∙ close_absent fd fds (new fd s)
      ]
      | inr b ↦
          ap stopped (start_unbound server fds fd s (new fd s) b) ∙ close_absent fd fds (new fd s)
    ]
  ]

  -- A WebSocketServer whose Start failed to bind keeps the number of a descriptor that is closed:
  -- where an RconServer is started next and binds, it gets that number, since the same descriptors
  -- are open, and the Stop of the first server closes the socket on which the second one still
  -- listens. The number is one that was not in use.
  stop_listener_closes_other :
      (server rcon : Listener) (fds : List ℕ) (fd : ℕ)
      → system.socket fds ≡ some fd
      → is_open fd fds ≡ false
      → system.binds server.port ≡ false
      → system.binds rcon.port ≡ true
      → let (failed, fds1) = start_web_socket system server fds in
        let (listening, fds2) = start_rcon system rcon fds1 in
        let (stopped, fds3) = stop_listener failed fds2 in
        (listening.running ≡ true)
        × (listening.server_fd ≡ some fd)
        × (is_open fd fds2 ≡ true)
        × (is_open fd fds3 ≡ false)
  unfolding stop_listener
  stop_listener_closes_other server rcon fds fd s new b r =
      let failed = start_unbound server fds fd s new b in
      rw (failed, start_rcon_bound rcon fds fd s r)
        (refl, refl, ground arith, is_open_closed fd (fd ∷ fds))

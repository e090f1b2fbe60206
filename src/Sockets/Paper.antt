-- ===== src/Sockets/Paper.antt =====
-- Listen of src/integration/paper_bridge.cpp as a whole: its socket, its loop and what the callback gets.
use mcx.Prelude.{
  ℕ, ◌≡◌, refl, Bool, true, false, Option, none, some, List, [], ◌∷◌, ◌++◌, if◌then◌else◌, All, map,
  Option-cases, Bool-cases, inl, inr,
}
use mcx.Prelude.Text.{Text}
use mcx.Sockets.{System, close, is_open, listen_paper, paper_event}
use mcx.Sockets.Client.{Arrival, IsNew}
use mcx.Sockets.Descriptors.{close_new}

-- What `recv` put into the buffer; where it fails, that is nothing, and its result is not read.
abbrev pub received_text : Arrival → Text
received_text a = elim a.bytes [ none ↦ [] | some bytes ↦ bytes ]

-- The loop, over what a turn reads of the flag and whether a connection is accepted in it: what the
-- callback is called with, and the descriptors that are open.
unfoldable pub paper_rounds :
    Bool → List (Bool × Option Arrival) → List ℕ → List (Option Text) × List ℕ
unfolding paper_event
paper_rounds has_callback [] fds = ([], fds)
paper_rounds has_callback ((running, none) ∷ rounds) fds =
    let rest = paper_rounds has_callback rounds fds in if running then rest else ([], fds)
paper_rounds has_callback ((running, some a) ∷ rounds) fds =
    let rest = paper_rounds has_callback rounds (close a.fd (a.fd ∷ fds)) in
    let event = if has_callback then paper_event (received_text a) ∷ [] else [] in
    if running then (event ++ rest.0, rest.1) else ([], fds)

-- Behind the loop, the socket that it listened on is closed.
unfoldable pub listen_on :
    Bool → List (Bool × Option Arrival) → Option ℕ × List ℕ → List (Option Text) × List ℕ
unfolding paper_rounds
listen_on has_callback rounds (none, fds) = ([], fds)
listen_on has_callback rounds (some fd, fds) =
    let (events, after) = paper_rounds has_callback rounds fds in (events, close fd after)

unfoldable pub listen :
    System → ℕ → Bool → List (Bool × Option Arrival) → List ℕ → List (Option Text) × List ℕ
unfolding listen_paper listen_on
listen system port has_callback rounds fds =
    listen_on has_callback rounds (listen_paper system port fds)

-- The connections that are accepted before the flag is low.
abbrev pub accepted : List (Bool × Option Arrival) → List Arrival
accepted [] = []
accepted ((false, arrival) ∷ rounds) = []
accepted ((true, none) ∷ rounds) = accepted rounds
accepted ((true, some a) ∷ rounds) = a ∷ accepted rounds

paper_rounds_lem :
    (rounds : List (Bool × Option Arrival)) (fds : List ℕ)
    → All (IsNew fds) rounds
    → paper_rounds true rounds fds
      ≡ (map (λ a. paper_event (received_text a)) (accepted rounds), fds)
unfolding paper_rounds
paper_rounds_lem [] fds h = refl
paper_rounds_lem ((false, none) ∷ rounds) fds h = refl
paper_rounds_lem ((false, some a) ∷ rounds) fds h = refl
paper_rounds_lem ((true, none) ∷ rounds) fds h = paper_rounds_lem rounds fds h.1
paper_rounds_lem ((true, some a) ∷ rounds) fds h =
    rw (close_new a.fd fds h.0, paper_rounds_lem rounds fds h.1) refl

module _ (system : System) where
  -- With a callback, Listen calls it once for each connection that it accepts while the flag is up,
  -- in their order, with what it read of it, also where it read nothing; and it calls nothing where no
  -- socket listens. It leaves open what was open on each path. A new descriptor has a number
  -- that is not in use.
  pub listen_lem :
      (port : ℕ) (rounds : List (Bool × Option Arrival)) (fds : List ℕ)
      → ((fd : ℕ) → system.socket fds ≡ some fd → is_open fd fds ≡ false)
      → ((fd : ℕ) → system.socket fds ≡ some fd → All (IsNew (fd ∷ fds)) rounds)
      → let (events, opened) = listen system port true rounds fds in
        (opened ≡ fds)
        × (events ≡ elim (listen_paper system port fds).0 [
          | none ↦ []
          | some fd ↦ map (λ a. paper_event (received_text a)) (accepted rounds)
        ])
  unfolding listen listen_on listen_paper
  listen_lem port rounds fds new fresh = elim (Option-cases (system.socket fds)) [
    | inl s ↦ rw (listen, listen_paper, s) (refl, refl)
    | inr (fd, s) ↦
        let closed = close_new fd fds (new fd s) in
        elim (Bool-cases (system.binds port)) [
          | inr b ↦ rw (listen, listen_paper, s, b) (closed, refl)
          | inl b ↦ elim (Bool-cases system.listens) [
            | inr l ↦ rw (listen, listen_paper, s, b, l) (closed, refl)
            | inl l ↦
                let heard = paper_rounds_lem rounds (fd ∷ fds) (fresh fd s) in
                rw (listen, listen_paper, s, b, l, heard) (closed, refl)
          ]
        ]
  ]

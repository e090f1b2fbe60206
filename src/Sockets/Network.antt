-- ===== src/Sockets/Network.antt =====
-- NetworkBridge of src/integration/network_bridge.cpp: its calls, and IoLoop a turn at a time.
use mcx.Prelude.{
  ℕ, ◌+◌, ◌-◌, ◌≤◌, ◌≡◌, refl, ◌∙◌, Bool, true, false, ◌==◌, Option, none, some, List, [], ◌∷◌,
  ◌++◌, arith, if◌then◌else◌, if_either, All,
}
use mcx.Prelude.Text.{Text}
use mcx.Sockets.{close, is_open}

-- Where the thread is: it was not started or was joined, it is at the test of the loop, at that of
-- `connected_`, at the queue, or it has ended and waits for the join.
pub data Place : Type 0 where
  absent tests tries drains ended : Place

-- `opened` is the open descriptors of the process: no member keeps the one of a connection.
pub record NetworkBridge : Type 0 where
  pub running : Bool
  pub connected : Bool
  pub send_queue : List Text
  pub place : Place
  pub opened : List ℕ

abbrev pub make_bridge : List ℕ → NetworkBridge
make_bridge fds = record {
  running = false;
  connected = false;
  send_queue = [];
  place = absent;
  opened = fds;
}

-- `none` is std::terminate: a thread is assigned over one that can be joined.
unfoldable pub start : NetworkBridge → Option NetworkBridge
start bridge = elim bridge.place [
  | absent ↦ some (record bridge { running = true; place = tests })
  | tests ↦ none
  | tries ↦ none
  | drains ↦ none
  | ended ↦ none
]

unfoldable pub send : Text → NetworkBridge → NetworkBridge
send packet bridge = record bridge { send_queue = bridge.send_queue ++ (packet ∷ []) }

unfoldable pub disconnect : NetworkBridge → NetworkBridge
disconnect bridge = record bridge { connected = false }

-- Of Stop behind Disconnect: it returns, the thread joined, or `none` where it still waits.
unfoldable pub join : NetworkBridge → Option NetworkBridge
join bridge = elim bridge.place [
  | absent ↦ some bridge
  | tests ↦ none
  | tries ↦ none
  | drains ↦ none
  | ended ↦ some (record bridge { place = absent })
]

-- With what `socket` gives, and whether `connect` succeeds.
unfoldable pub connect : Option ℕ → Bool → NetworkBridge → Bool × NetworkBridge
connect none succeeds bridge = (false, bridge)
connect (some fd) true bridge =
    (true, record bridge { connected = true; opened = fd ∷ bridge.opened })
connect (some fd) false bridge = (false, record bridge { opened = close fd (fd ∷ bridge.opened) })

-- A turn of IoLoop, with the answers of the system to a Connect in it.
unfoldable pub thread_turn : Place → Option ℕ → Bool → NetworkBridge → NetworkBridge
unfolding connect
thread_turn absent socket succeeds bridge = bridge
thread_turn tests socket succeeds bridge = record bridge {
  place = if bridge.running then tries else ended;
}
thread_turn tries socket succeeds bridge =
    let (result, tried) = connect socket succeeds bridge in
    if bridge.connected
    then record bridge { place = drains }
    else record tried { place = if result then drains else tests }
thread_turn drains socket succeeds bridge = record bridge { send_queue = []; place = tests }
thread_turn ended socket succeeds bridge = bridge

-- A turn of the thread, the store of Stop, Disconnect, and a call of Send.
pub data Turn : Type 0 where
  thread : Option ℕ → Bool → Turn
  lower drop : Turn
  add_packet : Text → Turn

unfoldable pub step : Turn → NetworkBridge → NetworkBridge
unfolding thread_turn disconnect send
step (thread socket succeeds) bridge = thread_turn bridge.place socket succeeds bridge
step lower bridge = record bridge { running = false }
step drop bridge = disconnect bridge
step (add_packet packet) bridge = send packet bridge

unfoldable pub steps : List Turn → NetworkBridge → NetworkBridge
unfolding step
steps [] bridge = bridge
steps (t ∷ ts) bridge = steps ts (step t bridge)

-- How many turns the thread takes at most, where the flag is low.
abbrev left : Place → ℕ
left absent = 0
left tests = 1
left tries = 3
left drains = 2
left ended = 0

abbrev pub threads : List Turn → ℕ
threads [] = 0
threads (thread socket succeeds ∷ ts) = 1 + threads ts
threads (lower ∷ ts) = threads ts
threads (drop ∷ ts) = threads ts
threads (add_packet packet ∷ ts) = threads ts

-- The flag is low, and the thread takes at most `n` turns more.
abbrev IsNear : ℕ → NetworkBridge → Type 0
IsNear n bridge = (bridge.running ≡ false) × (left bridge.place ≤ n)

connect-IsNear :
    (socket : Option ℕ) (succeeds : Bool) (bridge : NetworkBridge)
    → bridge.running ≡ false
    → let (result, tried) = connect socket succeeds bridge in
      IsNear 2 (record tried { place = if result then drains else tests })
unfolding connect
connect-IsNear none succeeds bridge r = (r, omega arith)
connect-IsNear (some fd) true bridge r = (r, omega arith)
connect-IsNear (some fd) false bridge r = (r, omega arith)

-- A turn of the thread behind the store of Stop.
thread_turn-left :
    (place : Place) (socket : Option ℕ) (succeeds : Bool) (bridge : NetworkBridge)
    → bridge.place ≡ place
    → bridge.running ≡ false
    → IsNear (left place - 1) (thread_turn place socket succeeds bridge)
unfolding thread_turn connect
thread_turn-left absent socket succeeds bridge p r = (r, rw p (omega arith))
thread_turn-left tests socket succeeds bridge p r = (r, rw r (omega arith))
thread_turn-left tries socket succeeds bridge p r =
    if_either (IsNear 2) bridge.connected (r, omega arith) (connect-IsNear socket succeeds bridge r)
thread_turn-left drains socket succeeds bridge p r = (r, omega arith)
thread_turn-left ended socket succeeds bridge p r = (r, rw p (omega arith))

steps-left :
    (ts : List Turn) (bridge : NetworkBridge)
    → bridge.running ≡ false
    → left (steps ts bridge).place ≤ left bridge.place - threads ts
unfolding steps step disconnect send
steps-left [] bridge r = omega arith
steps-left (thread socket succeeds ∷ ts) bridge r =
    let (low, less) = thread_turn-left bridge.place socket succeeds bridge refl r in
    let rest = steps-left ts (thread_turn bridge.place socket succeeds bridge) low in
    omega (arith, less, rest)
steps-left (lower ∷ ts) bridge r = steps-left ts (step lower bridge) refl
steps-left (drop ∷ ts) bridge r = steps-left ts (step drop bridge) r
steps-left (add_packet packet ∷ ts) bridge r = steps-left ts (step (add_packet packet) bridge) r

joined :
    (place : Place) (bridge : NetworkBridge)
    → bridge.place ≡ place
    → left place ≡ 0
    → (after : NetworkBridge) × (join bridge ≡ some after)
unfolding join
joined absent bridge p h = (bridge, rw p refl)
joined tests bridge p h = absurd (omega (arith, h))
joined tries bridge p h = absurd (omega (arith, h))
joined drains bridge p h = absurd (omega (arith, h))
joined ended bridge p h = (record bridge { place = absent }, rw p refl)

left_le : (place : Place) → left place ≤ 3
left_le absent = omega arith
left_le tests = omega arith
left_le tries = omega arith
left_le drains = omega arith
left_le ended = omega arith

-- Behind the store of Stop, Stop returns after any turns of which three are of the thread, wherever
-- the thread is, whatever the system answers, and whatever is called meanwhile.
pub stop_ends :
    (ts : List Turn) (bridge : NetworkBridge)
    → 3 ≤ threads ts
    → (after : NetworkBridge) × (join (steps (lower ∷ ts) bridge) ≡ some after)
unfolding steps step
stop_ends ts bridge h =
    let low = step lower bridge in
    let few = steps-left ts low refl in
    joined (steps ts low).place (steps ts low) refl (omega (arith, few, h, left_le low.place))

-- A Stop that runs while the thread is between its two tests: where the Connect then succeeds, the
-- thread ends and Stop returns, but IsConnected is true from then on and the socket stays open.
pub stop_connects :
    (bridge : NetworkBridge) (fd : ℕ) (s1 s2 : Option ℕ) (c1 c2 : Bool)
    → bridge.place ≡ tries
    → let ts = lower ∷ drop ∷ thread (some fd) true ∷ thread s1 c1 ∷ thread s2 c2 ∷ [] in
      let after = steps ts bridge in
      (after.place ≡ ended) × (after.connected ≡ true) × (after.opened ≡ fd ∷ bridge.opened)
unfolding steps step thread_turn connect disconnect
stop_connects bridge fd s1 s2 c1 c2 p = rw (p, step) (refl, refl, refl)

-- The system does not give that descriptor.
abbrev pub IsOther : ℕ → Turn → Type 0
IsOther fd (thread none succeeds) = Unit
IsOther fd (thread (some other) succeeds) = (fd == other) ≡ false
IsOther fd lower = Unit
IsOther fd drop = Unit
IsOther fd (add_packet packet) = Unit

close_other :
    (fd other : ℕ) (fds : List ℕ)
    → (fd == other) ≡ false
    → is_open fd (close other fds) ≡ is_open fd fds
close_other fd other [] h = refl
close_other fd other (x ∷ fds) h = ground (arith, h, close_other fd other fds h)

connect_keeps :
    (fd : ℕ) (socket : Option ℕ) (succeeds : Bool) (bridge : NetworkBridge)
    → IsOther fd (thread socket succeeds)
    → is_open fd bridge.opened ≡ true
    → is_open fd (connect socket succeeds bridge).1.opened ≡ true
unfolding connect
connect_keeps fd none succeeds bridge h o = o
connect_keeps fd (some other) true bridge h o = ground (arith, h, o)
connect_keeps fd (some other) false bridge h o =
    close_other fd other (other ∷ bridge.opened) h ∙ ground (arith, h, o)

thread_turn_keeps :
    (fd : ℕ) (place : Place) (socket : Option ℕ) (succeeds : Bool) (bridge : NetworkBridge)
    → IsOther fd (thread socket succeeds)
    → is_open fd bridge.opened ≡ true
    → is_open fd (thread_turn place socket succeeds bridge).opened ≡ true
unfolding thread_turn
thread_turn_keeps fd absent socket succeeds bridge h o = o
thread_turn_keeps fd tests socket succeeds bridge h o = o
thread_turn_keeps fd tries socket succeeds bridge h o =
    if_either (λ (b : NetworkBridge). is_open fd b.opened ≡ true) bridge.connected o
      (connect_keeps fd socket succeeds bridge h o)
thread_turn_keeps fd drains socket succeeds bridge h o = o
thread_turn_keeps fd ended socket succeeds bridge h o = o

-- A socket that is open stays open under any turns, Stop among them: no call and no turn closes the
-- socket of a connection. The system gives no number that is in use.
pub steps_keep :
    (ts : List Turn) (fd : ℕ) (bridge : NetworkBridge)
    → All (IsOther fd) ts
    → is_open fd bridge.opened ≡ true
    → is_open fd (steps ts bridge).opened ≡ true
unfolding steps step disconnect send
steps_keep [] fd bridge h o = o
steps_keep (thread socket succeeds ∷ ts) fd bridge h o =
    steps_keep ts fd (step (thread socket succeeds) bridge) h.1
      (thread_turn_keeps fd bridge.place socket succeeds bridge h.0 o)
steps_keep (lower ∷ ts) fd bridge h o = steps_keep ts fd (step lower bridge) h.1 o
steps_keep (drop ∷ ts) fd bridge h o = steps_keep ts fd (step drop bridge) h.1 o
steps_keep (add_packet packet ∷ ts) fd bridge h o =
    steps_keep ts fd (step (add_packet packet) bridge) h.1 o

-- ===== src/Launchers/Imgui/Lives.antt =====
-- How long a thread of StartServer lives.
use mcx.Prelude.{
  ℕ, zero, suc, subst, ◌+◌, ◌-◌, ◌*◌, ◌≤◌, ◌≡◌, ◌≢◌, refl, sym, ap, ◌∙◌, some, List, [], ◌∷◌, ◌++◌,
  arith, inl, inr, ◌==◌, get_elem?, set, get_elem?-set_self, get_elem?-set_other, Option-cases,
  if◌then◌else◌, if_either,
}
use native.Mathlib.Decide.{ℕ_discrete}
use mcx.Launchers.Imgui.Ensures.{Ensures, Ensures->>=, Ensures_some}
use mcx.Launchers.Imgui.Console.{Launcher}
use mcx.Launchers.Imgui.System.{
  System, ServerThread, says_started, says_port, tests, sleeps, wakes, says_beat, ended,
  server_turn, load, start_server, stop_server, check_for_updates,
}
use mcx.Launchers.Imgui.Ui.{
  Action, start_item, stop_item, check_item, load_item, start_button, stop_button, restart_button,
  check_button, load_button, user, server, update, clock, Turn, on_launcher, load_in, if_stopped,
  if_running, if_idle, restart, act, turn_server, turn_update, step, steps,
}

-- The turns that a thread has left, at most.
abbrev pub turns_left : ServerThread → ℕ
turns_left says_started = 23
turns_left says_port = 22
turns_left (tests i) = 4 * (5 - i) + 1
turns_left (sleeps i) = 4 * (4 - i) + 4
turns_left (wakes i) = 4 * (4 - i) + 3
turns_left (says_beat i) = 4 * (4 - i) + 2
turns_left ended = 0

server_turn_falls :
    (t : ServerThread) (l : Launcher) → turns_left (server_turn t l).0 ≤ turns_left t - 1
unfolding server_turn
server_turn_falls says_started l = omega arith
server_turn_falls says_port l = omega arith
server_turn_falls (tests i) l = ground arith
server_turn_falls (sleeps i) l = omega arith
server_turn_falls (wakes i) l = ground arith
server_turn_falls (says_beat i) l = omega arith
server_turn_falls ended l = omega arith

-- The thread in place `k` stands at `t`.
abbrev pub Stands : ℕ → ServerThread → System → Type 0
Stands k t s = get_elem? s.server_threads k ≡ some t

get_elem?-append :
    (k : ℕ) (ts us : List ServerThread) {t : ServerThread}
    → get_elem? ts k ≡ some t
    → get_elem? (ts ++ us) k ≡ some t
get_elem?-append k [] us h = cc
get_elem?-append zero (x ∷ ts) us h = h
get_elem?-append (suc k) (x ∷ ts) us h = get_elem?-append k ts us h

start_server-Stands :
    (k : ℕ) (t : ServerThread) (s : System) → Stands k t s → Stands k t (start_server s)
unfolding start_server
start_server-Stands k t s h =
    if_either (Stands k t) s.launcher.server_running h
      (get_elem?-append k s.server_threads (says_started ∷ []) h)

stop_server-Stands :
    (k : ℕ) (t : ServerThread) (s : System) → Stands k t s → Stands k t (stop_server s)
unfolding stop_server
stop_server-Stands k t s h = if_either (Stands k t) s.launcher.server_running h h

check_for_updates-Stands :
    (k : ℕ) (t : ServerThread) (s : System) → Stands k t s → Stands k t (check_for_updates s)
unfolding check_for_updates
check_for_updates-Stands k t s h = if_either (Stands k t) s.launcher.checking_update h h

load_in-Stands :
    (k : ℕ) (t : ServerThread) (s : System) → Stands k t s → Ensures (Stands k t) (load_in s)
unfolding load_in
load_in-Stands k t s h = elim (Option-cases (load s.launcher)) [
  | inl fault ↦ rw (fault, load_in) tt
  | inr (l, e) ↦ rw (e, load_in) h
]

-- No control moves a thread.
pub act-Stands :
    (a : Action) (k : ℕ) (t : ServerThread) (s : System)
    → Stands k t s
    → Ensures (Stands k t) (act a s)
unfolding act if_stopped if_running if_idle restart on_launcher
act-Stands start_item k t s h = if_either (Stands k t) _ h (start_server-Stands k t s h)
act-Stands stop_item k t s h = if_either (Stands k t) _ (stop_server-Stands k t s h) h
act-Stands check_item k t s h = check_for_updates-Stands k t s h
act-Stands load_item k t s h = load_in-Stands k t s h
act-Stands start_button k t s h = if_either (Stands k t) _ h (start_server-Stands k t s h)
act-Stands stop_button k t s h = if_either (Stands k t) _ (stop_server-Stands k t s h) h
act-Stands restart_button k t s h = start_server-Stands k t _ (stop_server-Stands k t s h)
act-Stands check_button k t s h = if_either (Stands k t) _ h (check_for_updates-Stands k t s h)
act-Stands load_button k t s h =
    Ensures->>= (Stands k t) (Stands k t) (load_in s) _ (load_in-Stands k t s h) (λ u e. e)
act-Stands _ k t s h = h

turn_update-Stands :
    (j k : ℕ) (t : ServerThread) (s : System) → Stands k t s → Stands k t (turn_update j s)
unfolding turn_update
turn_update-Stands j k t s h = elim (Option-cases (get_elem? s.update_threads j)) [
  | inl absent ↦ rw (absent, turn_update) h
  | inr (u, e) ↦ rw (e, turn_update) h
]

turn_server-Stands_other :
    (j k : ℕ) (t : ServerThread) (s : System) → j ≢ k → Stands k t s → Stands k t (turn_server j s)
unfolding turn_server
turn_server-Stands_other j k t s ne h = elim (Option-cases (get_elem? s.server_threads j)) [
  | inl absent ↦ rw (absent, turn_server) h
  | inr (u, e) ↦
      rw (e, turn_server)
        (get_elem?-set_other s.server_threads j k (server_turn u s.launcher).0 ne ∙ h)
]

pub turn_server_at :
    (k : ℕ) (t : ServerThread) (s : System)
    → Stands k t s
    → turn_server k s ≡ record s {
      launcher = (server_turn t s.launcher).1;
      server_threads = set s.server_threads k (server_turn t s.launcher).0;
    }
unfolding turn_server
turn_server_at k t s h = rw (h, turn_server) refl

pub turn_server-Stands :
    (k : ℕ) (t : ServerThread) (s : System)
    → Stands k t s
    → Stands k (server_turn t s.launcher).0 (turn_server k s)
turn_server-Stands k t s h =
    rw (turn_server_at k t s h)
      (get_elem?-set_self s.server_threads k (server_turn t s.launcher).0 h)

-- Whether a turn is one of the thread in place `k`.
abbrev pub turn_of : ℕ → Turn → ℕ
turn_of k (server j) = if j == k then 1 else 0
turn_of k _ = 0

abbrev pub turns_of : ℕ → List Turn → ℕ
turns_of k [] = 0
turns_of k (t ∷ ts) = turn_of k t + turns_of k ts

-- The thread is at a place with at most `n` turns left.
abbrev Within : ℕ → ℕ → System → Type 0
Within k n s = (t : ServerThread) × Stands k t s × (turns_left t ≤ n)

act-Within : (a : Action) (k n : ℕ) (s : System) → Within k n s → Ensures (Within k n) (act a s)
act-Within a k n s (t, e, le) = elim (Option-cases (act a s)) [
  | inl fault ↦ rw fault tt
  | inr (u, d) ↦ rw d (t, Ensures_some (Stands k t) (act a s) d (act-Stands a k t s e), le)
]

turn_server-Within :
    (j k n : ℕ) (s : System) → Within k n s → Within k (n - turn_of k (server j)) (turn_server j s)
turn_server-Within j k n s (t, e, le) = elim (ℕ_discrete j k) [
  | yes same ↦
      subst (λ i. Within k (n - turn_of k (server i)) (turn_server i s)) (sym same)
        (
          (server_turn t s.launcher).0,
          turn_server-Stands k t s e,
          ground (arith, server_turn_falls t s.launcher),
        )
  | no other ↦ (t, turn_server-Stands_other j k t s other e, ground (arith, other))
]

step-Within :
    (x : Turn) (k n : ℕ) (s : System)
    → Within k n s
    → Ensures (Within k (n - turn_of k x)) (step x s)
unfolding step on_launcher
step-Within (user a) k n s w =
    subst (λ m. Ensures (Within k m) (act a s)) (omega arith) (act-Within a k n s w)
step-Within (server j) k n s w = turn_server-Within j k n s w
step-Within (update j) k n s (t, e, le) = (t, turn_update-Stands j k t s e, omega arith)
step-Within (clock m) k n s (t, e, le) = (t, e, omega arith)

steps-Within :
    (ts : List Turn) (k n : ℕ) (s : System)
    → Within k n s
    → Ensures (Within k (n - turns_of k ts)) (steps ts s)
unfolding steps
steps-Within [] k n s w = subst (λ m. Within k m s) (omega arith) w
steps-Within (x ∷ ts) k n s w =
    Ensures->>= (Within k (n - turn_of k x)) (Within k (n - turns_of k (x ∷ ts))) (step x s)
      (steps ts) (step-Within x k n s w)
      λ u v.
        subst (λ m. Ensures (Within k m) (steps ts u)) (omega arith)
          (steps-Within ts k (n - turn_of k x) u v)

ended_of_none_left : (t : ServerThread) → turns_left t ≤ 0 → t ≡ ended
ended_of_none_left says_started h = absurd (omega arith)
ended_of_none_left says_port h = absurd (omega arith)
ended_of_none_left (tests i) h = absurd (omega arith)
ended_of_none_left (sleeps i) h = absurd (omega arith)
ended_of_none_left (wakes i) h = absurd (omega arith)
ended_of_none_left (says_beat i) h = absurd (omega arith)
ended_of_none_left ended h = refl

-- A thread of StartServer ends: whatever the user and the other threads do in between, after as many
-- turns of its own as `turns_left` gives for its place, 23 at its start, it stands at its end.
pub steps-ended :
    (ts : List Turn) (k : ℕ) (t : ServerThread) (s : System) {u : System}
    → get_elem? s.server_threads k ≡ some t
    → turns_left t ≤ turns_of k ts
    → steps ts s ≡ some u
    → get_elem? u.server_threads k ≡ some ended
steps-ended ts k t s h le e =
    let (t', stands, left) =
      Ensures_some (Within k (turns_left t - turns_of k ts)) (steps ts s) e
        (steps-Within ts k (turns_left t) s (t, h, omega arith)) in
    stands ∙ ap some (ended_of_none_left t' (omega arith))

-- ===== src/Launchers/Imgui/Sound.antt =====
-- What a turn of a thread keeps of the members.
use mcx.Prelude.{
  ℕ, suc, ◌+◌, ◌≤◌, ◌≡◌, refl, ap, sym, ◌∙◌, zero, Bool, true, false, ◌&&◌, leb, Bool-cases,
  if_either, some, List, [], ◌∷◌, arith, inl, inr, length, get_elem?, set, weigh, weigh-set,
  Option-cases,
}
use mcx.Prelude.Text.{Text}
use mcx.Launchers.Imgui.Console.{Launcher, append_console}
use mcx.Launchers.Imgui.Tail.{length-push_line-le}
use mcx.Launchers.Imgui.System.{
  System, ServerThread, says_started, says_port, tests, sleeps, wakes, says_beat, ended,
  UpdateThread, counts, waits, names_version, names_url, compares, reports, lowers, done,
  server_turn, update_turn,
}
use mcx.Launchers.Imgui.Ui.{turn_server, turn_update}

-- The threads of CheckForUpdates that have not ended.
abbrev pub live : UpdateThread → ℕ
live done = 0
live _ = 1

abbrev pub flag : Bool → ℕ
flag true = 1
flag false = 0

-- The console is within its bound, the progress is a percentage, and a check runs in one thread
-- exactly where `checking_update_` is set.
pub record IsValid (s : System) : Type 0 where
  pub console : length s.launcher.console_lines ≤ 1000
  pub progress : s.launcher.update_progress ≤ 100
  pub one_check : weigh live s.update_threads ≡ flag s.launcher.checking_update

-- The parts of the invariant that the members give alone.
pub record IsSound (l : Launcher) : Type 0 where
  pub lines : length l.console_lines ≤ 1000
  pub percent : l.update_progress ≤ 100

-- `l'` is sound and has the flag of `l`.
abbrev pub Steady : Launcher → Launcher → Type 0
Steady l l' = IsSound l' × (l'.checking_update ≡ l.checking_update)

pub append_console-Steady :
    (text color : Text) (l : Launcher) → IsSound l → Steady l (append_console text color l)
unfolding append_console
append_console-Steady text color l h = (
  record {
    lines =
        length-push_line-le (record { text = text; color = color; timestamp = l.time })
          l.console_lines h.lines;
    percent = h.percent;
  },
  refl,
)

server_turn-Steady : (t : ServerThread) (l : Launcher) → IsSound l → Steady l (server_turn t l).1
unfolding server_turn
server_turn-Steady says_started l h = append_console-Steady _ _ l h
server_turn-Steady says_port l h = append_console-Steady _ _ l h
server_turn-Steady (tests i) l h = (h, refl)
server_turn-Steady (sleeps i) l h = (h, refl)
server_turn-Steady (wakes i) l h = (h, refl)
server_turn-Steady (says_beat i) l h = append_console-Steady _ _ l h
server_turn-Steady ended l h = (h, refl)

-- A turn of a check lowers the flag exactly where the thread ends.
abbrev Counts : UpdateThread → Launcher → UpdateThread → Launcher → Type 0
Counts t l t' l' = live t' + flag l.checking_update ≡ live t + flag l'.checking_update

update_turn-keeps :
    (t : UpdateThread) (l : Launcher)
    → IsSound l
    → live t ≤ flag l.checking_update
    → IsSound (update_turn t l).1 × Counts t l (update_turn t l).0 (update_turn t l).1
unfolding update_turn
update_turn-keeps (counts i) l h e = elim (Bool-cases (leb i 100 && l.checking_update)) [
  | inl more ↦ rw more (record { lines = h.lines; percent = ground (arith, more) }, refl)
  | inr over ↦ rw over (h, refl)
]
update_turn-keeps (waits i) l h e = (h, refl)
update_turn-keeps names_version l h e = (record { lines = h.lines; percent = h.percent }, refl)
update_turn-keeps names_url l h e = (record { lines = h.lines; percent = h.percent }, refl)
update_turn-keeps compares l h e = (record { lines = h.lines; percent = h.percent }, refl)
update_turn-keeps reports l h e =
    let (sound, same) : Steady l (update_turn reports l).1 =
      if_either (Steady l) l.update_available (append_console-Steady _ _ l h)
        (append_console-Steady _ _ l h) in
    (sound, ap (λ c. 1 + flag c) (sym same))
update_turn-keeps lowers l h e = (record { lines = h.lines; percent = h.percent }, ground arith)
update_turn-keeps done l h e = (h, refl)

weigh_of_member :
    (k : ℕ) (ts : List UpdateThread) {t : UpdateThread}
    → get_elem? ts k ≡ some t
    → live t ≤ weigh live ts
weigh_of_member k [] h = cc
weigh_of_member zero (x ∷ ts) h = ground (arith, h)
weigh_of_member (suc k) (x ∷ ts) h = omega (arith, weigh_of_member k ts h)

pub IsValid-IsSound : (s : System) → IsValid s → IsSound s.launcher
IsValid-IsSound s v = record { lines = v.console; percent = v.progress }

pub turn_update-IsValid : (k : ℕ) (s : System) → IsValid s → IsValid (turn_update k s)
unfolding turn_update
turn_update-IsValid k s v = elim (Option-cases (get_elem? s.update_threads k)) [
  | inl absent ↦ rw (absent, turn_update) v
  | inr (t, e) ↦
      let (sound, counted) =
        update_turn-keeps t s.launcher (IsValid-IsSound s v)
          (omega (arith, weigh_of_member k s.update_threads e, v.one_check)) in
      rw (e, turn_update)
        (record {
          console = sound.lines;
          progress = sound.percent;
          one_check = omega (
            arith,
            counted,
            v.one_check,
            weigh-set live s.update_threads k (update_turn t s.launcher).0 e,
          );
        })
]

-- A change of the members that keeps them sound and the flag as it is.
pub Steady-IsValid :
    (s : System) (l : Launcher) (ts : List ServerThread)
    → IsValid s
    → Steady s.launcher l
    → IsValid (record s { launcher = l; server_threads = ts })
Steady-IsValid s l ts v (sound, same) = record {
  console = sound.lines;
  progress = sound.percent;
  one_check = v.one_check ∙ ap flag (sym same);
}

pub turn_server-IsValid : (k : ℕ) (s : System) → IsValid s → IsValid (turn_server k s)
unfolding turn_server
turn_server-IsValid k s v = elim (Option-cases (get_elem? s.server_threads k)) [
  | inl absent ↦ rw (absent, turn_server) v
  | inr (t, e) ↦
      rw (e, turn_server)
        (Steady-IsValid s (server_turn t s.launcher).1
          (set s.server_threads k (server_turn t s.launcher).0) v
          (server_turn-Steady t s.launcher (IsValid-IsSound s v)))
]

-- ===== src/Launchers/Imgui/Interleaved.antt =====
-- AppendConsole of src/launcher_imgui/mcx_imgui_launcher.cpp, an access to `consoleLines_` at a time. The
-- window and the detached threads call it without a lock; two accesses that overlap are undefined,
-- and here each one is over before the next.
use mcx.Prelude.{
  ℕ, zero, suc, ◌+◌, ◌≤◌, ◌≡◌, refl, inl, inr, Option, none, some, List, [], ◌∷◌, ◌++◌, arith, ltb,
  if◌then◌else◌, if_split, length, length-append, Bool-cases,
}
use mcx.Prelude.Do.{◌>>=◌}
use mcx.Launchers.Imgui.Console.{ConsoleLine, push_line}
use mcx.Launchers.Imgui.Ensures.{Ensures, Ensures->>=, Ensures_some}

-- Where a call stands: before `push_back`, before the test of the size, before `erase`, at the end.
pub data Place : Type 0 where
  pushes : ConsoleLine → Place
  tests erases ended : Place

abbrev pub Console : Type 0
Console = List ConsoleLine

-- One access; `none` is `erase(begin())` of an empty vector, which is undefined.
unfoldable pub access : Place → Console → Option (Place × Console)
access (pushes line) lines = some (tests, lines ++ (line ∷ []))
access tests lines = some (if ltb 1000 (length lines) then erases else ended, lines)
access erases [] = none
access erases (line ∷ lines) = some (ended, lines)
access ended lines = some (ended, lines)

-- The access of the call with that number.
unfoldable pub go : ℕ → List Place → Console → Option (List Place × Console)
unfolding access
go k [] lines = some ([], lines)
go zero (place ∷ calls) lines = do
  (place', lines') ← access place lines
  some (place' ∷ calls, lines')
go (suc k) (place ∷ calls) lines = do
  (calls', lines') ← go k calls lines
  some (place ∷ calls', lines')

-- A thread calls AppendConsole, a call goes on, or the window clears the console.
pub data Turn : Type 0 where
  call : ConsoleLine → Turn
  goes : ℕ → Turn
  clears : Turn

unfoldable pub turn : Turn → List Place × Console → Option (List Place × Console)
unfolding go
turn (call line) (calls, lines) = some (pushes line ∷ calls, lines)
turn (goes k) (calls, lines) = go k calls lines
turn clears (calls, lines) = some (calls, [])

unfoldable pub turns : List Turn → List Place × Console → Option (List Place × Console)
unfolding turn
turns [] s = some s
turns (t ∷ ts) s = do s' ← turn t s; turns ts s'

-- A call that has pushed its line and is not over.
abbrev pub open_at : Place → ℕ
open_at (pushes line) = 0
open_at tests = 1
open_at erases = 1
open_at ended = 0

abbrev pub open_calls : List Place → ℕ
open_calls [] = 0
open_calls (place ∷ calls) = open_at place + open_calls calls

access-length :
    (place : Place) (lines : Console) (n : ℕ)
    → length lines ≤ 1000 + n + open_at place
    → Ensures (λ r. length r.1 ≤ 1000 + n + open_at r.0) (access place lines)
unfolding access
access-length (pushes line) lines n h = omega (arith, h, length-append lines (line ∷ []))
access-length tests lines n h =
    if_split (λ place. length lines ≤ 1000 + n + open_at place) (ltb 1000 (length lines))
      (λ more. h) (λ few. ground (arith, few))
access-length erases [] n h = tt
access-length erases (line ∷ lines) n h = omega (arith, h)
access-length ended lines n h = h

go-length :
    (k : ℕ) (calls : List Place) (lines : Console) (n : ℕ)
    → length lines ≤ 1000 + n + open_calls calls
    → Ensures (λ r. length r.1 ≤ 1000 + n + open_calls r.0) (go k calls lines)
unfolding go
go-length zero [] lines n h = h
go-length (suc k) [] lines n h = h
go-length zero (place ∷ calls) lines n h =
    Ensures->>= (λ r. length r.1 ≤ 1000 + (n + open_calls calls) + open_at r.0)
      (λ r. length r.1 ≤ 1000 + n + open_calls r.0) (access place lines) _
      (access-length place lines (n + open_calls calls) (omega (arith, h))) λ r l. omega (arith, l)
go-length (suc k) (place ∷ calls) lines n h =
    Ensures->>= (λ r. length r.1 ≤ 1000 + (n + open_at place) + open_calls r.0)
      (λ r. length r.1 ≤ 1000 + n + open_calls r.0) (go k calls lines) _
      (go-length k calls lines (n + open_at place) (omega (arith, h))) λ r l. omega (arith, l)

-- The lines are 1000 at most, and one more for each call that is not over.
abbrev IsBounded : List Place × Console → Type 0
IsBounded s = length s.1 ≤ 1000 + open_calls s.0

turn-IsBounded : (t : Turn) (s : List Place × Console) → IsBounded s → Ensures IsBounded (turn t s)
unfolding turn
turn-IsBounded (call line) s h = omega (arith, h)
turn-IsBounded (goes k) s h = go-length k s.0 s.1 0 h
turn-IsBounded clears s h = omega arith

turns-Ensures :
    (ts : List Turn) (s : List Place × Console) → IsBounded s → Ensures IsBounded (turns ts s)
unfolding turns
turns-Ensures [] s h = h
turns-Ensures (t ∷ ts) s h =
    Ensures->>= IsBounded IsBounded (turn t s) (turns ts) (turn-IsBounded t s h) (turns-Ensures ts)

-- However the accesses of any number of calls of AppendConsole take turns, and wherever the console
-- is cleared between them, on each run that is defined the console never has more lines than 1000
-- and one for each call that has pushed its line and is not over; so it has 1000 at most wherever none is.
-- Each access is over before the next begins.
pub turns-length :
    (ts : List Turn) (lines : Console) {calls : List Place} {after : Console}
    → length lines ≤ 1000
    → turns ts ([], lines) ≡ some (calls, after)
    → length after ≤ 1000 + open_calls calls
turns-length ts lines h e =
    Ensures_some IsBounded (turns ts ([], lines)) e
      (turns-Ensures ts ([], lines) (omega (arith, h)))

-- A call that nothing interrupts appends as the other modules have it.
alone :
    (line : ConsoleLine) (lines : Console)
    → turns (call line ∷ goes 0 ∷ goes 0 ∷ goes 0 ∷ []) ([], lines)
      ≡ some (ended ∷ [], push_line line lines)
unfolding turns turn go access push_line
alone line [] = refl
alone line (x ∷ lines) = elim (Bool-cases (ltb 1000 (length (x ∷ (lines ++ (line ∷ [])))))) [
  | inl full ↦ rw full refl
  | inr room ↦ rw room refl
]

-- ===== src/Commands/Console.antt =====
-- The thread of src/core/console.cpp: Start, Stop and ReadLoop, a turn at a time. A line of the input
-- waits until the thread reads it; `std::getline` waits where there is none.
use mcx.Prelude.{
  ◌≡◌, refl, ◌∙◌, none, some, Bool, true, false, Option, List, [], ◌∷◌, ◌++◌, if◌then◌else◌,
  is_empty, All,
}
use mcx.Prelude.Text.{Text}
use mcx.Commands.Parser.{ParsedCommand, parse_command}
use mcx.Commands.Registry.{notify}

-- It was not started or was joined, it is at the test of the loop or in `std::getline`, or it has
-- ended and waits for the join.
pub data Reader : Type 0 where
  absent tests reads ended : Reader

-- `state` is what the handler changes; `is_closed` is the end of the input.
pub record Console (S : Type 0) : Type 0 where
  pub running : Bool
  pub reader : Reader
  pub pending : List Text
  pub is_closed : Bool
  pub handler : Option (ParsedCommand → S → S)
  pub state : S

-- A turn of the thread, the store of Stop, a line that is typed, and the end of the input.
pub data Turn : Type 0 where
  thread lower : Turn
  type : Text → Turn
  close_input : Turn

-- A turn that brings no input.
abbrev pub IsSilent : Turn → Type 0
IsSilent thread = Unit
IsSilent lower = Unit
IsSilent (type line) = ⊥
IsSilent close_input = ⊥

module _ {S : Type 0} where
  unfoldable pub on_command : (ParsedCommand → S → S) → Console S → Console S
  on_command handler c = record c { handler = some handler }

  -- `none` is std::terminate: a thread is assigned over one that can be joined.
  unfoldable pub start : Console S → Option (Console S)
  start c = elim c.reader [
    | absent ↦ some (record c { running = true; reader = tests })
    | tests ↦ none
    | reads ↦ none
    | ended ↦ none
  ]

  -- Of Stop behind its store: it returns, or `none` where it still waits.
  unfoldable pub join : Console S → Option (Console S)
  join c = elim c.reader [
    | absent ↦ some c
    | tests ↦ none
    | reads ↦ none
    | ended ↦ some (record c { reader = absent })
  ]

  unfoldable pub hand_on : Option (ParsedCommand → S → S) → Text → S → S
  hand_on handler line s = if is_empty line then s else notify handler (parse_command line) s

  unfoldable pub read_line : List Text → Console S → Console S
  read_line [] c = if c.is_closed then record c { reader = ended } else c
  read_line (line ∷ lines) c = record c {
    reader = tests;
    pending = lines;
    state = hand_on c.handler line c.state;
  }

  unfoldable pub thread_turn : Reader → Console S → Console S
  unfolding read_line
  thread_turn absent c = c
  thread_turn tests c = record c { reader = if c.running then reads else ended }
  thread_turn reads c = read_line c.pending c
  thread_turn ended c = c

  unfoldable pub step : Turn → Console S → Console S
  unfolding thread_turn
  step thread c = thread_turn c.reader c
  step lower c = record c { running = false }
  step (type line) c = record c { pending = c.pending ++ (line ∷ []) }
  step close_input c = record c { is_closed = true }

  unfoldable pub steps : List Turn → Console S → Console S
  unfolding step
  steps [] c = c
  steps (t ∷ ts) c = steps ts (step t c)

  -- The thread of `c` waits for input behind the store of Stop; the rest is as in `d`.
  abbrev IsWaiting : Console S → Console S → Type 0
  IsWaiting d c =
      (c.reader ≡ reads)
      × (c.pending ≡ [])
      × (c.is_closed ≡ false)
      × (c.running ≡ false)
      × (c.handler ≡ d.handler)
      × (c.state ≡ d.state)

  step-IsWaiting :
      (t : Turn) (d c : Console S) → IsSilent t → IsWaiting d c → IsWaiting d (step t c)
  unfolding step thread_turn read_line
  step-IsWaiting thread d c h (r, p, o, f, g, e) = rw (r, p, o, step) (refl, refl, refl, f, g, e)
  step-IsWaiting lower d c h (r, p, o, f, g, e) = (r, p, o, refl, g, e)
  step-IsWaiting (type line) d c h w = absurd h
  step-IsWaiting close_input d c h w = absurd h

  steps-IsWaiting :
      (ts : List Turn) (d c : Console S)
      → All IsSilent ts
      → IsWaiting d c
      → IsWaiting d (steps ts c)
  unfolding steps
  steps-IsWaiting [] d c h w = w
  steps-IsWaiting (t ∷ ts) d c h w =
      steps-IsWaiting ts d (step t c) h.1 (step-IsWaiting t d c h.0 w)

  -- The line that ends the wait.
  typed :
      (line : Text) (d c : Console S)
      → IsWaiting d c
      → let after = steps (type line ∷ thread ∷ thread ∷ []) c in
        (after.reader ≡ ended) × (after.state ≡ hand_on d.handler line d.state)
  unfolding steps step thread_turn read_line
  typed line d c (r, p, o, f, g, e) = rw (r, p, f, g, e) (refl, refl)

  -- A line that is handed on, each case written out.
  hand_on_lem :
      (handler : Option (ParsedCommand → S → S)) (line : Text) (s : S)
      → hand_on handler line s ≡ (
          if is_empty line
          then s
          else elim handler [ none ↦ s | some handle ↦ handle (parse_command line) s ])
  unfolding hand_on notify
  hand_on_lem none line s = refl
  hand_on_lem (some handle) line s = refl

  -- Stop while the thread waits in getline: whatever turns follow that bring no input, the thread
  -- does not end, so the join does not return, and nothing is handed on; and the line that is typed
  -- behind them is still parsed and handed to the handler, if there is one and the line is not
  -- empty, before the thread ends.
  pub stop_waits :
      (ts : List Turn) (line : Text) (c : Console S)
      → All IsSilent ts
      → c.reader ≡ reads
      → c.pending ≡ []
      → c.is_closed ≡ false
      → let waiting = steps ts (step lower c) in
        let after = steps (type line ∷ thread ∷ thread ∷ []) waiting in
        (waiting.reader ≡ reads)
        × (waiting.state ≡ c.state)
        × (after.reader ≡ ended)
        × (after.state ≡ (
            if is_empty line then c.state else elim c.handler [
              | none ↦ c.state
              | some handle ↦ handle (parse_command line) c.state
            ]))
  unfolding step
  stop_waits ts line c h r p o =
      let w = steps-IsWaiting ts c (step lower c) h (r, p, o, refl, refl, refl) in
      let (end, handed) = typed line c (steps ts (step lower c)) w in
      (w.0, w.5, end, handed ∙ hand_on_lem c.handler line c.state)

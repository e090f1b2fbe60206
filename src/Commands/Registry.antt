-- ===== src/Commands/Registry.antt =====
-- CommandRegistry: src/core/command_registry.cpp and include/mcx/command_registry.hpp, with the
-- loop of the console that feeds it. A handler is a function from the arguments and a state of the
-- caller's to the new state or the text of what it throws; a log line is a value of the result.
pub mod Dispatch
use mcx.Prelude.{
  ◌+◌, Bool, true, false, Option, none, some, List, [], ◌∷◌, ◌++◌, if◌then◌else◌, is_empty, Eq,
  text_key,
}
use mcx.Prelude.Text.{Text, codes}
use mcx.Maps.{Map, lookup, insert, erase}
use mcx.Commands.Parser.{ParsedCommand, parse_command}

pub record CommandInfo : Type 0 where
  pub name : Text
  pub description : Text
  pub permission : Text

-- What a call of a handler ends in.
pub data Ended (S : Type 0) : Type 0 where
  finished : S → Ended S
  threw : S → Text → Ended S

pub record Entry (S : Type 0) : Type 0 where
  pub info : CommandInfo
  pub handler : List Text → S → Ended S

abbrev pub CommandRegistry : Type 0 → Type 0
CommandRegistry S = Map Text (Entry S)

-- The result of Execute, the state behind it and the lines of the log.
pub record Executed (S : Type 0) : Type 0 where
  pub result : Bool
  pub state : S
  pub errors : List Text

module _ {S : Type 0} where
  unfoldable pub register :
      Text → CommandInfo → (List Text → S → Ended S) → CommandRegistry S → CommandRegistry S
  register name i h commands = insert name (record { info = i; handler = h }) commands

  unfoldable pub unregister : Text → CommandRegistry S → CommandRegistry S
  unregister name commands = erase name commands

  unfoldable pub after_call : Text → Ended S → Executed S
  after_call name (finished s) = record { result = true; state = s; errors = [] }
  after_call name (threw s what) = record {
    result = false;
    state = s;
    errors = (codes "Command " ++ (name ++ (codes " failed: " ++ what))) ∷ [];
  }

  unfoldable pub execute : CommandRegistry S → Text → List Text → S → Executed S
  execute commands name args s = elim (lookup name commands) [
    | none ↦ record { result = false; state = s; errors = [] }
    | some entry ↦ after_call name (entry.handler args s)
  ]

  unfoldable pub get_commands : CommandRegistry S → List CommandInfo
  get_commands [] = []
  get_commands ((name, entry) ∷ commands) = entry.info ∷ get_commands commands

  -- `if (handler_) handler_(...)`
  unfoldable pub notify : Option (ParsedCommand → S → S) → ParsedCommand → S → S
  notify none p s = s
  notify (some h) p s = h p s

  -- Console::ReadLoop over the lines of the input, with the handler that OnCommand has set. The
  -- handler of the console does not see a line that is empty.
  unfoldable pub read_loop : Option (ParsedCommand → S → S) → List Text → S → S
  read_loop on_command [] s = s
  read_loop on_command (line ∷ lines) s =
      read_loop on_command lines
        (if is_empty line then s else notify on_command (parse_command line) s)

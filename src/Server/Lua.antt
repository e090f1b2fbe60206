-- ===== src/Server/Lua.antt =====
-- LuaRuntime of src/core/lua_runtime.cpp over the C interface of Lua, which is a parameter: the values
-- on its stack, and all that the scripts can change.
pub mod Stack
use mcx.Prelude.{
  Bool, true, false, Option, none, some, List, [], ◌∷◌, ◌++◌, if◌then◌else◌, text_eq, text_key,
}
use mcx.Prelude.Text.{Text, codes}
use mcx.Log.{Line, info, warn, error}
use mcx.Events.{EventType, Event, Action}

-- What a protected call or a file gives: its results, the last one first, or the error.
pub data LuaOutcome (Value : Type 0) : Type 0 where
  results : List Value → LuaOutcome Value
  failure : Value → LuaOutcome Value

-- `call` is `lua_pcall` with one argument, cut or filled to one result; `do_file` is `luaL_dofile`,
-- which keeps every result of the file. Either returns the values and the new world.
pub record LuaApi : Type 1 where
  pub Value : Type 0
  pub World : Type 0
  pub get_global : Text → World → Value
  pub is_function : Value → Bool
  pub of_string : Text → Value
  pub to_string : Value → Option Text
  pub call : Value → Value → World → LuaOutcome Value × World
  pub do_file : Text → World → LuaOutcome Value × World
  pub one_result : List Value → Value

-- The name that a handler is given.
unfoldable pub type_name : EventType → Text
type_name EventType.player_join = codes "player_join"
type_name EventType.player_quit = codes "player_quit"
type_name EventType.chat = codes "chat"
type_name _ = codes "unknown"

-- The top of the stack is the head of the list.
pub record Runtime (api : LuaApi) : Type 0 where
  pub stack : List api.Value
  pub world : api.World
  pub lines : List Line

-- An entry of the script directory: its path and its extension.
pub record ScriptFile : Type 0 where
  pub path : Text
  pub extension : Text

module _ {api : LuaApi} where
  unfoldable pub write : Line → Runtime api → Runtime api
  write line r = record r { lines = r.lines ++ (line ∷ []) }

  unfoldable pub pop : Runtime api → Runtime api
  pop r = elim r.stack [ [] ↦ r | top ∷ rest ↦ record r { stack = rest } ]

  unfoldable pub push : api.Value → Runtime api → Runtime api
  push v r = record r { stack = v ∷ r.stack }

  -- `log::Error` of the message on the top of the stack, and `lua_pop`. lua_tostring gives NULL for a
  -- value that is neither a string nor a number; std::string throws on it, and the value stays. As in
  -- all that follows, the second part tells that this was thrown.
  unfoldable pub report : Text → api.Value → Runtime api → Runtime api × Bool
  unfolding write pop push
  report prefix v r = elim (api.to_string v) [
    | none ↦ (push v r, true)
    | some message ↦ (pop (write (error, prefix ++ message) (push v r)), false)
  ]

  unfoldable pub after_file : LuaOutcome api.Value → Runtime api → Runtime api × Bool
  unfolding report
  after_file (results vs) r = (record r { stack = vs ++ r.stack }, false)
  after_file (failure v) r = report (codes "Lua error: ") v r

  unfoldable pub execute_script : Text → Runtime api → Runtime api × Bool
  unfolding after_file
  execute_script path r =
      let (outcome, world) = api.do_file path r.world in
      after_file outcome (record r { world = world })

  unfoldable pub load_entry : ScriptFile → Runtime api → Runtime api × Bool
  unfolding execute_script write
  load_entry entry r =
      if text_eq entry.extension (codes ".lua")
      then execute_script entry.path (write (info, codes "Loading Lua script: " ++ entry.path) r)
      else (r, false)

  unfoldable pub load_entries : List ScriptFile → Runtime api → Runtime api × Bool
  unfolding load_entry
  load_entries [] r = (r, false)
  load_entries (entry ∷ entries) r =
      let (r', threw) = load_entry entry r in
      let rest = load_entries entries r' in if threw then (r', true) else rest

  -- `none` is a root that does not exist.
  unfoldable pub load_scripts : Text → Option (List ScriptFile) → Runtime api → Runtime api × Bool
  unfolding load_entries
  load_scripts root none r = (write (warn, codes "Script root not found: " ++ root) r, false)
  load_scripts root (some entries) r = load_entries entries r

  -- What stands behind `lua_pcall`, which took the function and its argument off the stack.
  unfoldable pub after_call : LuaOutcome api.Value → Runtime api → Runtime api × Bool
  unfolding report
  after_call (results vs) r = (pop (push (api.one_result vs) r), false)
  after_call (failure v) r = report (codes "Lua event handler error: ") v r

  -- `f` and the name are on the top of the stack.
  unfoldable pub call_handler : api.Value → api.Value → Runtime api → Runtime api × Bool
  unfolding after_call
  call_handler f argument r =
      let (outcome, world) = api.call f argument r.world in
      after_call outcome (pop (pop (record r { world = world })))

  -- `none` is the exception, behind which there are no actions.
  unfoldable pub handle_event : Event → Runtime api → Option (List Action) × Runtime api
  unfolding call_handler type_name push pop
  handle_event event r =
      let f = api.get_global (codes "onEvent") r.world in
      let argument = api.of_string (type_name event.type) in
      let (called, threw) = call_handler f argument (push argument (push f r)) in
      if api.is_function f
      then (if threw then none else some [], called)
      else (some [], pop (push f r))

-- ===== src/Server/Lua/Stack.antt =====
-- The stack of the Lua state, and what the server gets from the runtime.
use mcx.Prelude.{
  ℕ, ◌+◌, ◌≡◌, refl, ap, Bool, true, false, Option, none, some, Option-cases, List, [], ◌∷◌, ◌++◌,
  arith, if◌then◌else◌, text_eq, length, length-append, inl, inr, Bool-cases, text_key, nat_eq,
}
use mcx.Prelude.Text.{Text, codes}
use mcx.Log.{info}
use mcx.Events.{Event, Action}
use mcx.Server.Lua.{
  LuaApi, type_name, LuaOutcome, results, failure, Runtime, ScriptFile, write, pop, push, report,
  after_file, execute_script, load_entry, load_entries, load_scripts, after_call, call_handler,
  handle_event,
}

-- What an error value leaves on the stack where it is reported: itself, if it is no message.
abbrev pub stays : (api : LuaApi) → api.Value → List api.Value
stays api v = elim (api.to_string v) [ none ↦ v ∷ [] | some message ↦ [] ]

-- That it is none, which ends the call by an exception.
abbrev pub is_silent : (api : LuaApi) → api.Value → Bool
is_silent api v = elim (api.to_string v) [ none ↦ true | some message ↦ false ]

-- The error of a call.
abbrev pub failed : {Value : Type 0} → LuaOutcome Value → Option Value
failed (results vs) = none
failed (failure v) = some v

abbrev actions_of : Bool → Option (List Action)
actions_of threw = if threw then none else some []

module _ {api : LuaApi} where
  report_stack :
      (prefix : Text) (v : api.Value) (r : Runtime api)
      → ((report prefix v r).0.stack ≡ stays api v ++ r.stack)
        × ((report prefix v r).1 ≡ is_silent api v)
  unfolding report write pop push
  report_stack prefix v r = elim (Option-cases (api.to_string v)) [
    | inl silent ↦ rw (report, stays, is_silent, silent) (refl, refl)
    | inr (message, said) ↦ rw (report, stays, is_silent, said) (refl, refl)
  ]

  -- The error of the handler of events, where it has one.
  abbrev pub error_of : Event → Runtime api → Option api.Value
  error_of event r =
      let f = api.get_global (codes "onEvent") r.world in
      if api.is_function f
      then failed (api.call f (api.of_string (type_name event.type)) r.world).0
      else none

  after_call_lem :
      (o : LuaOutcome api.Value) (r : Runtime api)
      → let (after, threw) = after_call o r in
        let silent : Bool = elim (failed o) [ none ↦ false | some v ↦ is_silent api v ] in
        (actions_of threw ≡ actions_of silent)
        × (after.stack ≡ elim (failed o) [ none ↦ [] | some v ↦ stays api v ] ++ r.stack)
  unfolding after_call push pop
  after_call_lem (results vs) r = (refl, refl)
  after_call_lem (failure v) r =
      let (left, thrown) = report_stack (codes "Lua event handler error: ") v r in
      (ap actions_of thrown, left)

  -- The handler of an event returns no action and leaves the stack as it was, also where the call of
  -- the script fails with a message. Exactly where it fails with a value that is no message, neither
  -- a string nor a number, it ends by an exception, and the value stays on the stack.
  pub handle_event_balanced :
      (event : Event) (r : Runtime api)
      → let (actions, after) = handle_event event r in
        let silent : Bool = elim (error_of event r) [ none ↦ false | some v ↦ is_silent api v ] in
        (actions ≡ (if silent then none else some []))
        × (after.stack ≡ elim (error_of event r) [ none ↦ [] | some v ↦ stays api v ] ++ r.stack)
  unfolding handle_event call_handler push pop
  handle_event_balanced event r =
      let f = api.get_global (codes "onEvent") r.world in
      elim (Bool-cases (api.is_function f)) [
        | inr missing ↦ rw (handle_event, missing) (refl, refl)
        | inl there ↦
            let argument = api.of_string (type_name event.type) in
            let (outcome, world) = api.call f argument r.world in
            rw (handle_event, there)
              (after_call_lem outcome
                (pop (pop (record (push argument (push f r)) { world = world }))))
      ]

  -- The values that one entry leaves on the stack: the results of a script, or the error of one that
  -- fails without a message.
  pub left_by : ScriptFile → Runtime api → List api.Value
  left_by entry r =
      if text_eq entry.extension (codes ".lua")
      then elim (api.do_file entry.path r.world).0 [ results vs ↦ vs | failure v ↦ stays api v ]
      else []

  after_file_stack :
      (o : LuaOutcome api.Value) (r : Runtime api)
      → (after_file o r).0.stack ≡ elim o [ results vs ↦ vs | failure v ↦ stays api v ] ++ r.stack
  unfolding after_file
  after_file_stack (results vs) r = refl
  after_file_stack (failure v) r = (report_stack (codes "Lua error: ") v r).0

  execute_script_stack :
      (path : Text) (r : Runtime api)
      → (execute_script path r).0.stack
        ≡ elim (api.do_file path r.world).0 [ results vs ↦ vs | failure v ↦ stays api v ] ++ r.stack
  unfolding execute_script
  execute_script_stack path r =
      after_file_stack (api.do_file path r.world).0
        (record r { world = (api.do_file path r.world).1 })

  load_entry_stack :
      (entry : ScriptFile) (r : Runtime api)
      → (load_entry entry r).0.stack ≡ left_by entry r ++ r.stack
  unfolding load_entry left_by write
  load_entry_stack entry r = elim (Bool-cases (text_eq entry.extension (codes ".lua"))) [
    | inl script ↦
        rw (script, load_entry)
          (execute_script_stack entry.path
            (write (info, codes "Loading Lua script: " ++ entry.path) r))
    | inr other ↦ rw (other, load_entry) refl
  ]

  -- The values that the entries leave, each entry run in the world behind those before it, up to one
  -- that ends by an exception.
  pub left_by_all : List ScriptFile → Runtime api → ℕ
  left_by_all [] r = 0
  left_by_all (entry ∷ entries) r =
      let (r', threw) = load_entry entry r in
      let rest = left_by_all entries r' in length (left_by entry r) + (if threw then 0 else rest)

  grows :
      (entries : List ScriptFile) (r : Runtime api)
      → length (load_entries entries r).0.stack ≡ left_by_all entries r + length r.stack
  unfolding load_entries left_by_all
  grows [] r = omega arith
  grows (entry ∷ entries) r =
      let rest = grows entries (load_entry entry r).0 in
      let one = ap length (load_entry_stack entry r) in
      let sum = length-append (left_by entry r) r.stack in
      elim (Bool-cases (load_entry entry r).1) [
        | inl threw ↦ rw threw (omega (arith, one, sum))
        | inr went_on ↦ rw went_on (omega (arith, rest, one, sum))
      ]

  -- LoadScripts never takes the results of a script off the stack: it grows by all that the scripts
  -- return, by the error of one that fails without a message, behind which no other is run, and by
  -- nothing for one that fails with a message or a file of another extension.
  pub length-load_scripts :
      (root : Text) (entries : List ScriptFile) (r : Runtime api)
      → length (load_scripts root (some entries) r).0.stack ≡ left_by_all entries r + length r.stack
  unfolding load_scripts
  length-load_scripts root entries r = grows entries r

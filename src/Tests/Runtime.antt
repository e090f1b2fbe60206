-- ===== src/Tests/Runtime.antt =====
-- The Lua runtime, the accept loop of RCON, the console, the update notice and the components at concrete
-- inputs.
use mcx.Prelude.{
  ℕ, ◌+◌, ◌≡◌, refl, Bool, true, Option, none, some, List, [], ◌∷◌, ◌==◌, length, All,
  if◌then◌else◌, arith, is_empty, ◌↔◌, false,
}
use mcx.Prelude.Text.{codes}
use mcx.Sockets.Client.{Arrival, accept_rcon, accept_rcon_lem, IsHelp}
use mcx.Server.Lua.{type_name, LuaApi, results, failure, Runtime, handle_event}
use mcx.Server.Lua.Stack.{handle_event_balanced}
use mcx.Server.Entities.{
  initial, add_component, remove_component, get_component_raw, get_component, create_entity,
}
use mcx.Server.Entities.Components.{Call, call, create, add, remove}
use mcx.Server.Entities.Typed.{calls, get_component_typed}
use mcx.Commands.Console.{Console, reads, ended, thread, lower, type, step, steps, stop_waits}
use mcx.Maps.{lookup, insert, erase, lookup_or}
use mcx.Updates.Versions.Order.{IsNewer}
use mcx.Updates.Release.{ReleaseInfo, linux, parse_github_response}
use mcx.Updates.Notices.{
  available, mcx_version, check_line, check_for_updates, check_for_updates_offers,
}
use mcx.Tests.Samples.{alice, alice_joins}

-- A Lua whose values are numbers, whose functions are the odd ones, and whose calls fail at 0.
abbrev numbers : LuaApi
numbers = record {
  Value = ℕ;
  World = ℕ;
  get_global = (λ name world. world);
  is_function = (λ v. v == 1);
  of_string = (λ name. length name);
  to_string = (λ v. if v == 1 then none else some (v ∷ []));
  call = (λ f v world. (failure v, world + 1));
  do_file = (λ path world. (results (world ∷ world ∷ []), world));
  one_result = (λ vs. length vs);
}

abbrev two_on_stack : Runtime numbers
two_on_stack = record { stack = 5 ∷ 6 ∷ []; world = 1; lines = [] }

handle_event_balanced_example :
    ((handle_event alice_joins two_on_stack).0 ≡ some [])
    × ((handle_event alice_joins two_on_stack).1.stack ≡ 5 ∷ 6 ∷ [])
unfolding type_name codes
handle_event_balanced_example = handle_event_balanced alice_joins two_on_stack

abbrev rounds : List (Bool × Option Arrival)
rounds =
    (true, some (record { fd = 7; bytes = some alice }))
    ∷ (true, none)
    ∷ (true, some (record { fd = 7; bytes = none }))
    ∷ (false, none)
    ∷ []

accept_rcon_lem_example :
    (length (accept_rcon true rounds (3 ∷ [])).0 ≡ 1 + (0 + 0))
    × All IsHelp (accept_rcon true rounds (3 ∷ [])).0
    × ((accept_rcon true rounds (3 ∷ [])).1 ≡ 3 ∷ [])
accept_rcon_lem_example = accept_rcon_lem rounds (3 ∷ []) (refl, (tt, (refl, (tt, tt))))

abbrev console : Console ℕ
console = record {
  running = true;
  reader = reads;
  pending = [];
  is_closed = false;
  handler = some (λ p n. n + 1);
  state = 4;
}

stop_waits_example :
    ((steps (thread ∷ thread ∷ []) (step lower console)).reader ≡ reads)
    × ((steps (thread ∷ thread ∷ []) (step lower console)).state ≡ 4)
    × ((steps
          (type alice ∷ thread ∷ thread ∷ [])
          (steps (thread ∷ thread ∷ []) (step lower console))).reader
        ≡ ended)
    × ((steps
          (type alice ∷ thread ∷ thread ∷ [])
          (steps (thread ∷ thread ∷ []) (step lower console))).state
        ≡ 5)
stop_waits_example = stop_waits (thread ∷ thread ∷ []) alice console (tt, (tt, tt)) refl refl refl

abbrev components : List (Call (ℕ × ℕ))
components = create ∷ add 1 (2, 9) ∷ add 1 (3, 8) ∷ remove 1 4 ∷ []

-- A component is the number of its class and a value; the type numbers are one greater.
abbrev class_of : ℕ × ℕ → ℕ
class_of c = c.0

abbrev type_of : ℕ → ℕ
type_of n = n + 1

one_number : (a b : ℕ) → type_of a ≡ type_of b → a ≡ b
one_number a b h = omega (arith, h)

get_component_typed_example : class_of (2, 9) ≡ 2
unfolding calls call get_component get_component_raw initial create_entity add_component
    remove_component lookup insert erase lookup_or
get_component_typed_example =
    get_component_typed type_of class_of (λ c. type_of (class_of c)) components 1 2 (λ d. refl)
      one_number refl

-- An answer without a version.
abbrev release : ReleaseInfo
release = parse_github_response linux []

abbrev ok_status : ℕ
ok_status = 200

check_for_updates_offers_example :
    (is_empty (check_for_updates linux 110 true 200 []) ≡ false)
    × ((check_line linux mcx_version true 200 [] ≡ available release.version)
        ↔ ((true ≡ true) × (ok_status ≡ 200) × IsNewer release.version mcx_version))
check_for_updates_offers_example = check_for_updates_offers linux 110 true 200 []

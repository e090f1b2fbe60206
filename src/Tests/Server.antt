-- ===== src/Tests/Server.antt =====
-- The server and its parts at concrete inputs.
use mcx.Prelude.{ℕ, ◌+◌, ◌≡◌, ◌↔◌, refl, Bool, true, false, [], ◌∷◌, ◌++◌, ltb, text_key, nat_eq}
use mcx.Prelude.Int.{pos}
use mcx.Maps.{lookup}
use mcx.Events.{broadcast}
use mcx.Server.Players.{get_online_count, get_player}
use mcx.Server.Loader.{ModuleFunctions}
use mcx.Server.Tasks.{ScheduledTask, Scheduler, update}
use mcx.Server.Tasks.Order.{update_lem}
use mcx.Server.Core.{Server, make_server, handle_event}
use mcx.Server.Core.Arrivals.{expected, handle_event-get_player}
use mcx.Server.Core.Counters.{IsSynced, is_orderly, handle_event-IsSynced}
use mcx.Tests.Samples.{alice, bob, alice_joins, alice_quits}

-- A module whose state is the number of the events that it saw; each event makes it announce one.
abbrev counting : ModuleFunctions ℕ
counting = record {
  get_info = (λ n. record { name = alice; version = []; author = []; api_version = 1 });
  on_load = (λ n. (n, true));
  on_unload = (λ n. n + 100);
  on_event = (λ event n actions. (n + 1, actions ++ (broadcast bob ∷ []), false));
}

-- A task adds its number to the world, and throws where it is above 10.
abbrev add_up : ℕ → ℕ → ℕ × Bool
add_up n world = (world + n, ltb 10 n)

abbrev at_time : ℕ → ℕ → ScheduledTask ℕ
at_time t n = record { when = t; what = n }

abbrev tasks : Scheduler ℕ
tasks = at_time 5 1 ∷ at_time 9 2 ∷ at_time 3 4 ∷ []

update_lem_example : update add_up 6 tasks 0 ≡ (at_time 9 2 ∷ [], 5, false)
update_lem_example = update_lem add_up 6 tasks 0 (refl, (refl, tt))

abbrev server : Server ℕ ℕ
unfolding make_server
server = make_server (record {
  backend_endpoint = [];
  script_root = [];
  modules_path = [];
  max_players = pos 8;
  demo_mode = true;
})

handle_event-get_player_example :
    get_player alice (handle_event counting alice_joins server).1.player_registry
    ≡ expected alice alice_joins server
handle_event-get_player_example = handle_event-get_player counting alice alice_joins server

server-IsSynced : IsSynced server
unfolding make_server get_online_count
server-IsSynced = record { gauge = refl; unique = tt }

join-is_orderly : is_orderly alice_joins server ≡ true
unfolding make_server get_player lookup
join-is_orderly = refl

handle_event-IsSynced_example :
    IsSynced (handle_event counting alice_joins server).1 ↔ (is_orderly alice_joins server ≡ true)
handle_event-IsSynced_example = handle_event-IsSynced counting alice_joins server server-IsSynced

quit-is_orderly : is_orderly alice_quits server ≡ false
unfolding make_server get_player lookup
quit-is_orderly = refl

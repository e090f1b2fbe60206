-- ===== src/Setup/Config.antt =====
-- LoadConfigFromFile of src/core/config_loader.cpp. The JSON library is a parameter: what it parses,
-- whether a document has a key, and the typed reads, where `none` is what they throw.
pub mod Keys
use mcx.Prelude.{ℕ, ◌≡◌, Bool, true, false, Option, none, some, List, [], ◌∷◌, ◌++◌, if◌then◌else◌}
use mcx.Prelude.Text.{Text, codes}
use mcx.Prelude.Int.{ℤ, pos}
use mcx.Prelude.Do.{◌>>=◌}
use mcx.Server.Core.{Config}

pub record JsonLibrary : Type 1 where
  pub Json : Type 0
  pub parse : Text → Option Json
  pub contains : Json → Text → Bool
  pub get_string : Json → Text → Option Text
  pub get_int : Json → Text → Option ℤ
  pub get_bool : Json → Text → Option Bool

-- `Config config{}`
abbrev pub empty_config : Config
empty_config = record {
  backend_endpoint = [];
  script_root = codes "scripts";
  modules_path = codes "modules";
  max_players = pos 0;
  demo_mode = true;
}

module _ (library : JsonLibrary) where
  open library use {Json, parse, contains, get_string, get_int, get_bool}

  -- `if (json.contains(key)) member = json[key].get<T>();`
  unfoldable pub member_or : {A : Type 0} → (Json → Text → Option A) → Json → Text → A → Option A
  member_or get json key old = if contains json key then get json key else some old

  unfoldable pub read_config : Json → Option Config
  unfolding member_or
  read_config json = do
    endpoint ← member_or get_string json (codes "backendEndpoint") empty_config.backend_endpoint
    root ← member_or get_string json (codes "scriptRoot") empty_config.script_root
    players ← member_or get_int json (codes "maxPlayers") empty_config.max_players
    demo ← member_or get_bool json (codes "demoMode") empty_config.demo_mode
    some (record empty_config {
      backend_endpoint = endpoint;
      script_root = root;
      max_players = players;
      demo_mode = demo;
    })

  -- The file is the text that it holds, or `none` where it cannot be opened.
  unfoldable pub load_config_from_file : Option Text → Option Config
  unfolding read_config
  load_config_from_file file = do content ← file; json ← parse content; read_config json

-- ===== src/Launchers/Imgui/Config.antt =====
-- The configuration of the launcher, SaveConfig and LoadConfig. A `char` array is the text before its
-- end, and the file is its text, or `none` where it cannot be opened. A write past the end of a
-- `char` array is undefined, and is `none`.
use mcx.Prelude.{
  ℕ, Bool, true, false, Option, none, some, List, [], ◌∷◌, ◌++◌, map, ltb, ◌==◌, if◌then◌else◌,
  length, concat,
}
use mcx.Prelude.Do.{◌>>=◌}
use mcx.Prelude.Int.{ℤ, pos}
use mcx.Prelude.Text.{Text, codes}
use mcx.Prelude.Decimal.{int_text, stoi, skip_spaces}
use mcx.Prelude.Search.{behind, cut_at}

pub record Config : Type 0 where
  pub server_name : Text
  pub bind_ip : Text
  pub port : ℤ
  pub max_players : ℤ
  pub demo_mode : Bool
  pub auto_update : Bool
  pub rcon_enabled : Bool
  pub rcon_port : ℤ
  pub rcon_password : Text

unfoldable pub default_config : Config
default_config = record {
  server_name = codes "MCX Server";
  bind_ip = codes "0.0.0.0";
  port = pos 25565;
  max_players = pos 50;
  demo_mode = true;
  auto_update = true;
  rcon_enabled = true;
  rcon_port = pos 25575;
  rcon_password = codes "mcx-password-123";
}

unfoldable pub bool_text : Bool → Text
bool_text true = codes "true"
bool_text false = codes "false"

-- The lines that SaveConfig writes.
unfoldable pub saved_lines : Config → List Text
unfolding codes int_text bool_text
saved_lines c =
    codes "{"
    ∷ (codes "  \"serverName\": \"" ++ (c.server_name ++ codes "\","))
    ∷ (codes "  \"bindIp\": \"" ++ (c.bind_ip ++ codes "\","))
    ∷ (codes "  \"port\": " ++ (int_text c.port ++ codes ","))
    ∷ (codes "  \"maxPlayers\": " ++ (int_text c.max_players ++ codes ","))
    ∷ (codes "  \"demoMode\": " ++ (bool_text c.demo_mode ++ codes ","))
    ∷ (codes "  \"autoUpdate\": " ++ (bool_text c.auto_update ++ codes ","))
    ∷ (codes "  \"rconEnabled\": " ++ (bool_text c.rcon_enabled ++ codes ","))
    ∷ (codes "  \"rconPort\": " ++ (int_text c.rcon_port ++ codes ","))
    ∷ (codes "  \"rconPassword\": \"" ++ (c.rcon_password ++ codes "\""))
    ∷ codes "}"
    ∷ []

abbrev pub end_line : Text → Text
end_line l = l ++ (10 ∷ [])

-- What is in the file afterwards; where it does not open, what was in it before.
unfoldable pub save_config : Bool → Config → Option Text → Option Text
unfolding saved_lines
save_config is_open c file = if is_open then some (concat (map end_line (saved_lines c))) else file

-- A character in front of the first line.
unfoldable pub push_char : ℕ → List Text → List Text
push_char c [] = (c ∷ []) ∷ []
push_char c (l ∷ ls) = (c ∷ l) ∷ ls

-- The lines that std::getline takes, one after the other.
unfoldable pub get_lines : Text → List Text
unfolding push_char
get_lines [] = []
get_lines (c ∷ cs) = let rest = get_lines cs in if c == 10 then [] ∷ rest else push_char c rest

-- The directive " * " in front of each format of LoadConfig: white space, a star, white space.
unfoldable pub behind_star : Text → Option Text
behind_star s = elim (behind (42 ∷ []) (skip_spaces s)) [
  | none ↦ none
  | some rest ↦ some (skip_spaces rest)
]

-- %[^"]
unfoldable pub until_quote : Text → Text
until_quote [] = []
until_quote (c ∷ cs) = let rest = until_quote cs in if c == 34 then [] else c ∷ rest

-- A conversion %[ takes one character at least.
unfoldable pub some_chars : Text → Option Text
some_chars [] = none
some_chars (c ∷ cs) = some (c ∷ cs)

-- `sscanf` with a quoted text behind `key`: what it stores.
unfoldable pub scan_text : Text → Text → Option Text
unfolding behind_star until_quote some_chars
scan_text key line = behind_star line >>= λ s.
    behind key s >>= λ r. behind (34 ∷ []) (skip_spaces r) >>= λ t. some_chars (until_quote t)

-- `sscanf` with %d behind `key`. A number that is no int is undefined; here nothing is stored.
unfoldable pub scan_int : Text → Text → Option ℤ
unfolding behind_star
scan_int key line = behind_star line >>= λ s. behind key s >>= λ r. stoi r

-- `line.find(key) != npos`
unfoldable pub has_text : Text → Text → Bool
has_text key line = elim (cut_at key line) [ none ↦ false | some parts ↦ true ]

unfoldable pub store_name : Option Text → Config → Option Config
store_name none c = some c
store_name (some t) c = if ltb (length t) 128 then some (record c { server_name = t }) else none

unfoldable pub store_ip : Option Text → Config → Option Config
store_ip none c = some c
store_ip (some t) c = if ltb (length t) 64 then some (record c { bind_ip = t }) else none

unfoldable pub store_port : Option ℤ → Config → Config
store_port none c = c
store_port (some n) c = record c { port = n }

unfoldable pub store_max_players : Option ℤ → Config → Config
store_max_players none c = c
store_max_players (some n) c = record c { max_players = n }

-- A turn of the loop of LoadConfig.
unfoldable pub load_line : Text → Config → Option Config
unfolding codes scan_text scan_int has_text store_name store_ip store_port store_max_players
load_line line c =
    if has_text (codes "serverName") line
    then store_name (scan_text (codes "\"serverName\":") line) c
    else if has_text (codes "bindIp") line
    then store_ip (scan_text (codes "\"bindIp\":") line) c
    else if has_text (codes "port\":") line
    then some (store_port (scan_int (codes "\"port\":") line) c)
    else if has_text (codes "maxPlayers") line
    then some (store_max_players (scan_int (codes "\"maxPlayers\":") line) c)
    else some c

unfoldable pub load_lines : List Text → Config → Option Config
load_lines [] c = some c
load_lines (line ∷ rest) c = load_line line c >>= λ d. load_lines rest d

unfoldable pub load_config : Option Text → Config → Option Config
unfolding get_lines load_lines
load_config none c = some c
load_config (some text) c = load_lines (get_lines text) c

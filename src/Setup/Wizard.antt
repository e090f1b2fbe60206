-- ===== src/Setup/Wizard.antt =====
-- SetupWizard of src/core/setup_wizard.cpp. The lines of std::cin are a list, and an answer behind
-- the end of the input is empty; the texts that go to std::cout are left out. The loops run on fuel,
-- one unit for each answer, and `none` tells that it ran out.
pub mod Prompts
pub mod Runs
use mcx.Prelude.{
  ℕ, zero, suc, ◌+◌, ◌≤◌, ◌≡◌, Bool, true, false, not, ◌&&◌, Option, none, some, List, [], ◌∷◌,
  ◌++◌, map, leb, if◌then◌else◌, is_empty, text_eq,
}
use mcx.Prelude.Text.{Text, codes}
use mcx.Prelude.Int.{ℤ, pos, negsuc, leb_ℤ, ltb_ℤ, pos_part}
use mcx.Prelude.Decimal.{stoi, to_string}
use mcx.Prelude.Do.{◌>>=◌}
use mcx.Setup.Address.{validate_ip}

-- `port` is an uint16_t, `max_players` an int.
pub record ServerConfig : Type 0 where
  pub name : Text
  pub bind_ip : Text
  pub port : ℕ
  pub max_players : ℕ
  pub terms_accepted : Bool

abbrev pub default_config : ServerConfig
default_config = record {
  name = codes "MCX Server";
  bind_ip = codes "0.0.0.0";
  port = 25565;
  max_players = 20;
  terms_accepted = false;
}

abbrev pub Input : Type 0
Input = List Text

-- `std::getline(std::cin, response)`
unfoldable pub get_line : Input → Text × Input
get_line [] = ([], [])
get_line (line ∷ lines) = (line, lines)

unfoldable pub prompt_string : Text → Input → Text × Input
unfolding get_line
prompt_string default input =
    let (response, rest) = get_line input in (if is_empty response then default else response, rest)

-- What PromptPort returns for an answer, and `none` where it asks again.
unfoldable pub in_bounds : ℕ → ℕ → Text → Option ℕ
in_bounds min max response = elim (stoi response) [
  | none ↦ none
  | some (negsuc n) ↦ none
  | some (pos n) ↦ if leb min n && leb n max then some n else none
]

-- The loop of PromptInt; PromptPort is the same loop, with the bounds 1 and 65535.
unfoldable pub prompt_int : ℕ → ℕ → ℕ → ℕ → Input → Option (ℕ × Input)
unfolding prompt_string in_bounds
prompt_int zero min max default input = none
prompt_int (suc fuel) min max default input =
    let (response, rest) = prompt_string (to_string default) input in
    let again = prompt_int fuel min max default rest in
    elim (in_bounds min max response) [ none ↦ again | some n ↦ some (n, rest) ]

unfoldable pub prompt_port : ℕ → ℕ → Input → Option (ℕ × Input)
unfolding prompt_int
prompt_port fuel default input = prompt_int fuel 1 65535 default input

-- `while (!ValidateIp(config_.bindIp))`
unfoldable pub prompt_ip : ℕ → Text → Input → Option (Text × Input)
unfolding prompt_string
prompt_ip zero ip input = none
prompt_ip (suc fuel) ip input =
    let (response, rest) = prompt_string (codes "0.0.0.0") input in
    let again = prompt_ip fuel response rest in if validate_ip ip then some (ip, input) else again

-- `::tolower`
unfoldable pub to_lower : ℕ → ℕ
to_lower c = if leb 65 c && leb c 90 then c + 32 else c

unfoldable pub prompt_terms : Input → Bool × Input
unfolding get_line to_lower
prompt_terms input =
    let (response, rest) = get_line input in (text_eq (map to_lower response) (codes "yes"), rest)

-- The file server.json.
unfoldable pub generate_config_file : ServerConfig → Text
generate_config_file config =
    codes "{\n  \"name\": \""
    ++ (config.name
        ++ (codes "\",\n  \"bindIp\": \""
            ++ (config.bind_ip
                ++ (codes "\",\n  \"port\": "
                    ++ (to_string config.port
                        ++ (codes ",\n  \"maxPlayers\": "
                            ++ (to_string config.max_players
                                ++ codes ",\n  \"termsAccepted\": true\n}\n")))))))

-- The result of Run, the members it leaves behind, and what server.json holds of the text that was
-- written; `none` where nothing was written, or where the file could not be opened.
pub record Finished : Type 0 where
  pub result : Bool
  pub config : ServerConfig
  pub file : Option Text

-- `disk` is what a file holds behind std::ofstream and its `<<`, of which no error is looked at.
unfoldable pub finish : (Text → Option Text) → ServerConfig → Text → Finished
finish disk config confirm =
    if text_eq confirm (codes "yes")
    then record { result = true; config = config; file = disk (generate_config_file config) }
    else record { result = false; config = config; file = none }

-- The questions behind the terms.
unfoldable pub ask : (Text → Option Text) → ℕ → ServerConfig → Input → Option Finished
unfolding prompt_string prompt_ip prompt_port prompt_int finish
ask disk fuel config input = do
  let (name, input1) = prompt_string config.name input
  let (ip, input2) = prompt_string config.bind_ip input1
  (bind_ip, input3) ← prompt_ip fuel ip input2
  (port, input4) ← prompt_port fuel config.port input3
  (max_players, input5) ← prompt_int fuel 1 1000 config.max_players input4
  let (confirm, input6) = prompt_string (codes "yes") input5
  let answered : ServerConfig = record config {
    name = name;
    bind_ip = bind_ip;
    port = port;
    max_players = max_players;
  }
  some (finish disk answered confirm)

unfoldable pub run : (Text → Option Text) → ℕ → ServerConfig → Input → Option Finished
unfolding prompt_terms ask
run disk fuel config input =
    let (accepted, rest) = prompt_terms input in
    let config' : ServerConfig = record config { terms_accepted = accepted } in
    if not accepted
    then some (record { result = false; config = config'; file = none })
    else ask disk fuel config' rest

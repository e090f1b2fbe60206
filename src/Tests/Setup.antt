-- ===== src/Tests/Setup.antt =====
-- The wizard and the configuration file at concrete inputs.
use mcx.Prelude.{Option, none, [], ◌∷◌, arith}
use mcx.Prelude.Text.{Text, codes}
use mcx.Setup.Wizard.{default_config, Input, run}
use mcx.Setup.Wizard.Runs.{IsInRange, EndsWell, run-EndsWell}
use mcx.Tests.Samples.{alice}

-- The terms are accepted, the second address is valid, and the input ends before the port.
abbrev input : Input
input = codes "YES" ∷ alice ∷ codes "1.2.3.400" ∷ codes "10.0.0.1" ∷ []

default_config-IsInRange : IsInRange default_config
default_config-IsInRange = record {
  port_low = omega arith;
  port_high = omega arith;
  players_low = omega arith;
  players_high = omega arith;
}

-- A disk on which the file cannot be opened.
abbrev full : Text → Option Text
full content = none

run-EndsWell_example : EndsWell full (run full 6 default_config input)
run-EndsWell_example =
    run-EndsWell full 6 default_config input (omega arith) default_config-IsInRange

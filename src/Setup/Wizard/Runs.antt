-- ===== src/Setup/Wizard/Runs.antt =====
-- The wizard always comes to an end, and what it creates is in range.
use mcx.Prelude.{
  ℕ, ◌+◌, ◌≤◌, ◌<◌, ◌≡◌, refl, inl, inr, true, false, Option, none, some, [], ◌∷◌, arith,
  Bool-cases, length, text_eq,
}
use mcx.Prelude.Text.{Text, codes}
use mcx.Prelude.Do.{◌>>=◌}
use mcx.Setup.Wizard.{
  ServerConfig, Input, prompt_string, prompt_int, prompt_port, prompt_ip, prompt_terms,
  generate_config_file, Finished, finish, ask, run,
}
use mcx.Setup.Wizard.Prompts.{
  prompt_string-le, Answers, prompt_int-Answers, prompt_ip-Answers, IsAddress,
}

-- What the numbers of a configuration have to satisfy; the wizard starts with such a one.
pub record IsInRange (config : ServerConfig) : Type 0 where
  pub port_low : 1 ≤ config.port
  pub port_high : config.port ≤ 65535
  pub players_low : 1 ≤ config.max_players
  pub players_high : config.max_players ≤ 1000

-- How the wizard ends: the file is asked for exactly where the result is true, and then the terms are
-- accepted, the address is valid, and the numbers are in range.
abbrev pub EndsWell : (Text → Option Text) → Option Finished → Type 0
EndsWell disk none = ⊥
EndsWell disk (some f) = elim f.result [
  | true ↦
      (f.file ≡ disk (generate_config_file f.config))
      × IsInRange f.config
      × IsAddress f.config.bind_ip
      × (f.config.terms_accepted ≡ true)
  | false ↦ f.file ≡ none
]

bind-Answers :
    (disk : Text → Option Text) {A : Type 0} (P : A → Type 0) (input : Input)
    (r : Option (A × Input)) (f : A × Input → Option Finished)
    → Answers P input r
    → ((a : A) (rest : Input) → P a → length rest ≤ length input → EndsWell disk (f (a, rest)))
    → EndsWell disk (r >>= f)
bind-Answers disk P input none f h k = elim h [ ]
bind-Answers disk P input (some (a, rest)) f h k = k a rest h.0 h.1

finish-EndsWell :
    (disk : Text → Option Text) (config : ServerConfig) (confirm : Text)
    → IsInRange config
    → IsAddress config.bind_ip
    → config.terms_accepted ≡ true
    → EndsWell disk (some (finish disk config confirm))
unfolding finish
finish-EndsWell disk config confirm r v t = elim (Bool-cases (text_eq confirm (codes "yes"))) [
  | inl e ↦ rw e (refl, r, v, t)
  | inr e ↦ rw e refl
]

ask-EndsWell :
    (disk : Text → Option Text) (fuel : ℕ) (config : ServerConfig) (input : Input)
    → length input + 1 < fuel
    → IsInRange config
    → config.terms_accepted ≡ true
    → EndsWell disk (ask disk fuel config input)
unfolding ask prompt_port
ask-EndsWell disk fuel config input h r t =
    let name = (prompt_string config.name input).0 in
    let input1 = (prompt_string config.name input).1 in
    let ip = (prompt_string config.bind_ip input1).0 in
    let input2 = (prompt_string config.bind_ip input1).1 in
    let le1 = prompt_string-le config.name input in
    let le2 = prompt_string-le config.bind_ip input1 in
    bind-Answers disk IsAddress input2 (prompt_ip fuel ip input2) _
      (prompt_ip-Answers fuel ip input2 (omega arith))
      (λ bind_ip input3 valid le3.
        bind-Answers disk (λ n. (1 ≤ n) × (n ≤ 65535)) input3
          (prompt_int fuel 1 65535 config.port input3) _
          (prompt_int-Answers fuel 1 65535 config.port input3 (omega arith) (omega arith)
            (omega arith) (omega arith))
          (λ port input4 in_port le4.
            bind-Answers disk (λ n. (1 ≤ n) × (n ≤ 1000)) input4
              (prompt_int fuel 1 1000 config.max_players input4) _
              (prompt_int-Answers fuel 1 1000 config.max_players input4 (omega arith) (omega arith)
                (omega arith) (omega arith))
              (λ max_players input5 in_players le5.
                finish-EndsWell disk
                  (record config {
                    name = name;
                    bind_ip = bind_ip;
                    port = port;
                    max_players = max_players;
                  })
                  (prompt_string (codes "yes") input5).0
                  (record {
                    port_low = in_port.0;
                    port_high = in_port.1;
                    players_low = in_players.0;
                    players_high = in_players.1;
                  })
                  valid t)))

prompt_terms-le : (input : Input) → length (prompt_terms input).1 ≤ length input
unfolding prompt_terms
prompt_terms-le [] = omega arith
prompt_terms-le (line ∷ input) = omega arith

run_accepted :
    (disk : Text → Option Text) (fuel : ℕ) (config : ServerConfig) (input : Input)
    → (prompt_terms input).0 ≡ true
    → run disk fuel config input
      ≡ ask disk fuel (record config { terms_accepted = true }) (prompt_terms input).1
unfolding run
run_accepted disk fuel config input e = rw e refl

run_refused :
    (disk : Text → Option Text) (fuel : ℕ) (config : ServerConfig) (input : Input)
    → (prompt_terms input).0 ≡ false
    → run disk fuel config input
      ≡ some (record {
        result = false;
        config = record config { terms_accepted = false };
        file = none;
      })
unfolding run
run_refused disk fuel config input e = rw e refl

-- The wizard, from a configuration whose numbers are in range, always comes to an end, with fuel
-- for each line of the input and two turns more, whatever the answers are and also where the input
-- ends early. Where it reports success, the file holds what the disk made of the text of the
-- configuration, which is nothing where it could not be opened; the terms are accepted, the address
-- is one that ValidateIp accepts, the port is between 1 and 65535, and the players are between 1 and
-- 1000. Otherwise no file is written.
pub run-EndsWell :
    (disk : Text → Option Text) (fuel : ℕ) (config : ServerConfig) (input : Input)
    → length input + 1 < fuel
    → IsInRange config
    → EndsWell disk (run disk fuel config input)
run-EndsWell disk fuel config input h r = elim (Bool-cases (prompt_terms input).0) [
  | inl accepted ↦ rw (run_accepted disk fuel config input accepted) (
      ask-EndsWell disk fuel (record config { terms_accepted = true }) (prompt_terms input).1
        (omega (arith, prompt_terms-le input))
        (record {
          port_low = r.port_low;
          port_high = r.port_high;
          players_low = r.players_low;
          players_high = r.players_high;
        })
        refl)
  | inr refused ↦ rw (run_refused disk fuel config input refused) refl
]

-- ===== src/Tests/Managers.antt =====
-- The economy, bans, kits, the chat filter, teleports and statistics at concrete inputs.
use mcx.Prelude.{
  ℕ, ◌≤◌, ◌≡◌, refl, ◌≢◌, ◌⊎◌, true, some, List, [], ◌∷◌, arith, if◌then◌else◌, All, length,
  text_eq, text_key,
}
use mcx.Prelude.Text.{Text}
use mcx.Prelude.Int.{pos, ◌+ℤ◌, ◌-ℤ◌, ◌≤ℤ◌}
use mcx.Maps.{lookup, lookup_or}
use mcx.Managers.Economy.{Account, EconomyManager, transfer, get_balance, i64_max}
use mcx.Managers.Economy.Money.{IsSolvent, total, Conserves, transfer-Conserves}
use mcx.Managers.Economy.Moves.{transfer_moves}
use mcx.Managers.Bans.{is_banned, get_active_bans}
use mcx.Managers.Bans.Expiry
use mcx.Managers.Kits.{Kit, KitManager, empty_kit}
use mcx.Managers.Chat.{Regexes, ChatFilter}
use mcx.Managers.Chat.Window.{IsWithin, passed, passed-le}
use mcx.Managers.Teleports.{TeleportManager, TeleportRequest}
use mcx.Managers.Teleports.Requests
use mcx.Managers.Teleports.History
use mcx.Tests.Samples.{alice, bob, carol}

abbrev account : Text → ℕ → Account
account id n = record { player_id = id; balance = pos n }

abbrev bank : EconomyManager
bank = record {
  accounts = (alice, account alice 50) ∷ (bob, account bob 7) ∷ [];
  currency_name = [];
  starting_balance = pos 100;
}

bank-IsSolvent : IsSolvent bank
bank-IsSolvent = ground arith

bank-total : total bank ≤ℤ i64_max
unfolding ◌+ℤ◌
bank-total = omega arith

transfer-Conserves_example : Conserves bank (transfer alice alice (pos 20) bank)
transfer-Conserves_example = transfer-Conserves alice alice (pos 20) bank

alice-account : lookup alice bank.accounts ≡ some (account alice 50)
unfolding lookup text_eq
alice-account = refl

bob-account : lookup bob bank.accounts ≡ some (account bob 7)
unfolding lookup text_eq
bob-account = refl

alice-bob : alice ≢ bob
alice-bob = ground arith

carol-alice : carol ≢ alice
carol-alice = ground arith

carol-bob : carol ≢ bob
carol-bob = ground arith

transfer_moves_example :
    (e' : EconomyManager) × (transfer alice bob (pos 20) bank ≡ some (true, e'))
    × (get_balance alice e' ≡ pos 50 -ℤ pos 20)
    × (get_balance bob e' ≡ pos 7 +ℤ pos 20)
    × (get_balance carol e' ≡ get_balance carol bank)
transfer_moves_example =
    transfer_moves alice bob carol (pos 20) (account alice 50) (account bob 7) bank bank-IsSolvent
      bank-total alice-bob alice-account bob-account (omega arith) (omega arith) carol-alice
      carol-bob

abbrev ban_calls : List Expiry.Call
ban_calls = Expiry.bans_forever bob [] ∷ Expiry.bans_for (pos 10) alice [] (pos 2) ∷ []

is_banned-get_active_bans_example :
    is_banned (pos 11) alice (Expiry.run ban_calls [])
    ≡ Expiry.names_player alice (get_active_bans (pos 11) (Expiry.run ban_calls []))
is_banned-get_active_bans_example = Expiry.is_banned-get_active_bans (pos 11) alice ban_calls

abbrev starter : Kit
starter = record empty_kit { cooldown_seconds = pos 60 }

abbrev kits : KitManager
kits = record { kits = (carol, starter) ∷ []; last_received = [] }

-- A pattern is a text, and matches itself.
abbrev literal : Regexes
literal = record {
  Pattern = Text;
  compile_icase = (λ p. p);
  compile = (λ p. p);
  regex_search = (λ s p. text_eq s p);
  regex_match = (λ s p. text_eq s p);
  regex_replace = (λ s p w. if text_eq s p then w else s);
}

abbrev filter : ChatFilter literal
filter = record {
  profanity_filters = [];
  spam_patterns = [];
  max_message_length = 256;
  player_messages = [];
}

abbrev burst : List (ℕ × Text × Text)
burst =
    (100, carol, alice)
    ∷ (101, carol, alice)
    ∷ (102, alice, bob)
    ∷ (103, carol, bob)
    ∷ (104, carol, bob)
    ∷ (105, carol, bob)
    ∷ (106, carol, bob)
    ∷ []

burst-IsWithin : All (IsWithin 100) burst
burst-IsWithin = ground arith

few : length (lookup_or [] carol filter.player_messages) ≤ 5
unfolding lookup_or lookup
few = omega arith

passed-le_example : passed carol burst filter ≤ 5
passed-le_example = passed-le 100 carol burst filter burst-IsWithin few

abbrev teleports : TeleportManager ℕ
teleports = record {
  pending_requests = (bob, record { requester_id = alice; target_id = bob; timestamp = 3 }) ∷ [];
  spawn_points = [];
}

teleports-IsValid : Requests.IsValid teleports
unfolding lookup
teleports-IsValid = (refl, refl, tt)

abbrev first_request : TeleportRequest
first_request = record { requester_id = alice; target_id = bob; timestamp = 3 }

abbrev second_request : TeleportRequest
second_request = record { requester_id = carol; target_id = bob; timestamp = 5 }

abbrev later_calls : List Requests.Call
later_calls = Requests.accepts alice ∷ Requests.cancels alice ∷ Requests.clears 8 ∷ []

later_calls-Keeps : All (History.Keeps bob second_request) later_calls
later_calls-Keeps = ((λ e. cc), ((λ e. cc), (omega arith, tt)))

steps-pending_example :
    (Requests.pending bob (History.steps [] teleports) ≡ some first_request
      → History.IsSent bob first_request []
        ⊎ ((Requests.pending bob teleports ≡ some first_request)
            × All (History.Spares bob first_request) []))
    × (Requests.pending bob (
          History.steps
            (Requests.cancels alice ∷ Requests.requests 5 carol bob ∷ later_calls)
            teleports)
        ≡ some second_request)
steps-pending_example =
    History.steps-pending bob carol 5 first_request [] (Requests.cancels alice ∷ []) later_calls
      teleports teleports-IsValid later_calls-Keeps

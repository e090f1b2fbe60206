-- ===== src/Tests/Samples.antt =====
-- Data that the tests share.
use mcx.Prelude.{ℕ, zero, suc, ◌≡◌, refl, ap, some, none, [], ◌∷◌, length}
use mcx.Prelude.Text.{Text}
use mcx.Events.{Player, Event, EventType, empty_event}

abbrev pub alice : Text
alice = 97 ∷ 108 ∷ []

abbrev pub bob : Text
bob = 98 ∷ []

abbrev pub carol : Text
carol = 99 ∷ []

-- A text of one letter, over and over.
unfoldable repeated : ℕ → Text
repeated zero = []
repeated (suc n) = 65 ∷ repeated n

length-repeated : (n : ℕ) → length (repeated n) ≡ n
unfolding repeated
length-repeated zero = refl
length-repeated (suc n) = ap suc (length-repeated n)

pub long : Text
long = repeated 65600

pub long-length : length long ≡ 65600
unfolding long
long-length = length-repeated 65600

abbrev pub player_alice : Player
player_alice = record { id = alice; name = alice; position = none; scene = [] }

abbrev pub alice_joins : Event
alice_joins = record empty_event { player_join = some (record { player = player_alice }) }

abbrev pub alice_quits : Event
alice_quits = record empty_event {
  type = EventType.player_quit;
  player_quit = some (record { player = player_alice });
}

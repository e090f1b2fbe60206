-- ===== src/Wire/Protocol.antt =====
-- src/core/protocol.cpp: packets of the bridge protocol. A byte is a number below 256; the type of
-- a packet is any byte, since the cast in `Deserialize` makes every byte a PacketType.
pub mod RoundTrip
pub mod Fields
use mcx.Prelude.{
  ℕ, ◌+◌, ◌*◌, ◌/◌, ◌%◌, Bool, true, false, not, List, ◌∷◌, ◌++◌, ltb, ◌==◌, if◌then◌else◌, length,
  take, Eq, nat_eq, text_key,
}
use mcx.Prelude.Text.{Text}

abbrev pub magic : ℕ
magic = 0x4d

abbrev pub version : ℕ
version = 1

-- The named packet types, and the byte that each is sent as.
pub data PacketType : Type 0 where
  hello heartbeat player_join player_quit chat_message command : PacketType
  action_execute action_result error : PacketType

abbrev pub type_byte : PacketType → ℕ
type_byte hello = 0x01
type_byte heartbeat = 0x02
type_byte player_join = 0x10
type_byte player_quit = 0x11
type_byte chat_message = 0x12
type_byte command = 0x13
type_byte action_execute = 0x20
type_byte action_result = 0x21
type_byte error = 0xff

pub record McxPacket : Type 0 where
  pub type : ℕ
  pub payload : List ℕ

-- The length field holds the low 16 bits of the size.
unfoldable pub serialize : McxPacket → List ℕ
serialize p =
    magic ∷ version ∷ p.type ∷ (length p.payload % 256) ∷ (length p.payload / 256 % 256) ∷ p.payload

-- The part after the tests of the first two bytes. `out.type` is written before the length is
-- tested, so it stays written when that test fails.
unfoldable pub read_body : ℕ → ℕ → List ℕ → McxPacket → Bool × McxPacket
read_body type payload_len rest out =
    let typed : McxPacket = record out { type = type } in
    if ltb (5 + length rest) (5 + payload_len)
    then (false, typed)
    else (true, record typed { payload = take payload_len rest })

unfoldable pub deserialize : List ℕ → McxPacket → Bool × McxPacket
unfolding read_body
deserialize (m ∷ v ∷ type ∷ lo ∷ hi ∷ rest) out =
    if not (m == magic)
    then (false, out)
    else if not (v == version)
    then (false, out)
    else read_body type (lo + hi * 256) rest out
deserialize bytes out = (false, out)

-- Two texts with a zero byte between them.
unfoldable pub field_pair : Text → Text → List ℕ
field_pair a b = a ++ (0 ∷ b)

unfoldable pub create_player_join : Text → Text → McxPacket
unfolding field_pair
create_player_join player_id player_name = record {
  type = type_byte PacketType.player_join;
  payload = field_pair player_id player_name;
}

unfoldable pub create_player_quit : Text → McxPacket
create_player_quit player_id = record {
  type = type_byte PacketType.player_quit;
  payload = player_id;
}

unfoldable pub create_chat_message : Text → Text → McxPacket
unfolding field_pair
create_chat_message player_id message = record {
  type = type_byte PacketType.chat_message;
  payload = field_pair player_id message;
}

unfoldable pub create_action : Text → Text → McxPacket
unfolding field_pair
create_action action_type payload = record {
  type = type_byte PacketType.action_execute;
  payload = field_pair action_type payload;
}

-- ===== src/Wire/Rcon.antt =====
-- src/core/rcon.cpp. An int32_t is its 32-bit pattern. The socket is a parameter of each call: how
-- many bytes `send` took, and the bytes that the two calls of `recv` delivered. Opening and closing
-- sockets, and the accept loop of the server, are in Sockets/Client.
pub mod Packets
use mcx.Prelude.{
  ℕ, zero, suc, ◌+◌, ◌-◌, ◌%◌, ◌^◌, Bool, false, not, Option, none, some, List, [], ◌∷◌, ◌++◌, ltb,
  ◌==◌, if◌then◌else◌, length, take, drop, Eq, nat_eq, text_key,
}
use mcx.Prelude.Text.{Text}
use mcx.Prelude.Int.{ℤ, pos, negsuc, ◌-ℤ◌}
use mcx.Wire.Bytes.{le_bytes, from_le}

pub record RconPacket : Type 0 where
  pub length_field : ℕ
  pub request_id : ℕ
  pub type : ℕ
  pub payload : Text

-- `RconPacket{}`
abbrev pub empty_packet : RconPacket
empty_packet = record { length_field = 0; request_id = 0; type = 0; payload = [] }

-- The bytes that SendPacket builds.
unfoldable pub packet_bytes : RconPacket → List ℕ
packet_bytes packet =
    le_bytes 4 packet.length_field
    ++ (le_bytes 4 packet.request_id
        ++ (le_bytes 4 packet.type ++ (packet.payload ++ (0 ∷ 0 ∷ []))))

-- What the peer and the network do during one exchange: how many bytes are sent, what the first
-- `recv` delivers, and what the second one does.
pub record Exchange : Type 0 where
  pub sent : List ℕ → ℕ
  pub header : List ℕ
  pub body : List ℕ

unfoldable pub send_packet : Exchange → RconPacket → Bool
unfolding packet_bytes
send_packet x packet = x.sent (packet_bytes packet) == length (packet_bytes packet)

-- The signed value of a pattern.
unfoldable pub signed32 : ℕ → ℤ
signed32 w = if ltb w (2 ^ 31) then pos w else negsuc (2 ^ 32 - w - 1)

-- `std::vector<uint8_t> payload(n)` after `recv` into it: what was not delivered stays zero.
unfoldable pub fill : ℕ → List ℕ → List ℕ
fill zero body = []
fill (suc n) [] = 0 ∷ fill n []
fill (suc n) (b ∷ body) = b ∷ fill n body

-- The payload of a packet whose length field leaves `payload_len` bytes. `assign` with a count of
-- one less than nothing throws, which is `none`.
unfoldable pub read_payload : ℤ → List ℕ → Option Text
unfolding fill
read_payload (negsuc n) body = some []
read_payload (pos zero) body = some []
read_payload (pos (suc zero)) body = none
read_payload (pos (suc (suc n))) body = some (take n (fill (suc (suc n)) body))

unfoldable pub receive_packet : Exchange → Option RconPacket
unfolding read_payload
receive_packet x =
    if not (length x.header == 12)
    then some empty_packet
    else let size = from_le (take 4 x.header) in
      elim (read_payload (signed32 size -ℤ pos 8) x.body) [
        | none ↦ none
        | some payload ↦ some (record {
          length_field = size;
          request_id = from_le (take 4 (drop 4 x.header));
          type = from_le (take 4 (drop 8 x.header));
          payload = payload;
        })
      ]

pub record RconClient : Type 0 where
  pub connected : Bool
  pub next_request_id : ℕ

-- A packet with the next request id, its length filled in, and the client with the id used.
abbrev pub request : ℕ → Text → RconClient → RconPacket × RconClient
request type payload client = (
  record {
    length_field = (10 + length payload) % 2 ^ 32;
    request_id = client.next_request_id;
    type = type;
    payload = payload;
  },
  record client { next_request_id = (client.next_request_id + 1) % 2 ^ 32 },
)

-- The test `requestId != -1`.
abbrev pub is_accepted : RconPacket → Bool
is_accepted response = not (response.request_id == 2 ^ 32 - 1)

unfoldable pub authenticate : Text → Exchange → RconClient → Option Bool × RconClient
unfolding send_packet receive_packet
authenticate password x client =
    let (packet, client') = request 3 password client in
    (
      if not (send_packet x packet) then some false else elim (receive_packet x) [
        | none ↦ none
        | some response ↦ some (is_accepted response)
      ],
      client',
    )

unfoldable pub send_command : Text → Exchange → RconClient → Option Text × RconClient
unfolding send_packet receive_packet
send_command command x client =
    let (packet, client') = request 2 command client in
    (
      if not (send_packet x packet)
          then some []
          else elim (receive_packet x) [ none ↦ none | some response ↦ some response.payload ],
      client',
    )

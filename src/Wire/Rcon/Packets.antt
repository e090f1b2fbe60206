-- ===== src/Wire/Rcon/Packets.antt =====
-- RCON packets read back, and what a client makes of a reply: src/core/rcon.cpp.
use mcx.Prelude.{
  ℕ, zero, suc, ◌+◌, ◌-◌, ◌^◌, ◌≤◌, ◌<◌, ◌≡◌, refl, ap, ◌∙◌, ◌≢◌, true, not, some, List, [], ◌∷◌,
  ◌++◌, arith, ◌==◌, length, take, drop, nat_eq, text_key,
}
use mcx.Prelude.Text.{Text}
use mcx.Prelude.Int.{pos, ◌-ℤ◌}
use mcx.Wire.Bytes.{le_bytes, from_le, from_le-le_bytes}
use mcx.Wire.Rcon.{
  RconPacket, packet_bytes, Exchange, send_packet, signed32, fill, read_payload, receive_packet,
  RconClient, request, authenticate, send_command,
}

-- The fields are patterns of 32 bits, and the length is that of the payload and ten bytes more.
pub record IsWellFormed (packet : RconPacket) : Type 0 where
  pub length_is : packet.length_field ≡ 10 + length packet.payload
  pub fits : length packet.payload < 2 ^ 31 - 10
  pub id_fits : packet.request_id < 2 ^ 32
  pub type_fits : packet.type < 2 ^ 32

take-fill : (s rest : List ℕ) (n : ℕ) → length s ≤ n → take (length s) (fill n (s ++ rest)) ≡ s
unfolding fill
take-fill [] rest n h = refl
take-fill (c ∷ s) rest zero h = absurd (omega arith)
take-fill (c ∷ s) rest (suc n) h = ap (◌∷◌ c) (take-fill s rest n (omega arith))

-- A payload and its two zero bytes.
read_payload-delivered :
    (s : Text) → read_payload (pos (suc (suc (length s)))) (s ++ (0 ∷ 0 ∷ [])) ≡ some s
unfolding read_payload
read_payload-delivered s = ap some (take-fill s (0 ∷ 0 ∷ []) (suc (suc (length s))) (omega arith))

-- The exchange delivers the packet: its first twelve bytes, and then the others.
pub record Delivers (x : Exchange) (packet : RconPacket) : Type 0 where
  pub header_is : x.header ≡ take 12 (packet_bytes packet)
  pub body_is : x.body ≡ drop 12 (packet_bytes packet)

payload_size : (n : ℕ) → n < 2 ^ 31 - 10 → signed32 (10 + n) -ℤ pos 8 ≡ pos (suc (suc n))
unfolding ◌-ℤ◌ signed32
payload_size n h = ground arith

header_parts :
    (p : RconPacket)
    → let header = take 12 (packet_bytes p) in
      (length header ≡ 12)
      × (take 4 header ≡ le_bytes 4 p.length_field)
      × (take 4 (drop 4 header) ≡ le_bytes 4 p.request_id)
      × (take 4 (drop 8 header) ≡ le_bytes 4 p.type)
      × (drop 12 (packet_bytes p) ≡ p.payload ++ (0 ∷ 0 ∷ []))
unfolding packet_bytes le_bytes
header_parts p = (refl, refl, refl, refl, refl)

-- What SendPacket writes for a well-formed packet, ReceivePacket reads back.
receive_packet-packet_bytes :
    (x : Exchange) (p : RconPacket) → IsWellFormed p → Delivers x p → receive_packet x ≡ some p
unfolding receive_packet
receive_packet-packet_bytes x p v d =
    let parts = header_parts p in
    let field = λ (n : ℕ). ap (λ (h : List ℕ). from_le (take 4 (drop n h))) d.header_is in
    let size : from_le (take 4 x.header) ≡ 10 + length p.payload =
      field 0
      ∙ ap from_le parts.1
      ∙ from_le-le_bytes 4 p.length_field (omega arith)
      ∙ v.length_is in
    let id : from_le (take 4 (drop 4 x.header)) ≡ p.request_id =
      field 4 ∙ ap from_le parts.2 ∙ from_le-le_bytes 4 p.request_id v.id_fits in
    let type : from_le (take 4 (drop 8 x.header)) ≡ p.type =
      field 8 ∙ ap from_le parts.3 ∙ from_le-le_bytes 4 p.type v.type_fits in
    let payload : read_payload (signed32 (from_le (take 4 x.header)) -ℤ pos 8) x.body
        ≡ some p.payload =
      rw (size, payload_size (length p.payload) v.fits, d.body_is, parts.4)
        (read_payload-delivered p.payload) in
    ground (arith, ap length d.header_is, parts.0, size, id, type, payload, v.length_is)

-- With a reply that is delivered whole, logging in succeeds exactly where the id of the reply is not
-- -1, and a command gives the payload of the reply.
replies :
    (password command : Text) (x : Exchange) (client : RconClient) (p : RconPacket)
    → IsWellFormed p
    → Delivers x p
    → ((bytes : List ℕ) → x.sent bytes ≡ length bytes)
    → ((authenticate password x client).0 ≡ some (not (p.request_id == 2 ^ 32 - 1)))
      × ((send_command command x client).0 ≡ some p.payload)
unfolding authenticate send_command send_packet
replies password command x client p v d s = (
  ground
      (arith, s (packet_bytes (request 3 password client).0), receive_packet-packet_bytes x p v d),
  ground
      (arith, s (packet_bytes (request 2 command client).0), receive_packet-packet_bytes x p v d),
)

-- A peer that sends nothing, or less than a header, is taken to accept any password.
authenticate_silent :
    (password : Text) (x : Exchange) (client : RconClient)
    → ((bytes : List ℕ) → x.sent bytes ≡ length bytes)
    → length x.header ≢ 12
    → (authenticate password x client).0 ≡ some true
unfolding authenticate send_packet receive_packet
authenticate_silent password x client s h =
    ground (arith, s (packet_bytes (request 3 password client).0))

-- ===== src/Tests/Wire.antt =====
-- The packets, the serializer, RCON and WebSocket frames at concrete inputs.
use mcx.Prelude.{
  ℕ, ◌+◌, ◌≡◌, refl, ltb, if◌then◌else◌, ◌≢◌, true, some, List, [], ◌∷◌, ◌++◌, map, arith, length,
  take, drop, All,
}
use mcx.Wire.Bytes.{IsByte}
use mcx.Wire.Protocol.{McxPacket, serialize, deserialize, read_body}
use mcx.Wire.Protocol.RoundTrip.{deserialize-serialize, deserialize_sound}
use mcx.Wire.Serializer.Fields.{
  Field, text, uint32, double, kind_of, write_all, read_all, Fits, read_all-write_all,
}
use mcx.Wire.Rcon.{RconPacket, packet_bytes, Exchange, RconClient}
use mcx.Wire.WebSocket.{ok, decode_frame, encode_frame}
use mcx.Wire.WebSocket.Frames.{decode_frame-encode_frame}
use mcx.Wire.WebSocket.Masked.{masked, decode_frame-masked}
use mcx.Tests.Samples.{alice, bob, long}

abbrev packet : McxPacket
packet = record { type = 0x12; payload = alice }

abbrev blank : McxPacket
blank = record { type = 0; payload = [] }

deserialize-serialize_example : deserialize (serialize packet ++ bob) blank ≡ (true, packet)
deserialize-serialize_example = deserialize-serialize packet blank bob (omega arith)

abbrev wire_bytes : List ℕ
wire_bytes = 0x4d ∷ 1 ∷ 0x12 ∷ 2 ∷ 0 ∷ 97 ∷ 108 ∷ 7 ∷ []

wire_bytes-read : deserialize wire_bytes blank ≡ (true, packet)
unfolding deserialize read_body
wire_bytes-read = refl

wire_bytes-IsByte : All IsByte wire_bytes
wire_bytes-IsByte = ground arith

deserialize_sound_example : (rest : List ℕ) × (wire_bytes ≡ serialize packet ++ rest)
deserialize_sound_example =
    deserialize_sound wire_bytes blank packet wire_bytes-IsByte wire_bytes-read

abbrev fields : List Field
fields = text alice ∷ uint32 70000 ∷ double 5 ∷ []

fields-Fits : All Fits fields
fields-Fits = ground arith

read_all-write_all_example :
    read_all (map kind_of fields) (bob ++ (write_all fields ++ bob)) (length bob)
    ≡ some (fields, length (bob ++ write_all fields))
read_all-write_all_example = read_all-write_all fields bob bob fields-Fits

abbrev client : RconClient
client = record { connected = true; next_request_id = 1 }

abbrev response : RconPacket
response = record { length_field = 12; request_id = 1; type = 0; payload = alice }

abbrev exchange : Exchange
exchange = record {
  sent = (λ bytes. length bytes);
  header = take 12 (packet_bytes response);
  body = drop 12 (packet_bytes response);
}

abbrev silence : Exchange
silence = record { sent = (λ bytes. length bytes); header = []; body = [] }

silence-short : length silence.header ≢ 12
silence-short = omega arith

decode_frame-encode_frame_example :
    decode_frame (encode_frame long) ≡ ok (if ltb (length long) 65536 then long else take 127 long)
decode_frame-encode_frame_example = decode_frame-encode_frame long

alice-IsByte : All IsByte alice
alice-IsByte = ground arith

decode_frame-masked_example :
    decode_frame (0x81 ∷ (128 + length alice) ∷ 1 ∷ 2 ∷ 3 ∷ 4 ∷ masked 1 2 3 4 alice) ≡ ok alice
decode_frame-masked_example =
    decode_frame-masked 1 2 3 4 alice (omega arith) (omega arith) (omega arith) (omega arith)
      alice-IsByte (omega arith)

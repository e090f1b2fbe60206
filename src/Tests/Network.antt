-- ===== src/Tests/Network.antt =====
-- The HTTP client, the connections of the WebSocket server and the listening sockets at concrete inputs.
use mcx.Prelude.{
  ℕ, ◌≡◌, refl, true, false, ◌&&◌, Option, none, some, List, [], ◌∷◌, ◌++◌, arith, ltb, Bool, map,
  leb, ◌==◌, if◌then◌else◌, append_nil,
}
use mcx.Prelude.Text.{Text, codes}
use mcx.Prelude.Int.{pos}
use mcx.Prelude.Decimal.{
  is_space, skip_spaces, is_digit, digits, digits_of, to_string, stoi, stoi_signed, stoi_unsigned,
}
use mcx.Prelude.Search.{behind, cut_at, Without}
use mcx.Wire.Http.{
  HttpRequest, returns, throws, empty_response, Network, split_path, host_port, received,
  parse_response, perform_at, perform_request,
}
use mcx.Wire.Http.Answers.{answer_text, parse_response-answer_text}
use mcx.Wire.Http.Requests.{url_text}
use mcx.Wire.Http.Worker
use mcx.Wire.WebSocket.{read_payload, substr, ok, decode_frame, throws as frame_throws}
use mcx.Wire.WebSocket.Clients
use mcx.Wire.WebSocket.Clients.Sessions
use mcx.Sockets.{System}
use mcx.Tests.Samples.{alice, bob, carol}

-- HTTP/1.1 204 b, with one header line.
abbrev answer : Text
answer = answer_text (49 ∷ 46 ∷ 49 ∷ []) 204 bob (carol ∷ []) alice

answer-Without : Without 0 answer
unfolding codes to_string digits_of
answer-Without = ground arith

parse_response-answer_text_example :
    parse_response (received (answer ∷ []))
    ≡ returns (record {
      status_code = pos 204;
      body = alice;
      headers = [];
      success = leb 200 204 && ltb 204 300;
    })
unfolding is_space
parse_response-answer_text_example =
    parse_response-answer_text (49 ∷ 46 ∷ 49 ∷ []) 204 bob (carol ∷ []) alice (answer ∷ [])
      (λ e. absurd cc) (refl, (refl, (refl, tt))) (omega arith) (refl, tt)
      (((λ e. absurd cc), (refl, tt)), tt) (append_nil answer) (answer-Without, tt)

-- A network in which every host answers with that text.
abbrev network : Network
network = record {
  resolves = (λ host. true);
  opens = true;
  connects = (λ host port. true);
  receives = (λ host port request. answer ∷ []);
}

abbrev blank : HttpRequest
blank = record { method = bob; url = []; headers = []; body = [] }

abbrev pending : Text → Option ℕ → Worker.PendingRequest ℕ
pending url callback = record { request = record blank { url = url }; callback = callback }

-- c://b:b
abbrev bad_url : Text
bad_url = url_text carol (bob ++ (58 ∷ bob)) none none

no_scheme : perform_request network (record blank { url = alice }) ≡ returns empty_response
unfolding perform_request cut_at behind codes
no_scheme = refl

no_port : perform_request network (record blank { url = bad_url }) ≡ throws
unfolding perform_request perform_at split_path host_port cut_at behind codes stoi skip_spaces
    is_space stoi_signed stoi_unsigned digits is_digit
no_port = refl

abbrev before_bad : List (Worker.PendingRequest ℕ)
before_bad = pending alice (some 5) ∷ []

abbrev greeting : Text
greeting = codes "Sec-WebSocket-Key: "

abbrev accepted_text : Text
accepted_text = 65 ∷ []

abbrev connection : List Text → Clients.Connection
connection frames = record { hello = some greeting; frames = map (λ frame. (true, frame)) frames }

greeted : (response : Text) × (Clients.perform_handshake (some greeting) ≡ some response)
unfolding Clients.perform_handshake cut_at behind codes
greeted = (_, refl)

one_letter : decode_frame (0x81 ∷ 1 ∷ 65 ∷ []) ≡ ok accepted_text
unfolding decode_frame read_payload substr
one_letter = refl

too_short : decode_frame (0x81 ∷ 127 ∷ []) ≡ frame_throws
unfolding decode_frame read_payload substr
too_short = refl

abbrev visitor : Clients.Connection
visitor = connection ((0x81 ∷ 1 ∷ 65 ∷ []) ∷ [])

abbrev killer : Clients.Connection
killer = connection ((0x81 ∷ 1 ∷ 65 ∷ []) ∷ (0x81 ∷ 127 ∷ []) ∷ [])

abbrev visits : List (List Text)
visits = (accepted_text ∷ []) ∷ []

abbrev rounds : List (Bool × Option Clients.Connection)
rounds = (true, some visitor) ∷ (true, none) ∷ (false, some visitor) ∷ []

abbrev one_round : List (Bool × Option Clients.Connection)
one_round = (true, some visitor) ∷ []

accept_loop-sessions_example :
    (Clients.accept_loop rounds (Sessions.idle 1 [])
      ≡ Clients.serving (Sessions.idle 2 (Sessions.sessions 1 (visitor ∷ []) visits)))
    × (Clients.accept_loop (one_round ++ ((true, some killer) ∷ one_round)) (Sessions.idle 1 [])
        ≡ Clients.terminated (
            Sessions.busy 2 3 (
              (Sessions.sessions 1 (visitor ∷ []) visits ++ (Clients.connected 2 1 ∷ []))
              ++ (Clients.message 2 1 accepted_text ∷ []))))
accept_loop-sessions_example =
    Sessions.accept_loop-sessions rounds one_round one_round visits visits 1 killer greeted.0
      (0x81 ∷ 127 ∷ []) ((true, 0x81 ∷ 1 ∷ 65 ∷ []) ∷ []) [] (accepted_text ∷ [])
      ((one_letter, tt), tt) (refl, tt) ((one_letter, tt), tt) greeted.1 refl (refl, tt)
      (one_letter, tt) too_short

-- A system that gives the descriptor 3, and on which the port 80 is taken.
abbrev system : System
system = record {
  socket = (λ fds. some 3);
  binds = (λ port. if port == 80 then false else true);
  listens = true;
}

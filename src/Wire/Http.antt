-- ===== src/Wire/Http.antt =====
-- HttpClient of src/core/http_client.cpp: the request and its answer. The network is a parameter.
pub mod Answers
pub mod Requests
pub mod Worker
use mcx.Prelude.{
  ℕ, ◌+◌, ◌-◌, ◌%◌, ◌^◌, Bool, false, ◌&&◌, Option, none, some, List, [], ◌∷◌, ◌++◌, ltb, leb, ◌==◌,
  if◌then◌else◌,
}
use mcx.Prelude.Text.{Text, codes}
use mcx.Prelude.Int.{ℤ, pos, negsuc}
use mcx.Prelude.Decimal.{is_space, skip_spaces, is_digit, stoi}
use mcx.Prelude.Search.{behind, cut_at, c_str}

pub record HttpRequest : Type 0 where
  pub method : Text
  pub url : Text
  pub headers : List (Text × Text)
  pub body : Text

pub record HttpResponse : Type 0 where
  pub status_code : ℤ
  pub body : Text
  pub headers : List (Text × Text)
  pub success : Bool

abbrev pub empty_response : HttpResponse
empty_response = record { status_code = pos 0; body = []; headers = []; success = false }

-- What PerformRequest ends in: a response, an exception of std::stoi, or a status that sscanf is
-- not defined on.
pub data Performed : Type 0 where
  returns : HttpResponse → Performed
  throws undefined : Performed

-- The calls of the system: gethostbyname finds the host, a socket is made, connect succeeds, and what
-- each recv returns once the text was sent.
pub record Network : Type 0 where
  pub resolves : Text → Bool
  pub opens : Bool
  pub connects : Text → ℕ → Bool
  pub receives : Text → ℕ → Text → List Text

-- The host with its port, and the path.
unfoldable pub split_path : Text → Text × Text
split_path s = elim (cut_at (codes "/") s) [
  | none ↦ (s, codes "/")
  | some (host, path) ↦ (host, codes "/" ++ path)
]

-- The host and the port; `none` where std::stoi throws.
unfoldable pub host_port : Text → Option (Text × ℤ)
host_port host = elim (cut_at (codes ":") host) [
  | none ↦ some (host, pos 80)
  | some (name, port) ↦ elim (stoi port) [ none ↦ none | some n ↦ some (name, n) ]
]

-- The port as the uint16_t that htons takes.
unfoldable pub to_port : ℤ → ℕ
to_port (pos n) = n % 2 ^ 16
to_port (negsuc n) = 2 ^ 16 - 1 - n % 2 ^ 16

unfoldable pub header_lines : List (Text × Text) → Text
header_lines [] = []
header_lines ((key, val) ∷ headers) =
    key ++ (codes ": " ++ (val ++ (13 ∷ 10 ∷ header_lines headers)))

unfoldable pub request_text : HttpRequest → Text → Text → Text
unfolding header_lines
request_text req host path =
    req.method
    ++ (codes " "
        ++ (path
            ++ (codes " HTTP/1.1"
                ++ (13
                    ∷ 10
                    ∷ (codes "Host: "
                        ++ (host
                            ++ (13
                                ∷ 10
                                ∷ (codes "Connection: close"
                                    ++ (13
                                        ∷ 10
                                        ∷ (header_lines req.headers
                                            ++ (13 ∷ 10 ∷ req.body)))))))))))

-- `responseData += buffer`: each chunk as far as its first zero.
unfoldable pub received : List Text → Text
received [] = []
received (chunk ∷ chunks) = c_str chunk ++ received chunks

unfoldable pub skip_word : Text → Text
skip_word [] = []
skip_word (c ∷ cs) = let rest = skip_word cs in if is_space c then c ∷ cs else rest

unfoldable pub starts_number : Text → Bool
starts_number [] = false
starts_number (c ∷ cs) = is_digit c

unfoldable pub skip_sign : Text → Text
skip_sign [] = []
skip_sign (c ∷ cs) = if c == 45 then cs else if c == 43 then cs else c ∷ cs

-- What `%*s %d` makes of a text with a word at its head.
unfoldable pub scan_word : Text → Option ℤ
unfolding skip_word starts_number skip_sign
scan_word text =
    let rest = skip_word text in
    if starts_number (skip_sign (skip_spaces rest)) then stoi rest else some (pos 0)

-- `sscanf(line, "HTTP/%*s %d", &code)` with a code of zero before; `none` where the number does not fit.
unfoldable pub scan_status : Text → Option ℤ
unfolding scan_word
scan_status line = elim (behind (codes "HTTP/") line) [
  | none ↦ some (pos 0)
  | some rest ↦ scan_word (skip_spaces rest)
]

-- What follows the first empty line.
unfoldable pub body_of : Text → Text
body_of text = elim (cut_at (13 ∷ 10 ∷ 13 ∷ 10 ∷ []) text) [
  | none ↦ []
  | some (before, rest) ↦ rest
]

unfoldable pub is_success : ℤ → Bool
is_success (pos n) = leb 200 n && ltb n 300
is_success (negsuc n) = false

unfoldable pub parse_response : Text → Performed
unfolding scan_status body_of is_success
parse_response text = elim (cut_at (13 ∷ 10 ∷ []) text) [
  | none ↦ returns empty_response
  | some (line, rest) ↦ elim (scan_status (c_str line)) [
    | none ↦ undefined
    | some code ↦ returns (record {
      status_code = code;
      body = body_of text;
      headers = [];
      success = is_success code;
    })
  ]
]

module _ (network : Network) where
  -- From the look-up of the host on.
  unfoldable pub exchange : HttpRequest → Text → Text → ℕ → Performed
  unfolding request_text received parse_response
  exchange req host path port =
      if network.resolves (c_str host)
      then if network.opens
        then if network.connects (c_str host) port
          then parse_response
              (received (network.receives (c_str host) port (request_text req host path)))
          else returns empty_response
        else returns empty_response
      else returns empty_response

  -- Behind the exception of std::stoi.
  unfoldable pub perform_at : HttpRequest → Text → Option (Text × ℤ) → Performed
  unfolding to_port exchange
  perform_at req path none = throws
  perform_at req path (some (host, port)) = exchange req host path (to_port port)

  unfoldable pub perform_request : HttpRequest → Performed
  unfolding split_path host_port perform_at
  perform_request req = elim (cut_at (codes "://") req.url) [
    | none ↦ returns empty_response
    | some (scheme, rest) ↦ perform_at req (split_path rest).1 (host_port (split_path rest).0)
  ]

-- ===== src/Wire/Http/Answers.antt =====
-- Answers of a server, as PerformRequest of src/core/http_client.cpp reads them.
use mcx.Prelude.{
  ℕ, ◌+◌, ◌^◌, ◌<◌, ◌≡◌, ◌≢◌, refl, ap, ◌∙◌, true, false, none, some, List, [], ◌∷◌, ◌++◌, arith,
  ltb, leb, ◌==◌, All, All-append, All-append_left, concat, subst, ◌&&◌, append_nil,
}
use mathlib.Core.Path.{ap₂}
use mcx.Prelude.Text.{Text, codes}
use mcx.Prelude.Int.{pos}
use mcx.Prelude.Decimal.{
  is_space, skip_spaces, is_digit, digits_behind, stoi, to_string, Ends, stoi-append,
  to_string-StartsDigit, to_string-Without,
}
use mcx.Prelude.Search.{
  behind, cut_at, c_str, Without, behind-append, c_str-Without, cut_at-head, cut_at-Without,
  cut_at_step,
}
use mcx.Wire.Http.{
  returns, received, skip_word, starts_number, skip_sign, scan_word, scan_status, body_of,
  is_success, parse_response,
}

abbrev pub crlf : Text
crlf = 13 ∷ 10 ∷ []

-- The header lines, the empty line, and the body.
abbrev pub lines_text : List Text → Text → Text
lines_text [] body = crlf ++ body
lines_text (line ∷ lines) body = line ++ (crlf ++ lines_text lines body)

abbrev pub status_line : Text → ℕ → Text → Text
status_line version code reason =
    codes "HTTP/" ++ (version ++ (32 ∷ (to_string code ++ (32 ∷ reason))))

abbrev pub IsLine : Text → Type 0
IsLine line = (line ≢ []) × Without 13 line

abbrev pub IsWord : Text → Type 0
IsWord = All (λ c. is_space c ≡ false)

not_empty_line :
    (c : ℕ) (s : Text) → (c == 13) ≡ false → behind (crlf ++ crlf) (13 ∷ 10 ∷ c ∷ s) ≡ none
unfolding behind
not_empty_line c s h = ground (arith, h)

not_return : (s : Text) → behind (crlf ++ crlf) (10 ∷ s) ≡ none
unfolding behind
not_return s = refl

-- The first empty line is the one behind the header lines.
empty_line :
    (lines : List Text) (body : Text)
    → All IsLine lines
    → (before : Text) × (cut_at (crlf ++ crlf) (crlf ++ lines_text lines body)
        ≡ some (before, body))
empty_line [] body h = ([], cut_at-head 13 (10 ∷ crlf) body)
empty_line ([] ∷ lines) body h = absurd (h.0.0 refl)
empty_line ((c ∷ line) ∷ lines) body h =
    let (before, e) = empty_line lines body h.1 in
    let text = (c ∷ line) ++ (crlf ++ lines_text lines body) in
    let further =
      cut_at-Without 13 (10 ∷ crlf) (c ∷ line) (crlf ++ lines_text lines body) h.0.1 e in
    (
      13 ∷ 10 ∷ ((c ∷ line) ++ before),
      cut_at_step (crlf ++ crlf) 13 (10 ∷ text) (not_empty_line c _ h.0.1.0)
          (cut_at_step (crlf ++ crlf) 10 text (not_return text) further),
    )

skip_word-IsWord : (word s : Text) → IsWord word → skip_word (word ++ (32 ∷ s)) ≡ 32 ∷ s
unfolding skip_word is_space
skip_word-IsWord [] s h = refl
skip_word-IsWord (c ∷ word) s h = ground (arith, h.0, skip_word-IsWord word s h.1)

skip_spaces-word : (c : ℕ) (s : Text) → is_space c ≡ false → skip_spaces (c ∷ s) ≡ c ∷ s
unfolding skip_spaces
skip_spaces-word c s h = ground (arith, h)

Ends-space : (s : Text) → Ends (32 ∷ s)
unfolding digits_behind is_digit
Ends-space s m = refl

starts_number-digit :
    (d : ℕ) (rest : Text)
    → d < 10
    → starts_number (skip_sign (skip_spaces (32 ∷ (48 + d) ∷ rest))) ≡ true
unfolding starts_number skip_sign skip_spaces is_space is_digit
starts_number-digit d rest h = ground arith

stoi-space : (s : Text) → stoi (32 ∷ s) ≡ stoi s
unfolding stoi skip_spaces is_space
stoi-space s = refl

scan_number :
    (word : Text) (code : ℕ) (reason : Text)
    → IsWord word
    → code < 2 ^ 31
    → scan_word (word ++ (32 ∷ (to_string code ++ (32 ∷ reason)))) ≡ some (pos code)
unfolding scan_word
scan_number word code reason h small =
    let (d, rest, digit, e) = to_string-StartsDigit code (32 ∷ reason) in
    let starts : starts_number (skip_sign (skip_spaces (32 ∷ (to_string code ++ (32 ∷ reason)))))
        ≡ true =
      ap (λ s. starts_number (skip_sign (skip_spaces (32 ∷ s)))) e
      ∙ starts_number-digit d rest digit in
    rw (scan_word, skip_word-IsWord word (to_string code ++ (32 ∷ reason)) h, starts)
      (stoi-space (to_string code ++ (32 ∷ reason))
        ∙ stoi-append code (32 ∷ reason) small (Ends-space reason))

scan_status_line :
    (version : Text) (code : ℕ) (reason : Text)
    → version ≢ []
    → IsWord version
    → code < 2 ^ 31
    → scan_status (status_line version code reason) ≡ some (pos code)
unfolding scan_status
scan_status_line [] code reason ne h small = absurd (ne refl)
scan_status_line (c ∷ version) code reason ne h small =
    rw
      (
        scan_status,
        behind-append (codes "HTTP/") ((c ∷ version) ++ (32 ∷ (to_string code ++ (32 ∷ reason)))),
        skip_spaces-word c (version ++ (32 ∷ (to_string code ++ (32 ∷ reason)))) h.0,
      )
      (scan_number (c ∷ version) code reason h small)

received-concat : (chunks : List Text) → All (Without 0) chunks → received chunks ≡ concat chunks
unfolding received
received-concat [] h = refl
received-concat (chunk ∷ chunks) h = ap₂ ◌++◌ (c_str-Without chunk h.0) (received-concat chunks h.1)

concat-Without : (chunks : List Text) → All (Without 0) chunks → Without 0 (concat chunks)
concat-Without [] h = tt
concat-Without (chunk ∷ chunks) h =
    All-append (λ c. (c == 0) ≡ false) chunk (concat chunks) h.0 (concat-Without chunks h.1)

IsWord-Without : (word : Text) → IsWord word → Without 13 word
unfolding is_space
IsWord-Without [] h = tt
IsWord-Without (c ∷ word) h = (ground (arith, h.0), IsWord-Without word h.1)

status_line-Without :
    (version : Text) (code : ℕ) (reason : Text)
    → IsWord version
    → Without 13 reason
    → Without 13 (status_line version code reason)
unfolding codes
status_line-Without version code reason v r =
    let P : ℕ → Type 0 = λ c. (c == 13) ≡ false in
    let number =
      All-append P (to_string code) (32 ∷ reason) (to_string-Without 13 code (omega arith))
        (refl, r) in
    All-append P (codes "HTTP/") _ (refl, (refl, (refl, (refl, (refl, tt)))))
      (All-append P version _ (IsWord-Without version v) (refl, number))

abbrev pub answer_text : Text → ℕ → Text → List Text → Text → Text
answer_text version code reason lines body =
    status_line version code reason ++ (crlf ++ lines_text lines body)

body_of-answer :
    (line : Text) (lines : List Text) (body : Text)
    → Without 13 line
    → All IsLine lines
    → body_of (line ++ (crlf ++ lines_text lines body)) ≡ body
unfolding body_of
body_of-answer line lines body r h =
    let (before, e) = empty_line lines body h in
    rw (body_of, cut_at-Without 13 (10 ∷ crlf) line (crlf ++ lines_text lines body) r e) refl

parsed :
    (text line rest body : Text) (code : ℕ)
    → cut_at crlf text ≡ some (line, rest)
    → scan_status (c_str line) ≡ some (pos code)
    → body_of text ≡ body
    → parse_response text
      ≡ returns (record {
        status_code = pos code;
        body = body;
        headers = [];
        success = leb 200 code && ltb code 300;
      })
unfolding parse_response is_success
parsed text line rest body code c s b = rw (parse_response, c, s, b) refl

-- The answer that reaches PerformRequest, in whatever chunks, is read back: its status, its body,
-- and success exactly for a status from 200 to 299. Its version is a word, its status fits an int,
-- its reason and header lines have no carriage return, the lines are not empty, and no byte of the
-- answer is zero.
pub parse_response-answer_text :
    (version : Text) (code : ℕ) (reason : Text) (lines : List Text) (body : Text)
    (chunks : List Text)
    → version ≢ []
    → IsWord version
    → code < 2 ^ 31
    → Without 13 reason
    → All IsLine lines
    → concat chunks ≡ answer_text version code reason lines body
    → All (Without 0) chunks
    → parse_response (received chunks)
      ≡ returns (record {
        status_code = pos code;
        body = body;
        headers = [];
        success = leb 200 code && ltb code 300;
      })
parse_response-answer_text version code reason lines body chunks ne v small r ls e zeros =
    let line = status_line version code reason in
    let line' = status_line-Without version code reason v r in
    let clean : Without 0 line =
      All-append_left (λ c. (c == 0) ≡ false) line (crlf ++ lines_text lines body)
        (subst (Without 0) e (concat-Without chunks zeros)) in
    let cut =
      cut_at-Without 13 (10 ∷ []) line (crlf ++ lines_text lines body) line'
        (cut_at-head 13 (10 ∷ []) (lines_text lines body)) in
    ap parse_response (received-concat chunks zeros ∙ e)
    ∙ parsed (answer_text version code reason lines body) line (lines_text lines body) body code
        (cut ∙ ap (λ l. some (l, lines_text lines body)) (append_nil line))
        (ap scan_status (c_str-Without line clean)
          ∙ scan_status_line version code reason ne v small)
        (body_of-answer line lines body line' ls)

-- ===== src/Commands/Parser/Spacing.antt =====
-- ParseCommand on any spacing of words: src/core/command_parser.cpp.
use mcx.Prelude.{
  ℕ, zero, suc, ◌≤◌, ◌≡◌, refl, ◌∙◌, ◌≢◌, true, false, Option, none, some, List, [], ◌∷◌, ◌++◌, map,
  arith, is_empty, length, length-append, All,
}
use mcx.Prelude.Text.{Text}
use mcx.Prelude.Decimal.{is_space, skip_spaces}
use mcx.Commands.Parser.{take_word, drop_word, next_token, tokens, parse_command}

abbrev pub IsBlank : Text → Type 0
IsBlank = All (λ c. is_space c ≡ true)

-- A word: at least one byte, and no white space.
abbrev pub IsWord : Text → Type 0
IsWord w = (w ≢ []) × All (λ c. is_space c ≡ false) w

-- What follows a word: a white space with more of it, and the next word.
abbrev pub Rest : Type 0
Rest = List (ℕ × Text × Text)

abbrev pub render : Rest → Text → Text
render [] tail = tail
render ((c, gap, word) ∷ rest) tail = c ∷ (gap ++ (word ++ render rest tail))

abbrev pub words : Rest → List Text
words rest = map (λ e. e.2) rest

abbrev pub IsSpaced : Rest → Type 0
IsSpaced = All (λ e. (is_space e.0 ≡ true) × IsBlank e.1 × IsWord e.2)

-- A text that ends, or goes on with white space.
abbrev Stops : Text → Type 0
Stops [] = Unit
Stops (c ∷ cs) = is_space c ≡ true

skip_gap : (gap s : Text) → IsBlank gap → skip_spaces (gap ++ s) ≡ skip_spaces s
unfolding skip_spaces
skip_gap [] s b = refl
skip_gap (c ∷ gap) s b = ground (arith, b.0, skip_gap gap s b.1)

skip_blank : (gap : Text) → IsBlank gap → skip_spaces gap ≡ []
unfolding skip_spaces
skip_blank [] b = refl
skip_blank (c ∷ gap) b = ground (arith, b.0, skip_blank gap b.1)

take_word-append : (w s : Text) → All (λ c. is_space c ≡ false) w → Stops s → take_word (w ++ s) ≡ w
unfolding take_word
take_word-append [] [] b h = refl
take_word-append [] (c ∷ s) b h = ground (arith, h)
take_word-append (c ∷ w) s b h = ground (arith, b.0, take_word-append w s b.1 h)

drop_word-append : (w s : Text) → All (λ c. is_space c ≡ false) w → Stops s → drop_word (w ++ s) ≡ s
unfolding drop_word
drop_word-append [] [] b h = refl
drop_word-append [] (c ∷ s) b h = ground (arith, h)
drop_word-append (c ∷ w) s b h = ground (arith, b.0, drop_word-append w s b.1 h)

next_token-from :
    (s : Text) (c : ℕ) (cs : Text)
    → skip_spaces s ≡ c ∷ cs
    → next_token s ≡ some (take_word (c ∷ cs), drop_word (c ∷ cs))
unfolding next_token
next_token-from s c cs e = rw (next_token, e)

skip_none : (c : ℕ) (cs : Text) → is_space c ≡ false → skip_spaces (c ∷ cs) ≡ c ∷ cs
unfolding skip_spaces
skip_none c cs h = rw h

token-parts :
    {a a' b b' : Text}
    → a ≡ a'
    → b ≡ b'
    → ◌≡◌ {A = Option (Text × Text)} (some (a, b)) (some (a', b'))
token-parts e e' = rw (e, e')

next_word :
    (gap w s : Text) → IsBlank gap → IsWord w → Stops s → next_token (gap ++ (w ++ s)) ≡ some (w, s)
next_word gap [] s b h st = absurd (h.0 refl)
next_word gap (c ∷ w) s b h st =
    next_token-from (gap ++ (c ∷ (w ++ s))) c (w ++ s)
      (skip_gap gap (c ∷ (w ++ s)) b ∙ skip_none c (w ++ s) h.1.0)
    ∙ token-parts (take_word-append (c ∷ w) s h.1 st) (drop_word-append (c ∷ w) s h.1 st)

render-Stops : (rest : Rest) (tail : Text) → IsSpaced rest → IsBlank tail → Stops (render rest tail)
render-Stops [] [] h b = tt
render-Stops [] (c ∷ tail) h b = b.0
render-Stops ((c, gap, w) ∷ rest) tail h b = h.0.0

next_blank : (gap : Text) → IsBlank gap → next_token gap ≡ none
unfolding next_token
next_blank gap b = rw (next_token, skip_blank gap b)

length-behind : (c : ℕ) (gap w s : Text) → suc (length s) ≤ length (c ∷ (gap ++ (w ++ s)))
length-behind c gap w s =
    let e = length-append gap (w ++ s) in let e' = length-append w s in ground (arith, e, e')

behind-zero : {n : ℕ} → suc n ≤ 0 → ⊥
behind-zero f = omega arith

tokens-render :
    (fuel : ℕ) (rest : Rest) (tail : Text)
    → IsSpaced rest
    → IsBlank tail
    → length (render rest tail) ≤ fuel
    → tokens fuel (render rest tail) ≡ words rest
unfolding tokens
tokens-render zero [] tail h b f = refl
tokens-render zero ((c, gap, w) ∷ rest) tail h b f = absurd (behind-zero f)
tokens-render (suc fuel) [] tail h b f = rw (tokens, next_blank tail b)
tokens-render (suc fuel) ((c, gap, w) ∷ rest) tail h b f =
    let e =
      next_word (c ∷ gap) w (render rest tail) (h.0.0, h.0.1) h.0.2
        (render-Stops rest tail h.1 b) in
    let l = length-behind c gap w (render rest tail) in
    let ih = tokens-render fuel rest tail h.1 b (omega arith) in rw (tokens, e, ih)

-- A line that holds a word is not empty.
pub is_empty-line : (gap w s : Text) → w ≢ [] → is_empty (gap ++ (w ++ s)) ≡ false
is_empty-line [] [] s h = absurd (h refl)
is_empty-line [] (c ∷ w) s h = refl
is_empty-line (c ∷ gap) w s h = refl

-- A line of words, with any white space before, between and behind them, is read as its first word
-- and the others, in order; the fuel is enough.
pub parse_command-render :
    (gap word : Text) (rest : Rest) (tail : Text)
    → IsBlank gap
    → IsWord word
    → IsSpaced rest
    → IsBlank tail
    → parse_command (gap ++ (word ++ render rest tail)) ≡ record { name = word; args = words rest }
unfolding parse_command
parse_command-render gap word rest tail g w h b =
    let e = next_word gap word (render rest tail) g w (render-Stops rest tail h b) in
    let e' = tokens-render (length (render rest tail)) rest tail h b (omega arith) in
    rw (parse_command, e, e')

-- A line of nothing but white space has no name and no arguments.
parse_command_blank :
    (gap : Text) → IsBlank gap → parse_command gap ≡ record { name = []; args = [] }
unfolding parse_command next_token
parse_command_blank gap b = ground (arith, skip_blank gap b)

-- ===== src/Managers/Chat.antt =====
-- src/core/chat_filter.cpp. A compiled std::regex and its functions are parameters; the clock is an
-- argument, in nanoseconds of steady_clock, which never runs backwards.
pub mod Window
use mcx.Prelude.{
  ℕ, ◌+◌, ◌-◌, ◌*◌, ◌/◌, ◌^◌, Bool, true, false, not, List, [], ◌∷◌, ◌++◌, ltb, leb, if◌then◌else◌,
  length, keep_if, Eq, nat_eq, text_key,
}
use mcx.Prelude.Text.{Text, codes}
use mcx.Maps.{Map, insert, lookup_or}

-- std::regex and what the filter calls of it.
pub record Regexes : Type 1 where
  pub Pattern : Type 0
  pub compile_icase : Text → Pattern
  pub compile : Text → Pattern
  pub regex_search : Text → Pattern → Bool
  pub regex_match : Text → Pattern → Bool
  pub regex_replace : Text → Pattern → Text → Text

abbrev pub second : ℕ
second = 10 ^ 9

-- `duration_cast<seconds>(now - ts).count() > 5`
unfoldable pub is_old : ℕ → ℕ → Bool
is_old now ts = ltb 5 ((now - ts) / second)

module _ (r : Regexes) where
  open r use {Pattern, compile_icase, compile, regex_search, regex_match, regex_replace}

  pub record ChatFilter : Type 0 where
    pub profanity_filters : List Pattern
    pub spam_patterns : List Pattern
    pub max_message_length : ℕ
    pub player_messages : Map Text (List ℕ)

  unfoldable pub add_profanity_filter : Text → ChatFilter → ChatFilter
  add_profanity_filter pattern f = record f {
    profanity_filters = f.profanity_filters ++ compile_icase pattern ∷ [];
  }

  unfoldable pub add_spam_pattern : Text → ChatFilter → ChatFilter
  add_spam_pattern pattern f = record f { spam_patterns = f.spam_patterns ++ compile pattern ∷ [] }

  unfoldable pub set_max_message_length : ℕ → ChatFilter → ChatFilter
  set_max_message_length max_len f = record f { max_message_length = max_len }

  -- The two loops that return at the first pattern that fits.
  unfoldable pub finds_any : Text → List Pattern → Bool
  finds_any message [] = false
  finds_any message (p ∷ ps) = if regex_search message p then true else finds_any message ps

  unfoldable pub matches_any : Text → List Pattern → Bool
  matches_any message [] = false
  matches_any message (p ∷ ps) = if regex_match message p then true else matches_any message ps

  unfoldable pub is_clean : Text → ChatFilter → Bool
  unfolding finds_any
  is_clean message f =
      if ltb f.max_message_length (length message)
      then false
      else not (finds_any message f.profanity_filters)

  unfoldable pub sanitize_by : List Pattern → Text → Text
  sanitize_by [] result = result
  sanitize_by (p ∷ ps) result = sanitize_by ps (regex_replace result p (codes "***"))

  unfoldable pub sanitize : Text → ChatFilter → Text
  unfolding sanitize_by
  sanitize message f = sanitize_by f.profanity_filters message

  -- `playerMessages_[playerId]`, with the old time points removed.
  unfoldable pub recent : ℕ → Text → ChatFilter → List ℕ
  recent now player_id f =
      keep_if (λ ts. not (is_old now ts)) (lookup_or [] player_id f.player_messages)

  abbrev pub set_messages : Text → List ℕ → ChatFilter → ChatFilter
  set_messages player_id times f = record f {
    player_messages = insert player_id times f.player_messages;
  }

  unfoldable pub is_spam : ℕ → Text → Text → ChatFilter → Bool × ChatFilter
  unfolding recent matches_any
  is_spam now message player_id f =
      let times = recent now player_id f in
      if leb 5 (length times)
      then (true, set_messages player_id times f)
      else (matches_any message f.spam_patterns, set_messages player_id (times ++ (now ∷ [])) f)

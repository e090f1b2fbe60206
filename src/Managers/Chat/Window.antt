-- ===== src/Managers/Chat/Window.antt =====
-- The rate limit and the filters of src/core/chat_filter.cpp.
use mcx.Prelude.{
  ℕ, ◌+◌, ◌*◌, ◌≤◌, ◌<◌, ◌≡◌, refl, ap, inl, inr, not, ◌&&◌, ◌||◌, List, [], ◌∷◌, ◌++◌, arith, leb,
  if◌then◌else◌, Bool-cases, Option-cases, length, length-append, All, keep_if, length-keep_if-le,
  nat_eq, text_key, text_eq, text_eq_iff, false, subst, sym,
}
use mcx.Prelude.Text.{Text}
use mcx.Maps.{
  lookup, lookup_or, lookup-insert, lookup-insert_self, AllValues, AllValues-insert,
  AllValues-lookup,
}
use mcx.Managers.Chat.{
  Regexes, second, is_old, ChatFilter, add_profanity_filter, finds_any, is_clean, recent,
  set_messages, is_spam,
}

-- No player has more than five time points.
abbrev pub IsLimited : {r : Regexes} → ChatFilter r → Type 0
IsLimited f = AllValues (λ (times : List ℕ). length times ≤ 5) f.player_messages

-- How many of the time points lie at `start` or later.
abbrev since : ℕ → List ℕ → ℕ
since start times = length (keep_if (leb start) times)

since-le : (start : ℕ) (times : List ℕ) → since start times ≤ length times
since-le start times = length-keep_if-le (leb start) times

-- Within six seconds of `start` nothing that was sent since `start` is old.
since-keep :
    (start now : ℕ) (times : List ℕ)
    → now < start + 6 * second
    → since start (keep_if (λ ts. not (is_old now ts)) times) ≡ since start times
unfolding is_old
since-keep start now [] h = refl
since-keep start now (t ∷ times) h = ground (arith, since-keep start now times h)

since-append :
    (start now : ℕ) (times : List ℕ)
    → start ≤ now
    → since start (times ++ (now ∷ [])) ≡ since start times + 1
since-append start now [] h = ground arith
since-append start now (t ∷ times) h = ground (arith, since-append start now times h)

-- A message, with its time and its sender, that is sent less than six seconds after `start`.
abbrev pub IsWithin : ℕ → ℕ × Text × Text → Type 0
IsWithin start (now, sender, message) = (start ≤ now) × (now < start + 6 * second)

module _ {r : Regexes} where
  abbrev messages_of : Text → ChatFilter r → List ℕ
  messages_of id f = lookup_or [] id f.player_messages

  messages-set :
      (id : Text) (times : List ℕ) (f : ChatFilter r)
      → messages_of id (set_messages r id times f) ≡ times
  unfolding lookup_or
  messages-set id times f = ground (arith, lookup-insert_self id times f.player_messages)

  -- How many of the messages that one player sends are not taken for spam, among those of all.
  abbrev pub passed : Text → List (ℕ × Text × Text) → ChatFilter r → ℕ
  passed id [] f = 0
  passed id ((now, sender, message) ∷ ms) f =
      let (spam, f') = is_spam r now message sender f in
      (if text_eq sender id && not spam then 1 else 0) + passed id ms f'

  -- A message of another player leaves the time points of this one alone.
  messages-other :
      (now : ℕ) (message sender id : Text) (f : ChatFilter r)
      → text_eq sender id ≡ false
      → messages_of id (is_spam r now message sender f).1 ≡ messages_of id f
  unfolding is_spam lookup_or
  messages-other now message sender id f other =
      let times = recent r now sender f in
      ground (
        arith,
        other,
        lookup-insert sender id times f.player_messages,
        lookup-insert sender id (times ++ (now ∷ [])) f.player_messages,
      )

  -- One message, sent less than six seconds after `start`: one that passes is counted from now on,
  -- and the count never falls or passes five.
  is_spam-since :
      (start now : ℕ) (message id : Text) (f : ChatFilter r)
      → start ≤ now
      → now < start + 6 * second
      → since start (messages_of id f) ≤ 5
      → let (spam, f') = is_spam r now message id f in
        ((if spam then 0 else 1) + since start (messages_of id f) ≤ since start (messages_of id f'))
        × (since start (messages_of id f') ≤ 5)
  unfolding is_spam
  is_spam-since start now message id f lo hi h =
      let times = recent r now id f in
      ground (
        arith,
        kept,
        since-le start times,
        since-append start now times lo,
        messages-set id times f,
        messages-set id (times ++ (now ∷ [])) f,
        ap (since start) (messages-set id times f),
        ap (since start) (messages-set id (times ++ (now ∷ [])) f),
      )
    where
      kept : since start (recent r now id f) ≡ since start (messages_of id f)
      kept = unfold recent in since-keep start now (messages_of id f) hi

  -- One message of any player.
  sent-since :
      (start now : ℕ) (message sender id : Text) (f : ChatFilter r)
      → start ≤ now
      → now < start + 6 * second
      → since start (messages_of id f) ≤ 5
      → let (spam, f') = is_spam r now message sender f in
        ((if text_eq sender id && not spam then 1 else 0) + since start (messages_of id f)
          ≤ since start (messages_of id f'))
        × (since start (messages_of id f') ≤ 5)
  sent-since start now message sender id f lo hi h = elim (Bool-cases (text_eq sender id)) [
    | inr other ↦
        let same = messages-other now message sender id f other in rw (other, same) (omega arith, h)
    | inl own ↦
        let one =
          subst
            (λ who.
              let (spam, f') = is_spam r now message who f in
              ((if spam then 0 else 1) + since start (messages_of id f)
                ≤ since start (messages_of id f'))
              × (since start (messages_of id f') ≤ 5))
            (sym ((text_eq_iff sender id).0 own)) (is_spam-since start now message id f lo hi h) in
        (ground (arith, own, one.0), one.1)
  ]

  passed-since :
      (start : ℕ) (id : Text) (ms : List (ℕ × Text × Text)) (f : ChatFilter r)
      → All (IsWithin start) ms
      → since start (messages_of id f) ≤ 5
      → passed id ms f + since start (messages_of id f) ≤ 5
  passed-since start id [] f w h = omega arith
  passed-since start id ((now, sender, message) ∷ ms) f w h =
      let one = sent-since start now message sender id f w.0.0 w.0.1 h in
      omega (arith, one, passed-since start id ms (is_spam r now message sender f).1 w.1 one.1)

  messages-le : (id : Text) (f : ChatFilter r) → IsLimited f → length (messages_of id f) ≤ 5
  unfolding lookup_or
  messages-le id f h = elim (Option-cases (lookup id f.player_messages)) [
    | inl unknown ↦ rw (unknown, lookup_or) (omega arith)
    | inr (times, e) ↦ rw (e, lookup_or) (AllValues-lookup _ id times f.player_messages h e)
  ]

  -- No call makes the filter remember more than five time points of a player.
  is_spam-IsLimited :
      (now : ℕ) (message id : Text) (f : ChatFilter r)
      → IsLimited f
      → IsLimited (is_spam r now message id f).1
  unfolding is_spam
  is_spam-IsLimited now message id f h =
      let times = recent r now id f in
      elim (Bool-cases (leb 5 (length times))) [
        | inl full ↦ rw full (AllValues-insert _ id times f.player_messages few h)
        | inr room ↦ rw room (
            AllValues-insert _ id (times ++ (now ∷ [])) f.player_messages
              (ground (arith, length-append times (now ∷ []))) h)
      ]
    where
      few : length (recent r now id f) ≤ 5
      few = omega (
        arith,
        length-keep_if-le (λ ts. not (is_old now ts)) (messages_of id f),
        messages-le id f h,
      )

  -- A player with at most five stored time points gets at most five messages through among those
  -- that all players send within six seconds, whatever these are and in whatever order.
  pub passed-le :
      (start : ℕ) (id : Text) (ms : List (ℕ × Text × Text)) (f : ChatFilter r)
      → All (IsWithin start) ms
      → length (lookup_or [] id f.player_messages) ≤ 5
      → passed id ms f ≤ 5
  passed-le start id ms f w h =
      omega
        (arith, passed-since start id ms f w (omega (arith, since-le start (messages_of id f), h)))

module _ (r : Regexes) where
  finds_any-append :
      (message : Text) (p : r.Pattern) (ps : List r.Pattern)
      → finds_any r message (ps ++ (p ∷ [])) ≡ (finds_any r message ps || r.regex_search message p)
  unfolding finds_any
  finds_any-append message p [] = ground arith
  finds_any-append message p (q ∷ ps) = ground (arith, finds_any-append message p ps)

  -- A filter that is added refuses exactly what it finds in a message, besides what was refused
  -- before.
  is_clean-add_profanity_filter :
      (message pattern : Text) (f : ChatFilter r)
      → is_clean r message (add_profanity_filter r pattern f)
        ≡ (is_clean r message f && not (r.regex_search message (r.compile_icase pattern)))
  unfolding is_clean add_profanity_filter
  is_clean-add_profanity_filter message pattern f =
      ground (arith, finds_any-append message (r.compile_icase pattern) f.profanity_filters)

-- ===== src/Wire/Protocol/Fields.antt =====
-- The payloads that CreatePlayerJoin, CreateChatMessage and CreateAction build.
use mcx.Prelude.{◌≡◌, refl, ◌≢◌, [], ◌∷◌, arith, All, nat_eq, text_key}
use mcx.Prelude.Text.{Text}
use mcx.Wire.Protocol.{
  McxPacket, field_pair, create_player_join, create_player_quit, create_chat_message, create_action,
}

abbrev pub IsNulFree : Text → Type 0
IsNulFree = All (λ c. c ≢ 0)

field_pair_inj :
    (a b c d : Text)
    → IsNulFree a
    → IsNulFree c
    → field_pair a b ≡ field_pair c d
    → (a ≡ c) × (b ≡ d)
unfolding field_pair
field_pair_inj [] b [] d ha hc e = (refl, ground arith)
field_pair_inj [] b (y ∷ c) d ha hc e = ground arith
field_pair_inj (x ∷ a) b [] d ha hc e = ground arith
field_pair_inj (x ∷ a) b (y ∷ c) d ha hc e = ground (arith, field_pair_inj a b c d ha.1 hc.1)

-- What the bridge can ask to be sent.
pub data Message : Type 0 where
  join chat act : Text → Text → Message
  quit : Text → Message

abbrev pub packet_of : Message → McxPacket
packet_of (join player_id player_name) = create_player_join player_id player_name
packet_of (chat player_id message) = create_chat_message player_id message
packet_of (act action_type payload) = create_action action_type payload
packet_of (quit player_id) = create_player_quit player_id

-- The field before the separator, which must not hold the separator itself.
abbrev pub IsSplittable : Message → Type 0
IsSplittable (join player_id player_name) = IsNulFree player_id
IsSplittable (chat player_id message) = IsNulFree player_id
IsSplittable (act action_type payload) = IsNulFree action_type
IsSplittable (quit player_id) = Unit

-- The four builders lose nothing: where the first field of each message has no zero byte, two
-- messages with the same packet are the same message.
packet_of_inj :
    (m n : Message) → IsSplittable m → IsSplittable n → packet_of m ≡ packet_of n → m ≡ n
unfolding create_player_join create_player_quit create_chat_message create_action
packet_of_inj (join a b) (join c d) hm hn e = ground (arith, field_pair_inj a b c d hm hn)
packet_of_inj (chat a b) (chat c d) hm hn e = ground (arith, field_pair_inj a b c d hm hn)
packet_of_inj (act a b) (act c d) hm hn e = ground (arith, field_pair_inj a b c d hm hn)
packet_of_inj m n hm hn e = ground arith

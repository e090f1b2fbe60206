-- ===== src/Managers/Bans.antt =====
-- src/core/ban_manager.cpp. The clock is an argument: a time point is an integer number of
-- nanoseconds since the epoch of system_clock, far from the ends of its range. Loading and saving
-- only log.
pub mod Expiry
use mcx.Prelude.{
  ℕ, suc, ◌+◌, ◌-◌, ◌*◌, ◌^◌, Bool, true, false, ◌||◌, none, some, List, [], ◌∷◌, if◌then◌else◌, Eq,
  nat_eq, text_key,
}
use mcx.Prelude.Text.{Text}
use mcx.Prelude.Int.{ℤ, pos, negsuc, ◌+ℤ◌, ◌-ℤ◌, ltb_ℤ}
use mcx.Maps.{Map, lookup, insert, erase}

pub record BanEntry : Type 0 where
  pub player_id : Text
  pub reason : Text
  pub expires : ℤ
  pub permanent : Bool

abbrev pub BanManager : Type 0
BanManager = Map Text BanEntry

abbrev pub hour : ℕ
hour = 3600 * 10 ^ 9

-- std::chrono::hours as a number of nanoseconds.
unfoldable pub hours : ℤ → ℤ
hours (pos n) = pos (n * hour)
hours (negsuc n) = pos 0 -ℤ pos (suc n * hour)

unfoldable pub ban : ℤ → Text → Text → ℤ → BanManager → BanManager
ban now player_id reason duration bans =
    insert player_id
      (record {
        player_id = player_id;
        reason = reason;
        expires = now +ℤ hours duration;
        permanent = false;
      })
      bans

-- `expires` keeps its default, the epoch.
unfoldable pub ban_permanent : Text → Text → BanManager → BanManager
ban_permanent player_id reason bans =
    insert player_id
      (record { player_id = player_id; reason = reason; expires = pos 0; permanent = true }) bans

unfoldable pub unban : Text → BanManager → BanManager
unban player_id bans = erase player_id bans

unfoldable pub is_banned : ℤ → Text → BanManager → Bool
is_banned now player_id bans = elim (lookup player_id bans) [
  | none ↦ false
  | some entry ↦ if entry.permanent then true else ltb_ℤ now entry.expires
]

unfoldable pub get_active_bans : ℤ → BanManager → List BanEntry
get_active_bans now [] = []
get_active_bans now ((id, entry) ∷ bans) =
    let rest = get_active_bans now bans in
    if entry.permanent || ltb_ℤ now entry.expires then entry ∷ rest else rest

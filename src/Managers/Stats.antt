-- ===== src/Managers/Stats.antt =====
-- src/core/stats_manager.cpp. The counters are integers, which no play reaches the int64_t bounds of;
-- std::sort and the arithmetic of double are parameters. Loading and saving only log.
pub mod Ranking
use mcx.Prelude.{
  ℕ, ◌+◌, ◌&&◌, none, some, List, [], ◌∷◌, ltb, if◌then◌else◌, length, take, Eq, nat_eq, text_key,
}
use mcx.Prelude.Text.{Text}
use mcx.Prelude.Int.{ℤ, pos, ◌+ℤ◌, leb_ℤ}
use mcx.Maps.{Map, lookup, insert, lookup_or}

pub record StatValue : Type 0 where
  pub kills : ℤ
  pub deaths : ℤ
  pub blocks_mined : ℤ
  pub blocks_placed : ℤ
  pub play_time_minutes : ℤ
  pub distance_traveled : ℤ

-- `StatValue{}`
abbrev pub zero_stats : StatValue
zero_stats = record {
  kills = pos 0;
  deaths = pos 0;
  blocks_mined = pos 0;
  blocks_placed = pos 0;
  play_time_minutes = pos 0;
  distance_traveled = pos 0;
}

abbrev pub StatsManager : Type 0
StatsManager = Map Text StatValue

-- `stats_[playerId]` is made where it is missing, and then changed.
abbrev pub change : Text → (StatValue → StatValue) → StatsManager → StatsManager
change player_id f stats = insert player_id (f (lookup_or zero_stats player_id stats)) stats

unfoldable pub record_kill : Text → StatsManager → StatsManager
record_kill player_id = change player_id λ s. record s { kills = s.kills +ℤ pos 1 }

unfoldable pub record_death : Text → StatsManager → StatsManager
record_death player_id = change player_id λ s. record s { deaths = s.deaths +ℤ pos 1 }

unfoldable pub record_block_mined : Text → StatsManager → StatsManager
record_block_mined player_id =
    change player_id λ s. record s { blocks_mined = s.blocks_mined +ℤ pos 1 }

unfoldable pub record_block_placed : Text → StatsManager → StatsManager
record_block_placed player_id =
    change player_id λ s. record s { blocks_placed = s.blocks_placed +ℤ pos 1 }

unfoldable pub record_play_time : Text → ℤ → StatsManager → StatsManager
record_play_time player_id minutes =
    change player_id λ s. record s { play_time_minutes = s.play_time_minutes +ℤ minutes }

unfoldable pub record_distance : Text → ℤ → StatsManager → StatsManager
record_distance player_id blocks =
    change player_id λ s. record s { distance_traveled = s.distance_traveled +ℤ blocks }

unfoldable pub get_stats : Text → StatsManager → StatValue
get_stats player_id stats = lookup_or zero_stats player_id stats

-- The first loop of GetTopKills.
unfoldable pub all_kills : StatsManager → List (Text × ℤ)
all_kills [] = []
all_kills ((id, s) ∷ rest) = (id, s.kills) ∷ all_kills rest

-- `sort` is std::sort with the comparator of GetTopKills; `resize` cuts.
unfoldable pub get_top_kills :
    (List (Text × ℤ) → List (Text × ℤ)) → ℕ → StatsManager → List (Text × ℤ)
unfolding all_kills
get_top_kills sort count stats =
    let top = sort (all_kills stats) in if ltb count (length top) then take count top else top

module _ {Double : Type 0} (to_double : ℤ → Double) (divide : Double → Double → Double) where
  unfoldable pub get_kd_ratio : Text → StatsManager → Double
  get_kd_ratio player_id stats = elim (lookup player_id stats) [
    | none ↦ to_double (pos 0)
    | some s ↦
        if leb_ℤ s.deaths (pos 0) && leb_ℤ (pos 0) s.deaths
        then to_double s.kills
        else divide (to_double s.kills) (to_double s.deaths)
  ]

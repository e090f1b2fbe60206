-- ===== src/Managers/Kits.antt =====
-- src/core/kit_manager.cpp. The clock is an argument, in whole seconds of steady_clock; a call that
-- reads it twice takes two times. Loading and saving only log.
pub mod Cooldown
use mcx.Prelude.{
  ◌-◌, Bool, true, false, not, none, some, List, [], map, if◌then◌else◌, Eq, nat_eq, text_key,
}
use mcx.Prelude.Text.{Text}
use mcx.Prelude.Int.{ℤ, pos, ◌-ℤ◌, leb_ℤ}
use mcx.Maps.{Map, lookup, insert, erase, lookup_or}

pub record KitItem : Type 0 where
  pub item_id : Text
  pub count : ℤ
  pub enchantments : Text

pub record Kit : Type 0 where
  pub name : Text
  pub items : List KitItem
  pub cooldown_seconds : ℤ
  pub permission : Text

-- `Kit{}`
abbrev pub empty_kit : Kit
empty_kit = record { name = []; items = []; cooldown_seconds = pos 0; permission = [] }

pub record KitManager : Type 0 where
  pub kits : Map Text Kit
  pub last_received : Map Text (Map Text ℤ)

unfoldable pub define_kit : Text → Kit → KitManager → KitManager
define_kit name kit m = record m { kits = insert name kit m.kits }

unfoldable pub delete_kit : Text → KitManager → KitManager
delete_kit name m = record m { kits = erase name m.kits }

-- The test of the cooldown, once the kit is found.
unfoldable pub cooled_down : ℤ → Text → Text → Kit → KitManager → Bool
cooled_down now player_id kit_name kit m = elim (lookup player_id m.last_received) [
  | none ↦ true
  | some times ↦ elim (lookup kit_name times) [
    | none ↦ true
    | some last ↦ leb_ℤ kit.cooldown_seconds (now -ℤ last)
  ]
]

unfoldable pub can_receive_kit : ℤ → Text → Text → KitManager → Bool
unfolding cooled_down
can_receive_kit now player_id kit_name m = elim (lookup kit_name m.kits) [
  | none ↦ false
  | some kit ↦ cooled_down now player_id kit_name kit m
]

-- `lastReceived_[playerId][kitName] = now`
unfoldable pub stamp : ℤ → Text → Text → KitManager → KitManager
stamp now player_id kit_name m = record m {
  last_received =
      insert player_id (insert kit_name now (lookup_or [] player_id m.last_received))
        m.last_received;
}

-- `now` is read for the test and `later` for the stamp.
unfoldable pub give_kit : ℤ → ℤ → Text → Text → KitManager → Bool × KitManager
unfolding can_receive_kit stamp
give_kit now later player_id kit_name m =
    if not (can_receive_kit now player_id kit_name m)
    then (false, m)
    else elim (lookup kit_name m.kits) [
      | none ↦ (false, m)
      | some kit ↦ (true, stamp later player_id kit_name m)
    ]

unfoldable pub list_kits : KitManager → List Text
list_kits m = map (λ e. e.0) m.kits

unfoldable pub get_kit : Text → KitManager → Kit
get_kit name m = lookup_or empty_kit name m.kits

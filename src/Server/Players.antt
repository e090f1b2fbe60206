-- ===== src/Server/Players.antt =====
-- src/core/player_registry.cpp and src/core/permissions.cpp.
pub mod Registry
use mcx.Prelude.{
  ℕ, ◌+◌, Bool, false, not, ◌||◌, Option, none, some, List, [], ◌∷◌, ◌++◌, if◌then◌else◌, keep_if,
  Eq, nat_eq, text_eq, text_key,
}
use mcx.Prelude.Text.{Text, codes}
use mcx.Maps.{Map, lookup, insert, erase, lookup_or, size}
use mcx.Log.{info, warn}
use mcx.Events.{Player}
use mcx.Server.Scenes.{Logged}

abbrev pub PlayerRegistry : Type 0
PlayerRegistry = Map Text Player

unfoldable pub add_player : Player → PlayerRegistry → Logged PlayerRegistry
add_player player players = (
  insert player.id player players,
  (info, codes "Player joined: " ++ (player.name ++ (codes " (" ++ (player.id ++ codes ")")))) ∷ [],
)

unfoldable pub remove_player : Text → PlayerRegistry → Logged PlayerRegistry
remove_player player_id players = elim (lookup player_id players) [
  | none ↦ (players, (warn, codes "Attempted to remove unknown player: " ++ player_id) ∷ [])
  | some player ↦ (
    erase player_id players,
    (info, codes "Player left: " ++ (player.name ++ (codes " (" ++ (player_id ++ codes ")")))) ∷ [],
  )
]

unfoldable pub get_player : Text → PlayerRegistry → Option Player
get_player player_id players = lookup player_id players

unfoldable pub get_online_count : PlayerRegistry → ℕ
get_online_count players = size players

unfoldable pub update_player_scene : Text → Text → PlayerRegistry → Logged PlayerRegistry
update_player_scene player_id scene players = elim (lookup player_id players) [
  | none ↦ (players, (warn, codes "Cannot update scene for unknown player: " ++ player_id) ∷ [])
  | some player ↦ (
    insert player_id (record player { scene = scene }) players,
    (info, codes "Player " ++ (player.name ++ (codes " moved to scene: " ++ scene))) ∷ [],
  )
]

-- The permissions of a player: a set, as a list that `insert` keeps free of repetitions.
abbrev pub PermissionRegistry : Type 0
PermissionRegistry = Map Text (List Text)

unfoldable pub member : Text → List Text → Bool
member p [] = false
member p (q ∷ qs) = text_eq q p || member p qs

unfoldable pub add_member : Text → List Text → List Text
unfolding member
add_member p qs = if member p qs then qs else p ∷ qs

unfoldable pub grant : Text → Text → PermissionRegistry → PermissionRegistry
unfolding add_member
grant player_id permission r = insert player_id (add_member permission (lookup_or [] player_id r)) r

unfoldable pub revoke : Text → Text → PermissionRegistry → PermissionRegistry
revoke player_id permission r = elim (lookup player_id r) [
  | none ↦ r
  | some held ↦ insert player_id (keep_if (λ q. not (text_eq q permission)) held) r
]

unfoldable pub has : Text → Text → PermissionRegistry → Bool
unfolding member
has player_id permission r = elim (lookup player_id r) [
  | none ↦ false
  | some held ↦ member permission held
]

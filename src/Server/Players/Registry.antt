-- ===== src/Server/Players/Registry.antt =====
-- Who is online, and who may do what.
use mcx.Prelude.{
  ◌+◌, ◌-◌, ◌≡◌, refl, inl, inr, not, ◌&&◌, ◌||◌, none, some, List, [], ◌∷◌, arith, if◌then◌else◌,
  Option-cases, keep_if, nat_eq, text_eq, text_eq_iff, text_key,
}
use mcx.Prelude.Text.{Text}
use mcx.Maps.{
  lookup, lookup_or, lookup-insert, lookup-erase, IsUnique, insert-IsUnique, erase-IsUnique,
  size-insert, size-erase,
}
use mcx.Events.{Player}
use mcx.Server.Players.{
  PlayerRegistry, add_player, remove_player, get_player, get_online_count, update_player_scene,
  PermissionRegistry, member, add_member, grant, revoke, has,
}

-- The calls on the permissions.
pub data Change : Type 0 where
  grants revokes : Text → Text → Change

abbrev pub change : Change → PermissionRegistry → PermissionRegistry
change (grants p x) = grant p x
change (revokes p x) = revoke p x

member-add_member :
    (p q : Text) (qs : List Text) → member q (add_member p qs) ≡ (text_eq p q || member q qs)
unfolding add_member
member-add_member p q qs = ground (arith, text_eq_iff p q)

member-keep_if :
    (p q : Text) (qs : List Text)
    → member q (keep_if (λ x. not (text_eq x p)) qs) ≡ (member q qs && not (text_eq p q))
unfolding member
member-keep_if p q [] = refl
member-keep_if p q (x ∷ qs) =
    ground (arith, member-keep_if p q qs, text_eq_iff x p, text_eq_iff x q, text_eq_iff p q)

-- After a grant or a revocation exactly that player and that permission are affected: a grant makes
-- Has answer true, a revocation false, and every other answer is as before.
has-change :
    (player permission : Text) (c : Change) (r : PermissionRegistry)
    → has player permission (change c r) ≡ elim c [
      | grants p x ↦ (text_eq p player && text_eq x permission) || has player permission r
      | revokes p x ↦ has player permission r && not (text_eq p player && text_eq x permission)
    ]
unfolding has grant revoke lookup_or
has-change player permission (grants p x) r = ground (
  arith,
  lookup-insert p player (add_member x (lookup_or [] p r)) r,
  member-add_member x permission (lookup_or [] p r),
  text_eq_iff p player,
)
has-change player permission (revokes p x) r = elim (Option-cases (lookup p r)) [
  | inl nothing ↦ ground (arith, nothing, text_eq_iff p player)
  | inr (held, e) ↦ ground (
    arith,
    e,
    lookup-insert p player (keep_if (λ q. not (text_eq q x)) held) r,
    member-keep_if x permission held,
    text_eq_iff p player,
  )
]

-- The calls on the registry.
pub data Visit : Type 0 where
  joins : Player → Visit
  leaves : Text → Visit
  moves : Text → Text → Visit

abbrev pub visit : Visit → PlayerRegistry → PlayerRegistry
visit (joins player) players = (add_player player players).0
visit (leaves id) players = (remove_player id players).0
visit (moves id scene) players = (update_player_scene id scene players).0

-- What GetPlayer gives after each call: the player who joined, nobody under the id that left, the
-- same player in the new scene where one was moved, and as before under every other id.
get_player-visit :
    (id : Text) (v : Visit) (players : PlayerRegistry)
    → get_player id (visit v players) ≡ elim v [
      | joins player ↦ if text_eq player.id id then some player else get_player id players
      | leaves j ↦ if text_eq j id then none else get_player id players
      | moves j scene ↦
          if text_eq j id
          then elim (get_player id players) [
            | none ↦ none
            | some player ↦ some (record player { scene = scene })
          ]
          else get_player id players
    ]
unfolding get_player add_player remove_player update_player_scene
get_player-visit id (joins player) players = lookup-insert player.id id player players
get_player-visit id (leaves j) players = ground (arith, lookup-erase j id players, text_eq_iff j id)
get_player-visit id (moves j scene) players = elim (Option-cases (lookup j players)) [
  | inl nobody ↦ ground (arith, nobody, text_eq_iff j id)
  | inr (player, e) ↦
      ground
        (arith, e, lookup-insert j id (record player { scene = scene }) players, text_eq_iff j id)
]

visit-IsUnique :
    (v : Visit) (players : PlayerRegistry) → IsUnique players → IsUnique (visit v players)
unfolding add_player remove_player update_player_scene
visit-IsUnique (joins player) players u = insert-IsUnique player.id player players u
visit-IsUnique (leaves j) players u = ground (arith, erase-IsUnique j players u)
visit-IsUnique (moves j scene) players u = elim (Option-cases (lookup j players)) [
  | inl nobody ↦ ground (arith, nobody, u)
  | inr (player, e) ↦
      ground (arith, e, insert-IsUnique j (record player { scene = scene }) players u)
]

-- The count of players online goes up by one where a new id joins, down by one where a known one
-- leaves, and stays otherwise; no id is ever counted twice.
get_online_count-visit :
    (v : Visit) (players : PlayerRegistry)
    → IsUnique players
    → get_online_count (visit v players) ≡ elim v [
      | joins player ↦ elim (get_player player.id players) [
        | none ↦ get_online_count players + 1
        | some p ↦ get_online_count players
      ]
      | leaves j ↦ elim (get_player j players) [
        | none ↦ get_online_count players
        | some p ↦ get_online_count players - 1
      ]
      | moves j scene ↦ get_online_count players
    ]
unfolding get_player get_online_count add_player remove_player update_player_scene
get_online_count-visit (joins player) players u = size-insert player.id player players
get_online_count-visit (leaves j) players u = ground (arith, size-erase j players u)
get_online_count-visit (moves j scene) players u = elim (Option-cases (lookup j players)) [
  | inl nobody ↦ ground (arith, nobody)
  | inr (player, e) ↦ ground (arith, e, size-insert j (record player { scene = scene }) players)
]

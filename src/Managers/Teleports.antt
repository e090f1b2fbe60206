-- ===== src/Managers/Teleports.antt =====
-- src/core/teleport_manager.cpp, over any type of coordinates (double in the source). The clock is
-- an argument, in nanoseconds of steady_clock. The calls that only log are left out.
pub mod Requests
pub mod History
use mcx.Prelude.{
  ℕ, ◌-◌, ◌/◌, ◌^◌, Bool, none, some, [], ◌∷◌, ltb, if◌then◌else◌, Eq, nat_eq, text_eq, text_key,
}
use mcx.Prelude.Text.{Text}
use mcx.Maps.{Map, lookup, insert, erase}

pub record TeleportRequest : Type 0 where
  pub requester_id : Text
  pub target_id : Text
  pub timestamp : ℕ

-- The pending requests stand under the player they are sent to.
pub record TeleportManager (Double : Type 0) : Type 0 where
  pub pending_requests : Map Text TeleportRequest
  pub spawn_points : Map Text (Double × Double × Double)

-- The loop of CancelTeleport: it stops at the first request that fits.
unfoldable pub cancel_first : Text → Map Text TeleportRequest → Map Text TeleportRequest
cancel_first requester_id [] = []
cancel_first requester_id ((target, req) ∷ rest) =
    let later = cancel_first requester_id rest in
    if text_eq req.requester_id requester_id then rest else (target, req) ∷ later

-- Older than 60 whole seconds.
unfoldable pub is_expired : ℕ → TeleportRequest → Bool
is_expired now req = ltb 60 ((now - req.timestamp) / 10 ^ 9)

-- The loop of ClearExpiredRequests.
unfoldable pub drop_expired : ℕ → Map Text TeleportRequest → Map Text TeleportRequest
unfolding is_expired
drop_expired now [] = []
drop_expired now ((target, req) ∷ rest) =
    let later = drop_expired now rest in if is_expired now req then later else (target, req) ∷ later

module _ {Double : Type 0} where
  unfoldable pub request_teleport :
      ℕ → Text → Text → TeleportManager Double → TeleportManager Double
  request_teleport now requester_id target_id m = record m {
    pending_requests =
        insert target_id
          (record { requester_id = requester_id; target_id = target_id; timestamp = now })
          m.pending_requests;
  }

  -- `find` and then `erase` of what was found.
  unfoldable pub accept_teleport : Text → TeleportManager Double → TeleportManager Double
  accept_teleport target_id m = elim (lookup target_id m.pending_requests) [
    | none ↦ m
    | some req ↦ record m { pending_requests = erase target_id m.pending_requests }
  ]

  unfoldable pub deny_teleport : Text → TeleportManager Double → TeleportManager Double
  deny_teleport target_id m = elim (lookup target_id m.pending_requests) [
    | none ↦ m
    | some req ↦ record m { pending_requests = erase target_id m.pending_requests }
  ]

  unfoldable pub cancel_teleport : Text → TeleportManager Double → TeleportManager Double
  unfolding cancel_first
  cancel_teleport requester_id m = record m {
    pending_requests = cancel_first requester_id m.pending_requests;
  }

  unfoldable pub set_spawn_point :
      Text → Double → Double → Double → TeleportManager Double → TeleportManager Double
  set_spawn_point world_name x y z m = record m {
    spawn_points = insert world_name (x, y, z) m.spawn_points;
  }

  unfoldable pub clear_expired_requests : ℕ → TeleportManager Double → TeleportManager Double
  unfolding drop_expired
  clear_expired_requests now m = record m { pending_requests = drop_expired now m.pending_requests }

-- ===== src/Server/Scenes.antt =====
-- The scene and the actions that change it: src/core/scene_manager.cpp, src/core/action_applier.cpp
-- and src/core/action_utils.cpp. std::to_string of a double is a parameter.
pub mod Transitions
use mcx.Prelude.{
  ◌+◌, ◌-◌, List, [], ◌∷◌, ◌++◌, map, if◌then◌else◌, is_empty, Eq, nat_eq, text_eq, text_key,
}
use mcx.Prelude.Text.{Text, codes}
use mcx.Log.{Line, info}
use mcx.Events.{
  Double, Vec3, Action, send_message, broadcast, send_title, teleport, set_spawn, load_scene,
}

pub record SceneManager : Type 0 where
  pub current_scene : Text

-- A call that logs returns its lines, oldest first.
abbrev pub Logged : Type 0 → Type 0
Logged A = A × List Line

unfoldable pub enter_scene : Text → SceneManager → Logged SceneManager
enter_scene name m =
    if text_eq m.current_scene name
    then (m, (info, codes "Scene '" ++ (name ++ codes "' is already loaded")) ∷ [])
    else (
      record { current_scene = name },
      (if is_empty m.current_scene
            then (info, codes "Loaded scene: " ++ name)
            else (info, codes "Scene transition: " ++ (m.current_scene ++ (codes " -> " ++ name))))
          ∷ [],
    )

module _ (to_string : Double → Text) where
  unfoldable pub position_text : Vec3 → Text
  position_text p =
      to_string p.x
      ++ (codes ", " ++ (to_string p.y ++ (codes ", " ++ (to_string p.z ++ codes ")"))))

  -- The text of each branch of the visitor; the branch of a scene logs through the scene manager in
  -- one caller, and this text in the other.
  unfoldable pub action_text : Action → Text
  unfolding position_text
  action_text (send_message player_id text) =
      codes "Action: sendMessage -> playerId=" ++ (player_id ++ (codes ", text=" ++ text))
  action_text (broadcast text) = codes "Action: broadcast -> text=" ++ text
  action_text (send_title player_id title subtitle) =
      codes "Action: sendTitle -> playerId=" ++ (player_id ++ (codes ", title=" ++ title))
  action_text (teleport player_id p) =
      codes "Action: teleport -> playerId=" ++ (player_id ++ (codes ", pos=(" ++ position_text p))
  action_text (set_spawn player_id p) =
      codes "Action: setSpawn -> playerId=" ++ (player_id ++ (codes ", pos=(" ++ position_text p))
  action_text (load_scene scene) = codes "Action: loadScene -> scene=" ++ scene

  -- The visitor of ActionApplier.Apply.
  unfoldable pub apply_one : Action → SceneManager → Logged SceneManager
  unfolding action_text enter_scene
  apply_one (load_scene scene) m = enter_scene scene m
  apply_one action m = (m, (info, action_text action) ∷ [])

  -- Its loop.
  unfoldable pub apply_each : List Action → SceneManager → Logged SceneManager
  apply_each [] m = (m, [])
  apply_each (a ∷ actions) m =
      let (m', lines) = apply_one a m in
      let (m'', rest) = apply_each actions m' in (m'', lines ++ rest)

  unfoldable pub apply : List Action → SceneManager → Logged SceneManager
  unfolding apply_each
  apply [] m = (m, (info, codes "No actions to apply") ∷ [])
  apply (a ∷ actions) m = apply_each (a ∷ actions) m

  unfoldable pub apply_actions_to_log : List Action → List Line
  unfolding action_text
  apply_actions_to_log [] = (info, codes "No actions to apply") ∷ []
  apply_actions_to_log (a ∷ actions) = map (λ b. (info, action_text b)) (a ∷ actions)

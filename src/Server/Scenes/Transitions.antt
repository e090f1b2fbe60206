-- ===== src/Server/Scenes/Transitions.antt =====
-- What applying actions does to the scene and to the log.
use mcx.Prelude.{
  suc, max, ◌≡◌, refl, ap, ◌∙◌, List, [], ◌∷◌, map, arith, length, length-append, All, nat_eq,
  text_eq_iff, text_key,
}
use mcx.Prelude.Text.{Text}
use mcx.Log.{info}
use mcx.Events.{
  Double, Action, send_message, broadcast, send_title, teleport, set_spawn, load_scene,
}
use mcx.Server.Scenes.{
  SceneManager, enter_scene, action_text, apply_one, apply_each, apply, apply_actions_to_log,
}

-- The scene that a list of actions asks for last, if any.
abbrev pub last_scene : Text → List Action → Text
last_scene now [] = now
last_scene now (load_scene scene ∷ actions) = last_scene scene actions
last_scene now (a ∷ actions) = last_scene now actions

module _ (to_string : Double → Text) where
  enter_scene_lem : (name : Text) (m : SceneManager) → (enter_scene name m).0.current_scene ≡ name
  unfolding enter_scene
  enter_scene_lem name m = ground (arith, text_eq_iff m.current_scene name)

  enter_scene-length : (name : Text) (m : SceneManager) → length (enter_scene name m).1 ≡ 1
  unfolding enter_scene
  enter_scene-length name m = ground arith

  apply_each-scene :
      (actions : List Action) (m : SceneManager)
      → (apply_each to_string actions m).0.current_scene ≡ last_scene m.current_scene actions
  unfolding apply_each apply_one
  apply_each-scene [] m = refl
  apply_each-scene (load_scene scene ∷ actions) m =
      apply_each-scene actions (enter_scene scene m).0
      ∙ ap (λ (s : Text). last_scene s actions) (enter_scene_lem scene m)
  apply_each-scene (send_message p t ∷ actions) m = apply_each-scene actions m
  apply_each-scene (broadcast t ∷ actions) m = apply_each-scene actions m
  apply_each-scene (send_title p t s ∷ actions) m = apply_each-scene actions m
  apply_each-scene (teleport p v ∷ actions) m = apply_each-scene actions m
  apply_each-scene (set_spawn p v ∷ actions) m = apply_each-scene actions m

  apply_each-length :
      (actions : List Action) (m : SceneManager)
      → length (apply_each to_string actions m).1 ≡ length actions
  unfolding apply_each apply_one
  apply_each-length [] m = refl
  apply_each-length (load_scene scene ∷ actions) m = omega (
    arith,
    enter_scene-length scene m,
    length-append (enter_scene scene m).1 (apply_each to_string actions (enter_scene scene m).0).1,
    apply_each-length actions (enter_scene scene m).0,
  )
  apply_each-length (send_message p t ∷ actions) m = ap suc (apply_each-length actions m)
  apply_each-length (broadcast t ∷ actions) m = ap suc (apply_each-length actions m)
  apply_each-length (send_title p t s ∷ actions) m = ap suc (apply_each-length actions m)
  apply_each-length (teleport p v ∷ actions) m = ap suc (apply_each-length actions m)
  apply_each-length (set_spawn p v ∷ actions) m = ap suc (apply_each-length actions m)

  -- Applying actions leaves the server in the scene that they ask for last, or in the one it was in,
  -- and prints one line for each action, or a single line where there is none.
  pub apply-last_scene :
      (actions : List Action) (m : SceneManager)
      → ((apply to_string actions m).0.current_scene ≡ last_scene m.current_scene actions)
        × (length (apply to_string actions m).1 ≡ max 1 (length actions))
  unfolding apply
  apply-last_scene [] m = (refl, refl)
  apply-last_scene (a ∷ actions) m =
      (apply_each-scene (a ∷ actions) m, apply_each-length (a ∷ actions) m ∙ omega arith)

  abbrev pub IsSceneFree : Action → Type 0
  IsSceneFree (load_scene scene) = ⊥
  IsSceneFree a = Unit

  apply_each-map :
      (actions : List Action) (m : SceneManager)
      → All IsSceneFree actions
      → apply_each to_string actions m ≡ (m, map (λ b. (info, action_text to_string b)) actions)
  unfolding apply_each apply_one
  apply_each-map [] m h = refl
  apply_each-map (load_scene scene ∷ actions) m h = absurd h.0
  apply_each-map (send_message p t ∷ actions) m h = rw (apply_each-map actions m h.1)
  apply_each-map (broadcast t ∷ actions) m h = rw (apply_each-map actions m h.1)
  apply_each-map (send_title p t s ∷ actions) m h = rw (apply_each-map actions m h.1)
  apply_each-map (teleport p v ∷ actions) m h = rw (apply_each-map actions m h.1)
  apply_each-map (set_spawn p v ∷ actions) m h = rw (apply_each-map actions m h.1)

  -- Without scenes to load, the applier prints what the logging prototype prints, and changes
  -- nothing.
  apply-apply_actions_to_log :
      (actions : List Action) (m : SceneManager)
      → All IsSceneFree actions
      → apply to_string actions m ≡ (m, apply_actions_to_log to_string actions)
  unfolding apply apply_actions_to_log
  apply-apply_actions_to_log [] m h = refl
  apply-apply_actions_to_log (a ∷ actions) m h = apply_each-map (a ∷ actions) m h

-- ===== src/Server/Worlds.antt =====
-- WorldManager of src/core/world_manager.cpp: the lines that it logs, and its list of worlds.
use mcx.Prelude.{◌≡◌, refl, ap, ◌∙◌, Bool, false, ◌||◌, List, [], ◌∷◌, ◌++◌, text_eq, text_key}
use mcx.Prelude.Int.{ℤ}
use mcx.Prelude.Text.{Text, codes}
use mcx.Log.{Line, info}

pub record WorldInfo : Type 0 where
  pub name : Text
  pub type : Text
  pub loaded : Bool
  pub player_count : ℤ

pub record WorldManager : Type 0 where
  pub worlds : List WorldInfo
  pub lines : List Line

unfoldable pub logged : Text → WorldManager → WorldManager
logged line m = record m { lines = m.lines ++ ((info, line) ∷ []) }

unfoldable pub load_world : Text → WorldManager → WorldManager
unfolding logged
load_world name m = logged (codes "Loading world: " ++ name) m

unfoldable pub unload_world : Text → WorldManager → WorldManager
unfolding logged
unload_world name m = logged (codes "Unloading world: " ++ name) m

unfoldable pub teleport_to_world : Text → Text → WorldManager → WorldManager
unfolding logged
teleport_to_world player world m =
    logged (codes "Teleporting player " ++ (player ++ (codes " to world " ++ world))) m

unfoldable pub exists_in : Text → List WorldInfo → Bool
exists_in name [] = false
exists_in name (world ∷ worlds) = text_eq world.name name || exists_in name worlds

unfoldable pub world_exists : Text → WorldManager → Bool
unfolding exists_in
world_exists name m = exists_in name m.worlds

unfoldable pub get_current_world : Text → WorldManager → Text
unfolding codes
get_current_world player m = codes "world"

pub data Operation : Type 0 where
  load unload : Text → Operation
  teleport : Text → Text → Operation

unfoldable pub step : Operation → WorldManager → WorldManager
step (load name) m = load_world name m
step (unload name) m = unload_world name m
step (teleport player world) m = teleport_to_world player world m

unfoldable pub steps : List Operation → WorldManager → WorldManager
steps [] m = m
steps (o ∷ os) m = steps os (step o m)

step_worlds : (o : Operation) (m : WorldManager) → (step o m).worlds ≡ m.worlds
unfolding step load_world unload_world teleport_to_world
step_worlds (load name) m = refl
step_worlds (unload name) m = refl
step_worlds (teleport player world) m = refl

steps_worlds : (os : List Operation) (m : WorldManager) → (steps os m).worlds ≡ m.worlds
unfolding steps
steps_worlds [] m = refl
steps_worlds (o ∷ os) m = steps_worlds os (step o m) ∙ step_worlds o m

-- No world ever exists: behind any operations on a new manager, WorldExists is false for every name,
-- also for the world that GetCurrentWorld names.
world_exists-steps :
    (os : List Operation) (name : Text)
    → world_exists name (steps os (record { worlds = []; lines = [] })) ≡ false
unfolding world_exists
world_exists-steps os name =
    ap (exists_in name) (steps_worlds os (record { worlds = []; lines = [] }))

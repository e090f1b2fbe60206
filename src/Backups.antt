-- ===== src/Backups.antt =====
-- BackupManager of src/core/backup_manager.cpp. The names that the clock gives, std::sort, and what
-- std::filesystem::copy does are parameters; the rest of the disk is left out. The thread is in Thread.
pub mod Retention
pub mod Restore
pub mod Thread
use mcx.Prelude.{
  ℕ, ◌-◌, Bool, true, false, Option, none, some, List, [], ◌∷◌, map, leb, if◌then◌else◌, length,
  take, text_key,
}
use mcx.Prelude.Text.{Text}
use mcx.Maps.{Map, lookup, insert, erase}

pub record BackupManager : Type 0 where
  pub interval : ℕ
  pub max_backups : ℕ
  pub running : Bool

abbrev pub initial : BackupManager
initial = record { interval = 30; max_backups = 10; running = false }

unfoldable pub set_backup_interval : ℕ → BackupManager → BackupManager
set_backup_interval interval manager = record manager { interval = interval }

unfoldable pub set_max_backups : ℕ → BackupManager → BackupManager
set_max_backups max_backups manager = record manager { max_backups = max_backups }

unfoldable pub start_auto_backup : BackupManager → BackupManager
start_auto_backup manager = record manager { running = true }

unfoldable pub stop_auto_backup : BackupManager → BackupManager
stop_auto_backup manager = record manager { running = false }

-- The world's directory, and the backups by their names, where their directory is there.
pub record Disk (Tree : Type 0) : Type 0 where
  pub world : Option Tree
  pub backups : Option (Map Text Tree)

-- What a copy of a tree to a place leaves there, and whether it returns; the same of remove_all on a
-- tree; and whether a directory that is missing can be created.
pub record Files (Tree : Type 0) : Type 0 where
  pub creates : Bool
  pub copies : Tree → Option Tree → Bool × Option Tree
  pub removes : Tree → Bool × Option Tree

module _ {Tree : Type 0} where
  abbrev pub names : Map Text Tree → List Text
  names dir = map (λ e. e.0) dir

  unfoldable pub list_backups : Disk Tree → List Text
  list_backups disk = elim disk.backups [ none ↦ [] | some dir ↦ names dir ]

  -- The loop of CleanupOldBackups.
  unfoldable pub delete : List Text → Map Text Tree → Map Text Tree
  delete [] dir = dir
  delete (name ∷ rest) dir = delete rest (erase name dir)

  module _ (sort : List Text → List Text) where
    unfoldable pub cleanup_old_backups : ℕ → Map Text Tree → Map Text Tree
    unfolding delete
    cleanup_old_backups max_backups dir =
        if leb (length dir) max_backups
        then dir
        else delete (take (length dir - max_backups) (sort (names dir))) dir

    module _ (files : Files Tree) where
      -- A place that a copy leaves.
      unfoldable pub put : Text → Option Tree → Map Text Tree → Map Text Tree
      put name none dir = erase name dir
      put name (some tree) dir = insert name tree dir

      -- BackupNow in a directory that is there; the result is the callback's first argument.
      unfoldable pub backup_in : ℕ → Text → Option Tree → Map Text Tree → Bool × Map Text Tree
      unfolding cleanup_old_backups put
      backup_in max_backups name none dir = (false, dir)
      backup_in max_backups name (some tree) dir =
          let (returned, left) = files.copies tree (lookup name dir) in
          if returned
          then (true, cleanup_old_backups max_backups (put name left dir))
          else (false, put name left dir)

      unfoldable pub backup_now : BackupManager → Text → Disk Tree → Bool × Disk Tree
      unfolding backup_in
      backup_now manager name disk = elim disk.backups [
        | some dir ↦
            let (success, dir') = backup_in manager.max_backups name disk.world dir in
            (success, record disk { backups = some dir' })
        | none ↦
            let (success, dir') = backup_in manager.max_backups name disk.world [] in
            if files.creates then (success, record disk { backups = some dir' }) else (false, disk)
      ]

  -- remove_all of the world, which has nothing to do where there is none.
  unfoldable pub remove_world : Files Tree → Option Tree → Bool × Option Tree
  remove_world files world = elim world [ none ↦ (true, none) | some tree ↦ files.removes tree ]

  -- The copy of a backup to what is left of the world.
  unfoldable pub copy_backup : Files Tree → Text → Option Tree → Disk Tree → Disk Tree
  copy_backup files name left disk = elim disk.backups [
    | none ↦ record disk { world = left }
    | some dir ↦ elim (lookup name dir) [
      | none ↦ record disk { world = left }
      | some tree ↦ record disk { world = (files.copies tree left).1 }
    ]
  ]

  -- The world is removed before the copy starts; an error of either is only logged, and one of
  -- remove_all keeps the copy from being started.
  unfoldable pub restore_backup : Files Tree → Text → Disk Tree → Disk Tree
  unfolding remove_world copy_backup
  restore_backup files name disk =
      let (returned, left) = remove_world files disk.world in
      if returned then copy_backup files name left disk else record disk { world = left }

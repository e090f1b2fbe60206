-- ===== src/Backups/Restore.antt =====
-- BackupNow and RestoreBackup of src/core/backup_manager.cpp together.
use mcx.Prelude.{
  ℕ, ◌+◌, ◌<◌, ◌≡◌, refl, ap, ◌∙◌, true, Option, none, some, List, arith, leb, length, text_key,
}
use mcx.Prelude.Text.{Text}
use mcx.Maps.{Map, lookup, insert, lookup-insert_self, size-insert}
use mcx.Backups.{
  BackupManager, Disk, Files, cleanup_old_backups, put, backup_in, backup_now, remove_world,
  copy_backup, restore_backup,
}

module _ {Tree : Type 0} (sort : List Text → List Text) (files : Files Tree) where
  backup_in_fresh :
      (max_backups : ℕ) (name : Text) (tree : Tree) (dir : Map Text Tree)
      → lookup name dir ≡ none
      → length dir < max_backups
      → files.copies tree none ≡ (true, some tree)
      → backup_in sort files max_backups name (some tree) dir ≡ (true, insert name tree dir)
  unfolding backup_in put cleanup_old_backups
  backup_in_fresh max_backups name tree dir fresh few c =
      let size = size-insert name tree dir in
      let size' : length (insert name tree dir) ≡ length dir + 1 = size ∙ rw fresh refl in
      let fits : leb (length (insert name tree dir)) max_backups ≡ true =
        ground (arith, size', few) in
      rw (backup_in, fresh, c, fits) refl

  copy_present :
      (name : Text) (tree : Tree) (dir : Map Text Tree) (disk : Disk Tree)
      → disk.backups ≡ some dir
      → lookup name dir ≡ some tree
      → files.copies tree none ≡ (true, some tree)
      → (copy_backup files name none disk).world ≡ some tree
  unfolding copy_backup
  copy_present name tree dir disk b l c = rw (copy_backup, b, l, c) refl

  restore_present :
      (name : Text) (tree : Tree) (dir : Map Text Tree) (disk : Disk Tree)
      → disk.backups ≡ some dir
      → lookup name dir ≡ some tree
      → files.copies tree none ≡ (true, some tree)
      → remove_world files disk.world ≡ (true, none)
      → (restore_backup files name disk).world ≡ some tree
  unfolding restore_backup
  restore_present name tree dir disk b l c gone =
      rw (restore_backup, gone) (copy_present name tree dir disk b l c)

  remove_world-none :
      (world : Option Tree)
      → ((w : Tree) → world ≡ some w → files.removes w ≡ (true, none))
      → remove_world files world ≡ (true, none)
  unfolding remove_world
  remove_world-none none h = refl
  remove_world-none (some w) h = h w refl

  -- Where the world and the directory of the backups are there, a backup under a new name, with
  -- fewer than `max_backups` there before, succeeds and is restored: whatever becomes of the world
  -- in between, RestoreBackup brings back the one that was there. A copy of the world to a free
  -- place has to succeed and to leave the same tree, and remove_all has to remove the world that is
  -- there when the backup is restored.
  pub restore_backup-backup_now :
      (manager : BackupManager) (name : Text) (disk : Disk Tree) (tree : Tree) (dir : Map Text Tree)
      (world : Option Tree)
      → disk.world ≡ some tree
      → disk.backups ≡ some dir
      → lookup name dir ≡ none
      → length dir < manager.max_backups
      → files.copies tree none ≡ (true, some tree)
      → ((w : Tree) → world ≡ some w → files.removes w ≡ (true, none))
      → ((backup_now sort files manager name disk).0 ≡ true)
        × ((restore_backup files name
              (record (backup_now sort files manager name disk).1 { world = world })).world
            ≡ some tree)
  unfolding backup_now
  restore_backup-backup_now manager name disk tree dir world w b fresh few c removed =
      let done = backup_in_fresh manager.max_backups name tree dir fresh few c in
      let e : backup_now sort files manager name disk
          ≡ (true, record disk { backups = some (insert name tree dir) }) =
        rw (backup_now, b, w, done) refl in
      (
        ap (λ r. r.0) e,
        ap (λ r. (restore_backup files name (record r.1 { world = world })).world) e
            ∙ restore_present name tree (insert name tree dir)
                (record disk { backups = some (insert name tree dir); world = world }) refl
                (lookup-insert_self name tree dir) c (remove_world-none world removed),
      )

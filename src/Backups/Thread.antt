-- ===== src/Backups/Thread.antt =====
-- The thread of BackupManager (src/core/backup_manager.cpp): BackupLoop a turn at a time, with what
-- StartAutoBackup and StopAutoBackup do to it. Times are in minutes.
use mcx.Prelude.{
  ℕ, ◌+◌, ◌≤◌, ◌<◌, ◌≡◌, refl, Bool, true, false, Option, none, some, List, [], ◌∷◌, arith, ltb,
  if◌then◌else◌, All,
}
use mcx.Prelude.Text.{Text}
use mcx.Backups.{BackupManager, Disk, Files, backup_now, start_auto_backup, stop_auto_backup}

-- It was not started or was joined; it is at the test of the loop, in the sleep that ends at a time,
-- at the second test, or in BackupNow; or it has ended and waits for the join.
pub data Place : Type 0 where
  absent tests : Place
  sleeps : ℕ → Place
  checks copies ended : Place

pub record Thread (Tree : Type 0) : Type 0 where
  pub manager : BackupManager
  pub place : Place
  pub disk : Disk Tree

-- A turn of the thread at a time, with the name that the clock gives; the store of StopAutoBackup.
pub data Turn : Type 0 where
  thread : ℕ → Text → Turn
  lower : Turn

-- The turn is before that time.
abbrev pub IsBefore : ℕ → Turn → Type 0
IsBefore wake (thread now name) = now < wake
IsBefore wake lower = Unit

abbrev pub is_joinable : Place → Bool
is_joinable absent = false
is_joinable tests = true
is_joinable (sleeps wake) = true
is_joinable checks = true
is_joinable copies = true
is_joinable ended = true

module _ {Tree : Type 0} where
  -- `none` is std::terminate: a thread is assigned over one that can be joined.
  unfoldable pub start : Thread Tree → Option (Thread Tree)
  unfolding start_auto_backup
  start t =
      if is_joinable t.place
      then none
      else some (record t { manager = start_auto_backup t.manager; place = tests })

  module _ (sort : List Text → List Text) (files : Files Tree) where
    unfoldable pub thread_turn : Place → ℕ → Text → Thread Tree → Thread Tree
    unfolding backup_now
    thread_turn absent now name t = t
    thread_turn tests now name t = record t {
      place = if t.manager.running then sleeps (now + t.manager.interval) else ended;
    }
    thread_turn (sleeps wake) now name t = if ltb now wake then t else record t { place = checks }
    thread_turn checks now name t = record t { place = if t.manager.running then copies else tests }
    thread_turn copies now name t = record t {
      place = tests;
      disk = (backup_now sort files t.manager name t.disk).1;
    }
    thread_turn ended now name t = t

    unfoldable pub step : Turn → Thread Tree → Thread Tree
    unfolding thread_turn stop_auto_backup
    step (thread now name) t = thread_turn t.place now name t
    step lower t = record t { manager = stop_auto_backup t.manager }

    unfoldable pub steps : List Turn → Thread Tree → Thread Tree
    unfolding step
    steps [] t = t
    steps (turn ∷ turns) t = steps turns (step turn t)

    -- In the sleep, behind the store of StopAutoBackup.
    abbrev IsAsleep : ℕ → Disk Tree → Thread Tree → Type 0
    IsAsleep wake disk t = (t.place ≡ sleeps wake) × (t.manager.running ≡ false) × (t.disk ≡ disk)

    step-IsAsleep :
        (turn : Turn) (wake : ℕ) (disk : Disk Tree) (t : Thread Tree)
        → IsBefore wake turn
        → IsAsleep wake disk t
        → IsAsleep wake disk (step turn t)
    unfolding step thread_turn stop_auto_backup
    step-IsAsleep (thread now name) wake disk t h (p, r, d) =
        let early : ltb now wake ≡ true = ground (arith, h) in rw (p, step, early) (refl, r, d)
    step-IsAsleep lower wake disk t h (p, r, d) = (p, refl, d)

    steps-IsAsleep :
        (turns : List Turn) (wake : ℕ) (disk : Disk Tree) (t : Thread Tree)
        → All (IsBefore wake) turns
        → IsAsleep wake disk t
        → IsAsleep wake disk (steps turns t)
    unfolding steps
    steps-IsAsleep [] wake disk t h a = a
    steps-IsAsleep (turn ∷ turns) wake disk t h a =
        steps-IsAsleep turns wake disk (step turn t) h.1 (step-IsAsleep turn wake disk t h.0 a)

    woken :
        (t : Thread Tree) (wake now late later : ℕ) (n1 n2 n3 : Text) (disk : Disk Tree)
        → IsAsleep wake disk t
        → wake ≤ now
        → let after = steps (thread now n1 ∷ thread late n2 ∷ thread later n3 ∷ []) t in
          (after.place ≡ ended) × (after.disk ≡ disk)
    unfolding steps step thread_turn
    woken t wake now late later n1 n2 n3 disk (p, r, d) h =
        let awake : ltb now wake ≡ false = ground (arith, h) in rw (p, awake, r, d) (refl, refl)

    -- StopAutoBackup while the thread sleeps: until the end of that sleep, up to the whole interval,
    -- the thread has not ended, whatever turns follow, so the join does not return. Behind it, three
    -- turns end the thread, and no backup is made.
    pub stop_sleeps :
        (turns : List Turn) (t : Thread Tree) (wake now late later : ℕ) (n1 n2 n3 : Text)
        → t.place ≡ sleeps wake
        → All (IsBefore wake) turns
        → wake ≤ now
        → let waiting = steps (lower ∷ turns) t in
          let after = steps (thread now n1 ∷ thread late n2 ∷ thread later n3 ∷ []) waiting in
          (waiting.place ≡ sleeps wake) × (after.place ≡ ended) × (after.disk ≡ t.disk)
    unfolding steps step stop_auto_backup
    stop_sleeps turns t wake now late later n1 n2 n3 p h late_now =
        let a = steps-IsAsleep turns wake t.disk (step lower t) h (p, refl, refl) in
        let waiting = steps turns (step lower t) in
        let (end, same) = woken waiting wake now late later n1 n2 n3 t.disk a late_now in
        (a.0, end, same)

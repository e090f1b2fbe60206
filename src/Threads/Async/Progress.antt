-- ===== src/Threads/Async/Progress.antt =====
-- The end of the workers after Stop of src/core/async_worker.cpp.
use mcx.Prelude.{
  ℕ, ◌+◌, ◌-◌, max, ◌≤◌, ◌≡◌, ◌≢◌, refl, sym, ap, ◌∙◌, ◌⊎◌, inl, inr, subst, Bool, true, false,
  some, List, [], ◌∷◌, arith, ◌==◌, if◌then◌else◌, Option-cases, get_elem?, get_elem?-set_self,
  get_elem?-set_other,
}
use mcx.Threads.Async.{
  AsyncTask, AsyncWorker, Place, testing, fetching, holding, working, calling, leaving, stopped,
  submit, request_stop, get_next_task, accept, fetch, after_work, worker_turn,
}
use mcx.Threads.Async.Pool.{System, Act, submits, stops, turn, move, act, run}

eq-cases : (j i : ℕ) → ((j == i) ≡ true) × (j ≡ i) ⊎ ((j == i) ≡ false) × (j ≢ i)
eq-cases j i = ground arith

module _ {Work : Type 0} where
  -- How many turns a worker has before it at most, once the flag is down.
  abbrev pub turns_left : Place Work → ℕ
  turns_left testing = 1
  turns_left fetching = 6
  turns_left (holding task) = 5
  turns_left (working task) = 4
  turns_left (calling task) = 3
  turns_left (leaving task) = 2
  turns_left stopped = 0

  -- The turns of the worker of that number in a schedule.
  abbrev pub turns_of : ℕ → List (Act Work) → ℕ
  turns_of i [] = 0
  turns_of i (submits task ∷ acts) = turns_of i acts
  turns_of i (stops ∷ acts) = turns_of i acts
  turns_of i (turn j ∷ acts) = (if j == i then 1 else 0) + turns_of i acts

  turns_left-le : (place : Place Work) → turns_left place ≤ 6
  turns_left-le place = ground arith

  turns_left_none : (place : Place Work) → turns_left place ≤ 0 → place ≡ stopped
  turns_left_none place h = ground arith

  module _ (throws : Work → Bool) where
    worker_turn_left :
        (place : Place Work) (shared : AsyncWorker Work)
        → shared.running ≡ false
        → ((worker_turn throws place shared).1.running ≡ false)
          × (turns_left (worker_turn throws place shared).0 + 1 ≤ max 1 (turns_left place))
    unfolding worker_turn fetch accept get_next_task after_work
    worker_turn_left testing shared h = ground (arith, h)
    worker_turn_left fetching shared h = ground (arith, h)
    worker_turn_left (holding task) shared h = ground (arith, h)
    worker_turn_left (working task) shared h = ground (arith, h)
    worker_turn_left (calling task) shared h = ground (arith, h)
    worker_turn_left (leaving task) shared h = ground (arith, h)
    worker_turn_left stopped shared h = ground (arith, h)

    -- The flag is down, and the worker of that number has so many turns before it at most.
    record IsEnding (i n : ℕ) (s : System Work) : Type 0 where
      flag : s.shared.running ≡ false
      here : (place : Place Work) × (get_elem? s.workers i ≡ some place) × (turns_left place ≤ n)

    move_self :
        (i n : ℕ) (place : Place Work) (s : System Work)
        → s.shared.running ≡ false
        → get_elem? s.workers i ≡ some place
        → turns_left place ≤ n
        → IsEnding i (n - 1) (move throws i place s)
    unfolding move
    move_self i n place s flag e le =
        let place' = (worker_turn throws place s.shared).0 in
        let (down, less) = worker_turn_left place s.shared flag in
        record {
          flag = down;
          here = (place', get_elem?-set_self s.workers i place' e, omega arith);
        }

    move_other :
        (i j n : ℕ) (place : Place Work) (s : System Work)
        → j ≢ i
        → IsEnding i n s
        → IsEnding i n (move throws j place s)
    unfolding move
    move_other i j n place s ne c =
        let place' = (worker_turn throws place s.shared).0 in
        record {
          flag = (worker_turn_left place s.shared c.flag).0;
          here = (c.here.0, get_elem?-set_other s.workers j i place' ne ∙ c.here.1, c.here.2);
        }

    turn_other :
        (i j n : ℕ) (s : System Work)
        → j ≢ i
        → IsEnding i n s
        → IsEnding i n (act throws (turn j) s)
    unfolding act
    turn_other i j n s ne c = elim (Option-cases (get_elem? s.workers j)) [
      | inl e ↦ rw (act, e) c
      | inr (place, e) ↦ rw (act, e) (move_other i j n place s ne c)
    ]

    turn_self :
        (i n : ℕ) (s : System Work) → IsEnding i n s → IsEnding i (n - 1) (act throws (turn i) s)
    unfolding act
    turn_self i n s c = rw (act, c.here.1) (move_self i n c.here.0 s c.flag c.here.1 c.here.2)

    submits-IsEnding :
        (i n : ℕ) (task : AsyncTask Work) (s : System Work)
        → IsEnding i n s
        → IsEnding i n (act throws (submits task) s)
    unfolding act submit
    submits-IsEnding i n task s c = record { flag = c.flag; here = c.here }

    stops-IsEnding :
        (i n : ℕ) (s : System Work)
        → (place : Place Work) × (get_elem? s.workers i ≡ some place) × (turns_left place ≤ n)
        → IsEnding i n (act throws stops s)
    unfolding act request_stop
    stops-IsEnding i n s here = record { flag = refl; here = here }

    run-IsEnding :
        (i n : ℕ) (acts : List (Act Work)) (s : System Work)
        → IsEnding i n s
        → IsEnding i (n - turns_of i acts) (run throws acts s)
    unfolding run
    run-IsEnding i n [] s c =
        let none_off : n ≡ n - 0 = omega arith in
        subst (λ k. IsEnding i k (run throws [] s)) none_off c
    run-IsEnding i n (submits task ∷ acts) s c =
        run-IsEnding i n acts (act throws (submits task) s) (submits-IsEnding i n task s c)
    run-IsEnding i n (stops ∷ acts) s c =
        run-IsEnding i n acts (act throws stops s) (stops-IsEnding i n s c.here)
    run-IsEnding i n (turn j ∷ acts) s c = elim (eq-cases j i) [
      | inl (is, e) ↦
          let n' = n - 1 - turns_of i acts in
          let count : n' ≡ n - turns_of i (turn j ∷ acts) = rw is (omega arith) in
          let c' =
            subst (λ k. IsEnding i (n - 1) (act throws (turn k) s)) (sym e) (turn_self i n s c) in
          subst (λ k. IsEnding i k (run throws acts (act throws (turn j) s))) count
            (run-IsEnding i (n - 1) acts (act throws (turn j) s) c')
      | inr (is, ne) ↦
          let count : n - turns_of i acts ≡ n - turns_of i (turn j ∷ acts) = rw is (omega arith) in
          subst (λ k. IsEnding i k (run throws acts (act throws (turn j) s))) count
            (run-IsEnding i n acts (act throws (turn j) s) (turn_other i j n s ne c))
    ]

    -- From Stop on, a worker of the pool that gets six turns or more is behind its loop, whatever
    -- the other threads do between its turns, tasks that they still submit included, and whatever
    -- throws.
    pub run-stopped :
        (i : ℕ) (acts : List (Act Work)) (s : System Work) {place : Place Work}
        → get_elem? s.workers i ≡ some place
        → 6 ≤ turns_of i acts
        → get_elem? (run throws (stops ∷ acts) s).workers i ≡ some stopped
    unfolding run
    run-stopped i acts s {place} e enough =
        let c =
          run-IsEnding i 6 acts (act throws stops s)
            (stops-IsEnding i 6 s (place, e, turns_left-le place)) in
        c.here.1 ∙ ap some (turns_left_none c.here.0 (omega (arith, c.here.2)))

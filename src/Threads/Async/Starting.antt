-- ===== src/Threads/Async/Starting.antt =====
-- How often the loop of Start runs.
use mcx.Prelude.{ℕ, zero, suc, ◌+◌, ◌≤◌, ◌<◌, ◌≡◌, refl, ◌∙◌, none, some, arith, ltb, if◌then◌else◌}
use mcx.Threads.Async.{start_loop, start}

start_loop_ends :
    (grow : ℕ → ℕ) (fuel i capacity : ℕ)
    → i ≤ capacity
    → capacity < fuel + i
    → start_loop grow fuel i i capacity ≡ some capacity
unfolding start_loop
start_loop_ends grow zero i capacity h f = absurd (omega arith)
start_loop_ends grow (suc fuel) i capacity h f =
    ground (arith, start_loop_ends grow fuel (i + 1) capacity)

start_loop_endless :
    (grow : ℕ → ℕ) (fuel i size capacity : ℕ)
    → ((n : ℕ) → n < grow n)
    → i < size
    → size ≤ capacity
    → start_loop grow fuel i size capacity ≡ none
unfolding start_loop
start_loop_endless grow zero i size capacity g h le = refl
start_loop_endless grow (suc fuel) i size capacity g h le =
    let big : size + 1 ≤ (if ltb size capacity then capacity else grow capacity) =
      ground (arith, g capacity) in
    let rest =
      start_loop_endless grow fuel (i + 1) (size + 1)
        (if ltb size capacity then capacity else grow capacity) g (omega arith) big in
    ground (arith, rest)

-- Start makes as many threads as the vector has room for where it has none yet; where it has some,
-- as after a second Start without a Stop, the loop never ends. A full vector grows by some amount,
-- it has no more threads than room, and the fuel is above its room.
start_lem :
    (grow : ℕ → ℕ) (fuel size capacity : ℕ)
    → ((n : ℕ) → n < grow n)
    → size ≤ capacity
    → capacity < fuel
    → start grow fuel size capacity ≡ (if ltb 0 size then none else some capacity)
unfolding start
start_lem grow fuel zero capacity g le f = start_loop_ends grow fuel 0 capacity le (omega arith)
start_lem grow fuel (suc size) capacity g le f =
    start_loop_endless grow fuel 0 (suc size) capacity g (omega arith) le ∙ ground arith

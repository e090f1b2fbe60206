-- ===== src/Managers/Stats/Ranking.antt =====
-- GetTopKills and the counters of src/core/stats_manager.cpp.
use mcx.Prelude.{
  ℕ, zero, suc, min, ◌≡◌, refl, ap, ◌∙◌, List, [], ◌∷◌, ◌++◌, arith, if◌then◌else◌, length, take,
  drop, length-take, take_all, take-append-drop, All, nat_eq, text_eq, text_eq_iff, text_key,
}
use mcx.Prelude.Text.{Text}
use mcx.Prelude.Int.{ℤ, pos, ◌+ℤ◌, ◌≤ℤ◌}
use mcx.Maps.{lookup_or, lookup-insert}
use mathlib.Core.List.{Perm}
use mcx.Managers.Stats.{
  StatValue, zero_stats, StatsManager, change, record_kill, record_death, record_block_mined,
  record_block_placed, record_play_time, record_distance, get_stats, all_kills, get_top_kills,
}

-- Every later entry has at most as many kills: the order that the comparator asks for.
abbrev pub IsDescending : List (Text × ℤ) → Type 0
IsDescending [] = Unit
IsDescending (x ∷ xs) = All (λ (y : Text × ℤ). y.1 ≤ℤ x.1) xs × IsDescending xs

All-drop {ℓ κ} : {A : Type ℓ} (P : A → Type κ) (n : ℕ) (xs : List A) → All P xs → All P (drop n xs)
All-drop P zero xs h = h
All-drop P (suc n) [] h = h
All-drop P (suc n) (x ∷ xs) h = All-drop P n xs h.1

-- Each entry of the front has at least the kills of each entry of the rest.
abbrev pub Dominates : List (Text × ℤ) → List (Text × ℤ) → Type 0
Dominates xs ys = All (λ (x : Text × ℤ). All (λ (y : Text × ℤ). y.1 ≤ℤ x.1) ys) xs

take-Dominates :
    (n : ℕ) (xs : List (Text × ℤ)) → IsDescending xs → Dominates (take n xs) (drop n xs)
take-Dominates zero xs h = tt
take-Dominates (suc n) [] h = tt
take-Dominates (suc n) (x ∷ xs) h = (All-drop _ n xs h.0, take-Dominates n xs h.1)

length-all_kills : (stats : StatsManager) → length (all_kills stats) ≡ length stats
unfolding all_kills
length-all_kills [] = refl
length-all_kills (e ∷ stats) = ap suc (length-all_kills stats)

top_take :
    (sort : List (Text × ℤ) → List (Text × ℤ)) (count : ℕ) (stats : StatsManager)
    → get_top_kills sort count stats ≡ take count (sort (all_kills stats))
unfolding get_top_kills
top_take sort count stats = ground (arith, take_all count (sort (all_kills stats)))

-- Where std::sort orders what it is given, the ranking and what it leaves out are together all the
-- players, the ranking is in order, no player left out has more kills than one in it, and it has
-- `count` entries or all.
get_top_kills-Dominates :
    (sort : List (Text × ℤ) → List (Text × ℤ)) (count : ℕ) (stats : StatsManager)
    → Perm (sort (all_kills stats)) (all_kills stats)
    → IsDescending (sort (all_kills stats))
    → (rest : List (Text × ℤ)) × Perm (get_top_kills sort count stats ++ rest) (all_kills stats)
      × Dominates (get_top_kills sort count stats) rest
      × (length (get_top_kills sort count stats) ≡ min count (length (sort (all_kills stats))))
get_top_kills-Dominates sort count stats p d =
    let sorted = sort (all_kills stats) in
    (
      drop count sorted,
      rw (top_take sort count stats, take-append-drop count sorted) p,
      rw (top_take sort count stats) (take-Dominates count sorted d),
      rw (top_take sort count stats) (length-take count sorted),
    )

get_stats-change :
    (p q : Text) (f : StatValue → StatValue) (stats : StatsManager)
    → get_stats q (change p f stats)
      ≡ (if text_eq p q then f (get_stats q stats) else get_stats q stats)
unfolding get_stats lookup_or
get_stats-change p q f stats =
    ground (arith, lookup-insert p q (f (lookup_or zero_stats p stats)) stats, text_eq_iff p q)

-- The calls that count.
pub data Call : Type 0 where
  kill death block_mined block_placed : Text → Call
  play_time distance : Text → ℤ → Call

abbrev pub step : Call → StatsManager → StatsManager
step (kill p) = record_kill p
step (death p) = record_death p
step (block_mined p) = record_block_mined p
step (block_placed p) = record_block_placed p
step (play_time p n) = record_play_time p n
step (distance p n) = record_distance p n

-- What the call adds to the statistics of the player `q`.
abbrev pub add : Text → Call → StatValue → StatValue
add q (kill p) s = if text_eq p q then record s { kills = s.kills +ℤ pos 1 } else s
add q (death p) s = if text_eq p q then record s { deaths = s.deaths +ℤ pos 1 } else s
add q (block_mined p) s =
    if text_eq p q then record s { blocks_mined = s.blocks_mined +ℤ pos 1 } else s
add q (block_placed p) s =
    if text_eq p q then record s { blocks_placed = s.blocks_placed +ℤ pos 1 } else s
add q (play_time p n) s =
    if text_eq p q then record s { play_time_minutes = s.play_time_minutes +ℤ n } else s
add q (distance p n) s =
    if text_eq p q then record s { distance_traveled = s.distance_traveled +ℤ n } else s

abbrev pub run : List Call → StatsManager → StatsManager
run [] stats = stats
run (c ∷ cs) stats = run cs (step c stats)

abbrev pub add_all : Text → List Call → StatValue → StatValue
add_all q [] s = s
add_all q (c ∷ cs) s = add_all q cs (add q c s)

get_stats-step :
    (q : Text) (c : Call) (stats : StatsManager)
    → get_stats q (step c stats) ≡ add q c (get_stats q stats)
unfolding record_kill record_death record_block_mined record_block_placed record_play_time
    record_distance
get_stats-step q (kill p) stats =
    get_stats-change p q (λ s. record s { kills = s.kills +ℤ pos 1 }) stats
get_stats-step q (death p) stats =
    get_stats-change p q (λ s. record s { deaths = s.deaths +ℤ pos 1 }) stats
get_stats-step q (block_mined p) stats =
    get_stats-change p q (λ s. record s { blocks_mined = s.blocks_mined +ℤ pos 1 }) stats
get_stats-step q (block_placed p) stats =
    get_stats-change p q (λ s. record s { blocks_placed = s.blocks_placed +ℤ pos 1 }) stats
get_stats-step q (play_time p n) stats =
    get_stats-change p q (λ s. record s { play_time_minutes = s.play_time_minutes +ℤ n }) stats
get_stats-step q (distance p n) stats =
    get_stats-change p q (λ s. record s { distance_traveled = s.distance_traveled +ℤ n }) stats

-- After any calls the statistics of a player are what the calls about that player add up to, field
-- by field, and nothing else.
get_stats-run :
    (q : Text) (cs : List Call) (stats : StatsManager)
    → get_stats q (run cs stats) ≡ add_all q cs (get_stats q stats)
get_stats-run q [] stats = refl
get_stats-run q (c ∷ cs) stats =
    get_stats-run q cs (step c stats) ∙ ap (add_all q cs) (get_stats-step q c stats)

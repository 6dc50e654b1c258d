-- ===== src/Metrics/Sums.antt =====
-- Sums of a counter over the tasks.
use dwcs.Base.{
  ℕ, ◌+◌, ◌%◌, ◌^◌, String, [], ◌∷◌, ◌≡◌, inl, inr, arith, next_uint64, Bool-cases, str_eq,
}
use dwcs.GoMap.{GoMap, lookup, insert}
use dwcs.Metrics.{TaskStats, new_task_stats, task_stats_or_new}

unfoldable pub sum_of : (TaskStats → ℕ) → GoMap TaskStats → ℕ
sum_of g [] = 0
sum_of g ((k, ts) ∷ m) = g ts + sum_of g m

sum_of-insert :
    (g : TaskStats → ℕ) (k : String) (v : TaskStats) (m : GoMap TaskStats)
    → g new_task_stats ≡ 0
    → sum_of g (insert k v m) + g (task_stats_or_new (lookup k m)) ≡ sum_of g m + g v
unfolding sum_of insert lookup task_stats_or_new
sum_of-insert g k v [] z = omega (arith, z)
sum_of-insert g k v ((j, w) ∷ m) z = elim (Bool-cases (str_eq j k)) [
  | inl same ↦ rw same (omega arith)
  | inr other ↦ rw other (omega (arith, sum_of-insert g k v m z))
]

-- A counter that moves with its total, or stays with it.
pub sum_of-next :
    (g : TaskStats → ℕ) (k : String) (v : TaskStats) (m : GoMap TaskStats)
    → g new_task_stats ≡ 0
    → g v ≡ next_uint64 (g (task_stats_or_new (lookup k m)))
    → sum_of g (insert k v m) % 2 ^ 64 ≡ next_uint64 (sum_of g m % 2 ^ 64)
sum_of-next g k v m z e = omega (arith, sum_of-insert g k v m z)

pub sum_of-same :
    (g : TaskStats → ℕ) (k : String) (v : TaskStats) (m : GoMap TaskStats)
    → g new_task_stats ≡ 0
    → g v ≡ g (task_stats_or_new (lookup k m))
    → sum_of g (insert k v m) ≡ sum_of g m
sum_of-same g k v m z e = omega (arith, sum_of-insert g k v m z)

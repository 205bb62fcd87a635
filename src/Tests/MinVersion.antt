-- ===== src/Tests/MinVersion.antt =====
-- The search for the least version, on three replicas.
use verified_node_replicatio.Prelude.{ℕ, zero, suc, ◌+◌, ◌≤◌, ◌<◌, ◌≡◌, arith}
use verified_node_replicatio.NrLog.{find_min_local_version}
use verified_node_replicatio.NrLog.FindMin

abbrev loaded : ℕ → ℕ
loaded zero = 9
loaded (suc zero) = 4
loaded (suc (suc i)) = 6

abbrev grown : ℕ → ℕ
grown i = loaded i + 1

three-pos : 0 < 3
three-pos = omega arith

loaded_le : (i : ℕ) → loaded i ≤ grown i
loaded_le i = omega arith

find_min_local_version-least_example :
    ((i : ℕ) → i < 3 → find_min_local_version loaded 3 ≤ grown i)
    × ((i : ℕ) × (i < 3) × (find_min_local_version loaded 3 ≡ loaded i))
find_min_local_version-least_example =
    FindMin.find_min_local_version-least loaded grown 3 three-pos loaded_le

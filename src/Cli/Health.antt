-- ===== src/Cli/Health.antt =====
-- `runDhtStatus` and `dhtVerdict` of cmd/p2pget/main.go. A sample is the number of nodes of each DHT
-- server, or `none` if the user interrupts the wait for it.
pub mod ExitCode
use p2pget.Prelude.{ℕ, List, [], ◌∷◌, if◌then◌else◌, ℤ, pos, ltb_ℤ, Option, none, some}

-- The verdict that is printed.
pub data Verdict : Type 0 where
  healthy : ℤ → Verdict
  blocked : Verdict

-- `dhtVerdict`: the verdict and the exit code.
unfoldable pub dht_verdict : ℤ → Verdict × ℕ
dht_verdict max_nodes = if ltb_ℤ (pos 0) max_nodes then (healthy max_nodes, 0) else (blocked, 1)

-- `for _, st := range eng.DHTStats()`
unfoldable pub max_nodes : ℤ → List ℤ → ℤ
max_nodes m [] = m
max_nodes m (n ∷ ns) = max_nodes (if ltb_ℤ m n then n else m) ns

-- The loop of `runDhtStatus`; `none` is its early return.
unfoldable pub sample_nodes : ℤ → List (Option (List ℤ)) → Option ℤ
unfolding max_nodes
sample_nodes m [] = some m
sample_nodes m (none ∷ samples) = none
sample_nodes m (some ns ∷ samples) = sample_nodes (max_nodes m ns) samples

-- The end of `runDhtStatus`.
abbrev pub verdict_of : Option ℤ → Option (Verdict × ℕ)
verdict_of none = none
verdict_of (some m) = some (dht_verdict m)

-- `runDhtStatus`
unfoldable pub run_dht_status : List (Option (List ℤ)) → Option (Verdict × ℕ)
unfolding sample_nodes
run_dht_status samples = verdict_of (sample_nodes (pos 0) samples)

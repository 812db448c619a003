-- ===== src/Cli/Health/ExitCode.antt =====
-- The exit code of `runDhtStatus`, cmd/p2pget/main.go.
use p2pget.Prelude.{
  ℕ, List, [], ◌∷◌, map, Bool, false, ◌||◌, ◌==◌, if◌then◌else◌, ℤ, pos, ltb_ℤ, some, ◌≡◌, refl, ap,
  ◌∙◌, arith,
}
use p2pget.Cli.Health.{Verdict, dht_verdict, max_nodes, sample_nodes, verdict_of, run_dht_status}

-- Whether a server had a node.
unfoldable pub has_node : List ℤ → Bool
has_node [] = false
has_node (n ∷ ns) = ltb_ℤ (pos 0) n || has_node ns

unfoldable pub has_node_ever : List (List ℤ) → Bool
has_node_ever [] = false
has_node_ever (ns ∷ rest) = has_node ns || has_node_ever rest

larger :
    (m n : ℤ) → ltb_ℤ (pos 0) (if ltb_ℤ m n then n else m) ≡ (ltb_ℤ (pos 0) m || ltb_ℤ (pos 0) n)
larger m n = ground arith

or_assoc : (a b c : Bool) → ((a || b) || c) ≡ (a || (b || c))
or_assoc a b c = ground arith

or_false : (a : Bool) → a ≡ (a || false)
or_false a = ground arith

max_nodes_lem :
    (m : ℤ) (ns : List ℤ) → ltb_ℤ (pos 0) (max_nodes m ns) ≡ (ltb_ℤ (pos 0) m || has_node ns)
unfolding max_nodes has_node
max_nodes_lem m [] = or_false (ltb_ℤ (pos 0) m)
max_nodes_lem m (n ∷ ns) =
    max_nodes_lem (if ltb_ℤ m n then n else m) ns
    ∙ ap (λ b. b || has_node ns) (larger m n)
    ∙ or_assoc (ltb_ℤ (pos 0) m) (ltb_ℤ (pos 0) n) (has_node ns)

sample_nodes_lem :
    (m : ℤ) (samples : List (List ℤ))
    → (peak : ℤ) × (sample_nodes m (map some samples) ≡ some peak)
      × (ltb_ℤ (pos 0) peak ≡ (ltb_ℤ (pos 0) m || has_node_ever samples))
unfolding sample_nodes has_node_ever
sample_nodes_lem m [] = (m, refl, or_false (ltb_ℤ (pos 0) m))
sample_nodes_lem m (ns ∷ rest) =
    let (peak, found, same) = sample_nodes_lem (max_nodes m ns) rest in
    (
      peak,
      found,
      same
          ∙ ap (λ b. b || has_node_ever rest) (max_nodes_lem m ns)
          ∙ or_assoc (ltb_ℤ (pos 0) m) (has_node ns) (has_node_ever rest),
    )

-- A status command that is not interrupted ends with the exit code 0 exactly if some server had a
-- node in some sample.
pub run_dht_status_lem :
    (samples : List (List ℤ))
    → (v : Verdict) × (code : ℕ) × (run_dht_status (map some samples) ≡ some (v, code))
      × ((code == 0) ≡ has_node_ever samples)
unfolding run_dht_status dht_verdict
run_dht_status_lem samples =
    let (peak, found, same) = sample_nodes_lem (pos 0) samples in
    let answer = dht_verdict peak in
    (answer.0, answer.1, ap verdict_of found, exit_code peak ∙ same)
  where
    exit_code : (peak : ℤ) → ((dht_verdict peak).1 == 0) ≡ ltb_ℤ (pos 0) peak
    exit_code peak = ground arith

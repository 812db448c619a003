-- ===== src/Cli/Setup/Rates.antt =====
-- The rate limits of cmd/p2pget/main.go in the client that internal/engine/engine.go configures.
use p2pget.Prelude.{word, ℕ, ◌*◌, ◌^◌, ◌<◌, ◌≤◌, pos, some, ◌≡◌, refl, arith, Text, lt→ltb}
use p2pget.Cli.{signed}
use p2pget.Engine.Config.{rate_burst, limiter, client_config}
use p2pget.Cli.Setup.{CommonFlags, open_engine}

signed_rate : (n : ℕ) → n < 2 ^ 63 → signed n ≡ pos n
unfolding signed
signed_rate n h = rw (lt→ltb n (2 ^ 63) h) refl

-- A burst is 256 KiB at least, and no less than the rate.
pub rate_burst_lem : (n : ℕ) → n < 2 ^ 63 → 256 * 1024 ≤ rate_burst n × n ≤ rate_burst n
unfolding rate_burst
rate_burst_lem n h = rw (signed_rate n h) (ground arith)

word_small : (n : ℕ) → n < 2 ^ 64 → word n ≡ n
word_small n h = omega arith

-- A rate in KiB that is above 0 and fits an int64 in bytes limits the client to that many bytes.
pub client_config-open_engine :
    (c : CommonFlags) (home path : Text)
    → 0 < c.rate_down
    → c.rate_down * 1024 < 2 ^ 63
    → (client_config home (open_engine c path)).download_limiter
      ≡ some (c.rate_down * 1024, rate_burst (c.rate_down * 1024))
unfolding limiter client_config open_engine
client_config-open_engine c home path some_rate fits =
    rw (word_small (c.rate_down * 1024) (omega arith), signed_rate (c.rate_down * 1024) fits)
      (ground arith)

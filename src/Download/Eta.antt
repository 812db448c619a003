-- ===== src/Download/Eta.antt =====
-- `ETA` and `Progress` of internal/engine/download.go. Their floats are a parameter.
use p2pget.Prelude.{
  ℕ, ◌-◌, ◌*◌, ◌<◌, ◌≤◌, Bool, true, false, not, ◌||◌, leb, ◌==◌, if◌then◌else◌, ◌≡◌, ◌⊎◌, arith,
}
use p2pget.Download.{Rates}
use p2pget.Download.Status.{Status}

-- The seconds that bytes take at a rate, whether they are above a number, and their whole part; and
-- the share of a number in another.
pub record Floats (Rate : Type 0) : Type 1 where
  pub Seconds : Type 0
  pub Share : Type 0
  pub over : ℕ → Rate → Seconds
  pub is_above : Seconds → ℕ → Bool
  pub whole : Seconds → ℕ
  pub no_share : Share
  pub share : ℕ → ℕ → Share
  pub whole-le : (s : Seconds) (n : ℕ) → is_above s n ≡ false → whole s ≤ n

module _ (rates : Rates) (floats : Floats rates.Rate) where
  open rates use {Rate, below_one}
  open floats use {Share, over, is_above, whole, no_share, share, whole-le}

  -- `ETA`, in nanoseconds.
  unfoldable pub eta : Status Rate → ℕ
  eta s =
      if not s.have_info || below_one s.down_rate || leb s.total_bytes s.bytes_done
      then 0
      else let secs = over (s.total_bytes - s.bytes_done) s.down_rate in
        if is_above secs (99 * 3600) then 0 else whole secs * 1000000000

  -- `Progress`
  unfoldable pub progress : Status Rate → Share
  progress s =
      if not s.have_info || s.total_bytes == 0 then no_share else share s.bytes_done s.total_bytes

  -- An ETA is 99 hours at most, so that its nanoseconds are an int64, and it is 0 unless the
  -- metadata is there, the rate is one byte per second or more, and bytes are missing.
  pub eta_lem :
      (s : Status Rate)
      → (eta s ≤ 99 * 3600 * 1000000000)
        × ((eta s ≡ 0)
            ⊎ ((s.have_info ≡ true)
                × (below_one s.down_rate ≡ false)
                × (s.bytes_done < s.total_bytes)))
  unfolding eta
  eta_lem s = ground (arith, whole-le (over (s.total_bytes - s.bytes_done) s.down_rate) (99 * 3600))

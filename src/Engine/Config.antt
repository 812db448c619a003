-- ===== src/Engine/Config.antt =====
-- `Config`, `rateBurst`, and what `New` of internal/engine/engine.go gives the torrent client. An int
-- is its 64-bit word.
use p2pget.Prelude.{
  ℕ, zero, ◌*◌, Bool, not, if◌then◌else◌, ℤ, pos, ltb_ℤ, Option, none, some, Text, is_empty,
}
use p2pget.Cli.{signed}

-- `Config`, with durations in minutes.
pub record Config : Type 0 where
  pub data_dir : Text
  pub listen_port : ℕ
  pub no_upload : Bool
  pub no_dht : Bool
  pub metadata_timeout : ℤ
  pub state_path : Text
  pub download_rate : ℕ
  pub upload_rate : ℕ
  pub max_conns : ℕ

-- `rateBurst`
unfoldable pub rate_burst : ℕ → ℕ
rate_burst rate = if ltb_ℤ (signed rate) (pos (256 * 1024)) then 256 * 1024 else rate

-- The limiters that `New` makes: a rate with its burst, if the rate is above 0.
unfoldable pub limiter : ℕ → Option (ℕ × ℕ)
limiter rate = if ltb_ℤ (pos 0) (signed rate) then some (rate, rate_burst rate) else none

-- What `New` sets in the configuration of the client; a field that is `none` keeps its default.
pub record ClientConfig : Type 0 where
  pub data_dir : Text
  pub seed : Bool
  pub no_dht : Bool
  pub listen_addr : ℕ
  pub download_limiter : Option (ℕ × ℕ)
  pub upload_limiter : Option (ℕ × ℕ)
  pub max_conns : Option ℕ

-- `New`, up to the call that makes the client, for the data directory under the home directory.
unfoldable pub client_config : Text → Config → ClientConfig
unfolding limiter
client_config home cfg = record {
  data_dir = if is_empty cfg.data_dir then home else cfg.data_dir;
  seed = not cfg.no_upload;
  no_dht = cfg.no_dht;
  listen_addr = if ltb_ℤ (pos 0) (signed cfg.listen_port) then cfg.listen_port else 0;
  download_limiter = limiter cfg.download_rate;
  upload_limiter = limiter cfg.upload_rate;
  max_conns = if ltb_ℤ (pos 0) (signed cfg.max_conns) then some cfg.max_conns else none;
}

-- `timeout`
unfoldable pub timeout_of : ℤ → ℤ
timeout_of (pos zero) = pos 10
timeout_of t = t

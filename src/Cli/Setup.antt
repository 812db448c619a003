-- ===== src/Cli/Setup.antt =====
-- The flags of cmd/p2pget/main.go and what `openEngine` and `newAggregator` make of
-- them. An int is its 64-bit word.
pub mod Rates
use p2pget.Prelude.{
  word, ℕ, ◌*◌, List, [], ◌∷◌, ◌++◌, Bool, true, false, not, if◌then◌else◌, pos, Text, codes,
  is_empty,
}
use p2pget.Engine.Config.{Config}

-- `commonFlags`
pub record CommonFlags : Type 0 where
  pub data_dir : Text
  pub index_path : Text
  pub listen_port : ℕ
  pub no_dht : Bool
  pub no_upload : Bool
  pub rate_down : ℕ
  pub rate_up : ℕ
  pub max_conns : ℕ
  pub jackett_url : Text
  pub jackett_key : Text

-- `envOr`, for the value of the variable.
unfoldable pub env_or : Text → Text → Text
env_or v def = if is_empty v then def else v

-- The defaults of `registerCommon`, for the two paths under the home directory and the values of
-- the variables P2PGET_JACKETT_URL and P2PGET_JACKETT_KEY.
unfoldable pub register_common : Text → Text → Text → Text → CommonFlags
unfolding env_or
register_common data_path index url api_key = record {
  data_dir = data_path;
  index_path = index;
  listen_port = 0;
  no_dht = false;
  no_upload = false;
  rate_down = 0;
  rate_up = 0;
  max_conns = 0;
  jackett_url = env_or url (codes "http://localhost:9117");
  jackett_key = api_key;
}

-- `openEngine`, up to its call of `New`.
unfoldable pub open_engine : CommonFlags → Text → Config
open_engine c path = record {
  data_dir = c.data_dir;
  listen_port = c.listen_port;
  no_upload = c.no_upload;
  no_dht = c.no_dht;
  metadata_timeout = pos 0;
  state_path = path;
  download_rate = word (c.rate_down * 1024);
  upload_rate = word (c.rate_up * 1024);
  max_conns = c.max_conns;
}

-- The indexers of `newAggregator`.
pub data Source : Type 0 where
  pirate_bay : Source
  nyaa : Source
  torrents_csv : Source
  jackett : Text → Text → Source
  store_indexer : Source

-- `newAggregator`: the indexers, and the time budget in seconds. The test is `st != nil`.
unfoldable pub new_aggregator : Bool → CommonFlags → List Source × ℕ
new_aggregator has_store c =
    let keyed = not (is_empty c.jackett_key) in
    let slow = if keyed then jackett c.jackett_url c.jackett_key ∷ [] else [] in
    let local = if has_store then store_indexer ∷ [] else [] in
    ((pirate_bay ∷ nyaa ∷ torrents_csv ∷ []) ++ slow ++ local, if keyed then 30 else 15)

-- ===== src/Engine/Metadata.antt =====
-- The waits for metadata in internal/engine/engine.go, `WaitInfo` and `FetchInfo`, the check of data
-- that an earlier run left, and the counts of the DHT servers.
use p2pget.Prelude.{
  ℕ, List, [], ◌∷◌, Bool, true, false, not, ◌&&◌, ◌==◌, ltb, if◌then◌else◌, ℤ, Option, none, some,
  Text,
}
use p2pget.Strings.{Unicode, to_lower, trim_space}
use p2pget.Download.{Download, Error}
use p2pget.Engine.{Engine, Client, Outcome, ok, failed, bad_hex}

-- The channel that is ready first, in the `select` of `WaitInfo` and `FetchInfo`.
pub data Wake : Type 0 where
  info_ready torrent_closed cancelled : Wake

-- What `WaitInfo` returns.
pub data Waited : Type 0 where
  arrived : Waited
  gave_up : Error → Waited
  closed_early : Waited
  stopped : Waited

-- `WaitInfo`
unfoldable pub wait_info : {R : Type 0} → Wake → Download R → Waited
wait_info info_ready d = arrived
wait_info torrent_closed d = elim d.err [ none ↦ closed_early | some x ↦ gave_up x ]
wait_info cancelled d = stopped

module _ {R I : Type 0} ⦃u : Unicode⦄ where
  -- `FetchInfo`; `none` for the info is the end of its context.
  unfoldable pub fetch_info : Client → Option I → Text → Engine R → Engine R × Outcome (Option I)
  fetch_info c info text e = elim (c.from_hex (to_lower (trim_space text))) [
    | none ↦ (e, failed bad_hex)
    | some h ↦ (record e { dropped = (c.add_info_hash h).handle ∷ e.dropped }, ok info)
  ]

-- What `os.Stat` says of the path of a torrent's data.
pub record Leftover : Type 0 where
  pub is_dir : Bool
  pub size : ℕ

-- `recoverExistingData`, as whether it makes the client verify the data: for the bytes that the
-- client has, the name of the torrent if its metadata is there, and what lies in the data directory
-- under a name.
unfoldable pub recover_existing_data : ℕ → Option Text → (Text → Option Leftover) → Bool
recover_existing_data completed best_name stat = if ltb 0 completed then false else elim best_name [
  | none ↦ false
  | some name ↦ elim (stat name) [
    | none ↦ false
    | some fi ↦ if not fi.is_dir && fi.size == 0 then false else true
  ]
]

-- `DHTStats`, of one server.
pub record DhtStats : Type 0 where
  pub addr : Text
  pub nodes : ℤ
  pub good : ℤ
  pub bad : ℕ
  pub out_queries : ℤ

-- `Engine.DHTStats`; `none` is a server whose counts are of another type.
unfoldable pub dht_stats : List (Option DhtStats) → List DhtStats
dht_stats [] = []
dht_stats (none ∷ servers) = dht_stats servers
dht_stats (some st ∷ servers) = st ∷ dht_stats servers

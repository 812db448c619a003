-- ===== src/Engine/Sources.antt =====
-- `AddTorrentFile` and `AddTorrentURL` of internal/engine/engine.go: where the metainfo of a torrent
-- comes from. The file system, the request and the parser of metainfo are parameters.
use p2pget.Prelude.{ℕ, Bool, not, ◌==◌, if◌then◌else◌, Option, none, some, Text}
use p2pget.Engine.{
  Engine, Client, Outcome, failed, add_torrent, unreadable, unreachable, unparsed, bad_status,
}

-- A response: its status code and its body.
pub record Response : Type 0 where
  pub status_code : ℕ
  pub body : Text

-- `metainfo.LoadFromFile`, the request of a URL, and `metainfo.Load`, which give the info-hash of a
-- metainfo; `none` is an error.
pub record Loader : Type 0 where
  pub load_from_file : Text → Option Text
  pub get : Text → Option Response
  pub load : Text → Option Text

module _ {R : Type 0} (still : R) (c : Client) (loader : Loader) (now : ℕ) (written : Bool) where
  -- `AddTorrentFile`
  unfoldable pub add_torrent_file : Text → Engine R → Engine R × Outcome ℕ
  add_torrent_file path e = elim (loader.load_from_file path) [
    | none ↦ (e, failed unreadable)
    | some hash ↦ add_torrent still c now written hash e
  ]

  -- `AddTorrentURL`
  unfoldable pub add_torrent_url : Text → Engine R → Engine R × Outcome ℕ
  add_torrent_url url e = elim (loader.get url) [
    | none ↦ (e, failed unreachable)
    | some r ↦
        if not (r.status_code == 200)
        then (e, failed (bad_status r.status_code))
        else elim (loader.load r.body) [
          | none ↦ (e, failed unparsed)
          | some hash ↦ add_torrent still c now written hash e
        ]
  ]

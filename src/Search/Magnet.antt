-- ===== src/Search/Magnet.antt =====
-- `MagnetFromInfoHash` of internal/search/search.go. The encoding of `url.Values` is a parameter.
pub mod Trackers
use p2pget.Prelude.{
  List, [], ◌∷◌, ◌++◌, Bool, true, false, ◌||◌, if◌then◌else◌, Text, codes, text_discrete, is_empty,
  contains,
}
use p2pget.Strings.{Unicode, to_lower}

-- `defaultTrackers`
abbrev pub default_trackers : List Text
default_trackers =
    codes "udp://tracker.opentrackr.org:1337/announce"
    ∷ codes "udp://open.demonii.com:1337/announce"
    ∷ codes "udp://open.stealth.si:80/announce"
    ∷ codes "udp://tracker.torrent.eu.org:451/announce"
    ∷ codes "udp://exodus.desync.com:6969/announce"
    ∷ codes "udp://tracker.openbittorrent.com:6969/announce"
    ∷ codes "udp://explodie.org:6969/announce"
    ∷ codes "udp://opentracker.io:6969/announce"
    ∷ codes "udp://tracker.dler.com:6969/announce"
    ∷ codes "udp://tracker-udp.gbitt.info:80/announce"
    ∷ codes "http://tracker.openbittorrent.com:80/announce"
    ∷ codes "https://tracker.tamersunion.org:443/announce"
    ∷ []

-- `addTracker`; the set `seen` has the members of the list.
unfoldable pub add_tracker : List Text → Text → List Text
add_tracker trs tr = if is_empty tr || contains text_discrete tr trs then trs else trs ++ tr ∷ []

unfoldable pub add_trackers : List Text → List Text → List Text
unfolding add_tracker
add_trackers trs [] = trs
add_trackers trs (t ∷ ts) = add_trackers (add_tracker trs t) ts

-- The values of `tr`.
unfoldable pub magnet_trackers : List Text → List Text
magnet_trackers extra = add_trackers (add_trackers [] default_trackers) extra

abbrev tr_values : List Text → List (Text × Text)
tr_values [] = []
tr_values (t ∷ ts) = (codes "tr", t) ∷ tr_values ts

-- `MagnetFromInfoHash`
module _ ⦃u : Unicode⦄ (encode : List (Text × Text) → Text) where
  unfoldable pub magnet_from_info_hash : Text → Text → List Text → Text
  unfolding magnet_trackers
  magnet_from_info_hash info_hash name extra =
      let xt : Text × Text = (codes "xt", codes "urn:btih:" ++ to_lower info_hash) in
      let trs = tr_values (magnet_trackers extra) in
      codes "magnet:?" ++ encode (xt ∷ (if is_empty name then trs else (codes "dn", name) ∷ trs))

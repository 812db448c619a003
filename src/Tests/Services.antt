-- ===== src/Tests/Services.antt =====
-- Replies of the services of internal/search, and the errors of internal/engine/engine.go.
use p2pget.Prelude.{◌∷◌, some, ℕ, List, [], ◌++◌, true, none, pos, Text, codes, replicate, Option}
use p2pget.Indexers.{Parsers, Reply, reply}
use p2pget.Indexers.Services.{TorrentsCsvItem, pirate_bay_search, torrents_csv_search, nyaa_search}
use p2pget.Indexers.Torznab.{TorznabItem, jackett_search}
use p2pget.Indexers.Fetchable.{AllHaveLinks}
use p2pget.Indexers.Picked.{
  Picks, Answers, IsTorrent, PirateBayMade, HasHash, TorrentsCsvMade, HasAnyHash, NyaaMade,
  search-Picks,
}
use p2pget.Engine.{add_magnet, add_info_hash, remove, restart}
use p2pget.Engine.Refusals.{OnFailure, Unchanged, LosesOne, failures-lem}
use p2pget.Tests.{ascii_only}
use p2pget.Tests.Engines.{one_torrent, opened}

-- Parsers that read nothing.
abbrev blind : Parsers
blind = record {
  Float = ℕ;
  atoi = λ s. pos 0;
  parse_int = λ s. pos 0;
  rfc1123z = λ s. none;
  rfc1123 = λ s. none;
  parse_float = λ s. none;
  scaled = λ v k. pos v;
}

abbrev plain : List (Text × Text) → Text
plain vs = []

abbrev answer : Reply
answer = reply 200 (codes "[]")

abbrev item : TorrentsCsvItem
item = record {
  info_hash = replicate 40 b'a';
  name = codes "film";
  size_bytes = pos 5;
  seeders = pos 1;
  leechers = pos 0;
  created_unix = pos 0;
}

abbrev nothing : {A : Type 0} → Text → Option A
nothing body = none

search-Picks_example :
    Answers plain blind
      (Picks IsTorrent (PirateBayMade plain blind))
      nothing
      answer
      (pirate_bay_search plain blind nothing answer)
    × Answers plain blind
        (Picks (HasHash plain blind) (TorrentsCsvMade plain blind))
        (λ body. some (item ∷ []))
        answer
        (torrents_csv_search plain blind (λ body. some (item ∷ [])) answer)
    × Answers plain blind
        (Picks (HasAnyHash plain blind) (NyaaMade plain blind))
        nothing
        answer
        (nyaa_search plain blind nothing answer)
    × Answers plain blind
        (λ (its : List TorznabItem) rs. AllHaveLinks rs)
        nothing
        answer
        (jackett_search plain blind nothing answer)
search-Picks_example =
    search-Picks plain blind nothing (λ body. some (item ∷ [])) nothing nothing answer

abbrev link : Text
link = codes "magnet:?xt=urn:btih:" ++ (replicate 40 b'A' ++ codes "&dn=film")

failures-lem_example :
    OnFailure (Unchanged opened) (add_magnet (pos 0) one_torrent 7 true (codes "abc") opened)
    × OnFailure (Unchanged opened) (add_info_hash (pos 0) one_torrent 7 true (codes "abc") opened)
    × OnFailure (Unchanged opened) (remove one_torrent true (codes "abc") opened)
    × OnFailure
        (LosesOne one_torrent (codes "abc") opened)
        (restart (pos 0) one_torrent 7 true (codes "abc") opened)
failures-lem_example = failures-lem (pos 0) one_torrent 7 true opened (codes "abc")

-- ===== src/Crawler/Indexer.antt =====
-- `StoreIndexer` of internal/dht/crawler.go: the index of the crawler as an indexer of the search.
use p2pget.Prelude.{List, [], ◌∷◌, Bool, ltb_ℤ, if◌then◌else◌, ℤ, pos, Text, codes}
use p2pget.Strings.{Unicode}
use p2pget.Search.{Result}
use p2pget.Search.Magnet.{magnet_from_info_hash}
use p2pget.Store.{Store, Row}
use p2pget.Store

module _ ⦃u : Unicode⦄ (encode : List (Text × Text) → Text) where
  abbrev pub store_result : Text × Row → Result
  store_result (h, r) = record {
    title = r.name;
    info_hash = h;
    magnet = magnet_from_info_hash encode h r.name [];
    size = r.size;
    seeders = pos 0;
    leechers = pos 0;
    source = codes "dht-index";
    date = r.seen_at;
  }

  unfoldable pub store_results : List (Text × Row) → List Result
  store_results [] = []
  store_results (r ∷ rs) = store_result r ∷ store_results rs

  -- `StoreIndexer.Search`, with the limit of the indexer, on a database that answers.
  unfoldable pub store_search :
      (Text → Text → Bool)
      → (List (Text × Row) → List (Text × Row))
      → ℤ
      → Text
      → Store
      → List Result
  unfolding store_results
  store_search matches order limit query s =
      let n = if ltb_ℤ (pos 0) limit then limit else pos 200 in
      store_results (Store.search matches order query n s)

-- ===== src/Tests/Commands.antt =====
-- A search of two words and a download, for cmd/p2pget/main.go.
use p2pget.Prelude.{
  ℕ, suc, ◌+◌, ◌*◌, ◌≤◌, List, [], ◌∷◌, ◌≡◌, ◌<◌, ◌^◌, true, false, some, none, pos, Text, codes,
  refl, arith, length,
}
use p2pget.Search.Collect.{Answer}
use p2pget.Search.Collect.Arrivals.{perm_refl}
use p2pget.Search.Collect.Matched.{answered}
use p2pget.Download.{Stats, File, priority_normal}
use p2pget.Engine.Sources.{Loader}
use p2pget.Engine.Metadata.{info_ready}
use p2pget.Cli.{page_size, page_number}
use p2pget.Cli.Flags.{Item, positional, flag, arguments, assign_all}
use p2pget.Cli.Setup.{Source, store_indexer, new_aggregator, register_common}
use p2pget.Cli.Searching.{SearchFlags, join_words, run_search}
use p2pget.Cli.Searching.Walk.{walk, walk_lem}
use p2pget.Cli.Searching.Found.{FitsInt, Prints, asked, run_search_lem}
use p2pget.Cli.Getting.{GetEvent, GetRun, selected, tick, run_get}
use p2pget.Cli.Getting.Runs.{EndsWell, run_get_lem}
use p2pget.Tests.{ascii_only}
use p2pget.Tests.Clis.{dashed, line}
use p2pget.Tests.Downloads.{byte_rates}
use p2pget.Tests.Engines.{one_torrent}
use p2pget.Tests.Searches.{here}
use p2pget.Tests.Sorts.{by_seeders, by_seeders-IsSort}

abbrev five : List ℕ
five = 1 ∷ 2 ∷ 3 ∷ 4 ∷ 5 ∷ []

two_a_page : (length five + page_size (pos 2) < 2 ^ 63) × (length five ≤ 3 * page_size (pos 2))
unfolding page_size
two_a_page = (omega arith, omega arith)

walk_lem_example : walk 3 (pos 2) (pos 1) five ≡ some five
walk_lem_example = walk_lem 2 (pos 2) five two_a_page.0 two_a_page.1

-- The index of the store has a result, and the other sources fail.
abbrev one_source : ℕ → Source → Text → Answer
one_source budget store_indexer query = record { name = []; results = here ∷ []; err = none }
one_source budget _ query = record { name = []; results = []; err = some [] }

abbrev flags : SearchFlags
flags = record { common = register_common [] [] [] []; limit = pos 20; page = pos 1 }

abbrev as_they_come : List Answer → List Answer
as_they_come l = l

first_page : FitsInt (pos 20) (pos 1)
unfolding page_size page_number
first_page = omega arith

abbrev words : Text
words = join_words (codes "ubuntu" ∷ codes "iso" ∷ [])

one_answer : length (answered (asked true one_source flags.common words)) < 2 ^ 63
unfolding answered new_aggregator register_common
one_answer = omega arith

run_search_lem_example : Prints true one_source flags words (
    run_search by_seeders as_they_come
      (dashed (λ f. f)).parse
      3
      flags
      (arguments line)
      true
      one_source)
unfolding assign_all
run_search_lem_example =
    run_search_lem by_seeders by_seeders-IsSort as_they_come perm_refl true one_source
      (dashed (λ f. f)) flags line 3 (codes "ubuntu") (codes "iso" ∷ []) (refl, (refl, (refl, tt)))
      refl (omega arith) first_page one_answer

-- Files that the loader of metainfo reads, and none from the network.
abbrev disk : Loader
disk = record { load_from_file = λ path. some path; get = λ url. none; load = λ body. none }

abbrev no_peers : Stats
no_peers = record {
  bytes_read = pos 0;
  bytes_written = pos 0;
  total_peers = 0;
  active_peers = 0;
  connected_seeders = 0;
}

abbrev one_file : ℕ → List File
one_file n = record { path = codes "a"; size = 10; completed = n; priority = priority_normal } ∷ []

abbrev to_get : List Item
to_get = flag (codes "-v" ∷ []) ∷ positional (codes "magnet:?xt=urn:btih:abc") ∷ []

abbrev seen_events : List GetEvent
seen_events =
    tick 1 no_peers (some (one_file 4)) ∷ selected ∷ tick 3 no_peers (some (one_file 10)) ∷ []

run_get_lem_example :
    (run : GetRun byte_rates) × (run_get byte_rates one_torrent disk 0 true false info_ready
        seen_events
        (dashed suc).parse
        3
        0
        (arguments to_get)
      ≡ some run)
    × EndsWell byte_rates one_torrent disk 0 true
        (codes "magnet:?xt=urn:btih:abc")
        false
        info_ready
        seen_events
        run
run_get_lem_example =
    run_get_lem byte_rates one_torrent disk 0 true false info_ready seen_events
      ((omega arith, tt), ((omega arith, tt), tt)) (dashed suc) 0 to_get 3
      (codes "magnet:?xt=urn:btih:abc") [] (refl, (refl, tt)) refl (omega arith)

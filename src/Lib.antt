-- ===== src/Lib.antt =====
-- A verification library for p2pget, a BitTorrent downloader with an aggregated search.
--
-- The program has five parts that keep state or decide what the user sees. A search asks several
-- indexers, filters their answers, merges those of the same info-hash and ranks them
-- (internal/search). The engine keeps the downloads over a torrent client, saves them to a file and
-- restores them (internal/engine). The crawler drops repeated info-hashes by a set of two generations
-- (internal/dht) and writes what it finds to an index in SQLite (internal/store). The commands read
-- flags and print pages (cmd/p2pget). The terminal interface starts searches, adds results to the
-- engine, and watches over its downloads at each tick (internal/tui).
--
-- Where the parts are:
--   * Recent is internal/dht/recent.go: `RecentSet` is recentSet, `seen` is its method. Window says
--     what a call answers and for how long, Growth how large the set gets.
--   * Search is internal/search/search.go: `filter_by_query`, `dedup_and_rank`, `merge_result` and
--     `merge_sources`. Sources, Keys, Dedup, Summary and Rank lead from the lists of sources to the
--     ranking as a whole, Filter has filterByQuery, Human and Human/Scale have HumanSize. Collect
--     is Aggregator with the answers of the indexers, Collect/Matched what it finds, Magnet is
--     MagnetFromInfoHash.
--   * Download is internal/engine/download.go: a record of the fields of Download, with the torrent
--     as the client reports it; each method is a function to the new state. Selection is about the
--     choice of files, Pause about SetPaused, Totals about Status, Stall about SampleRate, Eta about
--     ETA.
--   * Engine is internal/engine/engine.go: the downloads lie on a heap, and the map of the engine
--     names them by position, so that two names of one download share it. Valid and Keeps carry the
--     invariant through track and the other methods, Steps through any sequence of calls; Members
--     compares such a sequence with a set of hashes, which Members/Abstract describes; Resume,
--     Restore and Persist are about the saved state, Refusals about errors. Listing is List and
--     SampleRates. Migrate is migratePartFiles over a map of files, Config what New sets in the
--     torrent client, Sources where the metainfo of AddTorrentFile and AddTorrentURL comes from, and
--     Metadata the waits of WaitInfo and FetchInfo.
--   * Store is internal/store/store.go: `Store` holds the rows of the two tables, and each
--     statement is a function on them. Rows relates the tables, Answers says what the index holds
--     after any writes, and what PendingMetadata (Answers/Pending) and Search (Answers/Found) give
--     of it; Resolved is about the metadata that was saved, Quotes about sanitizeFTS.
--   * Cli is cmd/p2pget/main.go: `parse_args`, and `search_page` for the pages of runSearch. Flags
--     and Pages have their theorems. Health is runDhtStatus, with ExitCode. Dispatch has the choices
--     of main and runGet, Setup the flags, openEngine and newAggregator. Searching is runSearch as a
--     whole, over the aggregator; Searching/Found goes from its arguments to what it prints, and
--     Searching/Walk from page to page. Getting is runGet over an engine, Getting/Ends its loop and
--     Getting/Runs the whole.
--   * Crawler is internal/dht/crawler.go: the recent set, the store, the channel and the jobs of
--     the workers as one state. Queue is about any interleaving of its goroutines' steps, Repeats
--     about hashes that come again, Fair about the order of the queue, Resolves about the way of a
--     hash to its metadata. Indexer is StoreIndexer.
--   * Indexers is what becomes of a reply to piratebay.go, torrentscsv.go, nyaa.go and jackett.go of
--     internal/search: Services has the first three, Torznab the last, Links and Sizes the parsers
--     of nyaa.go. Picked is about the results of all four and
--     Fetchable about those of jackett, Links/Digits about the info-hash of a link.
--   * Tui is internal/tui/app.go: `Model` is its state, with the engine in it, and `update` is
--     Update. Watch has what a tick does, Files the screen of a download's files, Keys the keys,
--     Update the other messages, Adding the command of addDownload, Render what is shown. Steady is
--     the invariant of the state through every message, Deleting is about when files are removed,
--     Searching about a streamed search, Pruning about what pruneCompleted removes, and
--     Pruning/Done about when; Adding/Holds
--     and Render/Window are about those two, Render/Row is a row of the list of downloads.
--   * Bootstrap is internal/engine/bootstrap.go, and Nodes about what it returns.
--   * Strings has the functions of Go's packages strings and unicode that these call; Prelude has
--     what all share: tests on numbers, lists, integers, texts as lists of code points, and maps.
--     Tests has concrete inputs for the theorems.
--
-- Bounds and fuel. An int64 that is computed is written as its word, `% 2 ^ 64`. The loop of
-- HumanSize has fuel for six rounds, more than an int64 needs. `parse_args` has fuel that its
-- theorem bounds by the number of positional arguments. All other loops are structural. Byte counts
-- of files and numbers of rows are unbounded naturals; a time is a number that the caller gives.
--
-- Parameters. The torrent client gives the torrent of a magnet or a hash (`Client`), metainfo comes
-- from files and requests (`Loader`), the package flag reads flags (`Parser`), sort.Slice returns an
-- ordered permutation (`IsSort`), Unicode tables give lower case beyond ASCII (`Unicode`), rates are
-- floats (`Rates`), the full-text engine matches names, the package net parses addresses (`Net`), the
-- parsers of numbers and dates read what indexers send (`Parsers`), the widgets of bubbles hold text
-- and rows (`Kit`). A named download of the interface is its position on the engine's heap. Each
-- method runs under its mutex or in its transaction, and is one step; Restart and Remove are one step
-- as well.
--
-- Not modelled: errors of the database in a query; the requests and the decoding of JSON and XML by
-- the indexers; network, styles and widths of text, and the torrent protocol, which belong to
-- libraries.
pub mod Prelude
pub mod Recent
pub mod Strings
pub mod Search
pub mod Download
pub mod Engine
pub mod Store
pub mod Cli
pub mod Crawler
pub mod Indexers
pub mod Tui
pub mod Bootstrap
mod Tests

-- ===== src/Search/Collect.antt =====
-- `Aggregator` of internal/search/search.go: the indexers answer in some order, and the mutex, or
-- the channel of SearchStream, makes each answer one step. An answer is a list of results or an
-- error.
pub mod Arrivals
pub mod Matched
use p2pget.Prelude.{List, [], ◌∷◌, ◌++◌, Option, none, some, Text}
use p2pget.Strings.{Unicode}
use p2pget.Search.{Result, filter_by_query, dedup_and_rank}

-- `IndexerResult`, before the filter.
pub record Answer : Type 0 where
  pub name : Text
  pub results : List Result
  pub err : Option Text

-- `out` and `errs` of `Search`.
pub record Collected : Type 0 where
  pub out : List Result
  pub errs : List (Text × Text)

module _ ⦃u : Unicode⦄ where
  -- The goroutine of one indexer, behind its call.
  unfoldable pub collect_one : Text → Collected → Answer → Collected
  collect_one query c a = elim a.err [
    | none ↦ record c { out = c.out ++ filter_by_query a.results query }
    | some e ↦ record c { errs = (a.name, e) ∷ c.errs }
  ]

  unfoldable pub collect_all : Text → Collected → List Answer → Collected
  unfolding collect_one
  collect_all query c [] = c
  collect_all query c (a ∷ rest) = collect_all query (collect_one query c a) rest

  -- `Aggregator.Search`
  unfoldable pub aggregate :
      (List Result → List Result) → Text → List Answer → Option (List Result) × List (Text × Text)
  unfolding collect_all
  aggregate sort query answers =
      let c = collect_all query (record { out = []; errs = [] }) answers in
      (dedup_and_rank sort c.out, c.errs)

  -- What `SearchStream` sends for an indexer.
  unfoldable pub stream_one : Text → Answer → Answer
  stream_one query a = record a { results = filter_by_query a.results query }

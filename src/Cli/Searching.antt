-- ===== src/Cli/Searching.antt =====
-- `runSearch` of cmd/p2pget/main.go as a whole: its arguments, the search, the rows of a page and
-- the line below them. An indexer is given the time budget and the query, and gives its answer; the
-- answers come in some order. How a row is printed is text layout.
pub mod Walk
pub mod Found
use p2pget.Prelude.{
  word, ℕ, ◌+◌, ◌-◌, ◌*◌, List, [], ◌∷◌, ◌++◌, map, Bool, not, ◌&&◌, ltb, leb, if◌then◌else◌, ℤ,
  pos, ltb_ℤ, Option, none, some, Text, length,
}
use p2pget.Strings.{Unicode}
use p2pget.Search.{Result}
use p2pget.Search.Collect.{Answer, aggregate}
use p2pget.Cli.{parse_args, signed, page_size, page_number, total_pages, search_page}
use p2pget.Cli.Setup.{CommonFlags, Source, new_aggregator}

-- The flags of `search`.
pub record SearchFlags : Type 0 where
  pub common : CommonFlags
  pub limit : ℤ
  pub page : ℤ

-- `strings.Join(pos, " ")`
unfoldable pub join_words : List Text → Text
join_words [] = []
join_words (w ∷ []) = w
join_words (w ∷ v ∷ ws) = w ++ b' ' ∷ join_words (v ∷ ws)

-- The line below the rows: the page and the number of pages, if the page is out of range, or the
-- number of results, the page, the number of pages and the page that the hint names.
pub data Footer : Type 0 where
  beyond : ℕ → ℕ → Footer
  summary : ℕ → ℕ → ℕ → Option ℕ → Footer

-- The end of `runSearch`, for the number of results.
unfoldable pub footer : ℤ → ℤ → ℕ → Footer
unfolding signed
footer limit page len =
    let pages = total_pages len (page_size limit) in
    let pg = page_number page in
    let start = signed (word ((pg - 1) * page_size limit)) in
    if not (ltb_ℤ start (pos len)) && ltb 0 len
    then beyond pg pages
    else summary len pg pages (if ltb pg pages then some (pg + 1) else none)

-- How `runSearch` ends: with the usage and the exit code 2, by a panic, or after it printed the
-- errors, the rows and the line below.
pub data SearchRun : Type 0 where
  usage : SearchRun
  panicked : SearchRun
  printed : List (Text × Text) → List Result → Footer → SearchRun

-- What `runSearch` prints of the results.
unfoldable pub print_page : ℤ → ℤ → Option (List Result) × List (Text × Text) → SearchRun
print_page limit page (none, errs) = panicked
print_page limit page (some rs, errs) = elim (search_page limit page rs) [
  | none ↦ panicked
  | some rows ↦ printed errs rows (footer limit page (length rs))
]

module _ ⦃u : Unicode⦄ (sort : List Result → List Result) (arrive : List Answer → List Answer) where
  -- `agg.Search(ctx, query)`
  unfoldable pub search_all :
      Bool
      → (ℕ → Source → Text → Answer)
      → CommonFlags
      → Text
      → Option (List Result) × List (Text × Text)
  search_all has_store ask c query =
      let (sources, budget) = new_aggregator has_store c in
      aggregate sort query (arrive (map (λ s. ask budget s query) sources))

  -- `runSearch` behind the parsing of its arguments.
  unfoldable pub search_for :
      Bool → (ℕ → Source → Text → Answer) → SearchFlags × List Text → SearchRun
  search_for has_store ask (flags, []) = usage
  search_for has_store ask (flags, w ∷ ws) =
      print_page flags.limit flags.page
        (search_all has_store ask flags.common (join_words (w ∷ ws)))

  -- `runSearch`; `none` is fuel that ran out.
  unfoldable pub run_search :
      (SearchFlags → List Text → SearchFlags × List Text)
      → ℕ
      → SearchFlags
      → List Text
      → Bool
      → (ℕ → Source → Text → Answer)
      → Option SearchRun
  unfolding search_all print_page search_for
  run_search parse fuel defaults args has_store ask = elim (parse_args parse fuel defaults args) [
    | none ↦ none
    | some parsed ↦ some (search_for has_store ask parsed)
  ]

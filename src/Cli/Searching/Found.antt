-- ===== src/Cli/Searching/Found.antt =====
-- `runSearch` of cmd/p2pget/main.go from its arguments to what it prints.
use mathlib.Core.List.{Permᴰ}
use p2pget.Prelude.{
  ℤ, ℕ, ◌-◌, ◌*◌, ◌+◌, ◌^◌, ◌<◌, ◌≤◌, List, ◌∷◌, map, Bool, Option, none, some, ◌≡◌, refl, ap,
  arith, ◌∙◌, Text, length, take, drop,
}
use p2pget.Strings.{Unicode}
use p2pget.Search.{Result}
use p2pget.Search.Collect.{Answer, aggregate}
use p2pget.Search.Rank.{IsSort}
use p2pget.Search.Collect.Matched.{answered, FindsMatching, aggregate-FindsMatching}
use p2pget.Cli.{page_size, page_number}
use p2pget.Cli.Pages.{search_page_lem}
use p2pget.Cli.Flags.{Item, Parser, arguments, positionals, AllGood, assign_all, parse_args_lem}
use p2pget.Cli.Setup.{CommonFlags, Source, new_aggregator}
use p2pget.Cli.Searching.{
  SearchFlags, SearchRun, printed, join_words, search_all, print_page, search_for, run_search,
  footer,
}

-- A page ends at an int.
abbrev pub FitsInt : ℤ → ℤ → Type 0
FitsInt limit page = (page_number page - 1) * page_size limit + page_size limit < 2 ^ 63

print_page_lem :
    (limit page : ℤ) (rs : List Result) (errs : List (Text × Text))
    → length rs < 2 ^ 63
    → FitsInt limit page
    → print_page limit page (some rs, errs)
      ≡ printed errs
          (take (page_size limit) (drop ((page_number page - 1) * page_size limit) rs))
          (footer limit page (length rs))
unfolding print_page
print_page_lem limit page rs errs small fits =
    rw (search_page_lem limit page rs small fits, print_page) refl

print_page_found :
    (limit page : ℤ) (found : Option (List Result) × List (Text × Text)) (rs : List Result)
    → found.0 ≡ some rs
    → print_page limit page found ≡ print_page limit page (some rs, found.1)
unfolding print_page
print_page_found limit page (none, errs) rs h = cc
print_page_found limit page (some qs, errs) rs h = ap (λ o. print_page limit page (o, errs)) h

le_lt : {a b c : ℕ} → a ≤ b → b < c → a < c
le_lt h k = omega arith

module _ ⦃u : Unicode⦄ (has_store : Bool) (ask : ℕ → Source → Text → Answer) where
  -- The answers of the sources that the flags choose.
  abbrev pub asked : CommonFlags → Text → List Answer
  asked c query =
      let (sources, budget) = new_aggregator has_store c in map (λ s. ask budget s query) sources

  -- What `search` prints of the results that its sources give.
  abbrev pub Prints : SearchFlags → Text → Option SearchRun → Type 0
  Prints flags query run =
      (errs : List (Text × Text)) × (rs : List Result) × FindsMatching query
        (asked flags.common query) rs
      × (run
          ≡ some (
              printed errs
                (take (page_size flags.limit)
                  (drop ((page_number flags.page - 1) * page_size flags.limit) rs))
                (footer flags.limit flags.page (length rs))))

module _ ⦃u : Unicode⦄ (sort : List Result → List Result) (sorts : IsSort sort)
    (arrive : List Answer → List Answer) (permutes : (l : List Answer) → Permᴰ (arrive l) l)
    (has_store : Bool) (ask : ℕ → Source → Text → Answer) where
  search_for-Prints :
      (flags : SearchFlags) (w : Text) (ws : List Text)
      → FitsInt flags.limit flags.page
      → length (answered (asked has_store ask flags.common (join_words (w ∷ ws)))) < 2 ^ 63
      → Prints has_store ask flags
          (join_words (w ∷ ws))
          (some (search_for sort arrive has_store ask (flags, w ∷ ws)))
  unfolding search_for search_all
  search_for-Prints flags w ws fits few =
      let query : Text = join_words (w ∷ ws) in
      let answers : List Answer = asked has_store ask flags.common query in
      let (rs, ranked, finds) =
        aggregate-FindsMatching sort sorts query (arrive answers) answers (permutes answers) in
      let found : Option (List Result) × List (Text × Text) =
        aggregate sort query (arrive answers) in
      let small : length rs < 2 ^ 63 = le_lt (finds.at_most) few in
      (
        found.1,
        rs,
        finds,
        ap some (
            print_page_found flags.limit flags.page found rs ranked
            ∙ print_page_lem flags.limit flags.page rs found.1 small fits),
      )

  module _ (parser : Parser SearchFlags) where
    -- For a parser of flags that keeps its contract and any sort that meets that of sort.Slice,
    -- wherever the flags stand among the words, and in whatever order the answers of the sources
    -- arrive, `search` ends without a panic. It prints the rows of its page out of a list that is in
    -- descending order of seeders, holds each key once, and shows for each key the most seeders and
    -- exactly the sources of the matching results: of all results that the sources which the flags
    -- choose answered to the words joined by spaces, those whose title holds each of the words, in
    -- any case. The line below is that of this list. There is a word, the page ends at an int, and
    -- fewer than 2 ^ 63 results are answered.
    pub run_search_lem :
        (defaults : SearchFlags) (is : List Item) (n : ℕ) (w : Text) (ws : List Text)
        → AllGood parser is
        → positionals is ≡ w ∷ ws
        → length (positionals is) < n
        → FitsInt (assign_all parser defaults is).limit (assign_all parser defaults is).page
        → length (
            answered
              (asked has_store ask (assign_all parser defaults is).common (join_words (w ∷ ws))))
          < 2 ^ 63
        → Prints has_store ask
            (assign_all parser defaults is)
            (join_words (w ∷ ws))
            (run_search sort arrive parser.parse n defaults (arguments is) has_store ask)
    unfolding run_search
    run_search_lem defaults is n w ws good words enough fits few =
        rw (parse_args_lem parser defaults is n good enough, words, run_search)
          (search_for-Prints (assign_all parser defaults is) w ws fits few)

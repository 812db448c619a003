-- ===== src/Search/Collect/Matched.antt =====
-- What a search of internal/search/search.go finds, against the plain list of what was answered.
use mathlib.Core.List.Memᴰ
use mathlib.Core.List.{Memᴰ, Permᴰ}
use p2pget.Prelude.{
  ◌≤◌, length, arith, List, [], ◌∷◌, ◌++◌, none, some, Text, map, Distinct, text_discrete, ◌≡◌, ◌↔◌,
  Option-cases, inl, inr,
}
use p2pget.Strings.{Unicode}
use p2pget.Search.{Result, key}
use p2pget.Search.Filter.{InOrder, Matches, filter_by_query_lem}
use p2pget.Search.Rank.{IsSort, IsDescending, best, found_in}
use p2pget.Search.Collect.{Answer, aggregate}
use p2pget.Search.Collect.Arrivals.{share, shares, aggregate-Finds}

-- All results of the answers that are no errors.
unfoldable pub answered : List Answer → List Result
answered [] = []
answered (a ∷ rest) =
    let more = answered rest in elim a.err [ none ↦ a.results ++ more | some e ↦ more ]

InOrder-length : {rs ss : List Result} → InOrder rs ss → length rs ≤ length ss
InOrder-length InOrder.nil = omega arith
InOrder-length (InOrder.keep o) = omega (arith, InOrder-length o)
InOrder-length (InOrder.skip o) = omega (arith, InOrder-length o)

InOrder-append :
    {rs ss us vs : List Result} → InOrder rs ss → InOrder us vs → InOrder (rs ++ us) (ss ++ vs)
InOrder-append InOrder.nil p = p
InOrder-append (InOrder.keep o) p = InOrder.keep (InOrder-append o p)
InOrder-append (InOrder.skip o) p = InOrder.skip (InOrder-append o p)

module _ ⦃u : Unicode⦄ where
  -- The results among `all` that match the query, in their order.
  abbrev pub AreMatching : Text → List Result → List Result → Type 0
  AreMatching query all ms =
      InOrder ms all × ((r : Result) → Memᴰ r ms ↔ (Memᴰ r all × Matches query r))

  AreMatching-append :
      (query : Text) {all ms all' ms' : List Result}
      → AreMatching query all ms
      → AreMatching query all' ms'
      → AreMatching query (all ++ all') (ms ++ ms')
  AreMatching-append query {all} {ms} {all'} {ms'} (o, h) (o', h') = (
    InOrder-append o o',
    λ r. (
      (λ m. elim (Memᴰ.append_cases ms m) [
        | inl front ↦ let (there, fits) = (h r).0 front in (Memᴰ.append_left all' there, fits)
        | inr back ↦ let (there, fits) = (h' r).0 back in (Memᴰ.append_right all there, fits)
      ]),
      λ (m, fits). elim (Memᴰ.append_cases all m) [
        | inl front ↦ Memᴰ.append_left ms' ((h r).1 (front, fits))
        | inr back ↦ Memᴰ.append_right ms ((h' r).1 (back, fits))
      ],
    ),
  )

  none-AreMatching : (query : Text) → AreMatching query [] []
  none-AreMatching query = (InOrder.nil, λ r. ((λ m. elim m [ ]), λ p. p.0))

  shares-AreMatching :
      (query : Text) (answers : List Answer)
      → AreMatching query (answered answers) (shares query answers)
  unfolding answered shares share
  shares-AreMatching query [] = none-AreMatching query
  shares-AreMatching query (a ∷ rest) = elim (Option-cases a.err) [
    | inr (e, failed) ↦ rw (failed, answered) (shares-AreMatching query rest)
    | inl fine ↦
        rw (fine, answered)
          (AreMatching-append query (filter_by_query_lem a.results query)
            (shares-AreMatching query rest))
  ]

  -- What a search finds: the merged and ranked results among the answered ones that match.
  pub record FindsMatching (query : Text) (answers : List Answer) (rs : List Result) : Type 0 where
    pub matching : List Result
    pub matches : AreMatching query (answered answers) matching
    pub at_most : length rs ≤ length (answered answers)
    pub descending : IsDescending rs
    pub once : Distinct text_discrete (map key rs)
    pub seeders : (k : Text) → best k rs ≡ best k matching
    pub sources : (x k : Text) → found_in x k rs ≡ found_in x k matching

  module _ (sort : List Result → List Result) (sorts : IsSort sort) (query : Text) where
    pub aggregate-FindsMatching :
        (arrived answers : List Answer)
        → Permᴰ arrived answers
        → (rs : List Result) × ((aggregate sort query arrived).0 ≡ some rs)
          × FindsMatching query answers rs
    aggregate-FindsMatching arrived answers p =
        let (rs, ranked, finds) = aggregate-Finds sort sorts query arrived answers p in
        let matches = shares-AreMatching query answers in
        (
          rs,
          ranked,
          record {
            matching = shares query answers;
            matches = matches;
            at_most = omega (arith, finds.at_most, InOrder-length (matches.0));
            descending = finds.descending;
            once = finds.once;
            seeders = finds.seeders;
            sources = finds.sources;
          },
        )

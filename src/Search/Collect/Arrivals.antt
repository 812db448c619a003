-- ===== src/Search/Collect/Arrivals.antt =====
-- `Aggregator.Search`, internal/search/search.go: the order in which indexers answer.
use mathlib.Core.List.{Permᴰ}
use p2pget.Prelude.{
  ◌≤◌, length, arith, List, [], ◌∷◌, ◌++◌, none, some, Text, map, Distinct, text_discrete, ◌≡◌,
  refl, sym, ap, ◌∙◌, Option-cases, inl, inr,
}
use p2pget.Strings.{Unicode}
use p2pget.Search.{Result, key, filter_by_query}
use p2pget.Search.Rank.{
  IsSort, IsDescending, best, found_in, dedup_and_rank-keys, dedup_and_rank-merges, best-perm,
  found_in-perm, perm-length, dedup_and_rank-length,
}
use p2pget.Search.Collect.{Answer, Collected, collect_one, collect_all, aggregate}

pub perm_refl : {A : Type 0} (xs : List A) → Permᴰ xs xs
perm_refl [] = Permᴰ.nil
perm_refl (x ∷ xs) = Permᴰ.cons refl (perm_refl xs)

module _ ⦃u : Unicode⦄ where
  -- The results that an answer adds.
  unfoldable pub share : Text → Answer → List Result
  share query a = elim a.err [ none ↦ filter_by_query a.results query | some e ↦ [] ]

  unfoldable pub shares : Text → List Answer → List Result
  shares query [] = []
  shares query (a ∷ rest) = share query a ++ shares query rest

  append_nil : (xs : List Result) → xs ++ [] ≡ xs
  append_nil [] = refl
  append_nil (x ∷ xs) = ap (◌∷◌ x) (append_nil xs)

  append_assoc : (xs ys zs : List Result) → (xs ++ ys) ++ zs ≡ xs ++ (ys ++ zs)
  append_assoc [] ys zs = refl
  append_assoc (x ∷ xs) ys zs = ap (◌∷◌ x) (append_assoc xs ys zs)

  one-out :
      (query : Text) (c : Collected) (a : Answer)
      → (collect_one query c a).out ≡ c.out ++ share query a
  unfolding collect_one share
  one-out query c a = elim (Option-cases a.err) [
    | inl fine ↦ rw fine refl
    | inr (e, failed) ↦ rw failed (sym (append_nil c.out))
  ]

  collected-out :
      (query : Text) (c : Collected) (rest : List Answer)
      → (collect_all query c rest).out ≡ c.out ++ shares query rest
  unfolding collect_all shares
  collected-out query c [] = sym (append_nil c.out)
  collected-out query c (a ∷ rest) =
      collected-out query (collect_one query c a) rest
      ∙ ap (λ xs. xs ++ shares query rest) (one-out query c a)
      ∙ append_assoc c.out (share query a) (shares query rest)

  perm_front : (xs : List Result) {ys zs : List Result} → Permᴰ ys zs → Permᴰ (xs ++ ys) (xs ++ zs)
  perm_front [] p = p
  perm_front (x ∷ xs) p = Permᴰ.cons refl (perm_front xs p)

  perm_middle : (x : Result) (xs ys : List Result) → Permᴰ (x ∷ xs ++ ys) (xs ++ x ∷ ys)
  perm_middle x [] ys = perm_refl (x ∷ ys)
  perm_middle x (y ∷ xs) ys =
      Permᴰ.trans (Permᴰ.swap refl refl) (Permᴰ.cons refl (perm_middle x xs ys))

  perm_swap : (xs ys zs : List Result) → Permᴰ (xs ++ (ys ++ zs)) (ys ++ (xs ++ zs))
  perm_swap [] ys zs = perm_refl (ys ++ zs)
  perm_swap (x ∷ xs) ys zs =
      Permᴰ.trans (Permᴰ.cons refl (perm_swap xs ys zs)) (perm_middle x ys (xs ++ zs))

  shares-perm :
      (query : Text) {rest bs : List Answer}
      → Permᴰ rest bs
      → Permᴰ (shares query rest) (shares query bs)
  unfolding shares
  shares-perm query Permᴰ.nil = Permᴰ.nil
  shares-perm query (Permᴰ.cons {a = a} {l₂ = bs} e p) =
      rw (← e) (perm_front (share query a) (shares-perm query p))
  shares-perm query (Permᴰ.swap {a = a} {b = b} {l = l} e f) =
      rw (← e, ← f) (perm_swap (share query a) (share query b) (shares query l))
  shares-perm query (Permᴰ.trans p q) = Permᴰ.trans (shares-perm query p) (shares-perm query q)

  -- What a search finds, whatever the order of the answers is.
  pub record Finds (query : Text) (answers : List Answer) (rs : List Result) : Type 0 where
    pub at_most : length rs ≤ length (shares query answers)
    pub descending : IsDescending rs
    pub once : Distinct text_discrete (map key rs)
    pub seeders : (k : Text) → best k rs ≡ best k (shares query answers)
    pub sources : (x k : Text) → found_in x k rs ≡ found_in x k (shares query answers)

  module _ (sort : List Result → List Result) (sorts : IsSort sort) (query : Text) where
    -- The results of a search whose answers arrive in any order.
    pub aggregate-Finds :
        (arrived answers : List Answer)
        → Permᴰ arrived answers
        → (rs : List Result) × ((aggregate sort query arrived).0 ≡ some rs) × Finds query answers rs
    unfolding aggregate
    aggregate-Finds arrived answers p =
        let start : Collected = record { out = []; errs = [] } in
        let out : List Result = (collect_all query start arrived).out in
        let (rs, ranked, descending, once, kept) = dedup_and_rank-keys sort sorts out in
        let (ss, ranked', seeders, sources) = dedup_and_rank-merges sort sorts out in
        let same : ss ≡ rs = cc in
        let perm : Permᴰ out (shares query answers) =
          rw (collected-out query start arrived) (shares-perm query p) in
        (
          rs,
          ranked,
          record {
            at_most = omega (arith, dedup_and_rank-length sort sorts out ranked, perm-length perm);
            descending = descending;
            once = once;
            seeders = λ k. rw (← same) (seeders k) ∙ best-perm perm k;
            sources = λ x k. rw (← same) (sources x k) ∙ found_in-perm perm x k;
          },
        )

    -- For any sort that meets the contract of sort.Slice, a search does not panic, and whatever the
    -- order in which the indexers answer, its results show for each key the same number of seeders
    -- and the same sources.
    pub aggregate-perm :
        (xs ys : List Answer)
        → Permᴰ xs ys
        → (rs : List Result) × (ss : List Result) × ((aggregate sort query xs).0 ≡ some rs)
          × ((aggregate sort query ys).0 ≡ some ss)
          × ((k : Text) → best k rs ≡ best k ss)
          × ((x k : Text) → found_in x k rs ≡ found_in x k ss)
    unfolding aggregate
    aggregate-perm xs ys p =
        let start : Collected = record { out = []; errs = [] } in
        let (rs, ranked, seeders, sources) =
          dedup_and_rank-merges sort sorts (collect_all query start xs).out in
        let (ss, ranked', seeders', sources') =
          dedup_and_rank-merges sort sorts (collect_all query start ys).out in
        let same : Permᴰ (collect_all query start xs).out (collect_all query start ys).out =
          rw (collected-out query start xs, collected-out query start ys) (shares-perm query p) in
        (
          rs,
          ss,
          ranked,
          ranked',
          λ k. seeders k ∙ best-perm same k ∙ sym (seeders' k),
          λ x k. sources x k ∙ found_in-perm same x k ∙ sym (sources' x k),
        )

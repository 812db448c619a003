-- ===== src/Search/Rank.antt =====
-- `DedupAndRank` of internal/search/search.go as a whole, for every sort that meets the contract of
-- `sort.Slice`: it returns a permutation, ordered by descending seeders.
use mathlib.Core.List.{Permᴰ}
use p2pget.Prelude.{
  ◌≤◌, ◌+◌, suc, length, List, [], ◌∷◌, map, Bool, false, if◌then◌else◌, Text, text_discrete, ◌≡◌,
  refl, ap, arith, ltb_ℤ, ℤ, ◌≤ℤ◌, Option, none, some, ◌∙◌, contains, Distinct, ◌||◌,
}
use p2pget.Strings.{Unicode}
use p2pget.Search.{Result, better, merge_result, key, dedup_and_rank}
use p2pget.Search.Dedup.{absorb, absorb_all, dedup_loop_lem, absorb_all-keys}
use p2pget.Search.Summary.{summary, summary-absorb_all, summary-perm}
use p2pget.Search.Sources.{names, names-merge_sources}

abbrev pub IsDescending : List Result → Type 0
IsDescending [] = Unit
IsDescending (r ∷ []) = Unit
IsDescending (r ∷ s ∷ rs) = (s.seeders ≤ℤ r.seeders) × IsDescending (s ∷ rs)

-- What `sort.Slice` promises of a slice of results.
pub record IsSort (sort : List Result → List Result) : Type 0 where
  pub permutes : (rs : List Result) → Permᴰ (sort rs) rs
  pub orders : (rs : List Result) → IsDescending (sort rs)

unfoldable pub max_ℤ : Option ℤ → Option ℤ → Option ℤ
max_ℤ none b = b
max_ℤ (some a) none = some a
max_ℤ (some a) (some b) = some (if ltb_ℤ a b then b else a)

max_assoc : (a b c : Option ℤ) → max_ℤ (max_ℤ a b) c ≡ max_ℤ a (max_ℤ b c)
unfolding max_ℤ
max_assoc a b c = ground arith

max_comm : (a b : Option ℤ) → max_ℤ a b ≡ max_ℤ b a
unfolding max_ℤ
max_comm a b = ground arith

none_max : (b : Option ℤ) → max_ℤ none b ≡ b
unfolding max_ℤ
none_max b = refl

or_assoc : (a b c : Bool) → ((a || b) || c) ≡ (a || (b || c))
or_assoc a b c = ground arith

or_comm : (a b : Bool) → (a || b) ≡ (b || a)
or_comm a b = ground arith

or_false : (b : Bool) → (false || b) ≡ b
or_false b = refl

module _ ⦃u : Unicode⦄ where
  -- The most seeders that a result of the key shows.
  unfoldable pub best : Text → List Result → Option ℤ
  best = summary max_ℤ none (λ r. some r.seeders)

  -- Whether a result of the key names the source `x`.
  unfoldable pub found_in : Text → Text → List Result → Bool
  found_in x = summary ◌||◌ false (λ r. names r.source x)

  better-seeders :
      (r o : Result) → some (better r o).seeders ≡ max_ℤ (some o.seeders) (some r.seeders)
  unfolding better merge_result max_ℤ
  better-seeders r o = ground arith

  better-names :
      (x : Text) (r o : Result)
      → names (better r o).source x ≡ (names o.source x || names r.source x)
  unfolding better merge_result
  better-names x r o =
      ground
        (arith, names-merge_sources r.source o.source x, names-merge_sources o.source r.source x)

  pub best-perm : {rs ss : List Result} → Permᴰ rs ss → (k : Text) → best k rs ≡ best k ss
  unfolding best
  best-perm p k =
      summary-perm max_ℤ none (λ r. some r.seeders) max_assoc max_comm none_max better-seeders k p

  pub found_in-perm :
      {rs ss : List Result} → Permᴰ rs ss → (x k : Text) → found_in x k rs ≡ found_in x k ss
  unfolding found_in
  found_in-perm p x k =
      summary-perm ◌||◌ false (λ r. names r.source x) or_assoc or_comm or_false (better-names x) k p

  perm-contains :
      {rs ss : List Result}
      → Permᴰ rs ss
      → (k : Text) → contains text_discrete k (map key rs) ≡ contains text_discrete k (map key ss)
  unfolding contains
  perm-contains Permᴰ.nil k = refl
  perm-contains (Permᴰ.cons e p) k = ground (arith, ap key e, perm-contains p k)
  perm-contains (Permᴰ.swap e f) k = ground (arith, ap key e, ap key f)
  perm-contains (Permᴰ.trans p q) k = perm-contains p k ∙ perm-contains q k

  perm-Distinct :
      {rs ss : List Result}
      → Permᴰ rs ss
      → Distinct text_discrete (map key ss)
      → Distinct text_discrete (map key rs)
  unfolding contains
  perm-Distinct Permᴰ.nil d = d
  perm-Distinct (Permᴰ.cons {a = a} e p) d =
      (perm-contains p (key a) ∙ ground (arith, ap key e), perm-Distinct p d.1)
  perm-Distinct (Permᴰ.swap e f) d = ground (arith, ap key e, ap key f)
  perm-Distinct (Permᴰ.trans p q) d = perm-Distinct p (perm-Distinct q d)

  pub perm-length : {rs ss : List Result} → Permᴰ rs ss → length rs ≡ length ss
  perm-length Permᴰ.nil = refl
  perm-length (Permᴰ.cons e p) = ap suc (perm-length p)
  perm-length (Permᴰ.swap e f) = refl
  perm-length (Permᴰ.trans p q) = perm-length p ∙ perm-length q

  absorb-length : (r : Result) (out : List Result) → length (absorb r out) ≤ suc (length out)
  unfolding absorb
  absorb-length r [] = omega arith
  absorb-length r (o ∷ os) = ground (arith, absorb-length r os)

  absorb_all-length : (out rs : List Result) → length (absorb_all out rs) ≤ length out + length rs
  unfolding absorb_all
  absorb_all-length out [] = omega arith
  absorb_all-length out (r ∷ rs) =
      omega (arith, absorb_all-length (absorb r out) rs, absorb-length r out)

  module _ (sort : List Result → List Result) (sorts : IsSort sort) (rs : List Result) where
    -- `DedupAndRank` never panics: it returns the sort of the results merged by key.
    ranked : dedup_and_rank sort rs ≡ some (sort (absorb_all [] rs))
    unfolding dedup_and_rank
    ranked = ground (arith, dedup_loop_lem [] rs)

    -- Its result is no longer than its input.
    pub dedup_and_rank-length :
        {out : List Result} → dedup_and_rank sort rs ≡ some out → length out ≤ length rs
    dedup_and_rank-length {out} h =
        let merged = absorb_all [] rs in
        let same : sort merged ≡ out = cc (ranked) in
        omega (
          arith,
          ap (length {0}) same,
          perm-length (sorts.permutes merged),
          absorb_all-length [] rs,
        )

    -- For any sort that meets the contract of sort.Slice, DedupAndRank does not panic, and its
    -- result is in descending order of seeders, holds each key once, and holds exactly the keys of
    -- the input.
    pub dedup_and_rank-keys :
        (out : List Result) × (dedup_and_rank sort rs ≡ some out)
        × IsDescending out
        × Distinct text_discrete (map key out)
        × ((k : Text)
            → contains text_discrete k (map key out) ≡ contains text_discrete k (map key rs))
    dedup_and_rank-keys =
        let merged = absorb_all [] rs in
        let back = sorts.permutes merged in
        (
          sort merged,
          ranked,
          sorts.orders merged,
          perm-Distinct back (absorb_all-keys [] rs [] tt).0,
          λ k. perm-contains back k ∙ unfold contains in (absorb_all-keys [] rs k tt).1,
        )

    -- For any sort that meets the contract of sort.Slice, DedupAndRank does not panic, and for each
    -- key its result shows the most seeders that any input of that key had, and names exactly the
    -- sources that its inputs name.
    pub dedup_and_rank-merges :
        (out : List Result) × (dedup_and_rank sort rs ≡ some out)
        × ((k : Text) → best k out ≡ best k rs)
        × ((x k : Text) → found_in x k out ≡ found_in x k rs)
    unfolding best found_in summary max_ℤ
    dedup_and_rank-merges =
        let merged = absorb_all [] rs in
        let back = sorts.permutes merged in
        (
          sort merged,
          ranked,
          λ k.
              summary-perm max_ℤ none (λ r. some r.seeders) max_assoc max_comm none_max
                better-seeders k back
              ∙ summary-absorb_all max_ℤ none (λ r. some r.seeders) max_assoc max_comm none_max
                  better-seeders k [] rs,
          λ x k.
              found_in-perm back x k
              ∙ summary-absorb_all ◌||◌ false (λ r. names r.source x) or_assoc or_comm or_false
                  (better-names x) k [] rs,
        )

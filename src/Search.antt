-- ===== src/Search.antt =====
-- internal/search/search.go: search results, how they are filtered, merged and ranked, and how an
-- aggregator collects them. A time is its Unix second; the zero time of Go is the second of year 1.
pub mod Sources
pub mod Summary
pub mod Rank
pub mod Human
pub mod Filter
pub mod Dedup
pub mod Keys
pub mod Collect
pub mod Magnet
use p2pget.Prelude.{
  ℕ, zero, suc, ◌+◌, List, [], ◌∷◌, ◌++◌, map, Bool, true, false, not, ◌&&◌, ◌||◌, if◌then◌else◌, ℤ,
  pos, negsuc, ltb_ℤ, Text, codes, text_discrete, is_empty, ite, Option, none, some, length,
  get_elem?, set, contains, add, lookup, put,
}
use p2pget.Strings.{Unicode, to_lower, split, join, fields, has_substring}

-- `Result`
pub record Result : Type 0 where
  pub title : Text
  pub info_hash : Text
  pub magnet : Text
  pub size : ℤ
  pub seeders : ℤ
  pub leechers : ℤ
  pub source : Text
  pub date : ℤ

-- `time.Time{}`, the first second of year 1.
abbrev pub zero_time : ℤ
zero_time = negsuc 62135596799

unfoldable pub int_eq : ℤ → ℤ → Bool
int_eq a b = not (ltb_ℤ a b) && not (ltb_ℤ b a)

-- `+`, which joins the names of sources
abbrev pub plus : ℕ
plus = b'+'

-- The loop of `mergeSources` over the parts of `b`.
unfoldable pub append_sources : Text → List Text → List Text → Text
append_sources a known [] = a
append_sources a known (s ∷ ss) =
    let skip = append_sources a known ss in
    let take = append_sources (a ++ plus ∷ s) (s ∷ known) ss in
    if not (is_empty s) && not (contains text_discrete s known) then take else skip

-- `mergeSources`
unfoldable pub merge_sources : Text → Text → Text
unfolding append_sources
merge_sources a b = if is_empty a then b else append_sources a (split plus a) (split plus b)

-- `mergeResult`
unfoldable pub merge_result : Result → Result → Result
unfolding int_eq
merge_result a b = record a {
  magnet = if is_empty a.magnet then b.magnet else a.magnet;
  info_hash = if is_empty a.info_hash then b.info_hash else a.info_hash;
  size = if int_eq a.size (pos 0) then b.size else a.size;
  date = if int_eq a.date zero_time then b.date else a.date;
  source = merge_sources a.source b.source;
}

-- `if !strings.Contains(title, tok) { keep = false; break }`
unfoldable pub has_tokens : Text → List Text → Bool
has_tokens title [] = true
has_tokens title (t ∷ ts) = has_substring title t && has_tokens title ts

module _ ⦃u : Unicode⦄ where
  unfoldable pub keep_matching : List Text → List Result → List Result
  keep_matching tokens [] = []
  keep_matching tokens (r ∷ rs) =
      let rest = keep_matching tokens rs in
      if has_tokens (to_lower r.title) tokens then r ∷ rest else rest

  -- `filterByQuery`
  unfoldable pub filter_by_query : List Result → Text → List Result
  unfolding keep_matching
  filter_by_query rs query = elim (fields (to_lower query)) [
    | [] ↦ rs
    | t ∷ ts ↦ keep_matching (t ∷ ts) rs
  ]

  -- The key of `DedupAndRank`: the info-hash in lower case, or the title.
  unfoldable pub key : Result → Text
  key r = let k = to_lower r.info_hash in if is_empty k then r.title else k

  -- `if r.Seeders > out[i].Seeders { … } else { … }`
  unfoldable pub better : Result → Result → Result
  better r o = if ltb_ℤ o.seeders r.seeders then merge_result r o else merge_result o r

  -- The loop of `DedupAndRank`, over the map `seen` and the slice `out`; `none` is a panic on an
  -- index out of range.
  unfoldable pub dedup_loop : List (Text × ℕ) → List Result → List Result → Option (List Result)
  unfolding key better
  dedup_loop seen out [] = some out
  dedup_loop seen out (r ∷ rs) = elim (lookup text_discrete (key r) seen) [
    | none ↦ dedup_loop (put text_discrete (key r) (length out) seen) (out ++ r ∷ []) rs
    | some i ↦ elim (get_elem? out i) [
      | none ↦ none
      | some o ↦ dedup_loop seen (set out i (better r o)) rs
    ]
  ]

  -- `DedupAndRank`. `sort` stands for `sort.Slice` by descending seeders.
  unfoldable pub dedup_and_rank : (List Result → List Result) → List Result → Option (List Result)
  unfolding dedup_loop
  dedup_and_rank sort rs = elim (dedup_loop [] [] rs) [ none ↦ none | some out ↦ some (sort out) ]

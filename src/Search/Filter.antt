-- ===== src/Search/Filter.antt =====
-- `filterByQuery` of internal/search/search.go: which results it keeps.
use mathlib.Core.List.Memᴰ
use mathlib.Core.List.{Memᴰ}
use p2pget.Prelude.{
  List, [], ◌∷◌, ◌++◌, true, false, Text, ◌≡◌, refl, arith, Bool-cases, inl, inr, ◌↔◌,
}
use p2pget.Strings.{Unicode, to_lower, fields, has_substring}
use p2pget.Strings.Find.{has_substring→, →has_substring}
use p2pget.Search.{Result, has_tokens, keep_matching, filter_by_query}

-- A text stands in another.
abbrev pub Occurs : Text → Text → Type 0
Occurs sub s = (a : Text) × (b : Text) × (s ≡ a ++ (sub ++ b))

-- All texts of a list stand in another.
abbrev pub AllOccur : List Text → Text → Type 0
AllOccur [] s = Unit
AllOccur (t ∷ ts) s = Occurs t s × AllOccur ts s

has_tokens→ : (s : Text) (ts : List Text) → has_tokens s ts ≡ true → AllOccur ts s
unfolding has_tokens
has_tokens→ s [] h = tt
has_tokens→ s (t ∷ ts) h = (has_substring→ s t (ground arith), has_tokens→ s ts (ground arith))

→has_tokens : (s : Text) (ts : List Text) → AllOccur ts s → has_tokens s ts ≡ true
unfolding has_tokens
→has_tokens s [] h = refl
→has_tokens s (t ∷ ts) ((a, b, e), h) =
    let here : has_substring s t ≡ true = rw e (→has_substring a t b) in
    ground (arith, →has_tokens s ts h)

-- In the order of the second list, with some left out.
pub data InOrder : List Result → List Result → Type 0 where
  nil : InOrder [] []
  keep : {r : Result} {rs ss : List Result} → InOrder rs ss → InOrder (r ∷ rs) (r ∷ ss)
  skip : {r : Result} {rs ss : List Result} → InOrder rs ss → InOrder rs (r ∷ ss)

module _ ⦃u : Unicode⦄ where
  -- The title holds each word of the query, whatever the case.
  abbrev pub Matches : Text → Result → Type 0
  Matches query r = AllOccur (fields (to_lower query)) (to_lower r.title)

  InOrder-refl : (rs : List Result) → InOrder rs rs
  InOrder-refl [] = InOrder.nil
  InOrder-refl (r ∷ rs) = InOrder.keep (InOrder-refl rs)

  keep_matching-InOrder : (ts : List Text) (rs : List Result) → InOrder (keep_matching ts rs) rs
  unfolding keep_matching
  keep_matching-InOrder ts [] = InOrder.nil
  keep_matching-InOrder ts (r ∷ rs) = elim (Bool-cases (has_tokens (to_lower r.title) ts)) [
    | inl good ↦ rw good (InOrder.keep (keep_matching-InOrder ts rs))
    | inr bad ↦ rw bad (InOrder.skip (keep_matching-InOrder ts rs))
  ]

  keep_matching_nil : (ts : List Text) → keep_matching ts [] ≡ []
  unfolding keep_matching
  keep_matching_nil ts = refl

  keep_matching_good :
      (ts : List Text) (x : Result) (rs : List Result)
      → has_tokens (to_lower x.title) ts ≡ true
      → keep_matching ts (x ∷ rs) ≡ x ∷ keep_matching ts rs
  unfolding keep_matching
  keep_matching_good ts x rs h = rw h

  keep_matching_bad :
      (ts : List Text) (x : Result) (rs : List Result)
      → has_tokens (to_lower x.title) ts ≡ false
      → keep_matching ts (x ∷ rs) ≡ keep_matching ts rs
  unfolding keep_matching
  keep_matching_bad ts x rs h = rw h

  keep_matching→ :
      (ts : List Text) (rs : List Result) {r : Result}
      → Memᴰ r (keep_matching ts rs)
      → Memᴰ r rs × AllOccur ts (to_lower r.title)
  keep_matching→ ts [] m = absurd (Memᴰ.not-nil (rw (keep_matching_nil ts) at m))
  keep_matching→ ts (x ∷ rs) m = elim (Bool-cases (has_tokens (to_lower x.title) ts)) [
    | inl good ↦ elim (Memᴰ.cases_cons (rw (keep_matching_good ts x rs good) at m)) [
      | inl e ↦ (Memᴰ.head e, rw e (has_tokens→ (to_lower x.title) ts good))
      | inr later ↦ let (in_rs, h) = keep_matching→ ts rs later in (Memᴰ.tail in_rs, h)
    ]
    | inr bad ↦
        let (in_rs, h) = keep_matching→ ts rs (rw (keep_matching_bad ts x rs bad) at m) in
        (Memᴰ.tail in_rs, h)
  ]

  →keep_matching :
      (ts : List Text) (rs : List Result) {r : Result}
      → Memᴰ r rs
      → AllOccur ts (to_lower r.title)
      → Memᴰ r (keep_matching ts rs)
  →keep_matching ts [] m h = elim m [ ]
  →keep_matching ts (x ∷ rs) (Memᴰ.head e) h =
      let good = →has_tokens (to_lower x.title) ts (rw (← e) h) in
      rw (keep_matching_good ts x rs good) (Memᴰ.head e)
  →keep_matching ts (x ∷ rs) (Memᴰ.tail m) h =
      elim (Bool-cases (has_tokens (to_lower x.title) ts)) [
        | inl good ↦ rw (keep_matching_good ts x rs good) (Memᴰ.tail (→keep_matching ts rs m h))
        | inr bad ↦ rw (keep_matching_bad ts x rs bad) (→keep_matching ts rs m h)
      ]

  -- The filter keeps exactly the results whose title holds every word of the query, in any case,
  -- and keeps their order; a query without words keeps all.
  pub filter_by_query_lem :
      (rs : List Result) (query : Text)
      → InOrder (filter_by_query rs query) rs
        × ((r : Result) → Memᴰ r (filter_by_query rs query) ↔ (Memᴰ r rs × Matches query r))
  unfolding filter_by_query
  filter_by_query_lem rs query = go (fields (to_lower query))
    where
      go :
          (ws : List Text)
          → let out : List Result = elim ws [ [] ↦ rs | t ∷ ts ↦ keep_matching (t ∷ ts) rs ] in
            InOrder out rs
            × ((r : Result) → Memᴰ r out ↔ (Memᴰ r rs × AllOccur ws (to_lower r.title)))
      go [] = (InOrder-refl rs, λ r. (λ m. (m, tt), λ p. p.0))
      go (t ∷ ts) = (
        keep_matching-InOrder (t ∷ ts) rs,
        λ r. (keep_matching→ (t ∷ ts) rs, λ p. →keep_matching (t ∷ ts) rs p.0 p.1),
      )

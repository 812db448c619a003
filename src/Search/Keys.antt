-- ===== src/Search/Keys.antt =====
-- The key by which `DedupAndRank` of internal/search/search.go tells results apart survives a merge.
use p2pget.Prelude.{[], ◌∷◌, true, Text, is_empty, ◌≡◌, refl, sym, arith}
use p2pget.Strings.{Unicode, to_lower}
use p2pget.Search.{Result, merge_result, better, key}

pub empty→nil : (s : Text) → is_empty s ≡ true → s ≡ []
empty→nil [] h = refl
empty→nil (c ∷ s) h = cc

module _ ⦃u : Unicode⦄ where
  pub key_no_hash : (r : Result) → is_empty r.info_hash ≡ true → key r ≡ r.title
  unfolding key to_lower
  key_no_hash r h = rw (empty→nil r.info_hash h)

  pub key-merge_result : (a b : Result) → key a ≡ key b → key (merge_result a b) ≡ key a
  unfolding key merge_result
  key-merge_result a b e = ground (arith, key_no_hash a)

  -- The kept result has the key of both.
  pub key-better : (r o : Result) → key o ≡ key r → key (better r o) ≡ key o
  unfolding better
  key-better r o e = ground (arith, key-merge_result r o (sym e), key-merge_result o r e)

-- ===== src/Search/Dedup.antt =====
-- The loop of `DedupAndRank`, internal/search/search.go, against merging by key in a list.
use p2pget.Prelude.{
  ℕ, suc, ◌+◌, List, [], ◌∷◌, ◌++◌, map, true, if◌then◌else◌, Text, text_discrete, ◌≡◌, ◌||◌, refl,
  ap, arith, Bool-cases, Option-cases, inl, inr, none, some, length, get_elem?, set, lookup, put,
  ite, contains, Distinct, contains-snoc, Distinct-snoc, ◌∙◌,
}
use p2pget.Strings.{Unicode}
use p2pget.Search.{Result, better, key, dedup_loop}
use p2pget.Search.Keys.{key-better}

module _ ⦃u : Unicode⦄ where
  -- Merges a result into the first one of its key, or puts it at the end.
  unfoldable pub absorb : Result → List Result → List Result
  absorb r [] = r ∷ []
  absorb r (o ∷ os) = ite (text_discrete (key o) (key r)) (better r o ∷ os) (o ∷ absorb r os)

  unfoldable pub absorb_all : List Result → List Result → List Result
  absorb_all out [] = out
  absorb_all out (r ∷ rs) = absorb_all (absorb r out) rs

  absorb_all-cons :
      (out : List Result) (r : Result) (rs : List Result)
      → absorb_all out (r ∷ rs) ≡ absorb_all (absorb r out) rs
  unfolding absorb_all
  absorb_all-cons out r rs = refl

  -- The map `seen` that belongs to a slice: each key with its position.
  abbrev pub index_keys : ℕ → List Result → List (Text × ℕ)
  index_keys i [] = []
  index_keys i (o ∷ os) = (key o, i) ∷ index_keys (suc i) os

  lookup_miss :
      (r : Result) (out : List Result) (i n : ℕ)
      → lookup text_discrete (key r) (index_keys i out) ≡ none
      → n ≡ length out + i
      → (absorb r out ≡ out ++ r ∷ [])
        × (put text_discrete (key r) n (index_keys i out) ≡ index_keys i (out ++ r ∷ []))
  unfolding absorb lookup put
  lookup_miss r [] i n h e = (refl, ground arith)
  lookup_miss r (o ∷ os) i n h e = elim (text_discrete (key o) (key r)) [
    | yes p ↦ absurd (ground arith)
    | no p ↦ ground (arith, lookup_miss r os (suc i) n)
  ]

  lookup_hit :
      (r : Result) (out : List Result) (i j : ℕ)
      → lookup text_discrete (key r) (index_keys i out) ≡ some j
      → (d : ℕ) × (o : Result) × (j ≡ d + i)
        × (get_elem? out d ≡ some o)
        × (absorb r out ≡ set out d (better r o))
        × (index_keys i (set out d (better r o)) ≡ index_keys i out)
  unfolding absorb lookup
  lookup_hit r [] i j h = cc
  lookup_hit r (o ∷ os) i j h = elim (text_discrete (key o) (key r)) [
    | yes p ↦ (0, o, ground arith, refl, ground arith, ground (arith, key-better r o p))
    | no p ↦
        let (d, o', at, got, abs, same) = lookup_hit r os (suc i) j (ground arith) in
        (suc d, o', omega arith, got, ground arith, ground arith)
  ]

  loop_new :
      (seen : List (Text × ℕ)) (out : List Result) (r : Result) (rs : List Result)
      → lookup text_discrete (key r) seen ≡ none
      → dedup_loop seen out (r ∷ rs)
        ≡ dedup_loop (put text_discrete (key r) (length out) seen) (out ++ r ∷ []) rs
  unfolding dedup_loop
  loop_new seen out r rs h = ground arith

  loop_old :
      (seen : List (Text × ℕ)) (out : List Result) (r o : Result) (rs : List Result) (i : ℕ)
      → lookup text_discrete (key r) seen ≡ some i
      → get_elem? out i ≡ some o
      → dedup_loop seen out (r ∷ rs) ≡ dedup_loop seen (set out i (better r o)) rs
  unfolding dedup_loop
  loop_old seen out r o rs i h g = ground arith

  -- The loop of DedupAndRank, with its map and its indices, computes the merging by key in the
  -- order of the first results, and no index is out of range.
  pub dedup_loop_lem :
      (out rs : List Result) → dedup_loop (index_keys 0 out) out rs ≡ some (absorb_all out rs)
  dedup_loop_lem out [] = unfold dedup_loop absorb_all in refl
  dedup_loop_lem out (r ∷ rs) =
      elim (Option-cases (lookup text_discrete (key r) (index_keys 0 out))) [
        | inl new ↦
            let (abs, idx) = lookup_miss r out 0 (length out) new (omega arith) in
            cc (
              abs,
              idx,
              loop_new (index_keys 0 out) out r rs new,
              absorb_all-cons out r rs,
              dedup_loop_lem (out ++ r ∷ []) rs,
            )
        | inr (j, old) ↦
            let (d, o, at, got, abs, same) = lookup_hit r out 0 j old in
            let here : j ≡ d = omega arith in
            cc (
              abs,
              same,
              loop_old (index_keys 0 out) out r o rs d (old ∙ ap some here) got,
              absorb_all-cons out r rs,
              dedup_loop_lem (set out d (better r o)) rs,
            )
      ]

  -- The keys after a result is absorbed: a known key changes nothing, a new one comes last.
  pub absorb-keys :
      (r : Result) (out : List Result)
      → map key (absorb r out) ≡ (
          if contains text_discrete (key r) (map key out)
          then map key out
          else map key out ++ key r ∷ [])
  unfolding absorb contains
  absorb-keys r [] = refl
  absorb-keys r (o ∷ os) = elim (text_discrete (key o) (key r)) [
    | yes p ↦ ground (arith, key-better r o p)
    | no p ↦ ground (arith, absorb-keys r os)
  ]

  absorb-Distinct :
      (r : Result) (out : List Result)
      → Distinct text_discrete (map key out)
      → Distinct text_discrete (map key (absorb r out))
  absorb-Distinct r out d = elim (Bool-cases (contains text_discrete (key r) (map key out))) [
    | inl known ↦ rw (absorb-keys, known) d
    | inr new ↦ rw (absorb-keys, new) (Distinct-snoc text_discrete (key r) (map key out) new d)
  ]

  absorb-contains :
      (r : Result) (out : List Result) (k : Text)
      → contains text_discrete k (map key (absorb r out))
        ≡ ite (text_discrete (key r) k) true (contains text_discrete k (map key out))
  absorb-contains r out k =
      ground (arith, absorb-keys r out, contains-snoc text_discrete k (key r) (map key out))

  -- Merging by key leaves no key twice, and loses and invents none.
  pub absorb_all-keys :
      (out rs : List Result) (k : Text)
      → Distinct text_discrete (map key out)
      → Distinct text_discrete (map key (absorb_all out rs))
        × (contains text_discrete k (map key (absorb_all out rs))
            ≡ (contains text_discrete k (map key out) || contains text_discrete k (map key rs)))
  unfolding absorb_all contains
  absorb_all-keys out [] k d = ground arith
  absorb_all-keys out (r ∷ rs) k d =
      let (distinct, same) = absorb_all-keys (absorb r out) rs k (absorb-Distinct r out d) in
      (distinct, same ∙ ground (arith, absorb-contains r out k))

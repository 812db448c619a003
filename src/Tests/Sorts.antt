-- ===== src/Tests/Sorts.antt =====
-- A sort that meets the contract of `sort.Slice` in internal/search/search.go.
use mathlib.Core.List.{Permᴰ}
use p2pget.Prelude.{List, [], ◌∷◌, if◌then◌else◌, ltb_ℤ, refl, arith, inl, inr, Bool-cases}
use p2pget.Search.{Result}
use p2pget.Search.Rank.{IsSort, IsDescending}

insert : Result → List Result → List Result
insert r [] = r ∷ []
insert r (o ∷ os) =
    let rest = insert r os in if ltb_ℤ o.seeders r.seeders then r ∷ o ∷ os else o ∷ rest

unfoldable pub by_seeders : List Result → List Result
unfolding insert
by_seeders [] = []
by_seeders (r ∷ rs) = insert r (by_seeders rs)

perm_refl : (rs : List Result) → Permᴰ rs rs
perm_refl [] = Permᴰ.nil
perm_refl (r ∷ rs) = Permᴰ.cons refl (perm_refl rs)

insert-perm : (r : Result) (rs : List Result) → Permᴰ (insert r rs) (r ∷ rs)
unfolding insert
insert-perm r [] = perm_refl (r ∷ [])
insert-perm r (o ∷ os) = elim (Bool-cases (ltb_ℤ o.seeders r.seeders)) [
  | inl less ↦ rw less (perm_refl (r ∷ o ∷ os))
  | inr more ↦ rw more (Permᴰ.trans (Permᴰ.cons refl (insert-perm r os)) (Permᴰ.swap refl refl))
]

sort-perm : (rs : List Result) → Permᴰ (by_seeders rs) rs
unfolding by_seeders
sort-perm [] = Permᴰ.nil
sort-perm (r ∷ rs) = Permᴰ.trans (insert-perm r (by_seeders rs)) (Permᴰ.cons refl (sort-perm rs))

insert-IsDescending : (r : Result) (rs : List Result) → IsDescending rs → IsDescending (insert r rs)
unfolding insert
insert-IsDescending r [] d = tt
insert-IsDescending r (o ∷ []) d = ground arith
insert-IsDescending r (o ∷ p ∷ os) d = ground (arith, insert-IsDescending r (p ∷ os))

sort-IsDescending : (rs : List Result) → IsDescending (by_seeders rs)
unfolding by_seeders
sort-IsDescending [] = tt
sort-IsDescending (r ∷ rs) = insert-IsDescending r (by_seeders rs) (sort-IsDescending rs)

pub by_seeders-IsSort : IsSort by_seeders
by_seeders-IsSort = record { permutes = sort-perm; orders = sort-IsDescending }

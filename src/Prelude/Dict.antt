-- ===== src/Prelude/Dict.antt =====
-- Go maps and string sets: a set is the list of its members, a map the list of its entries, in an
-- order that the program never relies on.
use p2pget.Prelude.Base.{
  ℕ, suc, ◌≤◌, List, [], ◌∷◌, length, ite, ◌≡◌, ◌≢◌, if_pos, if_neg, ◌∙◌, ◌++◌, refl, arith, Bool,
  true, false, Option, none, some,
}

module _ {ℓ} {K : Type ℓ} (dec : Discrete K) where
  -- `_, ok := set[k]`
  unfoldable pub contains : K → List K → Bool
  contains k [] = false
  contains k (x ∷ xs) = ite (dec x k) true (contains k xs)

  -- `set[k] = struct{}{}`
  unfoldable pub add : K → List K → List K
  unfolding contains
  add k xs = elim (contains k xs) [ true ↦ xs | false ↦ k ∷ xs ]

  -- How many entries of a list are `k`.
  unfoldable pub count : K → List K → ℕ
  count k [] = 0
  count k (x ∷ xs) = ite (dec x k) (suc (count k xs)) (count k xs)

  -- No member twice.
  abbrev pub Distinct : List K → Type ℓ
  Distinct [] = Unit
  Distinct (x ∷ xs) = (contains x xs ≡ false) × Distinct xs

  pub contains-add :
      (k j : K) (xs : List K) → contains j (add k xs) ≡ ite (dec k j) true (contains j xs)
  unfolding contains add
  contains-add k j xs = ground arith

  pub add-Distinct : (k : K) (xs : List K) → Distinct xs → Distinct (add k xs)
  unfolding add
  add-Distinct k xs h = ground arith

  pub length-add-le : (k : K) (xs : List K) → length (add k xs) ≤ suc (length xs)
  unfolding add
  length-add-le k xs = ground arith

  pub le-length-add : (k : K) (xs : List K) → length xs ≤ length (add k xs)
  unfolding add
  le-length-add k xs = ground arith

  pub contains_same : (k j : K) (xs : List K) → k ≡ j → contains k xs ≡ contains j xs
  contains_same k j xs e = cc

  pub contains-snoc :
      (x y : K) (xs : List K) → contains x (xs ++ y ∷ []) ≡ ite (dec y x) true (contains x xs)
  unfolding contains
  contains-snoc x y [] = refl
  contains-snoc x y (z ∷ zs) = ground (arith, contains-snoc x y zs)

  pub Distinct-snoc :
      (y : K) (xs : List K) → contains y xs ≡ false → Distinct xs → Distinct (xs ++ y ∷ [])
  unfolding contains
  Distinct-snoc y [] h d = (refl, tt)
  Distinct-snoc y (x ∷ xs) h d = elim (dec x y) [
    | yes e ↦ absurd (ground arith)
    | no e ↦ (contains-snoc x y xs ∙ ground arith, Distinct-snoc y xs (ground arith) d.1)
  ]

module _ {K V : Type 0} (dec : Discrete K) where
  -- `v, ok := m[k]`
  unfoldable pub lookup : K → List (K × V) → Option V
  lookup k [] = none
  lookup k ((j, v) ∷ m) = ite (dec j k) (some v) (lookup k m)

  -- `m[k] = v`
  unfoldable pub put : K → V → List (K × V) → List (K × V)
  put k v [] = (k, v) ∷ []
  put k v ((j, w) ∷ m) = ite (dec j k) ((j, v) ∷ m) ((j, w) ∷ put k v m)

  -- `delete(m, k)`
  unfoldable pub delete : K → List (K × V) → List (K × V)
  delete k [] = []
  delete k ((j, w) ∷ m) = ite (dec j k) (delete k m) ((j, w) ∷ delete k m)

  abbrev pub keys : List (K × V) → List K
  keys [] = []
  keys ((j, v) ∷ m) = j ∷ keys m

  pub lookup-put :
      (k j : K) (v : V) (m : List (K × V))
      → lookup j (put k v m) ≡ ite (dec k j) (some v) (lookup j m)
  unfolding lookup put
  lookup-put k j v [] = refl
  lookup-put k j v ((i, w) ∷ m) = ground (arith, lookup-put k j v m)

  pub lookup-delete :
      (k j : K) (m : List (K × V)) → lookup j (delete k m) ≡ ite (dec k j) none (lookup j m)
  unfolding lookup delete
  lookup-delete k j [] = ground arith
  lookup-delete k j ((i, w) ∷ m) = ground (arith, lookup-delete k j m)

  pub lookup-put_self : (k : K) (v : V) (m : List (K × V)) → lookup k (put k v m) ≡ some v
  lookup-put_self k v m = rw (lookup-put k k v m) (if_pos (dec k k) refl (some v) (lookup k m))

  pub lookup-put_ne :
      (k j : K) (v : V) (m : List (K × V)) → k ≢ j → lookup j (put k v m) ≡ lookup j m
  lookup-put_ne k j v m ne = rw (lookup-put k j v m) (if_neg (dec k j) ne (some v) (lookup j m))

  pub lookup-delete_self : (k : K) (m : List (K × V)) → lookup k (delete k m) ≡ none
  lookup-delete_self k m = rw (lookup-delete k k m) (if_pos (dec k k) refl none (lookup k m))

  pub lookup-delete_ne : (k j : K) (m : List (K × V)) → k ≢ j → lookup j (delete k m) ≡ lookup j m
  lookup-delete_ne k j m ne = rw (lookup-delete k j m) (if_neg (dec k j) ne none (lookup j m))

  pub contains-put :
      (k j : K) (v : V) (m : List (K × V))
      → contains dec j (keys (put k v m)) ≡ ite (dec k j) true (contains dec j (keys m))
  unfolding contains put
  contains-put k j v [] = refl
  contains-put k j v ((i, w) ∷ m) = ground (arith, contains-put k j v m)

  pub put-Distinct :
      (k : K) (v : V) (m : List (K × V)) → Distinct dec (keys m) → Distinct dec (keys (put k v m))
  unfolding put
  put-Distinct k v [] h = (unfold contains in refl, tt)
  put-Distinct k v ((i, w) ∷ m) h = ground (arith, contains-put k i v m, put-Distinct k v m)

  pub contains-delete :
      (k j : K) (m : List (K × V))
      → contains dec j (keys (delete k m)) ≡ ite (dec k j) false (contains dec j (keys m))
  unfolding contains delete
  contains-delete k j [] = ground arith
  contains-delete k j ((i, w) ∷ m) = ground (arith, contains-delete k j m)

  pub delete-Distinct :
      (k : K) (m : List (K × V)) → Distinct dec (keys m) → Distinct dec (keys (delete k m))
  unfolding delete
  delete-Distinct k [] h = tt
  delete-Distinct k ((i, w) ∷ m) h = ground (arith, contains-delete k i m, delete-Distinct k m)

  pub lookup-none_iff-contains :
      (k : K) (m : List (K × V))
      → (lookup k m ≡ none → contains dec k (keys m) ≡ false)
        × (contains dec k (keys m) ≡ false → lookup k m ≡ none)
  unfolding lookup contains
  lookup-none_iff-contains k [] = ground arith
  lookup-none_iff-contains k ((i, w) ∷ m) = ground (arith, lookup-none_iff-contains k m)

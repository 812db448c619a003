-- ===== src/Cli/Pages.antt =====
-- The pages of `runSearch`, cmd/p2pget/main.go, against the list of results.
use p2pget.Prelude.{
  word, ℕ, zero, suc, ◌+◌, ◌-◌, ◌*◌, ◌^◌, ◌<◌, ◌≤◌, List, [], ◌∷◌, true, false, ltb, ℤ, pos, negsuc,
  ltb_ℤ, none, some, ◌≡◌, refl, sym, ap, arith, ◌∙◌, length, take, drop, length-drop, lt→ltb,
  ltb→lt, Bool-cases, inl, inr,
}
use p2pget.Cli.{signed, page_size, page_number, show_rows, show_range, page_from, search_page}

pub signed_small : (n : ℕ) → n < 2 ^ 63 → signed n ≡ pos n
unfolding signed
signed_small n h = rw (lt→ltb n (2 ^ 63) h) refl

signed_large : (n : ℕ) → 2 ^ 63 ≤ n → signed n ≡ negsuc (2 ^ 64 - 1 - n)
unfolding signed
signed_large n h = elim (Bool-cases (ltb n (2 ^ 63))) [
  | inl small ↦ absurd (omega (arith, ltb→lt n (2 ^ 63) small))
  | inr large ↦ rw large refl
]

pub word_small : (n : ℕ) → n < 2 ^ 64 → word n ≡ n
word_small n h = omega arith

pos_lt→ : {m n : ℕ} → ltb_ℤ (pos m) (pos n) ≡ true → m < n
pos_lt→ h = ground arith

pos_lt→not : {m n : ℕ} → ltb_ℤ (pos m) (pos n) ≡ false → n ≤ m
pos_lt→not h = ground arith

pub add_sub : (m n : ℕ) → m + n - m ≡ n
add_sub m n = omega arith

pub page_size-positive : (limit : ℤ) → 0 < page_size limit
unfolding page_size
page_size-positive (pos zero) = omega arith
page_size-positive (pos (suc n)) = omega arith
page_size-positive (negsuc n) = omega arith

module _ {A : Type 0} where
  show_rows-cons : (k i : ℕ) (r : A) (rs : List A) → show_rows k (suc i) (r ∷ rs) ≡ show_rows k i rs
  unfolding show_rows
  show_rows-cons zero i r rs = refl
  show_rows-cons (suc k) i r rs = ground (arith, show_rows-cons k (suc i) r rs)

  show_rows_lem :
      (k i : ℕ) (rs : List A) → k ≤ length rs - i → show_rows k i rs ≡ some (take k (drop i rs))
  unfolding show_rows
  show_rows_lem zero i rs h = refl
  show_rows_lem (suc k) i [] h = absurd (omega arith)
  show_rows_lem (suc k) zero (r ∷ rs) h =
      rw (show_rows-cons k 0 r rs, show_rows_lem k 0 rs (omega arith)) refl
  show_rows_lem (suc k) (suc i) (r ∷ rs) h =
      show_rows-cons (suc k) i r rs ∙ show_rows_lem (suc k) i rs (omega arith)

  pub take_all : (n : ℕ) (xs : List A) → length xs ≤ n → take n xs ≡ xs
  take_all zero [] h = refl
  take_all zero (x ∷ xs) h = absurd (omega arith)
  take_all (suc n) [] h = refl
  take_all (suc n) (x ∷ xs) h = ap (◌∷◌ x) (take_all n xs (omega arith))

  page_from_lem :
      (per start : ℕ) (rs : List A)
      → start + per < 2 ^ 63
      → length rs < 2 ^ 63
      → page_from per start rs ≡ some (take per (drop start rs))
  unfolding page_from show_range
  page_from_lem per start rs h hl =
      rw
        (
          word_small (start + per) (omega arith),
          signed_small (start + per) h,
          signed_small start (omega arith),
        )
        (elim (Bool-cases (ltb_ℤ (pos (length rs)) (pos (start + per)))) [
          | inl last ↦ rw last (
              show_rows_lem (length rs - start) start rs (omega arith)
              ∙ ap some (
                  take_all (length rs - start) (drop start rs) (omega (arith, length-drop start rs))
                  ∙ sym (
                      take_all per (drop start rs)
                        (omega (arith, length-drop start rs, pos_lt→ last)))))
          | inr full ↦
              rw full (
                rw (add_sub start per)
                  (show_rows_lem per start rs (omega (arith, pos_lt→not full))))
        ])

  -- If there are fewer than 2 ^ 63 results and the end of a page is an int, `search` shows without
  -- a panic the results of that page: as many as a page has, behind those of the pages before.
  pub search_page_lem :
      (limit page : ℤ) (rs : List A)
      → length rs < 2 ^ 63
      → (page_number page - 1) * page_size limit + page_size limit < 2 ^ 63
      → search_page limit page rs
        ≡ some (take (page_size limit) (drop ((page_number page - 1) * page_size limit) rs))
  unfolding search_page
  search_page_lem limit page rs hl h =
      let start = (page_number page - 1) * page_size limit in
      rw (word_small start (omega arith)) (page_from_lem (page_size limit) start rs h hl)

  page_from-panics :
      (per start : ℕ) (rs : List A)
      → 0 < per
      → 2 ^ 63 ≤ start
      → start + per < 2 ^ 64
      → page_from per start rs ≡ none
  unfolding page_from show_range
  page_from-panics per start rs some_row far near =
      rw
        (
          word_small (start + per) near,
          signed_large (start + per) (omega arith),
          signed_large start far,
        )
        (ground arith)

  -- If the product of page and size wraps to a negative int, and its sum with the size does as
  -- well, `search` panics, whatever the results: the index of the first row is negative.
  pub search_page-panics :
      (limit page : ℤ) (rs : List A)
      → 2 ^ 63 ≤ word ((page_number page - 1) * page_size limit)
      → word ((page_number page - 1) * page_size limit) + page_size limit < 2 ^ 64
      → search_page limit page rs ≡ none
  unfolding search_page
  search_page-panics limit page rs far near =
      page_from-panics (page_size limit) (word ((page_number page - 1) * page_size limit)) rs
        (page_size-positive limit) far near

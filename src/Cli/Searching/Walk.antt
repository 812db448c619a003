-- ===== src/Cli/Searching/Walk.antt =====
-- The pages of `runSearch`, cmd/p2pget/main.go, one after the other as the hint below each says.
use p2pget.Prelude.{
  word, ℕ, zero, suc, ◌+◌, ◌-◌, ◌*◌, ◌/◌, ◌^◌, ◌<◌, ◌≤◌, List, [], ◌∷◌, ◌++◌, false, ltb, ℤ, pos,
  Option, none, some, if◌then◌else◌, ◌≡◌, lt→ltb, ltb→lt, refl, ap, arith, ◌∙◌, length, take, drop,
  length-drop, take-append-drop, Bool-cases, inl, inr,
}
use p2pget.Cli.{signed, page_size, page_number, total_pages, search_page}
use native.Mathlib.Nat.{le-div_iff_mul-le, div-lt_iff_lt-mul}
use p2pget.Cli.Pages.{search_page_lem, take_all, word_small, signed_small, page_size-positive}
use p2pget.Cli.Searching.{Footer, footer, beyond, summary}

-- The page that the hint names.
abbrev pub hint : Footer → Option ℕ
hint (beyond pg pages) = none
hint (summary len pg pages next) = next

total_pages_small :
    (len per : ℕ)
    → len + per < 2 ^ 63
    → total_pages len per ≡ (if ltb ((len + per - 1) / per) 1 then 1 else (len + per - 1) / per)
unfolding total_pages
total_pages_small len per small =
    rw (word_small (len + per - 1) (omega arith), lt→ltb (len + per - 1) (2 ^ 63) (omega arith))
      refl

-- The page that has a place is before the last exactly if the results go on behind it.
total_pages-lt :
    (len per p : ℕ) → 0 < per → len + per < 2 ^ 63 → p * per < len → p < total_pages len per
total_pages-lt len per p some_row small more =
    let reach : suc p ≤ (len + per - 1) / per = (le-div_iff_mul-le some_row).1 (grind arith) in
    rw (total_pages_small len per small) (ground arith)

total_pages-le :
    (len per p : ℕ) → 0 < per → 0 < p → len + per < 2 ^ 63 → len ≤ p * per → total_pages len per ≤ p
total_pages-le len per p some_row first small less =
    let short : (len + per - 1) / per < suc p = (div-lt_iff_lt-mul some_row).1 (grind arith) in
    rw (total_pages_small len per small) (ground arith)

start_of : (q per : ℕ) → q * per < 2 ^ 63 → signed (word ((suc q - 1) * per)) ≡ pos (q * per)
start_of q per small =
    let back : suc q - 1 ≡ q = omega arith in
    rw (back, word_small (q * per) (omega arith)) (signed_small (q * per) small)

not_lt : {m n : ℕ} → ltb m n ≡ false → n ≤ m
not_lt h = ground arith

-- The hint below a page that is not out of range.
hint-footer :
    (limit : ℤ) (q len : ℕ)
    → len + page_size limit < 2 ^ 63
    → q * page_size limit ≤ len - 1
    → hint (footer limit (pos (suc q)) len)
      ≡ (if ltb (suc q * page_size limit) len then some (suc (suc q)) else none)
unfolding footer page_number
hint-footer limit q len small near =
    let start : signed (word ((suc q - 1) * page_size limit)) ≡ pos (q * page_size limit) =
      start_of q (page_size limit) (omega arith) in
    rw (start, footer)
      (elim (Bool-cases (ltb (suc q * page_size limit) len)) [
        | inl more ↦ ground (
          arith,
          total_pages-lt len (page_size limit) (suc q) (page_size-positive limit) small
              (ltb→lt (suc q * page_size limit) len more),
        )
        | inr last ↦ ground (
          arith,
          total_pages-le len (page_size limit) (suc q) (page_size-positive limit) (omega arith)
              small (omega (arith, not_lt last)),
        )
      ])

all_there : (q per len : ℕ) → len ≤ (q + 1) * per → len ≤ suc q * per
all_there q per len h = grind arith

regroup : (q m per len : ℕ) → len ≤ (q + suc (suc m)) * per → len ≤ (suc q + suc m) * per
regroup q m per len h = grind arith

module _ {A : Type 0} where
  abbrev prepend : List A → Option (List A) → Option (List A)
  prepend rows none = none
  prepend rows (some rest) = some (rows ++ rest)

  -- The rows of a page, and those behind it if there is a hint.
  abbrev pub continue_with : Option (List A) → Option ℕ → (ℕ → Option (List A)) → Option (List A)
  continue_with none next go = none
  continue_with (some rows) none go = some rows
  continue_with (some rows) (some next) go = prepend rows (go next)

  -- The rows of a page, and of those that the hints lead to, for some number of pages at most.
  unfoldable pub walk : ℕ → ℤ → ℤ → List A → Option (List A)
  walk zero limit page rs = none
  walk (suc n) limit page rs =
      continue_with (search_page limit page rs) (hint (footer limit page (length rs)))
        (λ next. walk n limit (pos next) rs)

  drop-add : (m n : ℕ) (xs : List A) → drop (m + n) xs ≡ drop n (drop m xs)
  drop-add zero n xs = let e : 0 + n ≡ n = omega arith in ap (λ k. drop k xs) e
  drop-add (suc m) zero [] = let e : suc m + 0 ≡ suc m = omega arith in ap (λ k. drop k []) e
  drop-add (suc m) (suc n) [] =
      let e : suc m + suc n ≡ suc (m + suc n) = omega arith in ap (λ k. drop k []) e
  drop-add (suc m) n (x ∷ xs) =
      let e : suc m + n ≡ suc (m + n) = omega arith in ap (λ k. drop k (x ∷ xs)) e ∙ drop-add m n xs

  page_lem :
      (q : ℕ) (limit : ℤ) (rs : List A)
      → length rs + page_size limit < 2 ^ 63
      → q * page_size limit ≤ length rs - 1
      → search_page limit (pos (suc q)) rs
        ≡ some (take (page_size limit) (drop (q * page_size limit) rs))
  unfolding page_number
  page_lem q limit rs small near =
      let back : suc q - 1 ≡ q = omega arith in
      let first : (page_number (pos (suc q)) - 1) * page_size limit ≡ q * page_size limit =
        ap (λ k. k * page_size limit) back in
      search_page_lem limit (pos (suc q)) rs (omega arith) (rw first (omega arith))
      ∙ ap (λ k. some (take (page_size limit) (drop k rs))) first

  rows_on :
      (q per : ℕ) (rs : List A)
      → take per (drop (q * per) rs) ++ drop (suc q * per) rs ≡ drop (q * per) rs
  rows_on q per rs =
      let next : suc q * per ≡ q * per + per = grind arith in
      rw (next, drop-add (q * per) per rs) (take-append-drop per (drop (q * per) rs))

  rows_last :
      (q per : ℕ) (rs : List A)
      → length rs ≤ suc q * per
      → take per (drop (q * per) rs) ≡ drop (q * per) rs
  rows_last q per rs h =
      let next : suc q * per ≡ q * per + per = grind arith in
      take_all per (drop (q * per) rs) (omega (arith, length-drop (q * per) rs))

  -- One page of the walk, for the way that goes on behind it.
  walk_page :
      (q : ℕ) (limit : ℤ) (rs : List A) (go : ℕ → Option (List A))
      → length rs + page_size limit < 2 ^ 63
      → q * page_size limit ≤ length rs - 1
      → (suc q * page_size limit < length rs
          → go (suc (suc q)) ≡ some (drop (suc q * page_size limit) rs))
      → continue_with
          (search_page limit (pos (suc q)) rs)
          (hint (footer limit (pos (suc q)) (length rs)))
          go
        ≡ some (drop (q * page_size limit) rs)
  walk_page q limit rs go small near on =
      rw (page_lem q limit rs small near, hint-footer limit q (length rs) small near)
        (elim (Bool-cases (ltb (suc q * page_size limit) (length rs))) [
          | inl more ↦
              rw (more, continue_with)
                (rw (on (ltb→lt (suc q * page_size limit) (length rs) more))
                  (ap some (rows_on q (page_size limit) rs)))
          | inr last ↦ rw (last) (ap some (rows_last q (page_size limit) rs (not_lt last)))
        ])

  walk_from :
      (m q : ℕ) (limit : ℤ) (rs : List A)
      → length rs + page_size limit < 2 ^ 63
      → q * page_size limit ≤ length rs - 1
      → length rs ≤ (q + suc m) * page_size limit
      → walk (suc m) limit (pos (suc q)) rs ≡ some (drop (q * page_size limit) rs)
  unfolding walk
  walk_from zero q limit rs small near enough =
      walk_page q limit rs (λ next. none) small near
        (λ more. absurd (omega (arith, all_there q (page_size limit) (length rs) enough)))
  walk_from (suc m) q limit rs small near enough =
      walk_page q limit rs (λ next. walk (suc m) limit (pos next) rs) small near
        (λ more.
          walk_from m (suc q) limit rs small (omega arith)
            (regroup q m (page_size limit) (length rs) enough))

  -- Following the hints from the first page on shows every result once, in order, and ends: as many
  -- pages are enough as hold all results. The number of results and the size of a page add up to an
  -- int.
  pub walk_lem :
      (n : ℕ) (limit : ℤ) (rs : List A)
      → length rs + page_size limit < 2 ^ 63
      → length rs ≤ suc n * page_size limit
      → walk (suc n) limit (pos 1) rs ≡ some rs
  walk_lem n limit rs small enough =
      let start : 0 + suc n ≡ suc n = omega arith in
      let none_before : 0 * page_size limit ≡ 0 = omega arith in
      walk_from n 0 limit rs small (omega arith) (rw start enough)
      ∙ ap (λ k. some (drop k rs)) none_before

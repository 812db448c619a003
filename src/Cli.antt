-- ===== src/Cli.antt =====
-- cmd/p2pget/main.go: the arguments of a command, and the pages of `search`. `flag.FlagSet.Parse` is
-- a parameter: from the values of the flags and the arguments it gives the new values and the
-- arguments that are left. An int is a 64-bit word.
pub mod Flags
pub mod Pages
pub mod Health
pub mod Dispatch
pub mod Setup
pub mod Searching
pub mod Getting
use p2pget.Prelude.{
  word, ℕ, zero, suc, ◌+◌, ◌-◌, ◌*◌, ◌/◌, ◌%◌, ◌^◌, List, [], ◌∷◌, Bool, true, false, if◌then◌else◌,
  ltb, ℤ, pos, negsuc, ltb_ℤ, Option, none, some, Text, length, get_elem?,
}

-- `parseArgs`: the values of the flags and the positional arguments; `none` is fuel that ran out.
abbrev pub add_positional : {F : Type 0} → Text → Option (F × List Text) → Option (F × List Text)
add_positional p none = none
add_positional p (some (flags, ps)) = some (flags, p ∷ ps)

module _ {F : Type 0} (parse : F → List Text → F × List Text) where
  unfoldable pub parse_args : ℕ → F → List Text → Option (F × List Text)
  parse_args zero flags args = none
  parse_args (suc fuel) flags args =
      let (now, rest) = parse flags args in
      elim rest [ [] ↦ some (now, []) | p ∷ left ↦ add_positional p (parse_args fuel now left) ]

-- The int that a word stands for.
unfoldable pub signed : ℕ → ℤ
signed w = if ltb w (2 ^ 63) then pos w else negsuc (2 ^ 64 - 1 - w)

-- `per := *limit; if per < 1 { per = 20 }`
unfoldable pub page_size : ℤ → ℕ
page_size (pos (suc n)) = suc n
page_size _ = 20

-- `pg := *page; if pg < 1 { pg = 1 }`
unfoldable pub page_number : ℤ → ℕ
page_number (pos (suc n)) = suc n
page_number _ = 1

-- `totalPages`
unfoldable pub total_pages : ℕ → ℕ → ℕ
total_pages len per =
    let sum = word (len + per - 1) in
    if ltb sum (2 ^ 63) then if ltb (sum / per) 1 then 1 else sum / per else 1

module _ {A : Type 0} where
  -- `for i := start; i < end; i++`, for the indices that are left; `none` is the panic of an index
  -- out of range.
  unfoldable pub show_rows : ℕ → ℕ → List A → Option (List A)
  show_rows zero i rs = some []
  show_rows (suc k) i rs = elim (get_elem? rs i) [
    | none ↦ none
    | some r ↦ elim (show_rows k (suc i) rs) [ none ↦ none | some out ↦ some (r ∷ out) ]
  ]

  -- The rows from `start` to `end`.
  unfoldable pub show_range : ℤ → ℤ → List A → Option (List A)
  unfolding show_rows
  show_range (pos start) (pos end) rs = show_rows (end - start) start rs
  show_range (pos start) (negsuc end) rs = some []
  show_range (negsuc start) end rs = if ltb_ℤ (negsuc start) end then none else some []

  -- `end` and the loop of `runSearch`, for its `start`.
  unfoldable pub page_from : ℕ → ℕ → List A → Option (List A)
  unfolding signed
  page_from per start rs =
      let past = signed (word (start + per)) in
      let end = if ltb_ℤ (pos (length rs)) past then pos (length rs) else past in
      show_range (signed start) end rs

  -- The rows that `runSearch` prints.
  unfoldable pub search_page : ℤ → ℤ → List A → Option (List A)
  search_page limit page rs =
      page_from (page_size limit) (word ((page_number page - 1) * page_size limit)) rs

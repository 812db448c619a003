-- ===== src/Search/Human.antt =====
-- `HumanSize` of internal/search/search.go. `%.1f` of a quotient of floats is a parameter.
pub mod Scale
use p2pget.Prelude.{
  word, ℕ, zero, suc, ◌+◌, ◌*◌, ◌/◌, ◌%◌, ◌^◌, List, [], ◌∷◌, ◌++◌, Bool, true, false,
  if◌then◌else◌, ltb, leb, ◌==◌, ℤ, pos, negsuc, Option, none, some, Text, codes, get_elem?,
}

abbrev pub unit : ℕ
unit = 1024

-- `%d` of a number that is not negative, with fuel for its digits.
unfoldable pub decimal_from : ℕ → ℕ → Text → Text
decimal_from zero n acc = acc
decimal_from (suc fuel) n acc =
    let rest = decimal_from fuel (n / 10) ((b'0' + n % 10) ∷ acc) in
    if ltb n 10 then (b'0' + n) ∷ acc else rest

unfoldable pub decimal : ℕ → Text
unfolding decimal_from
decimal n = decimal_from (suc n) n []

-- `for v := n / unit; v >= unit; v /= unit { div *= unit; exp++ }`; `none` is fuel that ran out.
unfoldable pub scale_loop : ℕ → ℕ → ℕ → ℕ → Option (ℕ × ℕ)
scale_loop zero v div exp = none
scale_loop (suc fuel) v div exp =
    let rest = scale_loop fuel (v / unit) (word (div * unit)) (exp + 1) in
    if leb unit v then rest else some (div, exp)

-- The divisor and the exponent for `n`; an int64 leaves the loop within six rounds.
unfoldable pub scale : ℕ → Option (ℕ × ℕ)
unfolding scale_loop
scale n = scale_loop 6 (n / unit) unit 0

-- `"KMGTPE"`
abbrev pub unit_letters : Text
unit_letters = codes "KMGTPE"

-- `HumanSize`; `none` is the panic of an index beyond the letters.
module _ (one_decimal : ℕ → ℕ → Text) where
  unfoldable pub large_size : ℕ → Option (ℕ × ℕ) → Option Text
  large_size n none = none
  large_size n (some (div, exp)) = elim (get_elem? unit_letters exp) [
    | none ↦ none
    | some c ↦ some (one_decimal n div ++ b' ' ∷ c ∷ b'B' ∷ [])
  ]

  unfoldable pub human_size : ℤ → Option Text
  unfolding large_size decimal
  human_size (negsuc n) = some (codes "?")
  human_size (pos zero) = some (codes "?")
  human_size (pos (suc m)) =
      let n = suc m in if ltb n unit then some (decimal n ++ codes " B") else large_size n (scale n)

-- `HumanRate` of a rate in bytes per second, by the test `< 1` and the conversion to an int64.
module _ {Rate : Type 0} (below_one : Rate → Bool) (whole : Rate → ℤ) where
  unfoldable pub human_rate : (ℕ → ℕ → Text) → Rate → Option Text
  human_rate one_decimal rate =
      if below_one rate then some (codes "0 B/s") else elim (human_size one_decimal (whole rate)) [
        | none ↦ none
        | some t ↦ some (t ++ codes "/s")
      ]

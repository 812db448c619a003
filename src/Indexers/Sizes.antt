-- ===== src/Indexers/Sizes.antt =====
-- `parseHumanSize` of internal/search/nyaa.go, with the matches of its regular expression
-- `(?i)^\s*([\d.]+)\s*([KMGT]?i?B)\s*$`. Without regard to case `K` also matches the Kelvin sign.

use p2pget.Prelude.{
  ℕ, ◌-◌, ◌^◌, [], ◌∷◌, map, Bool, true, ◌&&◌, ◌||◌, leb, ◌==◌, if◌then◌else◌, ℤ, pos, Option, none,
  some, Text, codes,
}
use p2pget.Strings.{trim_space, trim_left}
use p2pget.Indexers.{Parsers, text_eq}

-- `\s`
unfoldable pub re_space : ℕ → Bool
re_space c = c == 9 || c == 10 || c == 12 || c == 13 || c == b' '

-- `[\d.]`
unfoldable pub is_numeric : ℕ → Bool
is_numeric c = (leb b'0' c && leb c b'9') || c == b'.'

-- `[KMGT]`
unfoldable pub is_unit_letter : ℕ → Bool
is_unit_letter c =
    c == b'K'
    || c == b'k'
    || c == 0x212A
    || c == b'M'
    || c == b'm'
    || c == b'G'
    || c == b'g'
    || c == b'T'
    || c == b't'

-- The code points in front for which a test holds, and the rest.
unfoldable pub span : (ℕ → Bool) → Text → Text × Text
span p [] = ([], [])
span p (c ∷ s) = let (m, r) = span p s in if p c then (c ∷ m, r) else ([], c ∷ s)

abbrev pub prepend : ℕ → Option (Text × Text) → Option (Text × Text)
prepend c none = none
prepend c (some (m, r)) = some (c ∷ m, r)

-- `B`
unfoldable pub match_b : Text → Option (Text × Text)
match_b [] = none
match_b (c ∷ s) = if c == b'B' || c == b'b' then some (c ∷ [], s) else none

-- `i?B`
unfoldable pub match_ib : Text → Option (Text × Text)
unfolding match_b
match_ib [] = none
match_ib (c ∷ s) = if c == b'I' || c == b'i' then prepend c (match_b s) else match_b (c ∷ s)

-- `[KMGT]?i?B`
unfoldable pub match_unit : Text → Option (Text × Text)
unfolding match_ib is_unit_letter
match_unit [] = none
match_unit (c ∷ s) = if is_unit_letter c then prepend c (match_ib s) else match_ib (c ∷ s)

abbrev pub all_space : Text → Bool
all_space [] = true
all_space (c ∷ s) = re_space c && all_space s

-- `sizeRE.FindStringSubmatch`: the number and the unit.
unfoldable pub match_size : Text → Option (Text × Text)
unfolding span match_unit re_space is_numeric trim_left
match_size s =
    let (number, rest) = span is_numeric (trim_left re_space s) in
    elim number [
      | [] ↦ none
      | c ∷ digits ↦ elim (match_unit (trim_left re_space rest)) [
        | none ↦ none
        | some (unit, last) ↦ if all_space last then some (c ∷ digits, unit) else none
      ]
    ]

-- `strings.ToUpper` on what a unit can hold.
unfoldable pub upper : ℕ → ℕ
upper c = if leb b'a' c && leb c b'z' then c - 32 else c

-- The `switch` on the unit.
unfoldable pub multiplier : Text → ℕ
multiplier u =
    if text_eq u (codes "KB") || text_eq u (codes "KIB")
    then 2 ^ 10
    else if text_eq u (codes "MB") || text_eq u (codes "MIB")
    then 2 ^ 20
    else if text_eq u (codes "GB") || text_eq u (codes "GIB")
    then 2 ^ 30
    else if text_eq u (codes "TB") || text_eq u (codes "TIB")
    then 2 ^ 40
    else 1

module _ (parsers : Parsers) where
  open parsers use {parse_float, scaled}

  -- `parseHumanSize`
  unfoldable pub parse_human_size : Text → ℤ
  unfolding match_size multiplier upper
  parse_human_size s = elim (match_size (trim_space s)) [
    | none ↦ pos 0
    | some (number, unit) ↦ elim (parse_float number) [
      | none ↦ pos 0
      | some v ↦ scaled v (multiplier (map upper unit))
    ]
  ]

-- ===== src/Strings.antt =====
-- The functions of Go's packages strings and unicode that the program calls, over lists of code
-- points. Lower case beyond ASCII comes from the Unicode tables, which are a parameter.
pub mod Fields
pub mod Split
pub mod Find
use p2pget.Prelude.{
  ◌-◌, length, take, drop, ℕ, suc, zero, ◌+◌, List, [], ◌∷◌, ◌++◌, map, Bool, true, false, not,
  ◌&&◌, ◌||◌, ltb, leb, ◌==◌, if◌then◌else◌, Text, text_discrete, ite, Option, none, some,
}

-- `unicode.ToLower` on code points from 0x80 on.
pub record Unicode : Type 0 where
  pub lower : ℕ → ℕ

-- `unicode.IsSpace`
unfoldable pub is_space : ℕ → Bool
is_space c =
    (leb 9 c && leb c 13)
    || c == 0x20
    || c == 0x85
    || c == 0xA0
    || c == 0x1680
    || (leb 0x2000 c && leb c 0x200A)
    || c == 0x2028
    || c == 0x2029
    || c == 0x202F
    || c == 0x205F
    || c == 0x3000

module _ ⦃u : Unicode⦄ where
  unfoldable pub lower_rune : ℕ → ℕ
  lower_rune c = if leb 0x80 c then u.lower c else if leb b'A' c && leb c b'Z' then c + 32 else c

  -- `strings.ToLower`
  unfoldable pub to_lower : Text → Text
  unfolding lower_rune
  to_lower = map lower_rune

-- `strings.HasPrefix(s, p)`
unfoldable pub has_prefix : Text → Text → Bool
has_prefix s [] = true
has_prefix [] (c ∷ p) = false
has_prefix (d ∷ s) (c ∷ p) = d == c && has_prefix s p

-- `strings.Contains(s, sub)`
unfoldable pub has_substring : Text → Text → Bool
unfolding has_prefix
has_substring [] sub = has_prefix [] sub
has_substring (c ∷ s) sub = has_prefix (c ∷ s) sub || has_substring s sub

-- Puts a code point before the first of some parts.
unfoldable pub extend_head : ℕ → List Text → List Text
extend_head c [] = (c ∷ []) ∷ []
extend_head c (w ∷ ws) = (c ∷ w) ∷ ws

-- `strings.Split(s, sep)` for a separator of one code point.
unfoldable pub split : ℕ → Text → List Text
unfolding extend_head
split sep [] = [] ∷ []
split sep (c ∷ s) = if c == sep then [] ∷ split sep s else extend_head c (split sep s)

-- `strings.Join(parts, sep)`
unfoldable pub join : Text → List Text → Text
join sep [] = []
join sep (w ∷ []) = w
join sep (w ∷ w' ∷ ws) = w ++ sep ++ join sep (w' ∷ ws)

-- Adds the word that was being read to the words behind it.
unfoldable pub end_word : Text → List Text → List Text
end_word [] ws = ws
end_word (c ∷ w) ws = (c ∷ w) ∷ ws

-- The words of a text from inside one, whose code points so far are `word`.
unfoldable pub fields_from : Text → Text → List Text
unfolding end_word is_space
fields_from word [] = end_word word []
fields_from word (c ∷ s) =
    let stop = end_word word (fields_from [] s) in
    let go = fields_from (word ++ c ∷ []) s in if is_space c then stop else go

-- `strings.Fields`
unfoldable pub fields : Text → List Text
unfolding fields_from
fields = fields_from []

-- `strings.TrimLeft(s, cutset)` for a set of code points, and `TrimRight` below.
unfoldable pub trim_left : (ℕ → Bool) → Text → Text
trim_left cut [] = []
trim_left cut (c ∷ s) = if cut c then trim_left cut s else c ∷ s

unfoldable pub trim_right : (ℕ → Bool) → Text → Text
trim_right cut [] = []
trim_right cut (c ∷ s) = elim (trim_right cut s) [
  | [] ↦ if cut c then [] else c ∷ []
  | d ∷ r ↦ c ∷ d ∷ r
]

-- `strings.TrimSpace`
unfoldable pub trim_space : Text → Text
unfolding trim_left trim_right is_space
trim_space s = trim_right is_space (trim_left is_space s)

-- `strings.HasSuffix(s, x)`
unfoldable pub has_suffix : Text → Text → Bool
has_suffix s x =
    leb (length x) (length s) && ite (text_discrete (drop (length s - length x) s) x) true false

-- `strings.TrimSuffix(s, x)`
unfoldable pub trim_suffix : Text → Text → Text
unfolding has_suffix
trim_suffix s x = if has_suffix s x then take (length s - length x) s else s

-- ===== src/Indexers/Links/Digits.antt =====
-- What `infoHashFromLink` gives: forty digits in lower case, or nothing.
use p2pget.Prelude.{
  ℕ, [], ◌∷◌, ◌∙◌, length, Bool, true, ◌&&◌, ◌||◌, leb, ◌≡◌, ◌∙◌, Option, none, some, Text,
}
use p2pget.Indexers.Links.{is_hex}

abbrev pub AllHex : Text → Type 0
AllHex [] = Unit
AllHex (c ∷ s) = (is_hex c ≡ true) × AllHex s

-- `[0-9a-f]`
abbrev pub is_lower_hex : ℕ → Bool
is_lower_hex c = (leb b'0' c && leb c b'9') || (leb b'a' c && leb c b'f')

abbrev pub AllLowerHex : Text → Type 0
AllLowerHex [] = Unit
AllLowerHex (c ∷ s) = (is_lower_hex c ≡ true) × AllLowerHex s

abbrev pub IsInfoHash : Text → Type 0
IsInfoHash s = (length s ≡ 40) × AllLowerHex s

-- A match of `n` digits, or none.
abbrev Digits : ℕ → Option Text → Type 0
Digits n none = Unit
Digits n (some m) = (length m ≡ n) × AllHex m

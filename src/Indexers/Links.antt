-- ===== src/Indexers/Links.antt =====
-- `infoHashFromLink` of internal/search/nyaa.go: the first 40 hexadecimal digits of a link.

pub mod Digits
use p2pget.Prelude.{
  ℕ, zero, suc, List, [], ◌∷◌, Bool, ◌&&◌, ◌||◌, leb, if◌then◌else◌, Option, none, some, Text,
}
use p2pget.Strings.{Unicode, to_lower}

-- `[a-f0-9]` in any case.
unfoldable pub is_hex : ℕ → Bool
is_hex c = (leb b'0' c && leb c b'9') || (leb b'a' c && leb c b'f') || (leb b'A' c && leb c b'F')

-- The first `n` code points, if they are there and all digits.
unfoldable pub hex_prefix : ℕ → Text → Option Text
hex_prefix zero s = some []
hex_prefix (suc n) [] = none
hex_prefix (suc n) (c ∷ s) =
    let rest = hex_prefix n s in
    if is_hex c then elim rest [ none ↦ none | some m ↦ some (c ∷ m) ] else none

-- `infoHashRE.FindString`
unfoldable pub find_hex : Text → Text
find_hex [] = []
find_hex (c ∷ s) = elim (hex_prefix 40 (c ∷ s)) [ none ↦ find_hex s | some m ↦ m ]

module _ ⦃u : Unicode⦄ where
  -- `infoHashFromLink`
  unfoldable pub info_hash_from_link : Text → Text
  info_hash_from_link s = to_lower (find_hex s)

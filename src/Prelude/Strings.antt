-- ===== src/Prelude/Strings.antt =====
-- Go strings, as lists of the code points of a valid UTF-8 text.
use Prim.Native.Char.{code}
use Prim.Native.String.{String}
use p2pget.Prelude.Base.{
  ℕ, ◌+◌, List, [], ◌∷◌, ℕ_discrete, ltb, if◌then◌else◌, ◌≡◌, refl, ap₂, Bool, true, false,
}

abbrev pub Text : Type 0
Text = List ℕ

-- A literal of the source.
abbrev pub codes : String → Text
codes String.[] = []
codes (String.◌∷◌ c s) = code c ∷ codes s

tail_eq : {a b : ℕ} {s t : Text} → a ∷ s ≡ b ∷ t → s ≡ t
tail_eq h = cc

head_eq : {a b : ℕ} {s t : Text} → a ∷ s ≡ b ∷ t → a ≡ b
head_eq h = cc

nil_ne : {a : ℕ} {s : Text} → a ∷ s ≡ [] → ⊥
nil_ne h = cc

nil_ne' : {a : ℕ} {s : Text} → [] ≡ a ∷ s → ⊥
nil_ne' h = cc

-- `==` on strings.
unfoldable pub text_discrete : Discrete Text
unfolding ℕ_discrete tail_eq head_eq nil_ne nil_ne'
text_discrete [] [] = yes refl
text_discrete [] (b ∷ t) = no nil_ne'
text_discrete (a ∷ s) [] = no nil_ne
text_discrete (a ∷ s) (b ∷ t) = elim (ℕ_discrete a b) [
  | yes p ↦ elim (text_discrete s t) [ yes q ↦ yes (ap₂ ◌∷◌ p q) | no q ↦ no (λ e. q (tail_eq e)) ]
  | no p ↦ no (λ e. p (head_eq e))
]

-- `s == ""`
abbrev pub is_empty : Text → Bool
is_empty [] = true
is_empty (_ ∷ _) = false

-- How many bytes UTF-8 takes for a code point.
unfoldable pub utf8_width : ℕ → ℕ
utf8_width c = if ltb c 0x80 then 1 else if ltb c 0x800 then 2 else if ltb c 0x10000 then 3 else 4

-- `len(s)`, which counts bytes.
unfoldable pub byte_len : Text → ℕ
unfolding utf8_width
byte_len [] = 0
byte_len (c ∷ s) = utf8_width c + byte_len s

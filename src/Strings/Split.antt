-- ===== src/Strings/Split.antt =====
-- `strings.Split` and joining with one separator.
use p2pget.Prelude.{
  ℕ, List, [], ◌∷◌, ◌++◌, Bool, false, ◌||◌, ◌==◌, Text, ◌≡◌, inl, inr, refl, arith, Bool-cases, ap,
  ◌≢◌,
}
use p2pget.Strings.{split, extend_head}

-- Whether a code point stands in a text.
abbrev pub has : ℕ → Text → Bool
has sep [] = false
has sep (c ∷ s) = c == sep || has sep s

split_without : (sep : ℕ) (w : Text) → has sep w ≡ false → split sep w ≡ w ∷ []
unfolding split
split_without sep [] h = refl
split_without sep (c ∷ w) h = ground (arith, split_without sep w)

extend_head-append :
    (c : ℕ) (ws : List Text) (w : Text)
    → ws ≢ []
    → extend_head c (ws ++ w ∷ []) ≡ extend_head c ws ++ w ∷ []
unfolding extend_head
extend_head-append c [] w h = absurd (h refl)
extend_head-append c (v ∷ ws) w h = refl

split-ne-nil : (sep : ℕ) (s : Text) → split sep s ≢ []
unfolding split
split-ne-nil sep [] e = cc
split-ne-nil sep (c ∷ s) e = ground (arith, extend_head-ne-nil c (split sep s))
  where
    extend_head-ne-nil : (c : ℕ) (ws : List Text) → extend_head c ws ≢ []
    extend_head-ne-nil c [] e = cc
    extend_head-ne-nil c (w ∷ ws) e = cc

-- A part without the separator that is added behind one becomes the last part.
pub split-append :
    (sep : ℕ) (s w : Text) → has sep w ≡ false → split sep (s ++ sep ∷ w) ≡ split sep s ++ w ∷ []
unfolding split
split-append sep [] w h = ground (arith, split_without sep w h)
split-append sep (c ∷ s) w h = elim (Bool-cases (c == sep)) [
  | inl e ↦ rw e (ap (◌∷◌ []) (split-append sep s w h))
  | inr e ↦
      rw e (rw (split-append sep s w h) (extend_head-append c (split sep s) w (split-ne-nil sep s)))
]

-- No part holds the separator.
abbrev pub AllWithout : ℕ → List Text → Type 0
AllWithout sep [] = Unit
AllWithout sep (w ∷ ws) = (has sep w ≡ false) × AllWithout sep ws

extend_head-AllWithout :
    (sep c : ℕ) (ws : List Text)
    → (c == sep) ≡ false
    → AllWithout sep ws
    → AllWithout sep (extend_head c ws)
unfolding extend_head
extend_head-AllWithout sep c [] h a = ground arith
extend_head-AllWithout sep c (w ∷ ws) h a = ground arith

pub split-AllWithout : (sep : ℕ) (s : Text) → AllWithout sep (split sep s)
unfolding split
split-AllWithout sep [] = (refl, tt)
split-AllWithout sep (c ∷ s) = elim (Bool-cases (c == sep)) [
  | inl e ↦ rw e (refl, split-AllWithout sep s)
  | inr e ↦ rw e (extend_head-AllWithout sep c (split sep s) e (split-AllWithout sep s))
]

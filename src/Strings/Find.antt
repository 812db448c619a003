-- ===== src/Strings/Find.antt =====
-- `strings.HasPrefix` and `strings.Contains` against their meaning.
use p2pget.Prelude.{[], ◌∷◌, ◌++◌, true, Text, ◌≡◌, refl, arith, Bool-cases, ap, inl, inr}
use p2pget.Strings.{has_prefix, has_substring}

pub has_prefix→ : (s p : Text) → has_prefix s p ≡ true → (r : Text) × (s ≡ p ++ r)
unfolding has_prefix
has_prefix→ s [] h = (s, refl)
has_prefix→ [] (c ∷ p) h = absurd (ground arith)
has_prefix→ (d ∷ s) (c ∷ p) h = let (r, e) = has_prefix→ s p (ground arith) in (r, ground arith)

pub →has_prefix : (p r : Text) → has_prefix (p ++ r) p ≡ true
unfolding has_prefix
→has_prefix [] r = refl
→has_prefix (c ∷ p) r = ground (arith, →has_prefix p r)

prefix→has_substring : (s p : Text) → has_prefix s p ≡ true → has_substring s p ≡ true
unfolding has_substring
prefix→has_substring [] p h = h
prefix→has_substring (c ∷ s) p h = ground arith

-- A text that `has_substring` finds stands in it.
pub has_substring→ :
    (s sub : Text) → has_substring s sub ≡ true → (a : Text) × (b : Text) × (s ≡ a ++ (sub ++ b))
has_substring→ [] sub h = let (r, e) = has_prefix→ [] sub (unfold has_substring in h) in ([], r, e)
has_substring→ (c ∷ s) sub h = elim (Bool-cases (has_prefix (c ∷ s) sub)) [
  | inl start ↦ let (r, e) = has_prefix→ (c ∷ s) sub start in ([], r, e)
  | inr later ↦
      let (a, b, e) = has_substring→ s sub (unfold has_substring in ground arith) in
      (c ∷ a, b, ap (◌∷◌ c) e)
]

-- A text that stands in another is found.
pub →has_substring : (a sub b : Text) → has_substring (a ++ (sub ++ b)) sub ≡ true
unfolding has_substring
→has_substring [] sub b = prefix→has_substring (sub ++ b) sub (→has_prefix sub b)
→has_substring (c ∷ a) sub b = ground (arith, →has_substring a sub b)

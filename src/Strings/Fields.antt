-- ===== src/Strings/Fields.antt =====
-- `strings.Fields`: what the words of a text are.
use mathlib.Core.List.{flatten, append_assoc}
use p2pget.Prelude.{
  ℕ, List, [], ◌∷◌, ◌++◌, Bool, true, false, not, ◌&&◌, if◌then◌else◌, Text, ◌≡◌, ◌∙◌, inl, inr,
  refl, arith, Bool-cases, ap, ◌≢◌,
}
use p2pget.Strings.{fields, fields_from, end_word, is_space}

-- The code points that are no white space, in order.
unfoldable pub squeeze : Text → Text
squeeze [] = []
squeeze (c ∷ s) = if is_space c then squeeze s else c ∷ squeeze s

abbrev pub no_space : Text → Bool
no_space [] = true
no_space (c ∷ s) = not (is_space c) && no_space s

-- Each word has a code point, and none that is white space.
abbrev pub AllWords : List Text → Type 0
AllWords [] = Unit
AllWords (w ∷ ws) = (w ≢ []) × (no_space w ≡ true) × AllWords ws

no_space-append :
    (w : Text) (c : ℕ) → no_space w ≡ true → is_space c ≡ false → no_space (w ++ c ∷ []) ≡ true
no_space-append [] c h e = ground arith
no_space-append (d ∷ w) c h e = ground (arith, no_space-append w c)

end_word-AllWords :
    (w : Text) (ws : List Text) → no_space w ≡ true → AllWords ws → AllWords (end_word w ws)
unfolding end_word
end_word-AllWords [] ws h a = a
end_word-AllWords (c ∷ w) ws h a = (λ e. cc, h, a)

fields_from-AllWords : (word s : Text) → no_space word ≡ true → AllWords (fields_from word s)
unfolding fields_from
fields_from-AllWords word [] h = end_word-AllWords word [] h tt
fields_from-AllWords word (c ∷ s) h = elim (Bool-cases (is_space c)) [
  | inl e ↦ rw e (end_word-AllWords word (fields_from [] s) h (fields_from-AllWords [] s refl))
  | inr e ↦ rw e (fields_from-AllWords (word ++ c ∷ []) s (no_space-append word c h e))
]

flatten-end_word : (w : Text) (ws : List Text) → flatten (end_word w ws) ≡ w ++ flatten ws
unfolding end_word flatten
flatten-end_word [] ws = refl
flatten-end_word (c ∷ w) ws = refl

flatten-fields_from : (word s : Text) → flatten (fields_from word s) ≡ word ++ squeeze s
unfolding fields_from squeeze flatten
flatten-fields_from word [] = flatten-end_word word []
flatten-fields_from word (c ∷ s) = elim (Bool-cases (is_space c)) [
  | inl e ↦ rw (e, flatten-end_word) (ap (λ t. word ++ t) (flatten-fields_from [] s))
  | inr e ↦ rw e (flatten-fields_from (word ++ c ∷ []) s ∙ append_assoc word (c ∷ []) (squeeze s))
]

-- The words are not empty, hold no white space, and put together are the text without it.
pub fields_lem : (s : Text) → AllWords (fields s) × (flatten (fields s) ≡ squeeze s)
unfolding fields
fields_lem s = (fields_from-AllWords [] s refl, flatten-fields_from [] s)

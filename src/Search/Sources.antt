-- ===== src/Search/Sources.antt =====
-- The source lists of merged results, internal/search/search.go.
use p2pget.Prelude.{
  List, [], ◌∷◌, ◌++◌, Bool, true, false, not, ◌&&◌, ◌||◌, Text, text_discrete, is_empty, ite,
  contains, contains-snoc, Distinct, Distinct-snoc, ◌≡◌, refl, ◌∙◌, sym, arith, ◌≢◌, Bool-cases,
  inl, inr,
}
use p2pget.Strings.{split}
use p2pget.Strings.Split.{has, AllWithout, split-AllWithout, split-append}
use p2pget.Search.{plus, append_sources, merge_sources}

-- The sources that a list names.
abbrev pub names : Text → Text → Bool
names s x = not (is_empty x) && contains text_discrete x (split plus s)

split-snoc :
    (a s x : Text)
    → has plus s ≡ false
    → contains text_discrete x (split plus (a ++ plus ∷ s))
      ≡ ite (text_discrete s x) true (contains text_discrete x (split plus a))
split-snoc a s x h = rw (split-append plus a s h) (contains-snoc text_discrete x s (split plus a))

-- `known` and the parts of `a` are the same sources.
abbrev Agree : List Text → Text → Type 0
Agree known a =
    (y : Text) → contains text_discrete y known ≡ contains text_discrete y (split plus a)

Agree-snoc :
    (known : List Text) (a s : Text)
    → has plus s ≡ false
    → Agree known a
    → Agree (s ∷ known) (a ++ plus ∷ s)
unfolding contains
Agree-snoc known a s h same y = ground (arith, same y, split-snoc a s y h)

append_sources_lem :
    (a : Text) (known parts : List Text) (x : Text)
    → Agree known a
    → AllWithout plus parts
    → names (append_sources a known parts) x
      ≡ (names a x || (not (is_empty x) && contains text_discrete x parts))
unfolding append_sources contains
append_sources_lem a known [] x same w = ground arith
append_sources_lem a known (s ∷ ss) x same w = ground (
  arith,
  split-snoc a s x w.0,
  same s,
  append_sources_lem a known ss x same w.1,
  append_sources_lem (a ++ plus ∷ s) (s ∷ known) ss x (Agree-snoc known a s w.0 same) w.1,
)

-- The merged list names exactly the sources that one of the two names.
pub names-merge_sources : (a b x : Text) → names (merge_sources a b) x ≡ (names a x || names b x)
unfolding merge_sources
names-merge_sources [] b x = unfold split contains in ground arith
names-merge_sources (c ∷ a) b x =
    append_sources_lem (c ∷ a) (split plus (c ∷ a)) (split plus b) x (λ y. refl)
      (split-AllWithout plus b)

append_sources-Distinct :
    (a : Text) (known parts : List Text)
    → Agree known a
    → AllWithout plus parts
    → Distinct text_discrete (split plus a)
    → Distinct text_discrete (split plus (append_sources a known parts))
unfolding append_sources
append_sources-Distinct a known [] same w d = d
append_sources-Distinct a known (s ∷ ss) same w d =
    elim (Bool-cases (not (is_empty s) && not (contains text_discrete s known))) [
      | inl new ↦ rw new (
          append_sources-Distinct (a ++ plus ∷ s) (s ∷ known) ss (Agree-snoc known a s w.0 same) w.1
            (rw (split-append plus a s w.0)
              (Distinct-snoc text_discrete s (split plus a) (sym (same s) ∙ ground arith) d)))
      | inr old ↦ rw old (append_sources-Distinct a known ss same w.1 d)
    ]

-- If a list of sources is not empty and its sources are distinct, they still are when another list
-- is merged into it.
pub merge_sources-Distinct :
    (a b : Text)
    → a ≢ []
    → Distinct text_discrete (split plus a)
    → Distinct text_discrete (split plus (merge_sources a b))
unfolding merge_sources
merge_sources-Distinct [] b ne d = absurd (ne refl)
merge_sources-Distinct (c ∷ a) b ne d =
    append_sources-Distinct (c ∷ a) (split plus (c ∷ a)) (split plus b) (λ y. refl)
      (split-AllWithout plus b) d

-- ===== src/Search/Magnet/Trackers.antt =====
-- The trackers of `MagnetFromInfoHash`, internal/search/search.go.
use p2pget.Prelude.{
  List, [], ◌∷◌, true, false, not, ◌||◌, ◌&&◌, ◌≡◌, ap, ◌∙◌, arith, Text, text_discrete, is_empty,
  contains, Distinct, contains-snoc, contains_same, Distinct-snoc, ite, Bool-cases, inl, inr,
}
use p2pget.Search.Magnet.{default_trackers, add_tracker, add_trackers, magnet_trackers}

add_tracker-Distinct :
    (trs : List Text) (t : Text)
    → Distinct text_discrete trs
    → Distinct text_discrete (add_tracker trs t)
unfolding add_tracker
add_tracker-Distinct trs t d = elim (Bool-cases (is_empty t || contains text_discrete t trs)) [
  | inl skip ↦ rw skip d
  | inr new ↦ rw new (Distinct-snoc text_discrete t trs (ground arith) d)
]

add_trackers-Distinct :
    (trs ts : List Text) → Distinct text_discrete trs → Distinct text_discrete (add_trackers trs ts)
unfolding add_trackers
add_trackers-Distinct trs [] d = d
add_trackers-Distinct trs (t ∷ ts) d =
    add_trackers-Distinct (add_tracker trs t) ts (add_tracker-Distinct trs t d)

contains-add_tracker :
    (trs : List Text) (t j : Text)
    → contains text_discrete j (add_tracker trs t)
      ≡ (contains text_discrete j trs || (not (is_empty j) && ite (text_discrete t j) true false))
unfolding add_tracker
contains-add_tracker trs t j = elim (text_discrete t j) [
  | yes p ↦ ground (
    arith,
    contains-snoc text_discrete j t trs,
    ap is_empty p,
    contains_same text_discrete t j trs p,
  )
  | no p ↦ ground (arith, contains-snoc text_discrete j t trs)
]

contains-add_trackers :
    (trs ts : List Text) (j : Text)
    → contains text_discrete j (add_trackers trs ts)
      ≡ (contains text_discrete j trs || (not (is_empty j) && contains text_discrete j ts))
unfolding add_trackers contains
contains-add_trackers trs [] j = ground arith
contains-add_trackers trs (t ∷ ts) j =
    contains-add_trackers (add_tracker trs t) ts j ∙ ground (arith, contains-add_tracker trs t j)

contains_both :
    (first extra : List Text) (j : Text)
    → contains text_discrete j (add_trackers (add_trackers [] first) extra)
      ≡ (not (is_empty j) && (contains text_discrete j first || contains text_discrete j extra))
unfolding contains
contains_both first extra j =
    contains-add_trackers (add_trackers [] first) extra j
    ∙ ground (arith, contains-add_trackers [] first j)

-- A magnet names each tracker once: exactly the default ones and the extra ones, less an empty name.
pub magnet_trackers_lem :
    (extra : List Text)
    → Distinct text_discrete (magnet_trackers extra)
      × ((j : Text)
          → contains text_discrete j (magnet_trackers extra) ≡ (
              not (is_empty j)
              && (contains text_discrete j default_trackers || contains text_discrete j extra)))
unfolding magnet_trackers
magnet_trackers_lem extra = (
  add_trackers-Distinct (add_trackers [] default_trackers) extra
      (add_trackers-Distinct [] default_trackers tt),
  λ j. contains_both default_trackers extra j,
)

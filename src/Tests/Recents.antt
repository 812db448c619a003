-- ===== src/Tests/Recents.antt =====
-- A set of capacity 2 of internal/dht/recent.go.
use p2pget.Prelude.{
  ◌+◌, List, [], ◌∷◌, ◌≡◌, true, length, Text, codes, text_discrete, contains, refl, arith,
}
use p2pget.Recent.{RecentSet, seen, seen_all}
use p2pget.Recent.Window.{remembers, IsValid, seen_lem}
use p2pget.Recent.Growth.{seen_all_unbounded}

abbrev full : RecentSet
full = record { active = codes "b" ∷ codes "a" ∷ []; old = codes "z" ∷ []; cap = 2 }

full-IsValid : IsValid full
unfolding contains text_discrete
full-IsValid = record {
  positive = omega arith;
  active_distinct = (refl, (refl, tt));
  old_distinct = (refl, tt);
}

seen_lem_example :
    ((seen full (codes "z")).1 ≡ remembers full (codes "z"))
    × (remembers (seen full (codes "z")).0 (codes "z") ≡ true)
    × (remembers full (codes "z") ≡ true
        → remembers (seen full (codes "z")).0 (codes "a") ≡ remembers full (codes "a"))
    × (contains text_discrete (codes "a") full.active ≡ true
        → remembers (seen full (codes "z")).0 (codes "a") ≡ true)
seen_lem_example = seen_lem full (codes "z") (codes "a")

seen_all_unbounded_example :
    (hs : List Text) × (length (seen_all full hs).active ≡ 5 + length full.active)
seen_all_unbounded_example = seen_all_unbounded full 5 full-IsValid

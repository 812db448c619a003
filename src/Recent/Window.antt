-- ===== src/Recent/Window.antt =====
-- What `seen` of internal/dht/recent.go answers and remembers, and for how long.
use p2pget.Prelude.{
  ◌+◌, ◌≤◌, ◌<◌, List, [], ◌∷◌, Bool, true, ◌||◌, ◌≡◌, ◌⊎◌, inl, inr, arith, length, Text,
  text_discrete, contains, add, contains-add, Distinct, add-Distinct, length-add-le, ◌∙◌,
}
use p2pget.Recent.{RecentSet, seen, seen_all}

-- What the set remembers.
abbrev pub remembers : RecentSet → Text → Bool
remembers r h = contains text_discrete h r.active || contains text_discrete h r.old

pub record IsValid (r : RecentSet) : Type 0 where
  pub positive : 0 < r.cap
  pub active_distinct : Distinct text_discrete r.active
  pub old_distinct : Distinct text_discrete r.old

-- `seen` keeps the capacity positive and each generation free of duplicates.
pub seen-IsValid : (r : RecentSet) (h : Text) → IsValid r → IsValid (seen r h).0
unfolding seen
seen-IsValid r h v =
    ground (arith, add-Distinct text_discrete h r.active, add-Distinct text_discrete h [])

-- The answer is exactly whether the hash was remembered; after the call it is; a repeated hash
-- changes nothing else that is remembered, and a new one drops at most the old generation.
pub seen_lem :
    (r : RecentSet) (h j : Text)
    → ((seen r h).1 ≡ remembers r h)
      × (remembers (seen r h).0 h ≡ true)
      × (remembers r h ≡ true → remembers (seen r h).0 j ≡ remembers r j)
      × (contains text_discrete j r.active ≡ true → remembers (seen r h).0 j ≡ true)
unfolding seen
seen_lem r h j = ground (
  arith,
  contains-add text_discrete h j r.active,
  contains-add text_discrete h j [],
  contains-add text_discrete h h r.active,
  contains-add text_discrete h h [],
)

-- While no rotation is due, a hash of the old generation stays.
old_kept :
    (r : RecentSet) (j : Text) (hs : List Text)
    → contains text_discrete j r.old ≡ true
    → length r.active + length hs ≤ r.cap
    → remembers (seen_all r hs) j ≡ true
unfolding seen_all
old_kept r j [] m h = ground arith
old_kept r j (x ∷ hs) m h =
    old_kept (seen r x).0 j hs (unfold seen in ground arith)
      (unfold seen in ground (arith, length-add-le text_discrete x r.active))

-- One call keeps a member of the active generation there, or moves it to the old one by a rotation.
active_step :
    (r : RecentSet) (j x : Text)
    → contains text_discrete j r.active ≡ true
    → ((contains text_discrete j (seen r x).0.active ≡ true) × ((seen r x).0.cap ≡ r.cap))
      ⊎ ((contains text_discrete j (seen r x).0.old ≡ true)
          × (length (seen r x).0.active ≡ 1)
          × ((seen r x).0.cap ≡ r.cap))
unfolding seen add contains
active_step r j x m = ground (arith, contains-add text_discrete x j r.active)

active_kept :
    (r : RecentSet) (j : Text) (hs : List Text)
    → contains text_discrete j r.active ≡ true
    → length hs ≤ r.cap
    → remembers (seen_all r hs) j ≡ true
unfolding seen_all
active_kept r j [] m h = ground arith
active_kept r j (x ∷ hs) m h = elim (active_step r j x m) [
  | inl (still, cap) ↦ active_kept (seen r x).0 j hs still (omega arith)
  | inr (moved, short, cap) ↦ old_kept (seen r x).0 j hs moved (omega arith)
]

seen-cap : (r : RecentSet) (h : Text) → (seen r h).0.cap ≡ r.cap
unfolding seen
seen-cap r h = ground arith

seen-active : (r : RecentSet) (h : Text) → contains text_discrete h (seen r h).0.active ≡ true
unfolding seen
seen-active r h =
    ground (arith, contains-add text_discrete h h r.active, contains-add text_discrete h h [])

-- A hash that was seen is still reported after any further calls, up to the capacity in number.
pub seen-after_calls :
    (r : RecentSet) (h : Text) (hs : List Text)
    → length hs ≤ r.cap
    → (seen (seen_all (seen r h).0 hs) h).1 ≡ true
seen-after_calls r h hs short =
    let r' = (seen r h).0 in
    (seen_lem (seen_all r' hs) h h).0
    ∙ active_kept r' h hs (seen-active r h) (rw (seen-cap r h) short)

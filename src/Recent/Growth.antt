-- ===== src/Recent/Growth.antt =====
-- How large the set of internal/dht/recent.go can get: a promotion does not test the capacity.
use p2pget.Prelude.{
  ℕ, zero, suc, ◌+◌, ◌≤◌, ◌<◌, List, [], ◌∷◌, ◌++◌, true, false, ◌||◌, ◌≡◌, ap, if_neg, sym, ◌∙◌,
  refl, arith, length, Text, text_discrete, contains, add, Distinct, max, replicate,
  length-replicate, dec_lt,
}
use p2pget.Recent.{RecentSet, seen, seen_all}
use p2pget.Recent.Window.{IsValid, remembers, seen-IsValid}

longest : List Text → ℕ
longest [] = 0
longest (x ∷ xs) = max (length x) (longest xs)

-- A text that is longer than all of a list.
fresh : List Text → Text
fresh xs = replicate (suc (longest xs)) 0

contains_long :
    (t : Text) (xs : List Text) → longest xs < length t → contains text_discrete t xs ≡ false
unfolding contains longest
contains_long t [] h = refl
contains_long t (x ∷ xs) h = elim (text_discrete x t) [
  | yes p ↦ absurd (omega (arith, ap length p))
  | no p ↦ rw (if_neg _ p) (contains_long t xs (omega arith))
]

contains-append :
    (t : Text) (xs ys : List Text)
    → contains text_discrete t (xs ++ ys)
      ≡ (contains text_discrete t xs || contains text_discrete t ys)
unfolding contains
contains-append t [] ys = refl
contains-append t (x ∷ xs) ys = ground (arith, contains-append t xs ys)

fresh-absent : (r : RecentSet) → remembers r (fresh (r.active ++ r.old)) ≡ false
fresh-absent r =
    let t = fresh (r.active ++ r.old) in
    sym (contains-append t r.active r.old)
    ∙ contains_long t (r.active ++ r.old)
        (unfold fresh in omega (arith, length-replicate {A = ℕ} (longest (r.active ++ r.old)) 0))

-- Hashes of the old generation, each once, that are not active.
abbrev Promotable : List Text → List Text → List Text → Type 0
Promotable active old [] = Unit
Promotable active old (k ∷ ks) =
    (contains text_discrete k old ≡ true)
    × (contains text_discrete k active ≡ false)
    × (contains text_discrete k ks ≡ false)
    × Promotable active old ks

promoted_one :
    (k : Text) (active old ks : List Text)
    → contains text_discrete k ks ≡ false
    → Promotable active old ks
    → Promotable (k ∷ active) old ks
unfolding contains
promoted_one k active old [] h p = tt
promoted_one k active old (j ∷ ks) h p = elim (text_discrete j k) [
  | yes e ↦ absurd (ground arith)
  | no e ↦ (p.0, ground arith, p.2, promoted_one k active old ks (ground arith) p.3)
]

promote :
    (r : RecentSet) (k : Text)
    → contains text_discrete k r.old ≡ true
    → contains text_discrete k r.active ≡ false
    → (seen r k).0 ≡ record r { active = k ∷ r.active }
unfolding seen add
promote r k o a = ground arith

seen_all-cons :
    (r r' : RecentSet) (k : Text) (ks : List Text)
    → (seen r k).0 ≡ r'
    → seen_all r (k ∷ ks) ≡ seen_all r' ks
unfolding seen_all
seen_all-cons r r' k ks e = ap (λ s. seen_all s ks) e

-- Each promotion adds an entry, whatever the capacity.
promotions :
    (r : RecentSet) (ks : List Text)
    → Promotable r.active r.old ks
    → (length (seen_all r ks).active ≡ length ks + length r.active) × ((seen_all r ks).old ≡ r.old)
promotions r [] p = unfold seen_all in (omega arith, refl)
promotions r (k ∷ ks) p =
    let r' : RecentSet = record r { active = k ∷ r.active } in
    let (len, old) = promotions r' ks (promoted_one k r.active r.old ks p.2 p.3) in
    rw (seen_all-cons r r' k ks (promote r k p.0 p.1)) (omega (arith, len), old)

-- The members of the old generation can all be promoted past one new hash.
Promotable-old :
    (x : Text) (old ks : List Text)
    → ((j : Text) → contains text_discrete j ks ≡ true → contains text_discrete j old ≡ true)
    → contains text_discrete x ks ≡ false
    → Distinct text_discrete ks
    → Promotable (x ∷ []) old ks
unfolding contains
Promotable-old x old [] sub h d = tt
Promotable-old x old (k ∷ ks) sub h d = (
  sub k (ground arith),
  ground arith,
  d.0,
  Promotable-old x old ks (λ j m. sub j (ground arith)) (ground arith) d.1,
)

rotated :
    (r : RecentSet) (x : Text)
    → r.cap ≤ length r.active
    → remembers r x ≡ false
    → (seen r x).0 ≡ record r { active = x ∷ []; old = r.active }
unfolding seen add contains
rotated r x full new = ground arith

-- A set at its capacity grows by one over a rotation whose old generation is seen again.
pub regrow :
    (r : RecentSet) (x : Text)
    → IsValid r
    → r.cap ≤ length r.active
    → remembers r x ≡ false
    → (length (seen_all r (x ∷ r.active)).active ≡ suc (length r.active))
      × ((seen_all r (x ∷ r.active)).old ≡ r.active)
regrow r x v full new =
    let r' : RecentSet = record r { active = x ∷ []; old = r.active } in
    let start = Promotable-old x r.active r.active (λ j m. m) (ground arith) v.active_distinct in
    let (len, old) = promotions r' r.active start in
    rw (seen_all-cons r r' x r.active (rotated r x full new)) (omega (arith, len), old)

seen_all-IsValid : (r : RecentSet) (hs : List Text) → IsValid r → IsValid (seen_all r hs)
unfolding seen_all
seen_all-IsValid r [] v = v
seen_all-IsValid r (h ∷ hs) v = seen_all-IsValid (seen r h).0 hs (seen-IsValid r h v)

inserted :
    (r : RecentSet) (x : Text)
    → length r.active < r.cap
    → remembers r x ≡ false
    → (seen r x).0 ≡ record r { active = x ∷ r.active }
unfolding seen add
inserted r x room new = ground arith

-- From any state some calls add an entry to the active generation.
grow :
    (r : RecentSet)
    → IsValid r
    → (hs : List Text) × (length (seen_all r hs).active ≡ suc (length r.active))
grow r v =
    let x = fresh (r.active ++ r.old) in
    let new = fresh-absent r in
    elim (dec_lt (length r.active) r.cap) [
      | yes room ↦
          (x ∷ [], rw (seen_all-cons r _ x [] (inserted r x room new)) (unfold seen_all in refl))
      | no full ↦ (x ∷ r.active, (regrow r x v (omega arith) new).0)
    ]

seen_all-append :
    (r : RecentSet) (hs ks : List Text) → seen_all r (hs ++ ks) ≡ seen_all (seen_all r hs) ks
unfolding seen_all
seen_all-append r [] ks = refl
seen_all-append r (h ∷ hs) ks = seen_all-append (seen r h).0 hs ks

-- No bound holds: from any valid set and for any number `n` there are calls after which the active
-- generation alone holds `n` more entries, whatever the capacity.
pub seen_all_unbounded :
    (r : RecentSet) (n : ℕ)
    → IsValid r
    → (hs : List Text) × (length (seen_all r hs).active ≡ n + length r.active)
seen_all_unbounded r zero v = ([], unfold seen_all in omega arith)
seen_all_unbounded r (suc n) v =
    let (hs, len) = seen_all_unbounded r n v in
    let r' = seen_all r hs in
    let (ks, more) = grow r' (seen_all-IsValid r hs v) in
    (hs ++ ks, rw (seen_all-append r hs ks) (omega (arith, len, more)))

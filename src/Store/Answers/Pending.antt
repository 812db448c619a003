-- ===== src/Store/Answers/Pending.antt =====
-- `PendingMetadata` of internal/store/store.go against the calls that wrote the index.
use mathlib.Core.List.{Permᴰ}
use p2pget.Prelude.{
  zero, suc, List, [], ◌∷◌, Bool, true, false, map, Option, none, some, ◌≡◌, refl, sym, ap, arith,
  ◌∙◌, ℤ, pos, negsuc, Text, text_discrete, lookup, keys, contains, Distinct,
}
use p2pget.Strings.{Unicode}
use p2pget.Store.{Store, Row, pending_rows, pending_metadata, limited}
use p2pget.Store.Rows.{IsValid, Write, write_all, write_all-IsValid, empty_store}
use p2pget.Store.Answers.{Metadata, reading, known_of, read_lem}

-- A hash that was written, and has no metadata.
abbrev pub is_pending : Option (Option Metadata) → Bool
is_pending (some none) = true
is_pending _ = false

abbrev pub hashes : {A : Type 0} → List (Text × A) → List Text
hashes ps = map (λ p. p.0) ps

pub contains-perm :
    {A : Type 0} (j : Text) {ps qs : List (Text × A)}
    → Permᴰ ps qs
    → contains text_discrete j (hashes ps) ≡ contains text_discrete j (hashes qs)
unfolding contains
contains-perm j Permᴰ.nil = refl
contains-perm {A} j (Permᴰ.cons {a = a} {b = b} e p) =
    let same : a.0 ≡ b.0 = ap (λ (x : Text × A). x.0) e in ground (arith, contains-perm j p)
contains-perm {A} j (Permᴰ.swap {a = a} {b = b} {a' = a'} {b' = b'} e f) =
    let same : a.0 ≡ b'.0 = ap (λ (x : Text × A). x.0) e in
    let same' : b.0 ≡ a'.0 = ap (λ (x : Text × A). x.0) f in ground arith
contains-perm j (Permᴰ.trans p q) = contains-perm j p ∙ contains-perm j q

pub Distinct-perm :
    {A : Type 0} {ps qs : List (Text × A)}
    → Permᴰ ps qs
    → Distinct text_discrete (hashes qs)
    → Distinct text_discrete (hashes ps)
unfolding contains
Distinct-perm Permᴰ.nil d = d
Distinct-perm {A} (Permᴰ.cons {a = a} {b = b} e p) d =
    let same : a.0 ≡ b.0 = ap (λ (x : Text × A). x.0) e in
    (contains-perm a.0 p ∙ ground arith, Distinct-perm p d.1)
Distinct-perm {A} (Permᴰ.swap {a = a} {b = b} {a' = a'} {b' = b'} e f) d =
    let same : a.0 ≡ b'.0 = ap (λ (x : Text × A). x.0) e in
    let same' : b.0 ≡ a'.0 = ap (λ (x : Text × A). x.0) f in ground arith
Distinct-perm (Permᴰ.trans p q) d = Distinct-perm p (Distinct-perm q d)

pub hashes-limited :
    {A : Type 0} (n : ℤ) (ps : List (Text × A)) → hashes (limited n ps) ≡ limited n (hashes ps)
hashes-limited (pos zero) ps = refl
hashes-limited (pos (suc n)) [] = refl
hashes-limited (pos (suc n)) (p ∷ ps) = ap (◌∷◌ p.0) (hashes-limited (pos n) ps)
hashes-limited (negsuc n) ps = refl

pending_rows-absent :
    (j : Text) (m : List (Text × Row))
    → contains text_discrete j (keys text_discrete m) ≡ false
    → contains text_discrete j (hashes (pending_rows m)) ≡ false
unfolding contains pending_rows
pending_rows-absent j [] h = refl
pending_rows-absent j ((k, r) ∷ m) h = ground (arith, pending_rows-absent j m)

pending_rows_lem :
    (j : Text) (m : List (Text × Row))
    → Distinct text_discrete (keys text_discrete m)
    → contains text_discrete j (hashes (pending_rows m))
      ≡ is_pending (reading (lookup text_discrete j m))
unfolding contains pending_rows lookup
pending_rows_lem j [] d = refl
pending_rows_lem j ((k, r) ∷ m) d = elim (text_discrete k j) [
  | yes p ↦
      let none_left : contains text_discrete j (hashes (pending_rows m)) ≡ false =
        pending_rows-absent j m
          (ap (λ x. contains text_discrete x (keys text_discrete m)) (sym p) ∙ d.0) in
      ground arith
  | no p ↦ ground (arith, pending_rows_lem j m d.1)
]

pending_rows-Distinct :
    (m : List (Text × Row))
    → Distinct text_discrete (keys text_discrete m)
    → Distinct text_discrete (hashes (pending_rows m))
unfolding pending_rows
pending_rows-Distinct [] d = tt
pending_rows-Distinct ((k, r) ∷ m) d =
    ground (arith, pending_rows-absent k m d.0, pending_rows-Distinct m d.1)

module _ ⦃u : Unicode⦄ (order : List (Text × Row) → List (Text × Row))
    (permutes : (rs : List (Text × Row)) → Permᴰ (order rs) rs) where
  -- After any calls on an empty index, for an order that only reorders rows, PendingMetadata gives
  -- the first `n` of a list, or the whole list if `n` is negative, that holds each hash once and
  -- exactly the hashes that were written and whose metadata was never saved.
  pub pending_metadata_lem :
      (ws : List Write) (n : ℤ)
      → (hs : List Text) × (pending_metadata order n (write_all empty_store ws) ≡ limited n hs)
        × Distinct text_discrete hs
        × ((j : Text) → contains text_discrete j hs ≡ is_pending (known_of ws j))
  unfolding pending_metadata
  pending_metadata_lem ws n =
      let s : Store = write_all empty_store ws in
      let v : IsValid s = write_all-IsValid ws in
      let rows : List (Text × Row) = pending_rows s.torrents in
      (
        hashes (order rows),
        hashes-limited n (order rows),
        Distinct-perm (permutes rows) (pending_rows-Distinct s.torrents v.distinct),
        λ j.
            contains-perm j (permutes rows)
            ∙ pending_rows_lem j s.torrents v.distinct
            ∙ ap is_pending (read_lem ws j),
      )

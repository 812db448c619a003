-- ===== src/Store/Rows.antt =====
-- The two tables of internal/store/store.go against each other.
use p2pget.Prelude.{
  List, [], ◌∷◌, Bool, true, false, Option, none, some, ◌≡◌, refl, sym, ap, arith, ◌∙◌, ℤ, Text,
  if◌then◌else◌, text_discrete, lookup, put, keys, Distinct, put-Distinct, delete-Distinct,
  lookup-put, lookup-put_self, lookup-put_ne, lookup-delete, contains-delete, Option-cases, inl,
  inr,
}
use p2pget.Strings.{Unicode, to_lower}
use p2pget.Store.{Store, Row, Record, seen_info_hash, save_metadata, resolved_row, unresolved_row}

-- What the full-text table holds for a row.
abbrev pub indexed : Option Row → Option Text
indexed none = none
indexed (some r) = if r.resolved then some r.name else none

-- Each hash once in each table, and in the full-text table exactly the resolved rows, by name.
pub record IsValid (s : Store) : Type 0 where
  pub distinct : Distinct text_discrete (keys text_discrete s.torrents)
  pub fts_distinct : Distinct text_discrete (keys text_discrete s.torrents_fts)
  pub synced :
      (h : Text)
      → lookup text_discrete h s.torrents_fts ≡ indexed (lookup text_discrete h s.torrents)

abbrev pub empty_store : Store
empty_store = record { torrents = []; torrents_fts = [] }

-- A call that writes, with its time; `false` is a transaction that fails.
pub data Write : Type 0 where
  sees : ℤ → Text → Write
  saves : Bool → ℤ → Record → Write

module _ ⦃u : Unicode⦄ where
  unfoldable pub write_all : Store → List Write → Store
  write_all s [] = s
  write_all s (sees now h ∷ ws) = write_all (seen_info_hash now h s) ws
  write_all s (saves committed now r ∷ ws) = write_all (save_metadata committed now r s) ws

  -- The row that the upsert of `SeenInfoHash` leaves.
  abbrev pub touched : ℤ → Option Row → Row
  touched now none = unresolved_row now
  touched now (some old) = record old { seen_at = now }

  touched-indexed :
      (now : ℤ) (o : Option Row) (k j : Text) (m : List (Text × Row))
      → lookup text_discrete k m ≡ o
      → indexed (lookup text_discrete j (put text_discrete k (touched now o) m))
        ≡ indexed (lookup text_discrete j m)
  touched-indexed now o k j m e = elim (text_discrete k j) [
    | no p ↦ ap indexed (lookup-put_ne text_discrete k j (touched now o) m p)
    | yes p ↦
        let at : lookup text_discrete j m ≡ o = rw (← p) e in
        let new : lookup text_discrete j (put text_discrete k (touched now o) m)
            ≡ some (touched now o) =
          rw (← p) (lookup-put_self text_discrete k (touched now o) m) in
        rw (new, at) (same o)
  ]
    where
      same : (o : Option Row) → indexed (some (touched now o)) ≡ indexed o
      same none = refl
      same (some r) = refl

  pub seen_info_hash_lem :
      (now : ℤ) (h : Text) (s : Store)
      → seen_info_hash now h s ≡ record s {
        torrents =
            put text_discrete
              (to_lower h)
              (touched now (lookup text_discrete (to_lower h) s.torrents))
              s.torrents;
      }
  unfolding seen_info_hash
  seen_info_hash_lem now h s = elim (Option-cases (lookup text_discrete (to_lower h) s.torrents)) [
    | inl new ↦ rw new refl
    | inr (r, old) ↦ rw old refl
  ]

  pub seen_info_hash-IsValid :
      (now : ℤ) (h : Text) (s : Store) → IsValid s → IsValid (seen_info_hash now h s)
  seen_info_hash-IsValid now h s v =
      let k = to_lower h in
      let old = lookup text_discrete k s.torrents in
      rw (seen_info_hash_lem now h s) (record {
        distinct = put-Distinct text_discrete k (touched now old) s.torrents v.distinct;
        fts_distinct = v.fts_distinct;
        synced = λ j. v.synced j ∙ sym (touched-indexed now old k j s.torrents refl);
      })

  saved-row :
      (now : ℤ) (r : Record) (s : Store)
      → IsValid s
      → (j : Text)
      → lookup text_discrete j (save_metadata true now r s).torrents_fts
        ≡ indexed (lookup text_discrete j (save_metadata true now r s).torrents)
  unfolding save_metadata resolved_row lookup
  saved-row now r s v j =
      let h = to_lower r.info_hash in
      ground (
        arith,
        lookup-put text_discrete h j (resolved_row now r (lookup text_discrete h s.torrents))
            s.torrents,
        lookup-delete text_discrete h j s.torrents_fts,
        v.synced j,
      )

  pub save_metadata-IsValid :
      (committed : Bool) (now : ℤ) (r : Record) (s : Store)
      → IsValid s
      → IsValid (save_metadata committed now r s)
  unfolding save_metadata
  save_metadata-IsValid false now r s v = v
  save_metadata-IsValid true now r s v =
      let h = to_lower r.info_hash in
      let row = resolved_row now r (lookup text_discrete h s.torrents) in
      record {
        distinct = put-Distinct text_discrete h row s.torrents v.distinct;
        fts_distinct = (
          contains-delete text_discrete h h s.torrents_fts ∙ ground arith,
          delete-Distinct text_discrete h s.torrents_fts v.fts_distinct,
        );
        synced = λ j. saved-row now r s v j;
      }

  from-IsValid : (ws : List Write) (s : Store) → IsValid s → IsValid (write_all s ws)
  unfolding write_all
  from-IsValid [] s v = v
  from-IsValid (sees now h ∷ ws) s v =
      from-IsValid ws (seen_info_hash now h s) (seen_info_hash-IsValid now h s v)
  from-IsValid (saves committed now r ∷ ws) s v =
      from-IsValid ws (save_metadata committed now r s) (save_metadata-IsValid committed now r s v)

  pub write_all-IsValid : (ws : List Write) → IsValid (write_all empty_store ws)
  write_all-IsValid ws =
      from-IsValid ws empty_store
        (record { distinct = tt; fts_distinct = tt; synced = λ h. unfold lookup in refl })

-- ===== src/Store/Resolved.antt =====
-- Metadata that internal/store/store.go has saved is not lost again.
use p2pget.Prelude.{
  List, [], ◌∷◌, Bool, true, false, some, ◌≡◌, refl, sym, ap, ◌∙◌, ℤ, Text, text_discrete, lookup,
  put, lookup-put_self, lookup-put_ne,
}
use p2pget.Strings.{Unicode, to_lower}
use p2pget.Store.{Store, Row, Record, seen_info_hash, save_metadata, resolved_row}
use p2pget.Store.Rows.{Write, sees, saves, write_all, touched, seen_info_hash_lem}

-- The store has resolved metadata for a hash.
abbrev pub IsResolved : Text → Store → Type 0
IsResolved j s = (r : Row) × (lookup text_discrete j s.torrents ≡ some r) × (r.resolved ≡ true)

module _ ⦃u : Unicode⦄ where
  seen_info_hash-IsResolved :
      (now : ℤ) (h j : Text) (s : Store) → IsResolved j s → IsResolved j (seen_info_hash now h s)
  seen_info_hash-IsResolved now h j s (r, there, good) =
      let k = to_lower h in
      rw (seen_info_hash_lem now h s) (elim (text_discrete k j) [
        | yes p ↦
            let old : lookup text_discrete k s.torrents ≡ some r = rw p there in
            (
              record r { seen_at = now },
              ap
                    (λ x. lookup text_discrete x (
                      put text_discrete k (touched now (lookup text_discrete k s.torrents))
                        s.torrents))
                    (sym p)
                  ∙ lookup-put_self text_discrete k
                      (touched now (lookup text_discrete k s.torrents)) s.torrents
                  ∙ ap (λ o. some (touched now o)) old,
              good,
            )
        | no p ↦ (
          r,
          lookup-put_ne text_discrete k j (touched now (lookup text_discrete k s.torrents))
                s.torrents p
              ∙ there,
          good,
        )
      ])

  save_metadata-IsResolved :
      (committed : Bool) (now : ℤ) (r : Record) (j : Text) (s : Store)
      → IsResolved j s
      → IsResolved j (save_metadata committed now r s)
  unfolding save_metadata resolved_row
  save_metadata-IsResolved false now r j s h = h
  save_metadata-IsResolved true now r j s (old, there, good) =
      let k = to_lower r.info_hash in
      let new : Row = resolved_row now r (lookup text_discrete k s.torrents) in
      elim (text_discrete k j) [
        | yes p ↦ (
          new,
          ap (λ x. lookup text_discrete x (put text_discrete k new s.torrents)) (sym p)
              ∙ lookup-put_self text_discrete k new s.torrents,
          refl,
        )
        | no p ↦ (old, lookup-put_ne text_discrete k j new s.torrents p ∙ there, good)
      ]

  -- A hash whose metadata is in the store stays resolved, whatever is written later.
  pub write_all-IsResolved :
      (ws : List Write) (j : Text) (s : Store) → IsResolved j s → IsResolved j (write_all s ws)
  unfolding write_all
  write_all-IsResolved [] j s h = h
  write_all-IsResolved (sees now x ∷ ws) j s h =
      write_all-IsResolved ws j (seen_info_hash now x s) (seen_info_hash-IsResolved now x j s h)
  write_all-IsResolved (saves committed now r ∷ ws) j s h =
      write_all-IsResolved ws j (save_metadata committed now r s)
        (save_metadata-IsResolved committed now r j s h)

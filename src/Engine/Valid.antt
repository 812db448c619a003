-- ===== src/Engine/Valid.antt =====
-- The map of internal/engine/engine.go: what holds of it between two calls.
use p2pget.Prelude.{
  lookup-put_self, lookup-put_ne, ℕ, zero, suc, List, [], ◌∷◌, ◌++◌, none, some, ◌≡◌, refl, sym, ap,
  arith, ◌∙◌, length, text_discrete, Text, Option-cases, ◌⊎◌, inl, inr, if_neg, if_pos, get_elem?,
  lookup, put, delete, Distinct, keys, put-Distinct, ◌≢◌,
}
use p2pget.Download.{Download, Torrent}
use p2pget.Engine.{Engine, healthy, track, new_download}

pub some_inj : {A : Type 0} {a b : A} → some a ≡ some b → a ≡ b
some_inj e = cc

module _ {R : Type 0} where
  -- Each entry leads to a download of its hash.
  abbrev pub Entries : List (Download R) → List (Text × ℕ) → Type 0
  Entries heap [] = Unit
  Entries heap ((h, id) ∷ m) =
      ((d : Download R) × (get_elem? heap id ≡ some d) × (d.t.info_hash ≡ h)) × Entries heap m

  -- The map holds each hash once, and leads to a download of that hash.
  pub record IsValid (e : Engine R) : Type 0 where
    pub distinct : Distinct text_discrete (keys text_discrete e.downloads)
    pub entries : Entries e.heap e.downloads

  pub get_elem?-append :
      (heap new : List (Download R)) (id : ℕ) {d : Download R}
      → get_elem? heap id ≡ some d
      → get_elem? (heap ++ new) id ≡ some d
  get_elem?-append [] new id e = cc
  get_elem?-append (x ∷ heap) new zero e = e
  get_elem?-append (x ∷ heap) new (suc id) e = get_elem?-append heap new id e

  pub get_elem?-last :
      (heap : List (Download R)) (d : Download R)
      → get_elem? (heap ++ d ∷ []) (length heap) ≡ some d
  get_elem?-last [] d = refl
  get_elem?-last (x ∷ heap) d = get_elem?-last heap d

  Entries-append :
      (heap new : List (Download R)) (m : List (Text × ℕ))
      → Entries heap m
      → Entries (heap ++ new) m
  Entries-append heap new [] h = tt
  Entries-append heap new ((k, id) ∷ m) ((d, at, same), h) =
      ((d, get_elem?-append heap new id at, same), Entries-append heap new m h)

  Entries-put :
      (heap : List (Download R)) (m : List (Text × ℕ)) (k : Text) (id : ℕ) (d : Download R)
      → get_elem? heap id ≡ some d
      → d.t.info_hash ≡ k
      → Entries heap m
      → Entries heap (put text_discrete k id m)
  unfolding put
  Entries-put heap [] k id d at same h = ((d, at, same), tt)
  Entries-put heap ((j, old) ∷ m) k id d at same h = elim (text_discrete j k) [
    | yes p ↦ rw (if_pos _ p) ((d, at, same ∙ sym p), h.1)
    | no p ↦ rw (if_neg _ p) (h.0, Entries-put heap m k id d at same h.1)
  ]

  pub Entries-delete :
      (heap : List (Download R)) (m : List (Text × ℕ)) (k : Text)
      → Entries heap m
      → Entries heap (delete text_discrete k m)
  unfolding delete
  Entries-delete heap [] k h = tt
  Entries-delete heap ((j, old) ∷ m) k h = elim (text_discrete j k) [
    | yes p ↦ rw (if_pos _ p) (Entries-delete heap m k h.1)
    | no p ↦ rw (if_neg _ p) (h.0, Entries-delete heap m k h.1)
  ]

  pub Entries-lookup :
      (heap : List (Download R)) (m : List (Text × ℕ)) (k : Text) {id : ℕ}
      → Entries heap m
      → lookup text_discrete k m ≡ some id
      → (d : Download R) × (get_elem? heap id ≡ some d) × (d.t.info_hash ≡ k)
  unfolding lookup
  Entries-lookup heap [] k h e = cc
  Entries-lookup heap ((j, old) ∷ m) k {id} ((d, at, same), h) e = elim (text_discrete j k) [
    | yes p ↦ let here : old ≡ id = ground arith in (d, rw (← here) at, same ∙ p)
    | no p ↦ Entries-lookup heap m k h (ground arith)
  ]

  module _ (still : R) (t : Torrent) (now : ℕ) (magnet : Text) (skip : List ℕ) (e : Engine R) where
    abbrev pub fresh_download : Download R
    fresh_download = new_download still t now magnet skip

    pub track_new :
        healthy e t.info_hash ≡ none
        → track still t now magnet skip e ≡ (
          record e {
            heap = e.heap ++ fresh_download ∷ [];
            downloads = put text_discrete t.info_hash (length e.heap) e.downloads;
          },
          length e.heap,
        )
    unfolding track
    track_new h = rw (h, track)

    pub track_old :
        {id : ℕ} → healthy e t.info_hash ≡ some id → track still t now magnet skip e ≡ (e, id)
    unfolding track
    track_old h = rw (h, track)

    pub healthy→ :
        {id : ℕ}
        → healthy e t.info_hash ≡ some id
        → (lookup text_discrete t.info_hash e.downloads ≡ some id)
          × ((d : Download R) × (get_elem? e.heap id ≡ some d) × (d.err ≡ none))
    unfolding healthy
    healthy→ {id} h = elim (Option-cases (lookup text_discrete t.info_hash e.downloads)) [
      | inl absent ↦ absurd (ground arith)
      | inr (i, found) ↦ elim (Option-cases (get_elem? e.heap i)) [
        | inl gone ↦ absurd (ground arith)
        | inr (d, at) ↦ elim (Option-cases d.err) [
          | inl fine ↦
              let here : i ≡ id = ground arith in (rw (← here) found, (d, rw (← here) at, fine))
          | inr (x, bad) ↦ absurd (ground arith)
        ]
      ]
    ]

    pub track-IsValid : IsValid e → IsValid (track still t now magnet skip e).0
    track-IsValid v = elim (Option-cases (healthy e t.info_hash)) [
      | inl new ↦ rw (track_new new) (record {
        distinct = put-Distinct text_discrete t.info_hash (length e.heap) e.downloads v.distinct;
        entries =
            Entries-put (e.heap ++ fresh_download ∷ []) e.downloads t.info_hash (length e.heap)
              fresh_download (get_elem?-last e.heap fresh_download) (unfold new_download in refl)
              (Entries-append e.heap (fresh_download ∷ []) e.downloads v.entries);
      })
      | inr (id, old) ↦ rw (track_old old) v
    ]

    -- In a valid engine `track` returns a download of the torrent's hash that has not failed,
    -- enters it under that hash, and changes no other entry and no download that was there. A
    -- healthy one is reused as it is; otherwise, a failed one included, the download is a new
    -- object.
    pub track_lem :
        IsValid e
        → let (e', id) = track still t now magnet skip e in
          ((d : Download R) × (get_elem? e'.heap id ≡ some d)
            × (d.err ≡ none)
            × (d.t.info_hash ≡ t.info_hash))
          × (lookup text_discrete t.info_hash e'.downloads ≡ some id)
          × ((j : Text)
              → t.info_hash ≢ j
              → lookup text_discrete j e'.downloads ≡ lookup text_discrete j e.downloads)
          × ((i : ℕ) (d : Download R) → get_elem? e.heap i ≡ some d → get_elem? e'.heap i ≡ some d)
          × ((healthy e t.info_hash ≡ some id × (e' ≡ e))
              ⊎ ((healthy e t.info_hash ≡ none) × (id ≡ length e.heap)))
    track_lem v = elim (Option-cases (healthy e t.info_hash)) [
      | inl new ↦ rw (track_new new) (
        (
          fresh_download,
          get_elem?-last e.heap fresh_download,
          unfold new_download in refl,
          unfold new_download in refl,
        ),
        lookup-put_self text_discrete t.info_hash (length e.heap) e.downloads,
        λ j ne. lookup-put_ne text_discrete t.info_hash j (length e.heap) e.downloads ne,
        λ i d at. get_elem?-append e.heap (fresh_download ∷ []) i at,
        inr (new, refl),
      )
      | inr (id, old) ↦
          let (found, (d, at, fine)) = healthy→ old in
          let (d', at', same) = Entries-lookup e.heap e.downloads t.info_hash v.entries found in
          let one : d' ≡ d = some_inj (sym at' ∙ at) in
          rw (track_old old) (
            (d, at, fine, ap (λ x. x.t.info_hash) (sym one) ∙ same),
            found,
            λ j ne. refl,
            λ i x here. here,
            inl (old, refl),
          )
    ]

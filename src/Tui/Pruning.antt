-- ===== src/Tui/Pruning.antt =====
-- `pruneCompleted` of internal/tui/app.go: which downloads leave the engine.
pub mod Leaves
pub mod Done
use mathlib.Core.List.Memᴰ
use mathlib.Core.List.{Memᴰ, Permᴰ}
use p2pget.Prelude.{
  ℕ, List, [], ◌∷◌, ◌++◌, Bool, true, false, not, ◌&&◌, ite, if_pos, if_neg, if◌then◌else◌, ◌≡◌,
  ◌≢◌, ◌⊎◌, refl, sym, ap, ◌∙◌, arith, Option, none, some, Text, get_elem?, Bool-cases,
  Option-cases, inl, inr, lookup, text_discrete, lookup-delete, lookup-delete_self,
  lookup-delete_ne, delete, keys, Distinct, contains,
}
use p2pget.Download.{Download, Rates}
use p2pget.Download.Status.{status, is_completed}
use p2pget.Engine.{Engine, Client, find, forget, remove, persist_state}
use p2pget.Engine.Valid.{IsValid, Entries, Entries-lookup, some_inj}
use p2pget.Engine.Keeps.{remove-IsValid}
use p2pget.Engine.Listing.{values}
use p2pget.Tui.{World, FileView}
use p2pget.Tui.Watch.{watched, is_viewed, prune_one, prune_all}

mem_perm : {x : ℕ} {xs ys : List ℕ} → Permᴰ xs ys → Memᴰ x xs → Memᴰ x ys
mem_perm Permᴰ.nil m = m
mem_perm (Permᴰ.cons p q) (Memᴰ.head e) = Memᴰ.head (e ∙ p)
mem_perm (Permᴰ.cons p q) (Memᴰ.tail m) = Memᴰ.tail (mem_perm q m)
mem_perm (Permᴰ.swap p q) (Memᴰ.head e) = Memᴰ.tail (Memᴰ.head (e ∙ p))
mem_perm (Permᴰ.swap p q) (Memᴰ.tail (Memᴰ.head e)) = Memᴰ.head (e ∙ q)
mem_perm (Permᴰ.swap p q) (Memᴰ.tail (Memᴰ.tail m)) = Memᴰ.tail (Memᴰ.tail m)
mem_perm (Permᴰ.trans p q) m = mem_perm q (mem_perm p m)

module _ {R : Type 0} where
  -- What `Remove` may do to the map: nothing, or one entry goes.
  abbrev Removes : Text → Engine R → Engine R → Type 0
  Removes h e e' =
      (e'.heap ≡ e.heap)
      × (lookup text_discrete h e'.downloads ≡ none)
      × ((j : Text)
          → h ≢ j
          → lookup text_discrete j e'.downloads ≡ lookup text_discrete j e.downloads)

  forget-Removes : (h : Text) (d : Download R) (e : Engine R) → Removes h e (forget h d e)
  unfolding forget
  forget-Removes h d e = (
    refl,
    lookup-delete_self text_discrete h e.downloads,
    λ j ne. lookup-delete_ne text_discrete h j e.downloads ne,
  )

  persist_state-Removes :
      (written : Bool) (h : Text) (e e' : Engine R)
      → Removes h e e'
      → Removes h e (persist_state written e')
  unfolding persist_state
  persist_state-Removes written h e e' r = elim (Bool-cases (e'.persistent && written)) [
    | inl writes ↦ rw (writes, persist_state) r
    | inr stays ↦ rw (stays, persist_state) r
  ]

  find-none :
      (h : Text) (e : Engine R)
      → IsValid e
      → find h e ≡ none
      → lookup text_discrete h e.downloads ≡ none
  unfolding find
  find-none h e v gone = elim (Option-cases (lookup text_discrete h e.downloads)) [
    | inl absent ↦ absent
    | inr (id, here) ↦
        let (d, at, same) = Entries-lookup e.heap e.downloads h v.entries here in
        absurd (ground arith)
  ]

  remove-Removes :
      (c : Client) (written : Bool) (h : Text) (e : Engine R)
      → IsValid e
      → c.from_hex h ≡ some h
      → Removes h e (remove c written h e).0
  unfolding remove
  remove-Removes c written h e v good = elim (Option-cases (find h e)) [
    | inl absent ↦
        rw (good, remove) (rw (absent, remove) (refl, find-none h e v absent, λ j ne. refl))
    | inr (d, here) ↦
        rw (good, remove)
          (rw (here, remove)
            (persist_state-Removes written h e (forget h d e) (forget-Removes h d e)))
  ]

module _ (rates : Rates) (w : World) (view : Option FileView) where
  open rates use {Rate}

  -- A download that is not viewed and has all it wants.
  abbrev pub is_finished : List (Download Rate) → ℕ → Bool
  is_finished heap id = not (is_viewed view id) && elim (get_elem? heap id) [
    | none ↦ false
    | some d ↦ is_completed (status (w.stats d.t.handle) d)
  ]

  -- `FromHexString` gives back the hash whose `HexString` it is given.
  abbrev pub HexHashes : List (Download Rate) → Type 0
  HexHashes heap =
      (id : ℕ) (d : Download Rate)
      → get_elem? heap id ≡ some d
      → w.client.from_hex d.t.info_hash ≡ some d.t.info_hash

  -- What one turn of the loop does.
  abbrev OneTurn : ℕ → Engine Rate → Engine Rate → Type 0
  OneTurn id e e' =
      ((e' ≡ e) × (is_finished e.heap id ≡ false))
      ⊎ ((d : Download Rate) × (get_elem? e.heap id ≡ some d)
          × (is_finished e.heap id ≡ true)
          × Removes d.t.info_hash e e'
          × IsValid e')

  prune_one-OneTurn :
      (id : ℕ) (e : Engine Rate) (done : List Text)
      → IsValid e
      → HexHashes e.heap
      → OneTurn id e (prune_one rates w view id (e, done)).0
  unfolding prune_one status
  prune_one-OneTurn id e done v hex = elim (Bool-cases (is_viewed view id)) [
    | inl seen ↦ rw (seen, prune_one) (inl (refl, refl))
    | inr unseen ↦ elim (Option-cases (get_elem? e.heap id)) [
      | inl gone ↦ rw (unseen, prune_one) (rw (gone, prune_one) (inl (refl, refl)))
      | inr (d, at) ↦ elim (Bool-cases (is_completed (status (w.stats d.t.handle) d))) [
        | inr busy ↦
            rw (unseen, prune_one) (rw (at, prune_one) (rw (busy, prune_one) (inl (refl, refl))))
        | inl complete ↦
            rw (unseen, prune_one)
              (rw (at, prune_one)
                (rw (complete, prune_one)
                  (inr (
                    d,
                    refl,
                    refl,
                    remove-Removes w.client w.written d.t.info_hash e v (hex id d at),
                    remove-IsValid rates.still w.client 0 w.written e v d.t.info_hash,
                  ))))
      ]
    ]
  ]

  -- What the whole loop does, over a heap that stays.
  abbrev AllTurns : List (Download Rate) → List ℕ → Engine Rate → Engine Rate → Type 0
  AllTurns heap ids e e' =
      (e'.heap ≡ heap)
      × ((j : Text)
          → (lookup text_discrete j e'.downloads ≡ lookup text_discrete j e.downloads)
            ⊎ (lookup text_discrete j e'.downloads ≡ none))
      × ((id : ℕ) (d : Download Rate)
          → Memᴰ id ids
          → get_elem? heap id ≡ some d
          → is_finished heap id ≡ true
          → lookup text_discrete d.t.info_hash e'.downloads ≡ none)
      × ((j : Text)
          → ((id : ℕ) (d : Download Rate)
              → Memᴰ id ids
              → get_elem? heap id ≡ some d
              → is_finished heap id ≡ true
              → d.t.info_hash ≢ j)
          → lookup text_discrete j e'.downloads ≡ lookup text_discrete j e.downloads)

  skip-AllTurns :
      (id : ℕ) (ids : List ℕ) (e e₁ e' : Engine Rate)
      → is_finished e.heap id ≡ false
      → e₁ ≡ e
      → AllTurns e₁.heap ids e₁ e'
      → AllTurns e.heap (id ∷ ids) e e'
  skip-AllTurns id ids e e₁ e' busy unchanged turns =
      let (same, less, hit, miss) = rw (unchanged) at turns in
      (
        same,
        less,
        (λ i d m at fin. elim (Memᴰ.cases_cons m) [
          | inl here ↦ absurd (ground arith)
          | inr there ↦ hit i d there at fin
        ]),
        λ j safe. miss j (λ i d m at fin. safe i d (Memᴰ.tail m) at fin),
      )

  remove-AllTurns :
      (id : ℕ) (ids : List ℕ) (d : Download Rate) (e e₁ e' : Engine Rate)
      → get_elem? e.heap id ≡ some d
      → is_finished e.heap id ≡ true
      → Removes d.t.info_hash e e₁
      → AllTurns e₁.heap ids e₁ e'
      → AllTurns e.heap (id ∷ ids) e e'
  remove-AllTurns id ids d e e₁ e' at fin (kept, gone, others) turns =
      let (same, less, hit, miss) = rw (kept) at turns in
      (
        same,
        (λ j. elim (less j) [
          | inr none_left ↦ inr none_left
          | inl as_before ↦ elim (text_discrete d.t.info_hash j) [
            | yes p ↦ inr (as_before ∙ rw (← p) gone)
            | no ne ↦ inl (as_before ∙ others j ne)
          ]
        ]),
        (λ i x m here done. elim (Memᴰ.cases_cons m) [
          | inr there ↦ hit i x there here done
          | inl p ↦
              let one : d ≡ x = some_inj (sym at ∙ rw (← p) here) in
              elim (less x.t.info_hash) [
                | inr none_left ↦ none_left
                | inl as_before ↦ as_before ∙ rw (← one) gone
              ]
        ]),
        λ j safe.
            miss j (λ i x m here done. safe i x (Memᴰ.tail m) here done)
            ∙ others j (safe id d (Memᴰ.head refl) at fin),
      )

  prune_all-AllTurns :
      (ids : List ℕ) (e : Engine Rate) (done : List Text)
      → IsValid e
      → HexHashes e.heap
      → AllTurns e.heap ids e (prune_all rates w view ids (e, done)).0
  unfolding prune_all
  prune_all-AllTurns [] e done v hex =
      (refl, (λ j. inl refl), (λ i d m. absurd (Memᴰ.not-nil m)), λ j safe. refl)
  prune_all-AllTurns (id ∷ ids) e done v hex =
      let p = prune_one rates w view id (e, done) in
      let e' = (prune_all rates w view ids p).0 in
      elim (prune_one-OneTurn id e done v hex) [
        | inl (same, busy) ↦
            skip-AllTurns id ids e p.0 e' busy same
              (prune_all-AllTurns ids p.0 p.1 (rw (same) v) (rw (same) hex))
        | inr (d, at, fin, r, v') ↦
            remove-AllTurns id ids d e p.0 e' at fin r
              (prune_all-AllTurns ids p.0 p.1 v' (rw (r.0) hex))
      ]

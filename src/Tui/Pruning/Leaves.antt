-- ===== src/Tui/Pruning/Leaves.antt =====
-- `pruneCompleted` of internal/tui/app.go: exactly the finished downloads leave the map.
use mathlib.Core.List.Permᴰ
use mathlib.Core.List.{Memᴰ, Permᴰ}
use p2pget.Prelude.{
  ℕ, List, [], ◌∷◌, ◌≡◌, refl, sym, ap, ◌∙◌, arith, none, some, Text, if_pos, if_neg, get_elem?,
  inl, inr, lookup, text_discrete, keys, Distinct, lookup-none_iff-contains,
}
use p2pget.Download.{Download}
use p2pget.Engine.{Engine}
use p2pget.Engine.Valid.{IsValid, Entries-lookup, some_inj}
use p2pget.Engine.Listing.{values, list, added_at}
use p2pget.Tui.{Kit, Model, World}
use p2pget.Tui.Watch.{prune_completed}
use p2pget.Tui.Pruning.Done.{IsDone, IsDone-is_finished}
use p2pget.Tui.Pruning.{HexHashes, prune_all-AllTurns, mem_perm}

lookup→values :
    (m : List (Text × ℕ)) (h : Text) (id : ℕ)
    → lookup text_discrete h m ≡ some id
    → Memᴰ id (values m)
unfolding lookup
lookup→values [] h id e = absurd (ground arith)
lookup→values ((j, v) ∷ m) h id e = elim (text_discrete j h) [
  | yes p ↦
      Memᴰ.head (
        sym (some_inj (sym (if_pos (text_discrete j h) p (some v) (lookup text_discrete h m)) ∙ e)))
  | no ne ↦ Memᴰ.tail (
      lookup→values m h id
        (sym (if_neg (text_discrete j h) ne (some v) (lookup text_discrete h m)) ∙ e))
]

values→lookup :
    (m : List (Text × ℕ)) (id : ℕ)
    → Distinct text_discrete (keys text_discrete m)
    → Memᴰ id (values m)
    → (h : Text) × (lookup text_discrete h m ≡ some id)
unfolding lookup
values→lookup [] id d x = elim x [ ]
values→lookup ((j, v) ∷ m) id d (Memᴰ.head e) =
    (j, if_pos (text_discrete j j) refl (some v) (lookup text_discrete j m) ∙ ap some (sym e))
values→lookup ((j, v) ∷ m) id (fresh, d) (Memᴰ.tail there) =
    let (h, found) = values→lookup m id d there in
    elim (text_discrete j h) [
      | no ne ↦ (h, if_neg (text_discrete j h) ne (some v) (lookup text_discrete h m) ∙ found)
      | yes p ↦
          let absent = (lookup-none_iff-contains text_discrete j m).1 fresh in
          absurd (ground (arith, rw (p) at absent))
    ]

-- Two names of the map with one hash are one.
same_name :
    {R : Type 0} (e : Engine R)
    → IsValid e
    → (i id : ℕ) (x : Download R) (h : Text) → Memᴰ i (values e.downloads)
    → get_elem? e.heap i ≡ some x
    → x.t.info_hash ≡ h
    → lookup text_discrete h e.downloads ≡ some id
    → i ≡ id
same_name e v i id x h there at key here =
    let (k, found) = values→lookup e.downloads i v.distinct there in
    let (y, at', key') = Entries-lookup e.heap e.downloads k v.entries found in
    let hash : k ≡ h = sym key' ∙ ap (λ z. z.t.info_hash) (some_inj (sym at' ∙ at)) ∙ key in
    some_inj (sym (rw (hash) at found) ∙ here)

module _ {kit : Kit} (w : World) (m : Model kit) where
  -- If the engine is valid, hashes go through their hexadecimal text and back, and the sort of
  -- `List` only reorders, then a download leaves the map of the engine just if the file view does
  -- not show it, it wants at least one byte, and it has all the bytes that it wants; no other entry
  -- comes or goes, no download changes, and no file is removed.
  pub prune_completed_lem :
      IsValid m.engine
      → HexHashes kit.rates w m.file_view m.engine.heap
      → ((key : ℕ → ℕ) (ids : List ℕ) → Permᴰ ids (kit.by_key key ids))
      → let m' = prune_completed w m in
        (m'.engine.heap ≡ m.engine.heap)
        × (m'.wiped ≡ m.wiped)
        × ((h : Text)
            → lookup text_discrete h m.engine.downloads ≡ none
            → lookup text_discrete h m'.engine.downloads ≡ none)
        × ((h : Text) (id : ℕ) (d : Download kit.rates.Rate)
            → lookup text_discrete h m.engine.downloads ≡ some id
            → get_elem? m.engine.heap id ≡ some d
            → (IsDone m.file_view id d → lookup text_discrete h m'.engine.downloads ≡ none)
              × (¬ IsDone m.file_view id d → lookup text_discrete h m'.engine.downloads ≡ some id))
  unfolding prune_completed list
  prune_completed_lem v hex sorts =
      let names = values m.engine.downloads in
      let ids = kit.by_key (added_at m.engine) names in
      let perm = sorts (added_at m.engine) names in
      let (same, less, hit, miss) =
        prune_all-AllTurns kit.rates w m.file_view ids m.engine [] v hex in
      (
        same,
        refl,
        (λ h absent. elim (less h) [
          | inl as_before ↦ as_before ∙ absent
          | inr none_left ↦ none_left
        ]),
        λ h id d here at.
            let (x, at', key) = Entries-lookup m.engine.heap m.engine.downloads h v.entries here in
            let (finishes, finished) =
              IsDone-is_finished kit.rates w m.file_view m.engine.heap id d at in
            (
              (λ done.
                  let there = mem_perm perm (lookup→values m.engine.downloads h id here) in
                  rw (← key) (hit id x there at' (finishes done))),
              λ busy.
                  miss h (λ i y there here' done key'.
                    let back = mem_perm (Permᴰ.symm perm) there in
                    let same_one = same_name m.engine v i id y h back here' key' here in
                    absurd (busy (finished (rw (same_one) at done))))
                  ∙ here,
            ),
      )

-- ===== src/Engine/Members.antt =====
-- The hashes that the map of internal/engine/engine.go holds, through its calls, and what a magnet
-- says of the torrent that it gave.
pub mod Abstract
pub mod Refines
pub mod Runs
use p2pget.Prelude.{
  ℕ, zero, suc, List, [], ◌∷◌, ◌++◌, Bool, true, false, not, Option, some, none, ◌≡◌, ◌≢◌, ◌⊎◌, inl,
  inr, refl, sym, ap, arith, ◌∙◌, text_discrete, Text, Bool-cases, Option-cases, contains, keys,
  lookup, ite, get_elem?, set, contains-put, contains-delete, lookup-none_iff-contains, is_empty,
  if_pos, if_neg,
}
use p2pget.Download.{Download, Torrent}
use p2pget.Engine.{
  Engine, Client, track, healthy, find, forget, persist_state, modify, drop_torrent, re_add,
  restart_skip, new_download,
}
use p2pget.Engine.Valid.{IsValid, Entries-lookup, track_new, track_old, healthy→, some_inj}

module _ {R : Type 0} where
  abbrev pub holds : Engine R → Text → Bool
  holds e j = contains text_discrete j (keys text_discrete e.downloads)

  pub found-holds :
      (e : Engine R) (j : Text) {id : ℕ}
      → lookup text_discrete j e.downloads ≡ some id
      → holds e j ≡ true
  found-holds e j found = elim (Bool-cases (holds e j)) [
    | inl here ↦ here
    | inr absent ↦ absurd (cc ((lookup-none_iff-contains text_discrete j e.downloads).1 absent))
  ]

  pub persist_state-holds :
      (written : Bool) (e : Engine R) (j : Text) → holds (persist_state written e) j ≡ holds e j
  unfolding persist_state
  persist_state-holds written e j = ground arith

  pub modify-holds :
      (id : ℕ) (f : Download R → Download R) (e : Engine R) (j : Text)
      → holds (modify id f e) j ≡ holds e j
  unfolding modify
  modify-holds id f e j = elim (Option-cases (get_elem? e.heap id)) [
    | inl gone ↦ rw (gone, modify) refl
    | inr (d, at) ↦ rw (at, modify) refl
  ]

  pub drop_torrent-holds :
      (id : ℕ) (e : Engine R) (j : Text) → holds (drop_torrent id e) j ≡ holds e j
  unfolding drop_torrent
  drop_torrent-holds id e j = elim (Option-cases (get_elem? e.heap id)) [
    | inl gone ↦ rw (gone, drop_torrent) refl
    | inr (d, at) ↦ rw (at, drop_torrent) refl
  ]

  pub forget-holds :
      (h : Text) (d : Download R) (e : Engine R) (j : Text)
      → holds (forget h d e) j ≡ ite (text_discrete h j) false (holds e j)
  unfolding forget
  forget-holds h d e j = contains-delete text_discrete h j e.downloads

  pub track-holds :
      (still : R) (t : Torrent) (now : ℕ) (magnet : Text) (skip : List ℕ) (e : Engine R) (j : Text)
      → holds (track still t now magnet skip e).0 j
        ≡ ite (text_discrete t.info_hash j) true (holds e j)
  track-holds still t now magnet skip e j = elim (Option-cases (healthy e t.info_hash)) [
    | inl new ↦
        rw (track_new still t now magnet skip e new)
          (contains-put text_discrete t.info_hash j _ e.downloads)
    | inr (id, old) ↦ elim (text_discrete t.info_hash j) [
      | yes p ↦
          rw (track_old still t now magnet skip e old, if_pos (text_discrete t.info_hash j) p)
            (found-holds e j (
              ap (λ k. lookup text_discrete k e.downloads) (sym p)
              ∙ (healthy→ still t now magnet skip e old).0))
      | no p ↦
          rw (track_old still t now magnet skip e old, if_neg (text_discrete t.info_hash j) p) refl
    ]
  ]

-- The hash that a magnet names.
module _ {R : Type 0} (magnet_hash : Text → Text) where
  -- The magnet of a download, if it has one, names the hash of its torrent.
  abbrev pub Fits : Download R → Type 0
  Fits d = (is_empty d.magnet ≡ true) ⊎ (magnet_hash d.magnet ≡ d.t.info_hash)

  abbrev pub AllFit : List (Download R) → Type 0
  AllFit [] = Unit
  AllFit (d ∷ ds) = Fits d × AllFit ds

  AllFit-snoc :
      (ds : List (Download R)) (d : Download R) → AllFit ds → Fits d → AllFit (ds ++ d ∷ [])
  AllFit-snoc [] d h fits = (fits, tt)
  AllFit-snoc (x ∷ ds) d h fits = (h.0, AllFit-snoc ds d h.1 fits)

  AllFit-set :
      (ds : List (Download R)) (i : ℕ) (d : Download R) → AllFit ds → Fits d → AllFit (set ds i d)
  AllFit-set [] i d h fits = tt
  AllFit-set (x ∷ ds) zero d h fits = (fits, h.1)
  AllFit-set (x ∷ ds) (suc i) d h fits = (h.0, AllFit-set ds i d h.1 fits)

  pub AllFit-get :
      (ds : List (Download R)) (i : ℕ) {d : Download R}
      → AllFit ds
      → get_elem? ds i ≡ some d
      → Fits d
  AllFit-get [] i h e = cc
  AllFit-get (x ∷ ds) zero h e = let one : x ≡ _ = some_inj e in rw (← one) h.0
  AllFit-get (x ∷ ds) (suc i) h e = AllFit-get ds i h.1 e

  pub track-AllFit :
      (still : R) (t : Torrent) (now : ℕ) (magnet : Text) (skip : List ℕ) (e : Engine R)
      → (is_empty magnet ≡ true) ⊎ (magnet_hash magnet ≡ t.info_hash)
      → AllFit e.heap
      → AllFit (track still t now magnet skip e).0.heap
  track-AllFit still t now magnet skip e fits h = elim (Option-cases (healthy e t.info_hash)) [
    | inl new ↦
        rw (track_new still t now magnet skip e new) (
          AllFit-snoc e.heap (new_download still t now magnet skip) h (unfold new_download in fits))
    | inr (id, old) ↦ rw (track_old still t now magnet skip e old) h
  ]

  pub persist_state-AllFit :
      (written : Bool) (e : Engine R) → AllFit e.heap → AllFit (persist_state written e).heap
  unfolding persist_state
  persist_state-AllFit written e h = ground arith

  pub drop_torrent-AllFit :
      (id : ℕ) (e : Engine R) → AllFit e.heap → AllFit (drop_torrent id e).heap
  unfolding drop_torrent
  drop_torrent-AllFit id e h = elim (Option-cases (get_elem? e.heap id)) [
    | inl gone ↦ rw (gone, drop_torrent) h
    | inr (d, at) ↦ rw (at, drop_torrent) h
  ]

  -- A change that leaves the magnet and the hash of a download alone.
  pub modify-AllFit :
      (id : ℕ) (f : Download R → Download R) (e : Engine R)
      → ((d : Download R) → (f d).magnet ≡ d.magnet)
      → ((d : Download R) → (f d).t.info_hash ≡ d.t.info_hash)
      → AllFit e.heap
      → AllFit (modify id f e).heap
  unfolding modify
  modify-AllFit id f e magnet hash h = elim (Option-cases (get_elem? e.heap id)) [
    | inl gone ↦ rw (gone, modify) h
    | inr (d, at) ↦
        rw (at, modify)
          (AllFit-set e.heap id (f d) h (rw (magnet d, hash d) (AllFit-get e.heap id h at)))
  ]

-- ===== src/Tui/Adding/Holds.antt =====
-- What comes of adding a result that an indexer gave.
use p2pget.Prelude.{
  ℕ, List, [], ◌∷◌, Bool, true, false, if◌then◌else◌, ◌==◌, byte_len, ◌&&◌, ◌≡◌, inl, inr, refl, ap,
  ◌∙◌, arith, none, some, Text, is_empty, get_elem?, get_elem?-set_self, text_discrete, lookup,
  Bool-cases, Option-cases,
}
use p2pget.Strings.{Unicode, to_lower, trim_space, has_prefix}
use p2pget.Search.{Result}
use p2pget.Download.{Download, Torrent, set_paused, apply_locked}
use p2pget.Engine
use p2pget.Engine.{Engine, Failure, track, persist_state, modify, add_magnet, add_info_hash}
use p2pget.Engine.Valid.{IsValid, track_lem}
use p2pget.Indexers.Fetchable.{IsFetchable}
use p2pget.Tui.{World, Message, download_added, engine_error}
use p2pget.Indexers.Torznab.{is_magnet}
use p2pget.Engine.Keeps.{lt_of_get_elem?}
use p2pget.Tui.Adding.{tried, Tried, got, refused, try_add, finish_add, run_add, hash_at}

magnet-not_empty : (s : Text) → is_magnet s ≡ true → is_empty s ≡ false
unfolding has_prefix
magnet-not_empty [] h = ground arith
magnet-not_empty (c ∷ s) h = refl

-- The name that the message has for a hash.
abbrev named : Result → Text → Text
named r hash = if is_empty r.title then hash else r.title

module _ {R : Type 0} where
  -- The engine holds this download, which has not failed, under this name.
  abbrev pub HoldsDownload : Engine R → ℕ → Download R → Type 0
  HoldsDownload e id d =
      (get_elem? e.heap id ≡ some d)
      × (lookup text_discrete d.t.info_hash e.downloads ≡ some id)
      × (d.err ≡ none)

  abbrev pub Holds : Engine R → ℕ → Type 0
  Holds e id = (d : Download R) × HoldsDownload e id d

  persist_state-Holds :
      (written : Bool) (e : Engine R) (id : ℕ) → Holds e id → Holds (persist_state written e) id
  unfolding persist_state
  persist_state-Holds written e id h = elim (Bool-cases (e.persistent && written)) [
    | inl writes ↦ rw (writes, persist_state) h
    | inr stays ↦ rw (stays, persist_state) h
  ]

  -- An addition gives a download of the engine, or the engine's error and no change.
  abbrev AddsWell : Engine R → Engine R × Engine.Outcome ℕ → Type 0
  AddsWell e (e', Engine.ok id) = Holds e' id
  AddsWell e (e', Engine.failed x) = e' ≡ e

  abbrev TriesWell : Engine R → Engine R × Tried → Type 0
  TriesWell e (e', got id) = Holds e' id
  TriesWell e (e', refused x) = (e' ≡ e) × ((f : Failure) × (x ≡ engine_error f))

  module _ ⦃u : Unicode⦄ (still : R) (w : World) (e : Engine R) (v : IsValid e) where
    tracked-Holds :
        (t : Torrent) (magnet : Text) (skip : List ℕ)
        → let (e', id) = track still t w.now magnet skip e in Holds (persist_state w.written e') id
    tracked-Holds t magnet skip =
        let ((d, at, fine, same), found, others, heap, origin) =
          track_lem still t w.now magnet skip e v in
        let (e', id) = track still t w.now magnet skip e in
        persist_state-Holds w.written e' id (d, (at, rw (same) found, fine))

    add_magnet-AddsWell :
        (uri : Text) → AddsWell e (add_magnet still w.client w.now w.written uri e)
    unfolding add_magnet
    add_magnet-AddsWell uri = elim (Option-cases (w.client.add_magnet uri)) [
      | inl no_torrent ↦
          let gives : add_magnet still w.client w.now w.written uri e
              ≡ (e, Engine.failed Engine.client_refused) =
            rw (no_torrent, add_magnet) refl in
          rw (gives) refl
      | inr (t, given) ↦
          let (e', id) = track still t w.now uri [] e in
          let gives : add_magnet still w.client w.now w.written uri e
              ≡ (persist_state w.written e', Engine.ok id) =
            rw (given, add_magnet) refl in
          rw (gives) (tracked-Holds t uri [])
    ]

    add_info_hash-AddsWell :
        (text : Text) → AddsWell e (add_info_hash still w.client w.now w.written text e)
    unfolding add_info_hash
    add_info_hash-AddsWell text =
        let hex = to_lower (trim_space text) in
        elim (Bool-cases (byte_len hex == 40)) [
          | inr short ↦
              let gives : add_info_hash still w.client w.now w.written text e
                  ≡ (e, Engine.failed (Engine.bad_length (byte_len hex))) =
                rw (short, add_info_hash) refl in
              rw (gives) refl
          | inl long ↦ elim (Option-cases (w.client.from_hex hex)) [
            | inl bad ↦
                let gives : add_info_hash still w.client w.now w.written text e
                    ≡ (e, Engine.failed Engine.bad_hex) =
                  rw (long, add_info_hash) (rw (bad, add_info_hash) refl) in
                rw (gives) refl
            | inr (h, good) ↦
                let (e', id) = track still (w.client.add_info_hash h) w.now [] [] e in
                let gives : add_info_hash still w.client w.now w.written text e
                    ≡ (persist_state w.written e', Engine.ok id) =
                  rw (long, add_info_hash) (rw (good, add_info_hash) refl) in
                rw (gives) (tracked-Holds (w.client.add_info_hash h) [] [])
          ]
        ]

  AddsWell-TriesWell :
      (e : Engine R) (p : Engine R × Engine.Outcome ℕ) → AddsWell e p → TriesWell e (p.0, tried p.1)
  AddsWell-TriesWell e (e', Engine.ok id) h = h
  AddsWell-TriesWell e (e', Engine.failed x) h = (h, (x, refl))

  set_paused-keeps :
      (p : Bool) (d : Download R)
      → ((set_paused p d).t.info_hash ≡ d.t.info_hash)
        × ((set_paused p d).err ≡ d.err)
        × ((set_paused p d).paused ≡ p)
  unfolding set_paused apply_locked
  set_paused-keeps p d = ground arith

  -- A pause of a download that the engine holds.
  pause-Holds :
      (e : Engine R) (id : ℕ) (d : Download R)
      → HoldsDownload e id d
      → HoldsDownload (modify id (set_paused true) e) id (set_paused true d)
  unfolding modify
  pause-Holds e id d (at, found, fine) =
      let (same, err, held) = set_paused-keeps true d in
      rw (at, modify)
        (
          get_elem?-set_self e.heap id (set_paused true d) (lt_of_get_elem? e.heap id at),
          rw (same) found,
          err ∙ fine,
        )

  -- What the message of an addition says, against the engine that it leaves.
  abbrev pub Tells : Result → Bool → Engine R → Engine R × Message → Type 0
  Tells r held e (e', download_added name h none) =
      (id : ℕ) × (d : Download R) × HoldsDownload e' id d
      × (h ≡ held)
      × (held ≡ true → d.paused ≡ true)
      × (name ≡ (if is_empty r.title then d.t.info_hash else r.title))
  Tells r held e (e', download_added name h (some x)) =
      (e' ≡ e) × ((f : Failure) × (x ≡ engine_error f))
  Tells r held e (e', _) = ⊥

  hash_at-found :
      (e : Engine R) (id : ℕ) (d : Download R)
      → get_elem? e.heap id ≡ some d
      → hash_at e id ≡ d.t.info_hash
  unfolding hash_at
  hash_at-found e id d at = rw (at, hash_at) refl

  finish_add-Tells :
      (e : Engine R) (r : Result) (held : Bool) (p : Engine R × Tried)
      → TriesWell e p
      → Tells r held e (finish_add r held p)
  unfolding finish_add
  finish_add-Tells e r held (e', refused x) h = h
  finish_add-Tells e r true (e', got id) (d, there) =
      let (at, found, fine) = pause-Holds e' id d there in
      (
        id,
        set_paused true d,
        (at, found, fine),
        refl,
        (λ _. (set_paused-keeps true d).2),
        ap (named r) (hash_at-found (modify id (set_paused true) e') id (set_paused true d) at),
      )
  finish_add-Tells e r false (e', got id) (d, (at, found, fine)) = (
    id,
    d,
    (at, found, fine),
    refl,
    (λ wrong. absurd (ground arith)),
    ap (named r) (hash_at-found e' id d at),
  )

  module _ ⦃u : Unicode⦄ (still : R) (w : World) (e : Engine R) (v : IsValid e) where
    by_magnet : (r : Result) → is_empty r.magnet ≡ false → TriesWell e (try_add still w r e)
    unfolding try_add
    by_magnet r there =
        rw (there, try_add)
          (AddsWell-TriesWell e (add_magnet still w.client w.now w.written r.magnet e)
            (add_magnet-AddsWell still w e v r.magnet))

    by_info_hash :
        (r : Result)
        → is_empty r.magnet ≡ true
        → is_empty r.info_hash ≡ false
        → TriesWell e (try_add still w r e)
    unfolding try_add
    by_info_hash r absent there =
        rw (absent, try_add)
          (rw (there, try_add)
            (AddsWell-TriesWell e (add_info_hash still w.client w.now w.written r.info_hash e)
              (add_info_hash-AddsWell still w e v r.info_hash)))

    try_add-TriesWell : (r : Result) → IsFetchable r → TriesWell e (try_add still w r e)
    try_add-TriesWell r (inl magnet) = by_magnet r (magnet-not_empty r.magnet magnet)
    try_add-TriesWell r (inr (absent, there)) = by_info_hash r absent there

    -- A result with a magnet that is one, or with an info-hash and no magnet, is added to a valid
    -- engine, or the engine refuses it and is left as it was: the command never finds neither. The
    -- message that tells of the addition has the result's title, or the hash for a result without
    -- one; the download is in the map under its hash, has not failed, and is paused if that was
    -- asked for.
    pub run_add_lem :
        (r : Result) (held : Bool) → IsFetchable r → Tells r held e (run_add still w r held e)
    unfolding run_add
    run_add_lem r held h = finish_add-Tells e r held (try_add still w r e) (try_add-TriesWell r h)

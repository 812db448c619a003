-- ===== src/Engine/Keeps.antt =====
-- Each call of internal/engine/engine.go leaves the map of the engine valid.
use p2pget.Prelude.{
  ℕ, zero, suc, ◌<◌, List, [], ◌∷◌, Bool, true, not, Option, some, ◌≡◌, refl, sym, ap, arith, ◌∙◌,
  length, ℕ_discrete, text_discrete, Text, Bool-cases, Option-cases, inl, inr, ℤ, pos, negsuc,
  get_elem?, set, delete-Distinct, get_elem?-set_self, get_elem?-set_ne, ◌==◌, byte_len, is_empty,
}
use p2pget.Strings.{Unicode, to_lower, trim_space}
use p2pget.Download.{
  Download, File, Torrent, apply_locked, init_selection, set_err, metadata_timeout,
}
use p2pget.Engine.{
  Engine, Client, track, find, forget, persist_state, modify, await_metadata, with_info,
  drop_torrent, remove, restart, add_magnet, add_torrent, add_info_hash, Arrival, got_info, closed,
  timed_out, TaskRecord, restore_one, restore_all, restore, re_add, restart_skip,
}
use p2pget.Engine.Valid.{IsValid, Entries, Entries-delete, track-IsValid, some_inj}

module _ {R : Type 0} where
  pub persist_state-IsValid :
      (written : Bool) (e : Engine R) → IsValid e → IsValid (persist_state written e)
  unfolding persist_state
  persist_state-IsValid written e v = ground arith

  pub forget-IsValid :
      (h : Text) (d : Download R) (e : Engine R) → IsValid e → IsValid (forget h d e)
  unfolding forget
  forget-IsValid h d e v = record {
    distinct = delete-Distinct text_discrete h e.downloads v.distinct;
    entries = Entries-delete e.heap e.downloads h v.entries;
  }

  pub lt_of_get_elem? :
      (heap : List (Download R)) (id : ℕ) {d : Download R}
      → get_elem? heap id ≡ some d
      → id < length heap
  lt_of_get_elem? [] id e = cc
  lt_of_get_elem? (x ∷ heap) zero e = omega arith
  lt_of_get_elem? (x ∷ heap) (suc id) e = omega (arith, lt_of_get_elem? heap id e)

  -- A change of a download that leaves its torrent's hash alone.
  Entries-set :
      (heap : List (Download R)) (m : List (Text × ℕ)) (id : ℕ) (d d' : Download R)
      → get_elem? heap id ≡ some d
      → d'.t.info_hash ≡ d.t.info_hash
      → Entries heap m
      → Entries (set heap id d') m
  Entries-set heap [] id d d' at same h = tt
  Entries-set heap ((k, i) ∷ m) id d d' at same ((x, there, key), h) = elim (ℕ_discrete id i) [
    | yes p ↦
        let one : d ≡ x = some_inj (sym at ∙ rw p there) in
        (
          (
            d',
            rw (← p) (get_elem?-set_self heap id d' (lt_of_get_elem? heap id at)),
            same ∙ ap (λ y. y.t.info_hash) one ∙ key,
          ),
          Entries-set heap m id d d' at same h,
        )
    | no p ↦ ((x, get_elem?-set_ne heap d' p ∙ there, key), Entries-set heap m id d d' at same h)
  ]

  pub modify-IsValid :
      (id : ℕ) (f : Download R → Download R) (e : Engine R)
      → ((d : Download R) → (f d).t.info_hash ≡ d.t.info_hash)
      → IsValid e
      → IsValid (modify id f e)
  unfolding modify
  modify-IsValid id f e same v = elim (Option-cases (get_elem? e.heap id)) [
    | inl gone ↦ rw (gone, modify) v
    | inr (d, at) ↦
        rw (at, modify)
          (record {
            distinct = v.distinct;
            entries = Entries-set e.heap e.downloads id d (f d) at (same d) v.entries;
          })
  ]

  pub drop_torrent-IsValid : (id : ℕ) (e : Engine R) → IsValid e → IsValid (drop_torrent id e)
  unfolding drop_torrent
  drop_torrent-IsValid id e v = ground arith

  pub apply_locked-hash : (d : Download R) → (apply_locked d).t.info_hash ≡ d.t.info_hash
  unfolding apply_locked
  apply_locked-hash d = ground arith

  with_info-hash : (fs : List File) (d : Download R) → (with_info fs d).t.info_hash ≡ d.t.info_hash
  unfolding with_info init_selection
  with_info-hash fs d = apply_locked-hash _

  pub await_metadata-IsValid :
      (timeout : ℤ) (id : ℕ) (a : Arrival) (e : Engine R)
      → IsValid e
      → IsValid (await_metadata timeout id a e)
  unfolding await_metadata
  await_metadata-IsValid timeout id (got_info fs) e v =
      modify-IsValid id (with_info fs) e (with_info-hash fs) v
  await_metadata-IsValid timeout id closed e v = v
  await_metadata-IsValid (pos n) id timed_out e v =
      drop_torrent-IsValid id (modify id (set_err metadata_timeout) e)
        (modify-IsValid id (set_err metadata_timeout) e (λ d. unfold set_err in refl) v)
  await_metadata-IsValid (negsuc n) id timed_out e v = v

  module _ (still : R) (c : Client) (now : ℕ) (written : Bool) (e : Engine R) (v : IsValid e) where
    tracked-IsValid :
        (t : Torrent) (magnet : Text) (skip : List ℕ)
        → IsValid (persist_state written (track still t now magnet skip e).0)
    tracked-IsValid t magnet skip =
        persist_state-IsValid written _ (track-IsValid still t now magnet skip e v)

    pub add_magnet-IsValid : (uri : Text) → IsValid (add_magnet still c now written uri e).0
    unfolding add_magnet
    add_magnet-IsValid uri = elim (Option-cases (c.add_magnet uri)) [
      | inl refused ↦ rw (refused, add_magnet) v
      | inr (t, given) ↦ rw (given, add_magnet) (tracked-IsValid t uri [])
    ]

    pub add_torrent-IsValid : (hash : Text) → IsValid (add_torrent still c now written hash e).0
    unfolding add_torrent
    add_torrent-IsValid hash = elim (Option-cases (c.add_torrent hash)) [
      | inl refused ↦ rw (refused, add_torrent) v
      | inr (t, given) ↦ rw (given, add_torrent) (tracked-IsValid t [] [])
    ]

    pub add_info_hash-IsValid :
        ⦃u : Unicode⦄ (text : Text) → IsValid (add_info_hash still c now written text e).0
    unfolding add_info_hash
    add_info_hash-IsValid text =
        let hex = to_lower (trim_space text) in
        elim (Bool-cases (byte_len hex == 40)) [
          | inl long ↦ elim (Option-cases (c.from_hex hex)) [
            | inl bad ↦ rw (long, add_info_hash) (rw (bad, add_info_hash) v)
            | inr (h, good) ↦
                rw (long, add_info_hash)
                  (rw (good, add_info_hash) (tracked-IsValid (c.add_info_hash h) [] []))
          ]
          | inr short ↦ rw (short, add_info_hash) v
        ]

    pub remove-IsValid : (hash : Text) → IsValid (remove c written hash e).0
    unfolding remove
    remove-IsValid hash = elim (Option-cases (c.from_hex hash)) [
      | inl bad ↦ rw (bad, remove) v
      | inr (h, good) ↦ elim (Option-cases (find h e)) [
        | inl absent ↦ rw (good, remove) (rw (absent, remove) v)
        | inr (d, here) ↦
            rw (good, remove)
              (rw (here, remove)
                (persist_state-IsValid written (forget h d e) (forget-IsValid h d e v)))
      ]
    ]

    pub restart-IsValid : (hash : Text) → IsValid (restart still c now written hash e).0
    unfolding restart
    restart-IsValid hash = elim (Option-cases (c.from_hex hash)) [
      | inl bad ↦ rw (bad, restart) v
      | inr (h, good) ↦ elim (Option-cases (find h e)) [
        | inl absent ↦ rw (good, restart) (rw (absent, restart) v)
        | inr (d, here) ↦
            let gone = forget-IsValid h d e v in
            elim (Option-cases (re_add c h d)) [
              | inl refused ↦ rw (good, restart) (rw (here, restart) (rw (refused, restart) gone))
              | inr (t, given) ↦
                  rw (good, restart)
                    (rw (here, restart)
                      (rw (given, restart)
                        (persist_state-IsValid written _ (
                          track-IsValid still t now d.magnet (restart_skip d) (forget h d e)
                            gone))))
            ]
      ]
    ]

    pub restore_one-IsValid : ⦃u : Unicode⦄ (r : TaskRecord) → IsValid (restore_one still c now r e)
    unfolding restore_one
    restore_one-IsValid r = elim (Bool-cases (not (is_empty r.magnet))) [
      | inl magnet ↦ elim (Option-cases (c.add_magnet r.magnet)) [
        | inl refused ↦ rw (magnet, restore_one) (rw (refused, restore_one) v)
        | inr (t, given) ↦
            rw (magnet, restore_one)
              (rw (given, restore_one) (track-IsValid still t now r.magnet r.skip e v))
      ]
      | inr hash_only ↦ elim (Bool-cases (byte_len r.info_hash == 40)) [
        | inl long ↦ elim (Option-cases (c.from_hex (to_lower r.info_hash))) [
          | inl bad ↦ rw (hash_only, restore_one) (rw (long, restore_one) (rw (bad, restore_one) v))
          | inr (h, good) ↦
              rw (hash_only, restore_one)
                (rw (long, restore_one)
                  (rw (good, restore_one)
                    (track-IsValid still (c.add_info_hash h) now [] r.skip e v)))
        ]
        | inr short ↦ rw (hash_only, restore_one) (rw (short, restore_one) v)
      ]
    ]

  pub restore_all-IsValid :
      ⦃u : Unicode⦄ (still : R) (c : Client) (now : ℕ) (rs : List TaskRecord) (e : Engine R)
      → IsValid e
      → IsValid (restore_all still c now rs e)
  unfolding restore_all
  restore_all-IsValid still c now [] e v = v
  restore_all-IsValid still c now (r ∷ rs) e v =
      restore_all-IsValid still c now rs (restore_one still c now r e)
        (restore_one-IsValid still c now true e v r)

  pub restore-IsValid :
      ⦃u : Unicode⦄ (still : R) (c : Client) (now : ℕ) (e : Engine R)
      → IsValid e
      → IsValid (restore still c now e)
  unfolding restore
  restore-IsValid still c now e v = elim (Option-cases e.state_file) [
    | inl fresh ↦ rw (fresh, restore) v
    | inr (rs, saved) ↦ rw (saved, restore) (restore_all-IsValid still c now rs e v)
  ]

  -- The engine of `New`: nothing on the heap, before `restore`.
  unfoldable pub empty_engine : Bool → Option (List TaskRecord) → Engine R
  empty_engine persistent file = record {
    heap = [];
    downloads = [];
    dropped = [];
    persistent = persistent;
    state_file = file;
  }

  pub empty_engine-IsValid : (p : Bool) (f : Option (List TaskRecord)) → IsValid (empty_engine p f)
  unfolding empty_engine
  empty_engine-IsValid p f = record { distinct = tt; entries = tt }

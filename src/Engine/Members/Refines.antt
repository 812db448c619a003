-- ===== src/Engine/Members/Refines.antt =====
-- Each call of internal/engine/engine.go against its effect on a set of hashes.
use p2pget.Prelude.{
  ℕ, List, [], Bool, true, false, ◌==◌, some, none, ◌≡◌, ◌⊎◌, inl, inr, refl, sym, ap, arith, ◌∙◌,
  text_discrete, Text, Bool-cases, Option-cases, lookup, ite, get_elem?, byte_len,
  lookup-none_iff-contains, is_empty, if_pos, if_neg,
}
use p2pget.Strings.{Unicode, to_lower, trim_space}
use p2pget.Download.{Download, Torrent}
use p2pget.Engine.{
  Engine, Client, persist_state, modify, remove, restart, restart_skip, re_add, find, forget, track,
  add_magnet, add_torrent, add_info_hash,
}
use p2pget.Engine.Valid.{IsValid, Entries-lookup, some_inj}
use p2pget.Engine.Steps.{adds_magnet, adds_info_hash}
use p2pget.Engine.Members.Abstract.{
  Hashes, with_hash, without_hash, with_given, without_named, abstract_step, TakesBack, IsFair,
}
use p2pget.Engine.Members.{
  holds, found-holds, persist_state-holds, modify-holds, forget-holds, track-holds, AllFit, Fits,
  AllFit-get, track-AllFit, persist_state-AllFit, modify-AllFit,
}

-- What was there is there when it is taken out and put back.
put_back :
    (h j : Text) (b : Bool)
    → (h ≡ j → b ≡ true)
    → ite (text_discrete h j) true (ite (text_discrete h j) false b) ≡ b
put_back h j b there = elim (text_discrete h j) [
  | yes p ↦ if_pos (text_discrete h j) p _ _ ∙ sym (there p)
  | no p ↦ if_neg (text_discrete h j) p _ _ ∙ if_neg (text_discrete h j) p _ _
]

taken_out : (k j : Text) (s : Hashes) → s k ≡ false → s j ≡ without_hash k s j
taken_out k j s out = elim (text_discrete k j) [
  | yes p ↦ ap s (sym p) ∙ out ∙ sym (if_pos (text_discrete k j) p _ _)
  | no p ↦ sym (if_neg (text_discrete k j) p _ _)
]

module _ (magnet_hash : Text → Text) where
  module _ {R : Type 0} where
    names_own :
        (d : Download R)
        → is_empty d.magnet ≡ false
        → Fits magnet_hash d
        → magnet_hash d.magnet ≡ d.t.info_hash
    names_own d named (inl blank) = absurd (cc)
    names_own d named (inr own) = own

    re_add-TakesBack :
        (c : Client) (h : Text) (d : Download R)
        → TakesBack magnet_hash c
        → Fits magnet_hash d
        → d.t.info_hash ≡ h
        → (t : Torrent) × (re_add c h d ≡ some t) × (t.info_hash ≡ h)
    unfolding re_add
    re_add-TakesBack c h d takes fits here = elim (Option-cases d.t.files) [
      | inr (fs, known) ↦
          let (t, given, same) = takes.metainfo h in (t, rw (known, re_add) given, same)
      | inl unknown ↦ elim (Bool-cases (is_empty d.magnet)) [
        | inl blank ↦
            (c.add_info_hash h, rw (unknown, re_add) (rw (blank, re_add) refl), takes.hash h)
        | inr named ↦
            let (t, given, same) = takes.magnet d.magnet named in
            (
              t,
              rw (unknown, re_add) (rw (named, re_add) given),
              same ∙ names_own d named fits ∙ here,
            )
      ]
    ]

    find→ :
        (h : Text) (e : Engine R) {d : Download R}
        → find h e ≡ some d
        → (id : ℕ) × (lookup text_discrete h e.downloads ≡ some id) × (get_elem? e.heap id ≡ some d)
    unfolding find
    find→ h e found = elim (Option-cases (lookup text_discrete h e.downloads)) [
      | inl absent ↦ absurd (ground arith)
      | inr (id, at) ↦ (id, at, ground arith)
    ]

    -- The hashes that an engine holds, and that its magnets name their hashes.
    pub record Holds (s : Hashes) (e : Engine R) : Type 0 where
      pub same : (j : Text) → holds e j ≡ s j
      pub fits : AllFit magnet_hash e.heap

    tracked :
        (still : R) (t : Torrent) (now : ℕ) (written : Bool) (magnet : Text) (skip : List ℕ)
        (e : Engine R) (s : Hashes)
        → (is_empty magnet ≡ true) ⊎ (magnet_hash magnet ≡ t.info_hash)
        → Holds s e
        → Holds
            (with_hash t.info_hash s)
            (persist_state written (track still t now magnet skip e).0)
    tracked still t now written magnet skip e s names h =
        let e' : Engine R = (track still t now magnet skip e).0 in
        record {
          same = λ j.
              persist_state-holds written e' j
              ∙ track-holds still t now magnet skip e j
              ∙ ap (λ b. ite (text_discrete t.info_hash j) true b) (h.same j);
          fits =
              persist_state-AllFit magnet_hash written e'
                (track-AllFit magnet_hash still t now magnet skip e names h.fits);
        }

    Holds-as : (s s' : Hashes) (e : Engine R) → Holds s e → ((j : Text) → s j ≡ s' j) → Holds s' e
    Holds-as s s' e h agree = record { same = λ j. h.same j ∙ agree j; fits = h.fits }

    not_found : (k : Text) (e : Engine R) → IsValid e → find k e ≡ none → holds e k ≡ false
    unfolding find
    not_found k e v absent = elim (Option-cases (lookup text_discrete k e.downloads)) [
      | inl out ↦ (lookup-none_iff-contains text_discrete k e.downloads).0 out
      | inr (id, listed) ↦
          let (d, at, own) = Entries-lookup e.heap e.downloads k v.entries listed in
          absurd (ground arith)
    ]

    pub modified :
        (e : Engine R) (s : Hashes) (id : ℕ) (f : Download R → Download R)
        → Holds s e
        → ((d : Download R) → (f d).magnet ≡ d.magnet)
        → ((d : Download R) → (f d).t.info_hash ≡ d.t.info_hash)
        → Holds s (modify id f e)
    modified e s id f h magnet hash = record {
      same = λ j. modify-holds id f e j ∙ h.same j;
      fits = modify-AllFit magnet_hash id f e magnet hash h.fits;
    }

    module _ (still : R) (now : ℕ) (written : Bool) (e : Engine R) (s : Hashes)
        (h : Holds s e) where
      pub add_magnet-Holds :
          (c : Client) (uri : Text)
          → IsFair magnet_hash (adds_magnet c now written uri)
          → Holds (with_given (c.add_magnet uri) s) (add_magnet still c now written uri e).0
      unfolding add_magnet
      add_magnet-Holds c uri fair = elim (Option-cases (c.add_magnet uri)) [
        | inl bad ↦ rw (bad, add_magnet) h
        | inr (t, given) ↦
            rw (given, add_magnet) (tracked still t now written uri [] e s (inr (fair t given)) h)
      ]

      pub add_torrent-Holds :
          (c : Client) (hash : Text)
          → Holds (with_given (c.add_torrent hash) s) (add_torrent still c now written hash e).0
      unfolding add_torrent
      add_torrent-Holds c hash = elim (Option-cases (c.add_torrent hash)) [
        | inl bad ↦ rw (bad, add_torrent) h
        | inr (t, given) ↦
            rw (given, add_torrent) (tracked still t now written [] [] e s (inl refl) h)
      ]

      pub add_info_hash-Holds :
          ⦃u : Unicode⦄ (c : Client) (text : Text)
          → Holds
              (abstract_step s (adds_info_hash c now written text))
              (add_info_hash still c now written text e).0
      unfolding add_info_hash abstract_step
      add_info_hash-Holds c text =
          let hex = to_lower (trim_space text) in
          elim (Bool-cases (byte_len hex == 40)) [
            | inr short ↦ rw (short, add_info_hash, abstract_step) h
            | inl long ↦ elim (Option-cases (c.from_hex hex)) [
              | inl bad ↦
                  rw (long, add_info_hash, abstract_step) (rw (bad, add_info_hash, abstract_step) h)
              | inr (k, good) ↦
                  rw (long, add_info_hash, abstract_step)
                    (rw (good, add_info_hash, abstract_step)
                      (tracked still (c.add_info_hash k) now written [] [] e s (inl refl) h))
            ]
          ]

      forgotten : (k : Text) (d : Download R) → Holds (without_hash k s) (forget k d e)
      forgotten k d = record {
        same = λ j. forget-holds k d e j ∙ ap (λ b. ite (text_discrete k j) false b) (h.same j);
        fits = unfold forget in h.fits;
      }

      pub remove-Holds :
          IsValid e
          → (c : Client) (hash : Text)
          → Holds (without_named (c.from_hex hash) s) (remove c written hash e).0
      unfolding remove
      remove-Holds v c hash = elim (Option-cases (c.from_hex hash)) [
        | inl bad ↦ rw (bad, remove) h
        | inr (k, good) ↦ elim (Option-cases (find k e)) [
          | inl absent ↦
              rw (good, remove)
                (rw (absent, remove)
                  (Holds-as s (without_hash k s) e h
                    (λ j. taken_out k j s (sym (h.same k) ∙ not_found k e v absent))))
          | inr (d, here) ↦
              rw (good, remove)
                (rw (here, remove)
                  (record {
                    same =
                        λ j. persist_state-holds written (forget k d e) j ∙ (forgotten k d).same j;
                    fits =
                        persist_state-AllFit magnet_hash written (forget k d e)
                          (forgotten k d).fits;
                  }))
        ]
      ]

      restarted :
          IsValid e
          → (c : Client) (k : Text) (d : Download R) (t : Torrent) → {id : ℕ}
          → lookup text_discrete k e.downloads ≡ some id
          → Fits magnet_hash d
          → d.t.info_hash ≡ k
          → t.info_hash ≡ k
          → Holds s
              (persist_state written (track still t now d.magnet (restart_skip d) (forget k d e)).0)
      restarted v c k d t listed fits own given =
          let names : (is_empty d.magnet ≡ true) ⊎ (magnet_hash d.magnet ≡ t.info_hash) =
            rw (given, ← own) fits in
          Holds-as (with_hash t.info_hash (without_hash k s)) s
            (persist_state written (track still t now d.magnet (restart_skip d) (forget k d e)).0)
            (tracked still t now written d.magnet (restart_skip d) (forget k d e) (without_hash k s)
              names (forgotten k d))
            (λ j.
              ap (λ x. with_hash x (without_hash k s) j) given
              ∙ put_back k j (s j) (λ p. ap s (sym p) ∙ sym (h.same k) ∙ found-holds e k listed))

      pub restart-Holds :
          (v : IsValid e) (c : Client) (hash : Text)
          → TakesBack magnet_hash c
          → Holds s (restart still c now written hash e).0
      unfolding restart
      restart-Holds v c hash takes = elim (Option-cases (c.from_hex hash)) [
        | inl bad ↦ rw (bad, restart) h
        | inr (k, good) ↦ elim (Option-cases (find k e)) [
          | inl absent ↦ rw (good, restart) (rw (absent, restart) h)
          | inr (d, here) ↦
              let (id, listed, at) = find→ k e here in
              let (d', at', own') = Entries-lookup e.heap e.downloads k v.entries listed in
              let one : d' ≡ d = some_inj (sym at' ∙ at) in
              let own : d.t.info_hash ≡ k =
                ap (λ (x : Download R). x.t.info_hash) (sym one) ∙ own' in
              let fits : Fits magnet_hash d = AllFit-get magnet_hash e.heap id h.fits at in
              let (t, given, back) = re_add-TakesBack c k d takes fits own in
              rw (good, restart)
                (rw (here, restart)
                  (rw (given, restart) (restarted v c k d t listed fits own back)))
        ]
      ]

-- ===== src/Engine/Restore.antt =====
-- `restore` of internal/engine/engine.go on records that the client knows.
use p2pget.Prelude.{
  ℕ, List, [], ◌∷◌, ◌++◌, Bool, true, false, Option, none, some, ◌≡◌, refl, sym, arith, ◌∙◌, length,
  contains, text_discrete, Text, Option-cases, inl, inr, byte_len, ◌==◌, get_elem?, lookup, put,
  Distinct, ◌≢◌, lookup-put_self,
}
use p2pget.Strings.{Unicode, to_lower}
use p2pget.Download.{Download, Torrent}
use p2pget.Engine.{
  Engine, Client, TaskRecord, track, find, restore_one, restore_all, healthy, new_download,
}
use p2pget.Engine.Valid.{IsValid, Entries-lookup, track_new, track_lem, get_elem?-last}
use p2pget.Engine.Keeps.{empty_engine, restore_one-IsValid}

abbrev pub hashes : List TaskRecord → List Text
hashes [] = []
hashes (r ∷ rs) = r.info_hash ∷ hashes rs

module _ {R : Type 0} where
  -- The engine has a download for the record, with its magnet and its skipped files.
  abbrev pub Restored : Text → Text → List ℕ → Engine R → Type 0
  Restored hash magnet skip e =
      (d : Download R) × (find hash e ≡ some d) × (d.magnet ≡ magnet) × (d.skip ≡ skip)

  abbrev pub AllRestored : List TaskRecord → Engine R → Type 0
  AllRestored [] e = Unit
  AllRestored (r ∷ rs) e = Restored r.info_hash r.magnet r.skip e × AllRestored rs e

  abbrev pub AllAbsent : List TaskRecord → Engine R → Type 0
  AllAbsent [] e = Unit
  AllAbsent (r ∷ rs) e = (find r.info_hash e ≡ none) × AllAbsent rs e

  pub find_at :
      (h : Text) (e : Engine R) {id : ℕ} {o : Option (Download R)}
      → lookup text_discrete h e.downloads ≡ some id
      → get_elem? e.heap id ≡ o
      → find h e ≡ o
  unfolding find
  find_at h e found at = rw (found, find) at

  pub find_absent :
      (h : Text) (e : Engine R) → lookup text_discrete h e.downloads ≡ none → find h e ≡ none
  unfolding find
  find_absent h e none_there = rw (none_there, find)

  unhealthy : (h : Text) (e : Engine R) → find h e ≡ none → healthy e h ≡ none
  unfolding find healthy
  unhealthy h e gone = ground arith

module _ ⦃u : Unicode⦄ where
  -- The client gives for a saved record a torrent of its hash.
  abbrev pub Known : Client → Text → Text → Type 0
  Known c hash [] =
      ((byte_len hash == 40) ≡ true)
      × ((h : Text) × (c.from_hex (to_lower hash) ≡ some h)
          × ((c.add_info_hash h).info_hash ≡ hash))
  Known c hash (m ∷ magnet) =
      (t : Torrent) × (c.add_magnet (m ∷ magnet) ≡ some t) × (t.info_hash ≡ hash)

  abbrev pub AllKnown : Client → List TaskRecord → Type 0
  AllKnown c [] = Unit
  AllKnown c (r ∷ rs) = Known c r.info_hash r.magnet × AllKnown c rs

  module _ {R : Type 0} (still : R) (c : Client) (now : ℕ) where
    track_absent :
        (t : Torrent) (magnet : Text) (skip : List ℕ) (e : Engine R)
        → find t.info_hash e ≡ none
        → Restored t.info_hash magnet skip (track still t now magnet skip e).0
    track_absent t magnet skip e h =
        let d = new_download still t now magnet skip in
        rw (track_new still t now magnet skip e (unhealthy t.info_hash e h)) (
          d,
          find_at t.info_hash
              (record e {
                heap = e.heap ++ d ∷ [];
                downloads = put text_discrete t.info_hash (length e.heap) e.downloads;
              })
              (lookup-put_self text_discrete t.info_hash (length e.heap) e.downloads)
              (get_elem?-last e.heap d),
          unfold new_download in refl,
          unfold new_download in refl,
        )

    track_other :
        (t : Torrent) (magnet : Text) (skip : List ℕ) (e : Engine R) (j : Text)
        → t.info_hash ≢ j
        → IsValid e
        → find j (track still t now magnet skip e).0 ≡ find j e
    track_other t magnet skip e j ne v =
        let after = track_lem still t now magnet skip e v in
        let e' = (track still t now magnet skip e).0 in
        elim (Option-cases (lookup text_discrete j e.downloads)) [
          | inl absent ↦ find_absent j e' (after.2 j ne ∙ absent) ∙ sym (find_absent j e absent)
          | inr (i, found) ↦
              let (d, at, same) = Entries-lookup e.heap e.downloads j v.entries found in
              find_at j e' (after.2 j ne ∙ found) (after.3 i d at) ∙ sym (find_at j e found at)
        ]

    restore_one-Known :
        (hash magnet : Text) (skip : List ℕ) (e : Engine R)
        → Known c hash magnet
        → (t : Torrent) × (t.info_hash ≡ hash)
          × (restore_one still c now (record { info_hash = hash; magnet = magnet; skip = skip }) e
              ≡ (track still t now magnet skip e).0)
    unfolding restore_one
    restore_one-Known hash [] skip e (long, (h, good, same)) =
        (c.add_info_hash h, same, rw long (rw good refl))
    restore_one-Known hash (m ∷ magnet) skip e (t, given, same) = (t, same, rw given refl)

    restore_one_other :
        (r : TaskRecord) (e : Engine R) (j : Text)
        → Known c r.info_hash r.magnet
        → r.info_hash ≢ j
        → IsValid e
        → find j (restore_one still c now r e) ≡ find j e
    restore_one_other r e j k ne v =
        let (t, same, made) = restore_one-Known r.info_hash r.magnet r.skip e k in
        rw made (track_other t r.magnet r.skip e j (λ p. ne (sym same ∙ p)) v)

    restore_one_absent :
        (r : TaskRecord) (e : Engine R)
        → Known c r.info_hash r.magnet
        → find r.info_hash e ≡ none
        → Restored r.info_hash r.magnet r.skip (restore_one still c now r e)
    restore_one_absent r e k gone =
        let (t, same, made) = restore_one-Known r.info_hash r.magnet r.skip e k in
        let (d, there, m, s) = track_absent t r.magnet r.skip e (rw same gone) in
        rw made (d, rw (← same) there, m, s)

    absent_after :
        (r : TaskRecord) (rs : List TaskRecord) (e : Engine R)
        → Known c r.info_hash r.magnet
        → IsValid e
        → contains text_discrete r.info_hash (hashes rs) ≡ false
        → AllAbsent rs e
        → AllAbsent rs (restore_one still c now r e)
    unfolding contains
    absent_after r [] e k v h a = tt
    absent_after r (s ∷ rs) e k v h a = elim (text_discrete s.info_hash r.info_hash) [
      | yes p ↦ absurd (ground arith)
      | no p ↦ (
        restore_one_other r e s.info_hash k (λ q. p (sym q)) v ∙ a.0,
        absent_after r rs e k v (ground arith) a.1,
      )
    ]

    pub restore_all_other :
        (rs : List TaskRecord) (e : Engine R) (j : Text)
        → AllKnown c rs
        → IsValid e
        → contains text_discrete j (hashes rs) ≡ false
        → find j (restore_all still c now rs e) ≡ find j e
    unfolding restore_all contains
    restore_all_other [] e j k v h = refl
    restore_all_other (r ∷ rs) e j k v h = elim (text_discrete r.info_hash j) [
      | yes p ↦ absurd (ground arith)
      | no p ↦
          restore_all_other rs (restore_one still c now r e) j k.1
            (restore_one-IsValid still c now true e v r) (ground arith)
          ∙ restore_one_other r e j k.0 p v
    ]

    -- Records of distinct hashes that the engine does not have are all restored.
    pub restore_all_known :
        (rs : List TaskRecord) (e : Engine R)
        → AllKnown c rs
        → IsValid e
        → Distinct text_discrete (hashes rs)
        → AllAbsent rs e
        → AllRestored rs (restore_all still c now rs e)
    unfolding restore_all
    restore_all_known [] e k v d a = tt
    restore_all_known (r ∷ rs) e k v d a =
        let e' = restore_one still c now r e in
        let v' = restore_one-IsValid still c now true e v r in
        let (x, there, m, s) = restore_one_absent r e k.0 a.0 in
        (
          (x, restore_all_other rs e' r.info_hash k.1 v' d.0 ∙ there, m, s),
          restore_all_known rs e' k.1 v' d.1 (absent_after r rs e k.0 v d.0 a.1),
        )

    pub all_absent :
        (rs : List TaskRecord) (p : Bool) (f : Option (List TaskRecord))
        → AllAbsent {R = R} rs (empty_engine p f)
    all_absent [] p f = tt
    all_absent (r ∷ rs) p f = (
      find_absent r.info_hash (empty_engine p f) (unfold lookup empty_engine in refl),
      all_absent rs p f,
    )

-- ===== src/Engine/Persist.antt =====
-- `persistState` and `restore` of internal/engine/engine.go: what a restart of the program keeps.
use p2pget.Prelude.{
  ℕ, List, [], ◌∷◌, true, none, some, ◌≡◌, refl, sym, ap₂, arith, ◌∙◌, text_discrete, Text,
  Option-cases, inl, inr, get_elem?, lookup, keys, lookup-none_iff-contains,
}
use p2pget.Strings.{Unicode}
use p2pget.Download.{Download, files}
use p2pget.Engine.{
  Engine, Client, find, persist_state, restore_all, restore, collect, task_record, task_records,
  skipped_files,
}
use p2pget.Engine.Valid.{IsValid, Entries, Entries-lookup, some_inj}
use p2pget.Engine.Restore.{
  AllKnown, AllRestored, Restored, hashes, restore_all_known, restore_all_other, all_absent,
  find_absent, find_at,
}
use p2pget.Engine.Keeps.{empty_engine, empty_engine-IsValid}

no_value : {A : Type 0} {x : A} → some x ≡ none → ⊥
no_value h = cc

module _ {R : Type 0} where
  -- The records of a valid engine have the hashes of its map.
  hashes-task_records :
      (heap : List (Download R)) (m : List (Text × ℕ))
      → Entries heap m
      → hashes (task_records (collect heap m)) ≡ keys text_discrete m
  unfolding collect task_records
  hashes-task_records heap [] h = refl
  hashes-task_records heap ((k, id) ∷ m) ((d, at, same), h) =
      rw (at, collect) (ap₂ ◌∷◌ same (hashes-task_records heap m h))

  records-cons :
      (heap : List (Download R)) (k : Text) (i : ℕ) (m : List (Text × ℕ)) {x : Download R}
      → get_elem? heap i ≡ some x
      → task_records (collect heap ((k, i) ∷ m)) ≡ task_record x ∷ task_records (collect heap m)
  unfolding collect task_records
  records-cons heap k i m there = rw (there, collect)

  -- What is restored for the record of a download that the map names.
  entry-Restored :
      (heap : List (Download R)) (m : List (Text × ℕ)) (e : Engine R) (h : Text) {id : ℕ}
      {d : Download R}
      → Entries heap m
      → AllRestored (task_records (collect heap m)) e
      → lookup text_discrete h m ≡ some id
      → get_elem? heap id ≡ some d
      → Restored h d.magnet (task_record d).skip e
  unfolding task_record lookup
  entry-Restored heap [] e h ent all found at = cc
  entry-Restored heap ((k, i) ∷ m) e h {id} {d} ((x, there, same), ent) all found at =
      let (mine, others) = rw (records-cons heap k i m there) at all in
      elim (text_discrete k h) [
        | yes p ↦
            let here : i ≡ id = ground arith in
            let one : x ≡ d = some_inj (sym there ∙ rw here at) in rw (← p, ← same, ← one) mine
        | no p ↦ entry-Restored heap m e h ent others (ground arith) at
      ]

  saved :
      (e : Engine R)
      → e.persistent ≡ true
      → (persist_state true e).state_file ≡ some (task_records (collect e.heap e.downloads))
  unfolding persist_state
  saved e p = rw p

  lookup→find :
      (h : Text) (e : Engine R) {d : Download R}
      → find h e ≡ some d
      → (id : ℕ) × (lookup text_discrete h e.downloads ≡ some id) × (get_elem? e.heap id ≡ some d)
  unfolding find
  lookup→find h e there = elim (Option-cases (lookup text_discrete h e.downloads)) [
    | inl gone ↦ absurd (ground arith)
    | inr (id, found) ↦ (id, found, ground arith)
  ]

  lookup-none_of_find :
      (h : Text) (e : Engine R)
      → IsValid e
      → find h e ≡ none
      → lookup text_discrete h e.downloads ≡ none
  lookup-none_of_find h e v gone = elim (Option-cases (lookup text_discrete h e.downloads)) [
    | inl absent ↦ absent
    | inr (id, found) ↦
        let (d, at, same) = Entries-lookup e.heap e.downloads h v.entries found in
        absurd (no_value (sym (find_at h e found at) ∙ gone))
  ]

module _ ⦃u : Unicode⦄ {R : Type 0} (still : R) (c : Client) (now : ℕ) where
  restored_engine_lem :
      (e : Engine R)
      → e.persistent ≡ true
      → restore still c now (empty_engine true (persist_state true e).state_file)
        ≡ restore_all still c now
            (task_records (collect e.heap e.downloads))
            (empty_engine true (some (task_records (collect e.heap e.downloads))))
  unfolding restore empty_engine
  restored_engine_lem e p = rw (saved e p)

  -- Saving a valid engine that has a state file, and opening the program on that file, gives a
  -- download for exactly the hashes of the engine, each with its magnet, if the client knows the
  -- saved records. If the metadata of a download was there, the restored one skips the files that
  -- were not wanted; if it was not, the restored one skips none, whatever it was to skip.
  pub restore-persist_state :
      (e : Engine R) (h : Text)
      → IsValid e
      → e.persistent ≡ true
      → AllKnown c (task_records (collect e.heap e.downloads))
      → let e' = restore still c now (empty_engine true (persist_state true e).state_file) in
        ((d : Download R)
          → find h e ≡ some d
          → (d' : Download R) × (find h e' ≡ some d')
            × (d'.magnet ≡ d.magnet)
            × (d'.skip ≡ skipped_files (files d))
            × (d.t.files ≡ none → d'.skip ≡ []))
        × (find h e ≡ none → find h e' ≡ none)
  restore-persist_state e h v p k =
      let rs = task_records (collect e.heap e.downloads) in
      let start = empty_engine true (some rs) in
      let named = hashes-task_records e.heap e.downloads v.entries in
      let start_valid = empty_engine-IsValid true (some rs) in
      rw (restored_engine_lem e p) (
        (λ d there.
            let (id, found, at) = lookup→find h e there in
            let all =
              restore_all_known still c now rs start k start_valid (rw named v.distinct)
                (all_absent still c now rs true (some rs)) in
            let (d', there', m, s) =
              entry-Restored e.heap e.downloads (restore_all still c now rs start) h v.entries all
                found at in
            let skips : d'.skip ≡ skipped_files (files d) = unfold task_record in s in
            (d', there', m, skips, λ unknown. skips ∙ unfold files in (rw (unknown) refl))),
        λ gone.
            restore_all_other still c now rs start h k start_valid (
              rw named (
                (lookup-none_iff-contains text_discrete h e.downloads).0
                  (lookup-none_of_find h e v gone)))
            ∙ find_absent h start (unfold lookup empty_engine in refl),
      )

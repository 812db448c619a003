-- ===== src/Tests/Engines.antt =====
-- An engine with one download, for internal/engine/engine.go.
use p2pget.Prelude.{
  ap, ℕ, List, [], ◌∷◌, ◌≡◌, ◌≢◌, ◌⊎◌, true, false, none, some, ℤ, pos, length, Text, codes, refl,
  text_discrete, lookup, get_elem?, contains,
}
use p2pget.Download.{Download, Torrent, files}
use p2pget.Engine.{
  Client, Engine, track, healthy, find, restore, persist_state, task_record, task_records, collect,
  skipped_files, timed_out,
}
use p2pget.Engine.Valid.{IsValid, track_lem, some_inj}
use p2pget.Engine.Keeps.{empty_engine}
use p2pget.Engine.Restore.{AllKnown}
use p2pget.Engine.Persist.{restore-persist_state}
use p2pget.Engine.Steps.{
  Call, run, run-IsValid, adds_magnet, adds_torrent, removes, restarts, arrives, wants, closes,
}
use p2pget.Engine.Members.{holds}
use p2pget.Engine.Members.Abstract.{TakesBack, abstract_run}
use p2pget.Engine.Members.Runs.{run-abstract_run}
use p2pget.Tests.{ascii_only}
use p2pget.Tests.Downloads.{byte_rates, running, torrent}

-- A client that knows one torrent.
abbrev pub one_torrent : Client
one_torrent = record {
  from_hex = λ h. some h;
  add_magnet = λ m. some torrent;
  add_info_hash = λ h. record torrent { info_hash = h };
  add_torrent = λ h. some torrent;
}

abbrev pub opened : Engine ℤ
opened = record {
  heap = running ∷ [];
  downloads = (codes "abc", 0) ∷ [];
  dropped = [];
  persistent = true;
  state_file = none;
}

pub opened-IsValid : IsValid opened
unfolding contains
opened-IsValid = record { distinct = (refl, tt); entries = ((running, refl, refl), tt) }

opened-AllKnown : AllKnown one_torrent (task_records (collect opened.heap opened.downloads))
unfolding collect task_records task_record
opened-AllKnown = ((torrent, refl, refl), tt)

track_lem_example :
    let (e', id) = track (pos 0) torrent 7 [] [] opened in
    ((d : Download ℤ) × (get_elem? e'.heap id ≡ some d)
      × (d.err ≡ none)
      × (d.t.info_hash ≡ torrent.info_hash))
    × (lookup text_discrete torrent.info_hash e'.downloads ≡ some id)
    × ((j : Text)
        → torrent.info_hash ≢ j
        → lookup text_discrete j e'.downloads ≡ lookup text_discrete j opened.downloads)
    × ((i : ℕ) (d : Download ℤ) → get_elem? opened.heap i ≡ some d → get_elem? e'.heap i ≡ some d)
    × ((healthy opened torrent.info_hash ≡ some id × (e' ≡ opened))
        ⊎ ((healthy opened torrent.info_hash ≡ none) × (id ≡ length opened.heap)))
track_lem_example = track_lem (pos 0) torrent 7 [] [] opened opened-IsValid

abbrev calls : List Call
calls =
    adds_magnet one_torrent 3 true (codes "magnet:")
    ∷ wants 0 (pos 1) true
    ∷ arrives (pos 5) 0 timed_out
    ∷ restarts one_torrent 4 true (codes "abc")
    ∷ removes one_torrent false (codes "abc")
    ∷ closes true
    ∷ []

run-IsValid_example :
    IsValid (run byte_rates (restore (pos 0) one_torrent 1 (empty_engine true none)) calls)
run-IsValid_example = run-IsValid byte_rates true none one_torrent 1 calls

restore-persist_state_example :
    let e' =
      restore (pos 0) one_torrent 9 (empty_engine true (persist_state true opened).state_file) in
    ((d : Download ℤ)
      → find (codes "abc") opened ≡ some d
      → (d' : Download ℤ) × (find (codes "abc") e' ≡ some d')
        × (d'.magnet ≡ d.magnet)
        × (d'.skip ≡ skipped_files (files d))
        × (d.t.files ≡ none → d'.skip ≡ []))
    × (find (codes "abc") opened ≡ none → find (codes "abc") e' ≡ none)
restore-persist_state_example =
    restore-persist_state (pos 0) one_torrent 9 opened (codes "abc") opened-IsValid refl
      opened-AllKnown

-- A client that has every torrent, and one magnet.
abbrev willing : Client
willing = record one_torrent { add_torrent = λ h. some (record torrent { info_hash = h }) }

abbrev abc : Text → Text
abc m = codes "abc"

willing-TakesBack : TakesBack abc willing
willing-TakesBack = record {
  metainfo = λ h. (record torrent { info_hash = h }, refl, refl);
  hash = λ h. refl;
  magnet = λ m named. (torrent, refl, refl);
}

abbrev busy : List Call
busy =
    adds_magnet willing 1 true (codes "magnet:?xt=urn:btih:abc")
    ∷ restarts willing 2 true (codes "abc")
    ∷ wants 1 (pos 0) false
    ∷ adds_torrent willing 3 false (codes "def")
    ∷ removes willing true (codes "abc")
    ∷ closes true
    ∷ []

run-abstract_run_example :
    holds (run byte_rates (empty_engine true none) busy) (codes "def")
    ≡ abstract_run (λ h. false) busy (codes "def")
run-abstract_run_example =
    run-abstract_run byte_rates abc true none busy
      (
        (λ t given. ap (λ (o : Torrent). o.info_hash) (some_inj given)),
        (willing-TakesBack, (tt, (tt, (tt, (tt, tt))))),
      )
      (codes "def")

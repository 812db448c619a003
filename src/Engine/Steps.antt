-- ===== src/Engine/Steps.antt =====
-- The map of internal/engine/engine.go through any sequence of calls.
use p2pget.Prelude.{ℕ, List, [], ◌∷◌, Bool, Option, ◌≡◌, arith, Text, ℤ}
use p2pget.Strings.{Unicode}
use p2pget.Download.{
  Download, Rates, Stats, apply_locked, set_paused, set_file_wanted, set_all_wanted, sample_rate,
  measure, watch_stall,
}
use p2pget.Engine.{
  Engine, Client, persist_state, modify, await_metadata, remove, restart, add_magnet, add_torrent,
  add_info_hash, Arrival, TaskRecord, restore,
}
use p2pget.Engine.Valid.{IsValid}
use p2pget.Engine.Keeps.{
  persist_state-IsValid, modify-IsValid, apply_locked-hash, await_metadata-IsValid,
  add_magnet-IsValid, add_torrent-IsValid, add_info_hash-IsValid, remove-IsValid, restart-IsValid,
  restore-IsValid, empty_engine-IsValid, empty_engine,
}

-- A call on the engine, or on one of its downloads, with what the client answers, the time, and
-- whether the state file can be written.
pub data Call : Type 0 where
  adds_magnet adds_torrent adds_info_hash : Client → ℕ → Bool → Text → Call
  removes : Client → Bool → Text → Call
  restarts : Client → ℕ → Bool → Text → Call
  arrives : ℤ → ℕ → Arrival → Call
  pauses wants_all : ℕ → Bool → Call
  wants : ℕ → ℤ → Bool → Call
  samples : ℕ → ℕ → Stats → Call
  closes : Bool → Call

module _ ⦃u : Unicode⦄ (rates : Rates) where
  open rates use {Rate, still}

  unfoldable pub step : Engine Rate → Call → Engine Rate
  step e (adds_magnet c now written uri) = (add_magnet still c now written uri e).0
  step e (adds_torrent c now written hash) = (add_torrent still c now written hash e).0
  step e (adds_info_hash c now written text) = (add_info_hash still c now written text e).0
  step e (removes c written hash) = (remove c written hash e).0
  step e (restarts c now written hash) = (restart still c now written hash e).0
  step e (arrives timeout id a) = await_metadata timeout id a e
  step e (pauses id p) = modify id (set_paused p) e
  step e (wants_all id w) = modify id (set_all_wanted w) e
  step e (wants id index w) = modify id (λ d. (set_file_wanted index w d).0) e
  step e (samples id now s) = modify id (sample_rate rates now s) e
  step e (closes written) = persist_state written e

  unfoldable pub run : Engine Rate → List Call → Engine Rate
  run e [] = e
  run e (k ∷ ks) = run (step e k) ks

  pub set_paused-hash :
      (p : Bool) (d : Download Rate) → (set_paused p d).t.info_hash ≡ d.t.info_hash
  unfolding set_paused
  set_paused-hash p d = apply_locked-hash _

  pub set_all_wanted-hash :
      (w : Bool) (d : Download Rate) → (set_all_wanted w d).t.info_hash ≡ d.t.info_hash
  unfolding set_all_wanted apply_locked
  set_all_wanted-hash w d = ground arith

  pub set_file_wanted-hash :
      (index : ℤ) (w : Bool) (d : Download Rate)
      → (set_file_wanted index w d).0.t.info_hash ≡ d.t.info_hash
  unfolding set_file_wanted apply_locked
  set_file_wanted-hash index w d = ground arith

  pub sample_rate-hash :
      (now : ℕ) (s : Stats) (d : Download Rate)
      → (sample_rate rates now s d).t.info_hash ≡ d.t.info_hash
  unfolding sample_rate watch_stall measure
  sample_rate-hash now s d = ground arith

  pub step-IsValid : (e : Engine Rate) (k : Call) → IsValid e → IsValid (step e k)
  unfolding step
  step-IsValid e (adds_magnet c now written uri) v = add_magnet-IsValid still c now written e v uri
  step-IsValid e (adds_torrent c now written hash) v =
      add_torrent-IsValid still c now written e v hash
  step-IsValid e (adds_info_hash c now written text) v =
      add_info_hash-IsValid still c now written e v text
  step-IsValid e (removes c written hash) v = remove-IsValid still c 0 written e v hash
  step-IsValid e (restarts c now written hash) v = restart-IsValid still c now written e v hash
  step-IsValid e (arrives timeout id a) v = await_metadata-IsValid timeout id a e v
  step-IsValid e (pauses id p) v = modify-IsValid id (set_paused p) e (set_paused-hash p) v
  step-IsValid e (wants_all id w) v =
      modify-IsValid id (set_all_wanted w) e (set_all_wanted-hash w) v
  step-IsValid e (wants id index w) v =
      modify-IsValid id (λ d. (set_file_wanted index w d).0) e (set_file_wanted-hash index w) v
  step-IsValid e (samples id now s) v =
      modify-IsValid id (sample_rate rates now s) e (sample_rate-hash now s) v
  step-IsValid e (closes written) v = persist_state-IsValid written e v

  pub run_from-IsValid : (e : Engine Rate) (ks : List Call) → IsValid e → IsValid (run e ks)
  unfolding run
  run_from-IsValid e [] v = v
  run_from-IsValid e (k ∷ ks) v = run_from-IsValid (step e k) ks (step-IsValid e k v)

  -- An engine that is opened on any state file and driven by any calls holds each hash once, and
  -- each entry of its map leads to a download of that hash.
  pub run-IsValid :
      (p : Bool) (file : Option (List TaskRecord)) (c : Client) (now : ℕ) (ks : List Call)
      → IsValid (run (restore still c now (empty_engine p file)) ks)
  run-IsValid p file c now ks =
      run_from-IsValid (restore still c now (empty_engine p file)) ks
        (restore-IsValid still c now (empty_engine p file) (empty_engine-IsValid p file))

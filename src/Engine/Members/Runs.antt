-- ===== src/Engine/Members/Runs.antt =====
-- The engine of internal/engine/engine.go through any calls, against a set of hashes.
use p2pget.Prelude.{
  ℕ, List, [], ◌∷◌, Bool, false, contains, Option, Text, ◌≡◌, refl, arith, ◌∙◌, ℤ, pos, negsuc,
}
use p2pget.Strings.{Unicode}
use p2pget.Download.{
  Download, Rates, Stats, apply_locked, init_selection, set_paused, set_file_wanted, set_all_wanted,
  set_err, sample_rate, measure, watch_stall, metadata_timeout,
}
use p2pget.Engine.{
  Engine, Arrival, got_info, closed, timed_out, await_metadata, modify, with_info, TaskRecord,
}
use p2pget.Engine.Valid.{IsValid}
use p2pget.Engine.Keeps.{apply_locked-hash, empty_engine, empty_engine-IsValid}
use p2pget.Engine.Steps.{
  Call, adds_magnet, adds_torrent, adds_info_hash, removes, restarts, arrives, pauses, wants_all,
  wants, samples, closes, step, run, step-IsValid, set_paused-hash, set_all_wanted-hash,
  set_file_wanted-hash, sample_rate-hash,
}
use p2pget.Engine.Members.{
  holds, persist_state-holds, persist_state-AllFit, drop_torrent-holds, drop_torrent-AllFit,
}
use p2pget.Engine.Members.Abstract.{Hashes, abstract_step, abstract_run, IsFair, AllFair}
use p2pget.Engine.Members.Refines.{
  Holds, add_magnet-Holds, add_torrent-Holds, add_info_hash-Holds, remove-Holds, restart-Holds,
  modified,
}

module _ {R : Type 0} where
  apply_locked-magnet : (d : Download R) → (apply_locked d).magnet ≡ d.magnet
  unfolding apply_locked
  apply_locked-magnet d = ground arith

  set_all_wanted-magnet : (w : Bool) (d : Download R) → (set_all_wanted w d).magnet ≡ d.magnet
  unfolding set_all_wanted apply_locked
  set_all_wanted-magnet w d = ground arith

  set_file_wanted-magnet :
      (index : ℤ) (w : Bool) (d : Download R) → (set_file_wanted index w d).0.magnet ≡ d.magnet
  unfolding set_file_wanted apply_locked
  set_file_wanted-magnet index w d = ground arith

module _ (magnet_hash : Text → Text) {R : Type 0} where
  await_metadata-Holds :
      (s : Hashes) (timeout : ℤ) (id : ℕ) (a : Arrival) (e : Engine R)
      → Holds magnet_hash s e
      → Holds magnet_hash s (await_metadata timeout id a e)
  unfolding await_metadata with_info init_selection
  await_metadata-Holds s timeout id (got_info fs) e h =
      modified magnet_hash e s id (with_info fs) h (λ d. apply_locked-magnet _)
        (λ d. apply_locked-hash _)
  await_metadata-Holds s timeout id closed e h = h
  await_metadata-Holds s (pos n) id timed_out e h =
      let e' : Engine R = modify id (set_err metadata_timeout) e in
      let h' : Holds magnet_hash s e' =
        modified magnet_hash e s id (set_err metadata_timeout) h (λ d. unfold set_err in refl)
          (λ d. unfold set_err in refl) in
      record {
        same = λ j. drop_torrent-holds id e' j ∙ h'.same j;
        fits = drop_torrent-AllFit magnet_hash id e' h'.fits;
      }
  await_metadata-Holds s (negsuc n) id timed_out e h = h

module _ ⦃u : Unicode⦄ (rates : Rates) (magnet_hash : Text → Text) where
  open rates use {Rate, still}

  sample_rate-magnet :
      (now : ℕ) (st : Stats) (d : Download Rate) → (sample_rate rates now st d).magnet ≡ d.magnet
  unfolding sample_rate watch_stall measure
  sample_rate-magnet now st d = ground arith

  step-Holds :
      (s : Hashes) (e : Engine Rate) (k : Call)
      → IsValid e
      → IsFair magnet_hash k
      → Holds magnet_hash s e
      → Holds magnet_hash (abstract_step s k) (step rates e k)
  unfolding step abstract_step
  step-Holds s e (adds_magnet c now written uri) v fair h =
      add_magnet-Holds magnet_hash still now written e s h c uri fair
  step-Holds s e (adds_torrent c now written hash) v fair h =
      add_torrent-Holds magnet_hash still now written e s h c hash
  step-Holds s e (adds_info_hash c now written text) v fair h =
      add_info_hash-Holds magnet_hash still now written e s h c text
  step-Holds s e (removes c written hash) v fair h =
      remove-Holds magnet_hash still 0 written e s h v c hash
  step-Holds s e (restarts c now written hash) v fair h =
      restart-Holds magnet_hash still now written e s h v c hash fair
  step-Holds s e (arrives timeout id a) v fair h =
      await_metadata-Holds magnet_hash s timeout id a e h
  step-Holds s e (pauses id p) v fair h =
      modified magnet_hash e s id (set_paused p) h (λ d. unfold set_paused in apply_locked-magnet _)
        (set_paused-hash rates p)
  step-Holds s e (wants_all id w) v fair h =
      modified magnet_hash e s id (set_all_wanted w) h (set_all_wanted-magnet w)
        (set_all_wanted-hash rates w)
  step-Holds s e (wants id index w) v fair h =
      modified magnet_hash e s id (λ d. (set_file_wanted index w d).0) h
        (set_file_wanted-magnet index w) (set_file_wanted-hash rates index w)
  step-Holds s e (samples id now st) v fair h =
      modified magnet_hash e s id (sample_rate rates now st) h (sample_rate-magnet now st)
        (sample_rate-hash rates now st)
  step-Holds s e (closes written) v fair h = record {
    same = λ j. persist_state-holds written e j ∙ h.same j;
    fits = persist_state-AllFit magnet_hash written e h.fits;
  }

  run-Holds :
      (s : Hashes) (e : Engine Rate) (ks : List Call)
      → IsValid e
      → AllFair magnet_hash ks
      → Holds magnet_hash s e
      → Holds magnet_hash (abstract_run s ks) (run rates e ks)
  unfolding run abstract_run
  run-Holds s e [] v fair h = h
  run-Holds s e (k ∷ ks) v fair h =
      run-Holds (abstract_step s k) (step rates e k) ks (step-IsValid rates e k v) fair.1
        (step-Holds s e k v fair.0 h)

  -- The list of the engine is a set of hashes: after any calls on an engine that is new it holds
  -- exactly the hashes of the torrents that were added since they were last removed. Restarts, late
  -- or missing metadata, pauses, selections, samples and saves, and calls that fail, do not change
  -- it. The torrent of a magnet has the hash that the magnet names, and the client of a restart takes
  -- back, under their hashes, the torrents that it had.
  pub run-abstract_run :
      (p : Bool) (file : Option (List TaskRecord)) (ks : List Call)
      → AllFair magnet_hash ks
      → (j : Text) → holds (run rates (empty_engine p file) ks) j ≡ abstract_run (λ h. false) ks j
  unfolding empty_engine
  run-abstract_run p file ks fair j =
      (run-Holds (λ h. false) (empty_engine p file) ks (empty_engine-IsValid p file) fair
          (record { same = λ h. unfold contains in refl; fits = tt })).same
        j

-- ===== src/Cli/Getting.antt =====
-- `runGet` of cmd/p2pget/main.go: its target, the wait for the metadata, and the loop that shows a
-- download until it is complete. What happens comes as a list of events: the user interrupts, the
-- engine makes the selection of files, or two seconds have passed and the client has counts and files
-- to report. The lines that are shown are text layout.
pub mod Ends
pub mod Runs
use p2pget.Prelude.{
  ℕ, List, [], ◌∷◌, Bool, true, false, ◌&&◌, ltb, leb, if◌then◌else◌, Option, none, some, Text,
  get_elem?,
}
use p2pget.Strings.{Unicode}
use p2pget.Download.{
  File, Stats, Rates, Download, init_selection, sample_rate, set_err, metadata_timeout,
}
use p2pget.Download.Status.{Status, status}
use p2pget.Engine.{Engine, Client, Failure, Outcome, ok, failed, add_magnet, add_info_hash}
use p2pget.Engine.Sources.{Loader, add_torrent_file, add_torrent_url}
use p2pget.Engine.Metadata.{Wake, Waited, arrived, gave_up, closed_early, stopped, wait_info}
use p2pget.Cli.{parse_args}
use p2pget.Cli.Dispatch.{Target, magnet, url, file, info_hash, unrecognised, target_of}

pub data GetEvent : Type 0 where
  interrupted : GetEvent
  selected : GetEvent
  tick : ℕ → Stats → Option (List File) → GetEvent

-- How the loop ends; `running` is that it goes on behind the events.
pub data Ending : Type 0 where
  completed cancelled running : Ending

-- `s.HaveInfo && s.BytesDone >= s.TotalBytes && s.TotalBytes > 0`
unfoldable pub is_done : {R : Type 0} → Status R → Bool
is_done s = s.have_info && leb s.total_bytes s.bytes_done && ltb 0 s.total_bytes

module _ (rates : Rates) where
  open rates use {Rate}

  -- What the client reports at a tick, and `d.SampleRate()`.
  unfoldable pub take_sample : ℕ → Stats → Option (List File) → Download Rate → Download Rate
  take_sample now stats files d =
      sample_rate rates now stats (record d { t = record d.t { files = files } })

  -- The loop of `runGet`.
  unfoldable pub watch_get : List GetEvent → Download Rate → Ending
  unfolding take_sample is_done
  watch_get [] d = running
  watch_get (interrupted ∷ events) d = cancelled
  watch_get (selected ∷ events) d = watch_get events (init_selection d)
  watch_get (tick now stats files ∷ events) d =
      let d' = take_sample now stats files d in
      let rest = watch_get events d' in if is_done (status stats d') then completed else rest

  -- How `runGet` ends: with the usage and the exit code 2, with an error, or by its loop.
  pub data GetRun : Type 0 where
    usage : GetRun
    unknown_target : GetRun
    refused : Failure → GetRun
    no_metadata : Waited → GetRun
    looped : Ending → GetRun

  -- `openEngine(c, "")`: an engine without downloads that saves nothing.
  abbrev pub fresh_engine : Engine Rate
  fresh_engine = record {
    heap = [];
    downloads = [];
    dropped = [];
    persistent = false;
    state_file = none;
  }

  -- The end of `runGet` behind its addition: whether the metadata timed out, the channel that is
  -- ready first, and the events of the loop.
  unfoldable pub get_download : Bool → Wake → List GetEvent → Download Rate → GetRun
  get_download timed_out wake events d =
      elim (wait_info wake (if timed_out then set_err metadata_timeout d else d)) [
        | arrived ↦ looped (watch_get events d)
        | other ↦ no_metadata other
      ]

  module _ ⦃u : Unicode⦄ (c : Client) (loader : Loader) (now : ℕ) (written : Bool) where
    -- The switch of `runGet`; `none` is a target that it does not know.
    unfoldable pub add_target : Text → Engine Rate → Option (Engine Rate × Outcome ℕ)
    add_target target e = elim (target_of target) [
      | magnet ↦ some (add_magnet rates.still c now written target e)
      | url ↦ some (add_torrent_url rates.still c loader now written target e)
      | file ↦ some (add_torrent_file rates.still c loader now written target e)
      | info_hash ↦ some (add_info_hash rates.still c now written target e)
      | unrecognised ↦ none
    ]

    module _ (timed_out : Bool) (wake : Wake) (events : List GetEvent) where
      -- What `runGet` does with the answer of the engine.
      abbrev pub after_add : Option (Engine Rate × Outcome ℕ) → Option GetRun
      after_add none = some unknown_target
      after_add (some (e, failed x)) = some (refused x)
      after_add (some (e, ok id)) = elim (get_elem? e.heap id) [
        | none ↦ none
        | some d ↦ some (get_download timed_out wake events d)
      ]

      abbrev pub get_first : List Text → Option GetRun
      get_first [] = some usage
      get_first (target ∷ more) = after_add (add_target target fresh_engine)

      -- `runGet`; `none` is fuel that ran out.
      unfoldable pub run_get :
          {F : Type 0} → (F → List Text → F × List Text) → ℕ → F → List Text → Option GetRun
      run_get parse fuel defaults args = elim (parse_args parse fuel defaults args) [
        | none ↦ none
        | some (flags, ps) ↦ get_first ps
      ]

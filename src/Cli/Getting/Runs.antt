-- ===== src/Cli/Getting/Runs.antt =====
-- `runGet` of cmd/p2pget/main.go from its arguments to its end.
use p2pget.Prelude.{
  ℕ, ◌<◌, List, [], ◌∷◌, Bool, true, false, ◌==◌, Option, none, some, Text, ◌≡◌, ◌⊎◌, inl, inr,
  refl, ap, ◌∙◌, Bool-cases, Option-cases, length, get_elem?, byte_len, lookup,
}
use p2pget.Strings.{Unicode, to_lower, trim_space}
use p2pget.Download.{Download, Torrent, Rates, set_err, metadata_timeout}
use p2pget.Engine.{
  Engine, Client, Failure, Outcome, ok, failed, track, healthy, persist_state, add_magnet,
  add_info_hash, add_torrent, new_download, client_refused, unreadable, unreachable, unparsed,
  bad_status, bad_length, bad_hex,
}
use p2pget.Engine.Sources.{Loader, add_torrent_file, add_torrent_url}
use p2pget.Engine.Metadata.{
  Wake, info_ready, torrent_closed, cancelled, gave_up, closed_early, stopped, wait_info,
}
use p2pget.Cli.Flags.{Item, Parser, arguments, positionals, AllGood, parse_args_lem}
use p2pget.Cli.Dispatch.{Target, magnet, url, file, info_hash, unrecognised, target_of}
use p2pget.Cli.Getting.{
  GetEvent, GetRun, unknown_target, refused, no_metadata, looped, fresh_engine, add_target,
  get_download, after_add, run_get,
}
use p2pget.Cli.Getting.Ends.{WantsAll, Plausible, ending_of, watch_get_lem}

module _ (rates : Rates) where
  open rates use {Rate}

  -- How `get` ends with a download, for whether the metadata timed out and what came first.
  abbrev pub expected : Bool → Wake → List GetEvent → GetRun rates
  expected timed_out info_ready events = looped (ending_of events)
  expected true torrent_closed events = no_metadata (gave_up metadata_timeout)
  expected false torrent_closed events = no_metadata closed_early
  expected timed_out cancelled events = no_metadata stopped

  -- An addition to an engine without downloads that fails leaves it so, and gives a download all of
  -- whose files are wanted otherwise.
  abbrev Added : Engine Rate × Outcome ℕ → Type 0
  Added (e, failed x) = e ≡ fresh_engine rates
  Added (e, ok id) =
      (d : Download Rate) × (get_elem? e.heap id ≡ some d) × WantsAll d × (d.err ≡ none)

  Added-of : (o p : Engine Rate × Outcome ℕ) → o ≡ p → Added p → Added o
  Added-of o p e a = rw e a

  get_download_lem :
      (timed_out : Bool) (wake : Wake) (events : List GetEvent) (d : Download Rate)
      → WantsAll d
      → d.err ≡ none
      → Plausible events
      → get_download rates timed_out wake events d ≡ expected timed_out wake events
  unfolding get_download wait_info
  get_download_lem timed_out info_ready events d wants well p =
      ap looped (watch_get_lem rates events d wants p)
  get_download_lem true torrent_closed events d wants well p = unfold set_err in refl
  get_download_lem false torrent_closed events d wants well p = rw (well) refl
  get_download_lem timed_out cancelled events d wants well p = refl

  module _ (c : Client) (loader : Loader) (now : ℕ) (written : Bool) where
    abbrev kept : Torrent → Text → Engine Rate × Outcome ℕ
    kept t m =
        let (e, id) = track rates.still t now m [] (fresh_engine rates) in
        (persist_state written e, ok id)

    kept-Added : (t : Torrent) (m : Text) → Added (kept t m)
    unfolding track healthy persist_state lookup
    kept-Added t m = (
      new_download rates.still t now m [],
      refl,
      (unfold new_download in (refl, tt)),
      unfold new_download in refl,
    )

    add_magnet-Added :
        (uri : Text) → Added (add_magnet rates.still c now written uri (fresh_engine rates))
    unfolding add_magnet
    add_magnet-Added uri = elim (Option-cases (c.add_magnet uri)) [
      | inl bad ↦
          Added-of _ (fresh_engine rates, failed client_refused) (rw (bad, add_magnet) refl) refl
      | inr (t, given) ↦ Added-of _ (kept t uri) (rw (given, add_magnet) refl) (kept-Added t uri)
    ]

    add_torrent-Added :
        (hash : Text) → Added (add_torrent rates.still c now written hash (fresh_engine rates))
    unfolding add_torrent
    add_torrent-Added hash = elim (Option-cases (c.add_torrent hash)) [
      | inl bad ↦
          Added-of _ (fresh_engine rates, failed client_refused) (rw (bad, add_torrent) refl) refl
      | inr (t, given) ↦ Added-of _ (kept t []) (rw (given, add_torrent) refl) (kept-Added t [])
    ]

    add_torrent_file-Added :
        (path : Text)
        → Added (add_torrent_file rates.still c loader now written path (fresh_engine rates))
    unfolding add_torrent_file
    add_torrent_file-Added path = elim (Option-cases (loader.load_from_file path)) [
      | inl bad ↦
          Added-of _ (fresh_engine rates, failed unreadable) (rw (bad, add_torrent_file) refl) refl
      | inr (hash, read) ↦
          Added-of _ (add_torrent rates.still c now written hash (fresh_engine rates))
            (rw (read, add_torrent_file) refl) (add_torrent-Added hash)
    ]

    add_torrent_url-Added :
        (from : Text)
        → Added (add_torrent_url rates.still c loader now written from (fresh_engine rates))
    unfolding add_torrent_url
    add_torrent_url-Added from = elim (Option-cases (loader.get from)) [
      | inl bad ↦
          Added-of _ (fresh_engine rates, failed unreachable) (rw (bad, add_torrent_url) refl) refl
      | inr (r, got) ↦ elim (Bool-cases (r.status_code == 200)) [
        | inr other ↦
            Added-of _ (fresh_engine rates, failed (bad_status r.status_code))
              (rw (got, add_torrent_url) (rw (other, add_torrent_url) refl)) refl
        | inl fine ↦ elim (Option-cases (loader.load r.body)) [
          | inl bad ↦
              Added-of _ (fresh_engine rates, failed unparsed)
                (rw (got, add_torrent_url)
                  (rw (fine, add_torrent_url) (rw (bad, add_torrent_url) refl)))
                refl
          | inr (hash, read) ↦
              Added-of _ (add_torrent rates.still c now written hash (fresh_engine rates))
                (rw (got, add_torrent_url)
                  (rw (fine, add_torrent_url) (rw (read, add_torrent_url) refl)))
                (add_torrent-Added hash)
        ]
      ]
    ]

    module _ ⦃u : Unicode⦄ where
      add_info_hash-Added :
          (text : Text) → Added (add_info_hash rates.still c now written text (fresh_engine rates))
      unfolding add_info_hash
      add_info_hash-Added text =
          let hex = to_lower (trim_space text) in
          elim (Bool-cases (byte_len hex == 40)) [
            | inr short ↦
                Added-of _ (fresh_engine rates, failed (bad_length (byte_len hex)))
                  (rw (short, add_info_hash) refl) refl
            | inl long ↦ elim (Option-cases (c.from_hex hex)) [
              | inl bad ↦
                  Added-of _ (fresh_engine rates, failed bad_hex)
                    (rw (long, add_info_hash) (rw (bad, add_info_hash) refl)) refl
              | inr (h, good) ↦
                  Added-of _ (kept (c.add_info_hash h) [])
                    (rw (long, add_info_hash) (rw (good, add_info_hash) refl))
                    (kept-Added (c.add_info_hash h) [])
            ]
          ]

      abbrev addition : Text → Option (Engine Rate × Outcome ℕ)
      addition target = add_target rates c loader now written target (fresh_engine rates)

      abbrev Picked : Text → Option (Engine Rate × Outcome ℕ) → Type 0
      Picked target none = target_of target ≡ unrecognised
      Picked target (some o) = Added o

      Picked-of :
          (target : Text) (o p : Option (Engine Rate × Outcome ℕ))
          → o ≡ p
          → Picked target p
          → Picked target o
      Picked-of target o p e a = rw e a

      picked : (target : Text) (k : Target) → target_of target ≡ k → Picked target (addition target)
      unfolding add_target
      picked target magnet e =
          Picked-of target _
            (some (add_magnet rates.still c now written target (fresh_engine rates)))
            (rw (e, add_target) refl) (add_magnet-Added target)
      picked target url e =
          Picked-of target _
            (some (add_torrent_url rates.still c loader now written target (fresh_engine rates)))
            (rw (e, add_target) refl) (add_torrent_url-Added target)
      picked target file e =
          Picked-of target _
            (some (add_torrent_file rates.still c loader now written target (fresh_engine rates)))
            (rw (e, add_target) refl) (add_torrent_file-Added target)
      picked target info_hash e =
          Picked-of target _
            (some (add_info_hash rates.still c now written target (fresh_engine rates)))
            (rw (e, add_target) refl) (add_info_hash-Added target)
      picked target unrecognised e = Picked-of target _ none (rw (e, add_target) refl) e

      -- The ends of `get` with a target: it is not known, the engine refuses it, or the engine takes
      -- it, and then the end is the expected one.
      abbrev pub EndsWell : Text → Bool → Wake → List GetEvent → GetRun rates → Type 0
      EndsWell target timed_out wake events run =
          ((target_of target ≡ unrecognised) × (run ≡ unknown_target))
          ⊎ (((x : Failure) × (addition target ≡ some (fresh_engine rates, failed x))
                × (run ≡ refused x))
              ⊎ ((e : Engine Rate) × (id : ℕ) × (addition target ≡ some (e, ok id))
                  × (run ≡ expected timed_out wake events)))

      module _ (timed_out : Bool) (wake : Wake) (events : List GetEvent)
          (p : Plausible events) where
        after_add-EndsWell :
            (target : Text) (o : Option (Engine Rate × Outcome ℕ))
            → addition target ≡ o
            → Picked target o
            → (run : GetRun rates) × (after_add rates c loader now written timed_out wake events o
                ≡ some run)
              × EndsWell target timed_out wake events run
        after_add-EndsWell target none e known = (unknown_target, refl, inl (known, refl))
        after_add-EndsWell target (some (e', failed x)) e same = (
          refused x,
          refl,
          inr (inl (x, e ∙ ap (λ (s : Engine Rate). some (s, failed x)) same, refl)),
        )
        after_add-EndsWell target (some (e', ok id)) e (d, there, wants, well) = (
          expected timed_out wake events,
          rw (there, after_add) (ap some (get_download_lem timed_out wake events d wants well p)),
          inr (inr (e', id, e, refl)),
        )

        -- For a parser of flags that keeps its contract, `get` with a target ends, wherever its flags
        -- stand. If it does not know the target, it says so; if the engine refuses it, the engine is
        -- left without downloads and the failure is shown. Otherwise it waits: if the torrent closes
        -- first, it shows the timeout if there was one; if the user interrupts, it stops; and once
        -- the metadata is there, its loop ends as complete exactly at the first tick at which every
        -- file of the torrent is there in full and one has a byte, unless the user interrupts before,
        -- whenever the selection is made. No report says that more of a file is there than it holds.
        pub run_get_lem :
            {F : Type 0} (parser : Parser F) (defaults : F) (is : List Item) (n : ℕ) (target : Text)
            (more : List Text)
            → AllGood parser is
            → positionals is ≡ target ∷ more
            → length (positionals is) < n
            → (run : GetRun rates) × (run_get rates c loader now written timed_out wake events
                  parser.parse n defaults
                  (arguments is)
                ≡ some run)
              × EndsWell target timed_out wake events run
        unfolding run_get
        run_get_lem parser defaults is n target more good words enough =
            rw (parse_args_lem parser defaults is n good enough, words, run_get)
              (after_add-EndsWell target (addition target) refl
                (picked target (target_of target) refl))

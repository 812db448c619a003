-- ===== src/Cli/Getting/Ends.antt =====
-- How `runGet` of cmd/p2pget/main.go ends.
use p2pget.Prelude.{
  ℕ, suc, ◌≤◌, List, [], ◌∷◌, Bool, true, false, ◌&&◌, ◌||◌, ◌==◌, ltb, leb, if◌then◌else◌, Option,
  none, some, ◌≡◌, refl, ap, arith, ◌∙◌, contains,
}
use p2pget.Download.{
  File, Stats, Rates, Download, Torrent, init_selection, apply_locked, watch_stall, select_from,
  sample_rate, files_of, count_bytes, status_bytes, selection,
}
use p2pget.Download.Totals.{WithinSize}
use p2pget.Download.Status.{status}
use p2pget.Cli.Getting.{
  GetEvent, interrupted, selected, tick, Ending, completed, cancelled, running, is_done,
  take_sample, watch_get,
}

-- Every file is there, and one has a byte.
abbrev pub all_there : List File → Bool
all_there [] = true
all_there (f ∷ fs) = f.size == f.completed && all_there fs

abbrev pub has_bytes : List File → Bool
has_bytes [] = false
has_bytes (f ∷ fs) = ltb 0 f.size || has_bytes fs

abbrev pub is_whole : Option (List File) → Bool
is_whole none = false
is_whole (some fs) = all_there fs && has_bytes fs

-- The first interruption, or tick at which all is there.
abbrev pub ending_of : List GetEvent → Ending
ending_of [] = running
ending_of (interrupted ∷ events) = cancelled
ending_of (selected ∷ events) = ending_of events
ending_of (tick now stats files ∷ events) =
    let rest = ending_of events in if is_whole files then completed else rest

-- No report says of a file that more is there than it holds.
abbrev pub PlausibleFiles : Option (List File) → Type 0
PlausibleFiles none = Unit
PlausibleFiles (some fs) = WithinSize fs

abbrev pub Plausible : List GetEvent → Type 0
Plausible [] = Unit
Plausible (interrupted ∷ events) = Plausible events
Plausible (selected ∷ events) = Plausible events
Plausible (tick now stats files ∷ events) = PlausibleFiles files × Plausible events

abbrev pub AllTrue : List Bool → Type 0
AllTrue [] = Unit
AllTrue (w ∷ ws) = (w ≡ true) × AllTrue ws

count_bytes-le :
    (ws : List Bool) (fs : List File)
    → AllTrue ws
    → WithinSize fs
    → (count_bytes ws fs).1 ≤ (count_bytes ws fs).0
unfolding count_bytes
count_bytes-le ws [] t h = omega arith
count_bytes-le [] (f ∷ fs) t h = omega (arith, count_bytes-le [] fs tt h.1)
count_bytes-le (true ∷ ws) (f ∷ fs) t h = omega (arith, count_bytes-le ws fs t.1 h.1)
count_bytes-le (false ∷ ws) (f ∷ fs) t h = omega (arith, count_bytes-le ws fs t.1 h.1)

count_bytes-there :
    (ws : List Bool) (fs : List File)
    → AllTrue ws
    → WithinSize fs
    → leb (count_bytes ws fs).0 (count_bytes ws fs).1 ≡ all_there fs
unfolding count_bytes
count_bytes-there ws [] t h = refl
count_bytes-there [] (f ∷ fs) t h =
    ground (arith, count_bytes-there [] fs tt h.1, count_bytes-le [] fs tt h.1)
count_bytes-there (true ∷ ws) (f ∷ fs) t h =
    ground (arith, count_bytes-there ws fs t.1 h.1, count_bytes-le ws fs t.1 h.1)
count_bytes-there (false ∷ ws) (f ∷ fs) t h = cc

count_bytes-bytes :
    (ws : List Bool) (fs : List File) → AllTrue ws → ltb 0 (count_bytes ws fs).0 ≡ has_bytes fs
unfolding count_bytes
count_bytes-bytes ws [] t = refl
count_bytes-bytes [] (f ∷ fs) t = ground (arith, count_bytes-bytes [] fs tt)
count_bytes-bytes (true ∷ ws) (f ∷ fs) t = ground (arith, count_bytes-bytes ws fs t.1)
count_bytes-bytes (false ∷ ws) (f ∷ fs) t = cc

select_from-AllTrue : (i : ℕ) (fs : List File) → AllTrue (select_from [] i fs)
unfolding select_from contains
select_from-AllTrue i [] = tt
select_from-AllTrue i (f ∷ fs) = (refl, select_from-AllTrue (suc i) fs)

module _ {R : Type 0} where
  -- A download whose files are all wanted, now and once they are selected.
  abbrev pub WantsAll : Download R → Type 0
  WantsAll d = (d.skip ≡ []) × AllTrue (selection d.wanted)

  apply_locked-keeps :
      (d : Download R) → ((apply_locked d).skip ≡ d.skip) × ((apply_locked d).wanted ≡ d.wanted)
  unfolding apply_locked
  apply_locked-keeps d = ground arith

  init_selection-WantsAll : (d : Download R) → WantsAll d → WantsAll (init_selection d)
  unfolding init_selection
  init_selection-WantsAll d (skip, wants) =
      let chosen : Download R = record d { wanted = some (select_from d.skip 0 (files_of d.t)) } in
      let (same_skip, same_wanted) = apply_locked-keeps chosen in
      (same_skip ∙ skip, rw (same_wanted, skip) (select_from-AllTrue 0 (files_of d.t)))

  is_done-whole :
      (stats : Stats) (d : Download R) (files : Option (List File))
      → d.t.files ≡ files
      → AllTrue (selection d.wanted)
      → PlausibleFiles files
      → is_done (status stats d) ≡ is_whole files
  unfolding is_done status status_bytes
  is_done-whole stats d none e t h = rw (e) refl
  is_done-whole stats d (some fs) e t h =
      rw
        (
          e,
          count_bytes-there (selection d.wanted) fs t h,
          count_bytes-bytes (selection d.wanted) fs t,
        )
        refl

module _ (rates : Rates) where
  open rates use {Rate}

  sample_rate-keeps :
      (now : ℕ) (stats : Stats) (d : Download Rate)
      → ((sample_rate rates now stats d).t ≡ d.t)
        × ((sample_rate rates now stats d).skip ≡ d.skip)
        × ((sample_rate rates now stats d).wanted ≡ d.wanted)
  unfolding sample_rate watch_stall
  sample_rate-keeps now stats d = ground arith

  pub watch_get_lem :
      (events : List GetEvent) (d : Download Rate)
      → WantsAll d
      → Plausible events
      → watch_get rates events d ≡ ending_of events
  unfolding watch_get take_sample
  watch_get_lem [] d h p = refl
  watch_get_lem (interrupted ∷ events) d h p = refl
  watch_get_lem (selected ∷ events) d h p =
      watch_get_lem events (init_selection d) (init_selection-WantsAll d h) p
  watch_get_lem (tick now stats files ∷ events) d (skip, wants) p =
      let told : Download Rate = record d { t = record d.t { files = files } } in
      let (same_t, same_skip, same_wanted) = sample_rate-keeps now stats told in
      let all : AllTrue (selection (sample_rate rates now stats told).wanted) =
        rw (same_wanted) wants in
      let whole : is_done (status stats (sample_rate rates now stats told)) ≡ is_whole files =
        is_done-whole stats (sample_rate rates now stats told) files
          (ap (λ (t : Torrent). t.files) same_t) all p.0 in
      rw
        (whole, watch_get_lem events (sample_rate rates now stats told) (same_skip ∙ skip, all) p.1)
        refl

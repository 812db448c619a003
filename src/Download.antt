-- ===== src/Download.antt =====
-- internal/engine/download.go: one download, its file selection and its transfer rates. The torrent
-- is what the client library reports of it; a method takes the torrent's current counters and the
-- time as arguments, and returns the new state. Rates are floats, a parameter. The mutex of a
-- download makes each method one step.
pub mod Selection
pub mod Pause
pub mod Totals
pub mod Stall
pub mod Status
pub mod Eta
use p2pget.Prelude.{
  ℕ, zero, suc, ◌+◌, ◌-◌, List, [], ◌∷◌, ◌++◌, map, Bool, true, false, not, ◌&&◌, ltb, leb, ◌==◌,
  if◌then◌else◌, ℤ, pos, negsuc, ◌-ℤ◌, Option, none, some, Text, codes, length, set, replicate, ite,
  ℕ_discrete, contains,
}

-- `torrent.PiecePriority`, of which the program sets two.
pub data Priority : Type 0 where
  priority_none priority_normal : Priority

-- `torrent.File`
pub record File : Type 0 where
  pub path : Text
  pub size : ℕ
  pub completed : ℕ
  pub priority : Priority

-- `torrent.Torrent`: `files` is `none` until the metadata is there.
pub record Torrent : Type 0 where
  pub handle : ℕ
  pub info_hash : Text
  pub name : Text
  pub files : Option (List File)

-- `torrent.TorrentStats`
pub record Stats : Type 0 where
  pub bytes_read : ℤ
  pub bytes_written : ℤ
  pub total_peers : ℕ
  pub active_peers : ℕ
  pub connected_seeders : ℕ

-- `FileInfo`
pub record FileInfo : Type 0 where
  pub index : ℕ
  pub path : Text
  pub size : ℕ
  pub completed : ℕ
  pub wanted : Bool

pub data Error : Type 0 where
  metadata_not_ready metadata_timeout : Error
  out_of_range : ℤ → ℕ → Error

-- The floats of a rate: bytes over nanoseconds, and the test `rate < 1` byte per second.
pub record Rates : Type 1 where
  pub Rate : Type 0
  pub still : Rate
  pub quotient : ℤ → ℕ → Rate
  pub below_one : Rate → Bool

-- `Download`. A time is in nanoseconds, and `none` is the zero time.
pub record Download (R : Type 0) : Type 0 where
  pub t : Torrent
  pub added : ℕ
  pub magnet : Text
  pub skip : List ℕ
  pub err : Option Error
  pub wanted : Option (List Bool)
  pub paused : Bool
  pub last_sample_at : Option ℕ
  pub last_down : ℤ
  pub last_up : ℤ
  pub down_rate : R
  pub up_rate : R
  pub stall_since : Option ℕ

-- `t.Files()`, empty before the metadata.
abbrev pub files_of : Torrent → List File
files_of t = elim t.files [ none ↦ [] | some fs ↦ fs ]

-- The body of the loop in `applyLocked`, over the files and the selection from some index on.
unfoldable pub prioritise : Bool → List Bool → List File → List File
prioritise paused ws [] = []
prioritise paused [] (f ∷ fs) = record f { priority = priority_none } ∷ prioritise paused [] fs
prioritise paused (w ∷ ws) (f ∷ fs) =
    record f { priority = if w && not paused then priority_normal else priority_none }
    ∷ prioritise paused ws fs

-- `w[i] = !skip[i]` for the indices from `i` on.
unfoldable pub select_from : List ℕ → ℕ → List File → List Bool
unfolding contains
select_from skip i [] = []
select_from skip i (f ∷ fs) = not (contains ℕ_discrete i skip) ∷ select_from skip (suc i) fs

-- The loop of `Files`; a file beyond the selection is wanted.
unfoldable pub file_infos : ℕ → List Bool → List File → List FileInfo
file_infos i ws [] = []
file_infos i [] (f ∷ fs) =
    record { index = i; path = f.path; size = f.size; completed = f.completed; wanted = true }
    ∷ file_infos (suc i) [] fs
file_infos i (w ∷ ws) (f ∷ fs) =
    record { index = i; path = f.path; size = f.size; completed = f.completed; wanted = w }
    ∷ file_infos (suc i) ws fs

-- The loop of `Status` over the files: the bytes of the wanted ones, in all and done.
unfoldable pub count_bytes : List Bool → List File → ℕ × ℕ
count_bytes ws [] = (0, 0)
count_bytes [] (f ∷ fs) =
    let (total, done) = count_bytes [] fs in (f.size + total, f.completed + done)
count_bytes (true ∷ ws) (f ∷ fs) =
    let (total, done) = count_bytes ws fs in (f.size + total, f.completed + done)
count_bytes (false ∷ ws) (f ∷ fs) = count_bytes ws fs

abbrev pub selection : Option (List Bool) → List Bool
selection none = []
selection (some ws) = ws

module _ {R : Type 0} where
  -- `applyLocked`
  unfoldable pub apply_locked : Download R → Download R
  unfolding prioritise
  apply_locked d = elim d.wanted [
    | none ↦ d
    | some ws ↦ elim d.t.files [
      | none ↦ d
      | some fs ↦ record d { t = record d.t { files = some (prioritise d.paused ws fs) } }
    ]
  ]

  -- `initSelection`
  unfoldable pub init_selection : Download R → Download R
  unfolding select_from
  init_selection d = apply_locked (record d { wanted = some (select_from d.skip 0 (files_of d.t)) })

  -- `SetPaused`
  unfoldable pub set_paused : Bool → Download R → Download R
  set_paused p d = apply_locked (record d { paused = p })

  -- `SetFileWanted`: the new state, and the error if there is one.
  unfoldable pub set_file_wanted : ℤ → Bool → Download R → Download R × Option Error
  set_file_wanted index w d = elim d.wanted [
    | none ↦ (d, some metadata_not_ready)
    | some ws ↦ elim index [
      | negsuc n ↦ (d, some (out_of_range (negsuc n) (length ws)))
      | pos i ↦
          if leb (length ws) i
          then (d, some (out_of_range (pos i) (length ws)))
          else (apply_locked (record d { wanted = some (set ws i w) }), none)
    ]
  ]

  -- `SetAllWanted`
  unfoldable pub set_all_wanted : Bool → Download R → Download R
  set_all_wanted w d = elim d.wanted [
    | none ↦ d
    | some ws ↦ apply_locked (record d { wanted = some (replicate (length ws) w) })
  ]

  -- `setErr`
  unfoldable pub set_err : Error → Download R → Download R
  set_err e d = record d { err = some e }

  -- `Files`; `none` is nil.
  unfoldable pub files : Download R → Option (List FileInfo)
  unfolding file_infos
  files d = elim d.t.files [ none ↦ none | some fs ↦ some (file_infos 0 (selection d.wanted) fs) ]

  -- `TotalBytes` and `BytesDone` of `Status`.
  unfoldable pub status_bytes : Download R → ℕ × ℕ
  unfolding count_bytes
  status_bytes d = elim d.t.files [ none ↦ (0, 0) | some fs ↦ count_bytes (selection d.wanted) fs ]

module _ (rates : Rates) where
  open rates use {Rate, quotient, below_one}

  -- `SampleRate` after its test: the rates over the time that passed, if any did.
  unfoldable pub measure : ℕ → Stats → Download Rate → Download Rate
  measure elapsed s d = record d {
    down_rate = quotient (s.bytes_read -ℤ d.last_down) elapsed;
    up_rate = quotient (s.bytes_written -ℤ d.last_up) elapsed;
  }

  -- The end of `SampleRate`: when a stall began.
  unfoldable pub watch_stall : ℕ → Stats → Download Rate → Download Rate
  watch_stall now s d =
      if below_one d.down_rate && s.active_peers == 0
      then elim d.stall_since [ none ↦ record d { stall_since = some now } | some _ ↦ d ]
      else record d { stall_since = none }

  -- `!d.lastSampleAt.IsZero() && elapsed > 0`
  unfoldable pub has_elapsed : Option ℕ → ℕ → Bool
  has_elapsed none now = false
  has_elapsed (some before) now = ltb before now

  abbrev pub elapsed_since : Option ℕ → ℕ → ℕ
  elapsed_since none now = 0
  elapsed_since (some before) now = now - before

  abbrev pub note_sample : ℕ → Stats → Download Rate → Download Rate
  note_sample now s d = record d {
    last_sample_at = some now;
    last_down = s.bytes_read;
    last_up = s.bytes_written;
  }

  -- `SampleRate`
  unfoldable pub sample_rate : ℕ → Stats → Download Rate → Download Rate
  unfolding measure has_elapsed
  sample_rate now s d =
      if has_elapsed d.last_sample_at now
      then watch_stall now s (note_sample now s (measure (elapsed_since d.last_sample_at now) s d))
      else note_sample now s d

-- `StallDuration`; the clock does not run backwards.
unfoldable pub stall_duration : {R : Type 0} → Download R → ℕ → ℕ
stall_duration d now = elim d.stall_since [ none ↦ 0 | some since ↦ now - since ]

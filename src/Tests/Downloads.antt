-- ===== src/Tests/Downloads.antt =====
-- A download of two files, for internal/engine/download.go.
use p2pget.Prelude.{
  List, [], ◌∷◌, ◌≡◌, ◌⊎◌, true, false, none, some, ℤ, pos, length, codes, refl, arith, ltb_ℤ,
  replicate,
}
use p2pget.Download.{
  Download, File, Torrent, Stats, Rates, priority_none, priority_normal, set_paused,
  set_file_wanted, select_from,
}
use p2pget.Download.Selection.{IsApplied, WishChanged, WishRefused, set_file_wanted_lem}
use p2pget.Download.Pause.{pause-resume}
use p2pget.Download.Stall.{sample_all, stalled_from, sample_all-stall, Sample}
use p2pget.Engine.{restart_skip, task_record}
use p2pget.Engine.Resume.{restart_skip-selects, task_record_forgets}

-- Rates that count the bytes alone.
abbrev pub byte_rates : Rates
byte_rates = record {
  Rate = ℤ;
  still = pos 0;
  quotient = λ bytes elapsed. bytes;
  below_one = λ r. ltb_ℤ r (pos 1);
}

abbrev two_files : List File
two_files =
    record { path = codes "a"; size = 10; completed = 4; priority = priority_normal }
    ∷ record { path = codes "b"; size = 20; completed = 0; priority = priority_none }
    ∷ []

abbrev pub torrent : Torrent
torrent = record { handle = 1; info_hash = codes "abc"; name = codes "t"; files = some two_files }

abbrev pub running : Download ℤ
running = record {
  t = torrent;
  added = 0;
  magnet = codes "magnet:";
  skip = 1 ∷ [];
  err = none;
  wanted = some (true ∷ false ∷ []);
  paused = false;
  last_sample_at = some 10;
  last_down = pos 0;
  last_up = pos 0;
  down_rate = pos 0;
  up_rate = pos 0;
  stall_since = none;
}

abbrev waiting : Download ℤ
waiting = record running { wanted = none; t = record torrent { files = none } }

running-IsApplied : IsApplied running
running-IsApplied = (refl, (refl, tt))

set_file_wanted_lem_example :
    WishChanged running (pos 1) true (set_file_wanted (pos 1) true running)
    ⊎ WishRefused running (pos 1) (set_file_wanted (pos 1) true running)
set_file_wanted_lem_example = set_file_wanted_lem running (pos 1) true running-IsApplied

pause-resume_example : set_paused false (set_paused true running) ≡ running
pause-resume_example = pause-resume running running-IsApplied refl

abbrev pub silent : Stats
silent = record {
  bytes_read = pos 0;
  bytes_written = pos 0;
  total_peers = 0;
  active_peers = 0;
  connected_seeders = 0;
}

abbrev samples : List Sample
samples =
    (12, record silent { bytes_read = pos 7 }) ∷ (15, record silent { bytes_read = pos 7 }) ∷ []

sample_all-stall_example :
    (sample_all byte_rates samples running).stall_since
    ≡ stalled_from byte_rates 10 running.last_down samples
sample_all-stall_example =
    sample_all-stall byte_rates running 10 samples refl refl (omega arith, (omega arith, tt))

restart_skip-selects_example :
    (select_from (restart_skip running) 0 two_files ≡ true ∷ false ∷ [])
    × (select_from (task_record running).skip 0 two_files ≡ true ∷ false ∷ [])
restart_skip-selects_example =
    restart_skip-selects running {fs = two_files} {ws = true ∷ false ∷ []} refl refl refl

task_record_forgets_example :
    (restart_skip waiting ≡ waiting.skip)
    × ((task_record waiting).skip ≡ [])
    × (select_from (task_record waiting).skip 0 two_files ≡ replicate (length two_files) true)
task_record_forgets_example = task_record_forgets waiting two_files refl

-- ===== src/Download/Status.antt =====
-- `Status` of internal/engine/download.go: what a download shows of itself.
use p2pget.Prelude.{ℕ, Bool, true, false, ◌&&◌, ltb, leb, ℤ, Option, none, some, Text}
use p2pget.Download.{Download, Stats, Error, status_bytes}

-- `Status`; an error stands for its text.
pub record Status (R : Type 0) : Type 0 where
  pub name : Text
  pub info_hash : Text
  pub have_info : Bool
  pub total_bytes : ℕ
  pub bytes_done : ℕ
  pub peers : ℕ
  pub active_peers : ℕ
  pub seeders : ℕ
  pub downloaded : ℤ
  pub uploaded : ℤ
  pub down_rate : R
  pub up_rate : R
  pub paused : Bool
  pub added_at : ℕ
  pub err : Option Error

-- `t.Info() != nil`
abbrev pub is_there : {A : Type 0} → Option A → Bool
is_there none = false
is_there (some x) = true

module _ {R : Type 0} where
  unfoldable pub status : Stats → Download R → Status R
  status stats d = record {
    name = d.t.name;
    info_hash = d.t.info_hash;
    have_info = is_there d.t.files;
    total_bytes = (status_bytes d).0;
    bytes_done = (status_bytes d).1;
    peers = stats.total_peers;
    active_peers = stats.active_peers;
    seeders = stats.connected_seeders;
    downloaded = stats.bytes_read;
    uploaded = stats.bytes_written;
    down_rate = d.down_rate;
    up_rate = d.up_rate;
    paused = d.paused;
    added_at = d.added;
    err = d.err;
  }

  -- `isCompleted` of internal/tui/app.go.
  unfoldable pub is_completed : Status R → Bool
  is_completed s = s.have_info && ltb 0 s.total_bytes && leb s.total_bytes s.bytes_done

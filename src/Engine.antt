-- ===== src/Engine.antt =====
-- internal/engine/engine.go: the downloads of an engine, how they are added, removed, restarted,
-- saved and restored. A download is an object on a heap, named by its position there; the map of
-- the engine holds such names. Of the torrent client each call is given what the client would
-- answer; the state file holds the records that its JSON stands for. A call is one step.
pub mod Config
pub mod Resume
pub mod Valid
pub mod Keeps
pub mod Steps
pub mod Restore
pub mod Persist
pub mod Migrate
pub mod Listing
pub mod Refusals
pub mod Sources
pub mod Metadata
pub mod Members
use p2pget.Prelude.{
  ℕ, zero, suc, ◌+◌, List, [], ◌∷◌, ◌++◌, Bool, true, false, not, ◌&&◌, ltb, leb, ◌==◌,
  if◌then◌else◌, ℤ, pos, negsuc, Option, none, some, Text, codes, length, get_elem?, set, is_empty,
  byte_len, text_discrete, lookup, put, delete,
}
use p2pget.Strings.{Unicode, to_lower, trim_space}
use p2pget.Download.{
  Download, Torrent, File, FileInfo, Rates, files, init_selection, set_err, metadata_timeout,
}
use p2pget.Download

-- What the torrent client answers: the name of a hexadecimal info-hash, and the torrent that an
-- addition gives; `none` is an error. `add_torrent` is given the info-hash that the metainfo has.
pub record Client : Type 0 where
  pub from_hex : Text → Option Text
  pub add_magnet : Text → Option Torrent
  pub add_info_hash : Text → Torrent
  pub add_torrent : Text → Option Torrent

-- `taskRecord`
pub record TaskRecord : Type 0 where
  pub info_hash : Text
  pub magnet : Text
  pub skip : List ℕ

pub data Failure : Type 0 where
  bad_length : ℕ → Failure
  bad_hex no_such_download client_refused : Failure
  unreadable unreachable unparsed : Failure
  bad_status : ℕ → Failure

pub data Outcome (A : Type 0) : Type 0 where
  ok : A → Outcome A
  failed : Failure → Outcome A

-- `Engine`, with the file at `statePath` (`none` inside if there is no file) unless persistence is
-- off, and the torrents that it has dropped.
pub record Engine (R : Type 0) : Type 0 where
  pub heap : List (Download R)
  pub downloads : List (Text × ℕ)
  pub dropped : List ℕ
  pub persistent : Bool
  pub state_file : Option (List TaskRecord)

-- `!f.Wanted` collects the index, in `Restart` and `persistState`.
unfoldable pub skipped : List FileInfo → List ℕ
skipped [] = []
skipped (i ∷ is) = let rest = skipped is in if i.wanted then rest else i.index ∷ rest

abbrev pub skipped_files : Option (List FileInfo) → List ℕ
skipped_files none = []
skipped_files (some is) = skipped is

module _ {R : Type 0} where
  -- A new `Download`, as `track` makes it.
  unfoldable pub new_download : R → Torrent → ℕ → Text → List ℕ → Download R
  new_download still t now magnet skip = record {
    t = t;
    added = now;
    magnet = magnet;
    skip = skip;
    err = none;
    wanted = none;
    paused = false;
    last_sample_at = none;
    last_down = pos 0;
    last_up = pos 0;
    down_rate = still;
    up_rate = still;
    stall_since = none;
  }

  -- `d, ok := e.downloads[hash]; ok && d.Err() == nil`
  unfoldable pub healthy : Engine R → Text → Option ℕ
  healthy e hash = elim (lookup text_discrete hash e.downloads) [
    | none ↦ none
    | some id ↦ elim (get_elem? e.heap id) [
      | none ↦ none
      | some d ↦ elim d.err [ none ↦ some id | some _ ↦ none ]
    ]
  ]

  -- `track`: the engine, and the download of the torrent. `still` is the rate 0.
  unfoldable pub track : R → Torrent → ℕ → Text → List ℕ → Engine R → Engine R × ℕ
  unfolding new_download
  track still t now magnet skip e = elim (healthy e t.info_hash) [
    | some id ↦ (e, id)
    | none ↦ (
      record e {
        heap = e.heap ++ new_download still t now magnet skip ∷ [];
        downloads = put text_discrete t.info_hash (length e.heap) e.downloads;
      },
      length e.heap,
    )
  ]

  -- The record that `persistState` writes for a download.
  unfoldable pub task_record : Download R → TaskRecord
  unfolding skipped
  task_record d = record {
    info_hash = d.t.info_hash;
    magnet = d.magnet;
    skip = skipped_files (files d);
  }

  -- The downloads of the map, in its order.
  unfoldable pub collect : List (Download R) → List (Text × ℕ) → List (Download R)
  collect heap [] = []
  collect heap ((h, id) ∷ m) =
      let rest = collect heap m in elim (get_elem? heap id) [ none ↦ rest | some d ↦ d ∷ rest ]

  unfoldable pub task_records : List (Download R) → List TaskRecord
  unfolding task_record
  task_records [] = []
  task_records (d ∷ ds) = task_record d ∷ task_records ds

  -- `persistState`. The file is replaced by a rename, if both the write and the rename succeed.
  unfoldable pub persist_state : Bool → Engine R → Engine R
  unfolding collect task_records
  persist_state written e =
      if e.persistent && written
      then record e { state_file = some (task_records (collect e.heap e.downloads)) }
      else e

  -- `AddMagnet`
  unfoldable pub add_magnet : R → Client → ℕ → Bool → Text → Engine R → Engine R × Outcome ℕ
  add_magnet still c now written uri e = elim (c.add_magnet uri) [
    | none ↦ (e, failed client_refused)
    | some t ↦ let (e', id) = track still t now uri [] e in (persist_state written e', ok id)
  ]

  -- `AddTorrentFile` and `AddTorrentURL` behind the reading of the metainfo, which has this hash.
  unfoldable pub add_torrent : R → Client → ℕ → Bool → Text → Engine R → Engine R × Outcome ℕ
  add_torrent still c now written hash e = elim (c.add_torrent hash) [
    | none ↦ (e, failed client_refused)
    | some t ↦ let (e', id) = track still t now [] [] e in (persist_state written e', ok id)
  ]

  module _ ⦃u : Unicode⦄ where
    -- `AddInfoHash`
    unfoldable pub add_info_hash : R → Client → ℕ → Bool → Text → Engine R → Engine R × Outcome ℕ
    add_info_hash still c now written text e =
        let hex = to_lower (trim_space text) in
        if not (byte_len hex == 40)
        then (e, failed (bad_length (byte_len hex)))
        else elim (c.from_hex hex) [
          | none ↦ (e, failed bad_hex)
          | some h ↦
              let (e', id) = track still (c.add_info_hash h) now [] [] e in
              (persist_state written e', ok id)
        ]

    -- The body of the loop of `restore`.
    unfoldable pub restore_one : R → Client → ℕ → TaskRecord → Engine R → Engine R
    restore_one still c now r e =
        if not (is_empty r.magnet)
        then elim (c.add_magnet r.magnet) [
          | none ↦ e
          | some t ↦ (track still t now r.magnet r.skip e).0
        ]
        else if byte_len r.info_hash == 40
        then elim (c.from_hex (to_lower r.info_hash)) [
          | none ↦ e
          | some h ↦ (track still (c.add_info_hash h) now [] r.skip e).0
        ]
        else e

    unfoldable pub restore_all : R → Client → ℕ → List TaskRecord → Engine R → Engine R
    unfolding restore_one
    restore_all still c now [] e = e
    restore_all still c now (r ∷ rs) e = restore_all still c now rs (restore_one still c now r e)

    -- `restore`
    unfoldable pub restore : R → Client → ℕ → Engine R → Engine R
    unfolding restore_all
    restore still c now e = elim e.state_file [ none ↦ e | some rs ↦ restore_all still c now rs e ]

  -- `delete(e.downloads, h)` and `Drop`, in `Remove` and `Restart`.
  unfoldable pub forget : Text → Download R → Engine R → Engine R
  forget h d e = record e {
    downloads = delete text_discrete h e.downloads;
    dropped = d.t.handle ∷ e.dropped;
  }

  -- The download that a hash names; a name that leads nowhere does not occur.
  unfoldable pub find : Text → Engine R → Option (Download R)
  find h e = elim (lookup text_discrete h e.downloads) [
    | none ↦ none
    | some id ↦ get_elem? e.heap id
  ]

  -- `Remove`, without the wiping of the files.
  unfoldable pub remove : Client → Bool → Text → Engine R → Engine R × Outcome (Unit {0})
  remove c written hash e = elim (c.from_hex hash) [
    | none ↦ (e, failed bad_hex)
    | some h ↦ elim (find h e) [
      | none ↦ (e, failed no_such_download)
      | some d ↦ (persist_state written (forget h d e), ok tt)
    ]
  ]

  -- `skip` in `Restart`.
  unfoldable pub restart_skip : Download R → List ℕ
  unfolding skipped
  restart_skip d = elim d.t.files [ none ↦ d.skip | some _ ↦ skipped_files (files d) ]

  -- The `switch` of `Restart`: how the torrent is added again.
  unfoldable pub re_add : Client → Text → Download R → Option Torrent
  re_add c h d = elim d.t.files [
    | some _ ↦ c.add_torrent h
    | none ↦ if not (is_empty d.magnet) then c.add_magnet d.magnet else some (c.add_info_hash h)
  ]

  -- `Restart`
  unfoldable pub restart : R → Client → ℕ → Bool → Text → Engine R → Engine R × Outcome (Unit {0})
  restart still c now written hash e = elim (c.from_hex hash) [
    | none ↦ (e, failed bad_hex)
    | some h ↦ elim (find h e) [
      | none ↦ (e, failed no_such_download)
      | some d ↦ elim (re_add c h d) [
        | none ↦ (forget h d e, failed client_refused)
        | some t ↦ (
          persist_state written (track still t now d.magnet (restart_skip d) (forget h d e)).0,
          ok tt,
        )
      ]
    ]
  ]

-- What ends the wait of `awaitMetadata`.
pub data Arrival : Type 0 where
  got_info : List File → Arrival
  closed timed_out : Arrival

module _ {R : Type 0} where
  -- A change to one download on the heap.
  unfoldable pub modify : ℕ → (Download R → Download R) → Engine R → Engine R
  modify id f e = elim (get_elem? e.heap id) [
    | none ↦ e
    | some d ↦ record e { heap = set e.heap id (f d) }
  ]

  unfoldable pub with_info : List File → Download R → Download R
  with_info fs d = init_selection (record d { t = record d.t { files = some fs } })

  unfoldable pub drop_torrent : ℕ → Engine R → Engine R
  drop_torrent id e = elim (get_elem? e.heap id) [
    | none ↦ e
    | some d ↦ record e { dropped = d.t.handle ∷ e.dropped }
  ]

  -- `awaitMetadata`; a negative timeout never fires. The files are those that the client reports
  -- after recoverExistingData.
  unfoldable pub await_metadata : ℤ → ℕ → Arrival → Engine R → Engine R
  unfolding modify with_info drop_torrent
  await_metadata timeout id (got_info fs) e = modify id (with_info fs) e
  await_metadata timeout id closed e = e
  await_metadata (pos n) id timed_out e = drop_torrent id (modify id (set_err metadata_timeout) e)
  await_metadata (negsuc n) id timed_out e = e

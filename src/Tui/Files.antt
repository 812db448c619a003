-- ===== src/Tui/Files.antt =====
-- `updateFileView` of internal/tui/app.go: the screen on which the files of a download are chosen.
use p2pget.Prelude.{
  ℕ, suc, ◌-◌, List, [], Bool, true, false, not, ltb, if◌then◌else◌, pos, Option, none, some,
  length, get_elem?,
}
use p2pget.Download.{FileInfo, Error, files, set_file_wanted, set_all_wanted}
use p2pget.Engine.{Engine, modify}
use p2pget.Tui.{
  Kit, Model, FileView, Key, Command, no_command, quit, toggle_failed, key_ctrl_c, key_ctrl_q,
  key_esc, key_q, key_enter, key_up, key_k, key_down, key_j, key_space, key_a, key_n,
}
use p2pget.Tui.Watch.{refresh_downloads}

-- What comes of `fv.files[fv.cursor]`: a Go slice panics out of range.
pub data Outcome (A : Type 0) : Type 0 where
  panics : Outcome A
  runs : A → Outcome A

abbrev pub file_list : Option (List FileInfo) → List FileInfo
file_list none = []
file_list (some fs) = fs

module _ {R : Type 0} where
  -- `d.Files()` of a download that is named; nil is the empty list.
  unfoldable pub files_at : Engine R → ℕ → List FileInfo
  files_at e id = elim (get_elem? e.heap id) [ none ↦ [] | some d ↦ file_list (files d) ]

  -- `SetFileWanted` of a download that is named.
  unfoldable pub set_wanted_at : ℕ → ℕ → Bool → Engine R → Engine R × Option Error
  set_wanted_at id index wanted e = elim (get_elem? e.heap id) [
    | none ↦ (e, none)
    | some d ↦
        let (d', err) = set_file_wanted (pos index) wanted d in (modify id (λ old. d') e, err)
  ]

module _ {kit : Kit} where
  abbrev with_view : FileView → Model kit → Model kit
  with_view fv m = record m { file_view = some fv }

  -- `fv.files = fv.d.Files()`
  unfoldable pub reload : FileView → Model kit → Model kit
  unfolding files_at
  reload fv m = with_view (record fv { files = files_at m.engine fv.d }) m

  -- The body of `case " "` on the file under the cursor.
  unfoldable pub toggle : FileView → FileInfo → Model kit → Model kit
  unfolding set_wanted_at reload
  toggle fv f m =
      let (e, err) = set_wanted_at fv.d f.index (not f.wanted) m.engine in
      elim err [
        | some x ↦ record m { engine = e; status = toggle_failed x }
        | none ↦ reload fv (record m { engine = e })
      ]

  unfoldable pub press_space : FileView → Model kit → Outcome (Model kit)
  unfolding toggle
  press_space fv m =
      if ltb 0 (length fv.files)
      then elim (get_elem? fv.files fv.cursor) [ none ↦ panics | some f ↦ runs (toggle fv f m) ]
      else runs m

  -- `SetAllWanted`, and the files again.
  unfoldable pub choose_all : Bool → FileView → Model kit → Model kit
  unfolding reload
  choose_all wanted fv m =
      reload fv (record m { engine = modify fv.d (set_all_wanted wanted) m.engine })

  unfoldable pub close_view : Model kit → Model kit
  close_view m = refresh_downloads (record m { file_view = none })

  unfoldable pub cursor_up : FileView → Model kit → Model kit
  cursor_up fv m = if ltb 0 fv.cursor then with_view (record fv { cursor = fv.cursor - 1 }) m else m

  unfoldable pub cursor_down : FileView → Model kit → Model kit
  cursor_down fv m =
      if ltb (suc fv.cursor) (length fv.files)
      then with_view (record fv { cursor = suc fv.cursor }) m
      else m

  abbrev pub and_no_command : Outcome (Model kit) → Outcome (Model kit × Command)
  and_no_command panics = panics
  and_no_command (runs m) = runs (m, no_command)

  -- `updateFileView`
  unfoldable pub update_file_view : Key → FileView → Model kit → Outcome (Model kit × Command)
  update_file_view key_ctrl_c fv m = runs (m, quit)
  update_file_view key_ctrl_q fv m = runs (m, quit)
  update_file_view key_esc fv m = runs (close_view m, no_command)
  update_file_view key_q fv m = runs (close_view m, no_command)
  update_file_view key_enter fv m = runs (close_view m, no_command)
  update_file_view key_up fv m = runs (cursor_up fv m, no_command)
  update_file_view key_k fv m = runs (cursor_up fv m, no_command)
  update_file_view key_down fv m = runs (cursor_down fv m, no_command)
  update_file_view key_j fv m = runs (cursor_down fv m, no_command)
  update_file_view key_space fv m = and_no_command (press_space fv m)
  update_file_view key_a fv m = runs (choose_all true fv m, no_command)
  update_file_view key_n fv m = runs (choose_all false fv m, no_command)
  update_file_view _ fv m = runs (m, no_command)

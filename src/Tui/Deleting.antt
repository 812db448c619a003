-- ===== src/Tui/Deleting.antt =====
-- When internal/tui/app.go removes files from the disk.
pub mod Confirmed
pub mod Runs
use p2pget.Prelude.{
  ℕ, suc, ◌+◌, ◌%◌, List, [], ◌∷◌, ◌++◌, Bool, true, false, not, ◌&&◌, ltb, leb, ◌==◌,
  if◌then◌else◌, ◌≡◌, ◌≢◌, ◌⊎◌, refl, ap, sym, ◌∙◌, arith, ℤ, Option, none, some, Text, length,
  get_elem?, is_empty, Bool-cases, Option-cases, inl, inr,
}
use p2pget.Strings.{Unicode, trim_space}
use p2pget.Download.{Download, FileInfo, files}
use p2pget.Engine
use p2pget.Engine.{Engine, Failure, remove}
use p2pget.Engine.Listing.{sample_rates}
use p2pget.Search.Collect.{Answer}
use p2pget.Tui.{
  Kit, Model, World, FileView, Key, Message, Command, Notice, AddError, new_model, tab_search,
  tab_downloads, quit, no_command, key_ctrl_c, key_ctrl_q, key_tab, key_shift_tab, key_q, key_slash,
  key_d, key_p, key_big_d, key_esc, key_enter, key_y, key_big_y, key_up, key_k, key_down, key_j,
  key_space, key_a, key_n, key, window_size, search_chunk, refresh, download_added, other_message,
  delete_failed, deleted, remove_failed, removed,
}
use p2pget.Tui.Watch.{refresh_downloads, prune_completed, restart_stalled, recompute_totals}
use p2pget.Tui.Files.{
  Outcome, runs, panics, set_wanted_at, toggle, press_space, choose_all, reload, close_view,
  cursor_up, cursor_down, update_file_view, and_no_command,
}
use p2pget.Tui.Keys.{
  Step, wiped_by, sync_input_focus, pass_on, resize, start_search, pause_selected, ask_delete,
  open_files, submit, after_remove, delete_confirmed, answer_delete, remove_selected, press,
  update_key, on_list, on_results, selected_download,
}
use p2pget.Tui.Update.{
  update, update_chunk, update_added, update_refresh, refresh_view, take_answer,
}

module _ {kit : Kit} where
  -- Neither the question nor the disk is touched.
  abbrev pub Same : Model kit → Model kit → Type 0
  Same m m' = (m'.confirm_delete ≡ m.confirm_delete) × (m'.wiped ≡ m.wiped)

  abbrev pub SameOutcome : Model kit → Outcome (Model kit × Command) → Type 0
  SameOutcome m panics = Unit
  SameOutcome m (runs (m', c)) = Same m m'

  abbrev pub SameOption : Model kit → Option (Step kit) → Type 0
  SameOption m none = Unit
  SameOption m (some (m', c)) = Same m m'

  pub refresh_downloads-Same : (m : Model kit) → Same m (refresh_downloads m)
  unfolding refresh_downloads
  refresh_downloads-Same m = ground arith

  pub after_remove-Same :
      (bad : Failure → Notice) (good : Notice)
      (p : Engine kit.rates.Rate × Engine.Outcome (Unit {0})) (m : Model kit)
      → Same m (after_remove bad good p m)
  unfolding after_remove
  after_remove-Same bad good (e, Engine.failed x) m = (refl, refl)
  after_remove-Same bad good (e, Engine.ok x) m =
      refresh_downloads-Same (record m { engine = e; status = good })

  pub pass_on-Same : (msg : Message) (m : Model kit) → Same m (pass_on msg m).0
  unfolding pass_on
  pass_on-Same msg m = ground arith

  toggle-Same : (fv : FileView) (f : FileInfo) (m : Model kit) → Same m (toggle fv f m)
  unfolding toggle reload
  toggle-Same fv f m = elim (Option-cases (set_wanted_at fv.d f.index (not f.wanted) m.engine).1) [
    | inl fine ↦ rw (fine, toggle) (refl, refl)
    | inr (x, bad) ↦ rw (bad, toggle) (refl, refl)
  ]

  press_space-Same :
      (fv : FileView) (m : Model kit) → SameOutcome m (and_no_command (press_space fv m))
  unfolding press_space
  press_space-Same fv m = elim (Bool-cases (ltb 0 (length fv.files))) [
    | inr empty ↦ rw (empty, press_space) (refl, refl)
    | inl there ↦ elim (Option-cases (get_elem? fv.files fv.cursor)) [
      | inl out ↦ rw (there, press_space) (rw (out, press_space) tt)
      | inr (f, at) ↦ rw (there, press_space) (rw (at, press_space) (toggle-Same fv f m))
    ]
  ]

  cursor_up-Same : (fv : FileView) (m : Model kit) → Same m (cursor_up fv m)
  unfolding cursor_up
  cursor_up-Same fv m = ground arith

  cursor_down-Same : (fv : FileView) (m : Model kit) → Same m (cursor_down fv m)
  unfolding cursor_down
  cursor_down-Same fv m = ground arith

  pub update_file_view-Same :
      (k : Key) (fv : FileView) (m : Model kit) → SameOutcome m (update_file_view k fv m)
  unfolding update_file_view close_view choose_all reload
  update_file_view-Same k fv m =
      let closed = refresh_downloads-Same (record m { file_view = none }) in
      elim k as (λ k. SameOutcome m (update_file_view k fv m)) [
        | key_esc ↦ closed
        | key_q ↦ closed
        | key_enter ↦ closed
        | key_up ↦ cursor_up-Same fv m
        | key_k ↦ cursor_up-Same fv m
        | key_down ↦ cursor_down-Same fv m
        | key_j ↦ cursor_down-Same fv m
        | key_space ↦ press_space-Same fv m
        | _ ↦ (refl, refl)
      ]

  pub sync_input_focus-Same : (m : Model kit) → Same m (sync_input_focus m)
  unfolding sync_input_focus
  sync_input_focus-Same m = ground arith

  pub submit-Same : (m : Model kit) → Same m (submit m).0
  unfolding submit start_search
  submit-Same m = elim (Bool-cases (is_empty (trim_space (kit.input.value m.input)))) [
    | inl blank ↦ rw (blank, submit) (refl, refl)
    | inr asks ↦ rw (asks, submit) (refl, refl)
  ]

  pub open_files-Same :
      (id : ℕ) (d : Download kit.rates.Rate) (m : Model kit) → Same m (open_files id d m)
  unfolding open_files
  open_files-Same id d m = elim (Option-cases (files d)) [
    | inl unknown ↦ rw (unknown, open_files) (refl, refl)
    | inr (fs, known) ↦ rw (known, open_files) (refl, refl)
  ]

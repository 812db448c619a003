-- ===== src/Tui/Steady/Files.antt =====
-- The file view of internal/tui/app.go keeps its cursor on a file, and never panics.
use p2pget.Prelude.{
  suc, tests, Bool, true, false, not, ltb, ◌≡◌, arith, none, some, length, Bool-cases, Option-cases,
  inl, inr,
}
use p2pget.Download.{FileInfo, set_all_wanted}
use p2pget.Engine.{Engine, modify}
use p2pget.Tui.{
  Kit, Model, FileView, Key, Command, key_esc, key_q, key_enter, key_up, key_k, key_down, key_j,
  key_space, key_a, key_n,
}
use p2pget.Tui.Files.{
  Outcome, runs, panics, files_at, set_wanted_at, reload, toggle, press_space, choose_all,
  close_view, cursor_up, cursor_down, update_file_view, and_no_command,
}
use p2pget.Tui.Steady.{IsSteady, IsSound, ViewSteady, refresh_downloads-IsSteady}
use p2pget.Tui.Steady.Counts.{within, modify-files_at, set_all_wanted-count, set_wanted_at-files_at}

module _ {kit : Kit} where
  -- A view that is shown.
  abbrev Shows : FileView → Model kit → Type 0
  Shows fv m =
      IsSound m
      × (kit.input.focused m.input ≡ true → m.active ≡ 0)
      × ViewSteady m.engine m.active m.confirm_delete (some fv)

  -- The files again, after a change that keeps how many the download shows.
  reload-IsSteady :
      (fv : FileView) (m : Model kit) (e : Engine kit.rates.Rate)
      → Shows fv m
      → length (files_at e fv.d) ≡ length (files_at m.engine fv.d)
      → IsSteady (reload fv (record m { engine = e }))
  unfolding reload
  reload-IsSteady fv m e (a, f, (tab, unasked, cursor, count)) same =
      (a, f, (tab, unasked, omega arith, omega arith))

  -- No panic, and a steady state.
  abbrev pub StepsWell : Outcome (Model kit × Command) → Type 0
  StepsWell panics = ⊥
  StepsWell (runs (m, c)) = IsSteady m

  shown-IsSteady : (fv : FileView) (m : Model kit) → m.file_view ≡ some fv → Shows fv m → IsSteady m
  shown-IsSteady fv m open_on (a, f, v) = (a, f, rw (open_on) v)

  toggle-IsSteady :
      (fv : FileView) (f : FileInfo) (m : Model kit)
      → m.file_view ≡ some fv
      → Shows fv m
      → IsSteady (toggle fv f m)
  unfolding toggle
  toggle-IsSteady fv f m open_on (a, focus, v) =
      let done = set_wanted_at fv.d f.index (not f.wanted) m.engine in
      let same = set_wanted_at-files_at fv.d f.index (not f.wanted) m.engine in
      elim (Option-cases done.1) [
        | inl fine ↦ rw (fine, toggle) (reload-IsSteady fv m done.0 (a, focus, v) same)
        | inr (x, bad) ↦
            rw (bad, toggle)
              (
                a,
                focus,
                rw (open_on)
                    (let (tab, unasked, cursor, count) = v in (tab, unasked, cursor, omega arith)),
              )
      ]

  press_space-StepsWell :
      (fv : FileView) (m : Model kit)
      → m.file_view ≡ some fv
      → Shows fv m
      → StepsWell (and_no_command (press_space fv m))
  unfolding press_space
  press_space-StepsWell fv m open_on s = elim (Bool-cases (ltb 0 (length fv.files))) [
    | inr empty ↦ rw (empty, press_space) (shown-IsSteady fv m open_on s)
    | inl some_files ↦
        let (a, f, (tab, unasked, cursor, count)) = s in
        let (file, at) = within fv.files fv.cursor (omega tests) in
        rw (some_files, press_space) (rw (at, press_space) (toggle-IsSteady fv file m open_on s))
  ]

  choose_all-IsSteady :
      (w : Bool) (fv : FileView) (m : Model kit) → Shows fv m → IsSteady (choose_all w fv m)
  unfolding choose_all
  choose_all-IsSteady w fv m s =
      reload-IsSteady fv m (modify fv.d (set_all_wanted w) m.engine) s
        (modify-files_at m.engine fv.d (set_all_wanted w) (λ d at. set_all_wanted-count w d))

  cursor_up-IsSteady :
      (fv : FileView) (m : Model kit)
      → m.file_view ≡ some fv
      → Shows fv m
      → IsSteady (cursor_up fv m)
  unfolding cursor_up
  cursor_up-IsSteady fv m open_on (a, f, (tab, unasked, cursor, count)) =
      elim (Bool-cases (ltb 0 fv.cursor)) [
        | inl above ↦ rw (above, cursor_up) (a, f, (tab, unasked, omega arith, count))
        | inr top ↦
            rw (top, cursor_up) (shown-IsSteady fv m open_on (a, f, (tab, unasked, cursor, count)))
      ]

  cursor_down-IsSteady :
      (fv : FileView) (m : Model kit)
      → m.file_view ≡ some fv
      → Shows fv m
      → IsSteady (cursor_down fv m)
  unfolding cursor_down
  cursor_down-IsSteady fv m open_on (a, f, (tab, unasked, cursor, count)) =
      elim (Bool-cases (ltb (suc fv.cursor) (length fv.files))) [
        | inl below ↦ rw (below, cursor_down) (a, f, (tab, unasked, omega tests, count))
        | inr bottom ↦
            rw (bottom, cursor_down)
              (shown-IsSteady fv m open_on (a, f, (tab, unasked, cursor, count)))
      ]

  close_view-IsSteady : (fv : FileView) (m : Model kit) → Shows fv m → IsSteady (close_view m)
  unfolding close_view
  close_view-IsSteady fv m (a, f, v) =
      refresh_downloads-IsSteady (record m { file_view = none }) (a, f, tt)

  -- `updateFileView` of a view that is shown leaves a steady state, and does not panic.
  pub update_file_view-StepsWell :
      (k : Key) (fv : FileView) (m : Model kit)
      → m.file_view ≡ some fv
      → IsSteady m
      → StepsWell (update_file_view k fv m)
  unfolding update_file_view
  update_file_view-StepsWell k fv m open_on (a, f, v) =
      let s : Shows fv m = (a, f, rw (open_on) at v) in
      let still = shown-IsSteady fv m open_on s in
      elim k as (λ k. StepsWell (update_file_view k fv m)) [
        | key_esc ↦ close_view-IsSteady fv m s
        | key_q ↦ close_view-IsSteady fv m s
        | key_enter ↦ close_view-IsSteady fv m s
        | key_up ↦ cursor_up-IsSteady fv m open_on s
        | key_k ↦ cursor_up-IsSteady fv m open_on s
        | key_down ↦ cursor_down-IsSteady fv m open_on s
        | key_j ↦ cursor_down-IsSteady fv m open_on s
        | key_space ↦ press_space-StepsWell fv m open_on s
        | key_a ↦ choose_all-IsSteady true fv m s
        | key_n ↦ choose_all-IsSteady false fv m s
        | _ ↦ still
      ]

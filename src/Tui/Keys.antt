-- ===== src/Tui/Keys.antt =====
-- The keys of `Update` of internal/tui/app.go.
use p2pget.Prelude.{
  ℕ, suc, ◌+◌, ◌%◌, List, [], ◌∷◌, ◌++◌, true, false, not, ◌&&◌, ◌==◌, if◌then◌else◌, ℤ, pos, ◌-ℤ◌,
  ltb_ℤ, Option, none, some, Text, get_elem?, is_empty,
}
use p2pget.Strings.{trim_space}
use p2pget.Search.{Result}
use p2pget.Download.{Download, files, set_paused}
use p2pget.Engine
use p2pget.Engine.{Engine, Failure, remove, modify, find, add_magnet, add_info_hash}
use p2pget.Tui.{
  tab_search, tab_downloads, Kit, Model, World, Key, Message, Command, Notice, key_ctrl_c,
  key_ctrl_q, key_tab, key_shift_tab, key_q, key_slash, key_d, key_p, key_big_d, key_esc, key_enter,
  key_y, key_big_y, key, no_command, quit, blink, of_widget, wait_chunk, add_download, deleted,
  delete_cancelled, removed, paused, resumed, info_not_ready, delete_failed, remove_failed, confirm,
  searching,
}
use p2pget.Tui.Watch.{refresh_downloads}
use p2pget.Tui.Files.{Outcome, runs, update_file_view}

-- The path that `Remove(hash, true)` takes away, that of the download with this hash.
unfoldable pub wiped_by : {R : Type 0} → World → Text → Engine R → List Text
wiped_by w hash e = elim (w.client.from_hex hash) [
  | none ↦ []
  | some h ↦ elim (find h e) [ none ↦ [] | some d ↦ w.path_of d.t.name ∷ [] ]
]

abbrev pub Step : Kit → Type 0
Step kit = Model kit × Command

module _ {kit : Kit} where
  -- `syncInputFocus`
  unfoldable pub sync_input_focus : Model kit → Model kit
  sync_input_focus m =
      if not (m.active == tab_search) && kit.input.focused m.input
      then record m { input = kit.input.blur m.input }
      else m

  -- The end of `Update`: the widget of the tab takes the message.
  unfoldable pub pass_on : Message → Model kit → Step kit
  pass_on msg m =
      if m.active == tab_search
      then if kit.input.focused m.input
        then (record m { input = kit.input.type msg m.input }, of_widget)
        else (record m { results = kit.results.move msg m.results }, of_widget)
      else if m.active == tab_downloads
      then (record m { dls = kit.dls.move msg m.dls }, of_widget)
      else (m, no_command)

  -- `case tea.WindowSizeMsg`
  unfoldable pub resize : ℤ → ℤ → Model kit → Model kit
  resize width height m =
      let wanted = height -ℤ pos 7 in
      let list_h = if ltb_ℤ wanted (pos 5) then pos 5 else wanted in
      record m {
        width = width;
        height = height;
        results = kit.results.set_size (width -ℤ pos 4) (list_h -ℤ pos 3) m.results;
        dls = kit.dls.set_size (width -ℤ pos 4) list_h m.dls;
        progress_width = width -ℤ pos 10;
      }

  -- `startSearch`
  unfoldable pub start_search : Text → Model kit → Step kit
  start_search query m = (
    record m {
      search_gen = suc m.search_gen;
      search_acc = [];
      search_errs = some [];
      results = kit.results.set_items [] m.results;
      channels = suc m.channels;
    },
    wait_chunk m.channels query (suc m.search_gen),
  )

  -- `case "p"` on the selected download.
  unfoldable pub pause_selected : ℕ → Download kit.rates.Rate → Model kit → Model kit
  pause_selected id d m = record m {
    engine = modify id (set_paused (not d.paused)) m.engine;
    status = if d.paused then resumed else paused;
  }

  -- `case "D"` on the selected download.
  unfoldable pub ask_delete : Download kit.rates.Rate → Model kit → Model kit
  ask_delete d m = record m { confirm_delete = d.t.info_hash; status = confirm d.t.name }

  -- `case "enter"` on the selected download.
  unfoldable pub open_files : ℕ → Download kit.rates.Rate → Model kit → Model kit
  open_files id d m = elim (files d) [
    | none ↦ record m { status = info_not_ready }
    | some fs ↦ record m {
      file_view = some (record { d = id; name = d.t.name; files = fs; cursor = 0 });
    }
  ]

  -- `m.dls.SelectedItem()`; a name of the list is always one of the heap.
  abbrev pub selected_download : Model kit → Option (ℕ × Download kit.rates.Rate)
  selected_download m = elim (kit.dls.selected_item m.dls) [
    | none ↦ none
    | some id ↦ elim (get_elem? m.engine.heap id) [ none ↦ none | some d ↦ some (id, d) ]
  ]

  -- It, if the downloads are shown and the input is not focused.
  abbrev pub on_list : Model kit → Option (ℕ × Download kit.rates.Rate)
  on_list m =
      if m.active == tab_downloads && not (kit.input.focused m.input)
      then selected_download m
      else none

  -- The selected result, if the results are shown and the input is not focused.
  abbrev pub on_results : Model kit → Option Result
  on_results m =
      if m.active == tab_search && not (kit.input.focused m.input)
      then kit.results.selected_item m.results
      else none

  -- `case "enter"` of a focused input.
  unfoldable pub submit : Model kit → Step kit
  submit m =
      let q = trim_space (kit.input.value m.input) in
      if is_empty q
      then (m, no_command)
      else start_search q (record m { status = searching q; input = kit.input.blur m.input })

  -- What follows a `Remove`: a notice of the error, or of the removal and the list again.
  unfoldable pub after_remove :
      (Failure → Notice)
      → Notice
      → Engine kit.rates.Rate × Engine.Outcome (Unit {0})
      → Model kit
      → Model kit
  after_remove bad good (e, Engine.failed x) m = record m { engine = e; status = bad x }
  after_remove bad good (e, Engine.ok x) m =
      refresh_downloads (record m { engine = e; status = good })

  module _ (w : World) where
    -- `case "y", "Y"` of the question.
    unfoldable pub delete_confirmed : Model kit → Model kit
    unfolding after_remove
    delete_confirmed m =
        after_remove delete_failed deleted (remove w.client w.written m.confirm_delete m.engine)
          (record m {
            confirm_delete = [];
            wiped = wiped_by w m.confirm_delete m.engine ++ m.wiped;
          })

    -- `m.confirmDelete != ""`: any key but a quit answers the question.
    unfoldable pub answer_delete : Key → Model kit → Step kit
    answer_delete key_y m = (delete_confirmed m, no_command)
    answer_delete key_big_y m = (delete_confirmed m, no_command)
    answer_delete key_ctrl_c m = (m, quit)
    answer_delete key_ctrl_q m = (m, quit)
    answer_delete _ m = (record m { confirm_delete = []; status = delete_cancelled }, no_command)

    -- `case "d"` on the selected download.
    unfoldable pub remove_selected : Download kit.rates.Rate → Model kit → Model kit
    unfolding after_remove
    remove_selected d m =
        after_remove remove_failed removed (remove w.client w.written d.t.info_hash m.engine) m

    -- What a key does on the main screen: `none` if the widget of the tab takes it.
    unfoldable pub press : Key → Model kit → Option (Step kit)
    press key_ctrl_c m = some (m, quit)
    press key_ctrl_q m = some (m, quit)
    press key_tab m = some (sync_input_focus (record m { active = (m.active + 1) % 3 }), no_command)
    press key_shift_tab m =
        some (sync_input_focus (record m { active = (m.active + 2) % 3 }), no_command)
    press key_q m = if kit.input.focused m.input then none else some (m, quit)
    press key_slash m =
        if m.active == tab_search && not (kit.input.focused m.input)
        then some (record m { input = kit.input.focus m.input }, blink)
        else none
    press key_d m = elim (on_list m) [
      | none ↦ none
      | some (id, d) ↦ some (remove_selected d m, no_command)
    ]
    press key_p m = elim (on_list m) [
      | some (id, d) ↦ some (pause_selected id d m, no_command)
      | none ↦ elim (on_results m) [ none ↦ none | some r ↦ some (m, add_download r true) ]
    ]
    press key_big_d m = elim (on_list m) [
      | none ↦ none
      | some (id, d) ↦ some (ask_delete d m, no_command)
    ]
    press key_esc m =
        if kit.input.focused m.input
        then some (record m { input = kit.input.blur m.input }, no_command)
        else none
    press key_enter m =
        if m.active == tab_search && kit.input.focused m.input
        then some (submit m)
        else elim (on_results m) [
          | some r ↦ some (m, add_download r false)
          | none ↦
              if m.active == tab_downloads
              then elim (selected_download m) [
                | none ↦ none
                | some (id, d) ↦ some (pass_on (key key_enter) (open_files id d m))
              ]
              else none
        ]
    press _ m = none

    -- `case tea.KeyMsg`
    unfoldable pub update_key : Key → Model kit → Outcome (Step kit)
    unfolding press
    update_key k m = elim m.file_view [
      | some view ↦ update_file_view k view m
      | none ↦
          if not (is_empty m.confirm_delete)
          then runs (answer_delete k m)
          else elim (press k m) [ none ↦ runs (pass_on (key k) m) | some step ↦ runs step ]
    ]

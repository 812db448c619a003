-- ===== src/Tui/Steady/Keys.antt =====
-- The keys of the main screen of internal/tui/app.go leave a steady state.
use p2pget.Prelude.{
  ℕ, ◌+◌, ◌%◌, [], ◌++◌, true, not, ◌&&◌, ◌==◌, ◌≡◌, refl, sym, ◌∙◌, arith, Option, none, some,
  get_elem?, is_empty, Bool-cases, Option-cases, inl, inr,
}
use p2pget.Strings.{trim_space}
use p2pget.Download.{Download, files}
use p2pget.Engine
use p2pget.Engine.Valid.{some_inj}
use p2pget.Engine.{Engine, Failure, remove}
use p2pget.Tui.{
  Kit, Model, World, Key, Notice, key_ctrl_c, key_ctrl_q, key_tab, key_shift_tab, key_q, key_slash,
  key_d, key_p, key_big_d, key_esc, key_enter, key_y, key_big_y, key, delete_failed, deleted,
  remove_failed, removed, tab_search, tab_downloads,
}
use p2pget.Tui.Files.{files_at}
use p2pget.Tui.Keys.{
  Step, wiped_by, start_search, pause_selected, ask_delete, open_files, submit, after_remove,
  delete_confirmed, answer_delete, remove_selected, press, update_key, on_list, on_results,
  selected_download,
}
use p2pget.Tui.Steady.{
  IsSteady, IsSound, ErrsMade, IsDocumented, pass_on-IsSteady, sync_input_focus-IsSteady,
  refresh_downloads-IsSteady,
}
use p2pget.Tui.Steady.Files.{StepsWell, update_file_view-StepsWell}

module _ {kit : Kit} where
  -- A steady state with no file view.
  abbrev pub IsClosed : Model kit → Type 0
  IsClosed m =
      IsSound m × (kit.input.focused m.input ≡ true → m.active ≡ tab_search) × (m.file_view ≡ none)

  abbrev PressesWell : Option (Step kit) → Type 0
  PressesWell none = Unit
  PressesWell (some (m, c)) = IsSteady m

  after_remove-IsSteady :
      (bad : Failure → Notice) (good : Notice)
      (p : Engine kit.rates.Rate × Engine.Outcome (Unit {0})) (m : Model kit)
      → IsClosed m
      → IsSteady (after_remove bad good p m)
  unfolding after_remove
  after_remove-IsSteady bad good (e, Engine.failed x) m (a, f, closed) = (a, f, rw (closed) tt)
  after_remove-IsSteady bad good (e, Engine.ok x) m (a, f, closed) =
      refresh_downloads-IsSteady (record m { engine = e; status = good }) (a, f, rw (closed) tt)

  open_files-IsSteady :
      (id : ℕ) (d : Download kit.rates.Rate) (m : Model kit)
      → IsClosed m
      → m.active ≡ tab_downloads
      → is_empty m.confirm_delete ≡ true
      → get_elem? m.engine.heap id ≡ some d
      → IsSteady (open_files id d m)
  unfolding open_files files_at
  open_files-IsSteady id d m (a, f, closed) tab unasked at = elim (Option-cases (files d)) [
    | inl unknown ↦ rw (unknown, open_files) (a, f, rw (closed) tt)
    | inr (fs, known) ↦
        let same : files_at m.engine id ≡ fs = rw (at, files_at) (rw (known) refl) in
        rw (known, open_files) (a, f, (tab, unasked, omega arith, rw (same) (omega arith)))
  ]

  submit-IsSteady : (m : Model kit) → IsDocumented kit.input → IsClosed m → IsSteady (submit m).0
  unfolding submit start_search ErrsMade
  submit-IsSteady m doc (a, f, closed) =
      elim (Bool-cases (is_empty (trim_space (kit.input.value m.input)))) [
        | inl blank ↦ rw (blank, submit) (a, f, rw (closed) tt)
        | inr asks ↦
            let blurred = doc.blur-focused m.input in
            rw (asks, submit) ((a.0, tt), (λ h. absurd (ground arith)), rw (closed) tt)
      ]

  selected_download→ :
      (m : Model kit) (p : ℕ × Download kit.rates.Rate)
      → selected_download m ≡ some p
      → get_elem? m.engine.heap p.0 ≡ some p.1
  selected_download→ m p h = elim (Option-cases (kit.dls.selected_item m.dls)) [
    | inl nothing ↦ absurd (ground arith)
    | inr (i, chosen) ↦ elim (Option-cases (get_elem? m.engine.heap i)) [
      | inl gone ↦ absurd (ground arith)
      | inr (x, at) ↦
          let here : selected_download m ≡ some (i, x) =
            rw (chosen, selected_download) (rw (at) refl) in
          rw (← some_inj (sym here ∙ h)) at
    ]
  ]

  module _ (doc : IsDocumented kit.input) (w : World) (m : Model kit) where
    enter-PressesWell :
        IsClosed m → is_empty m.confirm_delete ≡ true → PressesWell (press w key_enter m)
    unfolding press
    enter-PressesWell (a, f, closed) unasked =
        elim (Bool-cases (m.active == tab_search && kit.input.focused m.input)) [
          | inl asks ↦ rw (asks, press) (submit-IsSteady m doc (a, f, closed))
          | inr other ↦ elim (Option-cases (on_results m)) [
            | inr (r, shown) ↦ rw (other, press) (rw (shown, press) (a, f, rw (closed) tt))
            | inl none_shown ↦ elim (Bool-cases (m.active == tab_downloads)) [
              | inr help ↦ rw (other, press) (rw (none_shown, press) (rw (help, press) tt))
              | inl tab ↦ elim (Option-cases (selected_download m)) [
                | inl nothing ↦
                    rw (other, press)
                      (rw (none_shown, press) (rw (tab, press) (rw (nothing, press) tt)))
                | inr ((id, d), chosen) ↦
                    let opened =
                      open_files-IsSteady id d m (a, f, closed) (ground arith) unasked
                        (selected_download→ m (id, d) chosen) in
                    rw (other, press)
                      (rw (none_shown, press)
                        (rw (tab, press)
                          (rw (chosen, press)
                            (pass_on-IsSteady doc (key key_enter) (open_files id d m) opened))))
              ]
            ]
          ]
        ]

    press-PressesWell :
        (k : Key) → IsClosed m → is_empty m.confirm_delete ≡ true → PressesWell (press w k m)
    unfolding press ask_delete remove_selected pause_selected
    press-PressesWell k (a, f, closed) unasked =
        let still : IsSteady m = (a, f, rw (closed) tt) in
        elim k as (λ k. PressesWell (press w k m)) [
          | key_ctrl_c ↦ still
          | key_ctrl_q ↦ still
          | key_tab ↦
              sync_input_focus-IsSteady doc (record m { active = (m.active + 1) % 3 })
                (omega arith, a.1) closed
          | key_shift_tab ↦
              sync_input_focus-IsSteady doc (record m { active = (m.active + 2) % 3 })
                (omega arith, a.1) closed
          | key_q ↦ elim (Bool-cases (kit.input.focused m.input)) [
            | inl typing ↦ rw (typing, press) tt
            | inr free ↦ rw (free, press) still
          ]
          | key_slash ↦
              elim (Bool-cases (m.active == tab_search && not (kit.input.focused m.input))) [
                | inl free ↦ rw (free, press) (a, (λ h. ground arith), rw (closed) tt)
                | inr other ↦ rw (other, press) tt
              ]
          | key_d ↦ elim (Option-cases (on_list m)) [
            | inl nothing ↦ rw (nothing, press) tt
            | inr ((id, d), chosen) ↦
                rw (chosen, press)
                  (after_remove-IsSteady remove_failed removed
                    (remove w.client w.written d.t.info_hash m.engine) m (a, f, closed))
          ]
          | key_p ↦ elim (Option-cases (on_list m)) [
            | inr ((id, d), chosen) ↦ rw (chosen, press) (a, f, rw (closed) tt)
            | inl nothing ↦ elim (Option-cases (on_results m)) [
              | inl none_shown ↦ rw (nothing, press) (rw (none_shown, press) tt)
              | inr (r, shown) ↦ rw (nothing, press) (rw (shown, press) still)
            ]
          ]
          | key_big_d ↦ elim (Option-cases (on_list m)) [
            | inl nothing ↦ rw (nothing, press) tt
            | inr ((id, d), chosen) ↦ rw (chosen, press) (a, f, rw (closed) tt)
          ]
          | key_esc ↦ elim (Bool-cases (kit.input.focused m.input)) [
            | inl typing ↦
                rw (typing, press)
                  (a, (λ h. absurd (ground (arith, doc.blur-focused m.input))), rw (closed) tt)
            | inr free ↦ rw (free, press) tt
          ]
          | key_enter ↦ enter-PressesWell (a, f, closed) unasked
          | _ ↦ tt
        ]

    answer_delete-IsSteady : (k : Key) → IsClosed m → IsSteady (answer_delete w k m).0
    unfolding answer_delete delete_confirmed
    answer_delete-IsSteady k (a, f, closed) =
        let asked : Model kit = record m {
          confirm_delete = [];
          wiped = wiped_by w m.confirm_delete m.engine ++ m.wiped;
        } in
        let done =
          after_remove-IsSteady delete_failed deleted
            (remove w.client w.written m.confirm_delete m.engine) asked (a, f, closed) in
        elim k as (λ k. IsSteady (answer_delete w k m).0) [
          | key_y ↦ done
          | key_big_y ↦ done
          | _ ↦ (a, f, rw (closed) tt)
        ]

    -- A key never panics, and leaves a steady state.
    pub update_key-StepsWell : (k : Key) → IsSteady m → StepsWell (update_key w k m)
    unfolding update_key
    update_key-StepsWell k (a, f, v) = elim (Option-cases m.file_view) [
      | inr (view, shown) ↦
          rw (shown, update_key) (update_file_view-StepsWell k view m shown (a, f, v))
      | inl closed ↦ elim (Bool-cases (is_empty m.confirm_delete)) [
        | inr asked ↦
            rw (closed, update_key)
              (rw (asked, update_key) (answer_delete-IsSteady k (a, f, closed)))
        | inl unasked ↦ elim (Option-cases (press w k m)) [
          | inl nothing ↦
              rw (closed, update_key)
                (rw (unasked, update_key)
                  (rw (nothing, update_key) (pass_on-IsSteady doc (key k) m (a, f, v))))
          | inr (step, done) ↦
              rw (closed, update_key)
                (rw (unasked, update_key)
                  (rw (done, update_key)
                    (rw (done) at (press-PressesWell k (a, f, closed) unasked))))
        ]
      ]
    ]

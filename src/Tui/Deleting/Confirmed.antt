-- ===== src/Tui/Deleting/Confirmed.antt =====
-- internal/tui/app.go removes files from the disk only behind a question and its answer.
use p2pget.Prelude.{
  ◌+◌, ◌%◌, [], ◌++◌, Bool, true, false, not, ◌&&◌, ◌==◌, ◌≡◌, ◌⊎◌, refl, ap, ◌∙◌, Option, none,
  some, is_empty, Bool-cases, Option-cases, inl, inr,
}
use p2pget.Engine.{remove}
use p2pget.Tui.{
  Kit, Model, World, FileView, Key, Message, Command, tab_search, tab_downloads, quit, key_ctrl_c,
  key_ctrl_q, key_tab, key_shift_tab, key_q, key_slash, key_d, key_p, key_big_d, key_esc, key_enter,
  key_y, key_big_y, key, delete_failed, deleted, remove_failed, removed,
}
use p2pget.Tui.Files.{Outcome, runs, panics, update_file_view}
use p2pget.Tui.Keys.{
  Step, wiped_by, pass_on, pause_selected, ask_delete, open_files, delete_confirmed, answer_delete,
  remove_selected, press, update_key, on_list, on_results, selected_download,
}
use p2pget.Tui.Deleting.{
  SameOption, SameOutcome, after_remove-Same, pass_on-Same, update_file_view-Same,
  sync_input_focus-Same, submit-Same, open_files-Same,
}

-- A file view is shown.
abbrev pub is_open : Option FileView → Bool
is_open none = false
is_open (some v) = true

module _ {kit : Kit} (w : World) where
  -- Files go only by an answer to the question, those of the download that it is about.
  abbrev pub WipesWell : Message → Model kit → Model kit → Type 0
  WipesWell msg m m' =
      (m'.wiped ≡ m.wiped)
      ⊎ (((msg ≡ key key_y) ⊎ (msg ≡ key key_big_y))
          × (is_empty m.confirm_delete ≡ false)
          × (m'.wiped ≡ wiped_by w m.confirm_delete m.engine ++ m.wiped))

  -- A question is open only behind the key that asks it.
  abbrev AsksWell : Key → Model kit → Command → Type 0
  AsksWell k m' c =
      (is_empty m'.confirm_delete ≡ true) ⊎ (((k ≡ key_big_d) × (m'.file_view ≡ none)) ⊎ (c ≡ quit))

  abbrev pub KeyWell : Key → Model kit → Outcome (Step kit) → Type 0
  KeyWell k m panics = Unit
  KeyWell k m (runs (m', c)) = WipesWell (key k) m m' × AsksWell k m' c

  abbrev KeyWellOption : Key → Model kit → Option (Step kit) → Type 0
  KeyWellOption k m none = Unit
  KeyWellOption k m (some (m', c)) = WipesWell (key k) m m' × AsksWell k m' c

  quiet :
      (k : Key) (m : Model kit) (o : Option (Step kit))
      → is_empty m.confirm_delete ≡ true
      → SameOption m o
      → KeyWellOption k m o
  quiet k m none unasked h = tt
  quiet k m (some (m', c)) unasked (same, kept) = (inl kept, inl (ap is_empty same ∙ unasked))

  quiet_outcome :
      (k : Key) (m : Model kit) (o : Outcome (Step kit))
      → is_empty m.confirm_delete ≡ true
      → SameOutcome m o
      → KeyWell k m o
  quiet_outcome k m panics unasked h = tt
  quiet_outcome k m (runs (m', c)) unasked (same, kept) =
      (inl kept, inl (ap is_empty same ∙ unasked))

  module _ (m : Model kit) where
    enter-Same : SameOption m (press w key_enter m)
    unfolding press
    enter-Same = elim (Bool-cases (m.active == tab_search && kit.input.focused m.input)) [
      | inl asks ↦ rw (asks, press) (submit-Same m)
      | inr other ↦ elim (Option-cases (on_results m)) [
        | inr (r, shown) ↦ rw (other, press) (rw (shown, press) (refl, refl))
        | inl none_shown ↦ elim (Bool-cases (m.active == tab_downloads)) [
          | inr help ↦ rw (other, press) (rw (none_shown, press) (rw (help, press) tt))
          | inl tab ↦ elim (Option-cases (selected_download m)) [
            | inl nothing ↦
                rw (other, press)
                  (rw (none_shown, press) (rw (tab, press) (rw (nothing, press) tt)))
            | inr ((id, d), chosen) ↦
                let (a, b) = open_files-Same id d m in
                let (a', b') = pass_on-Same (key key_enter) (open_files id d m) in
                rw (other, press)
                  (rw (none_shown, press) (rw (tab, press) (rw (chosen, press) (a' ∙ a, b' ∙ b))))
          ]
        ]
      ]
    ]

    press-KeyWell :
        (k : Key)
        → is_empty m.confirm_delete ≡ true
        → m.file_view ≡ none
        → KeyWellOption k m (press w k m)
    unfolding press ask_delete remove_selected pause_selected
    press-KeyWell k unasked closed =
        let same : (k : Key) → SameOption m (press w k m) → KeyWellOption k m (press w k m) =
          λ k h. quiet k m (press w k m) unasked h in
        elim k as (λ k. KeyWellOption k m (press w k m)) [
          | key_ctrl_c ↦ same key_ctrl_c (refl, refl)
          | key_ctrl_q ↦ same key_ctrl_q (refl, refl)
          | key_tab ↦
              same key_tab (sync_input_focus-Same (record m { active = (m.active + 1) % 3 }))
          | key_shift_tab ↦
              same key_shift_tab (sync_input_focus-Same (record m { active = (m.active + 2) % 3 }))
          | key_q ↦ same key_q (elim (Bool-cases (kit.input.focused m.input)) [
            | inl typing ↦ rw (typing, press) tt
            | inr free ↦ rw (free, press) (refl, refl)
          ])
          | key_slash ↦
              same key_slash
                (elim (Bool-cases (m.active == tab_search && not (kit.input.focused m.input))) [
                  | inl free ↦ rw (free, press) (refl, refl)
                  | inr other ↦ rw (other, press) tt
                ])
          | key_d ↦ same key_d (elim (Option-cases (on_list m)) [
            | inl nothing ↦ rw (nothing, press) tt
            | inr ((id, d), chosen) ↦
                rw (chosen, press)
                  (after_remove-Same remove_failed removed
                    (remove w.client w.written d.t.info_hash m.engine) m)
          ])
          | key_p ↦ same key_p (elim (Option-cases (on_list m)) [
            | inr ((id, d), chosen) ↦ rw (chosen, press) (refl, refl)
            | inl nothing ↦ elim (Option-cases (on_results m)) [
              | inl none_shown ↦ rw (nothing, press) (rw (none_shown, press) tt)
              | inr (r, shown) ↦ rw (nothing, press) (rw (shown, press) (refl, refl))
            ]
          ])
          | key_big_d ↦ elim (Option-cases (on_list m)) [
            | inl nothing ↦ rw (nothing, press) tt
            | inr ((id, d), chosen) ↦ rw (chosen, press) (inl refl, inr (inl (refl, closed)))
          ]
          | key_esc ↦ same key_esc (elim (Bool-cases (kit.input.focused m.input)) [
            | inl typing ↦ rw (typing, press) (refl, refl)
            | inr free ↦ rw (free, press) tt
          ])
          | key_enter ↦ same key_enter enter-Same
          | _ ↦ tt
        ]

    answer_delete-KeyWell :
        (k : Key) → is_empty m.confirm_delete ≡ false → KeyWell k m (runs (answer_delete w k m))
    unfolding answer_delete delete_confirmed
    answer_delete-KeyWell k asked =
        let begun : Model kit = record m {
          confirm_delete = [];
          wiped = wiped_by w m.confirm_delete m.engine ++ m.wiped;
        } in
        let (none_left, gone) =
          after_remove-Same delete_failed deleted
            (remove w.client w.written m.confirm_delete m.engine) begun in
        elim k as (λ k. KeyWell k m (runs (answer_delete w k m))) [
          | key_y ↦ (inr (inl refl, asked, gone), inl (ap is_empty none_left))
          | key_big_y ↦ (inr (inr refl, asked, gone), inl (ap is_empty none_left))
          | key_ctrl_c ↦ (inl refl, inr (inr refl))
          | key_ctrl_q ↦ (inl refl, inr (inr refl))
          | _ ↦ (inl refl, inl refl)
        ]

    of_option : (k : Key) (s : Step kit) → KeyWellOption k m (some s) → KeyWell k m (runs s)
    of_option k s h = h

    pub update_key-KeyWell :
        (k : Key)
        → (is_open m.file_view ≡ true → is_empty m.confirm_delete ≡ true)
        → KeyWell k m (update_key w k m)
    unfolding update_key
    update_key-KeyWell k unasked_view = elim (Option-cases m.file_view) [
      | inr (view, shown) ↦
          rw (shown, update_key)
            (quiet_outcome k m (update_file_view k view m) (unasked_view (rw (shown) refl))
              (update_file_view-Same k view m))
      | inl closed ↦ elim (Bool-cases (is_empty m.confirm_delete)) [
        | inr asked ↦
            rw (closed, update_key) (rw (asked, update_key) (answer_delete-KeyWell k asked))
        | inl unasked ↦ elim (Option-cases (press w k m)) [
          | inl nothing ↦
              rw (closed, update_key)
                (rw (unasked, update_key)
                  (rw (nothing, update_key)
                    (quiet_outcome k m (runs (pass_on (key k) m)) unasked
                      (pass_on-Same (key k) m))))
          | inr (step, done) ↦
              let good = press-KeyWell k unasked closed in
              rw (closed, update_key)
                (rw (unasked, update_key)
                  (rw (done, update_key) (of_option k step (rw (done) at good))))
        ]
      ]
    ]

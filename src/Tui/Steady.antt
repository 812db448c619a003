-- ===== src/Tui/Steady.antt =====
-- What holds of the state of internal/tui/app.go between two messages.
pub mod Counts
pub mod Files
pub mod Keys
pub mod Runs
use p2pget.Prelude.{
  ℕ, zero, suc, ◌+◌, ◌-◌, ◌%◌, ◌<◌, ◌≤◌, List, [], ◌∷◌, Bool, true, false, not, ◌&&◌, ltb, leb,
  ◌==◌, if◌then◌else◌, ◌≡◌, ◌≢◌, refl, ap, sym, ◌∙◌, arith, ℤ, Option, none, some, Text, length,
  get_elem?, is_empty, Bool-cases, Option-cases, inl, inr,
}
use p2pget.Engine.{Engine}
use p2pget.Engine.Valid.{some_inj}
use p2pget.Search.Collect.{Answer}
use p2pget.Engine.Listing.{sample_rates}
use p2pget.Tui.{
  Input, Kit, Model, World, FileView, Key, Message, Command, AddError, tab_search, tab_downloads,
}
use p2pget.Tui.Watch.{refresh_downloads, prune_completed, restart_stalled, recompute_totals}
use p2pget.Tui.Files.{Outcome, runs, panics, files_at}
use p2pget.Tui.Keys.{sync_input_focus, pass_on}
use p2pget.Tui.Update.{refresh_view, update_refresh, update_added, take_answer}

-- What `Focus`, `Blur` and `Update` of an input do to its focus.
pub record IsDocumented (input : Input) : Type 0 where
  pub focus-focused : (b : input.Box) → input.focused (input.focus b) ≡ true
  pub blur-focused : (b : input.Box) → input.focused (input.blur b) ≡ false
  pub type-focused :
      (msg : Message) (b : input.Box) → input.focused (input.type msg b) ≡ input.focused b

-- The map of the errors is nil before the first search only.
unfoldable pub ErrsMade : ℕ → Option (List (Text × Text)) → Type 0
ErrsMade gen (some errs) = Unit
ErrsMade zero none = Unit
ErrsMade (suc gen) none = ⊥

-- A file view: only over the downloads, with no question pending, its cursor on a file if there
-- is one, and no file that the download does not have.
abbrev pub ViewSteady : {R : Type 0} → Engine R → ℕ → Text → Option FileView → Type 0
ViewSteady e active asked none = Unit
ViewSteady e active asked (some v) =
    (active ≡ tab_downloads)
    × (is_empty asked ≡ true)
    × (v.cursor ≤ length v.files - 1)
    × (length v.files ≤ length (files_at e v.d))

no_value : {A : Type 0} {x : A} → none ≡ some x → ⊥
no_value h = cc

errs-made : (gen : ℕ) → gen ≢ 0 → ErrsMade gen none → ⊥
unfolding ErrsMade
errs-made zero began e = began refl
errs-made (suc gen) began e = e

module _ {kit : Kit} where
  -- One of the three tabs is active, and the search has its map.
  abbrev pub IsSound : Model kit → Type 0
  IsSound m = (m.active < 3) × ErrsMade m.search_gen m.search_errs

  abbrev pub IsSteady : Model kit → Type 0
  IsSteady m =
      IsSound m
      × (kit.input.focused m.input ≡ true → m.active ≡ tab_search)
      × ViewSteady m.engine m.active m.confirm_delete m.file_view

  -- A state that differs at most in what `IsSteady` does not read.
  pub refresh_downloads-IsSteady : (m : Model kit) → IsSteady m → IsSteady (refresh_downloads m)
  unfolding refresh_downloads
  refresh_downloads-IsSteady m s = ground arith

  pub update_added-IsSteady :
      (name : Text) (held : Bool) (err : Option AddError) (m : Model kit)
      → IsSteady m
      → IsSteady (update_added name held err m)
  unfolding update_added
  update_added-IsSteady name held (some x) m s = s
  update_added-IsSteady name true none m s = refresh_downloads-IsSteady _ s
  update_added-IsSteady name false none m s = refresh_downloads-IsSteady _ s

  pub take_answer-IsSteady :
      (r : Answer) (m m' : Model kit) → IsSteady m → take_answer r m ≡ some m' → IsSteady m'
  unfolding take_answer ErrsMade
  take_answer-IsSteady r m m' ((a, e), f, v) taken = elim (Option-cases r.err) [
    | inl fine ↦ rw (← some_inj (rw (fine) at taken)) ((a, e), f, v)
    | inr (x, bad) ↦ elim (Option-cases m.search_errs) [
      | inl nil ↦ absurd (no_value (rw (bad) at (rw (nil) at taken)))
      | inr (errs, made) ↦ rw (← some_inj (rw (bad) at (rw (made) at taken))) ((a, tt), f, v)
    ]
  ]

  -- A chunk of a search finds a map.
  pub take_answer-some :
      (r : Answer) (m : Model kit)
      → IsSteady m
      → m.search_gen ≢ 0
      → (m' : Model kit) × (take_answer r m ≡ some m')
  unfolding take_answer ErrsMade
  take_answer-some r m ((a, e), f, v) began = elim (Option-cases r.err) [
    | inl fine ↦ rw (fine, take_answer) (_, refl)
    | inr (x, bad) ↦ elim (Option-cases m.search_errs) [
      | inl nil ↦ absurd (errs-made m.search_gen began (rw (nil) at e))
      | inr (errs, made) ↦ rw (bad, take_answer) (rw (made, take_answer) (_, refl))
    ]
  ]

  pub closed-IsSteady :
      (m : Model kit)
      → IsSound m
      → (kit.input.focused m.input ≡ true → m.active ≡ tab_search)
      → m.file_view ≡ none
      → IsSteady m
  closed-IsSteady m a f closed = (a, f, rw (closed) tt)

  -- What stands around a file view.
  abbrev pub Framed : Model kit → Option FileView → Type 0
  Framed m none = Unit
  Framed m (some v) = (m.active ≡ tab_downloads) × (is_empty m.confirm_delete ≡ true)

  -- Behind a refresh the view has the files of the download, and the cursor is on one.
  pub refresh_view-IsSteady :
      (m : Model kit) (view : Option FileView)
      → IsSound m
      → (kit.input.focused m.input ≡ true → m.active ≡ tab_search)
      → m.file_view ≡ view
      → Framed m view
      → IsSteady (refresh_view view m)
  unfolding refresh_view
  refresh_view-IsSteady m none a f closed frame = closed-IsSteady m a f closed
  refresh_view-IsSteady m (some v) a f shown (tab, unasked) =
      (a, f, (tab, unasked, ground arith, omega arith))

  abbrev IsFramed : Model kit → Type 0
  IsFramed m =
      IsSound m × (kit.input.focused m.input ≡ true → m.active ≡ tab_search) × Framed m m.file_view

  view-Framed :
      (m : Model kit) (v : Option FileView)
      → ViewSteady m.engine m.active m.confirm_delete v
      → Framed m v
  view-Framed m none h = tt
  view-Framed m (some v) (tab, unasked, cursor, count) = (tab, unasked)

  refresh_downloads-IsFramed : (m : Model kit) → IsFramed m → IsFramed (refresh_downloads m)
  unfolding refresh_downloads
  refresh_downloads-IsFramed m s = ground arith

  pub update_refresh-IsSteady :
      (w : World) (m : Model kit) → IsSteady m → IsSteady (update_refresh w m)
  unfolding update_refresh prune_completed restart_stalled recompute_totals
  update_refresh-IsSteady w m (a, f, v) =
      let sampled : Model kit = record m {
        engine = sample_rates kit.rates kit.by_key w.now w.stats m.engine;
      } in
      let kept = restart_stalled w (prune_completed w sampled) in
      let shown = recompute_totals w (refresh_downloads kept) in
      let (a', f', v') = refresh_downloads-IsFramed kept (a, f, view-Framed m m.file_view v) in
      refresh_view-IsSteady shown shown.file_view a' f' refl v'

  module _ (doc : IsDocumented kit.input) where
    pub pass_on-IsSteady : (msg : Message) (m : Model kit) → IsSteady m → IsSteady (pass_on msg m).0
    unfolding pass_on
    pass_on-IsSteady msg m s = ground (arith, doc.type-focused msg m.input)

    pub sync_input_focus-IsSteady :
        (m : Model kit) → IsSound m → m.file_view ≡ none → IsSteady (sync_input_focus m)
    unfolding sync_input_focus
    sync_input_focus-IsSteady m a closed = ground (arith, doc.blur-focused m.input)

-- ===== src/Tui/Deleting/Runs.antt =====
-- The runs of internal/tui/app.go in which files are removed from the disk.
use p2pget.Prelude.{
  ℕ, ◌++◌, Bool, true, false, ◌==◌, ◌≡◌, ◌≢◌, ◌⊎◌, refl, ap, sym, ◌∙◌, arith, Option, none, some,
  Text, is_empty, Bool-cases, Option-cases, inl, inr,
}
use p2pget.Strings.{Unicode}
use p2pget.Engine.{Engine}
use p2pget.Engine.Listing.{sample_rates}
use p2pget.Search.Collect.{Answer}
use p2pget.Tui.{
  Kit, Model, World, FileView, Key, Message, Command, AddError, new_model, quit, key_big_d, key_y,
  key_big_y, key, window_size, search_chunk, refresh, download_added, other_message,
}
use p2pget.Tui.Watch.{refresh_downloads, prune_completed, restart_stalled, recompute_totals}
use p2pget.Tui.Files.{Outcome, runs, panics}
use p2pget.Tui.Keys.{Step, wiped_by, pass_on, resize}
use p2pget.Tui.Update.{
  update, update_chunk, fresh_chunk, show_ranked, end_search, ranked, update_added, update_refresh,
  refresh_view, take_answer,
}
use p2pget.Tui.Deleting.{Same}
use p2pget.Tui.Deleting.Confirmed.{KeyWell, is_open, update_key-KeyWell}

-- A message that is a key.
abbrev pub is_key : Message → Bool
is_key (key k) = true
is_key _ = false

key_or_not : (msg : Message) → ((k : Key) × (msg ≡ key k)) ⊎ (is_key msg ≡ false)
key_or_not (key k) = inl (k, refl)
key_or_not (window_size width height) = inr refl
key_or_not (search_chunk ch r query gen) = inr refl
key_or_not refresh = inr refl
key_or_not (download_added name held err) = inr refl
key_or_not (other_message i) = inr refl

is_as :
    (msg : Message) (k : Key)
    → msg ≡ key k
    → (key k ≡ key key_y) ⊎ (key k ≡ key key_big_y)
    → (msg ≡ key key_y) ⊎ (msg ≡ key key_big_y)
is_as msg k is (inl p) = inl (is ∙ p)
is_as msg k is (inr p) = inr (is ∙ p)

module _ {kit : Kit} where
  -- Nor is a file view opened or closed.
  abbrev Quiet : Model kit → Model kit → Type 0
  Quiet m m' = Same m m' × (is_open m'.file_view ≡ is_open m.file_view)

  refresh_downloads-Quiet : (m : Model kit) → Quiet m (refresh_downloads m)
  unfolding refresh_downloads
  refresh_downloads-Quiet m = ground arith

  pass_on-Quiet : (msg : Message) (m : Model kit) → Quiet m (pass_on msg m).0
  unfolding pass_on
  pass_on-Quiet msg m = ground arith

  abbrev QuietOption : Model kit → Option (Model kit) → Type 0
  QuietOption m none = Unit
  QuietOption m (some m') = Quiet m m'

  abbrev QuietOutcome : Model kit → Outcome (Step kit) → Type 0
  QuietOutcome m panics = Unit
  QuietOutcome m (runs (m', c)) = Quiet m m'

  take_answer-Quiet : (r : Answer) (m : Model kit) → QuietOption m (take_answer r m)
  unfolding take_answer
  take_answer-Quiet r m = elim (Option-cases r.err) [
    | inl fine ↦ rw (fine, take_answer) ((refl, refl), refl)
    | inr (x, bad) ↦ elim (Option-cases m.search_errs) [
      | inl nil ↦ rw (bad, take_answer) (rw (nil, take_answer) tt)
      | inr (errs, made) ↦ rw (bad, take_answer) (rw (made, take_answer) ((refl, refl), refl))
    ]
  ]

  update_added-Quiet :
      (name : Text) (held : Bool) (err : Option AddError) (m : Model kit)
      → Quiet m (update_added name held err m)
  unfolding update_added
  update_added-Quiet name held (some x) m = ((refl, refl), refl)
  update_added-Quiet name true none m = refresh_downloads-Quiet _
  update_added-Quiet name false none m = refresh_downloads-Quiet _

  refresh_view-Quiet :
      (v : Option FileView) (m : Model kit) → m.file_view ≡ v → Quiet m (refresh_view v m)
  unfolding refresh_view
  refresh_view-Quiet none m e = ((refl, refl), refl)
  refresh_view-Quiet (some v) m e = ((refl, refl), rw (e) refl)

  update_refresh-Quiet : (w : World) (m : Model kit) → Quiet m (update_refresh w m)
  unfolding update_refresh prune_completed restart_stalled recompute_totals
  update_refresh-Quiet w m =
      let sampled : Model kit = record m {
        engine = sample_rates kit.rates kit.by_key w.now w.stats m.engine;
      } in
      let kept = restart_stalled w (prune_completed w sampled) in
      let shown = recompute_totals w (refresh_downloads kept) in
      let ((a, b), c) = refresh_downloads-Quiet kept in
      let ((a', b'), c') = refresh_view-Quiet shown.file_view shown refl in
      ((a' ∙ a, b' ∙ b), c' ∙ c)

  module _ ⦃u : Unicode⦄ where
    show_ranked-Quiet :
        (ch : ℕ) (query : Text) (gen : ℕ) (m m' : Model kit)
        → Quiet m m'
        → QuietOutcome m (show_ranked ch query gen m')
    unfolding show_ranked
    show_ranked-Quiet ch query gen m m' q = elim (Option-cases (ranked m')) [
      | inl bad ↦ rw (bad, show_ranked) tt
      | inr (rs, good) ↦ rw (good, show_ranked) q
    ]

    fresh_chunk-Quiet :
        (ch : ℕ) (r : Option Answer) (query : Text) (gen : ℕ) (m : Model kit)
        → QuietOutcome m (fresh_chunk ch r query gen m)
    unfolding fresh_chunk end_search
    fresh_chunk-Quiet ch none query gen m = elim (Option-cases (ranked m)) [
      | inl bad ↦ rw (bad, end_search) tt
      | inr (rs, good) ↦ rw (good, end_search) ((refl, refl), refl)
    ]
    fresh_chunk-Quiet ch (some r) query gen m = elim (Option-cases (take_answer r m)) [
      | inl nil ↦ rw (nil, fresh_chunk) tt
      | inr (m', taken) ↦
          rw (taken, fresh_chunk)
            (show_ranked-Quiet ch query gen m m' (rw (taken) at (take_answer-Quiet r m)))
    ]

    update_chunk-Quiet :
        (ch : ℕ) (r : Option Answer) (query : Text) (gen : ℕ) (m : Model kit)
        → QuietOutcome m (update_chunk ch r query gen m)
    unfolding update_chunk
    update_chunk-Quiet ch r query gen m = elim (Bool-cases (gen == m.search_gen)) [
      | inr stale ↦ rw (stale, update_chunk) ((refl, refl), refl)
      | inl fresh ↦ rw (fresh, update_chunk) (fresh_chunk-Quiet ch r query gen m)
    ]

    update-Quiet :
        (w : World) (msg : Message) (m : Model kit)
        → is_key msg ≡ false
        → QuietOutcome m (update w msg m)
    unfolding update resize
    update-Quiet w (window_size width height) m h =
        pass_on-Quiet (window_size width height) (resize width height m)
    update-Quiet w (key k) m h = absurd (ground arith)
    update-Quiet w (search_chunk ch r query gen) m h = update_chunk-Quiet ch r query gen m
    update-Quiet w refresh m h = update_refresh-Quiet w m
    update-Quiet w (download_added name held err) m h = update_added-Quiet name held err m
    update-Quiet w (other_message i) m h = pass_on-Quiet (other_message i) m

    -- The states of the interface with the last key that was pressed; a quit ends the program.
    pub data After : Option Key → Model kit → Type 0 where
      starts : (e : Engine kit.rates.Rate) → After none (new_model kit e)
      presses :
          {last : Option Key} {m : Model kit} (w : World) (k : Key) {m' : Model kit} {c : Command}
          → After last m
          → update w (key k) m ≡ runs (m', c)
          → c ≢ quit
          → After (some k) m'
      hears :
          {last : Option Key} {m : Model kit} (w : World) (msg : Message) {m' : Model kit}
          {c : Command}
          → After last m
          → is_key msg ≡ false
          → update w msg m ≡ runs (m', c)
          → After last m'
      engine_moves :
          {last : Option Key} {m : Model kit} (e : Engine kit.rates.Rate)
          → After last m
          → After last (record m { engine = e })

    -- A question is open only right behind the key that asks it, and with no file view.
    abbrev AskedBy : Option Key → Model kit → Type 0
    AskedBy last m =
        (is_empty m.confirm_delete ≡ false → last ≡ some key_big_d)
        × (is_open m.file_view ≡ true → is_empty m.confirm_delete ≡ true)

    key-AskedBy :
        (w : World) (k : Key) (m m' : Model kit) (c : Command)
        → c ≢ quit
        → KeyWell w k m (runs (m', c))
        → AskedBy (some k) m'
    key-AskedBy w k m m' c goes_on (wipes, inl unasked) =
        ((λ asked. absurd (ground arith)), λ shown. unasked)
    key-AskedBy w k m m' c goes_on (wipes, inr (inl (same, closed))) =
        ((λ asked. ap some same), λ shown. absurd (ground arith))
    key-AskedBy w k m m' c goes_on (wipes, inr (inr ends)) = absurd (goes_on ends)

    After-AskedBy : (last : Option Key) (m : Model kit) → After last m → AskedBy last m
    unfolding new_model update
    After-AskedBy last m (starts e) = ((λ h. absurd (ground arith)), λ h. refl)
    After-AskedBy last m (presses {last = last'} {m = before} w k {c = c} after taken goes_on) =
        let (asked, unasked) = After-AskedBy last' before after in
        key-AskedBy w k before m c goes_on (rw (taken) at (update_key-KeyWell w before k unasked))
    After-AskedBy last m (hears {m = before} w msg after other taken) =
        let (asked, unasked) = After-AskedBy last before after in
        let ((same, kept), view) = rw (taken) at (update-Quiet w msg before other) in
        ((λ h. asked (rw (← same) h)), λ h. ap is_empty same ∙ unasked (sym view ∙ h))
    After-AskedBy last m (engine_moves {m = before} e after) = After-AskedBy last before after

    key-KeyWell :
        (w : World) (k : Key) (m m' : Model kit) (c : Command)
        → (is_open m.file_view ≡ true → is_empty m.confirm_delete ≡ true)
        → update w (key k) m ≡ runs (m', c)
        → KeyWell w k m (runs (m', c))
    unfolding update
    key-KeyWell w k m m' c unasked taken = rw (taken) at (update_key-KeyWell w m k unasked)

    -- Whatever messages came before, a message removes files from the disk only if it is the key y
    -- or Y, the last key before it was D, and then those of the download whose hash the question
    -- is about.
    pub update-wipes :
        (last : Option Key) (m : Model kit)
        → After last m
        → (w : World) (msg : Message) (m' : Model kit) (c : Command) → update w msg m ≡ runs (m', c)
        → (m'.wiped ≡ m.wiped)
          ⊎ ((last ≡ some key_big_d)
              × ((msg ≡ key key_y) ⊎ (msg ≡ key key_big_y))
              × (m'.wiped ≡ wiped_by w m.confirm_delete m.engine ++ m.wiped))
    update-wipes last m after w msg m' c taken = elim (key_or_not msg) [
      | inr other ↦
          let ((same, kept), view) = rw (taken) at (update-Quiet w msg m other) in inl kept
      | inl (k, is) ↦
          let (asked, unasked) = After-AskedBy last m after in
          let (wipes, asks) = key-KeyWell w k m m' c unasked (rw (is) at taken) in
          elim wipes [
            | inl kept ↦ inl kept
            | inr (which, question, gone) ↦ inr (asked question, is_as msg k is which, gone)
          ]
    ]

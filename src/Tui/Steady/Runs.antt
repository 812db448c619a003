-- ===== src/Tui/Steady/Runs.antt =====
-- Every state that internal/tui/app.go reaches, whatever messages come and whatever the engine does
-- between them.
use p2pget.Prelude.{
  ℕ, zero, suc, List, ◌<◌, ◌≤◌, true, ◌==◌, ◌≡◌, ◌≢◌, refl, arith, Option, none, some, Text, length,
  Bool-cases, inl, inr,
}
use p2pget.Strings.{Unicode}
use p2pget.Search.Rank.{IsSort, dedup_and_rank-merges}
use p2pget.Search.Collect.{Answer}
use p2pget.Engine.{Engine}
use p2pget.Tui.{
  Kit, Model, World, FileView, Message, Command, new_model, window_size, key, search_chunk, refresh,
  download_added, other_message, tab_search,
}
use p2pget.Tui.Files.{runs, panics, files_at}
use p2pget.Tui.Keys.{resize}
use p2pget.Tui.Update.{update, update_chunk, fresh_chunk, show_ranked, end_search}
use p2pget.Tui.Steady.{
  IsSteady, ErrsMade, take_answer-some, ViewSteady, IsDocumented, pass_on-IsSteady,
  take_answer-IsSteady, update_added-IsSteady, update_refresh-IsSteady,
}
use p2pget.Tui.Steady.Files.{StepsWell}
use p2pget.Tui.Steady.Keys.{update_key-StepsWell}

-- The engine goes on by itself: no download shows fewer files than before.
abbrev pub Grows : {R : Type 0} → Engine R → Engine R → Type 0
Grows e e' = (id : ℕ) → length (files_at e id) ≤ length (files_at e' id)

errs_made :
    (gen : ℕ) (found : Option (List (Text × Text)))
    → ErrsMade gen found
    → gen ≢ 0
    → (errs : List (Text × Text)) × (found ≡ some errs)
unfolding ErrsMade
errs_made gen (some errs) e began = (errs, refl)
errs_made zero none e began = absurd (began refl)
errs_made (suc gen) none e began = absurd e

grow-ViewSteady :
    {R : Type 0} (e e' : Engine R) (active : ℕ) (asked : Text) (v : Option FileView)
    → Grows e e'
    → ViewSteady e active asked v
    → ViewSteady e' active asked v
grow-ViewSteady e e' active asked none g h = tt
grow-ViewSteady e e' active asked (some v) g (tab, unasked, cursor, count) =
    (tab, unasked, cursor, omega (arith, g v.d))

-- A chunk carries the number of a search, and `startSearch` numbers them from 1 on.
abbrev pub Sent : Message → Type 0
Sent (search_chunk ch r query gen) = gen ≢ 0
Sent (window_size width height) = Unit
Sent (key k) = Unit
Sent refresh = Unit
Sent (download_added name held err) = Unit
Sent (other_message i) = Unit

module _ ⦃u : Unicode⦄ {kit : Kit} where
  -- The states reached from `New`.
  pub data Reached : Model kit → Type 0 where
    starts : (e : Engine kit.rates.Rate) → Reached (new_model kit e)
    takes_message :
        {m : Model kit} (w : World) (msg : Message) {m' : Model kit} {c : Command}
        → Reached m
        → Sent msg
        → update w msg m ≡ runs (m', c)
        → Reached m'
    engine_moves :
        {m : Model kit} (e : Engine kit.rates.Rate)
        → Reached m
        → Grows m.engine e
        → Reached (record m { engine = e })

  -- What is shown of the results is no part of a steady state, and a sort ranks without a panic.
  module _ (sorts : IsSort kit.sort) where
    show_ranked-StepsWell :
        (ch : ℕ) (query : Text) (gen : ℕ) (m : Model kit)
        → IsSteady m
        → StepsWell (show_ranked ch query gen m)
    unfolding show_ranked
    show_ranked-StepsWell ch query gen m s =
        let (rs, ranks, best, names) = dedup_and_rank-merges kit.sort sorts m.search_acc in
        rw (ranks, show_ranked) s

    end_search-StepsWell :
        (query : Text) (m : Model kit) → IsSteady m → StepsWell (end_search query m)
    unfolding end_search
    end_search-StepsWell query m s =
        let (rs, ranks, best, names) = dedup_and_rank-merges kit.sort sorts m.search_acc in
        rw (ranks, end_search) s

    fresh_chunk-StepsWell :
        (ch : ℕ) (r : Option Answer) (query : Text) (gen : ℕ) (m : Model kit)
        → IsSteady m
        → m.search_gen ≢ 0
        → StepsWell (fresh_chunk ch r query gen m)
    unfolding fresh_chunk
    fresh_chunk-StepsWell ch none query gen m s began = end_search-StepsWell query m s
    fresh_chunk-StepsWell ch (some r) query gen m s began =
        let (m', taken) = take_answer-some r m s began in
        rw (taken, fresh_chunk)
          (show_ranked-StepsWell ch query gen m' (take_answer-IsSteady r m m' s taken))

    update_chunk-StepsWell :
        (ch : ℕ) (r : Option Answer) (query : Text) (gen : ℕ) (m : Model kit)
        → IsSteady m
        → gen ≢ 0
        → StepsWell (update_chunk ch r query gen m)
    unfolding update_chunk
    update_chunk-StepsWell ch r query gen m s began = elim (Bool-cases (gen == m.search_gen)) [
      | inr stale ↦ rw (stale, update_chunk) s
      | inl fresh ↦
          rw (fresh, update_chunk) (fresh_chunk-StepsWell ch r query gen m s (ground arith))
    ]

  module _ (doc : IsDocumented kit.input) (sorts : IsSort kit.sort) where
    update-StepsWell :
        (w : World) (msg : Message) (m : Model kit)
        → IsSteady m
        → Sent msg
        → StepsWell (update w msg m)
    unfolding update resize
    update-StepsWell w (window_size width height) m s sent =
        pass_on-IsSteady doc (window_size width height) (resize width height m) s
    update-StepsWell w (key k) m s sent = update_key-StepsWell doc w m k s
    update-StepsWell w (search_chunk ch r query gen) m s sent =
        update_chunk-StepsWell sorts ch r query gen m s sent
    update-StepsWell w refresh m s sent = update_refresh-IsSteady w m s
    update-StepsWell w (download_added name held err) m s sent =
        update_added-IsSteady name held err m s
    update-StepsWell w (other_message i) m s sent = pass_on-IsSteady doc (other_message i) m s

    Reached-IsSteady : (m : Model kit) → Reached m → IsSteady m
    unfolding new_model ErrsMade
    Reached-IsSteady m (starts e) = ((omega arith, tt), (λ h. refl), tt)
    Reached-IsSteady m (takes_message {m = before} w msg reached sent taken) =
        rw (taken) at (update-StepsWell w msg before (Reached-IsSteady before reached) sent)
    Reached-IsSteady m (engine_moves {m = before} e reached grows) =
        let (a, f, v) = Reached-IsSteady before reached in
        (
          a,
          f,
          grow-ViewSteady before.engine e before.active before.confirm_delete before.file_view grows
              v,
        )

    -- In every state that is reached from a new interface by messages, whatever the world answers,
    -- and by moves of the engine after which no download shows fewer files: one of the three tabs
    -- is active; the input is focused on the search tab only; a file view stands on the downloads
    -- tab with no deletion to confirm, and its cursor is on one of its files, or at 0; the map of
    -- the errors of a search is there once one was started; and no message makes the interface
    -- panic. The input keeps its focus as documented, the sort of results is one, and a chunk
    -- carries the number of a search, which is not 0: with that number it would write to a nil map.
    pub update-steady :
        (m : Model kit)
        → Reached m
        → (m.active < 3)
          × (kit.input.focused m.input ≡ true → m.active ≡ tab_search)
          × ViewSteady m.engine m.active m.confirm_delete m.file_view
          × (m.search_gen ≢ 0 → (errs : List (Text × Text)) × (m.search_errs ≡ some errs))
          × ((w : World) (msg : Message) → Sent msg → update w msg m ≢ panics)
    update-steady m reached =
        let (a, f, v) = Reached-IsSteady m reached in
        (
          a.0,
          f,
          v,
          errs_made m.search_gen m.search_errs a.1,
          λ w msg sent bad. rw (bad) at (update-StepsWell w msg m (a, f, v) sent),
        )

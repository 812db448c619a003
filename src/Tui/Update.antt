-- ===== src/Tui/Update.antt =====
-- `Update` of internal/tui/app.go and what its commands do.
use p2pget.Prelude.{
  ℕ, ◌-◌, List, [], ◌++◌, Bool, true, false, not, leb, ◌==◌, if◌then◌else◌, Option, none, some,
  Text, length, put, text_discrete,
}
use p2pget.Strings.{Unicode}
use p2pget.Search.{Result, dedup_and_rank}
use p2pget.Search.Collect.{Answer}
use p2pget.Engine.Listing.{sample_rates}
use p2pget.Tui.{
  Kit, Model, World, FileView, Message, AddError, window_size, key, search_chunk, refresh,
  download_added, other_message, no_command, tick_refresh, wait_chunk, found, received, add_failed,
  added_paused, added,
}
use p2pget.Tui.Watch.{refresh_downloads, prune_completed, restart_stalled, recompute_totals}
use p2pget.Tui.Files.{Outcome, runs, panics, files_at}
use p2pget.Tui.Keys.{Step, pass_on, resize, update_key}

-- The entries of `searchErrs`; a nil map has none.
unfoldable pub noted : Option (List (Text × Text)) → List (Text × Text)
noted none = []
noted (some errs) = errs

module _ {kit : Kit} where
  -- What `case refreshMsg` does to the file view.
  unfoldable pub refresh_view : Option FileView → Model kit → Model kit
  refresh_view none m = m
  refresh_view (some view) m =
      let shown = files_at m.engine view.d in
      let n = length shown in
      record m {
        file_view = some (record view {
          files = shown;
          cursor = if leb n view.cursor then n - 1 else view.cursor;
        });
      }

  module _ (w : World) where
    -- `case refreshMsg`
    unfoldable pub update_refresh : Model kit → Model kit
    unfolding refresh_view
    update_refresh m =
        let sampled = record m {
          engine = sample_rates kit.rates kit.by_key w.now w.stats m.engine;
        } in
        let kept = restart_stalled w (prune_completed w sampled) in
        let shown = recompute_totals w (refresh_downloads kept) in
        refresh_view shown.file_view shown

  -- `case downloadAddedMsg`
  unfoldable pub update_added : Text → Bool → Option AddError → Model kit → Model kit
  update_added name held (some x) m = record m { status = add_failed x }
  update_added name true none m = refresh_downloads (record m { status = added_paused name })
  update_added name false none m = refresh_downloads (record m { status = added name })

  -- A chunk's answer, in `searchErrs` or `searchAcc`; `none` is the panic of a write to a nil map.
  unfoldable pub take_answer : Answer → Model kit → Option (Model kit)
  take_answer r m = elim r.err [
    | none ↦ some (record m { search_acc = m.search_acc ++ r.results })
    | some x ↦ elim m.search_errs [
      | none ↦ none
      | some errs ↦ some (record m { search_errs = some (put text_discrete r.name x errs) })
    ]
  ]

  module _ ⦃u : Unicode⦄ where
    -- `search.DedupAndRank(m.searchAcc)`; `none` is a panic.
    abbrev pub ranked : Model kit → Option (List Result)
    ranked m = dedup_and_rank kit.sort m.search_acc

    -- The results so far, in the list and the status.
    unfoldable pub show_ranked : ℕ → Text → ℕ → Model kit → Outcome (Step kit)
    show_ranked ch query gen m = elim (ranked m) [
      | none ↦ panics
      | some rs ↦ runs (
        record m {
          results = kit.results.set_items rs m.results;
          status = received (length rs) query;
        },
        wait_chunk ch query gen,
      )
    ]

    -- The channel is closed.
    unfoldable pub end_search : Text → Model kit → Outcome (Step kit)
    end_search query m = elim (ranked m) [
      | none ↦ panics
      | some rs ↦
          runs (record m { status = found (length rs) query (noted m.search_errs) }, no_command)
    ]

    -- A chunk of the search that is on.
    unfoldable pub fresh_chunk : ℕ → Option Answer → Text → ℕ → Model kit → Outcome (Step kit)
    fresh_chunk ch none query gen m = end_search query m
    fresh_chunk ch (some answer) query gen m = elim (take_answer answer m) [
      | none ↦ panics
      | some m' ↦ show_ranked ch query gen m'
    ]

    -- `case searchChunkMsg`
    unfoldable pub update_chunk : ℕ → Option Answer → Text → ℕ → Model kit → Outcome (Step kit)
    update_chunk ch r query gen m =
        if not (gen == m.search_gen) then runs (m, no_command) else fresh_chunk ch r query gen m

    -- `Update`
    unfoldable pub update : World → Message → Model kit → Outcome (Step kit)
    unfolding update_key
    update w (window_size width height) m =
        runs (pass_on (window_size width height) (resize width height m))
    update w (key k) m = update_key w k m
    update w (search_chunk ch r query gen) m = update_chunk ch r query gen m
    update w refresh m = runs (update_refresh w m, tick_refresh)
    update w (download_added name held err) m = runs (update_added name held err m, no_command)
    update w (other_message i) m = runs (pass_on (other_message i) m)

-- ===== src/Tui/Searching.antt =====
-- A search of internal/tui/app.go that streams in, against `Search` of internal/search/search.go.
pub mod Streamed
use mathlib.Core.List.{Permᴰ}
use p2pget.Search.Rank.{IsSort}
use p2pget.Prelude.{
  ℕ, suc, List, [], ◌∷◌, ◌++◌, Bool, true, false, ◌==◌, ◌≡◌, ◌≢◌, refl, sym, ap, ◌∙◌, arith, ℤ,
  Option, none, some, Text, length, Option-cases, inl, inr,
}
use p2pget.Strings.{Unicode}
use p2pget.Search.{Result, dedup_and_rank, filter_by_query}
use p2pget.Search.Collect.{Answer, Collected, collect_one, collect_all, aggregate, stream_one}
use p2pget.Engine.Listing.{sample_rates}
use p2pget.Tui.{
  Kit, Menu, Model, World, FileView, Message, AddError, window_size, search_chunk, refresh,
  download_added, other_message, found,
}
use p2pget.Tui.Watch.{refresh_downloads, prune_completed, restart_stalled, recompute_totals}
use p2pget.Tui.Files.{Outcome, runs, panics}
use p2pget.Tui.Keys.{pass_on, resize, start_search}
use p2pget.Tui.Update.{update, update_added, update_refresh, refresh_view}

-- What the operations of a list do to its items.
pub record IsDocumented {A : Type 0} (menu : Menu A) : Type 0 where
  pub set_items-items : (xs : List A) (l : menu.Rows) → menu.items (menu.set_items xs l) ≡ xs
  pub set_size-items : (w h : ℤ) (l : menu.Rows) → menu.items (menu.set_size w h l) ≡ menu.items l
  pub move-items : (msg : Message) (l : menu.Rows) → menu.items (menu.move msg l) ≡ menu.items l

module _ ⦃u : Unicode⦄ where
  -- The messages that come after the start of search `gen` for `query`, with the answers of the
  -- indexers in their order, up to the closing of the channel.
  pub data Streams (query : Text) (gen : ℕ) : List Message → List Answer → Type 0 where
    closes : (ch : ℕ) → Streams query gen (search_chunk ch none query gen ∷ []) []
    answers :
        {msgs : List Message} {rest : List Answer} (ch : ℕ) (a : Answer)
        → Streams query gen msgs rest
        → Streams query gen
            (search_chunk ch (some (stream_one query a)) query gen ∷ msgs)
            (a ∷ rest)
    late :
        {msgs : List Message} {rest : List Answer} (ch : ℕ) (r : Option Answer) (old : Text) (g : ℕ)
        → g ≢ gen
        → Streams query gen msgs rest
        → Streams query gen (search_chunk ch r old g ∷ msgs) rest
    resizes :
        {msgs : List Message} {rest : List Answer} (width height : ℤ)
        → Streams query gen msgs rest
        → Streams query gen (window_size width height ∷ msgs) rest
    ticks :
        {msgs : List Message} {rest : List Answer}
        → Streams query gen msgs rest
        → Streams query gen (refresh ∷ msgs) rest
    adds :
        {msgs : List Message} {rest : List Answer} (name : Text) (held : Bool)
        (err : Option AddError)
        → Streams query gen msgs rest
        → Streams query gen (download_added name held err ∷ msgs) rest
    others :
        {msgs : List Message} {rest : List Answer} (i : ℕ)
        → Streams query gen msgs rest
        → Streams query gen (other_message i ∷ msgs) rest

module _ ⦃u : Unicode⦄ {kit : Kit} where
  -- `Update` on one message after another.
  unfoldable pub run_messages : World → List Message → Model kit → Outcome (Model kit)
  run_messages w [] m = runs m
  run_messages w (msg ∷ msgs) m = elim (update w msg m) [
    | panics ↦ panics
    | runs step ↦ run_messages w msgs step.0
  ]

  -- The search of two states is the same.
  abbrev pub SameSearch : Model kit → Model kit → Type 0
  SameSearch m m' =
      (m'.search_gen ≡ m.search_gen)
      × (m'.search_acc ≡ m.search_acc)
      × (kit.results.items m'.results ≡ kit.results.items m.results)
      × (m'.search_errs ≡ m.search_errs)

  pub refresh_downloads-SameSearch : (m : Model kit) → SameSearch m (refresh_downloads m)
  unfolding refresh_downloads
  refresh_downloads-SameSearch m = ground arith

  pub update_added-SameSearch :
      (name : Text) (held : Bool) (err : Option AddError) (m : Model kit)
      → SameSearch m (update_added name held err m)
  unfolding update_added
  update_added-SameSearch name held (some x) m = (refl, refl, refl, refl)
  update_added-SameSearch name true none m = refresh_downloads-SameSearch _
  update_added-SameSearch name false none m = refresh_downloads-SameSearch _

  pub refresh_view-SameSearch :
      (v : Option FileView) (m : Model kit) → SameSearch m (refresh_view v m)
  unfolding refresh_view
  refresh_view-SameSearch none m = (refl, refl, refl, refl)
  refresh_view-SameSearch (some view) m = (refl, refl, refl, refl)

  pub update_refresh-SameSearch : (w : World) (m : Model kit) → SameSearch m (update_refresh w m)
  unfolding update_refresh prune_completed restart_stalled recompute_totals
  update_refresh-SameSearch w m =
      let sampled : Model kit = record m {
        engine = sample_rates kit.rates kit.by_key w.now w.stats m.engine;
      } in
      let kept = restart_stalled w (prune_completed w sampled) in
      let shown = recompute_totals w (refresh_downloads kept) in
      let (g, a, i, e) = refresh_downloads-SameSearch kept in
      let (g', a', i', e') = refresh_view-SameSearch shown.file_view shown in
      (g' ∙ g, a' ∙ a, i' ∙ i, e' ∙ e)

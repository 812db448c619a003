-- ===== src/Tui/Searching/Streamed.antt =====
-- What a streamed search of internal/tui/app.go shows at its end.
use mathlib.Core.List.{Permᴰ}
use p2pget.Search.Rank.{IsSort, dedup_and_rank-merges}
use p2pget.Prelude.{
  ℕ, suc, List, [], ◌∷◌, ◌++◌, true, false, ◌==◌, ◌≡◌, ◌≢◌, refl, sym, ap, ◌∙◌, arith, ℤ, Option,
  none, some, Text, length, Option-cases, inl, inr,
}
use p2pget.Strings.{Unicode}
use p2pget.Search.{Result, dedup_and_rank, filter_by_query}
use p2pget.Search.Collect.{Answer, Collected, collect_one, collect_all, aggregate, stream_one}
use p2pget.Tui.{
  Kit, Model, World, Notice, Message, window_size, search_chunk, other_message, found, received,
  no_command, wait_chunk,
}
use p2pget.Tui.Files.{Outcome, runs, panics}
use p2pget.Tui.Keys.{Step, pass_on, resize, start_search}
use p2pget.Tui.Update.{
  update, update_chunk, update_added, update_refresh, noted, take_answer, fresh_chunk, show_ranked,
  end_search,
}
use p2pget.Tui.Searching.{
  IsDocumented, Streams, closes, answers, late, resizes, ticks, adds, others, run_messages,
  SameSearch, update_added-SameSearch, update_refresh-SameSearch,
}

perm_nil : {xs ys : List Result} → Permᴰ xs ys → ys ≡ [] → xs ≡ []
perm_nil Permᴰ.nil e = refl
perm_nil (Permᴰ.cons p q) e = absurd (ground arith)
perm_nil (Permᴰ.swap p q) e = absurd (ground arith)
perm_nil (Permᴰ.trans p q) e = perm_nil p (perm_nil q e)

module _ ⦃u : Unicode⦄ {kit : Kit} where
  module _ (doc : IsDocumented kit.results) where
    pass_on-SameSearch : (msg : Message) (m : Model kit) → SameSearch m (pass_on msg m).0
    unfolding pass_on
    pass_on-SameSearch msg m = ground (arith, doc.move-items msg m.results)

    resize-SameSearch : (width height : ℤ) (m : Model kit) → SameSearch m (resize width height m)
    unfolding resize
    resize-SameSearch width height m = (refl, refl, doc.set_size-items _ _ m.results, refl)

    -- A state in the middle of search `gen`, with what has come in.
    abbrev InSearch : ℕ → Collected → Model kit → Type 0
    InSearch gen c m =
        (m.search_gen ≡ gen)
        × (m.search_acc ≡ c.out)
        × (dedup_and_rank kit.sort c.out ≡ some (kit.results.items m.results))
        × ((errs : List (Text × Text)) × (m.search_errs ≡ some errs))

    SameSearch-InSearch :
        (gen : ℕ) (c : Collected) (m m' : Model kit)
        → SameSearch m m'
        → InSearch gen c m
        → InSearch gen c m'
    SameSearch-InSearch gen c m m' (g, a, i, e) (g', a', i', (errs, e')) =
        (g ∙ g', a ∙ a', i' ∙ ap some (sym i), (errs, e ∙ e'))

    -- The answer to a message that is not of the search.
    chunk-late :
        (ch : ℕ) (r : Option Answer) (old : Text) (g gen : ℕ) (m : Model kit)
        → g ≢ gen
        → m.search_gen ≡ gen
        → update_chunk ch r old g m ≡ runs (m, no_command)
    unfolding update_chunk
    chunk-late ch r old g gen m ne at =
        let other : (g == m.search_gen) ≡ false = ground arith in rw (other, update_chunk) refl

    -- A state in which an answer of the search was taken, and the list not yet shown again.
    Taken : ℕ → Collected → Model kit → Type 0
    Taken gen c m =
        (m.search_gen ≡ gen)
        × (m.search_acc ≡ c.out)
        × ((errs : List (Text × Text)) × (m.search_errs ≡ some errs))

    take_answer-Taken :
        (query : Text) (gen : ℕ) (c : Collected) (a : Answer) (m : Model kit)
        → InSearch gen c m
        → (m' : Model kit) × (take_answer (stream_one query a) m ≡ some m')
          × Taken gen (collect_one query c a) m'
    unfolding take_answer stream_one collect_one Taken
    take_answer-Taken query gen c a m (g, acc, i, (errs, made)) = elim (Option-cases a.err) [
      | inl fine ↦
          rw (fine, take_answer)
            (_, refl, (g, ap (λ xs. xs ++ filter_by_query a.results query) acc, (errs, made)))
      | inr (x, bad) ↦ rw (bad, take_answer) (rw (made, take_answer) (_, refl, (g, acc, (_, refl))))
    ]

    module _ (sorts : IsSort kit.sort) where
      -- An answer of the search is taken, and its results are ranked and shown.
      chunk-InSearch :
          (ch : ℕ) (query : Text) (gen : ℕ) (c : Collected) (a : Answer) (m : Model kit)
          → InSearch gen c m
          → (step : Step kit) × (update_chunk ch (some (stream_one query a)) query gen m
              ≡ runs step)
            × InSearch gen (collect_one query c a) step.0
      unfolding update_chunk fresh_chunk show_ranked Taken
      chunk-InSearch ch query gen c a m s =
          let fresh : (gen == m.search_gen) ≡ true = ground (arith, s.0) in
          let (m', taken, (g, acc, made)) = take_answer-Taken query gen c a m s in
          let (rs, ranks, best, names) = dedup_and_rank-merges kit.sort sorts m'.search_acc in
          let shown : Model kit = record m' {
            results = kit.results.set_items rs m'.results;
            status = received (length rs) query;
          } in
          (
            (shown, wait_chunk ch query gen),
            rw (fresh, update_chunk) (rw (taken, fresh_chunk) (rw (ranks, show_ranked) refl)),
            (
              g,
              acc,
              ap (dedup_and_rank kit.sort) (sym acc)
                  ∙ ranks
                  ∙ ap some (sym (doc.set_items-items rs m'.results)),
              made,
            ),
          )

    -- What the closing of the channel leaves.
    abbrev pub Finished : Text → List Result → Outcome (Model kit) → Type 0
    Finished query rs panics = ⊥
    Finished query rs (runs m) =
        (kit.results.items m.results ≡ rs)
        × (m.status ≡ found (length rs) query (noted m.search_errs))

    -- The list is what the search gives, and the status tells its length.
    abbrev pub Shows : Text → Option (List Result) → Outcome (Model kit) → Type 0
    Shows query ranks end = (rs : List Result) × (ranks ≡ some rs) × Finished query rs end

    module _ (sorts : IsSort kit.sort) where
      close-Shows :
          (ch : ℕ) (query : Text) (gen : ℕ) (c : Collected) (w : World) (m : Model kit)
          → InSearch gen c m
          → Shows query
              (dedup_and_rank kit.sort c.out)
              (run_messages w (search_chunk ch none query gen ∷ []) m)
      unfolding run_messages update update_chunk fresh_chunk end_search
      close-Shows ch query gen c w m (g, acc, i, made) =
          let fresh : (gen == m.search_gen) ≡ true = ground arith in
          let ranks : dedup_and_rank kit.sort m.search_acc ≡ some (kit.results.items m.results) =
            ap (dedup_and_rank kit.sort) acc ∙ i in
          let told : Notice =
            found (length (kit.results.items m.results)) query (noted m.search_errs) in
          let ended : update_chunk ch none query gen m
              ≡ runs (record m { status = told }, no_command) =
            rw (fresh, update_chunk) (rw (ranks, end_search) refl) in
          (kit.results.items m.results, i, rw (ended, run_messages) (refl, refl))

      streamed :
          (w : World) (query : Text) (gen : ℕ) (msgs : List Message) (rest : List Answer)
          (c : Collected) (m : Model kit)
          → Streams query gen msgs rest
          → InSearch gen c m
          → Shows query
              (dedup_and_rank kit.sort (collect_all query c rest).out)
              (run_messages w msgs m)
      unfolding run_messages collect_all update
      streamed w query gen msgs rest c m (closes ch) s = close-Shows ch query gen c w m s
      streamed w query gen msgs rest c m (answers ch a more) s =
          let (step, taken, s') = chunk-InSearch sorts ch query gen c a m s in
          rw (taken, run_messages) (streamed w query gen _ _ (collect_one query c a) step.0 more s')
      streamed w query gen msgs rest c m (late {msgs = msgs'} ch r old g ne more) s =
          rw (chunk-late ch r old g gen m ne s.0, run_messages)
            (streamed w query gen msgs' rest c m more s)
      streamed w query gen msgs rest c m (resizes {msgs = msgs'} width height more) s =
          let m' = resize width height m in
          let msg = window_size width height in
          streamed w query gen msgs' rest c (pass_on msg m').0 more (
            SameSearch-InSearch gen c m' (pass_on msg m').0 (pass_on-SameSearch msg m')
              (SameSearch-InSearch gen c m m' (resize-SameSearch width height m) s))
      streamed w query gen msgs rest c m (ticks more) s =
          streamed w query gen _ rest c (update_refresh w m) more
            (SameSearch-InSearch gen c m (update_refresh w m) (update_refresh-SameSearch w m) s)
      streamed w query gen msgs rest c m (adds name held err more) s =
          streamed w query gen _ rest c (update_added name held err m) more (
            SameSearch-InSearch gen c m (update_added name held err m)
              (update_added-SameSearch name held err m) s)
      streamed w query gen msgs rest c m (others {msgs = msgs'} i more) s =
          streamed w query gen msgs' rest c (pass_on (other_message i) m).0 more (
            SameSearch-InSearch gen c m (pass_on (other_message i) m).0
              (pass_on-SameSearch (other_message i) m) s)

    -- If the sort is one, then from the start of a search on, whatever late answers of older
    -- searches, ticks, additions and resizes come between its own, no message makes the interface
    -- panic, and once its channel is closed the list shows just what `Aggregator.Search` returns
    -- for the same answers, which is without a panic, and the status line tells how many they are.
    pub start_search-aggregate :
        (sorts : IsSort kit.sort) (w : World) (query : Text) (m : Model kit) (msgs : List Message)
        (rest : List Answer)
        → Streams query (suc m.search_gen) msgs rest
        → Shows query
            (aggregate kit.sort query rest).0
            (run_messages w msgs (start_search query m).0)
    unfolding start_search aggregate dedup_and_rank
    start_search-aggregate sorts w query m msgs rest coming =
        streamed sorts w query (suc m.search_gen) msgs rest (record { out = []; errs = [] })
          (start_search query m).0 coming
          (
            refl,
            refl,
            ap some (perm_nil (sorts.permutes []) refl ∙ sym (doc.set_items-items [] m.results)),
            ([], refl),
          )

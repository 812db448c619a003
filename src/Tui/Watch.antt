-- ===== src/Tui/Watch.antt =====
-- What internal/tui/app.go does at each tick: finished downloads leave the engine, dead ones are
-- restarted, and the list and the totals are brought up to date.
use p2pget.Prelude.{
  ℕ, suc, ◌*◌, ◌^◌, List, [], ◌∷◌, ◌++◌, Bool, true, false, not, ◌&&◌, ◌||◌, ltb, leb, ◌==◌,
  if◌then◌else◌, Option, none, some, Text, length, get_elem?,
}
use p2pget.Download.{Download, Rates, stall_duration}
use p2pget.Download.Status.{Status, status, is_completed}
use p2pget.Engine.{Engine, remove, restart, ok, failed}
use p2pget.Engine.Listing.{list}
use p2pget.Tui.{Kit, Model, World, FileView, Notice, one_done, many_done, restarted}

-- `sameDownloads`
abbrev same_from : List ℕ → List ℕ → Bool
same_from [] [] = true
same_from [] (j ∷ b) = false
same_from (i ∷ a) [] = false
same_from (i ∷ a) (j ∷ b) = i == j && same_from a b

unfoldable pub same_downloads : List ℕ → List ℕ → Bool
same_downloads a b = if length a == length b then same_from a b else false

-- `m.fileView != nil && m.fileView.d == d`
abbrev pub is_viewed : Option FileView → ℕ → Bool
is_viewed none id = false
is_viewed (some view) id = view.d == id

-- Three minutes in nanoseconds.
abbrev pub stall_restart_threshold : ℕ
stall_restart_threshold = 180 * 10 ^ 9

module _ {kit : Kit} where
  -- `refreshDownloads`
  unfoldable pub refresh_downloads : Model kit → Model kit
  refresh_downloads m =
      let now = list kit.by_key m.engine in
      if same_downloads now m.dl_list
      then m
      else record m { dl_list = now; dls = kit.dls.set_items now m.dls }

module _ (rates : Rates) (w : World) (view : Option FileView) where
  open rates use {Rate, still, below_one}

  -- The download of a name, unless the file view shows it, with its status.
  abbrev pub watched : ℕ → Engine Rate → Option (Download Rate × Status Rate)
  watched id e = if is_viewed view id then none else elim (get_elem? e.heap id) [
    | none ↦ none
    | some d ↦ some (d, status (w.stats d.t.handle) d)
  ]

  -- The body of the loop of `pruneCompleted`: the engine and the names `done`.
  unfoldable pub prune_one : ℕ → Engine Rate × List Text → Engine Rate × List Text
  prune_one id (e, done) = elim (watched id e) [
    | none ↦ (e, done)
    | some (d, s) ↦
        if not (is_completed s)
        then (e, done)
        else let (e', outcome) = remove w.client w.written s.info_hash e in
          (e', elim outcome [ ok x ↦ done ++ s.name ∷ [] | failed x ↦ done ])
  ]

  unfoldable pub prune_all : List ℕ → Engine Rate × List Text → Engine Rate × List Text
  prune_all [] st = st
  prune_all (id ∷ ids) st = prune_all ids (prune_one id st)

  -- The three tests of `restartStalled` that skip a download.
  unfoldable pub is_dead : Download Rate → Status Rate → Bool
  is_dead d s =
      not (not s.have_info || s.paused || is_completed s)
      && not (ltb 0 s.active_peers || not (below_one s.down_rate))
      && leb stall_restart_threshold (stall_duration d w.now)

  -- The body of its loop: the engine and the notice.
  unfoldable pub restart_one : ℕ → Engine Rate × Notice → Engine Rate × Notice
  restart_one id (e, note) = elim (watched id e) [
    | none ↦ (e, note)
    | some (d, s) ↦
        if is_dead d s
        then (let (e', outcome) = restart still w.client w.now w.written s.info_hash e in
            (e', elim outcome [ ok x ↦ restarted s.name | failed x ↦ note ]))
        else (e, note)
  ]

  unfoldable pub restart_all : List ℕ → Engine Rate × Notice → Engine Rate × Notice
  restart_all [] st = st
  restart_all (id ∷ ids) st = restart_all ids (restart_one id st)

-- The `switch` of `pruneCompleted` on how many were removed.
abbrev done_notice : List Text → Notice → Notice
done_notice [] note = note
done_notice (name ∷ []) note = one_done name
done_notice (name ∷ more) note = many_done (suc (length more))

module _ (kit : Kit) (w : World) where
  -- The sums of `recomputeTotals`.
  unfoldable pub sum_rates :
      (Status kit.rates.Rate → kit.rates.Rate)
      → List ℕ
      → Engine kit.rates.Rate
      → kit.rates.Rate
      → kit.rates.Rate
  sum_rates rate [] e sum = sum
  sum_rates rate (id ∷ ids) e sum = elim (get_elem? e.heap id) [
    | none ↦ sum_rates rate ids e sum
    | some d ↦ sum_rates rate ids e (kit.add_rates sum (rate (status (w.stats d.t.handle) d)))
  ]

module _ {kit : Kit} (w : World) where
  -- `pruneCompleted`
  unfoldable pub prune_completed : Model kit → Model kit
  prune_completed m =
      let (e, done) = prune_all kit.rates w m.file_view (list kit.by_key m.engine) (m.engine, []) in
      record m { engine = e; status = done_notice done m.status }

  -- `restartStalled`
  unfoldable pub restart_stalled : Model kit → Model kit
  restart_stalled m =
      let (e, note) =
        restart_all kit.rates w m.file_view (list kit.by_key m.engine) (m.engine, m.status) in
      record m { engine = e; status = note }

  -- `recomputeTotals`
  unfoldable pub recompute_totals : Model kit → Model kit
  recompute_totals m = record m {
    total_down = sum_rates kit w (λ s. s.down_rate) m.dl_list m.engine kit.rates.still;
    total_up = sum_rates kit w (λ s. s.up_rate) m.dl_list m.engine kit.rates.still;
  }

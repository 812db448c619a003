-- ===== src/Engine/Resume.antt =====
-- The file selection of internal/engine/engine.go goes through the list of skipped files and back.
use p2pget.Prelude.{
  ℕ, suc, ◌<◌, List, [], ◌∷◌, Bool, true, false, not, none, some, ◌≡◌, refl, ap, ap₂, arith, ◌∙◌,
  length, replicate, contains, ℕ_discrete,
}
use p2pget.Download.{Download, File, files, file_infos, select_from}
use p2pget.Engine.{skipped, skipped_files, task_record, restart_skip}

-- No index below the first one is skipped.
skipped_below :
    (i j : ℕ) (ws : List Bool) (fs : List File)
    → j < i
    → contains ℕ_discrete j (skipped (file_infos i ws fs)) ≡ false
unfolding skipped file_infos contains
skipped_below i j ws [] h = refl
skipped_below i j [] (f ∷ fs) h = skipped_below (suc i) j [] fs (omega arith)
skipped_below i j (true ∷ ws) (f ∷ fs) h = skipped_below (suc i) j ws fs (omega arith)
skipped_below i j (false ∷ ws) (f ∷ fs) h = ground (arith, skipped_below (suc i) j ws fs)

-- An index below the first one changes nothing.
select_from_below :
    (i j : ℕ) (skip : List ℕ) (fs : List File)
    → j < i
    → select_from (j ∷ skip) i fs ≡ select_from skip i fs
unfolding select_from contains
select_from_below i j skip [] h = refl
select_from_below i j skip (f ∷ fs) h = ground (arith, select_from_below (suc i) j skip fs)

-- The selection that is made from the skipped files of a selection is that selection.
pub select_from-skipped :
    (i : ℕ) (ws : List Bool) (fs : List File)
    → length ws ≡ length fs
    → select_from (skipped (file_infos i ws fs)) i fs ≡ ws
unfolding select_from skipped file_infos
select_from-skipped i [] [] h = refl
select_from-skipped i (w ∷ ws) [] h = absurd (omega arith)
select_from-skipped i [] (f ∷ fs) h = absurd (omega arith)
select_from-skipped i (true ∷ ws) (f ∷ fs) h =
    ap₂ ◌∷◌ (ap not (skipped_below (suc i) i ws fs (omega arith)))
      (select_from-skipped (suc i) ws fs (omega arith))
select_from-skipped i (false ∷ ws) (f ∷ fs) h = ap₂ ◌∷◌ (ground arith) (
    select_from_below (suc i) i (skipped (file_infos (suc i) ws fs)) fs (omega arith)
    ∙ select_from-skipped (suc i) ws fs (omega arith))

select_from_nil : (i : ℕ) (fs : List File) → select_from [] i fs ≡ replicate (length fs) true
unfolding select_from contains
select_from_nil i [] = refl
select_from_nil i (f ∷ fs) = ap (◌∷◌ true) (select_from_nil (suc i) fs)

module _ {R : Type 0} where
  -- For a download whose metadata is there, with one wish for each file, a restart and a saved
  -- record have a list of skipped files from which the same selection is made again.
  pub restart_skip-selects :
      (d : Download R) {fs : List File} {ws : List Bool}
      → d.t.files ≡ some fs
      → d.wanted ≡ some ws
      → length ws ≡ length fs
      → (select_from (restart_skip d) 0 fs ≡ ws) × (select_from (task_record d).skip 0 fs ≡ ws)
  unfolding restart_skip task_record files
  restart_skip-selects d {fs} {ws} hf hw h =
      let back = select_from-skipped 0 ws fs h in
      let made : skipped_files (files d) ≡ skipped (file_infos 0 ws fs) = ground arith in
      (rw hf (rw hw back), rw hf (rw hw back))

  -- Before the metadata, a restart keeps the skipped files of a download, but the saved record has
  -- none: restored from it, the download wants every file.
  pub task_record_forgets :
      (d : Download R) (fs : List File)
      → d.t.files ≡ none
      → (restart_skip d ≡ d.skip)
        × ((task_record d).skip ≡ [])
        × (select_from (task_record d).skip 0 fs ≡ replicate (length fs) true)
  unfolding restart_skip task_record files
  task_record_forgets d fs e = (rw e, rw e, rw e (select_from_nil 0 fs))

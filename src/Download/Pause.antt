-- ===== src/Download/Pause.antt =====
-- `SetPaused` of internal/engine/download.go, to and fro.
use p2pget.Prelude.{
  List, Bool, true, false, none, some, ◌≡◌, refl, sym, arith, ◌∙◌, Option-cases, inl, inr,
}
use p2pget.Download.{File, Download, prioritise, apply_locked, set_paused}
use p2pget.Download.Selection.{
  IsApplied, Projected, prioritise_id, prioritise_twice, applied-wanted,
}

module _ {R : Type 0} where
  -- A download whose files are those of the list, under a pause.
  with_files : Download R → Bool → List File → Download R
  with_files d p fs = record d { paused = p; t = record d.t { files = some fs } }

  set_paused_ready :
      (p : Bool) (d : Download R) (ws : List Bool) (fs : List File)
      → d.wanted ≡ some ws
      → d.t.files ≡ some fs
      → set_paused p d ≡ with_files d p (prioritise p ws fs)
  unfolding set_paused apply_locked with_files
  set_paused_ready p d ws fs hw hf = ground arith

  with_files_id :
      (d : Download R) (p : Bool) (fs : List File)
      → d.paused ≡ p
      → d.t.files ≡ some fs
      → with_files d p fs ≡ d
  unfolding with_files
  with_files_id d p fs e f = λ i. record d { paused = sym e i; t = record d.t { files = sym f i } }

  with_files_twice :
      (d : Download R) (p q : Bool) (fs gs : List File)
      → with_files (with_files d p fs) q gs ≡ with_files d q gs
  unfolding with_files
  with_files_twice d p q fs gs = refl

  set_paused_unready :
      (p : Bool) (d : Download R) → d.wanted ≡ none → set_paused p d ≡ record d { paused = p }
  unfolding set_paused apply_locked
  set_paused_unready p d e = ground arith

  resumed :
      (d : Download R) (ws : List Bool) (fs : List File)
      → d.wanted ≡ some ws
      → d.t.files ≡ some fs
      → Projected d.paused ws fs
      → d.paused ≡ false
      → set_paused false (set_paused true d) ≡ d
  resumed d ws fs hw hf proj e =
      let running : Projected false ws fs = rw (← e) proj in
      rw (set_paused_ready true d ws fs hw hf) (
        set_paused_ready false (with_files d true (prioritise true ws fs)) ws
          (prioritise true ws fs) (unfold with_files in hw) (unfold with_files in refl)
        ∙ rw (with_files_twice d true false, prioritise_twice, prioritise_id false ws fs running)
            (with_files_id d false fs e hf))

  -- Resuming gives a download back as it was before it was paused, if it was running and its
  -- priorities were those of its selection.
  pub pause-resume :
      (d : Download R) → IsApplied d → d.paused ≡ false → set_paused false (set_paused true d) ≡ d
  pause-resume d a e = elim (Option-cases d.wanted) [
    | inl no_metadata ↦ rw (set_paused_unready true d no_metadata) (
        set_paused_unready false (record d { paused = true }) no_metadata
        ∙ (λ i. record d { paused = sym e i }))
    | inr (ws, hw) ↦ let (fs, hf, proj) = applied-wanted d ws hw a in resumed d ws fs hw hf proj e
  ]

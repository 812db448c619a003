-- ===== src/Download/Selection.antt =====
-- The file selection of internal/engine/download.go: what the priorities of the files are.
use p2pget.Prelude.{
  ℕ, suc, ◌<◌, ◌≤◌, List, [], ◌∷◌, Bool, not, ◌&&◌, if◌then◌else◌, ℤ, pos, negsuc, Option, none,
  some, length, set, replicate, ◌≡◌, refl, sym, ap, ap₂, arith, ◌∙◌, Option-cases, length-set,
  length-replicate, ◌⊎◌, inl, inr, dec_lt,
}
use p2pget.Download.{
  File, Download, Error, metadata_not_ready, out_of_range, Priority, priority_none, priority_normal,
  prioritise, select_from, apply_locked, init_selection, set_paused, set_file_wanted,
  set_all_wanted, files_of,
}

-- A file downloads exactly if it is wanted and the download is not paused.
abbrev pub target : Bool → Bool → Priority
target paused w = if w && not paused then priority_normal else priority_none

-- The priorities of some files are those of a selection of the same length.
abbrev pub Projected : Bool → List Bool → List File → Type 0
Projected paused [] [] = Unit
Projected paused (w ∷ ws) (f ∷ fs) = (f.priority ≡ target paused w) × Projected paused ws fs
Projected paused _ _ = ⊥

abbrev IsAppliedTo : Bool → Option (List Bool) → Option (List File) → Type 0
IsAppliedTo paused none fs = Unit
IsAppliedTo paused (some ws) none = ⊥
IsAppliedTo paused (some ws) (some fs) = Projected paused ws fs

-- Once the selection is there, the files have the priorities that it and the pause ask for.
abbrev pub IsApplied : {R : Type 0} → Download R → Type 0
IsApplied d = IsAppliedTo d.paused d.wanted d.t.files

prioritise-Projected :
    (paused : Bool) (ws : List Bool) (fs : List File)
    → length ws ≡ length fs
    → Projected paused ws (prioritise paused ws fs)
unfolding prioritise
prioritise-Projected paused [] [] h = tt
prioritise-Projected paused [] (f ∷ fs) h = absurd (omega arith)
prioritise-Projected paused (w ∷ ws) [] h = absurd (omega arith)
prioritise-Projected paused (w ∷ ws) (f ∷ fs) h =
    (refl, prioritise-Projected paused ws fs (omega arith))

Projected-length :
    (paused : Bool) (ws : List Bool) (fs : List File)
    → Projected paused ws fs
    → length ws ≡ length fs
Projected-length paused [] [] p = refl
Projected-length paused [] (f ∷ fs) p = absurd p
Projected-length paused (w ∷ ws) [] p = absurd p
Projected-length paused (w ∷ ws) (f ∷ fs) p = ap suc (Projected-length paused ws fs p.1)

pub length-select_from :
    (skip : List ℕ) (i : ℕ) (fs : List File) → length (select_from skip i fs) ≡ length fs
unfolding select_from
length-select_from skip i [] = refl
length-select_from skip i (f ∷ fs) = ap suc (length-select_from skip (suc i) fs)

pub prioritise_id :
    (paused : Bool) (ws : List Bool) (fs : List File)
    → Projected paused ws fs
    → prioritise paused ws fs ≡ fs
unfolding prioritise
prioritise_id paused [] [] p = refl
prioritise_id paused [] (f ∷ fs) p = absurd p
prioritise_id paused (w ∷ ws) [] p = absurd p
prioritise_id paused (w ∷ ws) (f ∷ fs) p =
    ap₂ ◌∷◌ (λ i. record f { priority = sym p.0 i }) (prioritise_id paused ws fs p.1)

-- Only the last priorities count.
pub prioritise_twice :
    (p q : Bool) (vs ws : List Bool) (fs : List File)
    → prioritise p ws (prioritise q vs fs) ≡ prioritise p ws fs
unfolding prioritise
prioritise_twice p q vs ws [] = refl
prioritise_twice p q [] [] (f ∷ fs) =
    ap (◌∷◌ (record f { priority = priority_none })) (prioritise_twice p q [] [] fs)
prioritise_twice p q (v ∷ vs) [] (f ∷ fs) =
    ap (◌∷◌ (record f { priority = priority_none })) (prioritise_twice p q vs [] fs)
prioritise_twice p q [] (w ∷ ws) (f ∷ fs) =
    ap (◌∷◌ (record f { priority = target p w })) (prioritise_twice p q [] ws fs)
prioritise_twice p q (v ∷ vs) (w ∷ ws) (f ∷ fs) =
    ap (◌∷◌ (record f { priority = target p w })) (prioritise_twice p q vs ws fs)

-- The call was made before the metadata, or with an index that is no file's.
abbrev pub IsRefused : ℤ → Option (List Bool) → Type 0
IsRefused index none = Unit
IsRefused (negsuc n) (some ws) = Unit
IsRefused (pos i) (some ws) = length ws ≤ i

module _ {R : Type 0} where
  -- A selection of the right length is applied.
  apply_locked-IsApplied :
      (d : Download R) (ws : List Bool) (fs : List File)
      → d.wanted ≡ some ws
      → d.t.files ≡ some fs
      → length ws ≡ length fs
      → IsApplied (apply_locked d)
  unfolding apply_locked
  apply_locked-IsApplied d ws fs hw hf h = rw (hw, hf) (prioritise-Projected d.paused ws fs h)

  pub applied-wanted :
      (d : Download R) (ws : List Bool)
      → d.wanted ≡ some ws
      → IsApplied d
      → (fs : List File) × (d.t.files ≡ some fs) × Projected d.paused ws fs
  applied-wanted d ws hw a = go d.t.files refl (rw hw at a)
    where
      go :
          (o : Option (List File))
          → d.t.files ≡ o
          → IsAppliedTo d.paused (some ws) d.t.files
          → (fs : List File) × (d.t.files ≡ some fs) × Projected d.paused ws fs
      go none e b = absurd (rw e at b)
      go (some fs) e b = (fs, e, rw e at b)

  -- When the metadata is there, initSelection leaves the files with the priorities that the new
  -- selection and the pause ask for.
  pub init_selection-IsApplied :
      (d : Download R) {fs : List File} → d.t.files ≡ some fs → IsApplied (init_selection d)
  unfolding init_selection
  init_selection-IsApplied d {fs} e =
      apply_locked-IsApplied (record d { wanted = some (select_from d.skip 0 (files_of d.t)) })
        (select_from d.skip 0 (files_of d.t)) fs refl e
        (length-select_from d.skip 0 (files_of d.t) ∙ rw e)

  unready-IsApplied : (d : Download R) → d.wanted ≡ none → IsApplied (apply_locked d)
  unfolding apply_locked
  unready-IsApplied d e = rw e tt

  -- SetPaused, which pauses and resumes, keeps the priorities those that the selection and the
  -- pause ask for.
  pub set_paused-IsApplied : (p : Bool) (d : Download R) → IsApplied d → IsApplied (set_paused p d)
  unfolding set_paused
  set_paused-IsApplied p d a = elim (Option-cases d.wanted) [
    | inl e ↦ unready-IsApplied (record d { paused = p }) e
    | inr (ws, e) ↦
        let (fs, hf, proj) = applied-wanted d ws e a in
        apply_locked-IsApplied (record d { paused = p }) ws fs e hf
          (Projected-length d.paused ws fs proj)
  ]

  set_file_wanted_ready :
      (d : Download R) (ws : List Bool) (i : ℕ) (w : Bool)
      → d.wanted ≡ some ws
      → i < length ws
      → set_file_wanted (pos i) w d ≡ (apply_locked (record d { wanted = some (set ws i w) }), none)
  unfolding set_file_wanted
  set_file_wanted_ready d ws i w e h = ground arith

  set_file_wanted_refused :
      (d : Download R) (index : ℤ) (w : Bool) (o : Option (List Bool))
      → d.wanted ≡ o
      → IsRefused index o
      → (e : Error) × (set_file_wanted index w d ≡ (d, some e))
  unfolding set_file_wanted
  set_file_wanted_refused d index w none e h = (metadata_not_ready, rw e)
  set_file_wanted_refused d (negsuc n) w (some ws) e h = (out_of_range (negsuc n) (length ws), rw e)
  set_file_wanted_refused d (pos i) w (some ws) e h =
      (out_of_range (pos i) (length ws), ground arith)

  apply_locked_kept :
      (d : Download R) → ((apply_locked d).wanted ≡ d.wanted) × ((apply_locked d).paused ≡ d.paused)
  unfolding apply_locked
  apply_locked_kept d = ground arith

  -- The wish for one file is changed, and the priorities with it.
  abbrev pub WishChanged : Download R → ℤ → Bool → Download R × Option Error → Type 0
  WishChanged d index w (d', err) =
      (i : ℕ) × (ws : List Bool) × (index ≡ pos i)
      × (d.wanted ≡ some ws)
      × (i < length ws)
      × (err ≡ none)
      × (d'.wanted ≡ some (set ws i w))
      × (d'.paused ≡ d.paused)
      × IsApplied d'

  -- An error, and nothing changed.
  abbrev pub WishRefused : Download R → ℤ → Download R × Option Error → Type 0
  WishRefused d index (d', err) =
      IsRefused index d.wanted × ((e : Error) × (err ≡ some e)) × (d' ≡ d)

  set_file_wanted_cases :
      (d : Download R) (index : ℤ) (w : Bool) (o : Option (List Bool))
      → IsApplied d
      → d.wanted ≡ o
      → WishChanged d index w (set_file_wanted index w d)
        ⊎ WishRefused d index (set_file_wanted index w d)
  set_file_wanted_cases d index w none a e =
      let (x, r) = set_file_wanted_refused d index w none e tt in
      inr (rw e tt, (x, ap (λ p. p.1) r), ap (λ p. p.0) r)
  set_file_wanted_cases d (negsuc n) w (some ws) a e =
      let (x, r) = set_file_wanted_refused d (negsuc n) w (some ws) e tt in
      inr (rw e tt, (x, ap (λ p. p.1) r), ap (λ p. p.0) r)
  set_file_wanted_cases d (pos i) w (some ws) a e = elim (dec_lt i (length ws)) [
    | yes h ↦
        let d' : Download R = record d { wanted = some (set ws i w) } in
        let (fs, hf, proj) = applied-wanted d ws e a in
        let (kept, pause) = apply_locked_kept d' in
        let fits : length (set ws i w) ≡ length fs =
          length-set ws i w ∙ Projected-length d.paused ws fs proj in
        inl (
          rw (set_file_wanted_ready d ws i w e h) (
            i,
            ws,
            refl,
            e,
            h,
            refl,
            kept,
            pause,
            apply_locked-IsApplied d' (set ws i w) fs refl hf fits,
          ))
    | no h ↦
        let (x, r) = set_file_wanted_refused d (pos i) w (some ws) e (omega arith) in
        inr (rw e (omega arith), (x, ap (λ p. p.1) r), ap (λ p. p.0) r)
  ]

  -- For a download whose priorities are those of its selection, SetFileWanted either changes the
  -- wish for exactly the file that is named, and the priorities with it, without an error; or the
  -- metadata is missing or no file has the index, and it returns an error and changes nothing.
  pub set_file_wanted_lem :
      (d : Download R) (index : ℤ) (w : Bool)
      → IsApplied d
      → WishChanged d index w (set_file_wanted index w d)
        ⊎ WishRefused d index (set_file_wanted index w d)
  set_file_wanted_lem d index w a = set_file_wanted_cases d index w d.wanted a refl

  -- SetAllWanted keeps the priorities those that the selection and the pause ask for.
  pub set_all_wanted-IsApplied :
      (w : Bool) (d : Download R) → IsApplied d → IsApplied (set_all_wanted w d)
  unfolding set_all_wanted
  set_all_wanted-IsApplied w d a = elim (Option-cases d.wanted) [
    | inl e ↦ rw e tt
    | inr (ws, e) ↦
        let (fs, hf, proj) = applied-wanted d ws e a in
        rw e (
          apply_locked-IsApplied (record d { wanted = some (replicate (length ws) w) })
            (replicate (length ws) w) fs refl hf
            (length-replicate (length ws) w ∙ Projected-length d.paused ws fs proj))
  ]

-- ===== src/Tui/Steady/Counts.antt =====
-- How many files the file view of internal/tui/app.go shows, through every choice of files.
use p2pget.Prelude.{
  ℕ, zero, suc, ◌<◌, List, [], ◌∷◌, Bool, leb, ◌≡◌, refl, ap, sym, ◌∙◌, arith, ℤ, pos, negsuc,
  Option, none, some, length, get_elem?, set, get_elem?-set_self, Bool-cases, Option-cases, inl,
  inr,
}
use p2pget.Download.{
  Download, File, files, file_infos, prioritise, apply_locked, set_file_wanted, set_all_wanted,
  selection,
}
use p2pget.Engine.{Engine, modify}
use p2pget.Engine.Valid.{some_inj}
use p2pget.Engine.Keeps.{lt_of_get_elem?}
use p2pget.Tui.Files.{file_list, files_at, set_wanted_at}

length-file_infos :
    (i : ℕ) (ws : List Bool) (fs : List File) → length (file_infos i ws fs) ≡ length fs
unfolding file_infos
length-file_infos i ws [] = refl
length-file_infos i [] (f ∷ fs) = ap suc (length-file_infos (suc i) [] fs)
length-file_infos i (w ∷ ws) (f ∷ fs) = ap suc (length-file_infos (suc i) ws fs)

length-prioritise :
    (p : Bool) (ws : List Bool) (fs : List File) → length (prioritise p ws fs) ≡ length fs
unfolding prioritise
length-prioritise p ws [] = refl
length-prioritise p [] (f ∷ fs) = ap suc (length-prioritise p [] fs)
length-prioritise p (w ∷ ws) (f ∷ fs) = ap suc (length-prioritise p ws fs)

pub within :
    {A : Type 0} (xs : List A) (i : ℕ) → i < length xs → (x : A) × (get_elem? xs i ≡ some x)
within [] i h = absurd (omega arith)
within (x ∷ xs) zero h = (x, refl)
within (x ∷ xs) (suc i) h = within xs i (omega arith)

abbrev count_of : Option (List File) → ℕ
count_of none = 0
count_of (some fs) = length fs

module _ {R : Type 0} where
  -- `Files` shows as many files as the torrent has.
  files-count : (d : Download R) → length (file_list (files d)) ≡ count_of d.t.files
  unfolding files
  files-count d = elim (Option-cases d.t.files) [
    | inl unknown ↦ rw (unknown, files) refl
    | inr (fs, known) ↦ rw (known, files) (length-file_infos 0 (selection d.wanted) fs)
  ]

  files_at-count :
      (e : Engine R) (id : ℕ) (d : Download R)
      → get_elem? e.heap id ≡ some d
      → length (files_at e id) ≡ count_of d.t.files
  unfolding files_at
  files_at-count e id d at = rw (at, files_at) (files-count d)

  apply_locked-count : (d : Download R) → count_of (apply_locked d).t.files ≡ count_of d.t.files
  unfolding apply_locked
  apply_locked-count d = elim (Option-cases d.wanted) [
    | inl unknown ↦ rw (unknown, apply_locked) refl
    | inr (ws, chosen) ↦ elim (Option-cases d.t.files) [
      | inl unknown ↦ rw (chosen, apply_locked) (rw (unknown, apply_locked) (rw (unknown) refl))
      | inr (fs, known) ↦
          rw (chosen, apply_locked) (rw (known, apply_locked) (length-prioritise d.paused ws fs))
    ]
  ]

  -- A change of a download that keeps how many files it has keeps how many are shown.
  pub modify-files_at :
      (e : Engine R) (id : ℕ) (f : Download R → Download R)
      → ((d : Download R)
          → get_elem? e.heap id ≡ some d
          → count_of (f d).t.files ≡ count_of d.t.files)
      → length (files_at (modify id f e) id) ≡ length (files_at e id)
  unfolding modify
  modify-files_at e id f same = elim (Option-cases (get_elem? e.heap id)) [
    | inl gone ↦ rw (gone, modify) refl
    | inr (d, at) ↦
        let there : get_elem? (set e.heap id (f d)) id ≡ some (f d) =
          get_elem?-set_self e.heap id (f d) (lt_of_get_elem? e.heap id at) in
        rw (at, modify)
          (files_at-count _ id (f d) there ∙ same d at ∙ sym (files_at-count e id d at))
  ]

  pub set_all_wanted-count :
      (w : Bool) (d : Download R) → count_of (set_all_wanted w d).t.files ≡ count_of d.t.files
  unfolding set_all_wanted
  set_all_wanted-count w d = elim (Option-cases d.wanted) [
    | inl unknown ↦ rw (unknown, set_all_wanted) refl
    | inr (ws, chosen) ↦ rw (chosen, set_all_wanted) (apply_locked-count _)
  ]

  set_file_wanted-count :
      (index : ℤ) (w : Bool) (d : Download R)
      → count_of (set_file_wanted index w d).0.t.files ≡ count_of d.t.files
  unfolding set_file_wanted
  set_file_wanted-count (negsuc n) w d = elim (Option-cases d.wanted) [
    | inl unknown ↦ rw (unknown, set_file_wanted) refl
    | inr (ws, chosen) ↦ rw (chosen, set_file_wanted) refl
  ]
  set_file_wanted-count (pos i) w d = elim (Option-cases d.wanted) [
    | inl unknown ↦ rw (unknown, set_file_wanted) refl
    | inr (ws, chosen) ↦ elim (Bool-cases (leb (length ws) i)) [
      | inl out ↦ rw (chosen, set_file_wanted) (rw (out, set_file_wanted) refl)
      | inr within ↦
          rw (chosen, set_file_wanted)
            (rw (within, set_file_wanted)
              (apply_locked-count (record d { wanted = some (set ws i w) })))
    ]
  ]

  pub set_wanted_at-files_at :
      (id index : ℕ) (w : Bool) (e : Engine R)
      → length (files_at (set_wanted_at id index w e).0 id) ≡ length (files_at e id)
  unfolding set_wanted_at
  set_wanted_at-files_at id index w e = elim (Option-cases (get_elem? e.heap id)) [
    | inl gone ↦ rw (gone, set_wanted_at) refl
    | inr (d, at) ↦
        rw (at, set_wanted_at)
          (modify-files_at e id (λ old. (set_file_wanted (pos index) w d).0)
            (λ d' at'.
              set_file_wanted-count (pos index) w d
              ∙ ap (λ x. count_of x.t.files) (some_inj (sym at ∙ at'))))
  ]

-- ===== src/Download/Totals.antt =====
-- The totals of `Status` in internal/engine/download.go against the list that `Files` gives.
use p2pget.Prelude.{
  ℕ, suc, ◌+◌, ◌≤◌, List, [], ◌∷◌, Bool, true, false, Option, none, some, ◌≡◌, refl, arith,
  if◌then◌else◌,
}
use p2pget.Download.{
  File, FileInfo, Download, file_infos, count_bytes, files, status_bytes, selection,
}

-- The bytes of the wanted files of a list, in all and done.
unfoldable pub wanted_bytes : List FileInfo → ℕ × ℕ
wanted_bytes [] = (0, 0)
wanted_bytes (i ∷ is) =
    let (total, done) = wanted_bytes is in
    if i.wanted then (i.size + total, i.completed + done) else (total, done)

count_bytes-file_infos :
    (n : ℕ) (ws : List Bool) (fs : List File)
    → count_bytes ws fs ≡ wanted_bytes (file_infos n ws fs)
unfolding count_bytes wanted_bytes file_infos
count_bytes-file_infos n [] [] = refl
count_bytes-file_infos n (w ∷ ws) [] = refl
count_bytes-file_infos n [] (f ∷ fs) = ground (arith, count_bytes-file_infos (suc n) [] fs)
count_bytes-file_infos n (true ∷ ws) (f ∷ fs) = ground (arith, count_bytes-file_infos (suc n) ws fs)
count_bytes-file_infos n (false ∷ ws) (f ∷ fs) =
    ground (arith, count_bytes-file_infos (suc n) ws fs)

abbrev pub listed : Option (List FileInfo) → List FileInfo
listed none = []
listed (some is) = is

-- No file has more bytes done than it has.
abbrev pub WithinSize : List File → Type 0
WithinSize [] = Unit
WithinSize (f ∷ fs) = (f.completed ≤ f.size) × WithinSize fs

count_bytes-le :
    (ws : List Bool) (fs : List File)
    → WithinSize fs
    → (count_bytes ws fs).1 ≤ (count_bytes ws fs).0
unfolding count_bytes
count_bytes-le [] [] h = omega arith
count_bytes-le (w ∷ ws) [] h = omega arith
count_bytes-le [] (f ∷ fs) h = omega (arith, count_bytes-le [] fs h.1)
count_bytes-le (true ∷ ws) (f ∷ fs) h = omega (arith, count_bytes-le ws fs h.1)
count_bytes-le (false ∷ ws) (f ∷ fs) h = omega (arith, count_bytes-le ws fs h.1)

module _ {R : Type 0} where
  -- `Status` counts exactly the files that `Files` marks as wanted; both are empty before the
  -- metadata.
  pub status_bytes-files : (d : Download R) → status_bytes d ≡ wanted_bytes (listed (files d))
  unfolding status_bytes files
  status_bytes-files d = go d.t.files
    where
      go :
          (o : Option (List File))
          → elim o [ none ↦ (0, 0) | some fs ↦ count_bytes (selection d.wanted) fs ]
            ≡ wanted_bytes (
                listed
                  (elim o [ none ↦ none | some fs ↦ some (file_infos 0 (selection d.wanted) fs) ]))
      go none = unfold wanted_bytes in refl
      go (some fs) = count_bytes-file_infos 0 (selection d.wanted) fs

  -- Once the metadata is there, Status counts no more bytes done than bytes in all, if no file has
  -- more bytes done than it has.
  pub status_bytes-le :
      (d : Download R) {fs : List File}
      → d.t.files ≡ some fs
      → WithinSize fs
      → (status_bytes d).1 ≤ (status_bytes d).0
  unfolding status_bytes
  status_bytes-le d {fs} e h = rw e (count_bytes-le (selection d.wanted) fs h)

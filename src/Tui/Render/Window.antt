-- ===== src/Tui/Render/Window.antt =====
-- The file view of internal/tui/app.go shows the file under the cursor, and an ETA its seconds.
use p2pget.Prelude.{
  ℕ, suc, ◌+◌, ◌-◌, ◌/◌, ◌<◌, ◌≤◌, List, [], ◌∷◌, Bool, true, false, ◌≡◌, refl, arith, ap, ℤ,
  pos_part, max, Option-cases, inl, inr,
}
use p2pget.Download.{Download, File, files, file_infos, count_bytes, status_bytes, selection}
use p2pget.Tui.Files.{file_list}
use p2pget.Tui.Render.{count_wanted, format_eta, told, InFields}

-- The rows that a terminal has for files: all but six, and at least three.
abbrev pub room : ℤ → ℕ
room height = max 3 (pos_part height - 6)

count_wanted-bytes :
    (i : ℕ) (ws : List Bool) (fs : List File)
    → (count_wanted (file_infos i ws fs)).1 ≡ (count_bytes ws fs).0
unfolding count_wanted file_infos count_bytes
count_wanted-bytes i ws [] = refl
count_wanted-bytes i [] (f ∷ fs) = ap (λ n. f.size + n) (count_wanted-bytes (suc i) [] fs)
count_wanted-bytes i (true ∷ ws) (f ∷ fs) = ap (λ n. f.size + n) (count_wanted-bytes (suc i) ws fs)
count_wanted-bytes i (false ∷ ws) (f ∷ fs) = count_wanted-bytes (suc i) ws fs

-- For a download with metadata, the bytes that the file view counts as wanted are the `TotalBytes`
-- of `Status`.
pub count_wanted-status_bytes :
    {R : Type 0} (d : Download R) → (count_wanted (file_list (files d))).1 ≡ (status_bytes d).0
unfolding files status_bytes count_wanted
count_wanted-status_bytes d = elim (Option-cases d.t.files) [
  | inl unknown ↦ rw (unknown, files) refl
  | inr (fs, known) ↦ rw (known, files) (count_wanted-bytes 0 (selection d.wanted) fs)
]

-- The parts of a formatted ETA are in their ranges, and tell the duration, rounded to the nearest
-- second, down to the second below an hour and down to the minute from there on.
pub format_eta_lem :
    (d : ℕ)
    → let secs = (d + 500000000) / 1000000000 in
      InFields (format_eta d) × (told (format_eta d) ≤ secs) × (secs < told (format_eta d) + 60)
unfolding format_eta
format_eta_lem d = ground arith

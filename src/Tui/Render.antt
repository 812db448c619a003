-- ===== src/Tui/Render.antt =====
-- What internal/tui/app.go shows of the file view and of an ETA, less styles and widths of text.
pub mod Window
pub mod Row
use p2pget.Prelude.{
  ℕ, zero, suc, ◌+◌, ◌-◌, ◌*◌, ◌/◌, ◌%◌, ◌^◌, ◌<◌, ◌≤◌, min, List, [], ◌∷◌, Bool, true, false, ltb,
  leb, ◌==◌, if◌then◌else◌, ◌≡◌, refl, arith, tests, ap, ap₂, ℤ, pos, ◌-ℤ◌, ltb_ℤ, pos_part, Text,
  length, byte_len, take, drop, Option, none, some, Bool-cases, inl, inr,
}
use p2pget.Download.{
  Download, File, FileInfo, files, file_infos, count_bytes, status_bytes, selection,
}
use p2pget.Tui.{FileView}

-- `selected, wantBytes`
unfoldable pub count_wanted : List FileInfo → ℕ × ℕ
count_wanted [] = (0, 0)
count_wanted (f ∷ fs) =
    let (selected, bytes) = count_wanted fs in
    if f.wanted then (suc selected, f.size + bytes) else (selected, bytes)

-- How many rows fit, of the terminal's height.
unfoldable pub view_height : ℤ → ℕ
view_height height = let rows = height -ℤ pos 6 in if ltb_ℤ rows (pos 3) then 3 else pos_part rows

-- `start` and `end`
unfoldable pub view_start : ℤ → FileView → ℕ
unfolding view_height
view_start height fv =
    if leb (view_height height) fv.cursor then suc (fv.cursor - view_height height) else 0

unfoldable pub view_end : ℤ → FileView → ℕ
unfolding view_start
view_end height fv =
    let end = view_start height fv + view_height height in
    if ltb (length fv.files) end then length fv.files else end

-- A line of a file: the mark of the cursor, the box and the file.
pub record Line : Type 0 where
  pub marked : Bool
  pub checked : Bool
  pub path : Text
  pub size : ℕ
  pub completed : ℕ

abbrev pub line : ℕ → ℕ → FileInfo → Line
line cursor i f = record {
  marked = i == cursor;
  checked = f.wanted;
  path = f.path;
  size = f.size;
  completed = f.completed;
}

-- The lines of `n` files from index `i` on.
unfoldable pub lines_from : ℕ → ℕ → ℕ → List FileInfo → List Line
lines_from cursor i zero fs = []
lines_from cursor i (suc n) [] = []
lines_from cursor i (suc n) (f ∷ fs) = line cursor i f ∷ lines_from cursor (suc i) n fs

-- `fileViewRender`: the lines, and the counts below them.
unfoldable pub file_view_render : ℤ → FileView → List Line × (ℕ × ℕ)
unfolding view_end lines_from count_wanted
file_view_render height fv =
    let start = view_start height fv in
    (
      lines_from fv.cursor start (view_end height fv - start) (drop start fv.files),
      count_wanted fv.files,
    )

pub data Eta : Type 0 where
  hours minutes : ℕ → ℕ → Eta
  seconds : ℕ → Eta

-- `formatETA` of a duration in nanoseconds, which is not negative.
unfoldable pub format_eta : ℕ → Eta
format_eta d =
    let secs = (d + 500000000) / 1000000000 in
    if leb 3600 secs
    then hours (secs / 3600) (secs % 3600 / 60)
    else if leb 60 secs
    then minutes (secs / 60) (secs % 60)
    else seconds secs

-- `shortHash` of hexadecimal digits.
unfoldable pub short_hash : Text → Text
short_hash h = if leb (byte_len h) 10 then h else take 10 h

-- The whole seconds that an ETA tells.
abbrev pub told : Eta → ℕ
told (hours h m) = h * 3600 + m * 60
told (minutes m s) = m * 60 + s
told (seconds s) = s

abbrev pub InFields : Eta → Type 0
InFields (hours h m) = (1 ≤ h) × (m < 60)
InFields (minutes m s) = (1 ≤ m) × (m < 60) × (s < 60)
InFields (seconds s) = s < 60

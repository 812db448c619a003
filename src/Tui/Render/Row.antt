-- ===== src/Tui/Render/Row.antt =====
-- A row of the list of downloads in internal/tui/app.go, less styles and widths of text.
use p2pget.Prelude.{
  ℕ, ◌+◌, ◌-◌, ◌*◌, ◌≤◌, [], ◌∷◌, ◌++◌, Bool, true, false, ltb, if◌then◌else◌, ℤ, pos, negsuc, ◌-ℤ◌,
  ltb_ℤ, pos_part, Option, none, some, ◌≡◌, refl, ◌∙◌, arith, Text, length, replicate, is_empty,
  max, length-append, length-replicate, Bool-cases, inl, inr,
}
use p2pget.Download.{Rates, Error}
use p2pget.Download.Status.{Status}
use p2pget.Download.Eta.{Floats, eta, progress, eta_lem}
use p2pget.Tui.Render.{Eta, format_eta, short_hash, told}
use p2pget.Tui.Render.Window.{format_eta_lem}

-- `█` and `░`
abbrev full_cell : ℕ
full_cell = 0x2588

abbrev empty_cell : ℕ
empty_cell = 0x2591

-- `renderBar` of a width and the cells that are full; `none` is the panic of a negative repetition.
unfoldable pub bar_of : ℕ → ℤ → Option Text
bar_of width (negsuc n) = none
bar_of width (pos n) =
    let filled = if ltb width n then width else n in
    some
      (b'[' ∷ (replicate filled full_cell ++ (replicate (width - filled) empty_cell ++ b']' ∷ [])))

-- `renderBar`; `cells` is `int(p * float64(width))`.
unfoldable pub render_bar : (ℕ → ℤ) → ℤ → Option Text
render_bar cells width =
    let w = if ltb_ℤ width (pos 4) then 4 else pos_part width in bar_of w (cells w)

-- The second line of a row.
pub data State : Type 0 where
  failed : Error → State
  progressing : Text → Bool → State
  fetching : State

-- The name of a row, and whether it is the short hash of a download that waits for its metadata.
unfoldable pub row_name : {R : Type 0} → Status R → Text × Bool
row_name s = if is_empty s.name then (short_hash s.info_hash, true) else (s.name, false)

module _ (rates : Rates) (floats : Floats rates.Rate) where
  open rates use {Rate}

  -- The `switch` of `Render`, for the width of the list; `none` is a panic.
  unfoldable pub row_state : (floats.Share → ℕ → ℤ) → ℤ → Status Rate → Option State
  row_state cells width s = elim s.err [
    | some x ↦ some (failed x)
    | none ↦
        if s.have_info
        then elim (render_bar (cells (progress rates floats s)) (width -ℤ pos 12)) [
          | none ↦ none
          | some bar ↦ some (progressing bar s.paused)
        ]
        else some fetching
  ]

  -- The ETA of a row, if it has one.
  unfoldable pub row_eta : Status Rate → Option Eta
  row_eta s = let left = eta rates floats s in if ltb 0 left then some (format_eta left) else none

clamped :
    (width : ℤ)
    → (if ltb_ℤ width (pos 4) then 4 else pos_part width) + 2 ≡ max 4 (pos_part width) + 2
clamped (pos n) = ground arith
clamped (negsuc n) = ground arith

-- The seconds that the ETA of a row tells, 0 if it has none.
abbrev pub told_seconds : Option Eta → ℕ
told_seconds none = 0
told_seconds (some shown) = told shown

-- The ETA of a row is 99 hours at most.
pub row_eta-le :
    (rates : Rates) (floats : Floats rates.Rate) (s : Status rates.Rate)
    → told_seconds (row_eta rates floats s) ≤ 99 * 3600
unfolding row_eta
row_eta-le rates floats s =
    let left : ℕ = eta rates floats s in
    elim (Bool-cases (ltb 0 left)) [
      | inl some_left ↦
          rw (some_left, told_seconds, row_eta)
            (omega (arith, (eta_lem rates floats s).0, (format_eta_lem left).1))
      | inr done ↦ rw (done, told_seconds, row_eta) (omega arith)
    ]

bar_of-length : (w n : ℕ) → (b : Text) × (bar_of w (pos n) ≡ some b) × (length b ≡ w + 2)
unfolding bar_of
bar_of-length w n =
    let filled = if ltb w n then w else n in
    let fits : filled ≤ w = ground arith in
    (
      _,
      refl,
      omega (
        arith,
        fits,
        length-append (replicate filled full_cell) (replicate (w - filled) empty_cell ++ b']' ∷ []),
        length-append (replicate (w - filled) empty_cell) (b']' ∷ []),
        length-replicate filled full_cell,
        length-replicate (w - filled) empty_cell,
      ),
    )

-- A bar has as many cells as its width says, and four at least, whatever share is done: cells that
-- are not negative do not make it panic.
pub render_bar-length :
    (cells : ℕ → ℤ) (width : ℤ)
    → ((w : ℕ) → (n : ℕ) × (cells w ≡ pos n))
    → (b : Text) × (render_bar cells width ≡ some b) × (length b ≡ max 4 (pos_part width) + 2)
unfolding render_bar
render_bar-length cells width natural =
    let w = if ltb_ℤ width (pos 4) then 4 else pos_part width in
    let (n, same) = natural w in
    let (b, shown, long) = bar_of-length w n in (b, rw same shown, long ∙ clamped width)

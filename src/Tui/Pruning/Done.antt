-- ===== src/Tui/Pruning/Done.antt =====
-- When internal/tui/app.go counts a download as done, in bytes.
use p2pget.Prelude.{
  ℕ, ◌<◌, ◌≤◌, List, true, false, ◌≡◌, ◌≢◌, refl, arith, Option, none, some, get_elem?, Bool-cases,
  Option-cases, inl, inr,
}
use p2pget.Download.{Download, Rates, Stats, status_bytes}
use p2pget.Download.Status.{status, is_completed}
use p2pget.Tui.{World, FileView}
use p2pget.Tui.Watch.{is_viewed}
use p2pget.Tui.Pruning.{is_finished}

-- A file view shows another download, or there is none.
abbrev pub NotViewed : Option FileView → ℕ → Type 0
NotViewed none id = Unit
NotViewed (some view) id = view.d ≢ id

-- A download that no file view shows, that wants some bytes and has all of them.
abbrev pub IsDone : {R : Type 0} → Option FileView → ℕ → Download R → Type 0
IsDone view id d =
    NotViewed view id × (0 < (status_bytes d).0) × ((status_bytes d).0 ≤ (status_bytes d).1)

NotViewed-is_viewed :
    (view : Option FileView) (id : ℕ)
    → (NotViewed view id → is_viewed view id ≡ false)
      × (is_viewed view id ≡ false → NotViewed view id)
NotViewed-is_viewed none id = ((λ h. refl), λ h. tt)
NotViewed-is_viewed (some view) id = ((λ ne. ground arith), λ e. ground arith)

-- Bytes are counted only when the metadata is there.
bytes-known :
    {R : Type 0} (stats : Stats) (d : Download R)
    → (0 < (status_bytes d).0
        → (status_bytes d).0 ≤ (status_bytes d).1
        → is_completed (status stats d) ≡ true)
      × (is_completed (status stats d) ≡ true
          → (0 < (status_bytes d).0) × ((status_bytes d).0 ≤ (status_bytes d).1))
unfolding is_completed status status_bytes
bytes-known stats d = elim (Option-cases d.t.files) [
  | inl unknown ↦ rw (unknown) ((λ some_byte all. absurd (omega arith)), λ h. absurd (ground arith))
  | inr (fs, known) ↦ rw (known) ((λ some_byte all. ground arith), λ h. ground arith)
]

pub IsDone-is_finished :
    (rates : Rates) (w : World) (view : Option FileView) (heap : List (Download rates.Rate))
    (id : ℕ) (d : Download rates.Rate)
    → get_elem? heap id ≡ some d
    → (IsDone view id d → is_finished rates w view heap id ≡ true)
      × (is_finished rates w view heap id ≡ true → IsDone view id d)
IsDone-is_finished rates w view heap id d at =
    let (unseen, seen) = NotViewed-is_viewed view id in
    let (full, bytes) = bytes-known (w.stats d.t.handle) d in
    rw (at, is_finished)
      (
        (λ (other, some_byte, all). rw (unseen other) (full some_byte all)),
        λ h. elim (Bool-cases (is_viewed view id)) [
          | inl shown ↦ absurd (ground arith)
          | inr hidden ↦
              let (some_byte, all) = bytes (rw (hidden) at h) in (seen hidden, some_byte, all)
        ],
      )

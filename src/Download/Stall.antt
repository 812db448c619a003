-- ===== src/Download/Stall.antt =====
-- The stall clock of internal/engine/download.go against the samples that it has seen.
use p2pget.Prelude.{
  ℕ, ◌-◌, ◌<◌, List, [], ◌∷◌, Bool, true, false, ◌&&◌, ◌==◌, Option, none, some, ◌≡◌, refl, arith,
  if◌then◌else◌, ℤ, ◌-ℤ◌, Bool-cases, inl, inr, lt→ltb, ◌∙◌,
}
use p2pget.Download.{Download, Stats, Rates, sample_rate, measure, watch_stall, note_sample}

-- A sample: its time and the counters.
abbrev pub Sample : Type 0
Sample = ℕ × Stats

module _ (rates : Rates) where
  open rates use {Rate, quotient, below_one}

  unfoldable pub sample_all : List Sample → Download Rate → Download Rate
  sample_all [] d = d
  sample_all ((now, s) ∷ ss) d = sample_all ss (sample_rate rates now s d)

  -- No bytes came in since the sample before, at `before` with `down` bytes, and no peer is active.
  abbrev pub is_stalled : ℕ → ℤ → Sample → Bool
  is_stalled before down (now, s) =
      below_one (quotient (s.bytes_read -ℤ down) (now - before)) && s.active_peers == 0

  -- All samples are stalled.
  abbrev pub all_stalled : ℕ → ℤ → List Sample → Bool
  all_stalled before down [] = true
  all_stalled before down ((now, s) ∷ ss) =
      is_stalled before down (now, s) && all_stalled now s.bytes_read ss

  -- Each sample is later than the one before.
  abbrev pub Increasing : ℕ → List Sample → Type 0
  Increasing before [] = Unit
  Increasing before ((now, s) ∷ ss) = (before < now) × Increasing now ss

  -- The time of the first sample from which on all are stalled.
  unfoldable pub stalled_from : ℕ → ℤ → List Sample → Option ℕ
  stalled_from before down [] = none
  stalled_from before down ((now, s) ∷ ss) =
      if all_stalled before down ((now, s) ∷ ss) then some now else stalled_from now s.bytes_read ss

  -- The clock after some samples, if it stood at `since` before them.
  abbrev clock : Option ℕ → ℕ → ℤ → List Sample → Option ℕ
  clock none before down ss = stalled_from before down ss
  clock (some since) before down ss =
      if all_stalled before down ss then some since else stalled_from before down ss

  clock_nil : (o : Option ℕ) (before : ℕ) (down : ℤ) → o ≡ clock o before down []
  unfolding stalled_from
  clock_nil none before down = refl
  clock_nil (some t) before down = refl

  -- What one sample does to the clock.
  abbrev tick : Bool → ℕ → Option ℕ → Option ℕ
  tick true now none = some now
  tick true now (some since) = some since
  tick false now since = none

  clock-step :
      (since : Option ℕ) (before : ℕ) (down : ℤ) (now : ℕ) (s : Stats) (ss : List Sample)
      → clock (tick (is_stalled before down (now, s)) now since) now s.bytes_read ss
        ≡ clock since before down ((now, s) ∷ ss)
  unfolding stalled_from
  clock-step none before down now s ss = elim (Bool-cases (is_stalled before down (now, s))) [
    | inl yes_it ↦ rw yes_it
    | inr not_it ↦ rw not_it
  ]
  clock-step (some t) before down now s ss = elim (Bool-cases (is_stalled before down (now, s))) [
    | inl yes_it ↦ ground arith
    | inr not_it ↦ ground arith
  ]

  watch_stall_lem :
      (now : ℕ) (s : Stats) (d : Download Rate)
      → let d' = watch_stall rates now s d in
        (d'.last_sample_at ≡ d.last_sample_at)
        × (d'.last_down ≡ d.last_down)
        × (d'.stall_since ≡ tick (below_one d.down_rate && s.active_peers == 0) now d.stall_since)
  unfolding watch_stall
  watch_stall_lem now s d = ground arith

  sample_rate_timed :
      (d : Download Rate) (before now : ℕ) (s : Stats)
      → d.last_sample_at ≡ some before
      → before < now
      → sample_rate rates now s d
        ≡ watch_stall rates now s (note_sample rates now s (measure rates (now - before) s d))
  unfolding sample_rate
  sample_rate_timed d before now s e h = simp (e, lt→ltb before now h)

  sample_rate_lem :
      (d : Download Rate) (before now : ℕ) (s : Stats)
      → d.last_sample_at ≡ some before
      → before < now
      → let d' = sample_rate rates now s d in
        (d'.last_sample_at ≡ some now)
        × (d'.last_down ≡ s.bytes_read)
        × (d'.stall_since ≡ tick (is_stalled before d.last_down (now, s)) now d.stall_since)
  unfolding measure
  sample_rate_lem d before now s e h =
      rw (sample_rate_timed d before now s e h)
        (watch_stall_lem now s (note_sample rates now s (measure rates (now - before) s d)))

  sample_all_lem :
      (d : Download Rate) (before : ℕ) (ss : List Sample)
      → d.last_sample_at ≡ some before
      → Increasing before ss
      → (sample_all ss d).stall_since ≡ clock d.stall_since before d.last_down ss
  unfolding sample_all
  sample_all_lem d before [] e h = clock_nil d.stall_since before d.last_down
  sample_all_lem d before ((now, s) ∷ ss) e h =
      let d' = sample_rate rates now s d in
      let (at, down, since) = sample_rate_lem d before now s e h.0 in
      sample_all_lem d' now ss at h.1
      ∙ rw (down, since) (clock-step d.stall_since before d.last_down now s ss)

  -- After samples at increasing times, the clock of a download that had been sampled and was not
  -- stalled shows the first sample from which on every sample is stalled, and none if the last one
  -- is not.
  pub sample_all-stall :
      (d : Download Rate) (before : ℕ) (ss : List Sample)
      → d.last_sample_at ≡ some before
      → d.stall_since ≡ none
      → Increasing before ss
      → (sample_all ss d).stall_since ≡ stalled_from before d.last_down ss
  sample_all-stall d before ss e fresh h = sample_all_lem d before ss e h ∙ rw fresh

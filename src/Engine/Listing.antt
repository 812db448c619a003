-- ===== src/Engine/Listing.antt =====
-- `List` and `SampleRates` of internal/engine/engine.go. The order of the map's iteration and of
-- `sort.Slice` among equal times is left to `by_key`, which sorts names by a number.
use p2pget.Prelude.{ℕ, List, [], ◌∷◌, none, some, get_elem?, Text}
use p2pget.Download.{Stats, Rates, sample_rate}
use p2pget.Engine.{Engine, modify}

abbrev pub values : List (Text × ℕ) → List ℕ
values [] = []
values ((h, id) ∷ m) = id ∷ values m

module _ {R : Type 0} where
  -- `out[i].added`
  unfoldable pub added_at : Engine R → ℕ → ℕ
  added_at e id = elim (get_elem? e.heap id) [ none ↦ 0 | some d ↦ d.added ]

  -- `List`
  unfoldable pub list : ((ℕ → ℕ) → List ℕ → List ℕ) → Engine R → List ℕ
  list by_key e = by_key (added_at e) (values e.downloads)

-- What the client counts for a download, by the handle of its torrent.
abbrev pub Counters : Type 0
Counters = ℕ → Stats

module _ (rates : Rates) where
  open rates use {Rate}

  unfoldable pub sample_all : ℕ → Counters → List ℕ → Engine Rate → Engine Rate
  sample_all now stats [] e = e
  sample_all now stats (id ∷ ids) e =
      sample_all now stats ids (modify id (λ d. sample_rate rates now (stats d.t.handle) d) e)

  -- `SampleRates`
  unfoldable pub sample_rates :
      ((ℕ → ℕ) → List ℕ → List ℕ) → ℕ → Counters → Engine Rate → Engine Rate
  sample_rates by_key now stats e = sample_all now stats (list by_key e) e

-- ===== src/Recent.antt =====
-- internal/dht/recent.go: the bounded set by which the crawler drops repeated info-hashes. The two
-- Go maps are lists of their members; the mutex makes each call one step.
pub mod Window
pub mod Growth
use p2pget.Prelude.{
  ℕ, zero, suc, List, [], ◌∷◌, Bool, true, false, leb, length, if◌then◌else◌, ℤ, pos, Text,
  text_discrete, contains, add,
}

-- `recentSet`
pub record RecentSet : Type 0 where
  pub active : List Text
  pub old : List Text
  pub cap : ℕ

-- `newRecentSet`
unfoldable pub new_recent_set : ℤ → RecentSet
new_recent_set (pos (suc n)) = record { active = []; old = []; cap = suc n }
new_recent_set _ = record { active = []; old = []; cap = 1024 }

-- `if len(r.active) >= r.cap { … }`: the active generation becomes the old one.
unfoldable pub rotate : RecentSet → RecentSet
rotate r = if leb r.cap (length r.active) then record r { old = r.active; active = [] } else r

-- `r.active[h] = struct{}{}`
unfoldable pub activate : Text → RecentSet → RecentSet
activate h r = record r { active = add text_discrete h r.active }

-- `seen`: the new state, and whether `h` was already present.
unfoldable pub seen : RecentSet → Text → RecentSet × Bool
unfolding rotate activate
seen r h =
    if contains text_discrete h r.active
    then (r, true)
    else if contains text_discrete h r.old
    then (activate h r, true)
    else (activate h (rotate r), false)

-- The states after a sequence of calls.
unfoldable pub seen_all : RecentSet → List Text → RecentSet
seen_all r [] = r
seen_all r (h ∷ hs) = seen_all (seen r h).0 hs

-- ===== src/Tests/Searches.antt =====
-- Two sources that give the same torrent, for internal/search/search.go.
use mathlib.Core.List.{Memᴰ, Permᴰ}
use p2pget.Prelude.{
  not, ◌&&◌, is_empty, none, ℕ, ◌*◌, ◌^◌, ◌≤◌, ◌<◌, List, [], ◌∷◌, ◌++◌, map, ◌≡◌, ◌↔◌, ◌||◌, some,
  pos, Text, codes, text_discrete, contains, refl, arith, get_elem?, Distinct,
}
use p2pget.Strings.{extend_head, split}
use p2pget.Search.{Result, key, dedup_and_rank, plus, filter_by_query, zero_time}
use p2pget.Search.Rank.{best, found_in, IsDescending, dedup_and_rank-keys, dedup_and_rank-merges}
use p2pget.Search.Filter.{InOrder, Matches, filter_by_query_lem}
use p2pget.Search.Human.{human_size, unit_letters}
use p2pget.Search.Human.Scale.{human_size_large}
use p2pget.Search.Collect.{Answer, aggregate}
use p2pget.Search.Collect.Arrivals.{aggregate-perm}
use p2pget.Search.Magnet.{default_trackers, magnet_trackers}
use p2pget.Search.Magnet.Trackers.{magnet_trackers_lem}
use p2pget.Tests.{ascii_only}
use p2pget.Tests.Sorts.{by_seeders, by_seeders-IsSort}

abbrev pub here : Result
here = record {
  title = codes "Ubuntu ISO";
  info_hash = codes "ABC";
  magnet = [];
  size = pos 0;
  seeders = pos 3;
  leechers = pos 1;
  source = codes "nyaa";
  date = zero_time;
}

abbrev there : Result
there = record here {
  info_hash = codes "abc";
  seeders = pos 9;
  size = pos 700;
  source = codes "piratebay";
}

abbrev both : List Result
both = here ∷ there ∷ []

dedup_and_rank-keys_example :
    (out : List Result) × (dedup_and_rank by_seeders both ≡ some out)
    × IsDescending out
    × Distinct text_discrete (map key out)
    × ((k : Text)
        → contains text_discrete k (map key out) ≡ contains text_discrete k (map key both))
dedup_and_rank-keys_example = dedup_and_rank-keys by_seeders by_seeders-IsSort both

dedup_and_rank-merges_example :
    (out : List Result) × (dedup_and_rank by_seeders both ≡ some out)
    × ((k : Text) → best k out ≡ best k both)
    × ((x k : Text) → found_in x k out ≡ found_in x k both)
dedup_and_rank-merges_example = dedup_and_rank-merges by_seeders by_seeders-IsSort both

ab-Distinct : Distinct text_discrete (split plus (codes "a+b"))
unfolding split extend_head contains text_discrete
ab-Distinct = (refl, (refl, tt))

filter_by_query_lem_example :
    InOrder (filter_by_query both (codes "iso")) both
    × ((r : Result)
        → Memᴰ r (filter_by_query both (codes "iso")) ↔ (Memᴰ r both × Matches (codes "iso") r))
filter_by_query_lem_example = filter_by_query_lem both (codes "iso")

abbrev no_digits : ℕ → ℕ → Text
no_digits n div = []

human_size_large_example :
    (e : ℕ) × (c : ℕ) × (human_size no_digits (pos 5000000)
      ≡ some (no_digits 5000000 (1024 * 1024 ^ e) ++ b' ' ∷ c ∷ b'B' ∷ []))
    × (get_elem? unit_letters e ≡ some c)
    × (1024 * 1024 ^ e ≤ 5000000)
    × (5000000 < 1024 * (1024 * 1024 ^ e))
human_size_large_example = human_size_large no_digits 5000000 (omega arith) (omega arith)

abbrev pub from_nyaa : Answer
from_nyaa = record { name = codes "nyaa"; results = here ∷ []; err = none }

abbrev pub from_piratebay : Answer
from_piratebay = record { name = codes "piratebay"; results = there ∷ []; err = none }

aggregate-perm_example :
    (rs : List Result) × (ss : List Result) × ((aggregate by_seeders
        (codes "iso")
        (from_nyaa ∷ from_piratebay ∷ [])).0
      ≡ some rs)
    × ((aggregate by_seeders (codes "iso") (from_piratebay ∷ from_nyaa ∷ [])).0 ≡ some ss)
    × ((k : Text) → best k rs ≡ best k ss)
    × ((x k : Text) → found_in x k rs ≡ found_in x k ss)
aggregate-perm_example =
    aggregate-perm by_seeders by_seeders-IsSort (codes "iso") (from_nyaa ∷ from_piratebay ∷ [])
      (from_piratebay ∷ from_nyaa ∷ []) (Permᴰ.swap refl refl)

magnet_trackers_lem_example :
    Distinct text_discrete (magnet_trackers (codes "http://nyaa.tracker.wf:7777/announce" ∷ []))
    × ((j : Text)
        → contains text_discrete j
            (magnet_trackers (codes "http://nyaa.tracker.wf:7777/announce" ∷ []))
          ≡ (not (is_empty j)
              && (contains text_discrete j default_trackers
                  || contains text_discrete j (codes "http://nyaa.tracker.wf:7777/announce" ∷ []))))
magnet_trackers_lem_example =
    magnet_trackers_lem (codes "http://nyaa.tracker.wf:7777/announce" ∷ [])

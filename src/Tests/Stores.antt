-- ===== src/Tests/Stores.antt =====
-- Some writes and a query for internal/store/store.go.
use p2pget.Prelude.{
  ◌+◌, ◌≡◌, Bool, Text, Distinct, contains, if◌then◌else◌, ltb_ℤ, leb, length, is_empty, lookup,
  text_discrete, refl, List, [], ◌∷◌, true, false, pos, codes,
}
use p2pget.Store.{Row, Record, pending_metadata, limited, search, sanitize_fts, quoted}
use p2pget.Store.Rows.{empty_store, write_all, Write, sees, saves}
use p2pget.Store.Answers.{known_of}
use p2pget.Store.Answers.Pending.{hashes, is_pending, pending_metadata_lem}
use p2pget.Store.Answers.Found.{hit, row_metadata, search_lem}
use p2pget.Search.Collect.Arrivals.{perm_refl}
use p2pget.Strings.{trim_space, fields, join}
use p2pget.Tests.{ascii_only}

abbrev ubuntu : Record
ubuntu = record { info_hash = codes "ABC"; name = codes "ubuntu"; size = pos 700; files = pos 1 }

abbrev writes : List Write
writes =
    sees (pos 5) (codes "abc")
    ∷ saves true (pos 7) ubuntu
    ∷ saves false (pos 8) ubuntu
    ∷ sees (pos 9) (codes "ABC")
    ∷ []

abbrev as_stored : List (Text × Row) → List (Text × Row)
as_stored rs = rs

pending_metadata_lem_example :
    (hs : List Text) × (pending_metadata as_stored (pos 64) (write_all empty_store writes)
      ≡ limited (pos 64) hs)
    × Distinct text_discrete hs
    × ((j : Text) → contains text_discrete j hs ≡ is_pending (known_of writes j))
pending_metadata_lem_example = pending_metadata_lem as_stored perm_refl writes (pos 64)

-- A name that the whole expression stands in, but for its quotes.
abbrev by_word : Text → Text → Bool
by_word expr name = leb (length name + 2) (length expr)

one_word : is_empty (sanitize_fts (codes "ubuntu")) ≡ false
unfolding sanitize_fts trim_space fields join quoted
one_word = refl

search_lem_example :
    (rows : List (Text × Row)) × (search by_word as_stored
        (codes "ubuntu")
        (pos 0)
        (write_all empty_store writes)
      ≡ limited (if ltb_ℤ (pos 0) (pos 0) then pos 0 else pos 100) rows)
    × Distinct text_discrete (hashes rows)
    × ((j : Text)
        → row_metadata (lookup text_discrete j rows)
          ≡ hit (by_word (sanitize_fts (codes "ubuntu"))) (known_of writes j))
search_lem_example = search_lem by_word as_stored perm_refl writes (codes "ubuntu") (pos 0) one_word

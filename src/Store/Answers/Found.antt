-- ===== src/Store/Answers/Found.antt =====
-- `Search` of internal/store/store.go against the calls that wrote the index.
use mathlib.Core.List.{Permᴰ}
use p2pget.Prelude.{
  List, [], ◌∷◌, Bool, false, Option, none, some, ◌≡◌, refl, sym, ap, arith, ◌∙◌, ℤ, pos, Text,
  text_discrete, lookup, keys, contains, Distinct, if◌then◌else◌, ltb_ℤ, is_empty,
  lookup-none_iff-contains,
}
use p2pget.Strings.{Unicode}
use p2pget.Store.{Store, Row, join_rows, search, limited, sanitize_fts}
use p2pget.Store.Rows.{IsValid, Write, write_all, write_all-IsValid, empty_store, indexed}
use p2pget.Store.Answers.{Metadata, of_row, reading, known_of, read_lem}
use p2pget.Store.Answers.Pending.{hashes, Distinct-perm}

lookup-perm :
    {A : Type 0} (j : Text) {ps qs : List (Text × A)}
    → Permᴰ ps qs
    → Distinct text_discrete (hashes qs)
    → lookup text_discrete j ps ≡ lookup text_discrete j qs
unfolding lookup contains
lookup-perm j Permᴰ.nil d = refl
lookup-perm {A} j (Permᴰ.cons {a = a} {b = b} e p) d =
    let same : a.0 ≡ b.0 = ap (λ (x : Text × A). x.0) e in
    let same' : a.1 ≡ b.1 = ap (λ (x : Text × A). x.1) e in ground (arith, lookup-perm j p d.1)
lookup-perm {A} j (Permᴰ.swap {a = a} {b = b} {a' = a'} {b' = b'} e f) d =
    let a0 : a.0 ≡ b'.0 = ap (λ (x : Text × A). x.0) e in
    let a1 : a.1 ≡ b'.1 = ap (λ (x : Text × A). x.1) e in
    let b0 : b.0 ≡ a'.0 = ap (λ (x : Text × A). x.0) f in
    let b1 : b.1 ≡ a'.1 = ap (λ (x : Text × A). x.1) f in ground arith
lookup-perm j (Permᴰ.trans p q) d = lookup-perm j p (Distinct-perm q d) ∙ lookup-perm j q d

-- What the join gives for a hash, by its row in the full-text table.
abbrev joined : (Text → Text → Bool) → Text → Option Row → Option Text → Option Row
joined matches expr row none = none
joined matches expr row (some name) = if matches expr name then row else none

module _ (matches : Text → Text → Bool) (expr : Text) (torrents : List (Text × Row)) where
  join_rows-lookup :
      (j : Text) (fts : List (Text × Text))
      → Distinct text_discrete (keys text_discrete fts)
      → lookup text_discrete j (join_rows matches expr torrents fts)
        ≡ joined matches expr (lookup text_discrete j torrents) (lookup text_discrete j fts)
  unfolding join_rows lookup
  join_rows-lookup j [] d = refl
  join_rows-lookup j ((h, name) ∷ fts) d = elim (text_discrete h j) [
    | yes p ↦
        let rest : lookup text_discrete j (join_rows matches expr torrents fts) ≡ none =
          join_rows-lookup j fts d.1
          ∙ ap (joined matches expr (lookup text_discrete j torrents)) (
              (lookup-none_iff-contains text_discrete j fts).1
                (ap (λ x. contains text_discrete x (keys text_discrete fts)) (sym p) ∙ d.0)) in
        let row : lookup text_discrete h torrents ≡ lookup text_discrete j torrents =
          ap (λ x. lookup text_discrete x torrents) p in
        ground arith
    | no p ↦ ground (arith, join_rows-lookup j fts d.1)
  ]

  join_rows-absent :
      (j : Text) (fts : List (Text × Text))
      → contains text_discrete j (keys text_discrete fts) ≡ false
      → contains text_discrete j (hashes (join_rows matches expr torrents fts)) ≡ false
  unfolding join_rows contains
  join_rows-absent j [] h = refl
  join_rows-absent j ((k, name) ∷ fts) h = ground (arith, join_rows-absent j fts)

  join_rows-Distinct :
      (fts : List (Text × Text))
      → Distinct text_discrete (keys text_discrete fts)
      → Distinct text_discrete (hashes (join_rows matches expr torrents fts))
  unfolding join_rows
  join_rows-Distinct [] d = tt
  join_rows-Distinct ((k, name) ∷ fts) d =
      ground (arith, join_rows-absent k fts d.0, join_rows-Distinct fts d.1)

abbrev pub row_metadata : Option Row → Option Metadata
row_metadata none = none
row_metadata (some r) = some (of_row r)

-- What a search is to find of a hash.
abbrev pub hit : (Text → Bool) → Option (Option Metadata) → Option Metadata
hit fits none = none
hit fits (some none) = none
hit fits (some (some m)) = if fits m.name then some m else none

joined-hit :
    (matches : Text → Text → Bool) (expr : Text) (row : Option Row)
    → row_metadata (joined matches expr row (indexed row)) ≡ hit (matches expr) (reading row)
joined-hit matches expr none = refl
joined-hit matches expr (some r) = ground arith

module _ ⦃u : Unicode⦄ (matches : Text → Text → Bool)
    (order : List (Text × Row) → List (Text × Row))
    (permutes : (rs : List (Text × Row)) → Permᴰ (order rs) rs) where
  -- After any calls on an empty index, for any matching of names and an order that only reorders
  -- rows, a search whose expression is not empty gives as many of a list as its limit says, or 100
  -- if the limit is not above 0: the list holds each hash once, and exactly the hashes whose
  -- metadata was saved under a name that matches, each with the metadata that was saved last.
  pub search_lem :
      (ws : List Write) (query : Text) (limit : ℤ)
      → is_empty (sanitize_fts query) ≡ false
      → (rows : List (Text × Row)) × (search matches order query limit (write_all empty_store ws)
          ≡ limited (if ltb_ℤ (pos 0) limit then limit else pos 100) rows)
        × Distinct text_discrete (hashes rows)
        × ((j : Text)
            → row_metadata (lookup text_discrete j rows)
              ≡ hit (matches (sanitize_fts query)) (known_of ws j))
  unfolding search
  search_lem ws query limit some_word =
      let s : Store = write_all empty_store ws in
      let v : IsValid s = write_all-IsValid ws in
      let expr : Text = sanitize_fts query in
      let rows : List (Text × Row) = join_rows matches expr s.torrents s.torrents_fts in
      let distinct : Distinct text_discrete (hashes rows) =
        join_rows-Distinct matches expr s.torrents s.torrents_fts v.fts_distinct in
      (
        order rows,
        rw (some_word, search) refl,
        Distinct-perm (permutes rows) distinct,
        λ j.
            ap row_metadata (
              lookup-perm j (permutes rows) distinct
              ∙ join_rows-lookup matches expr s.torrents j s.torrents_fts v.fts_distinct
              ∙ ap (joined matches expr (lookup text_discrete j s.torrents)) (v.synced j))
            ∙ joined-hit matches expr (lookup text_discrete j s.torrents)
            ∙ ap (hit (matches expr)) (read_lem ws j),
      )

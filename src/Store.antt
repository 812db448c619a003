-- ===== src/Store.antt =====
-- internal/store/store.go: the index of torrents that the crawler fills. The table `torrents` is a
-- map from its primary key to the other columns, the table `torrents_fts` the list of its rows;
-- each method is one step, since its statement or its transaction is. A time is a Unix second. The
-- full-text engine of SQLite and its order of rows are parameters.
pub mod Rows
pub mod Quotes
pub mod Resolved
pub mod Answers
use p2pget.Prelude.{
  ℕ, zero, suc, ◌+◌, List, [], ◌∷◌, ◌++◌, map, Bool, true, false, not, ◌==◌, if◌then◌else◌, ℤ, pos,
  negsuc, ltb_ℤ, Option, none, some, Text, codes, length, take, is_empty, text_discrete, lookup,
  put, delete,
}
use p2pget.Strings.{Unicode, to_lower, trim_space, fields, join}

-- `Record`, without the time.
pub record Record : Type 0 where
  pub info_hash : Text
  pub name : Text
  pub size : ℤ
  pub files : ℤ

-- The columns of `torrents` behind the key.
pub record Row : Type 0 where
  pub name : Text
  pub size : ℤ
  pub files : ℤ
  pub seen_at : ℤ
  pub resolved : Bool

-- `Store`
pub record Store : Type 0 where
  pub torrents : List (Text × Row)
  pub torrents_fts : List (Text × Text)

-- `INSERT INTO torrents(info_hash, seen_at)`: the defaults of the schema.
abbrev pub unresolved_row : ℤ → Row
unresolved_row now = record {
  name = [];
  size = pos 0;
  files = pos 0;
  seen_at = now;
  resolved = false;
}

abbrev pub max_time : ℤ → ℤ → ℤ
max_time a b = if ltb_ℤ a b then b else a

module _ ⦃u : Unicode⦄ where
  -- `SeenInfoHash`
  unfoldable pub seen_info_hash : ℤ → Text → Store → Store
  seen_info_hash now info_hash s =
      let h = to_lower info_hash in
      let row : Row = elim (lookup text_discrete h s.torrents) [
        | none ↦ unresolved_row now
        | some old ↦ record old { seen_at = now }
      ] in
      record s { torrents = put text_discrete h row s.torrents }

  -- The row that the upsert of `SaveMetadata` leaves.
  unfoldable pub resolved_row : ℤ → Record → Option Row → Row
  resolved_row now r old = record {
    name = r.name;
    size = r.size;
    files = r.files;
    seen_at = elim old [ none ↦ now | some o ↦ max_time o.seen_at now ];
    resolved = true;
  }

  -- `SaveMetadata`; a transaction that does not commit is rolled back.
  unfoldable pub save_metadata : Bool → ℤ → Record → Store → Store
  unfolding resolved_row
  save_metadata false now r s = s
  save_metadata true now r s =
      let h = to_lower r.info_hash in
      record {
        torrents =
            put text_discrete h (resolved_row now r (lookup text_discrete h s.torrents)) s.torrents;
        torrents_fts = (h, r.name) ∷ delete text_discrete h s.torrents_fts;
      }

-- `WHERE resolved = 0`
unfoldable pub pending_rows : List (Text × Row) → List (Text × Row)
pending_rows [] = []
pending_rows ((h, r) ∷ rs) =
    let rest = pending_rows rs in if r.resolved then rest else (h, r) ∷ rest

-- `LIMIT`, where a negative number is no limit.
abbrev pub limited {ℓ} : {A : Type ℓ} → ℤ → List A → List A
limited (pos n) xs = take n xs
limited (negsuc n) xs = xs

-- `PendingMetadata`; `order` stands for `ORDER BY seen_at DESC`.
unfoldable pub pending_metadata : (List (Text × Row) → List (Text × Row)) → ℤ → Store → List Text
unfolding pending_rows
pending_metadata order n s = map (λ p. p.0) (limited n (order (pending_rows s.torrents)))

-- `Stats`: the rows, and the resolved ones.
unfoldable pub count_resolved : List (Text × Row) → ℕ
count_resolved [] = 0
count_resolved ((h, r) ∷ rs) = let rest = count_resolved rs in if r.resolved then suc rest else rest

unfoldable pub stats : Store → ℕ × ℕ
unfolding count_resolved
stats s = (length s.torrents, count_resolved s.torrents)

abbrev pub quote : ℕ
quote = b'"'

-- `strings.ReplaceAll(t, "\"", "")`
unfoldable pub strip_quotes : Text → Text
strip_quotes [] = []
strip_quotes (c ∷ t) = let rest = strip_quotes t in if c == quote then rest else c ∷ rest

unfoldable pub quoted : Text → Text
unfolding strip_quotes
quoted t = quote ∷ strip_quotes t ++ quote ∷ []

-- `sanitizeFTS`
unfoldable pub sanitize_fts : Text → Text
sanitize_fts q =
    let trimmed = trim_space q in
    if is_empty trimmed then [] else join (b' ' ∷ []) (map quoted (fields trimmed))

-- The rows of `torrents_fts` that match an expression, joined with those of `torrents`.
unfoldable pub join_rows :
    (Text → Text → Bool) → Text → List (Text × Row) → List (Text × Text) → List (Text × Row)
join_rows matches expr torrents [] = []
join_rows matches expr torrents ((h, name) ∷ fts) =
    let rest = join_rows matches expr torrents fts in
    if matches expr name
    then elim (lookup text_discrete h torrents) [ none ↦ rest | some r ↦ (h, r) ∷ rest ]
    else rest

-- `Search`; `order` stands for `ORDER BY bm25(torrents_fts), t.seen_at DESC`.
unfoldable pub search :
    (Text → Text → Bool)
    → (List (Text × Row) → List (Text × Row))
    → Text
    → ℤ
    → Store
    → List (Text × Row)
unfolding join_rows
search matches order query limit s =
    let n = if ltb_ℤ (pos 0) limit then limit else pos 100 in
    let q = sanitize_fts query in
    if is_empty q then [] else limited n (order (join_rows matches q s.torrents s.torrents_fts))

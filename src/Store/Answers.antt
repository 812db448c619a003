-- ===== src/Store/Answers.antt =====
-- What the index of internal/store/store.go is to hold: for each hash that was written, the metadata
-- that was saved last, if any was.
pub mod Pending
pub mod Found
use p2pget.Prelude.{
  List, [], ◌∷◌, Bool, true, false, if◌then◌else◌, Option, none, some, ◌≡◌, refl, sym, ap, arith,
  ◌∙◌, ℤ, Text, text_discrete, ite, lookup, put, lookup-put, if_pos, if_neg,
}
use p2pget.Strings.{Unicode, to_lower}
use p2pget.Store.{Store, Row, Record, seen_info_hash, save_metadata, resolved_row}
use p2pget.Store.Rows.{Write, sees, saves, write_all, touched, seen_info_hash_lem, empty_store}

pub record Metadata : Type 0 where
  pub name : Text
  pub size : ℤ
  pub files : ℤ

-- `none` for a hash that was never written, `some none` for one without metadata.
abbrev pub Index : Type 0
Index = Text → Option (Option Metadata)

abbrev pub metadata_of : Record → Metadata
metadata_of r = record { name = r.name; size = r.size; files = r.files }

abbrev pub known : Option (Option Metadata) → Option Metadata
known none = none
known (some m) = m

abbrev pub of_row : Row → Metadata
of_row r = record { name = r.name; size = r.size; files = r.files }

-- What a row of `torrents` says.
abbrev pub reading : Option Row → Option (Option Metadata)
reading none = none
reading (some r) = some (if r.resolved then some (of_row r) else none)

abbrev pub read : Store → Index
read s j = reading (lookup text_discrete j s.torrents)

module _ ⦃u : Unicode⦄ where
  abbrev pub write_one : Index → Write → Index
  write_one x (sees now h) j = ite (text_discrete (to_lower h) j) (some (known (x j))) (x j)
  write_one x (saves true now r) j =
      ite (text_discrete (to_lower r.info_hash) j) (some (some (metadata_of r))) (x j)
  write_one x (saves false now r) j = x j

  -- The index after some calls.
  unfoldable pub index_of : Index → List Write → Index
  index_of x [] = x
  index_of x (w ∷ ws) = index_of (write_one x w) ws

  put-reading :
      (k j : Text) (row : Row) (m : List (Text × Row))
      → reading (lookup text_discrete j (put text_discrete k row m))
        ≡ ite (text_discrete k j) (reading (some row)) (reading (lookup text_discrete j m))
  put-reading k j row m = elim (text_discrete k j) [
    | yes p ↦
        ap reading (lookup-put text_discrete k j row m ∙ if_pos (text_discrete k j) p _ _)
        ∙ sym (if_pos (text_discrete k j) p _ _)
    | no p ↦
        ap reading (lookup-put text_discrete k j row m ∙ if_neg (text_discrete k j) p _ _)
        ∙ sym (if_neg (text_discrete k j) p _ _)
  ]

  touched-reading :
      (now : ℤ) (o : Option Row) → reading (some (touched now o)) ≡ some (known (reading o))
  touched-reading now none = refl
  touched-reading now (some r) = refl

  pub seen_info_hash-read :
      (now : ℤ) (h j : Text) (s : Store)
      → read (seen_info_hash now h s) j ≡ write_one (read s) (sees now h) j
  seen_info_hash-read now h j s =
      let k = to_lower h in
      let old = lookup text_discrete k s.torrents in
      ap (λ (t : Store). read t j) (seen_info_hash_lem now h s)
      ∙ put-reading k j (touched now old) s.torrents
      ∙ elim (text_discrete k j) [
        | yes p ↦
            if_pos (text_discrete k j) p _ _
            ∙ touched-reading now old
            ∙ ap (λ x. some (known (read s x))) p
            ∙ sym (if_pos (text_discrete k j) p _ _)
        | no p ↦ if_neg (text_discrete k j) p _ _ ∙ sym (if_neg (text_discrete k j) p _ _)
      ]

  pub save_metadata-read :
      (committed : Bool) (now : ℤ) (r : Record) (j : Text) (s : Store)
      → read (save_metadata committed now r s) j ≡ write_one (read s) (saves committed now r) j
  unfolding save_metadata resolved_row
  save_metadata-read false now r j s = refl
  save_metadata-read true now r j s =
      let k = to_lower r.info_hash in
      put-reading k j (resolved_row now r (lookup text_discrete k s.torrents)) s.torrents

  index_of-ext :
      (ws : List Write) (x y : Index)
      → ((j : Text) → x j ≡ y j)
      → (j : Text) → index_of x ws j ≡ index_of y ws j
  unfolding index_of
  index_of-ext [] x y e j = e j
  index_of-ext (w ∷ ws) x y e j = index_of-ext ws (write_one x w) (write_one y w) (step w) j
    where
      step : (w : Write) (k : Text) → write_one x w k ≡ write_one y w k
      step (sees now h) k = ap (λ o. ite (text_discrete (to_lower h) k) (some (known o)) o) (e k)
      step (saves true now r) k =
          ap (λ o. ite (text_discrete (to_lower r.info_hash) k) (some (some (metadata_of r))) o)
            (e k)
      step (saves false now r) k = e k

  write_all-read :
      (ws : List Write) (s : Store) (j : Text) → read (write_all s ws) j ≡ index_of (read s) ws j
  unfolding write_all index_of
  write_all-read [] s j = refl
  write_all-read (sees now h ∷ ws) s j =
      write_all-read ws (seen_info_hash now h s) j
      ∙ index_of-ext ws (read (seen_info_hash now h s)) (write_one (read s) (sees now h))
          (λ k. seen_info_hash-read now h k s) j
  write_all-read (saves committed now r ∷ ws) s j =
      write_all-read ws (save_metadata committed now r s) j
      ∙ index_of-ext ws (read (save_metadata committed now r s))
          (write_one (read s) (saves committed now r)) (λ k. save_metadata-read committed now r k s)
          j

  -- What is known of a hash after some calls on an empty index.
  abbrev pub known_of : List Write → Index
  known_of ws = index_of (λ h. none) ws

  pub read_lem : (ws : List Write) (j : Text) → read (write_all empty_store ws) j ≡ known_of ws j
  read_lem ws j =
      write_all-read ws empty_store j
      ∙ index_of-ext ws (read empty_store) (λ h. none) (λ h. unfold lookup in refl) j

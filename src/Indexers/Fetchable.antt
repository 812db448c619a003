-- ===== src/Indexers/Fetchable.antt =====
-- Results of internal/search that have a magnet or an info-hash, such as all that jackett gives.
use p2pget.Prelude.{
  List, [], ◌∷◌, true, false, ◌&&◌, ◌≡◌, ◌≢◌, ◌⊎◌, inl, inr, refl, arith, Text, is_empty, byte_len,
  Bool-cases,
}
use p2pget.Strings.{Unicode, has_prefix}
use p2pget.Search.{Result}
use p2pget.Search.Magnet.{magnet_from_info_hash}
use p2pget.Indexers.{Parsers}
use p2pget.Indexers.Torznab.{
  TorznabItem, TorznabAttr, is_magnet, add_attr, add_attrs, take_link, complete_hash,
  complete_magnet, torznab_result, torznab_start, with_date, jackett_results,
}

-- A result with a magnet that is one, or with an info-hash and no magnet.
abbrev pub IsFetchable : Result → Type 0
IsFetchable r =
    (is_magnet r.magnet ≡ true) ⊎ ((is_empty r.magnet ≡ true) × (is_empty r.info_hash ≡ false))

-- A magnet that is one, or no magnet and an info-hash that has not forty bytes.
abbrev pub HasLink : Result → Type 0
HasLink r =
    (is_magnet r.magnet ≡ true)
    ⊎ ((is_empty r.magnet ≡ true) × (is_empty r.info_hash ≡ false) × (byte_len r.info_hash ≢ 40))

abbrev pub AllHaveLinks : List Result → Type 0
AllHaveLinks [] = Unit
AllHaveLinks (r ∷ rs) = HasLink r × AllHaveLinks rs

module _ ⦃u : Unicode⦄ (encode : List (Text × Text) → Text) (parsers : Parsers) where
  magnet-is_magnet :
      (hash name : Text) (extra : List Text)
      → is_magnet (magnet_from_info_hash encode hash name extra) ≡ true
  unfolding magnet_from_info_hash has_prefix
  magnet-is_magnet hash name extra = refl

  -- A magnet that is there is one.
  abbrev HasMagnet : Result → Type 0
  HasMagnet r = (is_empty r.magnet ≡ true) ⊎ (is_magnet r.magnet ≡ true)

  add_attr-HasMagnet :
      (r : Result) (a : TorznabAttr) → HasMagnet r → HasMagnet (add_attr encode parsers r a)
  unfolding add_attr
  add_attr-HasMagnet r a h = ground arith

  add_attrs-HasMagnet :
      (r : Result) (attrs : List TorznabAttr)
      → HasMagnet r
      → HasMagnet (add_attrs encode parsers r attrs)
  unfolding add_attrs
  add_attrs-HasMagnet r [] h = h
  add_attrs-HasMagnet r (a ∷ more) h =
      add_attrs-HasMagnet (add_attr encode parsers r a) more (add_attr-HasMagnet r a h)

  take_link-HasMagnet :
      (it : TorznabItem) (r : Result) → HasMagnet r → HasMagnet (take_link encode parsers it r)
  unfolding take_link
  take_link-HasMagnet it r h = ground arith

  complete_hash-HasMagnet : (r : Result) → HasMagnet r → HasMagnet (complete_hash encode parsers r)
  unfolding complete_hash
  complete_hash-HasMagnet r h = ground arith

  complete_magnet-HasMagnet :
      (r : Result) → HasMagnet r → HasMagnet (complete_magnet encode parsers r)
  unfolding complete_magnet
  complete_magnet-HasMagnet r h = ground (arith, magnet-is_magnet r.info_hash r.title [])

  torznab_result-HasMagnet : (it : TorznabItem) → HasMagnet (torznab_result encode parsers it)
  unfolding torznab_result
  torznab_result-HasMagnet it =
      let start = torznab_start encode parsers it in
      let noted = add_attrs encode parsers start it.attrs in
      let linked = take_link encode parsers it noted in
      complete_magnet-HasMagnet (complete_hash encode parsers linked) (
        complete_hash-HasMagnet linked
          (take_link-HasMagnet it noted (add_attrs-HasMagnet start it.attrs (inl refl))))

  complete_magnet-short :
      (r : Result)
      → is_empty (complete_magnet encode parsers r).magnet ≡ true
      → byte_len (complete_magnet encode parsers r).info_hash ≢ 40
  unfolding complete_magnet magnet_from_info_hash
  complete_magnet-short r h = ground arith

  torznab_result-short :
      (it : TorznabItem)
      → is_empty (torznab_result encode parsers it).magnet ≡ true
      → byte_len (torznab_result encode parsers it).info_hash ≢ 40
  unfolding torznab_result
  torznab_result-short it h = complete_magnet-short _ h

  with_date-HasLink :
      (text : Text) (r : Result) → HasLink r → HasLink (with_date encode parsers text r)
  unfolding with_date
  with_date-HasLink text r h = ground arith

  linked :
      (r : Result)
      → HasMagnet r
      → (is_empty r.magnet ≡ true → byte_len r.info_hash ≢ 40)
      → (is_empty r.magnet && is_empty r.info_hash) ≡ false
      → HasLink r
  linked r (inl none_there) short keep = inr (none_there, ground arith, short none_there)
  linked r (inr good) short keep = inl good

  pub jackett-AllHaveLinks :
      (its : List TorznabItem) → AllHaveLinks (jackett_results encode parsers its)
  unfolding jackett_results
  jackett-AllHaveLinks [] = tt
  jackett-AllHaveLinks (it ∷ its) =
      let r = torznab_result encode parsers it in
      elim (Bool-cases (is_empty r.magnet && is_empty r.info_hash)) [
        | inl skip ↦ rw (skip, AllHaveLinks) (jackett-AllHaveLinks its)
        | inr keep ↦
            rw (keep, AllHaveLinks)
              (
                with_date-HasLink it.pub_date r
                    (linked r (torznab_result-HasMagnet it) (torznab_result-short it) keep),
                jackett-AllHaveLinks its,
              )
      ]

-- ===== src/Indexers/Torznab.antt =====
-- The items of internal/search/jackett.go, and what becomes of them.
use p2pget.Prelude.{
  List, [], ◌∷◌, Bool, ◌&&◌, ◌||◌, not, if◌then◌else◌, ◌==◌, ℤ, pos, Option, none, some, Text,
  codes, is_empty, byte_len,
}
use p2pget.Strings.{Unicode, to_lower, trim_space, trim_right, has_prefix}
use p2pget.Search.{Result, zero_time, int_eq}
use p2pget.Search.Magnet.{magnet_from_info_hash}
use p2pget.Indexers.{Parsers, Reply, Fetched, fetch, text_eq}
use p2pget.Indexers.Links.{info_hash_from_link}

-- `torznabAttr`
pub record TorznabAttr : Type 0 where
  pub name : Text
  pub value : Text

-- `torznabItem`, with the URL of its enclosure.
pub record TorznabItem : Type 0 where
  pub title : Text
  pub link : Text
  pub pub_date : Text
  pub size : ℤ
  pub enclosure : Text
  pub attrs : List TorznabAttr

-- `strings.HasPrefix(s, "magnet:")`
abbrev pub is_magnet : Text → Bool
is_magnet s = has_prefix s (codes "magnet:")

-- The endpoint of `NewJackett`.
unfoldable pub jackett_endpoint : Text → Text
jackett_endpoint endpoint =
    trim_right (λ c. c == b'/')
      (if is_empty endpoint then codes "http://localhost:9117" else endpoint)

module _ ⦃u : Unicode⦄ (encode : List (Text × Text) → Text) (parsers : Parsers) where
  open parsers use {atoi, parse_int, rfc1123z}

  -- The `switch` on the name of an attribute.
  unfoldable pub add_attr : Result → TorznabAttr → Result
  add_attr r a =
      let name = to_lower a.name in
      if text_eq name (codes "seeders")
      then record r { seeders = atoi a.value }
      else if text_eq name (codes "peers") || text_eq name (codes "leechers")
      then record r { leechers = atoi a.value }
      else if text_eq name (codes "infohash")
      then record r { info_hash = to_lower (trim_space a.value) }
      else if text_eq name (codes "magneturl")
      then if is_magnet a.value then record r { magnet = a.value } else r
      else if text_eq name (codes "size") && int_eq r.size (pos 0)
      then record r { size = parse_int a.value }
      else r

  unfoldable pub add_attrs : Result → List TorznabAttr → Result
  unfolding add_attr
  add_attrs r [] = r
  add_attrs r (a ∷ more) = add_attrs (add_attr r a) more

  -- `for _, cand := range []string{it.Enclosure.URL, it.Link}`
  unfoldable pub take_link : TorznabItem → Result → Result
  take_link it r =
      if is_empty r.magnet
      then if is_magnet it.enclosure
        then record r { magnet = it.enclosure }
        else if is_magnet it.link
        then record r { magnet = it.link }
        else r
      else r

  -- The info-hash from the magnet, and the magnet from the info-hash.
  unfoldable pub complete_hash : Result → Result
  complete_hash r =
      if is_empty r.info_hash && not (is_empty r.magnet)
      then record r { info_hash = info_hash_from_link r.magnet }
      else r

  unfoldable pub complete_magnet : Result → Result
  complete_magnet r =
      if is_empty r.magnet && byte_len r.info_hash == 40
      then record r { magnet = magnet_from_info_hash encode r.info_hash r.title [] }
      else r

  -- `r` before its attributes.
  abbrev pub torznab_start : TorznabItem → Result
  torznab_start it = record {
    title = it.title;
    info_hash = [];
    magnet = [];
    size = it.size;
    seeders = pos 0;
    leechers = pos 0;
    source = codes "jackett";
    date = zero_time;
  }

  unfoldable pub torznab_result : TorznabItem → Result
  unfolding add_attrs take_link complete_hash complete_magnet
  torznab_result it =
      complete_magnet (complete_hash (take_link it (add_attrs (torznab_start it) it.attrs)))

  -- `if t, err := time.Parse(…); err == nil { r.Date = t }`
  unfoldable pub with_date : Text → Result → Result
  with_date text r = elim (rfc1123z text) [ none ↦ r | some t ↦ record r { date = t } ]

  -- The loop of `Jackett.Search`.
  unfoldable pub jackett_results : List TorznabItem → List Result
  unfolding with_date
  jackett_results [] = []
  jackett_results (it ∷ its) =
      let rest = jackett_results its in
      let r = torznab_result it in
      if is_empty r.magnet && is_empty r.info_hash then rest else with_date it.pub_date r ∷ rest

  unfoldable pub jackett_search : (Text → Option (List TorznabItem)) → Reply → Fetched
  jackett_search decode = fetch decode jackett_results

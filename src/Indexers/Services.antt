-- ===== src/Indexers/Services.antt =====
-- The items of piratebay.go, torrentscsv.go and nyaa.go of internal/search, and what becomes of
-- them. `encode` is `url.Values.Encode`, as in `MagnetFromInfoHash`.
use p2pget.Prelude.{
  List, [], ◌∷◌, Bool, ◌||◌, if◌then◌else◌, ◌==◌, ℤ, Option, none, some, Text, codes, replicate,
  is_empty, byte_len,
}
use p2pget.Strings.{Unicode, to_lower, trim_space}
use p2pget.Search.{Result, zero_time, int_eq}
use p2pget.Search.Magnet.{magnet_from_info_hash}
use p2pget.Indexers.{Parsers, Reply, Fetched, fetch, text_eq}
use p2pget.Indexers.Links.{info_hash_from_link}
use p2pget.Indexers.Sizes.{parse_human_size}

-- `pirateBayItem`, the fields that are read.
pub record PirateBayItem : Type 0 where
  pub id : Text
  pub name : Text
  pub info_hash : Text
  pub leechers : Text
  pub seeders : Text
  pub size : Text
  pub added : Text

-- `torrentsCSVItem`
pub record TorrentsCsvItem : Type 0 where
  pub info_hash : Text
  pub name : Text
  pub size_bytes : ℤ
  pub seeders : ℤ
  pub leechers : ℤ
  pub created_unix : ℤ

-- `nyaaItem`, the fields that are read.
pub record NyaaItem : Type 0 where
  pub title : Text
  pub link : Text
  pub pub_date : Text
  pub seeders : Text
  pub leechers : Text
  pub size : Text
  pub info_hash : Text

-- `it.ID == "0" || it.InfoHash == "" || it.InfoHash == "000…"`
unfoldable pub is_sentinel : PirateBayItem → Bool
is_sentinel it =
    text_eq it.id (codes "0") || is_empty it.info_hash || text_eq it.info_hash (replicate 40 b'0')

abbrev pub or_zero : Option ℤ → ℤ
or_zero none = zero_time
or_zero (some t) = t

module _ ⦃u : Unicode⦄ (encode : List (Text × Text) → Text) (parsers : Parsers) where
  open parsers use {atoi, parse_int, rfc1123z, rfc1123}

  abbrev pirate_bay_result : PirateBayItem → Result
  pirate_bay_result it = record {
    title = it.name;
    info_hash = it.info_hash;
    magnet = magnet_from_info_hash encode it.info_hash it.name [];
    size = parse_int it.size;
    seeders = atoi it.seeders;
    leechers = atoi it.leechers;
    source = codes "piratebay";
    date = parse_int it.added;
  }

  -- The loop of `PirateBay.Search`.
  unfoldable pub pirate_bay_results : List PirateBayItem → List Result
  unfolding is_sentinel
  pirate_bay_results [] = []
  pirate_bay_results (it ∷ its) =
      let rest = pirate_bay_results its in
      if is_sentinel it then rest else pirate_bay_result it ∷ rest

  abbrev torrents_csv_result : Text → TorrentsCsvItem → Result
  torrents_csv_result hash it = record {
    title = it.name;
    info_hash = hash;
    magnet = magnet_from_info_hash encode hash it.name [];
    size = it.size_bytes;
    seeders = it.seeders;
    leechers = it.leechers;
    source = codes "torrents-csv";
    date = it.created_unix;
  }

  -- The loop of `TorrentsCSV.Search`.
  unfoldable pub torrents_csv_results : List TorrentsCsvItem → List Result
  torrents_csv_results [] = []
  torrents_csv_results (it ∷ its) =
      let rest = torrents_csv_results its in
      let hash = to_lower (trim_space it.info_hash) in
      if byte_len hash == 40 then torrents_csv_result hash it ∷ rest else rest

  -- `hash` in `Nyaa.Search`.
  unfoldable pub nyaa_hash : NyaaItem → Text
  nyaa_hash it =
      let hash = to_lower (trim_space it.info_hash) in
      if is_empty hash then info_hash_from_link it.link else hash

  -- `pubDate`: the other layout if the first gives the zero time.
  unfoldable pub nyaa_date : Text → ℤ
  nyaa_date text =
      let date = or_zero (rfc1123z text) in
      if int_eq date zero_time then or_zero (rfc1123 text) else date

  abbrev nyaa_result : Text → NyaaItem → Result
  nyaa_result hash it = record {
    title = it.title;
    info_hash = hash;
    magnet =
        magnet_from_info_hash encode hash it.title
          (codes "http://nyaa.tracker.wf:7777/announce" ∷ []);
    size = parse_human_size parsers it.size;
    seeders = atoi it.seeders;
    leechers = atoi it.leechers;
    source = codes "nyaa";
    date = nyaa_date it.pub_date;
  }

  -- The loop of `Nyaa.Search`.
  unfoldable pub nyaa_results : List NyaaItem → List Result
  nyaa_results [] = []
  nyaa_results (it ∷ its) =
      let rest = nyaa_results its in
      let hash = nyaa_hash it in if is_empty hash then rest else nyaa_result hash it ∷ rest

  -- The three `Search` methods on the reply to their request.
  unfoldable pub pirate_bay_search : (Text → Option (List PirateBayItem)) → Reply → Fetched
  pirate_bay_search decode = fetch decode pirate_bay_results

  unfoldable pub torrents_csv_search : (Text → Option (List TorrentsCsvItem)) → Reply → Fetched
  torrents_csv_search decode = fetch decode torrents_csv_results

  unfoldable pub nyaa_search : (Text → Option (List NyaaItem)) → Reply → Fetched
  nyaa_search decode = fetch decode nyaa_results

-- ===== src/Indexers/Picked.antt =====
-- What piratebay.go, torrentscsv.go, nyaa.go and jackett.go of internal/search make of their items.
use p2pget.Prelude.{
  List, [], ◌∷◌, true, false, ◌==◌, ◌≡◌, ◌≢◌, ◌⊎◌, inl, inr, refl, arith, Option, none, some, take,
  Option-cases, Text, codes, replicate, is_empty, byte_len, Bool-cases, text_discrete,
}
use p2pget.Strings.{Unicode, to_lower, trim_space}
use p2pget.Search.{Result}
use p2pget.Search.Magnet.{magnet_from_info_hash}
use p2pget.Indexers.{
  Parsers, Reply, Fetched, ok, failed, reply, no_reply, request_failed, bad_body, bad_status, fetch,
}
use p2pget.Indexers.Links.{info_hash_from_link}
use p2pget.Indexers.Services.{
  PirateBayItem, TorrentsCsvItem, NyaaItem, is_sentinel, pirate_bay_results, torrents_csv_results,
  nyaa_results, nyaa_hash, pirate_bay_search, torrents_csv_search, nyaa_search,
}
use p2pget.Indexers.Torznab.{TorznabItem, jackett_results, jackett_search}
use p2pget.Indexers.Fetchable.{AllHaveLinks, jackett-AllHaveLinks}

-- Some of the items, in their order, each with its result: those that are good, and no others.
pub data Picks {A : Type 0} (Good : A → Type 0) (Made : A → Result → Type 0)
    : List A → List Result → Type 0 where
  nil : Picks Good Made [] []
  picked :
      {a : A} {r : Result} {more : List A} {rs : List Result}
      → Good a
      → Made a r
      → Picks Good Made more rs
      → Picks Good Made (a ∷ more) (r ∷ rs)
  leave :
      {a : A} {more : List A} {rs : List Result}
      → ¬ Good a
      → Picks Good Made more rs
      → Picks Good Made (a ∷ more) rs

is_empty→ : (s : Text) → is_empty s ≡ true → s ≡ []
is_empty→ [] h = refl
is_empty→ (c ∷ s) h = absurd (ground arith)

→is_empty : (s : Text) → s ≡ [] → is_empty s ≡ true
→is_empty [] h = refl
→is_empty (c ∷ s) h = absurd (ground arith)

-- An item of piratebay that stands for a torrent.
abbrev pub IsTorrent : PirateBayItem → Type 0
IsTorrent it = (it.id ≢ codes "0") × (it.info_hash ≢ []) × (it.info_hash ≢ replicate 40 b'0')

is_sentinel-IsTorrent :
    (it : PirateBayItem)
    → (is_sentinel it ≡ true → ¬ IsTorrent it) × (is_sentinel it ≡ false → IsTorrent it)
unfolding is_sentinel
is_sentinel-IsTorrent it = elim (text_discrete it.id (codes "0")) [
  | yes p ↦ ((λ h t. t.0 p), λ h. absurd (ground arith))
  | no p ↦ elim (text_discrete it.info_hash (replicate 40 b'0')) [
    | yes z ↦ ((λ h (one, two, three). three z), λ h. absurd (ground arith))
    | no z ↦ (
      (λ h (one, two, three). two (is_empty→ it.info_hash (ground arith))),
      λ h. (p, (λ e. absurd (ground (arith, →is_empty it.info_hash e))), z),
    )
  ]
]

module _ ⦃u : Unicode⦄ (encode : List (Text × Text) → Text) (parsers : Parsers) where
  -- The magnet of a result is that of its info-hash and title, with some more trackers.
  abbrev pub HasOwnMagnet : List Text → Result → Type 0
  HasOwnMagnet extra r = r.magnet ≡ magnet_from_info_hash encode r.info_hash r.title extra

  abbrev pub PirateBayMade : PirateBayItem → Result → Type 0
  PirateBayMade it r =
      (r.title ≡ it.name)
      × (r.info_hash ≡ it.info_hash)
      × (r.seeders ≡ parsers.atoi it.seeders)
      × (r.size ≡ parsers.parse_int it.size)
      × HasOwnMagnet [] r

  pirate_bay-Picks :
      (its : List PirateBayItem)
      → Picks IsTorrent PirateBayMade its (pirate_bay_results encode parsers its)
  unfolding pirate_bay_results
  pirate_bay-Picks [] = Picks.nil
  pirate_bay-Picks (it ∷ its) = elim (Bool-cases (is_sentinel it)) [
    | inl out ↦ rw (out) (Picks.leave ((is_sentinel-IsTorrent it).0 out) (pirate_bay-Picks its))
    | inr kept ↦ rw (kept) (
        Picks.picked ((is_sentinel-IsTorrent it).1 kept) (refl, refl, refl, refl, refl)
          (pirate_bay-Picks its))
  ]

  -- Forty bytes, less the space around them.
  abbrev pub HasHash : TorrentsCsvItem → Type 0
  HasHash it = byte_len (to_lower (trim_space it.info_hash)) ≡ 40

  abbrev pub TorrentsCsvMade : TorrentsCsvItem → Result → Type 0
  TorrentsCsvMade it r =
      (r.title ≡ it.name)
      × (r.info_hash ≡ to_lower (trim_space it.info_hash))
      × (r.seeders ≡ it.seeders)
      × (r.size ≡ it.size_bytes)
      × HasOwnMagnet [] r

  torrents_csv-Picks :
      (its : List TorrentsCsvItem)
      → Picks HasHash TorrentsCsvMade its (torrents_csv_results encode parsers its)
  unfolding torrents_csv_results
  torrents_csv-Picks [] = Picks.nil
  torrents_csv-Picks (it ∷ its) =
      elim (Bool-cases (byte_len (to_lower (trim_space it.info_hash)) == 40)) [
        | inl full ↦
            rw (full)
              (Picks.picked (ground arith) (refl, refl, refl, refl, refl) (torrents_csv-Picks its))
        | inr short ↦ rw (short) (Picks.leave (λ h. ground arith) (torrents_csv-Picks its))
      ]

  -- An info-hash of its own, or one in the link.
  abbrev pub HasAnyHash : NyaaItem → Type 0
  HasAnyHash it =
      (is_empty (to_lower (trim_space it.info_hash)) ≡ false)
      ⊎ (is_empty (info_hash_from_link it.link) ≡ false)

  abbrev pub NyaaMade : NyaaItem → Result → Type 0
  NyaaMade it r =
      let own = to_lower (trim_space it.info_hash) in
      (r.title ≡ it.title)
      × (is_empty own ≡ false → r.info_hash ≡ own)
      × (is_empty own ≡ true → r.info_hash ≡ info_hash_from_link it.link)
      × (r.seeders ≡ parsers.atoi it.seeders)
      × HasOwnMagnet (codes "http://nyaa.tracker.wf:7777/announce" ∷ []) r

  nyaa_hash-HasAnyHash :
      (it : NyaaItem)
      → (is_empty (nyaa_hash encode parsers it) ≡ true → ¬ HasAnyHash it)
        × (is_empty (nyaa_hash encode parsers it) ≡ false → HasAnyHash it)
  unfolding nyaa_hash
  nyaa_hash-HasAnyHash it = elim (Bool-cases (is_empty (to_lower (trim_space it.info_hash)))) [
    | inl blank ↦ ((λ h g. ground arith), λ h. inr (ground arith))
    | inr own ↦ ((λ h g. ground arith), λ h. inl own)
  ]

  nyaa-Picks :
      (its : List NyaaItem) → Picks HasAnyHash NyaaMade its (nyaa_results encode parsers its)
  unfolding nyaa_results nyaa_hash
  nyaa-Picks [] = Picks.nil
  nyaa-Picks (it ∷ its) = elim (Bool-cases (is_empty (nyaa_hash encode parsers it))) [
    | inl out ↦ rw (out) (Picks.leave ((nyaa_hash-HasAnyHash it).0 out) (nyaa-Picks its))
    | inr kept ↦ rw (kept) (
        Picks.picked ((nyaa_hash-HasAnyHash it).1 kept)
          (refl, (λ own. ground arith), (λ blank. ground arith), refl, refl) (nyaa-Picks its))
  ]

  -- What the items that were read, or the lack of them, give.
  abbrev pub Reads :
      {A : Type 0} → (List A → List Result → Type 0) → Option (List A) → Fetched → Type 0
  Reads P none f = f ≡ failed bad_body
  Reads P (some its) f = (rs : List Result) × (f ≡ ok rs) × P its rs

  -- What a reply gives: an error, or what its items give.
  abbrev pub Answers :
      {A : Type 0}
      → (List A → List Result → Type 0)
      → (Text → Option (List A))
      → Reply
      → Fetched
      → Type 0
  Answers P decode no_reply f = f ≡ failed request_failed
  Answers P decode (reply status body) f =
      ((status ≡ 200) × Reads P (decode body) f)
      ⊎ ((status ≢ 200) × (f ≡ failed (bad_status status (take 1024 body))))

  fetch-Answers :
      {A : Type 0} (convert : List A → List Result) (P : List A → List Result → Type 0)
      → ((its : List A) → P its (convert its))
      → (decode : Text → Option (List A)) (r : Reply) → Answers P decode r (fetch decode convert r)
  unfolding fetch
  fetch-Answers convert P good decode no_reply = refl
  fetch-Answers convert P good decode (reply status body) = elim (Bool-cases (status == 200)) [
    | inr bad ↦ inr ((λ e. ground arith), rw (bad) refl)
    | inl fine ↦ inl (
      ground arith,
      elim (Option-cases (decode body)) [
        | inl garbled ↦ rw (fine, fetch) (rw (garbled, Reads) refl)
        | inr (its, read) ↦ rw (fine, fetch) (rw (read, Reads) (convert its, refl, good its))
      ],
    )
  ]

  module _ (pirate_bay : Text → Option (List PirateBayItem))
      (torrents_csv : Text → Option (List TorrentsCsvItem)) (nyaa : Text → Option (List NyaaItem))
      (jackett : Text → Option (List TorznabItem)) (r : Reply) where
    -- No reply, a status other than 200 and a body that cannot be decoded are the errors of all four
    -- services. From any other reply, and in the order of its items: piratebay gives a result for
    -- exactly the items with an id other than "0" and an info-hash that is not empty and not all
    -- zeros; torrents-csv for exactly those whose info-hash has forty bytes, less the space around
    -- it; nyaa for exactly those with an info-hash, or with one in the link. Each of these results
    -- has the title, the seeders and the info-hash of its item, and the magnet of that info-hash and
    -- title. A result of jackett has a magnet that starts with "magnet:", or no magnet and an
    -- info-hash that is not empty and has not forty bytes.
    pub search-Picks :
        Answers
          (Picks IsTorrent PirateBayMade)
          pirate_bay
          r
          (pirate_bay_search encode parsers pirate_bay r)
        × Answers
            (Picks HasHash TorrentsCsvMade)
            torrents_csv
            r
            (torrents_csv_search encode parsers torrents_csv r)
        × Answers (Picks HasAnyHash NyaaMade) nyaa r (nyaa_search encode parsers nyaa r)
        × Answers (λ its rs. AllHaveLinks rs) jackett r (jackett_search encode parsers jackett r)
    unfolding pirate_bay_search torrents_csv_search nyaa_search jackett_search
    search-Picks = (
      fetch-Answers (pirate_bay_results encode parsers) _ pirate_bay-Picks pirate_bay r,
      fetch-Answers (torrents_csv_results encode parsers) _ torrents_csv-Picks torrents_csv r,
      fetch-Answers (nyaa_results encode parsers) _ nyaa-Picks nyaa r,
      fetch-Answers (jackett_results encode parsers) (λ its rs. AllHaveLinks rs)
          (jackett-AllHaveLinks encode parsers) jackett r,
    )

-- ===== src/Crawler.antt =====
-- internal/dht/crawler.go: the crawler takes info-hashes from the traffic of the DHT, drops repeated
-- ones, writes new ones to the store and queues them; workers take them from the queue and save
-- their metadata. The channel `seen` is its queue, a job a hash that a worker holds. What the store
-- and the engine answer comes with the step.
pub mod Queue
pub mod Repeats
pub mod Fair
pub mod Resolves
pub mod Indexer
use p2pget.Prelude.{
  ℕ, zero, suc, List, [], ◌∷◌, ◌++◌, Bool, true, false, if◌then◌else◌, ltb, ◌==◌, ℤ, pos, Option,
  none, some, Text, length, ite, text_discrete, replicate,
}
use p2pget.Strings.{Unicode}
use p2pget.Recent.{RecentSet, new_recent_set, seen}
use p2pget.Store.{Store, Row, Record, seen_info_hash, save_metadata, pending_metadata}

-- `Crawler`, with the jobs of its workers.
pub record Crawler : Type 0 where
  pub store : Store
  pub recent : RecentSet
  pub queue : List Text
  pub jobs : List Text

-- `make(chan string, 1024)`
abbrev pub queue_size : ℕ
queue_size = 1024

-- `New`
unfoldable pub new_crawler : Store → Crawler
new_crawler s = record { store = s; recent = new_recent_set (pos 50000); queue = []; jobs = [] }

-- `case c.seen <- hex: default:`, which drops the hash if the channel is full.
unfoldable pub offer : Text → Crawler → Crawler
offer h c = if ltb (length c.queue) queue_size then record c { queue = c.queue ++ h ∷ [] } else c

-- The hash of forty zeros.
abbrev pub zero_hash : Text
zero_hash = replicate 40 b'0'

-- What FetchInfo gives: the name, the total length and the number of files of a metainfo.
pub record Info : Type 0 where
  pub best_name : Text
  pub total_length : ℤ
  pub files : ℕ

-- `case h, ok := <-c.seen`: a worker takes the first hash.
unfoldable pub take_job : Crawler → Crawler
take_job c = elim c.queue [ [] ↦ c | h ∷ q ↦ record c { queue = q; jobs = h ∷ c.jobs } ]

unfoldable pub remove_at : ℕ → List Text → List Text
remove_at n [] = []
remove_at zero (j ∷ js) = js
remove_at (suc n) (j ∷ js) = j ∷ remove_at n js

unfoldable pub job_at : ℕ → List Text → Option Text
job_at n [] = none
job_at zero (j ∷ js) = some j
job_at (suc n) (j ∷ js) = job_at n js

module _ ⦃u : Unicode⦄ where
  -- `enqueue` for a hash that is not zero and was not seen lately.
  unfoldable pub note_hash : ℤ → Bool → Text → Crawler → Crawler
  note_hash now written h c =
      if written then offer h (record c { store = seen_info_hash now h c.store }) else c

  -- `enqueue`; `written` says whether the store takes the hash.
  unfoldable pub enqueue : ℤ → Bool → Text → Crawler → Crawler
  enqueue now written h c = ite (text_discrete h zero_hash) c (
      let (recent, known) = seen c.recent h in
      let c' : Crawler = record c { recent = recent } in
      if known then c' else note_hash now written h c')

  -- `onQuery`; `none` is a message without arguments. Its test for the zero hash is that of enqueue.
  unfoldable pub on_query : ℤ → Bool → Option Text → Crawler → Crawler
  on_query now written none c = c
  on_query now written (some h) c = enqueue now written h c

  -- `rec` of `metadataWorker`.
  unfoldable pub metadata_record : Text → Info → Record
  metadata_record h i = record {
    info_hash = h;
    name = i.best_name;
    size = i.total_length;
    files = if i.files == 0 then pos 1 else pos i.files;
  }

  -- The rest of `metadataWorker` for one of the jobs: `none` is an error of FetchInfo or no info.
  unfoldable pub finish_job : ℕ → ℤ → Bool → Option Info → Crawler → Crawler
  unfolding metadata_record
  finish_job n now written info c = elim (job_at n c.jobs) [
    | none ↦ c
    | some h ↦
        let c' : Crawler = record c { jobs = remove_at n c.jobs } in
        elim info [
          | none ↦ c'
          | some i ↦ record c' { store = save_metadata written now (metadata_record h i) c.store }
        ]
  ]

unfoldable pub offer_all : List Text → Crawler → Crawler
unfolding offer
offer_all [] c = c
offer_all (h ∷ hs) c = offer_all hs (offer h c)

-- One tick of `replenishLoop`.
unfoldable pub replenish : (List (Text × Row) → List (Text × Row)) → Crawler → Crawler
unfolding offer_all
replenish order c = offer_all (pending_metadata order (pos 64) c.store) c

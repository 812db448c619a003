-- ===== src/Crawler/Queue.antt =====
-- The steps of internal/dht/crawler.go in any interleaving.
use p2pget.Prelude.{
  ℕ, ◌≤◌, List, [], ◌∷◌, Bool, true, false, ◌≡◌, refl, arith, ℤ, pos, Option, none, some, Text,
  length, length-append, ltb, ltb→lt, Bool-cases, inl, inr, Option-cases, text_discrete,
}
use p2pget.Strings.{Unicode}
use p2pget.Recent.{seen, new_recent_set}
use p2pget.Recent.Window.{IsValid as RecentIsValid, seen-IsValid}
use p2pget.Store.{Store, Row, seen_info_hash, pending_metadata}
use p2pget.Store.Rows.{IsValid as StoreIsValid, seen_info_hash-IsValid, save_metadata-IsValid}
use p2pget.Crawler.Repeats.{enqueue_zero, enqueue_nonzero}
use p2pget.Crawler.{
  Crawler, Info, queue_size, new_crawler, offer, offer_all, enqueue, note_hash, on_query, take_job,
  finish_job, replenish, metadata_record, job_at, zero_hash,
}

-- The state of a crawler is good: its parts are, and the queue is within its channel.
pub record IsValid (c : Crawler) : Type 0 where
  pub store : StoreIsValid c.store
  pub recent : RecentIsValid c.recent
  pub short : length c.queue ≤ queue_size

-- A step of one of the goroutines, with the time and what the store and the engine answer.
pub data Step : Type 0 where
  queries : ℤ → Bool → Option Text → Step
  announces : ℤ → Bool → Text → Step
  takes : Step
  finishes : ℕ → ℤ → Bool → Option Info → Step
  replenishes : (List (Text × Row) → List (Text × Row)) → Step

offer-IsValid : (h : Text) (c : Crawler) → IsValid c → IsValid (offer h c)
unfolding offer
offer-IsValid h c v = elim (Bool-cases (ltb (length c.queue) queue_size)) [
  | inl room ↦ rw room (record {
    store = v.store;
    recent = v.recent;
    short = omega (arith, length-append c.queue (h ∷ []), ltb→lt (length c.queue) queue_size room);
  })
  | inr full ↦ rw full v
]

offer_all-IsValid : (hs : List Text) (c : Crawler) → IsValid c → IsValid (offer_all hs c)
unfolding offer_all
offer_all-IsValid [] c v = v
offer_all-IsValid (h ∷ hs) c v = offer_all-IsValid hs (offer h c) (offer-IsValid h c v)

module _ ⦃u : Unicode⦄ where
  note_hash-IsValid :
      (now : ℤ) (written : Bool) (h : Text) (c : Crawler)
      → IsValid c
      → IsValid (note_hash now written h c)
  unfolding note_hash
  note_hash-IsValid now false h c v = v
  note_hash-IsValid now true h c v =
      offer-IsValid h (record c { store = seen_info_hash now h c.store })
        (record {
          store = seen_info_hash-IsValid now h c.store v.store;
          recent = v.recent;
          short = v.short;
        })

  enqueue-IsValid :
      (now : ℤ) (written : Bool) (h : Text) (c : Crawler)
      → IsValid c
      → IsValid (enqueue now written h c)
  enqueue-IsValid now written h c v = elim (text_discrete h zero_hash) [
    | yes p ↦ rw (enqueue_zero now written h c p) v
    | no p ↦
        let c' : Crawler = record c { recent = (seen c.recent h).0 } in
        let v' : IsValid c' = record {
          store = v.store;
          recent = seen-IsValid c.recent h v.recent;
          short = v.short;
        } in
        rw (enqueue_nonzero now written h c p) (elim (Bool-cases (seen c.recent h).1) [
          | inl known ↦ rw known v'
          | inr new ↦ rw new (note_hash-IsValid now written h c' v')
        ])
  ]

  take_job-IsValid : (c : Crawler) → IsValid c → IsValid (take_job c)
  unfolding take_job
  take_job-IsValid c v = go c.queue refl
    where
      go : (q : List Text) → c.queue ≡ q → IsValid (take_job c)
      go [] e = rw e (record { store = v.store; recent = v.recent; short = omega arith })
      go (h ∷ q) e = rw e (record {
        store = v.store;
        recent = v.recent;
        short = let fits : length (h ∷ q) ≤ queue_size = rw e at v.short in omega arith;
      })

  finish_job-IsValid :
      (n : ℕ) (now : ℤ) (written : Bool) (info : Option Info) (c : Crawler)
      → IsValid c
      → IsValid (finish_job n now written info c)
  unfolding finish_job
  finish_job-IsValid n now written none c v = elim (Option-cases (job_at n c.jobs)) [
    | inl no_job ↦ rw (no_job, finish_job) v
    | inr (h, job) ↦
        rw (job, finish_job) (record { store = v.store; recent = v.recent; short = v.short })
  ]
  finish_job-IsValid n now written (some i) c v = elim (Option-cases (job_at n c.jobs)) [
    | inl no_job ↦ rw (no_job, finish_job) v
    | inr (h, job) ↦
        rw (job, finish_job)
          (record {
            store = save_metadata-IsValid written now (metadata_record h i) c.store v.store;
            recent = v.recent;
            short = v.short;
          })
  ]

  unfoldable pub step : Step → Crawler → Crawler
  step (queries now written m) c = on_query now written m c
  step (announces now written h) c = enqueue now written h c
  step takes c = take_job c
  step (finishes n now written info) c = finish_job n now written info c
  step (replenishes order) c = replenish order c

  unfoldable pub crawl : List Step → Crawler → Crawler
  crawl [] c = c
  crawl (s ∷ ss) c = crawl ss (step s c)

  step-IsValid : (s : Step) (c : Crawler) → IsValid c → IsValid (step s c)
  unfolding step on_query replenish
  step-IsValid (queries now written none) c v = v
  step-IsValid (queries now written (some h)) c v = enqueue-IsValid now written h c v
  step-IsValid (announces now written h) c v = enqueue-IsValid now written h c v
  step-IsValid takes c v = take_job-IsValid c v
  step-IsValid (finishes n now written info) c v = finish_job-IsValid n now written info c v
  step-IsValid (replenishes order) c v =
      offer_all-IsValid (pending_metadata order (pos 64) c.store) c v

  crawl_from-IsValid : (ss : List Step) (c : Crawler) → IsValid c → IsValid (crawl ss c)
  unfolding crawl
  crawl_from-IsValid [] c v = v
  crawl_from-IsValid (s ∷ ss) c v = crawl_from-IsValid ss (step s c) (step-IsValid s c v)

  -- However its goroutines interleave, a crawler on a valid store keeps the two tables of the store
  -- in step, the recent set free of duplicates, and the queue within its 1024 places.
  pub crawl-IsValid :
      (s : Store) (ss : List Step) → StoreIsValid s → IsValid (crawl ss (new_crawler s))
  unfolding new_crawler new_recent_set
  crawl-IsValid s ss v = crawl_from-IsValid ss (new_crawler s) (record {
    store = v;
    recent = record { positive = omega arith; active_distinct = tt; old_distinct = tt };
    short = omega arith;
  })

-- ===== src/Crawler/Resolves.antt =====
-- The way of a hash through internal/dht/crawler.go, from the traffic to its metadata in the store.
use mathlib.Core.List.{Permᴰ}
use p2pget.Prelude.{
  ℕ, zero, suc, ◌<◌, List, [], ◌∷◌, ◌++◌, true, false, ltb, ◌==◌, if◌then◌else◌, ◌≡◌, ◌≢◌, refl, ap,
  sym, ◌∙◌, arith, ℤ, pos, max, Option, none, some, Text, length, get_elem?, ite, if_pos, if_neg,
  text_discrete,
}
use p2pget.Strings.{Unicode, to_lower}
use p2pget.Recent.{seen}
use p2pget.Engine.Valid.{some_inj}
use p2pget.Search.Collect.Arrivals.{perm_refl}
use p2pget.Store.Answers.{Metadata, Index, known, read, save_metadata-read, seen_info_hash-read}
use p2pget.Crawler.Repeats.{enqueue_nonzero}
use p2pget.Crawler.{
  Crawler, Info, queue_size, offer, enqueue, note_hash, take_job, finish_job, remove_at, job_at,
  metadata_record, zero_hash,
}
use p2pget.Crawler.Queue.{Step, takes, step, crawl}
use p2pget.Crawler.Fair.{count_takes, queue-fair}

-- What is to be stored of a metainfo; one without a list of files has one file.
abbrev pub info_metadata : Info → Metadata
info_metadata i = record { name = i.best_name; size = i.total_length; files = pos (max 1 i.files) }

get_elem?-end : (xs : List Text) (h : Text) → get_elem? (xs ++ h ∷ []) (length xs) ≡ some h
get_elem?-end [] h = refl
get_elem?-end (x ∷ xs) h = get_elem?-end xs h

-- The job at a place, and the others.
job_at-perm :
    (n : ℕ) (js : List Text) (h : Text) → job_at n js ≡ some h → Permᴰ js (h ∷ remove_at n js)
unfolding job_at remove_at
job_at-perm n [] h e = absurd (ground arith)
job_at-perm zero (j ∷ js) h e = rw (some_inj e) (perm_refl (h ∷ js))
job_at-perm (suc n) (j ∷ js) h e =
    Permᴰ.trans (Permᴰ.cons refl (job_at-perm n js h e)) (Permᴰ.swap refl refl)

counted : (n : ℕ) → (if n == 0 then pos 1 else pos n) ≡ pos (max 1 n)
counted n = ground arith

module _ ⦃u : Unicode⦄ where
  -- An index with another entry for a hash.
  abbrev pub with_entry : Text → Option Metadata → Index → Index
  with_entry h entry x j = ite (text_discrete (to_lower h) j) (some entry) (x j)

  -- A job is done: what was fetched of its hash is stored under this hash alone, and nothing is
  -- stored if the fetch failed.
  abbrev pub Finishes : Text → Option Info → Crawler → Crawler → Type 0
  Finishes h info c d =
      Permᴰ c.jobs (h ∷ d.jobs)
      × (d.queue ≡ c.queue)
      × ((j : Text)
          → read d.store j ≡ (elim info [
            | none ↦ read c.store j
            | some i ↦ with_entry h (some (info_metadata i)) (read c.store) j
          ]))

  finish_job-Finishes :
      (h : Text) (c : Crawler) (n : ℕ) (now : ℤ) (info : Option Info)
      → job_at n c.jobs ≡ some h
      → Finishes h info c (finish_job n now true info c)
  unfolding finish_job metadata_record
  finish_job-Finishes h c n now none job =
      rw (job, finish_job) (job_at-perm n c.jobs h job, refl, λ j. refl)
  finish_job-Finishes h c n now (some i) job =
      rw (job, finish_job)
        (
          job_at-perm n c.jobs h job,
          refl,
          λ j.
              save_metadata-read true now (metadata_record h i) j c.store
              ∙ ap
                  (λ fs.
                    with_entry h
                      (some (record { name = i.best_name; size = i.total_length; files = fs }))
                      (read c.store) j)
                  (counted i.files),
        )

  same_entry :
      (h : Text) (x : Index) (j : Text)
      → ite (text_discrete (to_lower h) j) (some (known (x j))) (x j)
        ≡ with_entry h (known (x (to_lower h))) x j
  same_entry h x j = elim (text_discrete (to_lower h) j) [
    | no p ↦
        if_neg (text_discrete (to_lower h) j) p _ _
        ∙ sym (if_neg (text_discrete (to_lower h) j) p _ _)
    | yes p ↦
        if_pos (text_discrete (to_lower h) j) p _ _
        ∙ ap (λ k. some (known (x k))) (sym p)
        ∙ sym (if_pos (text_discrete (to_lower h) j) p _ _)
  ]

  -- A hash that is noted stands at the end of the queue, and in the index.
  enqueue-end :
      (now : ℤ) (h : Text) (c : Crawler)
      → h ≢ zero_hash
      → (seen c.recent h).1 ≡ false
      → length c.queue < queue_size
      → let c' = enqueue now true h c in
        (get_elem? c'.queue (length c.queue) ≡ some h)
        × ((j : Text)
            → read c'.store j ≡ with_entry h (known (read c.store (to_lower h))) (read c.store) j)
  unfolding note_hash offer
  enqueue-end now h c nonzero new room =
      let fits : ltb (length c.queue) queue_size ≡ true = ground arith in
      rw (enqueue_nonzero now true h c nonzero) (
        rw (new) (
          rw (fits) (
            get_elem?-end c.queue h,
            λ j. seen_info_hash-read now h j c.store ∙ same_entry h (read c.store) j,
          )))

  take_job-front :
      (c : Crawler) (h : Text) (q : List Text)
      → c.queue ≡ h ∷ q
      → ((take_job c).queue ≡ q) × ((take_job c).jobs ≡ h ∷ c.jobs) × ((take_job c).store ≡ c.store)
  unfolding take_job
  take_job-front c h q front = rw (front, take_job) (refl, refl, refl)

  -- A hash that is not zero, was not seen lately and finds room in the queue gets to the store in
  -- two steps: it is entered at once, with the metadata that was known of it, and nothing else is;
  -- and if the workers take more often than the queue is long, one of them takes it as a job,
  -- behind just as many other takes as there were hashes before it, whatever queries,
  -- announcements, fetches and refills come between; and in any later state in which a worker
  -- has it as a job, it stores what the fetch gives under this hash and no other, stores nothing if
  -- the fetch fails, and is done with this job and no other. The store takes what is written.
  pub enqueue-resolves :
      (now : ℤ) (h : Text) (c : Crawler) (ss : List Step) (w : Crawler) (n : ℕ) (later : ℤ)
      (info : Option Info)
      → h ≢ zero_hash
      → (seen c.recent h).1 ≡ false
      → length c.queue < queue_size
      → length c.queue < count_takes ss
      → job_at n w.jobs ≡ some h
      → let c' = enqueue now true h c in
        ((j : Text)
          → read c'.store j ≡ with_entry h (known (read c.store (to_lower h))) (read c.store) j)
        × ((before : List Step) × (after : List Step) × (ss ≡ before ++ takes ∷ after)
            × (count_takes before ≡ length c.queue)
            × (let d = crawl before c' in
                ((step takes d).jobs ≡ h ∷ d.jobs) × ((step takes d).store ≡ d.store)))
        × Finishes h info w (finish_job n later true info w)
  unfolding step
  enqueue-resolves now h c ss w n later info nonzero new room enough job =
      let (end, entered) = enqueue-end now h c nonzero new room in
      let (before, after, q, split, count, front) =
        queue-fair ss (enqueue now true h c) (length c.queue) h end enough in
      let (rest, held, stored) = take_job-front (crawl before (enqueue now true h c)) h q front in
      (
        entered,
        (before, after, split, count, (held, stored)),
        finish_job-Finishes h w n later info job,
      )

-- ===== src/Crawler/Fair.antt =====
-- No hash starves in the queue of internal/dht/crawler.go.
use p2pget.Prelude.{
  ℕ, zero, suc, ◌<◌, List, [], ◌∷◌, ◌++◌, Bool, true, false, ◌≡◌, refl, ap, ◌∙◌, arith, ℤ, Option,
  none, some, Text, length, get_elem?, ltb, Bool-cases, Option-cases, inl, inr, text_discrete,
}
use p2pget.Strings.{Unicode}
use p2pget.Recent.{seen}
use p2pget.Engine.Valid.{some_inj}
use p2pget.Store.{pending_metadata, seen_info_hash}
use p2pget.Crawler.Repeats.{enqueue_zero, enqueue_nonzero}
use p2pget.Crawler.{
  Crawler, Info, queue_size, offer, offer_all, enqueue, note_hash, on_query, take_job, finish_job,
  replenish, job_at, zero_hash,
}
use p2pget.Crawler.Queue.{Step, queries, announces, takes, finishes, replenishes, step, crawl}

-- How many steps take from the queue.
abbrev pub count_takes : List Step → ℕ
count_takes [] = 0
count_takes (takes ∷ ss) = suc (count_takes ss)
count_takes (queries now written m ∷ ss) = count_takes ss
count_takes (announces now written h ∷ ss) = count_takes ss
count_takes (finishes n now written info ∷ ss) = count_takes ss
count_takes (replenishes order ∷ ss) = count_takes ss

get_elem?-front :
    (xs ys : List Text) (i : ℕ) {h : Text}
    → get_elem? xs i ≡ some h
    → get_elem? (xs ++ ys) i ≡ some h
get_elem?-front [] ys i e = absurd (ground arith)
get_elem?-front (x ∷ xs) ys zero e = e
get_elem?-front (x ∷ xs) ys (suc i) e = get_elem?-front xs ys i e

-- A hash stands at a place of the queue.
abbrev pub At : ℕ → Text → Crawler → Type 0
At i h c = get_elem? c.queue i ≡ some h

offer-At : (g : Text) (c : Crawler) (i : ℕ) {h : Text} → At i h c → At i h (offer g c)
unfolding offer
offer-At g c i e = elim (Bool-cases (ltb (length c.queue) queue_size)) [
  | inl room ↦ rw (room, offer) (get_elem?-front c.queue (g ∷ []) i e)
  | inr full ↦ rw (full, offer) e
]

offer_all-At :
    (gs : List Text) (c : Crawler) (i : ℕ) {h : Text} → At i h c → At i h (offer_all gs c)
unfolding offer_all
offer_all-At [] c i e = e
offer_all-At (g ∷ gs) c i e = offer_all-At gs (offer g c) i (offer-At g c i e)

module _ ⦃u : Unicode⦄ where
  note_hash-At :
      (now : ℤ) (written : Bool) (g : Text) (c : Crawler) (i : ℕ) {h : Text}
      → At i h c
      → At i h (note_hash now written g c)
  unfolding note_hash
  note_hash-At now false g c i e = e
  note_hash-At now true g c i e = offer-At g (record c { store = seen_info_hash now g c.store }) i e

  enqueue-At :
      (now : ℤ) (written : Bool) (g : Text) (c : Crawler) (i : ℕ) {h : Text}
      → At i h c
      → At i h (enqueue now written g c)
  enqueue-At now written g c i e = elim (text_discrete g zero_hash) [
    | yes p ↦ rw (enqueue_zero now written g c p) e
    | no p ↦
        let c' : Crawler = record c { recent = (seen c.recent g).0 } in
        rw (enqueue_nonzero now written g c p) (elim (Bool-cases (seen c.recent g).1) [
          | inl known ↦ rw known e
          | inr new ↦ rw new (note_hash-At now written g c' i e)
        ])
  ]

  finish_job-At :
      (n : ℕ) (now : ℤ) (written : Bool) (info : Option Info) (c : Crawler) (i : ℕ) {h : Text}
      → At i h c
      → At i h (finish_job n now written info c)
  unfolding finish_job
  finish_job-At n now written info c i e = elim (Option-cases (job_at n c.jobs)) [
    | inl idle ↦ rw (idle, finish_job) e
    | inr (g, job) ↦ elim (Option-cases info) [
      | inl failed ↦ rw (job, finish_job) (rw (failed, finish_job) e)
      | inr (i', got) ↦ rw (job, finish_job) (rw (got, finish_job) e)
    ]
  ]

  -- The hash is the one that a step takes, behind `i` steps that took others.
  abbrev pub Taken : Text → ℕ → List Step → Crawler → Type 0
  Taken h i ss c =
      (before : List Step) × (after : List Step) × (q : List Text) × (ss ≡ before ++ takes ∷ after)
      × (count_takes before ≡ i)
      × ((crawl before c).queue ≡ h ∷ q)

  later :
      (h : Text) (i : ℕ) (s : Step) (ss : List Step) (c : Crawler)
      → ((before : List Step) → count_takes (s ∷ before) ≡ count_takes before)
      → Taken h i ss (step s c)
      → Taken h i (s ∷ ss) c
  unfolding crawl
  later h i s ss c other (before, after, q, split, count, front) =
      (s ∷ before, after, q, ap (◌∷◌ s) split, other before ∙ count, front)

  head_of : (xs : List Text) {h : Text} → get_elem? xs 0 ≡ some h → (q : List Text) × (xs ≡ h ∷ q)
  head_of [] e = absurd (ground arith)
  head_of (x ∷ xs) e = (xs, ap (λ y. y ∷ xs) (some_inj e))

  take_job-At : (c : Crawler) (i : ℕ) {h : Text} → At (suc i) h c → At i h (take_job c)
  unfolding take_job
  take_job-At c i {h} e = go c.queue refl e
    where
      go : (q : List Text) → c.queue ≡ q → get_elem? q (suc i) ≡ some h → At i h (take_job c)
      go [] same at = absurd (ground arith)
      go (x ∷ q) same at = rw (same, take_job) at

  take-Taken :
      (h : Text) (i : ℕ) (ss : List Step) (c : Crawler)
      → Taken h i ss (step takes c)
      → Taken h (suc i) (takes ∷ ss) c
  unfolding crawl
  take-Taken h i ss c (before, after, q, split, count, front) =
      (takes ∷ before, after, q, ap (◌∷◌ takes) split, ap suc count, front)

  -- A hash that stands at some place of the queue is taken by a worker, if the workers take more
  -- often than there are places before it: behind as many other takes as there are such places,
  -- whatever queries, announcements, fetches and refills come between.
  pub queue-fair :
      (ss : List Step) (c : Crawler) (i : ℕ) (h : Text)
      → get_elem? c.queue i ≡ some h
      → i < count_takes ss
      → Taken h i ss c
  unfolding step on_query replenish crawl
  queue-fair [] c i h e enough = absurd (omega arith)
  queue-fair (takes ∷ ss) c zero h e enough =
      let (q, front) = head_of c.queue e in ([], ss, q, refl, refl, front)
  queue-fair (takes ∷ ss) c (suc i) h e enough =
      take-Taken h i ss c (queue-fair ss (take_job c) i h (take_job-At c i e) (omega arith))
  queue-fair (queries now written none ∷ ss) c i h e enough =
      later h i (queries now written none) ss c (λ before. refl) (queue-fair ss c i h e enough)
  queue-fair (queries now written (some g) ∷ ss) c i h e enough =
      later h i (queries now written (some g)) ss c (λ before. refl)
        (queue-fair ss (enqueue now written g c) i h (enqueue-At now written g c i e) enough)
  queue-fair (announces now written g ∷ ss) c i h e enough =
      later h i (announces now written g) ss c (λ before. refl)
        (queue-fair ss (enqueue now written g c) i h (enqueue-At now written g c i e) enough)
  queue-fair (finishes n now written info ∷ ss) c i h e enough =
      later h i (finishes n now written info) ss c (λ before. refl)
        (queue-fair ss (finish_job n now written info c) i h
          (finish_job-At n now written info c i e) enough)
  queue-fair (replenishes order ∷ ss) c i h e enough =
      let gs = pending_metadata order (ℤ.pos 64) c.store in
      later h i (replenishes order) ss c (λ before. refl)
        (queue-fair ss (replenish order c) i h (offer_all-At gs c i e) enough)

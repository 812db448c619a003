-- ===== src/Tests/Crawlers.antt =====
-- A crawler on an empty store, for internal/dht/crawler.go.
use p2pget.Prelude.{
  Text, ◌≢◌, ◌++◌, ap, length, contains, text_discrete, false, List, [], ◌∷◌, ◌≡◌, true, false, pos,
  some, codes, arith, refl,
}
use p2pget.Store.Rows.{empty_store}
use p2pget.Crawler.{Crawler, Info, enqueue, finish_job, job_at, zero_hash}
use p2pget.Crawler.Queue.{Step, announces, takes, step, crawl}
use p2pget.Crawler.Repeats.{Enqueue, enqueue_all, enqueue-repeat}
use p2pget.Crawler.Fair.{count_takes}
use p2pget.Crawler.Resolves.{with_entry, Finishes, enqueue-resolves}
use p2pget.Recent.{seen}
use p2pget.Strings.{to_lower}
use p2pget.Store.Answers.{read, known}
use p2pget.Tests.{ascii_only}

abbrev film : Info
film = record { best_name = codes "film"; total_length = pos 700; files = 0 }

abbrev fresh : Crawler
fresh = record {
  store = empty_store;
  recent = record { active = []; old = []; cap = 2 };
  queue = [];
  jobs = [];
}

abbrev between : List Enqueue
between = (pos 2, true, codes "cd") ∷ (pos 3, false, codes "ef") ∷ []

enqueue-repeat_example :
    let c' = enqueue_all between (enqueue (pos 1) true (codes "ab") fresh) in
    ((enqueue (pos 4) true (codes "ab") c').store ≡ c'.store)
    × ((enqueue (pos 4) true (codes "ab") c').queue ≡ c'.queue)
enqueue-repeat_example =
    enqueue-repeat fresh (pos 1) (pos 4) true true (codes "ab") between (omega arith)

abbrev two_takes : List Step
two_takes = takes ∷ announces (pos 2) true (codes "ef") ∷ takes ∷ []

-- A state in which a worker has the hash as its job.
abbrev working : Crawler
working = record fresh { jobs = codes "cd" ∷ codes "ab" ∷ [] }

new_hash : (codes "ab" ≢ zero_hash) × ((seen fresh.recent (codes "ab")).1 ≡ false)
unfolding seen contains text_discrete
new_hash = ((λ e. ground (arith, ap (length {0}) e)), refl)

held : job_at 1 working.jobs ≡ some (codes "ab")
unfolding job_at
held = refl

enqueue-resolves_example :
    let c' = enqueue (pos 1) true (codes "ab") fresh in
    ((j : Text)
      → read c'.store j
        ≡ with_entry
            (codes "ab")
            (known (read fresh.store (to_lower (codes "ab"))))
            (read fresh.store)
            j)
    × ((before : List Step) × (after : List Step) × (two_takes ≡ before ++ takes ∷ after)
        × (count_takes before ≡ 0)
        × (let d = crawl before c' in
            ((step takes d).jobs ≡ codes "ab" ∷ d.jobs) × ((step takes d).store ≡ d.store)))
    × Finishes (codes "ab") (some film) working (finish_job 1 (pos 4) true (some film) working)
enqueue-resolves_example =
    enqueue-resolves (pos 1) (codes "ab") fresh two_takes working 1 (pos 4) (some film) new_hash.0
      new_hash.1 (omega arith) (omega arith) held

-- ===== src/Crawler/Repeats.antt =====
-- How `enqueue` of internal/dht/crawler.go spares the store repeated hashes.
use p2pget.Prelude.{
  ◌≤◌, List, [], ◌∷◌, Bool, true, ◌≡◌, ◌≢◌, refl, sym, ap, ◌∙◌, arith, ℤ, Text, length,
  if◌then◌else◌, Bool-cases, inl, inr, ite, if_neg, if_pos, text_discrete,
}
use p2pget.Strings.{Unicode}
use p2pget.Recent.{seen, seen_all}
use p2pget.Recent.Window.{seen-after_calls}
use p2pget.Crawler.{Crawler, offer, enqueue, note_hash, zero_hash}

-- A call of `enqueue`: the time, whether the store takes the hash, and the hash.
abbrev pub Enqueue : Type 0
Enqueue = ℤ × Bool × Text

-- The hashes of some calls that are not zero.
abbrev nonzero : List Enqueue → List Text
nonzero [] = []
nonzero ((now, written, h) ∷ es) = ite (text_discrete h zero_hash) (nonzero es) (h ∷ nonzero es)

length-nonzero : (es : List Enqueue) → length (nonzero es) ≤ length es
length-nonzero [] = omega arith
length-nonzero ((now, written, h) ∷ es) = ground (arith, length-nonzero es)

module _ ⦃u : Unicode⦄ where
  unfoldable pub enqueue_all : List Enqueue → Crawler → Crawler
  enqueue_all [] c = c
  enqueue_all ((now, written, h) ∷ es) c = enqueue_all es (enqueue now written h c)

  note_hash-recent :
      (now : ℤ) (written : Bool) (h : Text) (c : Crawler)
      → (note_hash now written h c).recent ≡ c.recent
  unfolding note_hash offer
  note_hash-recent now written h c = ground arith

  -- `enqueue` where the hash is not zero.
  pub enqueue_nonzero :
      (now : ℤ) (written : Bool) (h : Text) (c : Crawler)
      → h ≢ zero_hash
      → enqueue now written h c ≡ (
          if (seen c.recent h).1
          then record c { recent = (seen c.recent h).0 }
          else note_hash now written h (record c { recent = (seen c.recent h).0 }))
  unfolding enqueue
  enqueue_nonzero now written h c ne = if_neg (text_discrete h zero_hash) ne _ _

  pub enqueue_zero :
      (now : ℤ) (written : Bool) (h : Text) (c : Crawler)
      → h ≡ zero_hash
      → enqueue now written h c ≡ c
  unfolding enqueue
  enqueue_zero now written h c e = if_pos (text_discrete h zero_hash) e _ _

  enqueue-recent :
      (now : ℤ) (written : Bool) (h : Text) (c : Crawler)
      → h ≢ zero_hash
      → (enqueue now written h c).recent ≡ (seen c.recent h).0
  enqueue-recent now written h c ne =
      rw (enqueue_nonzero now written h c ne) (elim (Bool-cases (seen c.recent h).1) [
        | inl known ↦ rw known refl
        | inr new ↦
            rw new (note_hash-recent now written h (record c { recent = (seen c.recent h).0 }))
      ])

  enqueue_all-recent :
      (es : List Enqueue) (c : Crawler) → (enqueue_all es c).recent ≡ seen_all c.recent (nonzero es)
  unfolding enqueue_all seen_all
  enqueue_all-recent [] c = refl
  enqueue_all-recent ((now, written, h) ∷ es) c = elim (text_discrete h zero_hash) [
    | yes e ↦
        ap (λ x. (enqueue_all es x).recent) (enqueue_zero now written h c e)
        ∙ enqueue_all-recent es c
        ∙ ap (seen_all c.recent)
            (sym (if_pos (text_discrete h zero_hash) e (nonzero es) (h ∷ nonzero es)))
    | no ne ↦
        enqueue_all-recent es (enqueue now written h c)
        ∙ ap (λ r. seen_all r (nonzero es)) (enqueue-recent now written h c ne)
        ∙ ap (seen_all c.recent)
            (sym (if_neg (text_discrete h zero_hash) ne (nonzero es) (h ∷ nonzero es)))
  ]

  -- A hash that was enqueued touches neither the store nor the queue when it comes again, if no more
  -- calls than the capacity of the recent set lie between.
  pub enqueue-repeat :
      (c : Crawler) (now now' : ℤ) (written written' : Bool) (h : Text) (es : List Enqueue)
      → length es ≤ c.recent.cap
      → let c' = enqueue_all es (enqueue now written h c) in
        ((enqueue now' written' h c').store ≡ c'.store)
        × ((enqueue now' written' h c').queue ≡ c'.queue)
  enqueue-repeat c now now' written written' h es short = elim (text_discrete h zero_hash) [
    | yes e ↦
        let same = enqueue_zero now' written' h (enqueue_all es (enqueue now written h c)) e in
        (ap (λ x. x.store) same, ap (λ x. x.queue) same)
    | no ne ↦
        let c' = enqueue_all es (enqueue now written h c) in
        let known : (seen c'.recent h).1 ≡ true =
          ap (λ r. (seen r h).1)
            (enqueue_all-recent es (enqueue now written h c)
              ∙ ap (λ r. seen_all r (nonzero es)) (enqueue-recent now written h c ne))
          ∙ seen-after_calls c.recent h (nonzero es) (omega (arith, length-nonzero es)) in
        rw (enqueue_nonzero now' written' h c' ne) (rw known (refl, refl))
  ]

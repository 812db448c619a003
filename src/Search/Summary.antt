-- ===== src/Search/Summary.antt =====
-- What the results of one key add up to under the merging of `DedupAndRank`,
-- internal/search/search.go, for any measure of which a merge takes the sum.
use mathlib.Core.List.{Permᴰ}
use p2pget.Prelude.{List, [], ◌∷◌, Text, text_discrete, ◌≡◌, refl, sym, ap, arith, ite, ◌∙◌}
use p2pget.Strings.{Unicode}
use p2pget.Search.{Result, better, key}
use p2pget.Search.Keys.{key-better}
use p2pget.Search.Dedup.{absorb, absorb_all}

module _ ⦃u : Unicode⦄ {M : Type 0} (op : M → M → M) (unit : M) (measure : Result → M) where
  -- The sum of a measure over the results of a key.
  unfoldable pub summary : Text → List Result → M
  summary k [] = unit
  summary k (r ∷ rs) =
      let rest = summary k rs in ite (text_discrete (key r) k) (op (measure r) rest) rest

  module _ (op_assoc : (a b c : M) → op (op a b) c ≡ op a (op b c))
      (op_comm : (a b : M) → op a b ≡ op b a) (unit_op : (a : M) → op unit a ≡ a)
      (measure_better : (r o : Result) → measure (better r o) ≡ op (measure o) (measure r)) where
    op_unit : (a : M) → op a unit ≡ a
    op_unit a = op_comm a unit ∙ unit_op a

    summary-cons :
        (k : Text) (r : Result) (rs : List Result)
        → summary k (r ∷ rs) ≡ op (summary k (r ∷ [])) (summary k rs)
    unfolding summary
    summary-cons k r rs = elim (text_discrete (key r) k) [
      | yes p ↦ ground (arith, op_unit (measure r))
      | no p ↦ ground (arith, unit_op (summary k rs))
    ]

    summary-better :
        (k : Text) (r o : Result)
        → key o ≡ key r
        → summary k (better r o ∷ []) ≡ op (summary k (o ∷ [])) (summary k (r ∷ []))
    unfolding summary
    summary-better k r o p = elim (text_discrete (key o) k) [
      | yes q ↦ ground (
        arith,
        key-better r o p,
        measure_better r o,
        op_unit (measure o),
        op_unit (measure r),
        op_unit (measure (better r o)),
      )
      | no q ↦ ground (arith, key-better r o p, unit_op unit)
    ]

    summary-absorb :
        (k : Text) (r : Result) (out : List Result)
        → summary k (absorb r out) ≡ op (summary k out) (summary k (r ∷ []))
    unfolding absorb
    summary-absorb k r [] = unfold summary in sym (unit_op (summary k (r ∷ [])))
    summary-absorb k r (o ∷ os) =
        let a = summary k (o ∷ []) in
        let b = summary k os in
        let c = summary k (r ∷ []) in
        elim (text_discrete (key o) (key r)) [
          | yes p ↦ ground (
            arith,
            summary-cons k o os,
            summary-cons k (better r o) os,
            summary-better k r o p,
            op_assoc a c b,
            op_assoc a b c,
            op_comm b c,
          )
          | no p ↦ ground (
            arith,
            summary-cons k o os,
            summary-cons k o (absorb r os),
            summary-absorb k r os,
            op_assoc a b c,
          )
        ]

    -- The merging keeps the sum of every key.
    pub summary-absorb_all :
        (k : Text) (out rs : List Result)
        → summary k (absorb_all out rs) ≡ op (summary k out) (summary k rs)
    unfolding absorb_all
    summary-absorb_all k out [] = unfold summary in sym (op_unit (summary k out))
    summary-absorb_all k out (r ∷ rs) = cc (
      summary-absorb_all k (absorb r out) rs,
      summary-absorb k r out,
      summary-cons k r rs,
      op_assoc (summary k out) (summary k (r ∷ [])) (summary k rs),
    )

    -- So does a change of the order.
    pub summary-perm : (k : Text) {rs ss : List Result} → Permᴰ rs ss → summary k rs ≡ summary k ss
    unfolding summary
    summary-perm k Permᴰ.nil = refl
    summary-perm k (Permᴰ.cons {a = a} {b = b} {l₁ = l₁} {l₂ = l₂} e p) =
        ground (arith, ap key e, ap measure e, summary-perm k p)
    summary-perm k (Permᴰ.swap {a = a} {b = b} {l = l} e f) = ground (
      arith,
      ap key e,
      ap key f,
      ap measure e,
      ap measure f,
      op_assoc (measure a) (measure b) (summary k l),
      op_assoc (measure b) (measure a) (summary k l),
      op_comm (measure a) (measure b),
    )
    summary-perm k (Permᴰ.trans p q) = summary-perm k p ∙ summary-perm k q

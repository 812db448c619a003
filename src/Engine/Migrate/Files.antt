-- ===== src/Engine/Migrate/Files.antt =====
-- No file is lost by `migratePartFiles`, internal/engine/engine.go.
use p2pget.Prelude.{
  List, [], ◌∷◌, true, false, none, some, ◌≡◌, refl, sym, ap, ◌∙◌, Text, text_discrete, lookup,
  delete, lookup-put_self, lookup-put_ne, lookup-delete_ne, Bool-cases, Option-cases, inl, inr,
}
use p2pget.Strings.{has_suffix, trim_suffix}
use p2pget.Engine.Migrate.{Visit, part, rename, move_part, migrate_one, migrate_part_files}

true_not_false : true ≡ false → ⊥
true_not_false e = cc

none_not_some : {A : Type 0} {x : A} → none ≡ some x → ⊥
none_not_some e = cc

module _ {A : Type 0} where
  -- A file that was at `q` is there still, or at another path if `q` ends in the suffix.
  abbrev pub Kept : List (Text × A) → Text → A → Type 0
  Kept fs q c =
      (r : Text) × (lookup text_discrete r fs ≡ some c) × (has_suffix q part ≡ false → r ≡ q)

  rename-Kept :
      (path target : Text) (fs : List (Text × A)) (q : Text) {c : A}
      → has_suffix path part ≡ true
      → lookup text_discrete target fs ≡ none
      → lookup text_discrete q fs ≡ some c
      → Kept (rename path target fs) q c
  unfolding rename
  rename-Kept path target fs q {c} suffix free there =
      elim (Option-cases (lookup text_discrete path fs)) [
        | inl gone ↦ rw (gone, rename) (q, there, λ h. refl)
        | inr (c', found) ↦
            rw (found, rename)
              (elim (text_discrete path q) [
                | yes p ↦ (
                  target,
                  lookup-put_self text_discrete target c' (delete text_discrete path fs)
                      ∙ sym found
                      ∙ ap (λ x. lookup text_discrete x fs) p
                      ∙ there,
                  λ h. absurd (true_not_false (sym suffix ∙ ap (λ x. has_suffix x part) p ∙ h)),
                )
                | no p ↦ (
                  q,
                  lookup-put_ne text_discrete target q c' (delete text_discrete path fs) (λ e.
                        none_not_some (sym free ∙ ap (λ x. lookup text_discrete x fs) e ∙ there))
                      ∙ lookup-delete_ne text_discrete path q fs p
                      ∙ there,
                  λ h. refl,
                )
              ])
      ]

  move_part-Kept :
      (v : Visit) (target : Text) (fs : List (Text × A)) (q : Text) {c : A}
      → has_suffix v.path part ≡ true
      → lookup text_discrete q fs ≡ some c
      → Kept (move_part v target fs) q c
  unfolding move_part
  move_part-Kept v target fs q suffix there = elim (Option-cases (lookup text_discrete target fs)) [
    | inr (c', taken) ↦ rw (taken, move_part) (q, there, λ h. refl)
    | inl free ↦
        rw (free, move_part)
          (elim (Bool-cases v.stat_err) [
            | inl odd ↦ rw odd (q, there, λ h. refl)
            | inr fine ↦ rw fine (elim (Bool-cases v.renamed) [
              | inl done ↦ rw done (rename-Kept v.path target fs q suffix free there)
              | inr failed ↦ rw failed (q, there, λ h. refl)
            ])
          ])
  ]

  migrate_one-Kept :
      (v : Visit) (fs : List (Text × A)) (q : Text) {c : A}
      → lookup text_discrete q fs ≡ some c
      → Kept (migrate_one v fs) q c
  unfolding migrate_one
  migrate_one-Kept v fs q there = elim (Bool-cases v.walk_err) [
    | inl bad ↦ rw bad (q, there, λ h. refl)
    | inr good ↦ rw good (elim (Bool-cases (has_suffix v.path part)) [
      | inl suffix ↦ rw suffix (move_part-Kept v (trim_suffix v.path part) fs q suffix there)
      | inr plain ↦ rw plain (q, there, λ h. refl)
    ])
  ]

  -- Whatever is visited and whatever fails on the way, the migration loses no content and
  -- overwrites none: each file is there still, at its own path if that does not end in the suffix.
  pub migrate_part_files-Kept :
      (vs : List Visit) (fs : List (Text × A)) (q : Text) {c : A}
      → lookup text_discrete q fs ≡ some c
      → Kept (migrate_part_files vs fs) q c
  unfolding migrate_part_files
  migrate_part_files-Kept [] fs q there = (q, there, λ h. refl)
  migrate_part_files-Kept (v ∷ vs) fs q there =
      let (r, now, same) = migrate_one-Kept v fs q there in
      let (r', later, same') = migrate_part_files-Kept vs (migrate_one v fs) r now in
      (r', later, λ h. same' (ap (λ x. has_suffix x part) (same h) ∙ h) ∙ same h)

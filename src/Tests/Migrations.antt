-- ===== src/Tests/Migrations.antt =====
-- A directory with two unfinished files, for `migratePartFiles` of internal/engine/engine.go.
use p2pget.Prelude.{
  ℕ, List, [], ◌∷◌, ◌≡◌, refl, true, false, some, Text, codes, text_discrete, lookup,
}
use p2pget.Engine.Migrate.{Visit, migrate_part_files}
use p2pget.Engine.Migrate.Files.{Kept, migrate_part_files-Kept}

abbrev directory : List (Text × ℕ)
directory = (codes "a", 1) ∷ (codes "a.part", 2) ∷ (codes "b.part", 3) ∷ []

abbrev visit : Text → Visit
visit path = record { path = path; walk_err = false; stat_err = false; renamed = true }

abbrev visits : List Visit
visits = visit (codes "a") ∷ visit (codes "a.part") ∷ visit (codes "b.part") ∷ []

there : lookup text_discrete (codes "b.part") directory ≡ some 3
unfolding lookup text_discrete
there = refl

migrate_part_files-Kept_example : Kept (migrate_part_files visits directory) (codes "b.part") 3
migrate_part_files-Kept_example = migrate_part_files-Kept visits directory (codes "b.part") there

-- ===== src/Engine/Migrate.antt =====
-- `migratePartFiles` of internal/engine/engine.go: files that an older version left with the suffix
-- ".part" lose it. A directory is the map from paths to contents; of the file system each visit is
-- told whether `os.Stat` fails oddly and whether `os.Rename` succeeds.
pub mod Files
use p2pget.Prelude.{
  List, [], ◌∷◌, Bool, true, false, if◌then◌else◌, Option, none, some, Text, codes, text_discrete,
  lookup, put, delete,
}
use p2pget.Strings.{has_suffix, trim_suffix}

-- What `filepath.WalkDir` visits: a path, and what the file system does there.
pub record Visit : Type 0 where
  pub path : Text
  pub walk_err : Bool
  pub stat_err : Bool
  pub renamed : Bool

abbrev pub part : Text
part = codes ".part"

module _ {A : Type 0} where
  -- `os.Rename(path, target)` of a file.
  unfoldable pub rename : Text → Text → List (Text × A) → List (Text × A)
  rename path target fs = elim (lookup text_discrete path fs) [
    | none ↦ fs
    | some c ↦ put text_discrete target c (delete text_discrete path fs)
  ]

  -- `os.Stat(target)` and the rename, if there is no such file.
  unfoldable pub move_part : Visit → Text → List (Text × A) → List (Text × A)
  unfolding rename
  move_part v target fs = elim (lookup text_discrete target fs) [
    | some c ↦ fs
    | none ↦ if v.stat_err then fs else if v.renamed then rename v.path target fs else fs
  ]

  -- The function that `WalkDir` calls, for a path that is no directory.
  unfoldable pub migrate_one : Visit → List (Text × A) → List (Text × A)
  unfolding move_part
  migrate_one v fs =
      if v.walk_err
      then fs
      else if has_suffix v.path part
      then move_part v (trim_suffix v.path part) fs
      else fs

  -- `migratePartFiles`
  unfoldable pub migrate_part_files : List Visit → List (Text × A) → List (Text × A)
  unfolding migrate_one
  migrate_part_files [] fs = fs
  migrate_part_files (v ∷ vs) fs = migrate_part_files vs (migrate_one v fs)

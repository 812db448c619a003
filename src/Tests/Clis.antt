-- ===== src/Tests/Clis.antt =====
-- A command line and some pages, for cmd/p2pget/main.go.
use p2pget.Prelude.{
  map, word, ℕ, suc, ◌+◌, ◌-◌, ◌*◌, ◌^◌, ◌<◌, ◌≤◌, ◌++◌, List, [], ◌∷◌, ◌≡◌, none, some, ℤ, pos,
  Text, codes, refl, arith, Bool, true, false, ◌==◌, if◌then◌else◌,
}
use p2pget.Cli.{parse_args, search_page, page_size, page_number}
use p2pget.Cli.Flags.{
  Item, positional, flag, arguments, positionals, Parser, assign_all, parse_args_lem,
}
use p2pget.Cli.Health.{Verdict, run_dht_status}
use p2pget.Cli.Health.ExitCode.{has_node_ever, run_dht_status_lem}
use p2pget.Cli.Pages.{search_page-panics}

abbrev pub dash : Text → Bool
dash [] = false
dash (c ∷ t) = c == b'-'

abbrev pub IsDash : List Text → Type 0
IsDash (a ∷ []) = dash a ≡ true
IsDash _ = ⊥

-- Flags that have no value: each changes the state in the same way.
module _ {F : Type 0} (change : F → F) where
  unfoldable pub take_flags : F → List Text → F × List Text
  take_flags n [] = (n, [])
  take_flags n (a ∷ args) =
      let rest = take_flags (change n) args in if dash a then rest else (n, a ∷ args)

  abbrev pub changed : F → List Text → F
  changed n g = change n

  pub at_flag_changed :
      (n : F) (g args : List Text)
      → IsDash g
      → take_flags n (g ++ args) ≡ take_flags (changed n g) args
  unfolding take_flags
  at_flag_changed n [] args h = absurd h
  at_flag_changed n (a ∷ []) args h = rw h refl
  at_flag_changed n (a ∷ b ∷ g) args h = absurd h

  pub at_plain_changed :
      (n : F) (p : Text) (args : List Text)
      → dash p ≡ false
      → take_flags n (p ∷ args) ≡ (n, p ∷ args)
  unfolding take_flags
  at_plain_changed n p args h = rw h refl

  pub at_end_changed : (n : F) → take_flags n [] ≡ (n, [])
  unfolding take_flags
  at_end_changed n = refl

  abbrev pub dashed : Parser F
  dashed = record {
    parse = take_flags;
    assign = changed;
    IsPlain = λ p. dash p ≡ false;
    IsFlag = IsDash;
    at_end = at_end_changed;
    at_plain = at_plain_changed;
    at_flag = at_flag_changed;
  }

abbrev counting : Parser ℕ
counting = dashed suc

abbrev pub line : List Item
line = positional (codes "ubuntu") ∷ flag (codes "-v" ∷ []) ∷ positional (codes "iso") ∷ []

parse_args_lem_example :
    parse_args counting.parse 3 0 (arguments line)
    ≡ some (assign_all counting 0 line, positionals line)
parse_args_lem_example = parse_args_lem counting 0 line 3 (refl, (refl, (refl, tt))) (omega arith)

abbrev rows : List ℕ
rows = 1 ∷ 2 ∷ 3 ∷ []

abbrev far_page : ℤ
far_page = pos 461168601842738792

far_start :
    (2 ^ 63 ≤ word ((page_number far_page - 1) * page_size (pos 20)))
    × (word ((page_number far_page - 1) * page_size (pos 20)) + page_size (pos 20) < 2 ^ 64)
unfolding page_size page_number
far_start = (omega arith, omega arith)

search_page-panics_example : search_page (pos 20) far_page rows ≡ none
search_page-panics_example = search_page-panics (pos 20) far_page rows far_start.0 far_start.1

run_dht_status_lem_example :
    (v : Verdict) × (code : ℕ) × (run_dht_status
        (map some ((pos 0 ∷ []) ∷ (pos 0 ∷ pos 7 ∷ []) ∷ []))
      ≡ some (v, code))
    × ((code == 0) ≡ has_node_ever ((pos 0 ∷ []) ∷ (pos 0 ∷ pos 7 ∷ []) ∷ []))
run_dht_status_lem_example = run_dht_status_lem ((pos 0 ∷ []) ∷ (pos 0 ∷ pos 7 ∷ []) ∷ [])

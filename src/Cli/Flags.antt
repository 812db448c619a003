-- ===== src/Cli/Flags.antt =====
-- `parseArgs` of cmd/p2pget/main.go: flags and positional arguments in any order.
use p2pget.Prelude.{
  ℕ, zero, suc, ◌<◌, List, [], ◌∷◌, ◌++◌, Option, some, ◌≡◌, refl, sym, ap, arith, ◌∙◌, Text,
  length,
}
use p2pget.Cli.{parse_args, add_positional}

-- An argument that is no flag, or a flag with its value, if it takes one.
pub data Item : Type 0 where
  positional : Text → Item
  flag : List Text → Item

abbrev pub arguments : List Item → List Text
arguments [] = []
arguments (positional p ∷ is) = p ∷ arguments is
arguments (flag g ∷ is) = g ++ arguments is

abbrev pub positionals : List Item → List Text
positionals [] = []
positionals (positional p ∷ is) = p ∷ positionals is
positionals (flag g ∷ is) = positionals is

-- What the package flag documents of `Parse`: it takes the flags in front, one by one, and stops
-- before the first argument that is no flag. `IsPlain` says that of an argument, `IsFlag` of a flag
-- that is registered, with a value that it accepts.
pub record Parser (F : Type 0) : Type 1 where
  pub parse : F → List Text → F × List Text
  pub assign : F → List Text → F
  pub IsPlain : Text → Type 0
  pub IsFlag : List Text → Type 0
  pub at_end : (f : F) → parse f [] ≡ (f, [])
  pub at_plain :
      (f : F) (p : Text) (args : List Text) → IsPlain p → parse f (p ∷ args) ≡ (f, p ∷ args)
  pub at_flag :
      (f : F) (g args : List Text) → IsFlag g → parse f (g ++ args) ≡ parse (assign f g) args

module _ {F : Type 0} (parser : Parser F) where
  open parser use {parse, assign, IsPlain, IsFlag, at_end, at_plain, at_flag}

  abbrev pub AllGood : List Item → Type 0
  AllGood [] = Unit
  AllGood (positional p ∷ is) = IsPlain p × AllGood is
  AllGood (flag g ∷ is) = IsFlag g × AllGood is

  unfoldable pub assign_all : F → List Item → F
  assign_all f [] = f
  assign_all f (positional p ∷ is) = assign_all f is
  assign_all f (flag g ∷ is) = assign_all (assign f g) is

  -- What `parseArgs` does with the answer of `Parse`.
  abbrev after_parse : ℕ → F × List Text → Option (F × List Text)
  after_parse n (now, rest) = elim rest [
    | [] ↦ some (now, [])
    | p ∷ left ↦ add_positional p (parse_args parse n now left)
  ]

  parse_args-suc :
      (n : ℕ) (f : F) (args : List Text)
      → parse_args parse (suc n) f args ≡ after_parse n (parse f args)
  unfolding parse_args
  parse_args-suc n f args = refl

  -- On arguments that the parser of flags accepts, `parseArgs` ends, after at most one call of
  -- Parse more than there are positional arguments: it returns these in their order, and every flag
  -- is set, wherever it stands.
  pub parse_args_lem :
      (f : F) (is : List Item) (n : ℕ)
      → AllGood is
      → length (positionals is) < n
      → parse_args parse n f (arguments is) ≡ some (assign_all f is, positionals is)
  unfolding assign_all
  parse_args_lem f is zero good h = absurd (omega arith)
  parse_args_lem f [] (suc n) good h = rw (parse_args-suc n f []) (ap (after_parse n) (at_end f))
  parse_args_lem f (positional p ∷ is) (suc n) good h =
      parse_args-suc n f (p ∷ arguments is)
      ∙ ap (after_parse n) (at_plain f p (arguments is) good.0)
      ∙ ap (add_positional p) (parse_args_lem f is n good.1 (omega arith))
  parse_args_lem f (flag g ∷ is) (suc n) good h =
      parse_args-suc n f (g ++ arguments is)
      ∙ ap (after_parse n) (at_flag f g (arguments is) good.0)
      ∙ sym (parse_args-suc n (assign f g) (arguments is))
      ∙ parse_args_lem (assign f g) is (suc n) good.1 h

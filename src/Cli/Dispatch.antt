-- ===== src/Cli/Dispatch.antt =====
-- `main` of cmd/p2pget/main.go, which picks a command, and the target of `runGet`.
pub mod Hashes
use p2pget.Prelude.{
  ◌-◌, List, [], ◌∷◌, ◌&&◌, ◌||◌, ◌==◌, leb, if◌then◌else◌, Text, codes, length, drop, byte_len,
  Bool,
}
use p2pget.Strings.{has_prefix}

-- What `main` calls, with the arguments that it passes on. `unknown` exits with code 2.
pub data Subcommand : Type 0 where
  tui : List Text → Subcommand
  search : List Text → Subcommand
  get : List Text → Subcommand
  dht_crawl : List Text → Subcommand
  dht_status : List Text → Subcommand
  help : Subcommand
  unknown : Text → Subcommand

-- `a == b`
abbrev is : Text → Text → Bool
is a b = has_prefix a b && length a == length b

-- `main`, for the arguments after the program's name.
unfoldable pub main : List Text → Subcommand
main [] = tui []
main (arg ∷ args) =
    if is arg (codes "tui") || is arg []
    then tui args
    else if is arg (codes "search")
    then search args
    else if is arg (codes "get")
    then get args
    else if is arg (codes "dht-crawl")
    then dht_crawl args
    else if is arg (codes "dht-status")
    then dht_status args
    else if is arg (codes "-h") || is arg (codes "--help") || is arg (codes "help")
    then help
    else if has_prefix arg (codes "-")
    then tui (arg ∷ args)
    else unknown arg

-- `strings.HasSuffix(s, p)`
unfoldable pub has_suffix : Text → Text → Bool
has_suffix s p = leb (length p) (length s) && is (drop (length s - length p) s) p

-- The method of the engine that `runGet` calls with its target; `unrecognised` is the error.
pub data Target : Type 0 where
  magnet : Target
  url : Target
  file : Target
  info_hash : Target
  unrecognised : Target

-- The switch of `runGet`.
unfoldable pub target_of : Text → Target
target_of target =
    if has_prefix target (codes "magnet:")
    then magnet
    else if has_prefix target (codes "http://") || has_prefix target (codes "https://")
    then url
    else if has_suffix target (codes ".torrent")
    then file
    else if byte_len target == 40
    then info_hash
    else unrecognised

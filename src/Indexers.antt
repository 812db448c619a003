-- ===== src/Indexers.antt =====
-- The indexers of internal/search that ask a web service: piratebay.go, torrentscsv.go, nyaa.go and
-- jackett.go. The reply to a request, the decoding of its body and the parsing of numbers and dates
-- are parameters; what becomes of a reply, and of each decoded item, is here and in the children.
pub mod Links
pub mod Sizes
pub mod Services
pub mod Torznab
pub mod Fetchable
pub mod Picked
use p2pget.Prelude.{
  ℕ, List, [], ◌∷◌, Bool, true, false, if◌then◌else◌, ◌==◌, ℤ, Option, none, some, Text, take,
  text_discrete, ite,
}
use p2pget.Search.{Result}

-- `resp, err := Client.Do(req)`: an error, or a status and the bytes of a body.
pub data Reply : Type 0 where
  no_reply : Reply
  reply : ℕ → Text → Reply

-- Why a search of an indexer fails.
pub data Failure : Type 0 where
  request_failed bad_body : Failure
  bad_status : ℕ → Text → Failure

pub data Fetched : Type 0 where
  ok : List Result → Fetched
  failed : Failure → Fetched

-- What the parsers of Go's library return: for a number the value beside the error, which the code
-- ignores; for a date or a float `none` on an error. `scaled v mult` is `int64(v * mult)`.
pub record Parsers : Type 1 where
  pub Float : Type 0
  pub atoi : Text → ℤ
  pub parse_int : Text → ℤ
  pub rfc1123z : Text → Option ℤ
  pub rfc1123 : Text → Option ℤ
  pub parse_float : Text → Option Float
  pub scaled : Float → ℕ → ℤ

-- `a == b` on strings.
abbrev pub text_eq : Text → Text → Bool
text_eq a b = ite (text_discrete a b) true false

-- The frame of the four `Search` methods: the status, the decoding, the conversion of the items.
unfoldable pub fetch :
    {A : Type 0} → (Text → Option (List A)) → (List A → List Result) → Reply → Fetched
fetch decode convert no_reply = failed request_failed
fetch decode convert (reply status body) =
    if status == 200
    then elim (decode body) [ none ↦ failed bad_body | some items ↦ ok (convert items) ]
    else failed (bad_status status (take 1024 body))

-- ===== src/Tests/Bootstraps.antt =====
-- Addresses that are texts, for internal/engine/bootstrap.go.
use p2pget.Prelude.{ℕ, List, [], ◌∷◌, ◌≡◌, refl, ℤ, pos, Option, none, some, Text, codes}
use p2pget.Bootstrap.{Net, resolve_bootstrap_nodes}
use p2pget.Bootstrap.Nodes.{resolve_bootstrap_nodes-some}

-- Every address is that of its text, on one port.
abbrev plain_net : Net
plain_net = record {
  Ip = Text;
  split_host_port = λ hp. some (hp, codes "6881");
  parse_ip = λ ip. some ip;
  atoi = λ port. some (pos 6881);
}

abbrev no_answer : Text → Text → Option (List (ℕ × Text))
no_answer endpoint host = none

resolve_bootstrap_nodes-some_example :
    (a : Text × ℤ) × (rest : List (Text × ℤ)) × (resolve_bootstrap_nodes plain_net no_answer
      ≡ a ∷ rest)
resolve_bootstrap_nodes-some_example = resolve_bootstrap_nodes-some plain_net no_answer (
  codes "67.215.246.10:6881",
  codes "6881",
  codes "67.215.246.10:6881",
  pos 6881,
  refl,
  refl,
  refl,
)

abbrev one_answer : Text → Text → Option (List (ℕ × Text))
one_answer endpoint host = some ((5, codes "alias") ∷ (1, codes " 1.2.3.4 ") ∷ [])

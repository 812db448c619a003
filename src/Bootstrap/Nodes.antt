-- ===== src/Bootstrap/Nodes.antt =====
-- `resolveBootstrapNodes` of internal/engine/bootstrap.go never leaves the DHT without a node.
use p2pget.Prelude.{
  ℕ, List, [], ◌∷◌, ◌≡◌, refl, ap, arith, ℤ, Option, some, Text, codes, inl, inr, true, ◌&&◌, ◌==◌,
  Bool-cases, Option-cases,
}
use p2pget.Strings.{trim_space}
use p2pget.Bootstrap.{
  Net, udp_addr, push, is_some, a_records, doh_query, doh_lookup, fallback_nodes, resolve_hosts,
  resolve_bootstrap_nodes, bootstrap_host_ports, bootstrap_fallback_ips,
}

abbrev others : List Text
others =
    codes "82.221.103.244:6881"
    ∷ codes "87.98.162.88:6881"
    ∷ codes "212.129.33.59:6881"
    ∷ codes "34.203.221.232:6881"
    ∷ codes "185.157.221.247:25401"
    ∷ []

module _ (net : Net) where
  open net use {Ip, split_host_port, parse_ip, atoi}

  -- The package net parses an address of a host and a port.
  abbrev pub Parses : Text → Type 0
  Parses hp =
      (host : Text) × (port : Text) × (ip : Ip) × (p : ℤ) × (split_host_port hp ≡ some (host, port))
      × (parse_ip host ≡ some ip)
      × (atoi port ≡ some p)

  fallback-some :
      (hp : Text) (hps : List Text)
      → Parses hp
      → (a : Ip × ℤ) × (rest : List (Ip × ℤ)) × (fallback_nodes net (hp ∷ hps) ≡ a ∷ rest)
  unfolding fallback_nodes udp_addr
  fallback-some hp hps (host, port, ip, p, split, parsed, number) =
      let made : udp_addr net host port ≡ some (ip, p) = rw (parsed, udp_addr) (rw number refl) in
      (
        (ip, p),
        fallback_nodes net hps,
        rw (split, fallback_nodes) (ap (λ o. push net o (fallback_nodes net hps)) made),
      )

  -- All texts of the list are addresses that the package net parses.
  abbrev pub AllParse : List Text → Type 0
  AllParse [] = Unit
  AllParse (ip ∷ ips) = (is_some net (parse_ip ip) ≡ true) × AllParse ips

  a_records-AllParse : (answers : List (ℕ × Text)) → AllParse (a_records net answers)
  unfolding a_records
  a_records-AllParse [] = tt
  a_records-AllParse ((kind, text) ∷ rest) =
      elim (Bool-cases (kind == 1 && is_some net (parse_ip (trim_space text)))) [
        | inl good ↦ rw good (ground arith, a_records-AllParse rest)
        | inr bad ↦ rw bad (a_records-AllParse rest)
      ]

  module _ (request : Text → Text → Option (List (ℕ × Text))) where
    -- Whatever the requests over HTTPS give, there is a first node, if the package net parses the
    -- first of the fixed addresses.
    pub resolve_bootstrap_nodes-some :
        Parses (codes "67.215.246.10:6881")
        → (a : Ip × ℤ) × (rest : List (Ip × ℤ)) × (resolve_bootstrap_nodes net request ≡ a ∷ rest)
    unfolding resolve_bootstrap_nodes
    resolve_bootstrap_nodes-some h = go (resolve_hosts net request bootstrap_host_ports)
      where
        go :
            (found : List (Ip × ℤ))
            → (a : Ip × ℤ) × (rest : List (Ip × ℤ)) × ((elim found [
              | [] ↦ fallback_nodes net bootstrap_fallback_ips
              | a ∷ more ↦ a ∷ more
            ])
                ≡ a ∷ rest)
        go [] = fallback-some (codes "67.215.246.10:6881") others h
        go (a ∷ more) = (a, more, refl)

    doh_query-AllParse : (ep host : Text) → AllParse (doh_query net request ep host)
    unfolding doh_query
    doh_query-AllParse ep host = elim (Option-cases (request ep host)) [
      | inl failed ↦ rw (failed, AllParse) tt
      | inr (answers, given) ↦ rw (given, AllParse) (a_records-AllParse answers)
    ]

    -- What dohLookup gives are addresses that the package net parses, whatever the requests give.
    pub doh_lookup-AllParse :
        (eps : List Text) (host : Text) → AllParse (doh_lookup net request eps host)
    unfolding doh_lookup
    doh_lookup-AllParse [] host = tt
    doh_lookup-AllParse (ep ∷ eps) host =
        go (doh_query net request ep host) (doh_query-AllParse ep host)
          (doh_lookup-AllParse eps host)
      where
        go :
            (found : List Text)
            → AllParse found
            → AllParse (doh_lookup net request eps host)
            → AllParse (elim found [ [] ↦ doh_lookup net request eps host | ip ∷ ips ↦ ip ∷ ips ])
        go [] h later = later
        go (ip ∷ ips) h later = h

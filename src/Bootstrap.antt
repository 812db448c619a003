-- ===== src/Bootstrap.antt =====
-- internal/engine/bootstrap.go: the first nodes of the DHT, looked up over HTTPS, with fixed
-- addresses to fall back on. The package net parses addresses, and an HTTP request gives the
-- answers of its decoded body, or none; both are parameters.
pub mod Nodes
use p2pget.Prelude.{
  ℕ, zero, suc, List, [], ◌∷◌, ◌++◌, Bool, true, false, ◌&&◌, ◌==◌, if◌then◌else◌, ℤ, Option, none,
  some, Text, codes,
}
use p2pget.Strings.{trim_space}

-- `net.SplitHostPort`, `net.ParseIP` and `strconv.Atoi`.
pub record Net : Type 1 where
  pub Ip : Type 0
  pub split_host_port : Text → Option (Text × Text)
  pub parse_ip : Text → Option Ip
  pub atoi : Text → Option ℤ

-- `bootstrapHostPorts`
abbrev pub bootstrap_host_ports : List Text
bootstrap_host_ports =
    codes "router.utorrent.com:6881"
    ∷ codes "router.bittorrent.com:6881"
    ∷ codes "dht.transmissionbt.com:6881"
    ∷ codes "dht.aelitis.com:6881"
    ∷ codes "dht.libtorrent.org:25401"
    ∷ []

-- `bootstrapFallbackIPs`
abbrev pub bootstrap_fallback_ips : List Text
bootstrap_fallback_ips =
    codes "67.215.246.10:6881"
    ∷ codes "82.221.103.244:6881"
    ∷ codes "87.98.162.88:6881"
    ∷ codes "212.129.33.59:6881"
    ∷ codes "34.203.221.232:6881"
    ∷ codes "185.157.221.247:25401"
    ∷ []

-- `dohEndpoints`
abbrev pub doh_endpoints : List Text
doh_endpoints = codes "https://1.1.1.1/dns-query" ∷ codes "https://dns.google/resolve" ∷ []

module _ (net : Net) where
  open net use {Ip, split_host_port, parse_ip, atoi}

  -- `udpAddr`
  unfoldable pub udp_addr : Text → Text → Option (Ip × ℤ)
  udp_addr ip port = elim (parse_ip ip) [
    | none ↦ none
    | some parsed ↦ elim (atoi port) [ none ↦ none | some p ↦ some (parsed, p) ]
  ]

  abbrev pub push : Option (Ip × ℤ) → List (Ip × ℤ) → List (Ip × ℤ)
  push none rest = rest
  push (some a) rest = a ∷ rest

  -- `for _, ip := range dohLookup(…)`
  unfoldable pub addrs_of : Text → List Text → List (Ip × ℤ)
  unfolding udp_addr
  addrs_of port [] = []
  addrs_of port (ip ∷ ips) = push (udp_addr ip port) (addrs_of port ips)

  abbrev pub is_some : Option Ip → Bool
  is_some none = false
  is_some (some x) = true

  -- The loop of `dohQuery` over the answers, each with its type and its data.
  unfoldable pub a_records : List (ℕ × Text) → List Text
  a_records [] = []
  a_records ((kind, text) ∷ rest) =
      let ips = a_records rest in
      let ip = trim_space text in if kind == 1 && is_some (parse_ip ip) then ip ∷ ips else ips

  -- `fallbackNodes`, for the addresses that are left.
  unfoldable pub fallback_nodes : List Text → List (Ip × ℤ)
  unfolding udp_addr
  fallback_nodes [] = []
  fallback_nodes (hp ∷ hps) = elim (split_host_port hp) [
    | none ↦ fallback_nodes hps
    | some (host, port) ↦ push (udp_addr host port) (fallback_nodes hps)
  ]

  module _ (request : Text → Text → Option (List (ℕ × Text))) where
    -- `dohQuery`
    unfoldable pub doh_query : Text → Text → List Text
    unfolding a_records
    doh_query endpoint host = elim (request endpoint host) [
      | none ↦ []
      | some answers ↦ a_records answers
    ]

    -- `dohLookup`, for the endpoints that are left.
    unfoldable pub doh_lookup : List Text → Text → List Text
    doh_lookup [] host = []
    doh_lookup (ep ∷ eps) host = elim (doh_query ep host) [
      | [] ↦ doh_lookup eps host
      | ip ∷ ips ↦ ip ∷ ips
    ]

    -- The loop of `resolveBootstrapNodes`, for the hosts that are left.
    unfoldable pub resolve_hosts : List Text → List (Ip × ℤ)
    unfolding addrs_of doh_lookup
    resolve_hosts [] = []
    resolve_hosts (hp ∷ hps) = elim (split_host_port hp) [
      | none ↦ resolve_hosts hps
      | some (host, port) ↦ addrs_of port (doh_lookup doh_endpoints host) ++ resolve_hosts hps
    ]

    -- `resolveBootstrapNodes`
    unfoldable pub resolve_bootstrap_nodes : List (Ip × ℤ)
    unfolding resolve_hosts fallback_nodes
    resolve_bootstrap_nodes = elim (resolve_hosts bootstrap_host_ports) [
      | [] ↦ fallback_nodes bootstrap_fallback_ips
      | a ∷ more ↦ a ∷ more
    ]

    -- `bootstrapNodes`, with what `bootstrapOnce` has kept.
    unfoldable pub bootstrap_nodes : Option (List (Ip × ℤ)) → Option (List (Ip × ℤ)) × List (Ip × ℤ)
    bootstrap_nodes none = (some resolve_bootstrap_nodes, resolve_bootstrap_nodes)
    bootstrap_nodes (some kept) = (some kept, kept)

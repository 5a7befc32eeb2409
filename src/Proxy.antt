-- ===== src/Proxy.antt =====
-- internal/proxy/iptables.go: the script that keeps a workstation behind the proxy.
use Prim.Native.String.{String}
use painkiller.Prelude.{◌==◌, List, [], ◌∷◌, ◌++◌, Option, none, some, Text, codes, if◌then◌else◌}

-- `strings.SplitN(addr, ":", 2)`: the parts before and after the first colon, if there is one.
pub split_colon : Text → Option (Text × Text)
split_colon [] = none
split_colon (c ∷ s) =
    let rest = split_colon s in
    if c == b':'
    then some ([], s)
    else elim rest [ none ↦ none | some (host, port) ↦ some (c ∷ host, port) ]

unfoldable pub parse_addr : Text → Text × Text
unfolding split_colon
parse_addr addr = elim (split_colon addr) [
  | none ↦ (addr, codes "3128")
  | some (host, port) ↦ (host, port)
]

abbrev line : String → Text
line s = codes s ++ 10 ∷ []

cidr_rules : List Text → Text
cidr_rules [] = []
cidr_rules (cidr ∷ cidrs) =
    codes "iptables -A OUTPUT -d " ++ (cidr ++ (line " -j ACCEPT" ++ cidr_rules cidrs))

concat : List Text → Text
concat [] = []
concat (t ∷ ts) = t ++ concat ts

-- Up to the rules for the clusters.
preamble : Text
preamble = concat (
    line "#!/bin/bash"
    ∷ line "set -euo pipefail"
    ∷ line ""
    ∷ line "# Flush existing rules for ports 80 and 443"
    ∷ line "iptables -D OUTPUT -p tcp --dport 80 -j DROP 2>/dev/null || true"
    ∷ line "iptables -D OUTPUT -p tcp --dport 443 -j DROP 2>/dev/null || true"
    ∷ line "iptables -D OUTPUT -p tcp --dport 80 -j ACCEPT 2>/dev/null || true"
    ∷ line "iptables -D OUTPUT -p tcp --dport 443 -j ACCEPT 2>/dev/null || true"
    ∷ line ""
    ∷ line "# Allow DNS"
    ∷ line "iptables -A OUTPUT -p udp --dport 53 -j ACCEPT"
    ∷ line "iptables -A OUTPUT -p tcp --dport 53 -j ACCEPT"
    ∷ line ""
    ∷ line "# Allow traffic to cluster CIDRs"
    ∷ [])

-- Between the clusters' rules and the proxy's.
proxy_heading : Text
proxy_heading = concat (line "" ∷ line "# Allow traffic to proxy" ∷ [])

-- After the proxy's rule.
closing : Text
closing = concat (
    line ""
    ∷ line "# Allow loopback"
    ∷ line "iptables -A OUTPUT -o lo -j ACCEPT"
    ∷ line ""
    ∷ line "# Allow established connections"
    ∷ line "iptables -A OUTPUT -m state --state ESTABLISHED,RELATED -j ACCEPT"
    ∷ line ""
    ∷ line "# Block all other outbound HTTP/HTTPS"
    ∷ line "iptables -A OUTPUT -p tcp --dport 80 -j DROP"
    ∷ line "iptables -A OUTPUT -p tcp --dport 443 -j DROP"
    ∷ line ""
    ∷ line "# Persist rules"
    ∷ line "if command -v iptables-save >/dev/null 2>&1; then"
    ∷ line "  iptables-save > /etc/iptables/rules.v4 2>/dev/null || true"
    ∷ line "fi"
    ∷ [])

-- `GenerateIPTablesScript(cfg, clusterCIDRs)`, on `cfg.Addr`.
unfoldable pub generate_iptables_script : Text → List Text → Text
unfolding parse_addr cidr_rules concat preamble proxy_heading closing
generate_iptables_script addr cidrs =
    let (host, port) = parse_addr addr in
    preamble
    ++ (cidr_rules cidrs
        ++ (proxy_heading
            ++ (codes "iptables -A OUTPUT -p tcp -d "
                ++ (host ++ (codes " --dport " ++ (port ++ (line " -j ACCEPT" ++ closing)))))))

-- ===== src/Dial.antt =====
-- internal/vault/dial.go: the addresses that no request may reach, and resolve-then-pin.
pub mod Ranges
pub mod Pinning
pub mod Dialling
use joyvend_secretvault.Shared.{
  ℕ, ◌/◌, Bool, true, false, ◌&&◌, ◌||◌, Option, none, some, List, [], ◌∷◌, ◌==◌, if◌then◌else◌,
  length, take, map, any, Result, ok, err,
}
use joyvend_secretvault.Text.{Bytes, bytes_eq}
use joyvend_secretvault.Net.{
  Ip, to4, byte, is_loopback, is_unspecified, is_multicast, is_link_local_unicast,
  is_link_local_multicast, is_interface_local_multicast, is_private, Parsers,
}
use joyvend_secretvault.Net.HostPort.{split_host_port, join_host_port}
use joyvend_secretvault.Model.{FetchError, err_ssrf_blocked, err_dns}

abbrev pub nat64_net : Ip
nat64_net = 0 ∷ 0x64 ∷ 0xff ∷ 0x9b ∷ 0 ∷ 0 ∷ 0 ∷ 0 ∷ 0 ∷ 0 ∷ 0 ∷ 0 ∷ []

-- nat64Prefix.Contains: 64:ff9b::/96, an IPv6 network, so no IPv4 address is in it.
unfoldable pub in_nat64 : Ip → Bool
unfolding to4
in_nat64 ip = elim (to4 ip) [
  | some v4 ↦ false
  | none ↦ length ip == 16 && bytes_eq (take 12 ip) nat64_net
]

-- cgnat.Contains: 100.64.0.0/10
unfoldable pub in_cgnat : Ip → Bool
unfolding to4
in_cgnat ip = elim (to4 ip) [ some v4 ↦ byte v4 0 == 100 && byte v4 1 / 64 == 1 | none ↦ false ]

-- The tests of `isDeniedIP` on the address that `To4` has reduced.
unfoldable pub denied_reduced : Ip → Bool → Bool
unfolding is_loopback is_link_local_unicast is_link_local_multicast is_multicast is_unspecified
    is_interface_local_multicast in_nat64 is_private in_cgnat
denied_reduced ip allow_private =
    if is_loopback ip
      || is_link_local_unicast ip
      || is_link_local_multicast ip
      || is_multicast ip
      || is_unspecified ip
      || is_interface_local_multicast ip
    then true
    else if in_nat64 ip
    then true
    else if allow_private
    then false
    else is_private ip || in_cgnat ip

-- `none` is the nil address.
unfoldable pub is_denied_ip : Option Ip → Bool → Bool
unfolding denied_reduced
is_denied_ip none allow_private = true
is_denied_ip (some ip) allow_private = elim (to4 ip) [
  | some v4 ↦ denied_reduced v4 allow_private
  | none ↦ denied_reduced ip allow_private
]

-- What the resolver answers: an error, or addresses.
abbrev pub Resolver : Type 0
Resolver = Bytes → Option (List Ip)

-- denyFunc, which a test may replace
abbrev pub Deny : Type 0
Deny = Option Ip → Bool → Bool

-- The part of `resolveAndPin` behind the resolver.
unfoldable pub pin_first : Deny → Bool → List Ip → Result FetchError Ip
pin_first deny allow_private [] = err err_dns
pin_first deny allow_private (ip ∷ ips) =
    if any (λ x. deny (some x) allow_private) (ip ∷ ips) then err err_ssrf_blocked else ok ip

unfoldable pub resolve_and_pin : Parsers → Resolver → Deny → Bytes → Bool → Result FetchError Ip
unfolding pin_first
resolve_and_pin p resolve deny host allow_private = elim (p.parse_ip host) [
  | some lit ↦ if deny (some lit) allow_private then err err_ssrf_blocked else ok lit
  | none ↦ elim (resolve host) [ none ↦ err err_dns | some ips ↦ pin_first deny allow_private ips ]
]

-- defaultResolve, from the answer of the system's resolver: addresses with their zones, or an error.
unfoldable pub default_resolve : (Bytes → Option (List (Ip × Bytes))) → Resolver
default_resolve lookup_ip_addr host = elim (lookup_ip_addr host) [
  | none ↦ none
  | some addrs ↦ some (map (λ a. a.0) addrs)
]

-- pinnedDialContext: the address that is dialled in place of the one that the transport asks for, or
-- `none` for a bad one.
unfoldable pub pinned_dial : Parsers → Ip → Bytes → Option Bytes
unfolding split_host_port join_host_port
pinned_dial p pinned addr = elim (split_host_port addr) [
  | none ↦ none
  | some (host, port) ↦ some (join_host_port (p.ip_string pinned) port)
]

-- ===== src/Net.antt =====
-- What the program uses of Go's packages `net` and `net/url`: addresses as byte slices with the
-- tests of `net.IP`, and the parsers of addresses, hosts and URLs as parameters.
pub mod HostPort
use joyvend_secretvault.Shared.{
  ℕ, ◌/◌, Bool, ◌&&◌, ◌||◌, Option, none, some, List, [], ◌∷◌, ◌==◌, if◌then◌else◌, length, take,
  drop,
}
use joyvend_secretvault.Text.{Bytes, bytes_eq, Unicode}

-- net.IP: 4 or 16 bytes; another length is the invalid address.
abbrev pub Ip : Type 0
Ip = List ℕ

abbrev pub mapped_prefix : Ip
mapped_prefix = 0 ∷ 0 ∷ 0 ∷ 0 ∷ 0 ∷ 0 ∷ 0 ∷ 0 ∷ 0 ∷ 0 ∷ 0xff ∷ 0xff ∷ []

abbrev pub loopback6 : Ip
loopback6 = 0 ∷ 0 ∷ 0 ∷ 0 ∷ 0 ∷ 0 ∷ 0 ∷ 0 ∷ 0 ∷ 0 ∷ 0 ∷ 0 ∷ 0 ∷ 0 ∷ 0 ∷ 1 ∷ []

abbrev pub unspecified6 : Ip
unspecified6 = 0 ∷ 0 ∷ 0 ∷ 0 ∷ 0 ∷ 0 ∷ 0 ∷ 0 ∷ 0 ∷ 0 ∷ 0 ∷ 0 ∷ 0 ∷ 0 ∷ 0 ∷ 0 ∷ []

-- IP.To4: the four bytes of an IPv4 address, also of one that is mapped into IPv6.
unfoldable pub to4 : Ip → Option Ip
unfolding bytes_eq
to4 ip =
    if length ip == 4
    then some ip
    else (if length ip == 16 && bytes_eq (take 12 ip) mapped_prefix
        then some (drop 12 ip)
        else none)

-- The byte at an index that the length of the address allows.
abbrev pub byte : Ip → ℕ → ℕ
byte [] i = 0
byte (b ∷ bs) ℕ.zero = b
byte (b ∷ bs) (ℕ.suc i) = byte bs i

-- The body of each test behind its `To4`: on the four bytes, or on an address that is not IPv4.
abbrev pub by_family : (Ip → Bool) → (Ip → Bool) → Ip → Bool
by_family v4 v6 ip = elim (to4 ip) [ some four ↦ v4 four | none ↦ v6 ip ]

unfoldable pub is_loopback : Ip → Bool
unfolding to4
is_loopback = by_family (λ ip. byte ip 0 == 127) (λ ip. bytes_eq ip loopback6)

unfoldable pub is_unspecified : Ip → Bool
unfolding to4
is_unspecified = by_family (λ ip. bytes_eq ip (0 ∷ 0 ∷ 0 ∷ 0 ∷ [])) (λ ip. bytes_eq ip unspecified6)

unfoldable pub is_multicast : Ip → Bool
unfolding to4
is_multicast = by_family (λ ip. byte ip 0 / 16 == 14) (λ ip. length ip == 16 && byte ip 0 == 0xff)

unfoldable pub is_link_local_unicast : Ip → Bool
unfolding to4
is_link_local_unicast =
    by_family (λ ip. byte ip 0 == 169 && byte ip 1 == 254)
      (λ ip. length ip == 16 && byte ip 0 == 0xfe && byte ip 1 / 64 == 2)

unfoldable pub is_link_local_multicast : Ip → Bool
unfolding to4
is_link_local_multicast =
    by_family (λ ip. byte ip 0 == 224 && byte ip 1 == 0 && byte ip 2 == 0)
      (λ ip. length ip == 16 && byte ip 0 == 0xff && Prim.Native.Nat.◌%◌ (byte ip 1) 16 == 2)

unfoldable pub is_interface_local_multicast : Ip → Bool
is_interface_local_multicast ip =
    length ip == 16 && byte ip 0 == 0xff && Prim.Native.Nat.◌%◌ (byte ip 1) 16 == 1

unfoldable pub is_private : Ip → Bool
unfolding to4
is_private =
    by_family
      (λ ip.
        byte ip 0 == 10
        || (byte ip 0 == 172 && byte ip 1 / 16 == 1)
        || (byte ip 0 == 192 && byte ip 1 == 168))
      (λ ip. length ip == 16 && byte ip 0 / 2 == 126)

-- The parts of a parsed `url.URL` that the program reads.
pub record Url : Type 0 where
  pub scheme : Bytes
  pub has_user : Bool
  pub host : Bytes
  pub hostname : Bytes
  pub port : Bytes
  pub address : Bytes  -- u.String()

-- The parsers, which are Go's or those of golang.org/x/net/idna.
pub record Parsers : Type 0 where
  pub unicode : Unicode
  pub open unicode use *
  pub parse_ip : Bytes → Option Ip  -- net.ParseIP
  pub ip_string : Ip → Bytes  -- IP.String
  pub to_ascii : Bytes → Option Bytes  -- idna.Lookup.ToASCII
  pub parse_url : Bytes → Option Url  -- url.Parse

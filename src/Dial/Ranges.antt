-- ===== src/Dial/Ranges.antt =====
-- `isDeniedIP` against a table of networks in CIDR notation, IPv4 and IPv6.
use joyvend_secretvault.Shared.{
  ℕ, zero, suc, ◌-◌, ◌/◌, ◌^◌, ◌≡◌, ◌⊎◌, inl, inr, Bool, true, false, not, ◌&&◌, ◌||◌, none, some,
  List, [], ◌∷◌, ◌++◌, arith, ◌==◌, leb, any, length, drop, if◌then◌else◌, Bool-cases,
}
use joyvend_secretvault.Net.{
  Ip, to4, mapped_prefix, is_loopback, is_unspecified, is_multicast, is_link_local_unicast,
  is_link_local_multicast, is_interface_local_multicast, is_private,
}
use joyvend_secretvault.Dial.{in_nat64, in_cgnat, denied_reduced, is_denied_ip}

-- The first `bits` bits of the two addresses are the same.
abbrev pub same_bits : ℕ → Ip → Ip → Bool
same_bits bits (b ∷ base) (x ∷ ip) =
    let rest = same_bits (bits - 8) base ip in
    if leb 8 bits
    then x == b && rest
    else if bits == 0
    then true
    else x / 2 ^ (8 - bits) == b / 2 ^ (8 - bits)
same_bits bits base ip = true

-- A network: an address in it, and how many of its bits are the network's.
abbrev pub Cidr : Type 0
Cidr = Ip × ℕ

abbrev pub in_range : Ip → Cidr → Bool
in_range ip (base, bits) = length ip == length base && same_bits bits base ip

abbrev zeros6 : Ip
zeros6 = 0 ∷ 0 ∷ 0 ∷ 0 ∷ 0 ∷ 0 ∷ []

abbrev address6 : ℕ → ℕ → Ip → Ip
address6 a b last = a ∷ b ∷ 0 ∷ 0 ∷ (zeros6 ++ last)

-- 127/8, 169.254/16, 224/4 and 0.0.0.0; ::1, ::, fe80::/10 and ff00::/8; NAT64, 64:ff9b::/96.
abbrev pub always_denied : List Cidr
always_denied =
    (127 ∷ 0 ∷ 0 ∷ 0 ∷ [], 8)
    ∷ (169 ∷ 254 ∷ 0 ∷ 0 ∷ [], 16)
    ∷ (224 ∷ 0 ∷ 0 ∷ 0 ∷ [], 4)
    ∷ (0 ∷ 0 ∷ 0 ∷ 0 ∷ [], 32)
    ∷ (address6 0 0 zeros6, 128)
    ∷ (address6 0 0 (0 ∷ 0 ∷ 0 ∷ 0 ∷ 0 ∷ 1 ∷ []), 128)
    ∷ (address6 0xfe 0x80 zeros6, 10)
    ∷ (address6 0xff 0 zeros6, 8)
    ∷ (0 ∷ 0x64 ∷ 0xff ∷ 0x9b ∷ zeros6 ++ zeros6, 96)
    ∷ []

-- 10/8, 172.16/12, 192.168/16, the shared space 100.64/10, and fc00::/7.
abbrev pub denied_unless_private : List Cidr
denied_unless_private =
    (10 ∷ 0 ∷ 0 ∷ 0 ∷ [], 8)
    ∷ (172 ∷ 16 ∷ 0 ∷ 0 ∷ [], 12)
    ∷ (192 ∷ 168 ∷ 0 ∷ 0 ∷ [], 16)
    ∷ (100 ∷ 64 ∷ 0 ∷ 0 ∷ [], 10)
    ∷ (address6 0xfc 0 zeros6, 7)
    ∷ []

abbrev mapped : Cidr
mapped = (mapped_prefix ++ 0 ∷ 0 ∷ 0 ∷ 0 ∷ [], 96)

-- ::ffff:a.b.c.d is the IPv4 address a.b.c.d.
abbrev pub unmapped : Ip → Ip
unmapped ip = if in_range ip mapped then drop 12 ip else ip

abbrev pub listed : Ip → Bool → Bool
listed ip priv =
    any (in_range ip) always_denied || (not priv && any (in_range ip) denied_unless_private)

listed4 :
    (a b c d : ℕ) (priv : Bool)
    → denied_reduced (a ∷ b ∷ c ∷ d ∷ []) priv ≡ listed (a ∷ b ∷ c ∷ d ∷ []) priv
unfolding denied_reduced
listed4 a b c d priv = ground arith

module _ (a b c d e f g h i j k l m n o p : ℕ) (priv : Bool) where
  abbrev ip6 : Ip
  ip6 = a ∷ b ∷ c ∷ d ∷ e ∷ f ∷ g ∷ h ∷ i ∷ j ∷ k ∷ l ∷ m ∷ n ∷ o ∷ p ∷ []

  four_bytes : in_range ip6 mapped ≡ true → to4 ip6 ≡ some (m ∷ n ∷ o ∷ p ∷ [])
  unfolding to4
  four_bytes q = ground arith

  sixteen_bytes : in_range ip6 mapped ≡ false → to4 ip6 ≡ none
  unfolding to4
  sixteen_bytes q = ground arith

  listed6 : in_range ip6 mapped ≡ false → denied_reduced ip6 priv ≡ listed ip6 priv
  unfolding denied_reduced is_loopback is_unspecified is_multicast is_link_local_unicast
      is_link_local_multicast is_interface_local_multicast is_private in_nat64 in_cgnat
  listed6 q = ground arith

  listed_address : is_denied_ip (some ip6) priv ≡ listed (unmapped ip6) priv
  unfolding is_denied_ip
  listed_address = elim (Bool-cases (in_range ip6 mapped)) [
    | inl q ↦ rw (four_bytes q, q, is_denied_ip, unmapped) (listed4 m n o p priv)
    | inr q ↦ rw (sixteen_bytes q, q, is_denied_ip, unmapped) (listed6 q)
  ]

listed_address4 :
    (a b c d : ℕ) (priv : Bool)
    → is_denied_ip (some (a ∷ b ∷ c ∷ d ∷ [])) priv ≡ listed (unmapped (a ∷ b ∷ c ∷ d ∷ [])) priv
unfolding is_denied_ip to4
listed_address4 a b c d priv = listed4 a b c d priv

-- What holds of the lists with n elements, one by one, holds of each list of that length.
abbrev ForAll : ℕ → (Ip → Type 0) → Type 0
ForAll zero P = P []
ForAll (suc n) P = (x : ℕ) → ForAll n (λ xs. P (x ∷ xs))

of_length : (n : ℕ) (P : Ip → Type 0) → ForAll n P → (xs : Ip) → length xs ≡ n → P xs
of_length zero P h [] e = h
of_length zero P h (x ∷ xs) e = absurd (omega arith)
of_length (suc n) P h [] e = absurd (omega arith)
of_length (suc n) P h (x ∷ xs) e = of_length n (λ ys. P (x ∷ ys)) (h x) xs (omega arith)

-- An address of 4 or of 16 bytes, in IPv6 or mapped into it, is denied exactly if it lies in a
-- network that is always denied, or the credential does not allow private addresses and it lies in one
-- of the private networks. A mapped address counts as the IPv4 address that it stands for.
pub is_denied_ip_ranges :
    (ip : Ip) (priv : Bool)
    → (length ip ≡ 4) ⊎ (length ip ≡ 16)
    → is_denied_ip (some ip) priv
      ≡ any (in_range (unmapped ip)) always_denied
        || (not priv && any (in_range (unmapped ip)) denied_unless_private)
is_denied_ip_ranges ip priv (inl four) =
    of_length 4 (λ x. is_denied_ip (some x) priv ≡ listed (unmapped x) priv)
      (λ a b c d. listed_address4 a b c d priv) ip four
is_denied_ip_ranges ip priv (inr sixteen) =
    of_length 16 (λ x. is_denied_ip (some x) priv ≡ listed (unmapped x) priv)
      (λ a b c d e f g h i j k l m n o p. listed_address a b c d e f g h i j k l m n o p priv) ip
      sixteen

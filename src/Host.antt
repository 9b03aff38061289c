-- ===== src/Host.antt =====
-- internal/vault/host.go: host names in canonical form, and the allowlist.
pub mod Allowlist
pub mod Numeric
pub mod Canonical
use joyvend_secretvault.Shared.{
  ℕ, ◌+◌, Bool, true, false, not, ◌&&◌, ◌||◌, Option, none, some, List, [], ◌∷◌, ◌++◌, leb, ltb,
  ◌==◌, if◌then◌else◌, length, any, is_empty, Result, ok, err, ◌>>=◌, from_option,
}
use joyvend_secretvault.Text.{
  Bytes, text, bytes_eq, cut_prefix, has_prefix, has_suffix, trim_suffix, to_lower, trim_space,
  Unicode, is_digit,
}
use joyvend_secretvault.Net.{Ip, to4, Parsers}

pub data HostError : Type 0 where
  empty_host ambiguous_numeric invalid_idna : HostError

abbrev pub dot : Bytes
dot = b'.' ∷ []

abbrev pub star_dot : Bytes
star_dot = b'*' ∷ b'.' ∷ []

-- The bytes of the second case of the `switch`: dotted or hexadecimal.
abbrev pub is_hexish : ℕ → Bool
is_hexish c = c == b'.' || (leb b'a' c && leb c b'f') || c == b'x'

-- The loop of `looksNumericHost`, with its two flags.
unfoldable pub scan_numeric : Bytes → Bool → Bool → Bool × Bool
scan_numeric [] all_numericish has_digit = (all_numericish, has_digit)
scan_numeric (c ∷ h) all_numericish has_digit =
    scan_numeric h (if is_digit c || is_hexish c then all_numericish else false)
      (if is_digit c then true else has_digit)

-- The letters of the `ContainsAny`: g to z without x.
abbrev pub is_plain_letter : ℕ → Bool
is_plain_letter c = leb b'g' c && leb c b'z' && not (c == b'x')

unfoldable pub looks_numeric_host : Bytes → Bool
unfolding scan_numeric has_prefix
looks_numeric_host h =
    if has_prefix h (text "0x")
    then true
    else (let (all_numericish, has_digit) = scan_numeric h true false in
        has_digit && all_numericish && not (any is_plain_letter h))

module _ (p : Parsers) where
  unfoldable pub canonical_ip : Ip → Bytes
  canonical_ip ip = elim (to4 ip) [ some v4 ↦ p.ip_string v4 | none ↦ p.ip_string ip ]

  -- The part of `normalizeHost` behind the second test for the empty host.
  unfoldable pub classify_host : Bytes → Result HostError Bytes
  unfolding canonical_ip looks_numeric_host
  classify_host h = elim (p.parse_ip h) [
    | some ip ↦ ok (canonical_ip ip)
    | none ↦
        if looks_numeric_host h
        then err ambiguous_numeric
        else from_option (p.to_ascii h) invalid_idna
  ]

  unfoldable pub normalize_host : Bytes → Result HostError Bytes
  unfolding classify_host
  normalize_host h =
      if is_empty h
      then err empty_host
      else (let lowered = to_lower p.unicode (trim_suffix h dot) in
          if is_empty lowered then err empty_host else classify_host lowered)

  unfoldable pub normalize_pattern : Bytes → Result HostError Bytes
  unfolding normalize_host
  normalize_pattern pat = elim (cut_prefix pat star_dot) [
    | some rest ↦ (normalize_host rest >>= λ base. ok (star_dot ++ base))
    | none ↦ normalize_host pat
  ]

-- One round of the loop of `hostAllowed`, on a pattern in canonical form.
unfoldable pub pattern_admits : Bytes → Bytes → Bool
pattern_admits host np = elim (cut_prefix np star_dot) [
  | some base ↦ has_suffix host (dot ++ base) && ltb (length base + 1) (length host)
  | none ↦ bytes_eq host np
]

-- A pattern that has no canonical form is passed over.
unfoldable pub admits_if_ok : Bytes → Result HostError Bytes → Bool
unfolding pattern_admits
admits_if_ok host (ok np) = pattern_admits host np
admits_if_ok host (err e) = false

unfoldable pub host_allowed : Parsers → Bytes → List Bytes → Bool
unfolding admits_if_ok normalize_pattern
host_allowed p host [] = false
host_allowed p host (pat ∷ patterns) =
    admits_if_ok host (normalize_pattern p pat) || host_allowed p host patterns

-- Header names that no credential may inject under its own name.
unfoldable pub is_reserved_header : Unicode → Bytes → Bool
is_reserved_header u name = any (bytes_eq (to_lower u (trim_space u name))) (
    text "authorization"
    ∷ text "proxy-authorization"
    ∷ text "cookie"
    ∷ text "host"
    ∷ text "content-length"
    ∷ [])

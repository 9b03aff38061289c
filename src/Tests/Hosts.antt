-- ===== src/Tests/Hosts.antt =====
-- The theorems on hosts and addresses, at concrete inputs.
use joyvend_secretvault.Shared.{
  ◌≡◌, ◌≢◌, refl, ◌↔◌, true, false, ◌&&◌, ◌||◌, not, some, List, [], ◌∷◌, ◌++◌, map, any, all, Any,
  inr, ok,
}
use joyvend_secretvault.Text.{Bytes, text, has_prefix, has_suffix, is_digit, lower_byte}
use joyvend_secretvault.Net.{Ip, mapped_prefix}
use joyvend_secretvault.Host.{
  dot, normalize_host, normalize_pattern, host_allowed, looks_numeric_host,
}
use joyvend_secretvault.Host.Allowlist.{Admits, host_allowed_iff}
use joyvend_secretvault.Host.Numeric.{is_numericish, looks_numeric_host_lem}
use joyvend_secretvault.Host.Canonical.{normalize_host_folds}
use joyvend_secretvault.Net.HostPort.{split_host_port, join_host_port}
use joyvend_secretvault.Dial.{is_denied_ip, pinned_dial}
use joyvend_secretvault.Dial.Dialling.{split_host_port-pinned_dial}
use joyvend_secretvault.Dial.Ranges.{
  in_range, unmapped, always_denied, denied_unless_private, is_denied_ip_ranges,
}
use joyvend_secretvault.Tests.Fixtures.{small_parsers, api_host}

abbrev patterns : List Bytes
patterns = text "api.y.io" ∷ text "*.x.io" ∷ []

host_allowed_iff_example :
    (host_allowed small_parsers api_host patterns ≡ true)
    ↔ Any
        (λ pat. (np : Bytes) × (normalize_pattern small_parsers pat ≡ ok np) × Admits api_host np)
        patterns
host_allowed_iff_example = host_allowed_iff small_parsers api_host patterns

looks_numeric_host_lem_example :
    looks_numeric_host (text "abc123.de")
    ≡ has_prefix (text "abc123.de") (text "0x")
      || (any is_digit (text "abc123.de") && all is_numericish (text "abc123.de"))
looks_numeric_host_lem_example = looks_numeric_host_lem (text "abc123.de")

abbrev mixed_host : Bytes
mixed_host = text "Api.X.io"

mixed_host_some : mixed_host ≢ []
mixed_host_some e = cc

mixed_host_no_dot : has_suffix mixed_host dot ≡ false
unfolding has_suffix
mixed_host_no_dot = refl

normalize_host_folds_example :
    (normalize_host small_parsers (map lower_byte mixed_host)
      ≡ normalize_host small_parsers mixed_host)
    × (normalize_host small_parsers (mixed_host ++ dot) ≡ normalize_host small_parsers mixed_host)
    × (normalize_host small_parsers (map lower_byte mixed_host ++ dot)
        ≡ normalize_host small_parsers mixed_host)
normalize_host_folds_example =
    normalize_host_folds small_parsers mixed_host refl mixed_host_some mixed_host_no_dot

abbrev public_ip : Ip
public_ip = 93 ∷ 184 ∷ 216 ∷ 34 ∷ []

-- ::ffff:100.64.3.4
abbrev shared_ip : Ip
shared_ip = mapped_prefix ++ 100 ∷ 64 ∷ 3 ∷ 4 ∷ []

is_denied_ip_ranges_example :
    is_denied_ip (some shared_ip) true
    ≡ any (in_range (unmapped shared_ip)) always_denied
      || (not true && any (in_range (unmapped shared_ip)) denied_unless_private)
is_denied_ip_ranges_example = is_denied_ip_ranges shared_ip true (inr refl)

split_host_port-pinned_dial_example :
    (dialled : Bytes) × (pinned_dial small_parsers public_ip
        (join_host_port (text "2001:db8::1") (text "443"))
      ≡ some dialled)
    × (split_host_port dialled ≡ some (small_parsers.ip_string public_ip, text "443"))
split_host_port-pinned_dial_example =
    split_host_port-pinned_dial small_parsers public_ip (text "2001:db8::1") (text "443") refl refl
      refl refl

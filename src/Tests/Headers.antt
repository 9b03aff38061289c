-- ===== src/Tests/Headers.antt =====
-- The theorems on headers, on the reflect-guard, on credentials and on the rate
-- limiter, at concrete inputs.
use joyvend_secretvault.Shared.{
  ◌≤◌, ◌≡◌, refl, ◌↔◌, inl, true, none, some, List, pos, min, [], ◌∷◌, ◌++◌, ok, arith,
  if◌then◌else◌, length, All,
}
use joyvend_secretvault.Codec.{encode_hex}
use joyvend_secretvault.Text.{Bytes, text, bytes_eq, to_lower, trim_space}
use joyvend_secretvault.Maps.{Map, lookup}
use joyvend_secretvault.Model.{unset, header, Credential}
use joyvend_secretvault.Auth.{Header, canonical_key, build_headers, inject_auth, inject_header_name}
use joyvend_secretvault.Auth.Stripping.{IsLeft}
use joyvend_secretvault.Auth.Injection.{wire_value, kept_value, inject_auth-build_headers}
use joyvend_secretvault.Reflect.{secret_needles, contains_any}
use joyvend_secretvault.Reflect.Guarding.{lower_hex, encode_as, contains_any-secret_needles}
use joyvend_secretvault.Validate.{validate_credential}
use joyvend_secretvault.Validate.Accepted.{IsValid, filled, validate_credential-ok_iff}
use joyvend_secretvault.Limiter.{Bucket}
use joyvend_secretvault.Limiter.Burst.{CountsExactly, calls_for, run_limiter, run_limiter-calls_for}
use joyvend_secretvault.Tests.Fixtures.{
  fixed_point, plain_unicode, small_parsers, bearer_credential, secret_value,
}

-- One header of the agent's is stripped, the other is left.
abbrev agent : Map Bytes
agent = (text "authorization", text "mine") ∷ (text "X-Id", text "7") ∷ []

abbrev left : Header
left = (text "X-Id", text "7" ∷ []) ∷ []

abbrev header_credential : Credential
header_credential = record bearer_credential { auth_type = header; header_name = text "X-Key" }

built : build_headers plain_unicode agent (inject_header_name bearer_credential) ≡ ok left
unfolding build_headers inject_header_name
built = refl

inject_auth-build_headers_example :
    (lookup (text "X-Id") (inject_auth bearer_credential left).0 ≡ (
      if bytes_eq (canonical_key (inject_header_name bearer_credential)) (text "X-Id")
      then some (wire_value bearer_credential.auth_type bearer_credential)
      else kept_value plain_unicode
          (to_lower plain_unicode (trim_space plain_unicode (inject_header_name bearer_credential)))
          (text "X-Id")
          agent
          none))
    × All
        (IsLeft (
          to_lower plain_unicode (trim_space plain_unicode (inject_header_name bearer_credential))))
        left
inject_auth-build_headers_example =
    inject_auth-build_headers plain_unicode agent bearer_credential left (text "X-Id") tt built

long_enough : 6 ≤ length (encode_as lower_hex secret_value)
unfolding encode_hex
long_enough = omega arith

contains_any-secret_needles_example :
    contains_any
      (text "say " ++ (encode_as lower_hex secret_value ++ text "!"))
      (secret_needles (secret_value ∷ []))
    ≡ true
contains_any-secret_needles_example =
    contains_any-secret_needles lower_hex secret_value (text "say ") (text "!") (secret_value ∷ [])
      (inl refl) refl long_enough

-- One that leaves the tier of reads open.
abbrev untiered : Credential
untiered = record bearer_credential { read_tier = unset }

validate_credential-ok_iff_example :
    (validate_credential small_parsers (some untiered) ≡ ok bearer_credential)
    ↔ (IsValid small_parsers bearer_credential × (bearer_credential ≡ filled untiered))
validate_credential-ok_iff_example =
    validate_credential-ok_iff small_parsers untiered bearer_credential

fixed_point_exact : CountsExactly fixed_point 2
fixed_point_exact = record {
  no_refill = λ k h. omega arith;
  less_exact = λ j k hj hk. ground arith;
  one_less = λ k h. omega arith;
}

abbrev at_once : List Bytes
at_once = text "a" ∷ text "a" ∷ text "b" ∷ text "a" ∷ []

not_there : lookup {V = Bucket} (text "a") [] ≡ none
unfolding lookup
not_there = refl

run_limiter-calls_for_example :
    (run_limiter fixed_point (λ n. pos 2) (text "a") 7 at_once []).1
    ≡ min (calls_for (text "a") at_once) 2
run_limiter-calls_for_example =
    run_limiter-calls_for fixed_point 2 7 (λ n. pos 2) (text "a") at_once [] (omega arith)
      fixed_point_exact refl not_there

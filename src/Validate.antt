-- ===== src/Validate.antt =====
-- internal/vault/validate.go: the shape that a credential must have to be stored.
pub mod Accepted
use joyvend_secretvault.Shared.{
  ℕ, ◌+◌, Bool, true, false, not, ◌&&◌, ◌||◌, Option, none, some, List, [], ◌∷◌, leb, ltb, ◌==◌,
  if◌then◌else◌, length, take, all, is_empty, is_some, Result, ok, err, ◌>>=◌, ◌>>◌, guard, map_err,
}
use joyvend_secretvault.Text.{Bytes, text, bytes_eq, is_digit, is_upper, is_lower}
use joyvend_secretvault.Net.{Parsers}
use joyvend_secretvault.Host.{HostError, normalize_pattern, is_reserved_header}
use joyvend_secretvault.Model.{
  AuthType, bearer, header, basic, custom, unknown, Tier, unset, auto, confirm, deny, other,
  Credential,
}
use joyvend_secretvault.Auth.{placeholder}

-- One constructor for each message.
pub data ValidationError : Type 0 where
  nil_credential bearer_needs_secret header_needs_fields header_is_reserved : ValidationError
  basic_needs_fields custom_needs_secret custom_needs_placeholder : ValidationError
  no_allow_hosts bad_read_tier bad_write_tier : ValidationError
  unknown_type : Bytes → ValidationError
  invalid_host : HostError → ValidationError

abbrev pub is_name_start : ℕ → Bool
is_name_start c = is_upper c || is_lower c || is_digit c

abbrev pub is_name_byte : ℕ → Bool
is_name_byte c = is_name_start c || c == b'.' || c == b'_' || c == b'-'

-- nameRe: ^[A-Za-z0-9][A-Za-z0-9._-]{0,63}$
unfoldable pub matches_name : Bytes → Bool
matches_name [] = false
matches_name (c ∷ s) = is_name_start c && all is_name_byte s && leb (length s) 63

-- The loop of `indexOf` from position i, where `s` is what stands there.
unfoldable pub index_from : Bytes → Bytes → ℕ → Option ℕ
unfolding bytes_eq
index_from [] sub i = if is_empty sub then some i else none
index_from (c ∷ s) sub i =
    let later = index_from s sub (i + 1) in
    if leb (length sub) (length (c ∷ s)) && bytes_eq (take (length sub) (c ∷ s)) sub
    then some i
    else later

unfoldable pub index_of : Bytes → Bytes → Option ℕ
unfolding index_from
index_of s sub = index_from s sub 0

unfoldable pub contains_secret_placeholder : Bytes → Bool
unfolding index_of
contains_secret_placeholder t = ltb 0 (length t) && is_some (index_of t placeholder)

-- The first `switch`: what each auth type needs.
unfoldable pub check_auth : Parsers → AuthType → Credential → Result ValidationError (Unit {0})
check_auth p bearer c = guard (not (is_empty c.secret)) bearer_needs_secret
check_auth p header c = do
  guard (not (is_empty c.secret || is_empty c.header_name)) header_needs_fields
  guard (not (is_reserved_header p.unicode c.header_name)) header_is_reserved
check_auth p basic c = guard (not (is_empty c.username || is_empty c.secret)) basic_needs_fields
check_auth p custom c = do
  guard (not (is_empty c.secret)) custom_needs_secret
  guard (contains_secret_placeholder c.template) custom_needs_placeholder
check_auth p (unknown t) c = err (unknown_type t)

unfoldable pub check_hosts : Parsers → List Bytes → Result ValidationError (Unit {0})
check_hosts p [] = ok tt
check_hosts p (h ∷ hosts) = do _ ← map_err invalid_host (normalize_pattern p h); check_hosts p hosts

unfoldable pub fill_read_tier : Tier → Result ValidationError Tier
fill_read_tier unset = ok auto
fill_read_tier auto = ok auto
fill_read_tier confirm = ok confirm
fill_read_tier _ = err bad_read_tier

unfoldable pub fill_write_tier : Tier → Result ValidationError Tier
fill_write_tier unset = ok confirm
fill_write_tier auto = ok auto
fill_write_tier confirm = ok confirm
fill_write_tier deny = ok deny
fill_write_tier (other t) = err bad_write_tier

-- The credential with its default tiers filled in; `none` is the nil pointer.
unfoldable pub validate_credential : Parsers → Option Credential → Result ValidationError Credential
validate_credential p none = err nil_credential
validate_credential p (some c) = do
  check_auth p c.auth_type c
  guard (not (is_empty c.allow_hosts)) no_allow_hosts
  check_hosts p c.allow_hosts
  read ← fill_read_tier c.read_tier
  write ← fill_write_tier c.write_tier
  ok (record c { read_tier = read; write_tier = write })

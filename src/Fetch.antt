-- ===== src/Fetch.antt =====
-- internal/vault/fetch.go: the request and response of a fetch, and the steps of the pipeline. They
-- are composed in Fetch/Pipeline.antt.
pub mod Pipeline
pub mod Admission
pub mod Sending
pub mod Authorising
pub mod Returning
pub mod Answering
pub mod Logging
pub mod Keeping
pub mod Order
pub mod Cutting
pub mod Egress
use joyvend_secretvault.Shared.{
  ℕ, ◌+◌, Bool, true, false, not, ◌&&◌, ◌||◌, Option, none, some, List, [], ◌∷◌, map, ltb,
  if◌then◌else◌, length, take, any, is_empty, Result, ok, err, ◌>>=◌, ◌>>◌, guard, from_option,
  map_err, ℤ, pos_part,
}
use joyvend_secretvault.Text.{Bytes, text, bytes_eq, contains, lower_byte, to_upper, trim_space}
use joyvend_secretvault.Maps.{Map}
use joyvend_secretvault.Net.{Ip, Url, Parsers}
use joyvend_secretvault.Host.{HostError, normalize_host, host_allowed}
use joyvend_secretvault.Dial.{Resolver, Deny, resolve_and_pin}
use joyvend_secretvault.Model.{
  Credential, Tier, unset, auto, confirm, deny, other, Decision, allowed, denied, blocked,
  confirmed, FetchError, err_no_cred, err_cred_disabled, err_cred_expired, err_bad_url,
  err_insecure, err_not_allowed, err_denied, err_approval,
}
use joyvend_secretvault.Auth.{Header, get_header, del_header}
use joyvend_secretvault.Reflect.{reflect_guard_headers}

pub record FetchRequest : Type 0 where
  pub credential : Bytes
  pub method : Bytes
  pub url : Bytes
  pub headers : Map Bytes
  pub body : Bytes
  pub body_b64 : Bytes
  pub max_response_bytes : ℤ

pub record FetchResponse : Type 0 where
  pub status : ℕ
  pub headers : Header
  pub body : Bytes
  pub truncated : Bool
  pub audit_id : Bytes

pub record ConfirmRequest : Type 0 where
  pub credential : Bytes
  pub method : Bytes
  pub host : Bytes

-- What an approver answers; `failed` is an error.
pub data Approval : Type 0 where
  approved refused failed : Approval

-- The request that the transport is given, with the address that it must dial.
pub record Outgoing : Type 0 where
  pub method : Bytes
  pub address : Bytes
  pub header : Header
  pub body : Bytes
  pub pinned : Ip

-- What comes back: the bytes that can be read before the end or an error.
pub record Upstream : Type 0 where
  pub status : ℕ
  pub headers : Header
  pub body : Bytes

-- How a request ends early: what the audit row says of it, and the error.
pub record Stop : Type 0 where
  pub host : Bytes
  pub decision : Decision
  pub tier : Tier
  pub error : FetchError

-- The closure `fail`.
abbrev pub fail : Bytes → FetchError → Stop
fail host e = record { host = host; decision = denied; tier = unset; error = e }

abbrev pub get : Bytes
get = text "GET"

-- `strings.ToUpper(strings.TrimSpace(fr.Method))`, with the default.
unfoldable pub request_method : Parsers → Bytes → Bytes
unfolding to_upper trim_space
request_method p m =
    let method = to_upper p.unicode (trim_space p.unicode m) in
    if is_empty method then get else method

abbrev pub is_after : ℕ → Option ℕ → Bool
is_after now none = false
is_after now (some expires) = ltb expires now

-- 1. The state of the credential, as `lookup` gives it.
unfoldable pub check_state : ℕ → Option (Credential × Bool) → Result Stop Credential
check_state now none = err (fail [] err_no_cred)
check_state now (some (cred, enabled)) =
    if not enabled
    then err (fail [] err_cred_disabled)
    else if is_after now cred.expires_at
    then err (fail [] err_cred_expired)
    else ok cred

-- The scheme, and the port of a credential for private addresses.
unfoldable pub check_scheme : Credential → Url → Result Stop (Unit {0})
unfolding bytes_eq
check_scheme cred u =
    if bytes_eq u.scheme (text "http")
    then guard cred.allow_insecure (fail [] err_insecure)
    else guard (bytes_eq u.scheme (text "https")) (fail [] err_bad_url)

unfoldable pub check_port : Credential → Url → Result Stop (Unit {0})
unfolding bytes_eq
check_port cred u =
    if cred.allow_priv
    then guard (is_empty u.port || bytes_eq u.port (text "443") || bytes_eq u.port (text "80"))
        (fail [] err_bad_url)
    else ok tt

-- 2. The URL and its host in canonical form.
unfoldable pub check_url : Parsers → Credential → Bytes → Result Stop (Url × Bytes)
check_url p cred address = do
  u ← from_option (p.parse_url address) (fail [] err_bad_url)
  guard (not (is_empty u.host)) (fail [] err_bad_url)
  guard (not u.has_user) (fail [] err_bad_url)
  check_scheme cred u
  check_port cred u
  host ← map_err (λ _. fail [] err_bad_url) (normalize_host p u.hostname)
  ok (u, host)

abbrev pub default_tier : Tier → Tier → Tier
default_tier unset d = d
default_tier t d = t

unfoldable pub classify_tier : Credential → Bytes → Tier
unfolding bytes_eq
classify_tier c method =
    if bytes_eq method get || bytes_eq method (text "HEAD")
    then default_tier c.read_tier auto
    else default_tier c.write_tier confirm

-- 5. What the tier asks for.
unfoldable pub check_tier : Bytes → Tier → Approval → Result Stop Decision
check_tier host deny answer = err (fail host err_denied)
check_tier host confirm approved = ok confirmed
check_tier host confirm _ =
    err (record { host = host; decision = blocked; tier = confirm; error = err_approval })
check_tier host _ answer = ok allowed

-- requestBody, where base64 decoding is the first argument.
unfoldable pub request_body : (Bytes → Option Bytes) → FetchRequest → Option Bytes
request_body decode fr = if is_empty fr.body_b64 then some fr.body else decode fr.body_b64

unfoldable pub outbound_contains_secret : Credential → FetchRequest → Bytes → Bool
unfolding contains
outbound_contains_secret c fr body =
    if ltb (length c.secret) 6
    then false
    else contains fr.url c.secret
      || contains body c.secret
      || any (λ (kv : Bytes × Bytes). contains kv.1 c.secret) fr.headers

-- A content coding that the scan cannot read. strings.EqualFold with "identity" folds ASCII only.
unfoldable pub is_opaque : Header → Bool
unfolding get_header
is_opaque h =
    let ce = get_header (text "Content-Encoding") h in
    not (is_empty ce) && not (bytes_eq (map lower_byte ce) (text "identity"))

-- 10 << 20
abbrev pub engine_max_bytes : ℕ
engine_max_bytes = 10_485_760

abbrev pub response_cap : ℤ → ℕ
response_cap asked =
    if ltb 0 (pos_part asked) && ltb (pos_part asked) engine_max_bytes
    then pos_part asked
    else engine_max_bytes

unfoldable pub read_capped : Bytes → ℕ → Bytes × Bool
read_capped body max =
    let buf = take (max + 1) body in
    if ltb max (length buf) then (take max buf, true) else (buf, false)

-- Whether a Location may be shown: its host is on the allowlist.
abbrev pub location_host_ok : Parsers → List Bytes → Result HostError Bytes → Bool
location_host_ok p hosts (ok host) = host_allowed p host hosts
location_host_ok p hosts (err e) = false

abbrev pub location_ok : Parsers → List Bytes → Option Url → Bool
location_ok p hosts none = false
location_ok p hosts (some u) = location_host_ok p hosts (normalize_host p u.hostname)

unfoldable pub drop_location : Parsers → Credential → Header → Header
unfolding get_header del_header
drop_location p c h =
    let loc = get_header (text "Location") h in
    if is_empty loc || location_ok p c.allow_hosts (p.parse_url loc)
    then h
    else del_header (text "Location") h

unfoldable pub sanitize_resp_headers : Parsers → Header → Credential → List Bytes → Header
sanitize_resp_headers p h c needles = (reflect_guard_headers (drop_location p c h) needles).0

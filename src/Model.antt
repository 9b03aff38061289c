-- ===== src/Model.antt =====
-- internal/vault/model.go and errors.go: the stored data and the fixed error codes. A time is a
-- count of nanoseconds, and 0 is Go's zero time.
use joyvend_secretvault.Shared.{ℕ, Bool, Option, List, ℤ}
use joyvend_secretvault.Text.{Bytes, text}
use joyvend_secretvault.Maps.{Map}

-- AuthType is a string type, so a document can hold any other text.
pub data AuthType : Type 0 where
  bearer header basic custom : AuthType
  unknown : Bytes → AuthType

-- Tier, likewise; `unset` is the empty text.
pub data Tier : Type 0 where
  unset auto confirm deny : Tier
  other : Bytes → Tier

pub record Credential : Type 0 where
  pub auth_type : AuthType
  pub secret : Bytes
  pub header_name : Bytes
  pub username : Bytes
  pub template : Bytes
  pub allow_hosts : List Bytes
  pub allow_priv : Bool
  pub allow_insecure : Bool
  pub read_tier : Tier
  pub write_tier : Tier
  pub expires_at : Option ℕ
  pub rate_per_min : ℤ
  pub created_at : ℕ

pub record CredentialMeta : Type 0 where
  pub name : Bytes
  pub auth_type : AuthType
  pub allow_hosts : List Bytes
  pub read_tier : Tier
  pub write_tier : Tier
  pub enabled : Bool
  pub expires_at : Option ℕ
  pub fingerprint : Bytes
  pub created_at : ℕ

-- The values of `Decision` that the pipeline writes.
pub data Decision : Type 0 where
  allowed denied blocked confirmed : Decision

pub record AuditEntry : Type 0 where
  pub time : ℕ
  pub credential : Bytes
  pub method : Bytes
  pub host : Bytes
  pub decision : Decision
  pub tier : Tier
  pub status : ℕ
  pub bytes : ℕ
  pub source : Bytes
  pub latency_ms : ℕ
  pub prev_hash : Bytes
  pub hash : Bytes

pub record Grant : Type 0 where
  pub credential : Bytes
  pub method : Bytes
  pub host : Bytes
  pub expires : ℕ

pub record VaultDoc : Type 0 where
  pub version : ℕ
  pub fp_salt : Bytes
  pub credentials : Map Credential
  pub grants : List Grant
  pub audit : List AuditEntry

abbrev pub current_version : ℕ
current_version = 1

-- The fixed errors that the pipeline returns, each with its code and its HTTP status.
pub data FetchError : Type 0 where
  err_no_cred err_cred_disabled err_cred_expired err_bad_url err_insecure err_bad_header :
      FetchError
  err_not_allowed err_ssrf_blocked err_dns err_denied err_approval err_rate_limited : FetchError
  err_exfil err_upstream err_reflect : FetchError

unfoldable pub error_code : FetchError → Bytes
error_code err_no_cred = text "credential_not_found"
error_code err_cred_disabled = text "credential_disabled"
error_code err_cred_expired = text "credential_expired"
error_code err_bad_url = text "bad_url"
error_code err_insecure = text "https_required"
error_code err_bad_header = text "bad_header"
error_code err_not_allowed = text "host_not_allowed"
error_code err_ssrf_blocked = text "egress_blocked"
error_code err_dns = text "dns_failed"
error_code err_denied = text "denied_by_policy"
error_code err_approval = text "approval_denied"
error_code err_rate_limited = text "rate_limited"
error_code err_exfil = text "outbound_exfil_blocked"
error_code err_upstream = text "upstream_unreachable"
error_code err_reflect = text "reflect_blocked"

unfoldable pub error_status : FetchError → ℕ
error_status err_no_cred = 404
error_status err_cred_disabled = 403
error_status err_cred_expired = 403
error_status err_bad_url = 400
error_status err_insecure = 400
error_status err_bad_header = 400
error_status err_not_allowed = 403
error_status err_ssrf_blocked = 403
error_status err_dns = 502
error_status err_denied = 403
error_status err_approval = 403
error_status err_rate_limited = 429
error_status err_exfil = 400
error_status err_upstream = 502
error_status err_reflect = 502

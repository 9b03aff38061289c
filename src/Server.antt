-- ===== src/Server.antt =====
-- internal/server/server.go: the two planes over HTTP, their guards and their handlers. A handler
-- takes the server and returns the new one with the response. The store of the server is that of its
-- engine, to which both fields of the Go struct point.
pub mod Handlers
pub mod Planes
pub mod Separation
pub mod Secrecy
pub mod Fetching
pub mod Keeping
pub mod Approvals
use joyvend_secretvault.Shared.{
  ℕ, ◌*◌, Bool, true, false, not, ◌&&◌, ◌||◌, Option, none, some, List, [], ◌∷◌, ◌==◌,
  if◌then◌else◌, is_empty, map, ℤ, pos, pos_part,
}
use joyvend_secretvault.Text.{Bytes, text, bytes_eq}
use joyvend_secretvault.Text.Utf8.{json_text}
use joyvend_secretvault.Auth.{Header}
use joyvend_secretvault.Model.{Credential, CredentialMeta, AuditEntry, unset, AuthType, unknown}
use joyvend_secretvault.Codec.{encode_hex}
use joyvend_secretvault.Fetch.{FetchRequest, FetchResponse}
use joyvend_secretvault.Fetch.Pipeline.{Engine, World}
use joyvend_secretvault.Store.{Library, Store, StoreError, Io}
use joyvend_secretvault.Store.Audit.{AuditBreak}
use joyvend_secretvault.Approver.{PendingApprover, PendingView, no_requests}
use joyvend_secretvault.Approver.Steps.{Step}

pub record Options : Type 0 where
  pub enable_lan : Bool
  pub use_token : Bytes
  pub control_token : Bytes
  pub control_session : Bytes
  pub session_cookie : Bytes
  pub approval_timeout : ℤ  -- in nanoseconds

pub record Server : Type 0 where
  pub engine : Engine
  pub approver : PendingApprover
  pub opt : Options

-- randToken, from the 32 bytes that it has drawn; a failure of the random source is not seen there.
unfoldable pub rand_token : Bytes → Bytes
unfolding encode_hex
rand_token drawn = encode_hex drawn

abbrev pub or_else : Bytes → Bytes → Bytes
or_else [] other = other
or_else (c ∷ s) other = c ∷ s

-- 2 * time.Minute
abbrev pub two_minutes : ℕ
two_minutes = 120_000_000_000

-- The defaults of `New`.
unfoldable pub with_defaults : Bytes → Bytes → Options → Options
with_defaults use_random control_random o = record o {
  use_token = or_else o.use_token (rand_token use_random);
  control_token = or_else o.control_token (rand_token control_random);
  approval_timeout =
      if pos_part o.approval_timeout == 0 then pos two_minutes else o.approval_timeout;
  session_cookie = or_else o.session_cookie (text "sv_session");
}

-- NewEngine, as far as its parts change.
unfoldable pub new_engine : Store → Engine
new_engine store = record { store = store; limiter = [] }

-- New, with the random bytes for the two tokens.
unfoldable pub new_server : Bytes → Bytes → Store → Options → Server
new_server use_random control_random store o = record {
  engine = new_engine store;
  approver = no_requests;
  opt = with_defaults use_random control_random o;
}

-- The bodies of the responses.
pub data Reply : Type 0 where
  failure : Bytes → Reply  -- {"error": …}
  fetch_failure : Bytes → Bytes → Reply  -- the code, and the audit id
  fetched : FetchResponse → Reply
  credentials : List CredentialMeta → Reply
  stored : CredentialMeta → Reply
  deleted audit_ok decided : Reply
  enabled : Bool → Reply
  audit : List AuditEntry → Reply
  audit_broken : AuditBreak → Reply
  pending : List PendingView → Reply
  health : Bool → Reply
  root_page guide : Reply
  from_mux : Reply  -- what `ServeMux` answers itself

pub record Response : Type 0 where
  pub status : ℕ
  pub reply : Reply

-- What one call of a handler meets outside: the libraries, the world of the pipeline, the time, the
-- outcome of saves, and the decoders of JSON bodies. If the call waits for an approval: the steps that
-- others make at the approver before it enters its request there, with the pointer, ID and time of the
-- request, and the steps that anyone makes from there to the end of the call, its own among them.
pub record Env : Type 0 where
  pub lib : Library
  pub world : World
  pub pointer : Bytes
  pub request_id : Bytes
  pub asked_at : ℕ
  pub before : List Step
  pub steps : List Step
  pub now : ℕ
  pub io : Io
  pub describe : StoreError → Bytes  -- err.Error()
  pub decode_fetch : Bytes → Option FetchRequest
  pub decode_put : Bytes → Option (Bytes × Credential)
  pub decode_on : Bytes → Bool  -- the field behind the decoder, whose error is dropped
  pub decode_approve : Bytes → Bool

abbrev pub Handler : Type 0
Handler = Server → Server × Response

abbrev pub store_of : Server → Store
store_of s = s.engine.store

abbrev pub with_store : Store → Server → Server
with_store st s = record s { engine = record s.engine { store = st } }

abbrev before_newline : Bytes → Bytes
before_newline [] = []
before_newline (c ∷ s) = if c == 0x0a then [] else c ∷ before_newline s

-- writeErr
unfoldable pub write_err : ℕ → Bytes → Response
write_err code msg = record { status = code; reply = failure (before_newline msg) }

-- writeJSON
-- The strings of a response, as encoding/json writes them.
abbrev pub json_header : Header → Header
json_header [] = []
json_header ((k, vs) ∷ h) = (json_text k, map json_text vs) ∷ json_header h

abbrev pub json_response : FetchResponse → FetchResponse
json_response resp = record resp { headers = json_header resp.headers; body = json_text resp.body }

-- Only the upstream's texts can be other than UTF-8. The rest is ASCII, or was read from JSON.
abbrev pub json_reply : Reply → Reply
json_reply (fetched resp) = fetched (json_response resp)
json_reply r = r

abbrev pub write_json : ℕ → Reply → Response
write_json code r = record { status = code; reply = json_reply r }

-- tokenOK: the comparison in constant time is an equality.
unfoldable pub token_ok : Bytes → Bytes → Bool
unfolding bytes_eq
token_ok got want = not (is_empty want) && bytes_eq got want

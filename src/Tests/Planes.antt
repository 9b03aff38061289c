-- ===== src/Tests/Planes.antt =====
-- The theorems on the planes, at requests of a client on this machine.
use joyvend_secretvault.Shared.{
  ℕ, ◌≡◌, refl, ap, ◌%◌, true, false, none, some, [], ◌∷◌, ◌++◌, map, if◌then◌else◌, length, take,
  pos,
}
use joyvend_secretvault.Text.{Bytes, text, bytes_eq, to_lower, trim_suffix, cut_prefix}
use joyvend_secretvault.Maps.{lookup, insert}
use joyvend_secretvault.Net.{Url, Parsers, is_loopback}
use joyvend_secretvault.Model.{confirm}
use joyvend_secretvault.Codec.{encode_hex}
use joyvend_secretvault.Dial.{is_denied_ip, resolve_and_pin}
use joyvend_secretvault.Host.{normalize_host, host_allowed}
use joyvend_secretvault.Limiter.{allow, allow_positive, refill, bucket_or_full, take_token}
use joyvend_secretvault.Auth.{get_header, build_headers, inject_header_name, inject_auth}
use joyvend_secretvault.Reflect.{contains_any, secret_needles}
use joyvend_secretvault.Store.{Library, lookup_credential, fingerprint}
use joyvend_secretvault.Approver.{
  no_requests, confirm_enter, confirm_select, confirm_return, send, wake, leave, offer,
}
use joyvend_secretvault.Approver.Steps.{run_steps}
use joyvend_secretvault.Fetch.{
  FetchRequest, Outgoing, request_method, check_state, check_url, check_scheme, check_port,
  check_tier, classify_tier, request_body, outbound_contains_secret, is_opaque, read_capped,
}
use joyvend_secretvault.Fetch.Pipeline.{
  admit, proceed, prepare, forward, receive, conclude_ok, conclude_stop, fetch,
}
use joyvend_secretvault.Fetch.Sending.{IsAcceptable}
use joyvend_secretvault.Http.{Request, get, post}
use joyvend_secretvault.Server.{Server, Env, store_of, token_ok}
use joyvend_secretvault.Server.Handlers.{confirm_answer, server_world}
use joyvend_secretvault.Server.Planes.{is_local, session_ok, serve}
use joyvend_secretvault.Server.Separation.{has_control, IsSeparate, serve-IsSeparate}
use joyvend_secretvault.Server.Approvals.{WasApproved, fetch-WasApproved}
use joyvend_secretvault.Server.Secrecy.{
  Hidden, KeepsFingerprints, rehide_server, serve-rehide_server,
}
use joyvend_secretvault.Tests.Fixtures.{
  good_io, small_parsers, writing_library, small_store, key_name, api_url, bearer_credential, zeros,
}
use joyvend_secretvault.Tests.Fetches.{small_request, small_world, sent_request}
use joyvend_secretvault.Tests.Waits.{answering}

abbrev pub local_parsers : Parsers
local_parsers = record small_parsers {
  parse_ip = λ s. if bytes_eq s (text "127.0.0.1") then some (127 ∷ 0 ∷ 0 ∷ 1 ∷ []) else none;
}

abbrev pub local_library : Library
local_library = record writing_library { parsers = local_parsers }

abbrev pub posted : FetchRequest
posted = record small_request { method = text "post" }

-- A server whose tokens are known, and the steps by which a human approves one request.
abbrev pub small_server : Server
small_server = record {
  engine = record { store = small_store; limiter = [] };
  approver = no_requests;
  opt = record {
    enable_lan = false;
    use_token = text "agent";
    control_token = text "human";
    control_session = text "cookie";
    session_cookie = text "sv_session";
    approval_timeout = pos 9;
  };
}

abbrev pub env_over : Library → Env
env_over lib = record {
  lib = lib;
  world = small_world;
  pointer = text "p";
  request_id = text "id";
  asked_at = 7;
  before = [];
  steps = answering;
  now = 9;
  io = good_io;
  describe = λ e. text "invalid";
  decode_fetch = λ body. some posted;
  decode_put = λ body. none;
  decode_on = λ body. true;
  decode_approve = λ body. true;
}

abbrev pub local_env : Env
local_env = env_over local_library

-- The agent asks for the credential to be enabled, with its own token.
abbrev pub enabling : Request
enabling = record {
  method = post;
  path = text "api" ∷ text "vault" ∷ text "credentials" ∷ key_name ∷ text "enable" ∷ [];
  headers = (text "X-Vault-Token", text "agent" ∷ []) ∷ [];
  cookies = [];
  remote_addr = text "127.0.0.1";
  body = [];
}

no_control : has_control local_env enabling small_server ≡ false
unfolding is_local session_ok token_ok get_header lookup bytes_eq is_loopback
no_control = refl

serve-IsSeparate_example :
    IsSeparate local_env small_server (serve local_env enabling small_server).0
serve-IsSeparate_example =
    serve-IsSeparate local_env enabling small_server
      (
        (λ e. record { same_credentials = refl; same_enabled = refl; same_key = refl }),
        (λ e. record { same_credentials = refl; same_enabled = refl; same_key = refl }),
      )
      no_control

abbrev pub posted_request : Outgoing
posted_request = record sent_request { method = text "POST" }

nothing_at_pointer :
    lookup local_env.pointer (run_steps local_env.before small_server.approver).heap ≡ none
unfolding lookup run_steps
nothing_at_pointer = refl

is_posted :
    (fetch local_env.lib
      (server_world local_env small_server)
      posted
      (text "mcp")
      small_server.engine).sent
    ≡ some posted_request
unfolding fetch admit check_state lookup_credential check_url check_scheme check_port normalize_host
    to_lower trim_suffix host_allowed cut_prefix resolve_and_pin is_denied_ip check_tier
    classify_tier request_method proceed allow allow_positive refill bucket_or_full take_token
    prepare build_headers inject_header_name request_body outbound_contains_secret inject_auth
    forward receive conclude_ok conclude_stop is_opaque contains_any secret_needles read_capped
    confirm_answer run_steps confirm_enter confirm_select confirm_return send lookup insert wake
    leave offer bytes_eq
is_posted = refl

posted_enabled : lookup_credential key_name (store_of small_server) ≡ some (bearer_credential, true)
unfolding lookup_credential lookup bytes_eq
posted_enabled = refl

posted_asks : classify_tier bearer_credential (request_method local_parsers posted.method) ≡ confirm
unfolding classify_tier request_method
posted_asks = refl

fetch-WasApproved_example :
    (true ≡ true)
    × (target : Url) × (host : Bytes) × IsAcceptable local_parsers bearer_credential api_url target
        host
    × WasApproved local_env small_server (record {
      credential = key_name;
      method = request_method local_parsers posted.method;
      host = host;
    })
fetch-WasApproved_example =
    fetch-WasApproved local_env small_server posted (text "mcp") posted_request bearer_credential
      true nothing_at_pointer is_posted posted_enabled posted_asks

-- Secrets of the same length, which the digest of these data does not tell apart.
abbrev blank : Hidden
blank = record {
  secret = λ c. map (λ b. b'x') c.secret;
  header_name = λ c. [];
  username = λ c. [];
  template = λ c. text "{{secret}}";
}

length-map : (salt s : Bytes) → length (salt ++ map (λ b. b'x') s) ≡ length (salt ++ s)
length-map (c ∷ salt) s = ap ℕ.suc (length-map salt s)
length-map [] [] = refl
length-map [] (c ∷ s) = ap ℕ.suc (length-map [] s)

blank_keeps : KeepsFingerprints local_library small_store blank
unfolding fingerprint
blank_keeps c =
    ap (λ n. take 12 (encode_hex ((n % 256) ∷ zeros 31)))
      (length-map small_store.doc.fp_salt c.secret)

-- The human lists the credentials.
abbrev listing : Request
listing = record {
  method = get;
  path = text "api" ∷ text "vault" ∷ text "credentials" ∷ [];
  headers = (text "X-Vault-Token", text "human" ∷ []) ∷ [];
  cookies = [];
  remote_addr = text "127.0.0.1";
  body = [];
}

serve-rehide_server_example :
    (serve local_env listing (rehide_server blank small_server)).1
    ≡ (serve local_env listing small_server).1
serve-rehide_server_example =
    serve-rehide_server local_env listing blank small_server blank_keeps refl

-- ===== src/Tests/Fetches.antt =====
-- The theorems on the pipeline, at a request that is sent and answered.
use mathlib.Core.List.{Permᴰ}
use joyvend_secretvault.Shared.{inl}
use joyvend_secretvault.Fetch.Egress.{Reaches, fetch-Reaches}
use joyvend_secretvault.Maps.{Map}
use joyvend_secretvault.Text.{Bytes, to_lower, trim_suffix, cut_prefix}
use joyvend_secretvault.Dial.{is_denied_ip, resolve_and_pin}
use joyvend_secretvault.Host.{normalize_host, host_allowed}
use joyvend_secretvault.Limiter.{allow, allow_positive, refill, bucket_or_full, take_token}
use joyvend_secretvault.Auth.{canonical_key, build_headers, inject_header_name, inject_auth}
use joyvend_secretvault.Auth.Order.{Consistent}
use joyvend_secretvault.Store.{lookup_credential}
use joyvend_secretvault.Reflect.{contains_any, secret_needles}
use joyvend_secretvault.Fetch.{
  check_state, check_url, check_scheme, check_port, check_tier, classify_tier, request_body,
  outbound_contains_secret, is_opaque, read_capped,
}
use joyvend_secretvault.Fetch.Pipeline.{
  admit, proceed, prepare, forward, receive, conclude_ok, conclude_stop,
}
use joyvend_secretvault.Fetch.Order.{with_headers, SameRequest, fetch-Perm}
use joyvend_secretvault.Shared.{◌≡◌, ◌↔◌, refl, true, some, [], ◌∷◌, ◌++◌, pos}
use joyvend_secretvault.Text.{text}
use joyvend_secretvault.Dial.{is_denied_ip}
use joyvend_secretvault.Fetch.{FetchRequest, Outgoing, Upstream, approved, request_method}
use joyvend_secretvault.Fetch.Pipeline.{Engine, World, fetch}
use joyvend_secretvault.Fetch.Sending.{IsAuthorised}
use joyvend_secretvault.Fetch.Authorising.{fetch-IsAuthorised_iff}
use joyvend_secretvault.Fetch.Returning.{Ends, fetch-Ends}
use joyvend_secretvault.Fetch.Logging.{Logged, fetch-Logged, log}
use joyvend_secretvault.Tests.Fixtures.{
  good_io, writing_library, small_store, key_name, api_url, secret_value,
}

abbrev pub small_request : FetchRequest
small_request = record {
  credential = key_name;
  method = text "get";
  url = api_url;
  headers = (text "X-Id", text "7") ∷ [];
  body = [];
  body_b64 = [];
  max_response_bytes = pos 5;
}

abbrev pub greeting : Upstream
greeting = record { status = 200; headers = []; body = text "hello world" }

abbrev pub small_world : World
small_world = record {
  started = 0;
  expiry_time = 1;
  rate_time = 2;
  audit_time = 3;
  end_time = 2_000_000;
  resolve = λ host. some ((93 ∷ 184 ∷ 216 ∷ 34 ∷ []) ∷ []);
  deny_ip = is_denied_ip;
  confirm_with = λ asked. approved;
  decode_base64 = λ s. some s;
  request_ok = λ method address. true;
  round_trip = λ out. some greeting;
  meanwhile = λ e. e;
  in_flight = λ e. e;
  io = good_io;
}

abbrev small_engine : Engine
small_engine = record { store = small_store; limiter = [] }

abbrev pub sent_request : Outgoing
sent_request = record {
  method = text "GET";
  address = api_url;
  header =
      (text "X-Id", text "7" ∷ [])
      ∷ (text "Authorization", (text "Bearer " ++ secret_value) ∷ [])
      ∷ [];
  body = [];
  pinned = 93 ∷ 184 ∷ 216 ∷ 34 ∷ [];
}

fetch-IsAuthorised_iff_example :
    ((fetch writing_library small_world small_request (text "mcp") small_engine).sent
      ≡ some sent_request)
    ↔ IsAuthorised writing_library small_world small_request (text "mcp") small_engine sent_request
fetch-IsAuthorised_iff_example =
    fetch-IsAuthorised_iff writing_library small_world small_request (text "mcp") small_engine
      sent_request

fetch-Logged_example :
    Logged writing_library small_request
      (text "mcp")
      (request_method writing_library.parsers small_request.method)
      (log small_engine)
      (fetch writing_library small_world small_request (text "mcp") small_engine)
fetch-Logged_example =
    fetch-Logged writing_library small_world small_request (text "mcp") small_engine
      ((λ e. refl), (λ e. refl))

fetch-Ends_example :
    Ends writing_library small_world small_request small_engine.store
      (fetch writing_library small_world small_request (text "mcp") small_engine)
fetch-Ends_example = fetch-Ends writing_library small_world small_request (text "mcp") small_engine

-- Two headers, which a loop can range over in either order.
abbrev two_headers : Map Bytes
two_headers = (text "X-Id", text "7") ∷ (text "x-trace", text "on") ∷ []

abbrev turned_headers : Map Bytes
turned_headers = (text "x-trace", text "on") ∷ (text "X-Id", text "7") ∷ []

abbrev traced_request : FetchRequest
traced_request = record small_request { headers = two_headers }

abbrev traced : Outgoing
traced = record sent_request {
  header =
      (text "X-Id", text "7" ∷ [])
      ∷ (text "X-Trace", text "on" ∷ [])
      ∷ (text "Authorization", (text "Bearer " ++ secret_value) ∷ [])
      ∷ [];
}

two_headers-Consistent : Consistent two_headers
unfolding canonical_key
two_headers-Consistent = (((λ e. refl), ((λ e. cc), tt)), (((λ e. cc), ((λ e. refl), tt)), tt))

is_traced :
    (fetch writing_library small_world traced_request (text "mcp") small_engine).sent ≡ some traced
unfolding fetch admit check_state lookup_credential check_url check_scheme check_port normalize_host
    to_lower trim_suffix host_allowed cut_prefix resolve_and_pin is_denied_ip check_tier
    classify_tier request_method proceed allow allow_positive refill bucket_or_full take_token
    prepare build_headers inject_header_name request_body outbound_contains_secret inject_auth
    forward receive conclude_ok conclude_stop is_opaque contains_any secret_needles read_capped
is_traced = refl

fetch-Perm_example :
    (out : Outgoing) × ((fetch writing_library small_world
        (with_headers turned_headers traced_request)
        (text "mcp")
        small_engine).sent
      ≡ some out)
    × SameRequest traced out
fetch-Perm_example =
    fetch-Perm writing_library small_world traced_request (text "mcp") small_engine turned_headers
      ∣ Permᴰ.swap refl refl ∣₁ two_headers-Consistent traced is_traced

fetch-Reaches_example :
    Reaches writing_library small_world traced_request (text "mcp") small_engine traced
fetch-Reaches_example =
    fetch-Reaches writing_library small_world traced_request (text "mcp") small_engine traced refl
      (inl refl) is_traced

-- ===== src/Tests/Answers.antt =====
-- The theorems on answers, at a request that a human approves, and at a response that echoes a secret.
use joyvend_secretvault.Shared.{
  ◌≡◌, refl, true, false, inl, some, ok, err, [], ◌∷◌, ◌++◌, arith, pos, take, ltb,
}
use joyvend_secretvault.Text.{text, to_lower, trim_suffix, cut_prefix, bytes_eq}
use joyvend_secretvault.Maps.{lookup, insert}
use joyvend_secretvault.Net.{is_loopback}
use joyvend_secretvault.Dial.{is_denied_ip, resolve_and_pin}
use joyvend_secretvault.Host.{normalize_host, host_allowed}
use joyvend_secretvault.Limiter.{allow, allow_positive, refill, bucket_or_full, take_token}
use joyvend_secretvault.Auth.{Header, build_headers, inject_header_name, inject_auth, get_header}
use joyvend_secretvault.Store.{lookup_credential}
use joyvend_secretvault.Reflect.{contains_any, secret_needles}
use joyvend_secretvault.Approver.{
  confirm_enter, confirm_select, confirm_return, send, wake, leave, offer,
}
use joyvend_secretvault.Approver.Steps.{run_steps}
use joyvend_secretvault.Fetch.{
  Upstream, fail, FetchRequest, FetchResponse, response_cap, is_opaque, request_method, check_url,
  check_scheme, check_port, classify_tier, request_body, outbound_contains_secret,
}
use joyvend_secretvault.Model.{auto, allowed, err_reflect}
use joyvend_secretvault.Fetch.Pipeline.{World, Admitted, receive}
use joyvend_secretvault.Fetch.Cutting.{limited_to, receive-limited_to}
use joyvend_secretvault.Fetch.Sending.{IsAuthorised}
use joyvend_secretvault.Http.{Request, post}
use joyvend_secretvault.Text.Utf8.{json_text}
use joyvend_secretvault.Server.{fetched, token_ok}
use joyvend_secretvault.Server.Handlers.{confirm_answer, server_world}
use joyvend_secretvault.Server.Planes.{is_local, vault_token, serve}
use joyvend_secretvault.Server.Fetching.{fetch_path, serve-Answers}
use joyvend_secretvault.Tests.Fixtures.{secret_value, bearer_credential, parsed_url, api_host}
use joyvend_secretvault.Tests.Fetches.{greeting}
use joyvend_secretvault.Tests.Planes.{local_env, small_server, posted, posted_request}

abbrev fetching : Request
fetching = record {
  method = post;
  path = fetch_path;
  headers = (text "X-Vault-Token", text "agent" ∷ []) ∷ [];
  cookies = [];
  remote_addr = text "127.0.0.1:50000";
  body = [];
}

abbrev left_headers : Header
left_headers = (text "X-Id", text "7" ∷ []) ∷ []

authorised :
    IsAuthorised local_env.lib
      (server_world local_env small_server)
      posted
      fetching.remote_addr
      small_server.engine
      posted_request
unfolding lookup_credential check_url check_scheme check_port normalize_host to_lower trim_suffix
    host_allowed cut_prefix resolve_and_pin is_denied_ip classify_tier request_method allow
    allow_positive refill bucket_or_full take_token build_headers inject_header_name request_body
    outbound_contains_secret inject_auth confirm_answer run_steps confirm_enter confirm_select
    confirm_return send lookup insert wake leave offer bytes_eq
authorised = record {
  cred = bearer_credential;
  enabled = refl;
  not_expired = refl;
  target = parsed_url;
  host = api_host;
  acceptable = record {
    parsed = refl;
    has_host = refl;
    no_user = refl;
    secure = inl refl;
    standard_port = λ e. cc;
    canonical = refl;
  };
  same_method = refl;
  same_address = refl;
  well_formed = refl;
  on_list = refl;
  pinned = refl;
  not_denied = λ e. cc;
  approved_if_asked = λ e. refl;
  within_rate = refl;
  same_body = refl;
  keeps_secret = refl;
  agent_headers = left_headers;
  filtered = refl;
  authenticated = refl;
}

near : is_local local_env fetching ≡ true
unfolding is_local is_loopback bytes_eq
near = refl

shown : token_ok (vault_token fetching) small_server.opt.use_token ≡ true
unfolding token_ok get_header bytes_eq lookup
shown = refl

plain : is_opaque greeting.headers ≡ false
unfolding is_opaque
plain = refl

clean :
    contains_any
      (take (response_cap posted.max_response_bytes) greeting.body)
      (secret_needles (inject_auth authorised.cred authorised.agent_headers).1)
    ≡ false
unfolding contains_any secret_needles inject_auth authorised
clean = refl

serve-Answers_example :
    (answer : FetchResponse) × ((serve local_env fetching small_server).1
      ≡ record { status = 200; reply = fetched answer })
    × (answer.status ≡ 200)
    × (answer.body ≡ json_text (take (response_cap posted.max_response_bytes) (text "hello world")))
    × (answer.truncated ≡ ltb (response_cap posted.max_response_bytes) 11)
serve-Answers_example =
    serve-Answers local_env fetching small_server posted posted_request greeting authorised refl
      refl near shown refl refl plain clean

-- A response that echoes the secret.
abbrev echoing : Upstream
echoing = record greeting { body = text "say " ++ (secret_value ++ text "!") }

abbrev granted : Admitted
granted = record {
  cred = bearer_credential;
  target = parsed_url;
  host = api_host;
  pinned = [];
  tier = auto;
  decision = allowed;
}

abbrev unlimited : FetchRequest
unlimited = record posted { max_response_bytes = pos 0 }

abbrev local_world : World
local_world = server_world local_env small_server

echoing_readable : is_opaque echoing.headers ≡ false
unfolding is_opaque
echoing_readable = refl

receive-limited_to_example :
    (receive local_env.lib local_world unlimited granted (secret_value ∷ []) (some echoing)
      ≡ err (fail api_host err_reflect))
    × ((answer : FetchResponse) × (receive local_env.lib local_world
            (limited_to 9 unlimited)
            granted
            (secret_value ∷ [])
            (some echoing)
          ≡ ok answer)
        × (answer.body ≡ take 9 echoing.body))
receive-limited_to_example =
    receive-limited_to local_env.lib local_world unlimited granted (secret_value ∷ []) echoing
      secret_value (text "say ") (text "!") 9 echoing_readable refl (inl refl) (omega arith)
      (omega arith) (omega arith, tt) (omega arith) (omega arith)

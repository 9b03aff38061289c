-- ===== src/Server/Fetching.antt =====
-- The use plane of internal/server/server.go from the request of an agent to the answer of its upstream.
use joyvend_secretvault.Shared.{
  ◌≡◌, refl, ◌∙◌, ap, ◌||◌, true, false, none, some, List, [], ◌∷◌, arith, ltb, length, take,
}
use joyvend_secretvault.Text.{Bytes, text, bytes_eq}
use joyvend_secretvault.Text.Utf8.{json_text}
use joyvend_secretvault.Auth.{inject_auth}
use joyvend_secretvault.Reflect.{secret_needles, contains_any}
use joyvend_secretvault.Fetch.{
  FetchRequest, FetchResponse, Upstream, Outgoing, is_opaque, response_cap,
}
use joyvend_secretvault.Fetch.Pipeline.{Outcome, fetch}
use joyvend_secretvault.Fetch.Sending.{IsAuthorised}
use joyvend_secretvault.Fetch.Answering.{fetch-Answers}
use joyvend_secretvault.Http.{Request, post, get, lit, serve_mux, find_route, match_path}
use joyvend_secretvault.Server.{Server, Env, Response, json_response, fetched, write_json, token_ok}
use joyvend_secretvault.Server.Handlers.{
  server_world, write_outcome, run_fetch, handle_fetch, handle_root, handle_health, max_fetch_body,
}
use joyvend_secretvault.Server.Planes.{
  miss, vault_token, require_token, is_local, loopback_only, route, use_routes, use_plane,
  guarded_use, plane_routes, serve,
}

abbrev pub fetch_path : List Bytes
fetch_path = text "v1" ∷ text "vault" ∷ text "fetch" ∷ []

module _ (env : Env) (r : Request) (s : Server) where
  routed :
      (m : Bytes) (path : List Bytes)
      → m ≡ post
      → path ≡ fetch_path
      → serve_mux
          (route get (lit [] ∷ []) (handle_root env)
            ∷ route get (lit (text "healthz") ∷ []) (handle_health env)
            ∷ plane_routes env r)
          miss
          m
          path
          s
        ≡ guarded_use env r s
  unfolding serve_mux find_route match_path bytes_eq
  routed m path e f = rw (e, f) refl

  use_routed :
      (m : Bytes) (path : List Bytes)
      → m ≡ post
      → path ≡ fetch_path
      → serve_mux (use_routes env r) miss m path s ≡ handle_fetch env r s
  unfolding serve_mux find_route match_path bytes_eq
  use_routed m path e f = rw (e, f) refl

  guarded_use_open :
      (s.opt.enable_lan || is_local env r) ≡ true
      → token_ok (vault_token r) s.opt.use_token ≡ true
      → guarded_use env r s ≡ use_plane env r s
  unfolding guarded_use loopback_only require_token
  guarded_use_open near token = ground arith

  -- A request to fetch, of the agent with its token.
  serve-run_fetch :
      (fr : FetchRequest)
      → r.method ≡ post
      → r.path ≡ fetch_path
      → (s.opt.enable_lan || is_local env r) ≡ true
      → token_ok (vault_token r) s.opt.use_token ≡ true
      → env.decode_fetch (take (max_fetch_body env) r.body) ≡ some fr
      → serve env r s ≡ run_fetch env r fr s
  unfolding serve use_plane handle_fetch
  serve-run_fetch fr at_method at_path near token decoded =
      routed r.method r.path at_method at_path
      ∙ guarded_use_open near token
      ∙ use_routed r.method r.path at_method at_path
      ∙ rw (decoded, handle_fetch) refl

  -- The outcome of the pipeline for a request.
  abbrev pub outcome_of : FetchRequest → Outcome
  outcome_of fr = fetch env.lib (server_world env s) fr r.remote_addr s.engine

  run_fetch_answered :
      (fr : FetchRequest)
      → (outcome_of fr).error ≡ none
      → (run_fetch env r fr s).1 ≡ write_json 200 (fetched (outcome_of fr).response)
  unfolding run_fetch write_outcome
  run_fetch_answered fr e = rw (e, write_outcome) refl

  -- An agent that posts a request with the use token, from this machine or where the LAN is admitted,
  -- is answered with 200 and what its upstream said: the status, the body up to the limit with U+FFFD in
  -- place of each byte that is not part of a rune in UTF-8, and whether the limit has cut it; if the request passes the tests of the pipeline, and the upstream answers in a
  -- coding that the scan can read and with no needle in what is left of the body.
  pub serve-Answers :
      (fr : FetchRequest) (out : Outgoing) (resp : Upstream)
      (h : IsAuthorised env.lib (server_world env s) fr r.remote_addr s.engine out)
      → r.method ≡ post
      → r.path ≡ fetch_path
      → (s.opt.enable_lan || is_local env r) ≡ true
      → token_ok (vault_token r) s.opt.use_token ≡ true
      → env.decode_fetch (take (max_fetch_body env) r.body) ≡ some fr
      → env.world.round_trip out ≡ some resp
      → is_opaque resp.headers ≡ false
      → contains_any
          (take (response_cap fr.max_response_bytes) resp.body)
          (secret_needles (inject_auth h.cred h.agent_headers).1)
        ≡ false
      → (answer : FetchResponse) × ((serve env r s).1
          ≡ record { status = 200; reply = fetched answer })
        × (answer.status ≡ resp.status)
        × (answer.body ≡ json_text (take (response_cap fr.max_response_bytes) resp.body))
        × (answer.truncated ≡ ltb (response_cap fr.max_response_bytes) (length resp.body))
  serve-Answers fr out resp h at_method at_path near token decoded there plain clean =
      let (no_error, status, body, cut) =
        fetch-Answers env.lib (server_world env s) fr r.remote_addr s.engine out resp h there plain
          clean in
      let served = serve-run_fetch fr at_method at_path near token decoded in
      (
        json_response (outcome_of fr).response,
        ap (λ (o : Server × Response). o.1) served ∙ run_fetch_answered fr no_error,
        status,
        ap json_text body,
        cut,
      )

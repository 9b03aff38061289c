-- ===== src/Server/Planes.antt =====
-- The guards and the routes of internal/server/server.go.
use joyvend_secretvault.Net.HostPort.{split_host_port}
use joyvend_secretvault.Shared.{
  ℕ, Bool, false, not, ◌&&◌, Option, none, some, List, [], ◌∷◌, if◌then◌else◌, is_empty,
}
use joyvend_secretvault.Text.{Bytes, text}
use joyvend_secretvault.Maps.{lookup}
use joyvend_secretvault.Net.{Ip, is_loopback}
use joyvend_secretvault.Auth.{get_header}
use joyvend_secretvault.Http.{Request, Segment, lit, wild, below, Route, serve_mux, get, post}
use joyvend_secretvault.Server.{Server, from_mux, Env, Handler, write_err, write_json, token_ok}
use joyvend_secretvault.Server.Handlers.{
  handle_fetch, handle_list, handle_put, handle_delete, handle_enable, handle_audit,
  handle_audit_verify, handle_pending, handle_decide, handle_health, handle_root, handle_guide,
}

abbrev pub refuse : ℕ → Bytes → Handler
refuse code msg s = (s, write_err code msg)

abbrev pub miss : ℕ → Handler
miss code s = (s, write_json code from_mux)

abbrev pub vault_token : Request → Bytes
vault_token r = get_header (text "X-Vault-Token") r.headers

-- requireToken
unfoldable pub require_token : Bytes → Request → Handler → Handler
unfolding token_ok get_header
require_token token r next s =
    if token_ok (vault_token r) token then next s else refuse 401 (text "unauthorized") s

-- The cookie of the session, where one is configured.
unfoldable pub session_ok : Request → Server → Bool
unfolding token_ok lookup
session_ok r s =
    not (is_empty s.opt.control_session) && (elim (lookup s.opt.session_cookie r.cookies) [
      | none ↦ false
      | some value ↦ token_ok value s.opt.control_session
    ])

-- controlAuth
unfoldable pub control_auth : Request → Handler → Handler
unfolding session_ok
control_auth r next s =
    if token_ok (vault_token r) s.opt.control_token
    then next s
    else if session_ok r s
    then next s
    else refuse 401 (text "unauthorized") s

abbrev pub loopback_ip : Option Ip → Bool
loopback_ip none = false
loopback_ip (some ip) = is_loopback ip

abbrev pub host_or_all : Option (Bytes × Bytes) → Bytes → Bytes
host_or_all none addr = addr
host_or_all (some (host, port)) addr = host

-- Whether the client is on this machine.
unfoldable pub is_local : Env → Request → Bool
unfolding split_host_port
is_local env r =
    loopback_ip
      (env.lib.parsers.parse_ip (host_or_all (split_host_port r.remote_addr) r.remote_addr))

-- loopbackOnly
unfoldable pub loopback_only : Env → Request → Handler → Handler
unfolding is_local
loopback_only env r next s = if is_local env r then next s else refuse 403 (text "loopback_only") s

abbrev pub route : Bytes → List Segment → Handler → Route Handler
route m pattern h = record { method = some m; pattern = pattern; handler = λ vs. h }

-- A route with one wildcard, whose value the handler is given.
abbrev pub route_of : Bytes → List Segment → (Bytes → Handler) → Route Handler
route_of m pattern h = record {
  method = some m;
  pattern = pattern;
  handler = λ vs. elim vs [ [] ↦ h [] | v ∷ more ↦ h v ];
}

abbrev pub v1_vault : List Segment → List Segment
v1_vault segs = lit (text "v1") ∷ lit (text "vault") ∷ segs

abbrev pub api_vault : List Segment → List Segment
api_vault segs = lit (text "api") ∷ lit (text "vault") ∷ segs

module _ (env : Env) (r : Request) where
  abbrev pub use_routes : List (Route Handler)
  use_routes =
      route post (v1_vault (lit (text "fetch") ∷ [])) (handle_fetch env r)
      ∷ route get (v1_vault (lit (text "credentials") ∷ [])) (handle_list env)
      ∷ route get (v1_vault (lit (text "guide") ∷ [])) (handle_guide env)
      ∷ []

  abbrev pub control_routes : List (Route Handler)
  control_routes =
      route post (api_vault (lit (text "credentials") ∷ [])) (handle_put env r)
      ∷ route get (api_vault (lit (text "credentials") ∷ [])) (handle_list env)
      ∷ route_of (text "DELETE") (api_vault (lit (text "credentials") ∷ wild ∷ []))
          (handle_delete env)
      ∷ route_of post (api_vault (lit (text "credentials") ∷ wild ∷ lit (text "enable") ∷ []))
          (handle_enable env r)
      ∷ route get (api_vault (lit (text "audit") ∷ [])) (handle_audit env)
      ∷ route get (api_vault (lit (text "audit") ∷ lit (text "verify") ∷ []))
          (handle_audit_verify env)
      ∷ route get (api_vault (lit (text "approvals") ∷ [])) (handle_pending env)
      ∷ route_of post (api_vault (lit (text "approvals") ∷ wild ∷ lit (text "decide") ∷ []))
          (handle_decide env r)
      ∷ []

  unfoldable pub use_plane : Handler
  use_plane = serve_mux use_routes miss r.method r.path

  unfoldable pub control_plane : Handler
  control_plane = serve_mux control_routes miss r.method r.path

  -- The use plane behind its guards: the token, and the loopback unless the LAN is admitted.
  unfoldable pub guarded_use : Handler
  guarded_use s =
      let guarded = require_token s.opt.use_token r use_plane in
      if s.opt.enable_lan then guarded s else loopback_only env r guarded s

  unfoldable pub guarded_control : Handler
  guarded_control = loopback_only env r (control_auth r control_plane)

  -- mountPlanes
  abbrev pub plane_routes : List (Route Handler)
  plane_routes =
      record { method = none; pattern = v1_vault (below ∷ []); handler = λ vs. guarded_use }
      ∷ record { method = none; pattern = api_vault (below ∷ []); handler = λ vs. guarded_control }
      ∷ []

  -- PlanesHandler
  unfoldable pub serve_planes : Handler
  serve_planes = serve_mux plane_routes miss r.method r.path

  -- Handler
  unfoldable pub serve : Handler
  serve =
      serve_mux
        (route get (lit [] ∷ []) (handle_root env)
          ∷ route get (lit (text "healthz") ∷ []) (handle_health env)
          ∷ plane_routes)
        miss r.method r.path

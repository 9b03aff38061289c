-- ===== src/Server/Separation.antt =====
-- What a client without the control token can do.
use joyvend_secretvault.Shared.{
  Option, ◌≡◌, refl, ◌⊎◌, inl, inr, Bool, false, ◌&&◌, ◌||◌, arith, Bool-cases, if-both,
  Option-cases, take,
}
use joyvend_secretvault.Text.{Bytes}
use joyvend_secretvault.Fetch.{FetchRequest, ConfirmRequest}
use joyvend_secretvault.Fetch.Keeping.{KeepsControl, KeepsControl-refl, IsCalm, fetch-KeepsControl}
use joyvend_secretvault.Http.{Request, serve_mux-All}
use joyvend_secretvault.Server.{Server, Response, Env, Handler, store_of, token_ok}
use joyvend_secretvault.Server.Handlers.{
  approver_after, asked_by, server_world, run_fetch, handle_fetch, handle_list, handle_guide,
  handle_health, handle_root,
}
use joyvend_secretvault.Server.Planes.{
  vault_token, session_ok, is_local, require_token, loopback_only, control_auth, use_plane,
  guarded_use, guarded_control, miss, plane_routes, serve_planes, serve,
}

-- The client is on this machine, and has the control token or the session.
abbrev pub has_control : Env → Request → Server → Bool
has_control env r s =
    is_local env r && (token_ok (vault_token r) s.opt.control_token || session_ok r s)

-- Nothing that is the human's has changed: the credentials, the flags, the key, the tokens, and, but
-- for the call's own request there and the steps that were made meanwhile, the approvals.
pub record IsSeparate (env : Env) (s t : Server) : Type 0 where
  pub control : KeepsControl (store_of s) (store_of t)
  pub same_options : t.opt ≡ s.opt
  pub approvals :
      (t.approver ≡ s.approver)
      ⊎ ((asked : Option ConfirmRequest) × (t.approver ≡ approver_after env asked s.approver))

module _ (env : Env) (r : Request) where
  abbrev Separates : Handler → Type 0
  Separates h = (s : Server) → IsSeparate env s (h s).0

  abbrev Kept : Server → Server × Response → Type 0
  Kept s o = IsSeparate env s o.0

  same-IsSeparate : (s : Server) → IsSeparate env s s
  same-IsSeparate s = record {
    control = KeepsControl-refl (store_of s);
    same_options = refl;
    approvals = inl refl;
  }

  run_fetch-Separates : IsCalm env.world → (fr : FetchRequest) → Separates (run_fetch env r fr)
  unfolding run_fetch
  run_fetch-Separates calm fr s = record {
    control = fetch-KeepsControl env.lib (server_world env s) fr r.remote_addr s.engine calm;
    same_options = refl;
    approvals = inr (asked_by env fr s, refl);
  }

  handle_fetch-Separates : IsCalm env.world → Separates (handle_fetch env r)
  unfolding handle_fetch
  handle_fetch-Separates calm s = elim (Option-cases (env.decode_fetch (take 8_388_608 r.body))) [
    | inl e ↦ rw (e, handle_fetch) (same-IsSeparate s)
    | inr (fr, e) ↦ rw (e, handle_fetch) (run_fetch-Separates calm fr s)
  ]

  use_plane-Separates : IsCalm env.world → Separates (use_plane env r)
  unfolding use_plane
  use_plane-Separates calm =
      serve_mux-All Separates _ miss r.method r.path
        (
          (λ _ vs. handle_fetch-Separates calm),
          (
            (λ _ vs s. unfold handle_list in same-IsSeparate s),
            ((λ _ vs s. unfold handle_guide in same-IsSeparate s), tt),
          ),
        )
        (λ code s. same-IsSeparate s)

  require_token-Separates :
      (token : Bytes) (next : Handler) → Separates next → Separates (require_token token r next)
  unfolding require_token
  require_token-Separates token next h s =
      if-both (Kept s) (token_ok (vault_token r) token) _ _ (h s) (same-IsSeparate s)

  loopback_only-Separates : (next : Handler) → Separates next → Separates (loopback_only env r next)
  unfolding loopback_only
  loopback_only-Separates next h s = if-both (Kept s) (is_local env r) _ _ (h s) (same-IsSeparate s)

  guarded_use-Separates : IsCalm env.world → Separates (guarded_use env r)
  unfolding guarded_use
  guarded_use-Separates calm s =
      let guarded = require_token s.opt.use_token r (use_plane env r) in
      let h =
        require_token-Separates s.opt.use_token (use_plane env r) (use_plane-Separates calm) in
      if-both (Kept s) s.opt.enable_lan _ _ (h s) (loopback_only-Separates guarded h s)

  guarded_control-shut :
      (s : Server) → has_control env r s ≡ false → IsSeparate env s (guarded_control env r s).0
  unfolding guarded_control loopback_only control_auth
  guarded_control-shut s h = elim (Bool-cases (is_local env r)) [
    | inr f ↦ rw f (same-IsSeparate s)
    | inl t ↦
        let no_token : token_ok (vault_token r) s.opt.control_token ≡ false = ground arith in
        let no_session : session_ok r s ≡ false = ground arith in
        rw (t, no_token, no_session) (same-IsSeparate s)
  ]

  pub serve_planes-IsSeparate :
      (s : Server)
      → IsCalm env.world
      → has_control env r s ≡ false
      → IsSeparate env s (serve_planes env r s).0
  unfolding serve_planes
  serve_planes-IsSeparate s calm h =
      serve_mux-All (λ (k : Handler). IsSeparate env s (k s).0) (plane_routes env r) miss r.method
        r.path ((λ _ vs. guarded_use-Separates calm s), ((λ _ vs. guarded_control-shut s h), tt))
        (λ code. same-IsSeparate s)

  -- Whatever request a client sends that has neither the control token nor the session, or is not on
  -- this machine: no credential is changed, none is enabled or disabled, the key and the tokens stay,
  -- and no approval is decided by it, if what others do during the call changes nothing of this.
  pub serve-IsSeparate :
      (s : Server)
      → IsCalm env.world
      → has_control env r s ≡ false
      → IsSeparate env s (serve env r s).0
  unfolding serve
  serve-IsSeparate s calm h =
      serve_mux-All (λ (k : Handler). IsSeparate env s (k s).0) _ miss r.method r.path
        (
          (λ _ vs. unfold handle_root in same-IsSeparate s),
          (
            (λ _ vs. unfold handle_health in same-IsSeparate s),
            ((λ _ vs. guarded_use-Separates calm s), ((λ _ vs. guarded_control-shut s h), tt)),
          ),
        )
        (λ code. same-IsSeparate s)

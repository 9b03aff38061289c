-- ===== src/Server/Keeping.antt =====
-- Handling a request leaves the options of the server of internal/server/server.go, and with them its
-- tokens, as they were.
use joyvend_secretvault.Shared.{◌≡◌, refl, List, [], ◌∷◌, arith, if-both}
use joyvend_secretvault.Text.{Bytes}
use joyvend_secretvault.Http.{Request, serve_mux-All}
use joyvend_secretvault.Server.{Server, Response, Handler, Env, token_ok}
use joyvend_secretvault.Server.Handlers.{
  run_fetch, handle_fetch, handle_list, run_put, handle_put, handle_delete, handle_enable,
  handle_audit, handle_audit_verify, handle_pending, handle_decide, handle_guide,
}
use joyvend_secretvault.Server.Planes.{
  vault_token, session_ok, is_local, require_token, loopback_only, control_auth, use_plane,
  control_plane, guarded_use, guarded_control, miss, plane_routes, serve_planes, use_routes,
  control_routes,
}

module _ (env : Env) (r : Request) where
  abbrev KeepsOptions : Handler → Type 0
  KeepsOptions h = (s : Server) → (h s).0.opt ≡ s.opt

  abbrev Kept : Server → Server × Response → Type 0
  Kept s o = o.0.opt ≡ s.opt

  handle_fetch-KeepsOptions : KeepsOptions (handle_fetch env r)
  unfolding handle_fetch run_fetch
  handle_fetch-KeepsOptions s = ground arith

  handle_put-KeepsOptions : KeepsOptions (handle_put env r)
  unfolding handle_put run_put
  handle_put-KeepsOptions s = ground arith

  use_plane-KeepsOptions : KeepsOptions (use_plane env r)
  unfolding use_plane
  use_plane-KeepsOptions =
      serve_mux-All KeepsOptions (use_routes env r) miss r.method r.path
        (
          (λ _ vs. handle_fetch-KeepsOptions),
          ((λ _ vs s. unfold handle_list in refl), ((λ _ vs s. unfold handle_guide in refl), tt)),
        )
        (λ code s. refl)

  with_value :
      (h : Bytes → Handler) (vs : List Bytes)
      → ((v : Bytes) → KeepsOptions (h v))
      → KeepsOptions (elim vs [ [] ↦ h [] | v ∷ more ↦ h v ])
  with_value h [] keeps = keeps []
  with_value h (v ∷ vs) keeps = keeps v

  control_plane-KeepsOptions : KeepsOptions (control_plane env r)
  unfolding control_plane
  control_plane-KeepsOptions =
      serve_mux-All KeepsOptions (control_routes env r) miss r.method r.path
        (
          (λ _ vs. handle_put-KeepsOptions),
          (
            (λ _ vs s. unfold handle_list in refl),
            (
              (λ _ vs. with_value (handle_delete env) vs (λ v s. unfold handle_delete in refl)),
              (
                (λ _ vs. with_value (handle_enable env r) vs (λ v s. unfold handle_enable in refl)),
                (
                  (λ _ vs s. unfold handle_audit in refl),
                  (
                    (λ _ vs s. unfold handle_audit_verify in refl),
                    (
                      (λ _ vs s. unfold handle_pending in refl),
                      (
                        (λ _ vs.
                            with_value (handle_decide env r) vs
                              (λ v s. unfold handle_decide in refl)),
                        tt,
                      ),
                    ),
                  ),
                ),
              ),
            ),
          ),
        )
        (λ code s. refl)

  require_token-KeepsOptions :
      (token : Bytes) → KeepsOptions (require_token token r (use_plane env r))
  unfolding require_token
  require_token-KeepsOptions token s =
      if-both (Kept s) (token_ok (vault_token r) token) _ _ (use_plane-KeepsOptions s) refl

  guarded_use-KeepsOptions : KeepsOptions (guarded_use env r)
  unfolding guarded_use loopback_only
  guarded_use-KeepsOptions s =
      let h = require_token-KeepsOptions s.opt.use_token s in
      if-both (Kept s) s.opt.enable_lan _ _ h (if-both (Kept s) (is_local env r) _ _ h refl)

  guarded_control-KeepsOptions : KeepsOptions (guarded_control env r)
  unfolding guarded_control loopback_only control_auth
  guarded_control-KeepsOptions s =
      let h = control_plane-KeepsOptions s in
      if-both (Kept s) (is_local env r) _ _
        (if-both (Kept s) (token_ok (vault_token r) s.opt.control_token) _ _ h
          (if-both (Kept s) (session_ok r s) _ _ h refl))
        refl

  pub serve_planes-KeepsOptions : KeepsOptions (serve_planes env r)
  unfolding serve_planes
  serve_planes-KeepsOptions =
      serve_mux-All KeepsOptions (plane_routes env r) miss r.method r.path
        ((λ _ vs. guarded_use-KeepsOptions), ((λ _ vs. guarded_control-KeepsOptions), tt))
        (λ code s. refl)

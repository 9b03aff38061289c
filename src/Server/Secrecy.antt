-- ===== src/Server/Secrecy.antt =====
-- What the answers of the planes depend on.
use joyvend_secretvault.Shared.{
  ◌≡◌, ◌≢◌, refl, Bool, true, false, some, [], ◌∷◌, arith, if◌then◌else◌,
}
use mathlib.Core.Path.{ap₂}
use joyvend_secretvault.Text.{Bytes, text, bytes_eq}
use joyvend_secretvault.Maps.{Map}
use joyvend_secretvault.Model.{Credential}
use joyvend_secretvault.Store.{
  Library, Store, with_credentials, fingerprint, meta_locked, metas, list_meta,
}
use joyvend_secretvault.Store.Audit.{verify_audit}
use joyvend_secretvault.Http.{Request, get, post, admits, serve_mux-All}
use joyvend_secretvault.Server.{Server, Response, Env, Handler, store_of, with_store, token_ok}
use joyvend_secretvault.Server.Handlers.{
  handle_list, handle_guide, handle_health, handle_root, handle_audit, handle_audit_verify,
  handle_pending,
}
use joyvend_secretvault.Server.Planes.{
  vault_token, session_ok, is_local, require_token, loopback_only, control_auth, use_plane,
  control_plane, guarded_use, guarded_control, miss, serve,
}

-- Other values for all that a credential hides.
pub record Hidden : Type 0 where
  pub secret : Credential → Bytes
  pub header_name : Credential → Bytes
  pub username : Credential → Bytes
  pub template : Credential → Bytes

abbrev pub rehide : Hidden → Credential → Credential
rehide x c = record c {
  secret = x.secret c;
  header_name = x.header_name c;
  username = x.username c;
  template = x.template c;
}

abbrev pub rehide_all : Hidden → Map Credential → Map Credential
rehide_all x [] = []
rehide_all x ((name, c) ∷ m) = (name, rehide x c) ∷ rehide_all x m

abbrev pub rehide_store : Hidden → Store → Store
rehide_store x st = with_credentials (rehide_all x st.doc.credentials) st

abbrev pub rehide_server : Hidden → Server → Server
rehide_server x s = with_store (rehide_store x (store_of s)) s

-- The other secrets have the same fingerprints.
abbrev pub KeepsFingerprints : Library → Store → Hidden → Type 0
KeepsFingerprints lib st x =
    (c : Credential) → fingerprint lib st (x.secret c) ≡ fingerprint lib st c.secret

module _ (lib : Library) (x : Hidden) (st : Store) (kept : KeepsFingerprints lib st x) where
  meta_locked-rehide :
      (name : Bytes) (c : Credential)
      → meta_locked lib (rehide_store x st) name (rehide x c) ≡ meta_locked lib st name c
  unfolding meta_locked
  meta_locked-rehide name c = ground (arith, kept c)

  metas-rehide :
      (m : Map Credential) → metas lib (rehide_store x st) (rehide_all x m) ≡ metas lib st m
  metas-rehide [] = refl
  metas-rehide ((name, c) ∷ m) = ap₂ (λ y ys. y ∷ ys) (meta_locked-rehide name c) (metas-rehide m)

  list_meta-rehide : list_meta lib (rehide_store x st) ≡ list_meta lib st
  unfolding list_meta
  list_meta-rehide = metas-rehide st.doc.credentials

if-Hides :
    (b : Bool) (o o' p p' : Server × Response)
    → o.1 ≡ o'.1
    → p.1 ≡ p'.1
    → (if b then o else p).1 ≡ (if b then o' else p').1
if-Hides true o o' p p' h k = h
if-Hides false o o' p p' h k = k

not_get : (want m : Bytes) → bytes_eq want get ≡ false → m ≡ get → admits (some want) m ≢ true
not_get want m other e h = ground arith

module _ (env : Env) (r : Request) (x : Hidden) (s : Server) where
  -- The handler answers the same for both servers.
  abbrev Hides : Handler → Type 0
  Hides h = (h (rehide_server x s)).1 ≡ (h s).1

  module _ (kept : KeepsFingerprints env.lib (store_of s) x) (reads : r.method ≡ get) where
    handle_list-Hides : Hides (handle_list env)
    unfolding handle_list
    handle_list-Hides = rw (list_meta-rehide env.lib x (store_of s) kept) refl

    use_plane-Hides : Hides (use_plane env r)
    unfolding use_plane bytes_eq
    use_plane-Hides =
        serve_mux-All Hides _ miss r.method r.path
          (
            (λ a vs. absurd (not_get post r.method refl reads a)),
            ((λ _ vs. handle_list-Hides), ((λ _ vs. unfold handle_guide in refl), tt)),
          )
          (λ code. refl)

    control_plane-Hides : Hides (control_plane env r)
    unfolding control_plane bytes_eq
    control_plane-Hides =
        serve_mux-All Hides _ miss r.method r.path
          (
            (λ a vs. absurd (not_get post r.method refl reads a)),
            (
              (λ _ vs. handle_list-Hides),
              (
                (λ a vs. absurd (not_get (text "DELETE") r.method refl reads a)),
                (
                  (λ a vs. absurd (not_get post r.method refl reads a)),
                  (
                    (λ _ vs. unfold handle_audit in refl),
                    (
                      (λ _ vs. unfold handle_audit_verify verify_audit in refl),
                      (
                        (λ _ vs. unfold handle_pending in refl),
                        ((λ a vs. absurd (not_get post r.method refl reads a)), tt),
                      ),
                    ),
                  ),
                ),
              ),
            ),
          )
          (λ code. refl)

    require_token-Hides : (token : Bytes) → Hides (require_token token r (use_plane env r))
    unfolding require_token
    require_token-Hides token =
        if-Hides (token_ok (vault_token r) token) _ _ _ _ use_plane-Hides refl

    guarded_use-Hides : Hides (guarded_use env r)
    unfolding guarded_use loopback_only
    guarded_use-Hides =
        let h = require_token-Hides s.opt.use_token in
        if-Hides s.opt.enable_lan _ _ _ _ h (if-Hides (is_local env r) _ _ _ _ h refl)

    control_auth-Hides : Hides (control_auth r (control_plane env r))
    unfolding control_auth session_ok
    control_auth-Hides =
        if-Hides (token_ok (vault_token r) s.opt.control_token) _ _ _ _ control_plane-Hides
          (if-Hides (session_ok r s) _ _ _ _ control_plane-Hides refl)

    guarded_control-Hides : Hides (guarded_control env r)
    unfolding guarded_control loopback_only
    guarded_control-Hides = if-Hides (is_local env r) _ _ _ _ control_auth-Hides refl

    -- The answer to a GET request on any path, with whatever tokens, is the same when the secrets,
    -- header names, user names and templates of all credentials are replaced, by secrets of the same
    -- fingerprints. So neither plane shows more of them than the fingerprints.
    pub serve-rehide_server : (serve env r (rehide_server x s)).1 ≡ (serve env r s).1
    unfolding serve
    serve-rehide_server =
        serve_mux-All Hides _ miss r.method r.path
          (
            (λ _ vs. unfold handle_root in refl),
            (
              (λ _ vs. unfold handle_health in refl),
              ((λ _ vs. guarded_use-Hides), ((λ _ vs. guarded_control-Hides), tt)),
            ),
          )
          (λ code. refl)

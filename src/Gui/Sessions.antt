-- ===== src/Gui/Sessions.antt =====
-- The session of the web app of internal/gui/gui.go, and that of the server that it holds.
use joyvend_secretvault.Shared.{
  ℕ, ◌≡◌, refl, ap, ◌∙◌, Bool, true, false, not, ◌&&◌, Option, none, some, List, [], ◌∷◌, arith,
  ◌==◌, is_some, is_empty, if-both, Option-cases, inl, inr, pos_part, ℤ, Result, ok, err,
}
use joyvend_secretvault.Text.{Bytes}
use joyvend_secretvault.Store.{Library, Store, StoreError, Io}
use joyvend_secretvault.Http.{Request, serve_mux-All}
use joyvend_secretvault.Server.{Server, token_ok, new_server, with_defaults}
use joyvend_secretvault.Server.Planes.{session_ok, is_local}
use joyvend_secretvault.Gui.{
  App, is_unlocked, vault_file, lock_now, is_idle, maybe_idle_lock, GuiEnv, GuiResponse, GuiHandler,
  session_cookie_name, has_launch_token, has_session, is_agent_path, new_app,
}
use joyvend_secretvault.Gui.Handlers.{
  store_for, opened_with, open_with_password, open_vault, setup, unlock, lock, state, index,
  proxy_to, proxy, gui_routes, gui_miss, handler, touch_human, serve_gui,
}
use joyvend_secretvault.Gui.Idle.{lock_now-srv}
use joyvend_secretvault.Gui.Running.{Event, request, tick, end, handle_event, run_app}
use joyvend_secretvault.Server.Keeping.{serve_planes-KeepsOptions}

-- The server that the app holds has the app's session, under the app's cookie, and keeps the agent's
-- plane on this machine too; without a server there is no session.
abbrev Agrees : Option Server → Bytes → Type 0
Agrees none session = session ≡ []
Agrees (some s) session =
    (s.opt.control_session ≡ session)
    × (s.opt.session_cookie ≡ session_cookie_name)
    × (s.opt.enable_lan ≡ false)

abbrev IsCoherent : App → Type 0
IsCoherent a = Agrees a.srv a.session

Agrees-none : (o : Option Server) (session : Bytes) → o ≡ none → session ≡ [] → Agrees o session
Agrees-none none session e h = h
Agrees-none (some s) session e h = cc

session-lock_now : (lib : Library) (io : Io) (a : App) → (lock_now lib io a).0.session ≡ []
unfolding lock_now
session-lock_now lib io a = ground arith

lock_now-IsCoherent : (lib : Library) (io : Io) (a : App) → IsCoherent (lock_now lib io a).0
lock_now-IsCoherent lib io a =
    Agrees-none (lock_now lib io a).0.srv (lock_now lib io a).0.session (lock_now-srv lib io a)
      (session-lock_now lib io a)

module _ (g : GuiEnv) (r : Request) where
  abbrev Coherent : GuiHandler → Type 0
  Coherent h = (a : App) → IsCoherent a → IsCoherent (h a).0

  abbrev Good : App × GuiResponse → Type 0
  Good o = IsCoherent o.0

  opened_with-Coherent : (made : Result StoreError Store) → Coherent (opened_with g made)
  unfolding opened_with new_server with_defaults
  opened_with-Coherent (err e) a h = h
  opened_with-Coherent (ok st) a h = (refl, refl, refl)

  open_vault-Coherent : (create : Bool) → Coherent (open_vault g create r)
  unfolding open_vault open_with_password
  open_vault-Coherent create a h = elim (Option-cases (g.decode_password r.body)) [
    | inl e ↦ rw (e, open_vault) h
    | inr (password, e) ↦
        rw (e, open_vault)
          (if-both Good (is_empty password) _ _ h (
            if-both Good (is_unlocked a) _ _ h
              (opened_with-Coherent (store_for g create password a) a h)))
  ]

  setup-Coherent : Coherent (setup g r)
  unfolding setup
  setup-Coherent a h =
      if-both Good (has_launch_token r a) _ _
        (if-both Good (is_some (vault_file a)) _ _ h (open_vault-Coherent true a h)) h

  unlock-Coherent : Coherent (unlock g r)
  unfolding unlock
  unlock-Coherent a h = if-both Good (has_launch_token r a) _ _ (open_vault-Coherent false a h) h

  lock-Coherent : Coherent (lock g r)
  unfolding lock
  lock-Coherent a h =
      if-both Good (has_session r a) _ _ (lock_now-IsCoherent g.env.lib g.env.io a) h

  proxy_to-Coherent :
      (srv : Option Server) (a : App)
      → Agrees srv a.session
      → IsCoherent a
      → IsCoherent (proxy_to g srv r a).0
  unfolding proxy_to
  proxy_to-Coherent none a h k = k
  proxy_to-Coherent (some s) a (session, cookie, lan) k =
      let same = serve_planes-KeepsOptions g.env r s in
      (
        ap (λ o. o.control_session) same ∙ session,
        ap (λ o. o.session_cookie) same ∙ cookie,
        ap (λ o. o.enable_lan) same ∙ lan,
      )

  proxy-Coherent : Coherent (proxy g r)
  unfolding proxy
  proxy-Coherent a h = proxy_to-Coherent a.srv a h h

  handler-Coherent : Coherent (handler g r)
  unfolding handler
  handler-Coherent =
      serve_mux-All Coherent (gui_routes g r) (gui_miss g) r.method r.path
        (
          (λ _ vs a h. unfold index in h),
          (
            (λ _ vs a h. unfold state in h),
            (
              (λ _ vs. setup-Coherent),
              (
                (λ _ vs. unlock-Coherent),
                (
                  (λ _ vs. lock-Coherent),
                  ((λ _ vs. proxy-Coherent), ((λ _ vs. proxy-Coherent), tt)),
                ),
              ),
            ),
          ),
        )
        (λ code a h. h)

  touch_human-IsCoherent : (a : App) → IsCoherent a → IsCoherent (touch_human g r a)
  unfolding touch_human
  touch_human-IsCoherent a h = if-both IsCoherent (not (is_agent_path r) && is_unlocked a) _ _ h h

  serve_gui-IsCoherent : (a : App) → IsCoherent a → IsCoherent (serve_gui g r a).0
  unfolding serve_gui
  serve_gui-IsCoherent a h =
      if-both Good (is_local g.env r) _ _
        (handler-Coherent (touch_human g r a) (touch_human-IsCoherent a h)) h

maybe_idle_lock-IsCoherent :
    (lib : Library) (io : Io) (now : ℕ) (a : App)
    → IsCoherent a
    → IsCoherent (maybe_idle_lock lib io now a)
unfolding maybe_idle_lock
maybe_idle_lock-IsCoherent lib io now a h =
    if-both IsCoherent (pos_part a.idle == 0) _ _ h
      (if-both IsCoherent (is_idle lib now a) _ _ (lock_now-IsCoherent lib io a) h)

run_app-IsCoherent : (events : List Event) (a : App) → IsCoherent a → IsCoherent (run_app events a)
unfolding run_app handle_event
run_app-IsCoherent [] a h = h
run_app-IsCoherent (end lib io ∷ events) a h = lock_now-IsCoherent lib io a
run_app-IsCoherent (request g r ∷ events) a h =
    run_app-IsCoherent events (serve_gui g r a).0 (serve_gui-IsCoherent g r a h)
run_app-IsCoherent (tick lib io now ∷ events) a h =
    run_app-IsCoherent events (maybe_idle_lock lib io now a)
      (maybe_idle_lock-IsCoherent lib io now a h)

-- Whether the control plane of the server takes the cookie of the request for a session.
abbrev pub plane_session : Request → Option Server → Bool
plane_session r none = false
plane_session r (some s) = session_ok r s

abbrev pub admits_lan : Option Server → Bool
admits_lan none = false
admits_lan (some s) = s.opt.enable_lan

IsCoherent-session :
    (r : Request) (o : Option Server) (a : App)
    → o ≡ a.srv
    → Agrees o a.session
    → (has_session r a ≡ plane_session r o) × (admits_lan o ≡ false)
unfolding has_session session_ok token_ok
IsCoherent-session r none a e h = (rw h refl, refl)
IsCoherent-session r (some s) a e (session, cookie, lan) = (ground (arith, session, cookie), lan)

-- However an app is used that starts locked: the cookie that the app takes for its session, to lock
-- the vault and to show the token of the agent, is exactly the one that the control plane of the
-- server behind it takes; a locked app takes none. And the server never admits the LAN.
pub run_app-has_session :
    (drawn : Bytes) (idle : ℤ) (disk : Option Bytes) (events : List Event) (r : Request)
    → (has_session r (run_app events (new_app drawn idle disk))
        ≡ plane_session r (run_app events (new_app drawn idle disk)).srv)
      × (admits_lan (run_app events (new_app drawn idle disk)).srv ≡ false)
unfolding new_app
run_app-has_session drawn idle disk events r =
    let a = run_app events (new_app drawn idle disk) in
    IsCoherent-session r a.srv a refl (run_app-IsCoherent events (new_app drawn idle disk) refl)

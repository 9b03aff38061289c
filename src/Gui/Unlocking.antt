-- ===== src/Gui/Unlocking.antt =====
-- Who can unlock the app of internal/gui/gui.go.
use joyvend_secretvault.Shared.{
  ℕ, ◌≡◌, ◌≢◌, refl, ap, ◌⊎◌, Bool, true, false, not, ◌&&◌, Option, none, some, List, [], ◌∷◌,
  arith, is_some, is_empty, if-both, Option-cases, Bool-cases, inl, inr, Result, ok, err,
}
use joyvend_secretvault.Text.{Bytes, text, bytes_eq_iff}
use joyvend_secretvault.Auth.{get_header}
use joyvend_secretvault.Store.{Library, Store, StoreError, Io}
use joyvend_secretvault.Store.Lifecycle.{create_store, open_store}
use joyvend_secretvault.Http.{Request, serve_mux-All}
use joyvend_secretvault.Server.{Server}
use joyvend_secretvault.Server.Planes.{is_local}
use joyvend_secretvault.Gui.{
  App, is_unlocked, vault_file, lock_now, maybe_idle_lock, GuiEnv, GuiResponse, GuiHandler,
  rand_hex, has_launch_token, has_session, is_agent_path,
}
use joyvend_secretvault.Gui.Handlers.{
  session_server, store_for, opened_with, open_with_password, open_vault, setup, unlock, lock,
  state, index, proxy_to, proxy, gui_routes, gui_miss, handler, touch_human, serve_gui,
}
use joyvend_secretvault.Gui.Running.{Event, request, tick, end, handle_event, run_app}
use joyvend_secretvault.Gui.Idle.{lock_now-srv}

-- The request has unlocked: it shows the launch token, and its password, which is not empty, has
-- opened the file of the vault, or has created one where there was none.
pub record IsUnlocking (g : GuiEnv) (r : Request) (a b : App) : Type 0 where
  pub launched : get_header (text "X-Launch-Token") r.headers ≡ a.launch_token
  pub token_not_empty : is_empty a.launch_token ≡ false
  pub password : Bytes
  pub password_sent : g.decode_password r.body ≡ some password
  pub password_not_empty : is_empty password ≡ false
  pub store : Store
  pub store_is :
      (open_store g.env.lib a.disk password ≡ ok store)
      ⊎ ((a.disk ≡ none)
          × (create_store g.env.lib g.env.io g.salt g.randoms a.disk password ≡ ok store))
  pub server_is : b.srv ≡ some (session_server g store)
  pub session_is : b.session ≡ rand_hex g.session_random

module _ (g : GuiEnv) (r : Request) (a : App) (shut : a.srv ≡ none) where
  -- If an answer leaves the app unlocked, the request has unlocked it.
  abbrev Gated : App × GuiResponse → Type 0
  Gated o = is_unlocked o.0 ≡ true → IsUnlocking g r a o.0

  still_shut : (b : App) → b.srv ≡ none → is_unlocked b ≢ true
  still_shut b e h = cc

  same_file : vault_file a ≡ a.disk
  same_file = ground arith

  file_or_new :
      (create : Bool) (password : Bytes) (st : Store)
      → (create ≡ true → a.disk ≡ none)
      → store_for g create password a ≡ ok st
      → (open_store g.env.lib a.disk password ≡ ok st)
        ⊎ ((a.disk ≡ none)
            × (create_store g.env.lib g.env.io g.salt g.randoms a.disk password ≡ ok st))
  file_or_new true password st fresh made = inr (fresh refl, rw same_file at made)
  file_or_new false password st fresh made = inl (rw same_file at made)

  launch_token_lem :
      has_launch_token r a ≡ true
      → (get_header (text "X-Launch-Token") r.headers ≡ a.launch_token)
        × (is_empty a.launch_token ≡ false)
  unfolding has_launch_token
  launch_token_lem h =
      let same =
        (bytes_eq_iff (get_header (text "X-Launch-Token") r.headers) a.launch_token).0
          (ground arith) in
      let filled : is_empty (get_header (text "X-Launch-Token") r.headers) ≡ false = ground arith in
      (same, rw same at filled)

  module _ (has_token : has_launch_token r a ≡ true) (create : Bool)
      (fresh : create ≡ true → a.disk ≡ none) where
    opened_with-Gated :
        (password : Bytes) (made : Result StoreError Store)
        → g.decode_password r.body ≡ some password
        → is_empty password ≡ false
        → store_for g create password a ≡ made
        → Gated (opened_with g made a)
    unfolding opened_with
    opened_with-Gated password (err e) sent filled same h = absurd (still_shut a shut h)
    opened_with-Gated password (ok st) sent filled same h =
        let (launched, not_empty) = launch_token_lem has_token in
        record {
          launched = launched;
          token_not_empty = not_empty;
          password = password;
          password_sent = sent;
          password_not_empty = filled;
          store = st;
          store_is = file_or_new create password st fresh same;
          server_is = refl;
          session_is = refl;
        }

    open_with_password-Gated :
        (password : Bytes)
        → g.decode_password r.body ≡ some password
        → Gated (open_with_password g create password a)
    unfolding open_with_password
    open_with_password-Gated password sent = elim (Bool-cases (is_empty password)) [
      | inl t ↦ rw t (λ h. absurd (still_shut a shut h))
      | inr filled ↦ rw filled (
          if-both Gated (is_unlocked a) _ _ (λ h. absurd (still_shut a shut h))
            (opened_with-Gated password _ sent filled refl))
    ]

    open_vault-Gated : Gated (open_vault g create r a)
    unfolding open_vault
    open_vault-Gated = elim (Option-cases (g.decode_password r.body)) [
      | inl e ↦ rw (e, open_vault) (λ h. absurd (still_shut a shut h))
      | inr (password, e) ↦ rw (e, open_vault) (open_with_password-Gated password e)
    ]

  setup-Gated : Gated (setup g r a)
  unfolding setup
  setup-Gated = elim (Bool-cases (has_launch_token r a)) [
    | inr f ↦ rw f (λ h. absurd (still_shut a shut h))
    | inl t ↦ rw t (elim (Bool-cases (is_some (vault_file a))) [
      | inl there ↦ rw there (λ h. absurd (still_shut a shut h))
      | inr f ↦ rw f (open_vault-Gated t true (λ _. ground arith))
    ])
  ]

  unlock-Gated : Gated (unlock g r a)
  unfolding unlock
  unlock-Gated = elim (Bool-cases (has_launch_token r a)) [
    | inr f ↦ rw f (λ h. absurd (still_shut a shut h))
    | inl t ↦ rw t (open_vault-Gated t false (λ e. absurd (ground arith)))
  ]

  lock-Gated : Gated (lock g r a)
  unfolding lock
  lock-Gated =
      if-both Gated (has_session r a) _ _
        (λ h.
          absurd
            (still_shut (lock_now g.env.lib g.env.io a).0 (lock_now-srv g.env.lib g.env.io a) h))
        (λ h. absurd (still_shut a shut h))

  proxy_to-Gated : (srv : Option Server) → srv ≡ none → Gated (proxy_to g srv r a)
  unfolding proxy_to
  proxy_to-Gated none e h = absurd (still_shut a shut h)
  proxy_to-Gated (some s) e h = cc

  proxy-Gated : Gated (proxy g r a)
  unfolding proxy
  proxy-Gated = proxy_to-Gated a.srv shut

  handler-Gated : Gated (handler g r a)
  unfolding handler
  handler-Gated =
      serve_mux-All (λ (h : GuiHandler). Gated (h a)) (gui_routes g r) (gui_miss g) r.method r.path
        (
          (λ _ vs. unfold index in λ h. absurd (still_shut a shut h)),
          (
            (λ _ vs. unfold state in λ h. absurd (still_shut a shut h)),
            (
              (λ _ vs. setup-Gated),
              (
                (λ _ vs. unlock-Gated),
                ((λ _ vs. lock-Gated), ((λ _ vs. proxy-Gated), ((λ _ vs. proxy-Gated), tt))),
              ),
            ),
          ),
        )
        (λ code h. absurd (still_shut a shut h))

-- An event that unlocks: a request from this machine that does.
abbrev pub Unlocks : Event → App → App → Type 0
Unlocks (request g r) a b = (is_local g.env r ≡ true) × IsUnlocking g r a b
Unlocks (tick lib io now) a b = true ≡ false
Unlocks (end lib io) a b = true ≡ false

-- One of the events unlocks.
abbrev pub HasUnlocking : List Event → App → Type 0
HasUnlocking [] a = true ≡ false
HasUnlocking (e ∷ events) a =
    Unlocks e a (handle_event e a) ⊎ HasUnlocking events (handle_event e a)

touch_human_shut : (g : GuiEnv) (r : Request) (a : App) → a.srv ≡ none → touch_human g r a ≡ a
unfolding touch_human
touch_human_shut g r a shut =
    let no_touch : (not (is_agent_path r) && is_unlocked a) ≡ false = ground arith in
    rw no_touch refl

serve_gui_shut :
    (g : GuiEnv) (r : Request) (a : App)
    → a.srv ≡ none
    → is_local g.env r ≡ true
    → serve_gui g r a ≡ handler g r a
unfolding serve_gui
serve_gui_shut g r a shut near = rw (near, touch_human_shut g r a shut) refl

serve_gui-Unlocks :
    (g : GuiEnv) (r : Request) (a : App)
    → a.srv ≡ none
    → is_unlocked (serve_gui g r a).0 ≡ true
    → Unlocks (request g r) a (serve_gui g r a).0
unfolding serve_gui
serve_gui-Unlocks g r a shut h = elim (Bool-cases (is_local g.env r)) [
  | inr f ↦ absurd (still_shut g r a shut a shut (rw (serve_gui, f) at h))
  | inl t ↦
      let same = serve_gui_shut g r a shut t in rw same (t, handler-Gated g r a shut (rw same at h))
]

maybe_idle_lock_shut :
    (lib : Library) (io : Io) (now : ℕ) (a : App)
    → a.srv ≡ none
    → (maybe_idle_lock lib io now a).srv ≡ none
unfolding maybe_idle_lock
maybe_idle_lock_shut lib io now a shut = ground (arith, lock_now-srv lib io a)

handle_event-Unlocks :
    (e : Event) (a : App)
    → a.srv ≡ none
    → is_unlocked (handle_event e a) ≡ true
    → Unlocks e a (handle_event e a)
unfolding handle_event
handle_event-Unlocks (request g r) a shut h = serve_gui-Unlocks g r a shut h
handle_event-Unlocks (tick lib io now) a shut h =
    cc (h, ap is_some (maybe_idle_lock_shut lib io now a shut))
handle_event-Unlocks (end lib io) a shut h = cc (h, ap is_some (lock_now-srv lib io a))

-- If the app is unlocked behind a sequence of events that began locked, one of them was a request
-- from this machine, with the launch token and with a password that opened the vault, or that
-- created it where there was none. No tick, and no request of another kind, unlocks.
pub run_app-HasUnlocking :
    (events : List Event) (a : App)
    → a.srv ≡ none
    → is_unlocked (run_app events a) ≡ true
    → HasUnlocking events a
unfolding run_app
run_app-HasUnlocking [] a shut unlocked = cc
run_app-HasUnlocking (end lib io ∷ events) a shut unlocked =
    inl (handle_event-Unlocks (end lib io) a shut unlocked)
run_app-HasUnlocking (request g r ∷ events) a shut unlocked =
    elim (Option-cases (handle_event (request g r) a).srv) [
      | inl e ↦ inr (run_app-HasUnlocking events (handle_event (request g r) a) e unlocked)
      | inr (s, e) ↦ inl (handle_event-Unlocks (request g r) a shut (ap is_some e))
    ]
run_app-HasUnlocking (tick lib io now ∷ events) a shut unlocked =
    elim (Option-cases (handle_event (tick lib io now) a).srv) [
      | inl e ↦ inr (run_app-HasUnlocking events (handle_event (tick lib io now) a) e unlocked)
      | inr (s, e) ↦ inl (handle_event-Unlocks (tick lib io now) a shut (ap is_some e))
    ]

-- ===== src/Gui/Idle.antt =====
-- The idle clock of internal/gui/gui.go: what moves it, and what its tick does.
use joyvend_secretvault.Shared.{
  ℕ, ◌+◌, ◌<◌, ◌≡◌, ◌≢◌, refl, Bool, true, false, not, ◌&&◌, Option, none, some, List, [], ◌∷◌,
  ◌++◌, arith, ◌==◌, is_some, is_empty, if-both, Option-cases, Bool-cases, inl, inr, pos_part,
  Result, ok, err,
}
use joyvend_secretvault.Text.{Bytes}
use joyvend_secretvault.Store.{Library, Store, StoreError, Io}
use joyvend_secretvault.Http.{Request, serve_mux-All}
use joyvend_secretvault.Server.{Server}
use joyvend_secretvault.Server.Planes.{is_local}
use joyvend_secretvault.Gui.{
  App, is_unlocked, vault_file, lock_now, is_idle, maybe_idle_lock, GuiEnv, GuiResponse, GuiHandler,
  has_launch_token, has_session, is_agent_path,
}
use joyvend_secretvault.Gui.Handlers.{
  store_for, opened_with, open_with_password, open_vault, setup, unlock, lock, state, index,
  proxy_to, proxy, gui_routes, gui_miss, handler, touch_human, serve_gui,
}
use joyvend_secretvault.Gui.Running.{Event, request, tick, end, handle_event, run_app}

pub record KeepsClock (a b : App) : Type 0 where
  pub same_idle : b.idle ≡ a.idle
  pub same_launch_token : b.launch_token ≡ a.launch_token
  pub same_last_seen : b.last_seen ≡ a.last_seen

KeepsClock-refl : (a : App) → KeepsClock a a
KeepsClock-refl a = record { same_idle = refl; same_launch_token = refl; same_last_seen = refl }

pub lock_now-KeepsClock : (lib : Library) (io : Io) (a : App) → KeepsClock a (lock_now lib io a).0
unfolding lock_now
lock_now-KeepsClock lib io a = elim (Option-cases a.srv) [
  | inl e ↦
      rw (e, lock_now)
        (record { same_idle = refl; same_launch_token = refl; same_last_seen = refl })
  | inr (s, e) ↦
      rw (e, lock_now)
        (record { same_idle = refl; same_launch_token = refl; same_last_seen = refl })
]

pub lock_now-srv : (lib : Library) (io : Io) (a : App) → (lock_now lib io a).0.srv ≡ none
unfolding lock_now
lock_now-srv lib io a = ground arith

module _ (g : GuiEnv) (r : Request) where
  abbrev Clocked : GuiHandler → Type 0
  Clocked h = (a : App) → KeepsClock a (h a).0

  abbrev Kept : App → App × GuiResponse → Type 0
  Kept a o = KeepsClock a o.0

  opened_with-Clocked : (made : Result StoreError Store) → Clocked (opened_with g made)
  unfolding opened_with
  opened_with-Clocked (err e) a = KeepsClock-refl a
  opened_with-Clocked (ok st) a = record {
    same_idle = refl;
    same_launch_token = refl;
    same_last_seen = refl;
  }

  open_with_password-Clocked :
      (create : Bool) (password : Bytes) → Clocked (open_with_password g create password)
  unfolding open_with_password
  open_with_password-Clocked create password a =
      let same = KeepsClock-refl a in
      if-both (Kept a) (is_empty password) _ _ same (
        if-both (Kept a) (is_unlocked a) _ _ same
          (opened_with-Clocked (store_for g create password a) a))

  open_vault-Clocked : (create : Bool) → Clocked (open_vault g create r)
  unfolding open_vault
  open_vault-Clocked create a = elim (Option-cases (g.decode_password r.body)) [
    | inl e ↦ rw (e, open_vault) (KeepsClock-refl a)
    | inr (password, e) ↦ rw (e, open_vault) (open_with_password-Clocked create password a)
  ]

  setup-Clocked : Clocked (setup g r)
  unfolding setup
  setup-Clocked a =
      let same = KeepsClock-refl a in
      if-both (Kept a) (has_launch_token r a) _ _
        (if-both (Kept a) (is_some (vault_file a)) _ _ same (open_vault-Clocked true a)) same

  unlock-Clocked : Clocked (unlock g r)
  unfolding unlock
  unlock-Clocked a =
      if-both (Kept a) (has_launch_token r a) _ _ (open_vault-Clocked false a) (KeepsClock-refl a)

  lock-Clocked : Clocked (lock g r)
  unfolding lock
  lock-Clocked a =
      if-both (Kept a) (has_session r a) _ _ (lock_now-KeepsClock g.env.lib g.env.io a)
        (KeepsClock-refl a)

  proxy_to-Clocked : (srv : Option Server) → Clocked (proxy_to g srv r)
  unfolding proxy_to
  proxy_to-Clocked none a = KeepsClock-refl a
  proxy_to-Clocked (some s) a = record {
    same_idle = refl;
    same_launch_token = refl;
    same_last_seen = refl;
  }

  proxy-Clocked : Clocked (proxy g r)
  unfolding proxy
  proxy-Clocked a = proxy_to-Clocked a.srv a

  handler-Clocked : Clocked (handler g r)
  unfolding handler
  handler-Clocked =
      serve_mux-All Clocked (gui_routes g r) (gui_miss g) r.method r.path
        (
          (λ _ vs a. unfold index in KeepsClock-refl a),
          (
            (λ _ vs a. unfold state in KeepsClock-refl a),
            (
              (λ _ vs. setup-Clocked),
              (
                (λ _ vs. unlock-Clocked),
                ((λ _ vs. lock-Clocked), ((λ _ vs. proxy-Clocked), ((λ _ vs. proxy-Clocked), tt))),
              ),
            ),
          ),
        )
        (λ code a. KeepsClock-refl a)

-- Whether an event counts as activity: a local request that is not the agent's, while unlocked.
abbrev pub counts : Event → App → Bool
counts (request g r) a = is_local g.env r && (not (is_agent_path r) && is_unlocked a)
counts (tick lib io now) a = false
counts (end lib io) a = false

abbrev pub IsQuiet : List Event → App → Type 0
IsQuiet [] a = Unit
IsQuiet (e ∷ events) a = (counts e a ≡ false) × IsQuiet events (handle_event e a)

serve_gui-KeepsClock :
    (g : GuiEnv) (r : Request) (a : App)
    → counts (request g r) a ≡ false
    → KeepsClock a (serve_gui g r a).0
unfolding serve_gui touch_human
serve_gui-KeepsClock g r a quiet = elim (Bool-cases (is_local g.env r)) [
  | inr f ↦ rw (f, serve_gui) (KeepsClock-refl a)
  | inl t ↦
      let untouched : (not (is_agent_path r) && is_unlocked a) ≡ false = ground arith in
      rw (t, untouched, serve_gui, touch_human) (handler-Clocked g r a)
]

maybe_idle_lock-KeepsClock :
    (lib : Library) (io : Io) (now : ℕ) (a : App) → KeepsClock a (maybe_idle_lock lib io now a)
unfolding maybe_idle_lock
maybe_idle_lock-KeepsClock lib io now a =
    let same = KeepsClock-refl a in
    if-both (KeepsClock a) (pos_part a.idle == 0) _ _ same
      (if-both (KeepsClock a) (is_idle lib now a) _ _ (lock_now-KeepsClock lib io a) same)

handle_event-KeepsClock :
    (e : Event) (a : App) → counts e a ≡ false → KeepsClock a (handle_event e a)
unfolding handle_event
handle_event-KeepsClock (request g r) a quiet = serve_gui-KeepsClock g r a quiet
handle_event-KeepsClock (tick lib io now) a quiet = maybe_idle_lock-KeepsClock lib io now a
handle_event-KeepsClock (end lib io) a quiet = lock_now-KeepsClock lib io a

maybe_idle_lock-srv :
    (lib : Library) (io : Io) (now : ℕ) (a : App)
    → pos_part a.idle ≢ 0
    → a.last_seen + pos_part a.idle < now
    → (maybe_idle_lock lib io now a).srv ≡ none
unfolding maybe_idle_lock
maybe_idle_lock-srv lib io now a timed old = ground (arith, lock_now-srv lib io a)

-- While no request counts as activity, the first tick that comes more than the idle time after the
-- last activity leaves the vault sealed, whatever the agent sends in between, and whether or not the
-- vault was unlocked in between: unlocking alone does not restart the clock.
pub run_app_idle :
    (events : List Event) (a : App) (lib : Library) (io : Io) (now : ℕ)
    → pos_part a.idle ≢ 0
    → IsQuiet events a
    → a.last_seen + pos_part a.idle < now
    → (run_app (events ++ tick lib io now ∷ []) a).srv ≡ none
unfolding run_app
run_app_idle [] a lib io now timed quiet old =
    unfold handle_event in maybe_idle_lock-srv lib io now a timed old
run_app_idle (end l i ∷ events) a lib io now timed quiet old =
    unfold handle_event in lock_now-srv l i a
run_app_idle (request g r ∷ events) a lib io now timed (q, quiet) old =
    let k = handle_event-KeepsClock (request g r) a q in
    run_app_idle events (handle_event (request g r) a) lib io now (rw k.same_idle timed) quiet
      (rw (k.same_last_seen, k.same_idle) old)
run_app_idle (tick l i t ∷ events) a lib io now timed (q, quiet) old =
    let k = handle_event-KeepsClock (tick l i t) a q in
    run_app_idle events (handle_event (tick l i t) a) lib io now (rw k.same_idle timed) quiet
      (rw (k.same_last_seen, k.same_idle) old)

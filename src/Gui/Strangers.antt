-- ===== src/Gui/Strangers.antt =====
-- What clients can do to the web app of internal/gui/gui.go that have none of the human's tokens.
use joyvend_secretvault.Shared.{
  ◌≡◌, refl, ◌∙◌, Bool, false, not, ◌&&◌, Option, none, some, List, [], ◌∷◌, ◌==◌, if-both,
  pos_part,
}
use joyvend_secretvault.Fetch.Keeping.{KeepsControl, KeepsControl-refl, KeepsControl-trans, IsCalm}
use joyvend_secretvault.Store.{Library, Io}
use joyvend_secretvault.Http.{Request, serve_mux-All}
use joyvend_secretvault.Server.{Server, Env, store_of}
use joyvend_secretvault.Server.Planes.{is_local, serve_planes}
use joyvend_secretvault.Server.Separation.{has_control, serve_planes-IsSeparate}
use joyvend_secretvault.Gui.{
  App, is_unlocked, lock_now, is_idle, maybe_idle_lock, GuiEnv, GuiResponse, GuiHandler,
  has_launch_token, has_session, is_agent_path,
}
use joyvend_secretvault.Gui.Handlers.{
  setup, unlock, lock, state, index, proxy_to, proxy, gui_routes, gui_miss, handler, touch_human,
  serve_gui,
}
use joyvend_secretvault.Gui.Running.{Event, request, tick, end, handle_event, run_app}
use joyvend_secretvault.Gui.Idle.{lock_now-srv}

-- The app is locked, or its server is as it was in all that is the human's: the credentials, which of
-- them are enabled, the key, and the tokens.
abbrev pub IsGuarded : Server → Option Server → Type 0
IsGuarded s none = Unit
IsGuarded s (some t) = KeepsControl (store_of s) (store_of t) × (t.opt ≡ s.opt)

abbrev pub controls : Env → Request → Option Server → Bool
controls env r none = false
controls env r (some s) = has_control env r s

-- The client of the event has neither the launch token nor the session nor the control token, and
-- what others do while its call waits changes nothing of the human's.
abbrev pub IsStranger : Event → App → Type 0
IsStranger (request g r) a =
    IsCalm g.env.world
    × (has_launch_token r a ≡ false)
    × (has_session r a ≡ false)
    × (controls g.env r a.srv ≡ false)
IsStranger (tick lib io now) a = Unit
IsStranger (end lib io) a = Unit

abbrev pub AreStrangers : List Event → App → Type 0
AreStrangers [] a = Unit
AreStrangers (e ∷ events) a = IsStranger e a × AreStrangers events (handle_event e a)

module _ (g : GuiEnv) (r : Request) (s0 : Server) (calm : IsCalm g.env.world) where
  proxy_to-IsGuarded :
      (srv : Option Server) (a : App)
      → IsGuarded s0 srv
      → IsGuarded s0 a.srv
      → controls g.env r srv ≡ false
      → IsGuarded s0 (proxy_to g srv r a).0.srv
  unfolding proxy_to
  proxy_to-IsGuarded none a h k shut = k
  proxy_to-IsGuarded (some s) a (kept, opt) k shut =
      let done = serve_planes-IsSeparate g.env r s calm shut in
      (
        KeepsControl-trans (store_of s0) (store_of s) (store_of (serve_planes g.env r s).0) kept
            done.control,
        done.same_options ∙ opt,
      )

  module _ (a : App) (guarded : IsGuarded s0 a.srv) (no_launch : has_launch_token r a ≡ false)
      (no_session : has_session r a ≡ false) (no_control : controls g.env r a.srv ≡ false) where
    abbrev Guarded : App × GuiResponse → Type 0
    Guarded o = IsGuarded s0 o.0.srv

    setup-Guarded : Guarded (setup g r a)
    unfolding setup
    setup-Guarded = rw no_launch guarded

    unlock-Guarded : Guarded (unlock g r a)
    unfolding unlock
    unlock-Guarded = rw no_launch guarded

    lock-Guarded : Guarded (lock g r a)
    unfolding lock
    lock-Guarded = rw no_session guarded

    proxy-Guarded : Guarded (proxy g r a)
    unfolding proxy
    proxy-Guarded = proxy_to-IsGuarded a.srv a guarded guarded no_control

    handler-Guarded : Guarded (handler g r a)
    unfolding handler
    handler-Guarded =
        serve_mux-All (λ (h : GuiHandler). Guarded (h a)) (gui_routes g r) (gui_miss g) r.method
          r.path
          (
            (λ _ vs. unfold index in guarded),
            (
              (λ _ vs. unfold state in guarded),
              (
                (λ _ vs. setup-Guarded),
                (
                  (λ _ vs. unlock-Guarded),
                  (
                    (λ _ vs. lock-Guarded),
                    ((λ _ vs. proxy-Guarded), ((λ _ vs. proxy-Guarded), tt)),
                  ),
                ),
              ),
            ),
          )
          (λ code. guarded)

  serve_gui-IsGuarded :
      (a : App)
      → IsGuarded s0 a.srv
      → IsStranger (request g r) a
      → IsGuarded s0 (serve_gui g r a).0.srv
  unfolding serve_gui touch_human has_launch_token has_session
  serve_gui-IsGuarded a h (_, no_launch, no_session, no_control) =
      if-both (λ (o : App × GuiResponse). IsGuarded s0 o.0.srv) (is_local g.env r) _ _
        (if-both (λ (b : App). IsGuarded s0 (handler g r b).0.srv)
          (not (is_agent_path r) && is_unlocked a) _ _
          (handler-Guarded (record a { last_seen = g.env.now }) h no_launch no_session no_control)
          (handler-Guarded a h no_launch no_session no_control))
        h

IsGuarded-none : (s0 : Server) (o : Option Server) → o ≡ none → IsGuarded s0 o
IsGuarded-none s0 none e = tt
IsGuarded-none s0 (some t) e = cc

lock_now-IsGuarded :
    (s0 : Server) (lib : Library) (io : Io) (a : App) → IsGuarded s0 (lock_now lib io a).0.srv
lock_now-IsGuarded s0 lib io a = IsGuarded-none s0 (lock_now lib io a).0.srv (lock_now-srv lib io a)

handle_event-IsGuarded :
    (s0 : Server) (e : Event) (a : App)
    → IsGuarded s0 a.srv
    → IsStranger e a
    → IsGuarded s0 (handle_event e a).srv
unfolding handle_event maybe_idle_lock
handle_event-IsGuarded s0 (request g r) a h stranger =
    serve_gui-IsGuarded g r s0 stranger.0 a h stranger
handle_event-IsGuarded s0 (tick lib io now) a h stranger =
    let locked = lock_now-IsGuarded s0 lib io a in
    if-both (λ (b : App). IsGuarded s0 b.srv) (pos_part a.idle == 0) _ _ h
      (if-both (λ (b : App). IsGuarded s0 b.srv) (is_idle lib now a) _ _ locked h)
handle_event-IsGuarded s0 (end lib io) a h stranger = lock_now-IsGuarded s0 lib io a

run_app-IsGuarded_from :
    (events : List Event) (a : App) (s : Server)
    → IsGuarded s a.srv
    → AreStrangers events a
    → IsGuarded s (run_app events a).srv
unfolding run_app
run_app-IsGuarded_from [] a s h strangers = h
run_app-IsGuarded_from (end lib io ∷ events) a s h (stranger, _) =
    handle_event-IsGuarded s (end lib io) a h stranger
run_app-IsGuarded_from (request g r ∷ events) a s h (stranger, strangers) =
    run_app-IsGuarded_from events (handle_event (request g r) a) s
      (handle_event-IsGuarded s (request g r) a h stranger) strangers
run_app-IsGuarded_from (tick lib io now ∷ events) a s h (stranger, strangers) =
    run_app-IsGuarded_from events (handle_event (tick lib io now) a) s
      (handle_event-IsGuarded s (tick lib io now) a h stranger) strangers

-- Whatever is sent to an unlocked app, and at whatever ticks, while no request has the launch token or
-- the session, or has the control token on this machine: in the end the app is locked, or its server
-- has the same credentials, the same of them enabled, the same key and the same tokens as at first; if
-- what others do while a call waits changes nothing of this.
pub run_app-IsGuarded :
    (events : List Event) (a : App) (s : Server)
    → a.srv ≡ some s
    → AreStrangers events a
    → IsGuarded s (run_app events a).srv
run_app-IsGuarded events a s unlocked strangers =
    run_app-IsGuarded_from events a s (rw unlocked (KeepsControl-refl (store_of s), refl)) strangers

-- ===== src/Gui/Running.antt =====
-- `Run` of internal/gui/gui.go: the requests, the ticks, and the end, as a sequence of events.
use joyvend_secretvault.Shared.{ℕ, List, [], ◌∷◌}
use joyvend_secretvault.Store.{Library, Io}
use joyvend_secretvault.Http.{Request}
use joyvend_secretvault.Gui.{App, lock_now, maybe_idle_lock, GuiEnv}
use joyvend_secretvault.Gui.Handlers.{serve_gui}

-- A request of a client, a tick of the timer, or the end: a signal, or an error of the listener. What
-- handlers do at the same time is one after the other here.
pub data Event : Type 0 where
  request : GuiEnv → Request → Event
  tick : Library → Io → ℕ → Event
  end : Library → Io → Event

unfoldable pub handle_event : Event → App → App
unfolding serve_gui maybe_idle_lock lock_now
handle_event (request g r) a = (serve_gui g r a).0
handle_event (tick lib io now) a = maybe_idle_lock lib io now a
handle_event (end lib io) a = (lock_now lib io a).0

unfoldable pub run_app : List Event → App → App
unfolding handle_event
run_app [] a = a
run_app (end lib io ∷ events) a = handle_event (end lib io) a
run_app (e ∷ events) a = run_app events (handle_event e a)

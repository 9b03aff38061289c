-- ===== src/Cmd/Serving.antt =====
-- The loop of `runServe` in cmd/vault/main.go, which serves the planes of a vault until a signal, an
-- error of the listener, or the idle lock ends it. The flag `locked` is set only where the loop ends.
use joyvend_secretvault.Shared.{ℕ, Bool, Option, none, List, [], ◌∷◌, if◌then◌else◌, ℤ, pos}
use joyvend_secretvault.Text.{Bytes}
use joyvend_secretvault.IdleLock.{IdleLock, new_idle_lock, touch, expired}
use joyvend_secretvault.Store.{Library, Store, StoreError, Io}
use joyvend_secretvault.Store.Lifecycle.{close}
use joyvend_secretvault.Http.{Request}
use joyvend_secretvault.Server.{Options, Server, Env, store_of, new_server}
use joyvend_secretvault.Server.Planes.{serve}

pub data Serving : Type 0 where
  serving : Server → IdleLock → Serving
  stopped : Store → Option StoreError → Serving  -- with the error of the last seal

pub data Arrival : Type 0 where
  incoming : Env → Request → Arrival
  ticked : ℕ → Io → Arrival
  signalled listener_failed : Io → Arrival

abbrev pub serve_options : Bool → Options
serve_options lan = record {
  enable_lan = lan;
  use_token = [];
  control_token = [];
  control_session = [];
  session_cookie = [];
  approval_timeout = pos 0;
}

-- runServe behind the opening: the server, and the idle lock at time `now`.
unfoldable pub start_serving : Bytes → Bytes → ℤ → Bool → ℕ → Store → Serving
unfolding new_server new_idle_lock
start_serving use_random control_random idle lan now st =
    serving (new_server use_random control_random st (serve_options lan)) (new_idle_lock idle now)

module _ (lib : Library) where
  -- shutdown; a failing listener ends in the same sealing, whose error is dropped there.
  unfoldable pub shutdown : Io → Store → Serving
  unfolding close
  shutdown io st = let (closed, e) = close lib io st in stopped closed e

  unfoldable pub drop_error : Serving → Serving
  drop_error (serving s l) = serving s l
  drop_error (stopped st e) = stopped st none

  -- touch around the handler of the server: every request moves the idle clock.
  unfoldable pub touched_serve : Env → Request → Server → IdleLock → Serving
  unfolding touch serve
  touched_serve env r s l = serving (serve env r s).0 (touch env.now l)

  -- The request of a client, or one turn of the loop.
  unfoldable pub on_arrival : Arrival → Serving → Serving
  unfolding shutdown drop_error touched_serve expired
  on_arrival (incoming env r) (serving s l) = touched_serve env r s l
  on_arrival (ticked now io) (serving s l) =
      if expired now l then shutdown io (store_of s) else serving s l
  on_arrival (signalled io) (serving s l) = shutdown io (store_of s)
  on_arrival (listener_failed io) (serving s l) = drop_error (shutdown io (store_of s))
  on_arrival a (stopped st e) = stopped st e

  unfoldable pub serve_all : List Arrival → Serving → Serving
  unfolding on_arrival
  serve_all [] s = s
  serve_all (a ∷ arrivals) s = serve_all arrivals (on_arrival a s)

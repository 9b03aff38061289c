-- ===== src/Component.antt =====
-- component/component.go: the vault as a part of the suite, which injects its key. The fields `store`
-- and `srv` of the Go struct are set and cleared together; here the store is that of `srv`. `disk` is
-- the file in the data directory while there is no store.
pub mod Sessions
use joyvend_secretvault.Shared.{
  ℕ, Bool, true, false, not, Option, none, some, List, [], ◌∷◌, if◌then◌else◌, is_some, ℤ, Result,
  ok, err,
}
use joyvend_secretvault.Text.{Bytes}
use joyvend_secretvault.Model.{FetchError}
use joyvend_secretvault.Fetch.{FetchRequest, FetchResponse}
use joyvend_secretvault.Fetch.Pipeline.{fetch}
use joyvend_secretvault.Store.{Library, Store, StoreError, Io}
use joyvend_secretvault.Store.Lifecycle.{create_with_dek, open_with_dek, close}
use joyvend_secretvault.Server.{Server, Env, Handler, store_of, new_server}
use joyvend_secretvault.Server as Server
use joyvend_secretvault.Http.{Request, Route}
use joyvend_secretvault.Server.Planes.{plane_routes}
use joyvend_secretvault.Server.Handlers.{approver_after, asked_by, server_world}

pub record ComponentOptions : Type 0 where
  pub data_dir : Bytes
  pub version : Bytes
  pub enable_lan : Bool
  pub use_token : Bytes
  pub control_token : Bytes
  pub control_session : Bytes
  pub session_cookie : Bytes
  pub approval_timeout : ℤ

pub record Component : Type 0 where
  pub opts : ComponentOptions
  pub srv : Option Server
  pub disk : Option Bytes

-- New
unfoldable pub new_component : ComponentOptions → Option Bytes → Component
new_component o disk = record { opts = o; srv = none; disk = disk }

pub data ComponentError : Type 0 where
  is_locked mkdir_failed : ComponentError
  of_store : StoreError → ComponentError
  of_fetch : FetchError → ComponentError

abbrev file_at : Option Server → Option Bytes → Option Bytes
file_at none disk = disk
file_at (some s) disk = (store_of s).disk

abbrev pub component_file : Component → Option Bytes
component_file c = file_at c.srv c.disk

-- FirstLaunch
unfoldable pub first_launch : Component → Bool
first_launch c = not (is_some (component_file c))

-- What Unlock hands on.
abbrev pub server_options : ComponentOptions → Server.Options
server_options o = record {
  enable_lan = o.enable_lan;
  use_token = o.use_token;
  control_token = o.control_token;
  control_session = o.control_session;
  session_cookie = o.session_cookie;
  approval_timeout = o.approval_timeout;
}

-- What an unlocking meets: whether the directory can be made, the outcome of the write, and the
-- random bytes for the salt and for the two tokens.
pub record UnlockEnv : Type 0 where
  pub lib : Library
  pub io : Io
  pub mkdir_ok : Bool
  pub salt : Option Bytes
  pub use_random : Bytes
  pub control_random : Bytes

module _ (u : UnlockEnv) where
  abbrev pub component_server : Store → ComponentOptions → Server
  component_server st o = new_server u.use_random u.control_random st (server_options o)

  -- Unlock behind the call of the store.
  unfoldable pub unlocked_with :
      Result StoreError Store → Component → Component × Option ComponentError
  unfolding new_server
  unlocked_with (err e) c = (c, some (of_store e))
  unlocked_with (ok st) c = (record c { srv = some (component_server st c.opts) }, none)

  -- Unlock: nothing is asked of what was unlocked before.
  unfoldable pub unlock_component : Bytes → Component → Component × Option ComponentError
  unfolding first_launch unlocked_with
  unlock_component dek c =
      if first_launch c
      then (if u.mkdir_ok
          then unlocked_with (create_with_dek u.lib u.io u.salt (component_file c) dek) c
          else (c, some mkdir_failed))
      else unlocked_with (open_with_dek u.lib (component_file c) dek) c

abbrev pub of_close : Option StoreError → Option ComponentError
of_close none = none
of_close (some e) = some (of_store e)

module _ (lib : Library) where
  -- Lock
  unfoldable pub lock_component : Io → Component → Component × Option ComponentError
  unfolding close
  lock_component io c = elim (c.srv) [
    | none ↦ (c, none)
    | some s ↦
        let (st, e) = close lib io (store_of s) in
        (record c { srv = none; disk = st.disk }, of_close e)
  ]

-- Mount: what the component adds to the routes of the suite.
unfoldable pub mount_routes : Env → Request → Component → List (Route Handler)
mount_routes env r c = if is_some c.srv then plane_routes env r else []

abbrev pub token_or_empty : (Server → Bytes) → Option Server → Bytes
token_or_empty token none = []
token_or_empty token (some s) = token s

-- UseToken
unfoldable pub component_use_token : Component → Bytes
component_use_token c = token_or_empty (λ s. s.opt.use_token) c.srv

-- ControlToken
unfoldable pub component_control_token : Component → Bytes
component_control_token c = token_or_empty (λ s. s.opt.control_token) c.srv

-- The response, or the error in its place.
abbrev fetch_result : Option FetchError → FetchResponse → Result ComponentError FetchResponse
fetch_result none resp = ok resp
fetch_result (some e) resp = err (of_fetch e)

-- Fetch over the engine of the server, in the world where the server's approver answers.
unfoldable pub fetch_by_reference :
    Env → Bytes → FetchRequest → Component → Component × Result ComponentError FetchResponse
unfolding fetch
fetch_by_reference env source fr c = elim (c.srv) [
  | none ↦ (c, err is_locked)
  | some s ↦
      let o = fetch env.lib (server_world env s) fr source s.engine in
      (
        record c {
          srv = some (record s {
            engine = o.engine;
            approver = approver_after env (asked_by env fr s) s.approver;
          });
        },
        fetch_result o.error o.response,
      )
]

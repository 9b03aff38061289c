-- ===== src/Gui/Handlers.antt =====
-- The handlers of internal/gui/gui.go, their routes and their guards.
use joyvend_secretvault.Shared.{
  ℕ, Bool, true, false, not, ◌&&◌, Option, none, some, List, [], ◌∷◌, if◌then◌else◌, is_empty,
  is_some, Result, ok, err, pos,
}
use joyvend_secretvault.Text.{Bytes, text, has_prefix}
use joyvend_secretvault.Secret.{wrong_password}
use joyvend_secretvault.Store.{Store, StoreError, sealing}
use joyvend_secretvault.Store.Lifecycle.{create_store, open_store}
use joyvend_secretvault.Http.{Request, Segment, lit, below, Route, serve_mux, get, post}
use joyvend_secretvault.Server.{Options, Server, Response, from_mux, new_server}
use joyvend_secretvault.Server.Planes.{v1_vault, api_vault, is_local, serve_planes}
use joyvend_secretvault.Gui.{
  App, is_unlocked, vault_file, lock_now, GuiEnv, page, plain, state_view, already_open, opened,
  sealed_again, of_planes, GuiResponse, GuiHandler, answer_with, gui_err, rand_hex,
  has_launch_token, has_session, is_agent_path,
}

abbrev pub use_token_of : Option Server → Bytes
use_token_of none = []
use_token_of (some s) = s.opt.use_token

abbrev pub session_options : Bytes → Options
session_options session = record {
  enable_lan = false;
  use_token = [];
  control_token = [];
  control_session = session;
  session_cookie = [];
  approval_timeout = pos 0;
}

-- The errors of opening: the one of a wrong password is told apart.
abbrev pub open_failed : StoreError → GuiResponse
open_failed (sealing wrong_password) = gui_err 401 (text "wrong password")
open_failed e = gui_err 500 (text "could not open vault")

module _ (g : GuiEnv) where
  -- The server over a store that has been opened.
  abbrev pub session_server : Store → Server
  session_server st =
      new_server g.use_random g.control_random st (session_options (rand_hex g.session_random))

  -- `open` behind the call of the store.
  unfoldable pub opened_with : Result StoreError Store → GuiHandler
  unfolding new_server rand_hex gui_err
  opened_with (err e) a = (a, open_failed e)
  opened_with (ok st) a = (
    record a { srv = some (session_server st); session = rand_hex g.session_random },
    record {
      status = 200;
      cookie = some (rand_hex g.session_random);
      reply = opened (session_server st).opt.use_token;
    },
  )

  -- The store that `open` makes or opens.
  abbrev pub store_for : Bool → Bytes → App → Result StoreError Store
  store_for create password a =
      if create
      then create_store g.env.lib g.env.io g.salt g.randoms (vault_file a) password
      else open_store g.env.lib (vault_file a) password

  unfoldable pub open_with_password : Bool → Bytes → GuiHandler
  unfolding opened_with
  open_with_password create password a =
      if is_empty password
      then (a, gui_err 400 (text "password required"))
      else if is_unlocked a
      then (a, answer_with 200 already_open)
      else opened_with (store_for create password a) a

  -- open
  unfoldable pub open_vault : Bool → Request → GuiHandler
  unfolding open_with_password
  open_vault create r a = elim (g.decode_password r.body) [
    | none ↦ (a, gui_err 400 (text "password required"))
    | some password ↦ open_with_password create password a
  ]

  -- setup: os.Stat succeeds exactly where there is a file.
  unfoldable pub setup : Request → GuiHandler
  unfolding has_launch_token open_vault
  setup r a =
      if has_launch_token r a
      then (if is_some (vault_file a)
          then (a, gui_err 409 (text "already set up"))
          else open_vault true r a)
      else (a, gui_err 401 (text "launch token required"))

  unfoldable pub unlock : Request → GuiHandler
  unfolding has_launch_token open_vault
  unlock r a =
      if has_launch_token r a
      then open_vault false r a
      else (a, gui_err 401 (text "launch token required"))

  -- lock; an error of the sealing is dropped.
  unfoldable pub lock : Request → GuiHandler
  unfolding has_session lock_now
  lock r a =
      if has_session r a
      then (
        (lock_now g.env.lib g.env.io a).0,
        record { status = 200; cookie = some []; reply = sealed_again },
      )
      else (a, gui_err 401 (text "unauthorized"))

  -- state: only the session of the human sees the token of the agent.
  unfoldable pub state : Request → GuiHandler
  unfolding has_session
  state r a =
      let token = if is_unlocked a && has_session r a then use_token_of a.srv else [] in
      (a, answer_with 200 (state_view (not (is_some (vault_file a))) (is_unlocked a) token))

  unfoldable pub index : GuiHandler
  index a = (a, answer_with 200 page)

  abbrev of_response : Response → GuiResponse
  of_response resp = answer_with resp.status (of_planes resp.reply)

  -- proxy, with the planes that it has read under the mutex.
  unfoldable pub proxy_to : Option Server → Request → GuiHandler
  unfolding serve_planes gui_err
  proxy_to none r a = (a, gui_err 423 (text "locked — unlock the vault first"))
  proxy_to (some s) r a =
      let (t, resp) = serve_planes g.env r s in (record a { srv = some t }, of_response resp)

  unfoldable pub proxy : Request → GuiHandler
  unfolding proxy_to
  proxy r a = proxy_to a.srv r a

  abbrev gui_route : Bytes → List Segment → GuiHandler → Route GuiHandler
  gui_route m pattern h = record { method = some m; pattern = pattern; handler = λ vs. h }

  abbrev plane_route : List Segment → Request → Route GuiHandler
  plane_route pattern r = record { method = none; pattern = pattern; handler = λ vs. proxy r }

  abbrev pub gui_miss : ℕ → GuiHandler
  gui_miss code a = (a, answer_with code (of_planes from_mux))

  abbrev api : Bytes → List Segment
  api name = lit (text "api") ∷ lit name ∷ []

  abbrev pub gui_routes : Request → List (Route GuiHandler)
  gui_routes r =
      gui_route get (lit [] ∷ []) index
      ∷ gui_route get (api (text "state")) (state r)
      ∷ gui_route post (api (text "setup")) (setup r)
      ∷ gui_route post (api (text "unlock")) (unlock r)
      ∷ gui_route post (api (text "lock")) (lock r)
      ∷ plane_route (v1_vault (below ∷ [])) r
      ∷ plane_route (api_vault (below ∷ [])) r
      ∷ []

  -- handler
  unfoldable pub handler : Request → GuiHandler
  unfolding serve_mux
  handler r = serve_mux (gui_routes r) gui_miss r.method r.path

  -- touch, before the next handler.
  unfoldable pub touch_human : Request → App → App
  unfolding has_prefix
  touch_human r a =
      if not (is_agent_path r) && is_unlocked a then record a { last_seen = g.env.now } else a

  -- loopbackGuard around touch around the handler
  unfoldable pub serve_gui : Request → GuiHandler
  unfolding is_local handler touch_human
  serve_gui r a =
      if is_local g.env r
      then handler r (touch_human r a)
      else (a, answer_with 403 (plain (text "loopback only")))

-- ===== src/Tests/Apps.antt =====
-- The theorems on the web app, at concrete inputs.
use joyvend_secretvault.Shared.{◌≡◌, refl, true, false, none, some, [], ◌∷◌, arith, pos}
use joyvend_secretvault.Text.{text, bytes_eq, has_prefix}
use joyvend_secretvault.Net.{is_loopback}
use joyvend_secretvault.Auth.{get_header}
use joyvend_secretvault.Secret.{gcm, open_file, open_body}
use joyvend_secretvault.Store.{Library}
use joyvend_secretvault.Store.Lifecycle.{open_store, load}
use joyvend_secretvault.Http.{Request, post, serve_mux, find_route, match_path}
use joyvend_secretvault.Server.Planes.{is_local}
use joyvend_secretvault.Gui.{App, is_unlocked, GuiEnv, has_launch_token, url_path}
use joyvend_secretvault.Gui.Handlers.{
  serve_gui, handler, unlock, open_vault, open_with_password, opened_with, touch_human,
}
use joyvend_secretvault.Gui.Running.{Event, request, tick, handle_event, run_app}
use joyvend_secretvault.Gui.Idle.{IsQuiet, run_app_idle}
use joyvend_secretvault.Gui.Unlocking.{HasUnlocking, run_app-HasUnlocking}
use joyvend_secretvault.Maps.{lookup}
use joyvend_secretvault.Shared.{List}
use joyvend_secretvault.Server.{token_ok}
use joyvend_secretvault.Server.Planes.{session_ok}
use joyvend_secretvault.Gui.Strangers.{AreStrangers, IsGuarded, run_app-IsGuarded}
use joyvend_secretvault.Gui.Sessions.{plane_session, admits_lan, run_app-has_session}
use joyvend_secretvault.Gui.{new_app, has_session}
use joyvend_secretvault.Tests.Fixtures.{writing_library}
use joyvend_secretvault.Tests.Fixtures.{good_io}
use joyvend_secretvault.Tests.Vaults.{password, small_file}
use joyvend_secretvault.Tests.Planes.{local_parsers, env_over, small_server, enabling}

abbrev pub local_writing : Library
local_writing = record writing_library { parsers = local_parsers }

abbrev pub gui_env : GuiEnv
gui_env = record {
  env = env_over local_writing;
  decode_password = λ body. some body;
  salt = none;
  randoms = record { salt = none; dek = none; dek_nonce = none; body_nonce = none };
  session_random = text "s";
  use_random = text "u";
  control_random = text "c";
}

-- The app in front of a vault that exists, with an idle time of 60.
abbrev shut_app : App
shut_app = record {
  idle = pos 60;
  launch_token = text "launch";
  srv = none;
  session = [];
  last_seen = 0;
  disk = some small_file;
}

abbrev pub unlocking : Request
unlocking = record {
  method = post;
  path = text "api" ∷ text "unlock" ∷ [];
  headers = (text "X-Launch-Token", text "launch" ∷ []) ∷ [];
  cookies = [];
  remote_addr = text "127.0.0.1:49152";
  body = password;
}

is_open : is_unlocked (run_app (request gui_env unlocking ∷ []) shut_app) ≡ true
unfolding run_app handle_event serve_gui is_local is_loopback bytes_eq touch_human has_prefix
    url_path handler serve_mux find_route match_path unlock has_launch_token get_header open_vault
    open_with_password opened_with open_store open_file open_body gcm load
is_open = refl

run_app-HasUnlocking_example : HasUnlocking (request gui_env unlocking ∷ []) shut_app
run_app-HasUnlocking_example =
    run_app-HasUnlocking (request gui_env unlocking ∷ []) shut_app refl is_open

unlocking-IsQuiet : IsQuiet (request gui_env unlocking ∷ []) shut_app
unfolding is_local is_loopback bytes_eq has_prefix url_path
unlocking-IsQuiet = (refl, tt)

-- The vault has just been unlocked, and the next tick seals it.
run_app_idle_example :
    (run_app (request gui_env unlocking ∷ tick writing_library good_io 61 ∷ []) shut_app).srv ≡ none
run_app_idle_example =
    run_app_idle (request gui_env unlocking ∷ []) shut_app writing_library good_io 61 (omega arith)
      unlocking-IsQuiet (omega arith)

run_app-has_session_example :
    (has_session unlocking
        (run_app (request gui_env unlocking ∷ []) (new_app (text "l") (pos 60) (some small_file)))
      ≡ plane_session unlocking
          (run_app
            (request gui_env unlocking ∷ [])
            (new_app (text "l") (pos 60) (some small_file))).srv)
    × (admits_lan
          (run_app
            (request gui_env unlocking ∷ [])
            (new_app (text "l") (pos 60) (some small_file))).srv
        ≡ false)
run_app-has_session_example =
    run_app-has_session (text "l") (pos 60) (some small_file) (request gui_env unlocking ∷ [])
      unlocking

-- The agent asks an unlocked app for the credential to be enabled, and a tick follows.
abbrev pub unlocked_app : App
unlocked_app = record {
  idle = pos 60;
  launch_token = text "launch";
  srv = some small_server;
  session = text "cookie";
  last_seen = 8;
  disk = none;
}

abbrev agent_events : List Event
agent_events = request gui_env enabling ∷ tick local_writing good_io 20 ∷ []

agent-AreStrangers : AreStrangers agent_events unlocked_app
unfolding has_launch_token has_session get_header lookup bytes_eq is_local session_ok token_ok
    is_loopback
agent-AreStrangers = (
  (
    (
      (λ e. record { same_credentials = refl; same_enabled = refl; same_key = refl }),
      (λ e. record { same_credentials = refl; same_enabled = refl; same_key = refl }),
    ),
    refl,
    refl,
    refl,
  ),
  (tt, tt),
)

run_app-IsGuarded_example : IsGuarded small_server (run_app agent_events unlocked_app).srv
run_app-IsGuarded_example =
    run_app-IsGuarded agent_events unlocked_app small_server refl agent-AreStrangers

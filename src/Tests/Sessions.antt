-- ===== src/Tests/Sessions.antt =====
-- The theorems on what a session leaves for the next, and on the headless command, at concrete
-- inputs.
use joyvend_secretvault.Shared.{
  ◌+◌, ◌*◌, ◌<◌, ◌≤◌, ◌≡◌, ◌↔◌, ok, refl, true, false, none, some, [], ◌∷◌, ◌++◌, All, arith, take,
  pos,
}
use joyvend_secretvault.Text.{Bytes, text, bytes_eq}
use joyvend_secretvault.Auth.{get_header}
use joyvend_secretvault.Secret.{magic, seal, gcm, open_file, open_body}
use joyvend_secretvault.Store.{Store, save}
use joyvend_secretvault.Model.{VaultDoc}
use joyvend_secretvault.Store.Durable.{SameDoc}
use joyvend_secretvault.Store.Lifecycle.{first_doc, fresh_store, open_store, load, close}
use joyvend_secretvault.Store.Operations.{run_ops}
use joyvend_secretvault.Store.Sessions.{IsConsistent}
use joyvend_secretvault.Store.Refinement.{view, spec_ops, view-run_ops}
use joyvend_secretvault.Approver.{no_requests}
use joyvend_secretvault.Server.{Server}
use joyvend_secretvault.Gui.{App, GuiEnv, has_launch_token}
use joyvend_secretvault.Gui.Handlers.{unlock}
use joyvend_secretvault.Shared.{List}
use joyvend_secretvault.Gui.{lock_now}
use joyvend_secretvault.Gui.Reopening.{reopened, unlock-lock_now}
use joyvend_secretvault.Cmd.{open_or_create}
use joyvend_secretvault.Cmd.Serving.{Serving, ticked}
use joyvend_secretvault.Cmd.Idling.{Call, IsSealed, arrivals, call_times}
use joyvend_secretvault.Cmd.Flags.{
  minute, Start, opened_store, run_serve_command, run_serve_command-IsSealed,
}
use joyvend_secretvault.Component.{
  Component, component_server, UnlockEnv, unlock_component, lock_component,
}
use joyvend_secretvault.Component.Sessions.{suite_key, unlock_component-lock_component}
use joyvend_secretvault.Tests.Documents.{document_library, two_document, two_document-IsReadBack}
use joyvend_secretvault.Tests.Fixtures.{
  good_io, zeros, plain_primitives-IsAead, writing_library, small_store, small_key,
}
use joyvend_secretvault.Tests.Vaults.{
  password, small_file, session, small_key-Wraps, fresh-IsConsistent,
}
use joyvend_secretvault.Tests.Planes.{env_over, small_server}
use joyvend_secretvault.Tests.Apps.{local_writing, gui_env, unlocking, unlocked_app}

abbrev beginning : Start
beginning = record {
  io = good_io;
  salt = none;
  randoms = record { salt = none; dek = none; dek_nonce = none; body_nonce = none };
  mkdir_ok = false;
  disk = some small_file;
  password = password;
  use_random = text "u";
  control_random = text "c";
  now = 5;
}

abbrev begun_store : Store
begun_store = fresh_store small_key (first_doc (text "{}")) (some small_file)

beginning_opens : opened_store local_writing beginning ≡ ok begun_store
unfolding open_or_create open_store open_file open_body gcm load
beginning_opens = refl

abbrev serve_calls : List Call
serve_calls = (gui_env.env, unlocking) ∷ []

-- With an idle time of two minutes: one request at time 9, and a tick at 95.
run_serve_command-IsSealed_example :
    (end : Serving) × (run_serve_command local_writing
        (pos 2)
        false
        beginning
        (arrivals serve_calls ++ ticked 95 good_io ∷ [])
      ≡ ok end)
    × (IsSealed end
        ↔ ((0 < 2) × (2 ≤ 153722867) × All (λ t. t + 2 * minute ≤ 95) (5 ∷ call_times serve_calls)))
run_serve_command-IsSealed_example =
    run_serve_command-IsSealed local_writing 2 false beginning begun_store serve_calls 95 good_io
      (omega arith) beginning_opens (omega arith, omega arith)

abbrev suite_store : Store
suite_store = fresh_store (suite_key (zeros 32)) two_document none

-- An unlocked app over a vault with two credentials.
abbrev plain_server : Server
plain_server = record {
  engine = record { store = fresh_store small_key two_document none; limiter = [] };
  approver = no_requests;
  opt = small_server.opt;
}

abbrev plain_env : GuiEnv
plain_env = record gui_env { env = env_over document_library }

abbrev plain_app : App
plain_app = record unlocked_app { srv = some plain_server }

plain_lock_done : (lock_now document_library good_io plain_app).1 ≡ none
unfolding lock_now close save seal gcm
plain_lock_done = refl

plain_token : has_launch_token unlocking plain_app ≡ true
unfolding has_launch_token get_header bytes_eq
plain_token = refl

unlock-lock_now_example :
    (e : VaultDoc) × SameDoc two_document e
    × ((lock_now document_library good_io plain_app).0.srv ≡ none)
    × ((unlock plain_env unlocking (lock_now document_library good_io plain_app).0).0
        ≡ reopened plain_env
            (fresh_store small_key e (lock_now document_library good_io plain_app).0.disk)
            (lock_now document_library good_io plain_app).0)
unlock-lock_now_example =
    unlock-lock_now plain_env unlocking good_io plain_app plain_server small_key password (zeros 12)
      plain_primitives-IsAead two_document-IsReadBack refl refl small_key-Wraps refl refl refl
      plain_lock_done plain_token refl refl

abbrev unlock_env : UnlockEnv
unlock_env = record {
  lib = document_library;
  io = good_io;
  mkdir_ok = true;
  salt = some (zeros 16);
  use_random = text "u";
  control_random = text "c";
}

abbrev suite_server : Server
suite_server = record {
  engine = record { store = suite_store; limiter = [] };
  approver = no_requests;
  opt = record {
    enable_lan = false;
    use_token = text "agent";
    control_token = text "human";
    control_session = [];
    session_cookie = text "mykeep_session";
    approval_timeout = pos 9;
  };
}

abbrev open_component : Component
open_component = record {
  opts = record {
    data_dir = text "d";
    version = text "1";
    enable_lan = false;
    use_token = text "agent";
    control_token = text "human";
    control_session = [];
    session_cookie = text "mykeep_session";
    approval_timeout = pos 9;
  };
  srv = some suite_server;
  disk = none;
}

locks : (lock_component document_library good_io open_component).1 ≡ none
unfolding lock_component close save seal gcm
locks = refl

plain_nonce : bytes_eq (take 4 (zeros 12)) magic ≡ false
unfolding bytes_eq
plain_nonce = refl

unlock_component-lock_component_example :
    (file : Bytes) × (e : VaultDoc) × SameDoc two_document e
    × ((lock_component document_library good_io open_component).0.disk ≡ some file)
    × ((lock_component document_library good_io open_component).0.srv ≡ none)
    × (unlock_component unlock_env
          (zeros 32)
          (lock_component document_library good_io open_component).0
        ≡ (
          record open_component {
            srv = some (
                component_server unlock_env
                  (fresh_store (suite_key (zeros 32)) e (some file))
                  open_component.opts);
            disk = some file;
          },
          none,
        ))
unlock_component-lock_component_example =
    unlock_component-lock_component unlock_env good_io open_component suite_server (zeros 32)
      (zeros 12) plain_primitives-IsAead two_document-IsReadBack refl refl refl refl refl refl
      plain_nonce locks

view-run_ops_example :
    (view (run_ops writing_library session (record small_store { enabled = [] }))
      ≡ spec_ops writing_library session (view (record small_store { enabled = [] })))
    × IsConsistent (run_ops writing_library session (record small_store { enabled = [] }))
view-run_ops_example =
    view-run_ops writing_library session (record small_store { enabled = [] }) fresh-IsConsistent

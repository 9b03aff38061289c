-- ===== src/Gui.antt =====
-- internal/gui/gui.go: the local web app. It is locked until a human opens the vault from the browser
-- that it has launched, and then serves the planes of the server that this has made. The fields
-- `store`, `srv`, `planes` and `session` of the Go struct are set and cleared together, under the
-- mutex; here the store and the planes are those of `srv`. `disk` is the file while it is locked.
pub mod Handlers
pub mod Running
pub mod Idle
pub mod Unlocking
pub mod Sessions
pub mod Strangers
pub mod Reopening
use joyvend_secretvault.Shared.{
  ℕ, ◌-◌, Bool, true, false, not, ◌&&◌, Option, none, some, List, [], ◌∷◌, ◌++◌, ◌==◌, ltb,
  if◌then◌else◌, is_empty, is_some, ℤ, pos, pos_part,
}
use joyvend_secretvault.Text.{Bytes, text, bytes_eq, has_prefix}
use joyvend_secretvault.Maps.{lookup}
use joyvend_secretvault.Codec.{encode_hex}
use joyvend_secretvault.Auth.{get_header}
use joyvend_secretvault.Secret.{Randoms}
use joyvend_secretvault.Store.{Library, StoreError, Io}
use joyvend_secretvault.Store.Lifecycle.{close}
use joyvend_secretvault.Http.{Request}
use joyvend_secretvault.Server.{Options, Server, Reply, failure, Env, store_of}

pub record App : Type 0 where
  pub idle : ℤ  -- in nanoseconds
  pub launch_token : Bytes
  pub srv : Option Server
  pub session : Bytes
  pub last_seen : ℕ
  pub disk : Option Bytes

-- randHex, from the bytes that it has drawn.
unfoldable pub rand_hex : Bytes → Bytes
unfolding encode_hex
rand_hex drawn = encode_hex drawn

-- New, over a path that holds `disk`. The zero value of a time is 0 here.
unfoldable pub new_app : Bytes → ℤ → Option Bytes → App
new_app drawn idle disk = record {
  idle = idle;
  launch_token = rand_hex drawn;
  srv = none;
  session = [];
  last_seen = 0;
  disk = disk;
}

abbrev pub is_unlocked : App → Bool
is_unlocked a = is_some a.srv

-- What the path holds.
abbrev file_of : Option Server → Option Bytes → Option Bytes
file_of none disk = disk
file_of (some s) disk = (store_of s).disk

abbrev pub vault_file : App → Option Bytes
vault_file a = file_of a.srv a.disk

abbrev pub locked_app : Option Bytes → App → App
locked_app file a = record a { srv = none; session = []; disk = file }

module _ (lib : Library) where
  -- lockNow
  unfoldable pub lock_now : Io → App → App × Option StoreError
  unfolding close
  lock_now io a = elim (a.srv) [
    | none ↦ (record a { session = [] }, none)
    | some s ↦ let (st, e) = close lib io (store_of s) in (locked_app st.disk a, e)
  ]

  -- The test of maybeIdleLock behind its first return.
  abbrev pub is_idle : ℕ → App → Bool
  is_idle now a = is_unlocked a && ltb (pos_part a.idle) (now - a.last_seen)

  -- maybeIdleLock at time `now`
  unfoldable pub maybe_idle_lock : Io → ℕ → App → App
  unfolding lock_now
  maybe_idle_lock io now a =
      if pos_part a.idle == 0 then a else if is_idle now a then (lock_now io a).0 else a

-- What a call meets outside, besides what the planes meet: the decoder of the password, and the random
-- bytes that a vault and its server are made with.
pub record GuiEnv : Type 0 where
  pub env : Env
  pub decode_password : Bytes → Option Bytes
  pub salt : Option Bytes
  pub randoms : Randoms
  pub session_random : Bytes
  pub use_random : Bytes
  pub control_random : Bytes

-- The bodies of the responses.
pub data GuiReply : Type 0 where
  page : GuiReply  -- the embedded index.html
  plain : Bytes → GuiReply
  state_view : Bool → Bool → Bytes → GuiReply  -- first launch, unlocked, use token
  already_open : GuiReply
  opened : Bytes → GuiReply  -- the use token
  sealed_again : GuiReply
  of_planes : Reply → GuiReply

pub record GuiResponse : Type 0 where
  pub status : ℕ
  pub cookie : Option Bytes  -- the value of sv_session that is set, `some []` where it is removed
  pub reply : GuiReply

abbrev pub GuiHandler : Type 0
GuiHandler = App → App × GuiResponse

abbrev pub answer_with : ℕ → GuiReply → GuiResponse
answer_with code r = record { status = code; cookie = none; reply = r }

-- writeErr of this package
unfoldable pub gui_err : ℕ → Bytes → GuiResponse
gui_err code msg = answer_with code (of_planes (failure msg))

-- sessionCookie
abbrev pub session_cookie_name : Bytes
session_cookie_name = text "sv_session"

-- hasLaunchToken
unfoldable pub has_launch_token : Request → App → Bool
unfolding get_header bytes_eq
has_launch_token r a =
    let got = get_header (text "X-Launch-Token") r.headers in
    not (is_empty got) && bytes_eq got a.launch_token

-- hasSession
unfoldable pub has_session : Request → App → Bool
unfolding lookup bytes_eq
has_session r a = not (is_empty a.session) && (elim (lookup session_cookie_name r.cookies) [
  | none ↦ false
  | some value ↦ bytes_eq value a.session
])

-- r.URL.Path
unfoldable pub url_path : List Bytes → Bytes
url_path [] = []
url_path (seg ∷ segs) = b'/' ∷ (seg ++ url_path segs)

-- Traffic of the agent, which does not count as activity of the human.
abbrev pub is_agent_path : Request → Bool
is_agent_path r = has_prefix (url_path r.path) (text "/v1/")

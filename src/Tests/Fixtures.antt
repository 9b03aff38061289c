-- ===== src/Tests/Fixtures.antt =====
-- Concrete parsers, primitives and libraries, as small functions with the documented behaviour.
use joyvend_secretvault.Shared.{
  ℕ, ◌+◌, ◌*◌, ◌/◌, ltb, ◌-◌, ◌%◌, ◌≡◌, refl, ap, true, false, Option, none, some, List, [], ◌∷◌,
  ◌++◌, arith, leb, ◌==◌, if◌then◌else◌, length, take, length-append, take-append_length, pos,
}
use joyvend_secretvault.Text.{Bytes, text, bytes_eq, Unicode}
use joyvend_secretvault.Maps.{Map}
use joyvend_secretvault.Net.{Url, Parsers}
use joyvend_secretvault.Secret.{Primitives, Keyring}
use joyvend_secretvault.Secret.Sealing.{IsAead}
use joyvend_secretvault.Model.{bearer, auto, confirm, Credential, Grant, AuditEntry, allowed}
use joyvend_secretvault.Limiter.{Floats}
use joyvend_secretvault.Store.{Library, Store, Io}
use joyvend_secretvault.Store.Lifecycle.{first_doc}

abbrev pub plain_unicode : Unicode
plain_unicode = record { to_lower_wide = λ s. s; to_upper_wide = λ s. s; trim_space_wide = λ s. s }

abbrev pub api_host : Bytes
api_host = text "api.x.io"

abbrev pub api_url : Bytes
api_url = text "https://api.x.io/v1"

abbrev pub parsed_url : Url
parsed_url = record {
  scheme = text "https";
  has_user = false;
  host = api_host;
  hostname = api_host;
  port = [];
  address = api_url;
}

-- Knows one address literal and one URL.
abbrev pub small_parsers : Parsers
small_parsers = record {
  unicode = plain_unicode;
  parse_ip = λ s. if bytes_eq s (text "10.0.0.7") then some (10 ∷ 0 ∷ 0 ∷ 7 ∷ []) else none;
  ip_string = λ ip. text "10.0.0.7";
  to_ascii = λ s. some s;
  parse_url = λ s. if bytes_eq s api_url then some parsed_url else none;
}

abbrev pub zeros : ℕ → Bytes
zeros ℕ.zero = []
zeros (ℕ.suc n) = 0 ∷ zeros n

-- Numbers in sixty-thousand-millionths, exact on the whole numbers.
abbrev pub unit : ℕ
unit = 60_000_000_000

abbrev pub fixed_point : Floats
fixed_point = record {
  of_int = λ n. n * unit;
  add = λ x y. x + y;
  sub = λ x y. x - y;
  mul = λ x y. x * y / unit;
  div = λ x y. x * unit / y;
  less = λ x y. ltb x y;
  seconds = λ d. d * 60;
}

-- Every call of a save succeeds.
abbrev pub good_io : Io
good_io = record {
  nonce = some (zeros 12);
  created = true;
  write_stops = none;
  synced = true;
  closed = true;
  renamed = true;
}

-- A cipher that appends a tag and hides nothing.
abbrev pub open_tag : Bytes → Option Bytes
open_tag ct = if leb 16 (length ct) then some (take (length ct - 16) ct) else none

abbrev pub plain_primitives : Primitives
plain_primitives = record {
  derive_kek = λ password salt. zeros 32;
  valid_key = λ key. length key == 32;
  gcm_seal = λ key nonce pt. pt ++ zeros 16;
  gcm_open = λ key nonce ct. open_tag ct;
}

open_tag-append : (pt : Bytes) → open_tag (pt ++ zeros 16) ≡ some pt
open_tag-append pt =
    let long : leb 16 (length (pt ++ zeros 16)) ≡ true =
      ground (arith, length-append pt (zeros 16)) in
    let size : length (pt ++ zeros 16) - 16 ≡ length pt =
      omega (arith, length-append pt (zeros 16)) in
    rw (long, size, take-append_length (length pt) pt (zeros 16) refl)

pub plain_primitives-IsAead : IsAead plain_primitives
plain_primitives-IsAead = record {
  opens = λ key nonce pt. open_tag-append pt;
  overhead = λ key nonce pt. length-append pt (zeros 16);
  kek_len = λ password salt. refl;
  accepts = λ key h. ground arith;
}

-- The text of a document that is as a new vault's is: its salt.
abbrev pub marshal_fields : ℕ → Bytes → Map Credential → List Grant → List AuditEntry → Option Bytes
marshal_fields (ℕ.suc ℕ.zero) salt [] [] [] = some salt
marshal_fields v salt cs gs es = none

abbrev pub unary : ℕ → Bytes
unary ℕ.zero = []
unary (ℕ.suc n) = b'1' ∷ unary n

pub unary_injective : (m n : ℕ) → unary m ≡ unary n → m ≡ n
unary_injective ℕ.zero ℕ.zero e = refl
unary_injective ℕ.zero (ℕ.suc n) e = cc
unary_injective (ℕ.suc m) ℕ.zero e = cc
unary_injective (ℕ.suc m) (ℕ.suc n) e = ap ℕ.suc (unary_injective m n (ground arith))

abbrev pub small_library : Library
small_library = record {
  parsers = small_parsers;
  primitives = plain_primitives;
  floats = fixed_point;
  marshal = λ d. marshal_fields d.version d.fp_salt d.credentials d.grants d.audit;
  unmarshal = λ b. some (first_doc b);
  sha256 = λ x. (length x % 256) ∷ zeros 31;
  show_int = λ n. unary n;
  format_time = λ t. unary t;
}

-- One that writes every document.
abbrev pub writing_library : Library
writing_library = record small_library { marshal = λ d. some [] }

abbrev pub key_name : Bytes
key_name = text "github"

abbrev pub secret_value : Bytes
secret_value = text "tok_0123456789"

abbrev pub bearer_credential : Credential
bearer_credential = record {
  auth_type = bearer;
  secret = secret_value;
  header_name = [];
  username = [];
  template = [];
  allow_hosts = text "*.x.io" ∷ [];
  allow_priv = false;
  allow_insecure = false;
  read_tier = auto;
  write_tier = confirm;
  expires_at = none;
  rate_per_min = pos 2;
  created_at = 5;
}

abbrev pub small_header : Bytes
small_header = text "JVS1" ++ (zeros 28 ++ (zeros 32 ++ zeros 16))

abbrev pub small_key : Keyring
small_key = record { dek = zeros 32; header = small_header }

abbrev pub sample_row : ℕ → AuditEntry
sample_row at = record {
  time = at;
  credential = key_name;
  method = text "GET";
  host = api_host;
  decision = allowed;
  tier = auto;
  status = 20;
  bytes = 3;
  source = text "mcp";
  latency_ms = 1;
  prev_hash = [];
  hash = [];
}

abbrev pub small_store : Store
small_store = record {
  key = some small_key;
  doc = record {
    version = 1;
    fp_salt = zeros 16;
    credentials = (key_name, bearer_credential) ∷ [];
    grants = [];
    audit = [];
  };
  enabled = (key_name, true) ∷ [];
  disk = none;
}

-- ===== src/Auth.antt =====
-- internal/vault/auth.go: the outgoing headers are built from nothing, without the headers that an
-- agent may not set, and the credential's own header is written last.
pub mod Stripping
pub mod Injection
pub mod Order
use joyvend_secretvault.Shared.{
  ℕ, ◌-◌, ◌+◌, Bool, true, false, not, ◌&&◌, ◌||◌, List, [], ◌∷◌, ◌++◌, leb, ltb, ◌==◌,
  if◌then◌else◌, any, all, is_empty, Result, ok, err, Option, some, none,
}
use joyvend_secretvault.Text.{
  Bytes, text, bytes_eq, is_digit, is_upper, is_lower, lower_byte, upper_byte, to_lower, trim_space,
  Unicode,
}
use joyvend_secretvault.Maps.{Map, insert, erase, lookup}
use joyvend_secretvault.Model.{
  AuthType, bearer, header, basic, custom, unknown, Credential, FetchError, err_bad_header,
}
use joyvend_secretvault.Codec.{encode_base64, std, replace_all}

-- http.Header
abbrev pub Header : Type 0
Header = Map (List Bytes)

-- The bytes of a token (RFC 9110).
abbrev pub is_token_byte : ℕ → Bool
is_token_byte c =
    is_digit c || is_upper c || is_lower c || any (λ d. c == d) (text "!#$%&'*+-.^_`|~")

abbrev pub capitalize : Bool → ℕ → ℕ
capitalize start c = if start then upper_byte c else lower_byte c

abbrev pub capitalize_words : Bool → Bytes → Bytes
capitalize_words start [] = []
capitalize_words start (c ∷ s) = capitalize start c ∷ capitalize_words (c == b'-') s

-- http.CanonicalHeaderKey: a name with another byte is left as it is.
unfoldable pub canonical_key : Bytes → Bytes
canonical_key k = if all is_token_byte k then capitalize_words true k else k

-- Header.Set, Header.Del and Header.Get
unfoldable pub set_header : Bytes → Bytes → Header → Header
unfolding insert canonical_key bytes_eq
set_header k v h = insert (canonical_key k) (v ∷ []) h

unfoldable pub del_header : Bytes → Header → Header
unfolding erase canonical_key bytes_eq
del_header k h = erase (canonical_key k) h

abbrev pub first_value : Option (List Bytes) → Bytes
first_value none = []
first_value (some []) = []
first_value (some (v ∷ vs)) = v

unfoldable pub get_header : Bytes → Header → Bytes
unfolding lookup canonical_key bytes_eq
get_header k h = first_value (lookup (canonical_key k) h)

abbrev pub denylist_headers : List Bytes
denylist_headers =
    text "authorization"
    ∷ text "proxy-authorization"
    ∷ text "cookie"
    ∷ text "host"
    ∷ text "content-length"
    ∷ text "accept-encoding"
    ∷ []

unfoldable pub valid_header_field : Bytes → Bool
valid_header_field s = not (is_empty s) && all (λ c. not (leb c 0x20 || c == b':' || leb 0x7f c)) s

unfoldable pub valid_header_value : Bytes → Bool
valid_header_value s = all (λ c. not (c == 0x0d || c == 0x0a || c == 0)) s

-- The test that skips a header: `lk` and `inj` are lower case.
unfoldable pub is_stripped : Bytes → Bytes → Bool
unfolding bytes_eq
is_stripped lk inj = any (bytes_eq lk) denylist_headers || bytes_eq lk inj

-- The loop of `buildHeaders`, over the agent's headers in some order of iteration.
unfoldable pub build_from : Unicode → Bytes → Map Bytes → Header → Result FetchError Header
unfolding is_stripped valid_header_field valid_header_value set_header trim_space to_lower
build_from u inj [] h = ok h
build_from u inj ((k, v) ∷ agent) h =
    let skip = build_from u inj agent h in
    let next = build_from u inj agent (set_header k v h) in
    if is_stripped (to_lower u (trim_space u k)) inj
    then skip
    else if not (valid_header_field k) || not (valid_header_value v)
    then err err_bad_header
    else next

unfoldable pub build_headers : Unicode → Map Bytes → Bytes → Result FetchError Header
unfolding build_from
build_headers u agent inject_name = build_from u (to_lower u (trim_space u inject_name)) agent []

abbrev pub authorization : Bytes
authorization = text "Authorization"

abbrev pub placeholder : Bytes
placeholder = text "${secret}"

abbrev pub basic_token : Credential → Bytes
basic_token c = encode_base64 std true (c.username ++ (b':' ∷ c.secret))

-- The new headers, and the values that the response is scanned for.
unfoldable pub inject_as : AuthType → Credential → Header → Header × List Bytes
unfolding set_header encode_base64 replace_all
inject_as bearer c h =
    let val = text "Bearer " ++ c.secret in (set_header authorization val h, c.secret ∷ val ∷ [])
inject_as header c h = (set_header c.header_name c.secret h, c.secret ∷ [])
inject_as basic c h =
    (set_header authorization (text "Basic " ++ basic_token c) h, c.secret ∷ basic_token c ∷ [])
inject_as custom c h =
    let val = replace_all c.template placeholder c.secret in
    (set_header authorization val h, c.secret ∷ val ∷ [])
inject_as (unknown t) c h = (h, [])

unfoldable pub inject_auth : Credential → Header → Header × List Bytes
unfolding inject_as
inject_auth c h = inject_as c.auth_type c h

unfoldable pub inject_header_name : Credential → Bytes
inject_header_name c = elim (c.auth_type) [ header ↦ c.header_name | _ ↦ authorization ]

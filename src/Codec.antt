-- ===== src/Codec.antt =====
-- The encodings that the program calls of encoding/base64, encoding/hex and net/url.
use joyvend_secretvault.Shared.{
  ℕ, zero, suc, ◌+◌, ◌-◌, ◌*◌, ◌/◌, ◌%◌, Bool, true, false, ◌||◌, [], ◌∷◌, ◌++◌, ltb, ◌==◌,
  if◌then◌else◌, length,
}
use joyvend_secretvault.Text.{Bytes, has_prefix, is_digit, is_upper, is_lower}

pub data Alphabet : Type 0 where
  std url : Alphabet

abbrev pub digit_62 : Alphabet → ℕ
digit_62 std = b'+'
digit_62 url = b'-'

abbrev pub digit_63 : Alphabet → ℕ
digit_63 std = b'/'
digit_63 url = b'_'

unfoldable pub digit_64 : Alphabet → ℕ → ℕ
digit_64 a n =
    if ltb n 26
    then n + b'A'
    else if ltb n 52
    then n - 26 + b'a'
    else if ltb n 62
    then n - 52 + b'0'
    else if n == 62
    then digit_62 a
    else digit_63 a

abbrev pub padding : Bool → ℕ → Bytes
padding false n = []
padding true zero = []
padding true (suc n) = b'=' ∷ padding true n

-- base64.Encoding.EncodeToString, of an alphabet with or without padding.
unfoldable pub encode_base64 : Alphabet → Bool → Bytes → Bytes
unfolding digit_64
encode_base64 al padded [] = []
encode_base64 al padded (a ∷ []) = digit_64 al (a / 4) ∷ digit_64 al (a % 4 * 16) ∷ padding padded 2
encode_base64 al padded (a ∷ b ∷ []) =
    digit_64 al (a / 4)
    ∷ digit_64 al (a % 4 * 16 + b / 16)
    ∷ digit_64 al (b % 16 * 4)
    ∷ padding padded 1
encode_base64 al padded (a ∷ b ∷ c ∷ s) =
    digit_64 al (a / 4)
    ∷ digit_64 al (a % 4 * 16 + b / 16)
    ∷ digit_64 al (b % 16 * 4 + c / 64)
    ∷ digit_64 al (c % 64)
    ∷ encode_base64 al padded s

abbrev pub hex_digit : ℕ → ℕ
hex_digit n = if ltb n 10 then n + b'0' else n - 10 + b'a'

abbrev pub upper_hex_digit : ℕ → ℕ
upper_hex_digit n = if ltb n 10 then n + b'0' else n - 10 + b'A'

-- hex.EncodeToString
unfoldable pub encode_hex : Bytes → Bytes
encode_hex [] = []
encode_hex (c ∷ s) = hex_digit (c / 16) ∷ hex_digit (c % 16) ∷ encode_hex s

-- The bytes that url.QueryEscape leaves.
abbrev pub is_unreserved : ℕ → Bool
is_unreserved c =
    is_digit c || is_upper c || is_lower c || c == b'-' || c == b'_' || c == b'.' || c == b'~'

abbrev pub escape_byte : ℕ → Bytes
escape_byte c =
    if is_unreserved c
    then c ∷ []
    else if c == 0x20
    then b'+' ∷ []
    else b'%' ∷ upper_hex_digit (c / 16) ∷ upper_hex_digit (c % 16) ∷ []

-- url.QueryEscape
unfoldable pub query_escape : Bytes → Bytes
query_escape [] = []
query_escape (c ∷ s) = escape_byte c ++ query_escape s

-- strings.ReplaceAll for an `old` that is not empty; `skip` bytes of a match are still to be passed.
unfoldable pub replace_from : Bytes → Bytes → ℕ → Bytes → Bytes
replace_from old new skip [] = []
replace_from old new (suc skip) (c ∷ s) = replace_from old new skip s
replace_from old new zero (c ∷ s) =
    let copied = c ∷ replace_from old new zero s in
    let replaced = new ++ replace_from old new (length old - 1) s in
    if has_prefix (c ∷ s) old then replaced else copied

unfoldable pub replace_all : Bytes → Bytes → Bytes → Bytes
unfolding replace_from has_prefix
replace_all s old new = replace_from old new 0 s

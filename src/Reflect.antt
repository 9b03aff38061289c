-- ===== src/Reflect.antt =====
-- internal/vault/reflect.go: the scan of responses for the injected values in several encodings.
pub mod Guarding
pub mod Short
use joyvend_secretvault.Shared.{
  ℕ, ◌+◌, Bool, true, false, ◌||◌, List, [], ◌∷◌, ◌++◌, ltb, if◌then◌else◌, length, any, is_empty,
}
use joyvend_secretvault.Text.{Bytes, bytes_eq, contains}
use joyvend_secretvault.Codec.{std, url, encode_base64, encode_hex, query_escape}
use joyvend_secretvault.Auth.{Header, del_header}

-- The closure `add`: a needle of at least six bytes that is not there yet. The map `seen` holds
-- exactly the needles of `out`.
unfoldable pub add_needle : Bytes → List Bytes → List Bytes
unfolding bytes_eq
add_needle b out =
    if ltb (length b) 6 then out else if any (bytes_eq b) out then out else out ++ b ∷ []

-- The encodings of a value, in the order in which they are added.
abbrev pub encodings : Bytes → List Bytes
encodings v =
    v
    ∷ encode_base64 std true v
    ∷ encode_base64 std false v
    ∷ encode_base64 url true v
    ∷ encode_base64 url false v
    ∷ encode_hex v
    ∷ query_escape v
    ∷ []

unfoldable pub add_all : List Bytes → List Bytes → List Bytes
unfolding add_needle
add_all [] out = out
add_all (b ∷ bs) out = add_all bs (add_needle b out)

-- The loop over the injected values.
unfoldable pub needles_from : List Bytes → List Bytes → List Bytes
unfolding add_all encode_base64 encode_hex query_escape
needles_from [] out = out
needles_from (v ∷ injected) out =
    needles_from injected (if is_empty v then out else add_all (encodings v) out)

unfoldable pub secret_needles : List Bytes → List Bytes
unfolding needles_from
secret_needles injected = needles_from injected []

unfoldable pub contains_any : Bytes → List Bytes → Bool
unfolding contains
contains_any body needles = any (contains body) needles

-- The loop of `reflectGuardHeaders` over the headers as they were; the count is of those dropped.
unfoldable pub guard_from : List Bytes → Header → Header × ℕ → Header × ℕ
unfolding contains_any del_header
guard_from needles [] (h, dropped) = (h, dropped)
guard_from needles ((k, vs) ∷ rest) (h, dropped) =
    guard_from needles rest
      (if any (λ v. contains_any v needles) vs then (del_header k h, dropped + 1) else (h, dropped))

unfoldable pub reflect_guard_headers : Header → List Bytes → Header × ℕ
unfolding guard_from
reflect_guard_headers h needles = guard_from needles h (h, 0)

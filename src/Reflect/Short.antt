-- ===== src/Reflect/Short.antt =====
-- What the reflect-guard cannot find: a part of the secret.
use joyvend_secretvault.Shared.{
  ℕ, ◌≤◌, ◌<◌, ◌≡◌, refl, ap, Bool, true, false, List, [], ◌∷◌, ◌++◌, arith, ltb, length, any,
  is_empty, Bool-cases, inl, inr, All, All-append, length-append,
}
use joyvend_secretvault.Text.{Bytes, bytes_eq, contains}
use joyvend_secretvault.Text.Find.{contains_sound}
use joyvend_secretvault.Codec.{
  Alphabet, std, url, encode_base64, encode_hex, query_escape, escape_byte,
}
use joyvend_secretvault.Reflect.{
  add_needle, encodings, add_all, needles_from, secret_needles, contains_any,
}

length-encode_base64 :
    (al : Alphabet) (padded : Bool) (s : Bytes) → length s ≤ length (encode_base64 al padded s)
unfolding encode_base64
length-encode_base64 al padded [] = omega arith
length-encode_base64 al padded (a ∷ []) = omega arith
length-encode_base64 al padded (a ∷ b ∷ []) = omega arith
length-encode_base64 al padded (a ∷ b ∷ c ∷ s) = omega (arith, length-encode_base64 al padded s)

length-encode_hex : (s : Bytes) → length s ≤ length (encode_hex s)
unfolding encode_hex
length-encode_hex [] = omega arith
length-encode_hex (c ∷ s) = omega (arith, length-encode_hex s)

escape_byte_some : (c : ℕ) → 1 ≤ length (escape_byte c)
escape_byte_some c = ground arith

length-query_escape : (s : Bytes) → length s ≤ length (query_escape s)
unfolding query_escape
length-query_escape [] = omega arith
length-query_escape (c ∷ s) = omega (
  arith,
  length-append (escape_byte c) (query_escape s),
  escape_byte_some c,
  length-query_escape s,
)

abbrev pub IsLong : ℕ → Bytes → Type 0
IsLong m v = m ≤ length v

encodings-IsLong : (m : ℕ) (v : Bytes) → IsLong m v → All (IsLong m) (encodings v)
encodings-IsLong m v h = omega (
  arith,
  length-encode_base64 std true v,
  length-encode_base64 std false v,
  length-encode_base64 url true v,
  length-encode_base64 url false v,
  length-encode_hex v,
  length-query_escape v,
)

add_needle-IsLong :
    (m : ℕ) (b : Bytes) (out : List Bytes)
    → IsLong m b
    → All (IsLong m) out
    → All (IsLong m) (add_needle b out)
unfolding add_needle
add_needle-IsLong m b out h k = elim (Bool-cases (ltb (length b) 6)) [
  | inl short ↦ rw (short) k
  | inr long ↦ elim (Bool-cases (any (bytes_eq b) out)) [
    | inl old ↦ rw (long, old) k
    | inr new ↦ rw (long, new) (All-append (IsLong m) out (b ∷ []) k (h, tt))
  ]
]

add_all-IsLong :
    (m : ℕ) (bs out : List Bytes)
    → All (IsLong m) bs
    → All (IsLong m) out
    → All (IsLong m) (add_all bs out)
unfolding add_all
add_all-IsLong m [] out h k = k
add_all-IsLong m (b ∷ bs) out (hb, h) k =
    add_all-IsLong m bs (add_needle b out) h (add_needle-IsLong m b out hb k)

needles_from-IsLong :
    (m : ℕ) (injected out : List Bytes)
    → All (IsLong m) injected
    → All (IsLong m) out
    → All (IsLong m) (needles_from injected out)
unfolding needles_from
needles_from-IsLong m [] out h k = k
needles_from-IsLong m (v ∷ injected) out (hv, h) k = elim (Bool-cases (is_empty v)) [
  | inl none_at_all ↦ rw none_at_all (needles_from-IsLong m injected out h k)
  | inr some_byte ↦ rw some_byte (
      needles_from-IsLong m injected (add_all (encodings v) out) h
        (add_all-IsLong m (encodings v) out (encodings-IsLong m v hv) k))
]

contains-length : (s sub : Bytes) → contains s sub ≡ true → length sub ≤ length s
contains-length s sub h =
    let (pre, post, e) = contains_sound s sub h in
    omega (arith, ap length e, length-append pre (sub ++ post), length-append sub post)

contains_any-IsLong :
    (m : ℕ) (body : Bytes) (needles : List Bytes)
    → length body < m
    → All (IsLong m) needles
    → contains_any body needles ≡ false
unfolding contains_any
contains_any-IsLong m body [] h k = refl
contains_any-IsLong m body (n ∷ needles) h (kn, k) = elim (Bool-cases (contains body n)) [
  | inl t ↦ absurd (omega (arith, contains-length body n t))
  | inr f ↦ rw f (contains_any-IsLong m body needles h k)
]

-- A body that is shorter than every injected value is never found to hold one of them, whatever
-- part of a value it is.
pub contains_any_short :
    (m : ℕ) (body : Bytes) (injected : List Bytes)
    → length body < m
    → All (IsLong m) injected
    → contains_any body (secret_needles injected) ≡ false
unfolding secret_needles
contains_any_short m body injected h k =
    contains_any-IsLong m body _ h (needles_from-IsLong m injected [] k tt)

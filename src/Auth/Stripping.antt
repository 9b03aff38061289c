-- ===== src/Auth/Stripping.antt =====
-- Which of the agent's headers are left in the outgoing request.
use joyvend_secretvault.Shared.{
  ℕ, ◌≡◌, refl, Bool, true, false, not, ◌||◌, List, [], ◌∷◌, map, arith, leb, ◌==◌, all, Bool-cases,
  inl, inr, ok, All,
}
use joyvend_secretvault.Text.{
  Bytes, is_ascii, lower_byte, to_lower, trim_left, trim_right, trim_space, Unicode,
}
use joyvend_secretvault.Maps.{Map, All-insert}
use joyvend_secretvault.Auth.{
  Header, capitalize, capitalize_words, canonical_key, is_token_byte, set_header,
  valid_header_field, valid_header_value, is_stripped, build_from, build_headers,
}

lower-capitalize : (start : Bool) (c : ℕ) → lower_byte (capitalize start c) ≡ lower_byte c
lower-capitalize true c = ground arith
lower-capitalize false c = ground arith

lower-capitalize_words :
    (start : Bool) (s : Bytes) → map lower_byte (capitalize_words start s) ≡ map lower_byte s
lower-capitalize_words start [] = refl
lower-capitalize_words start (c ∷ s) =
    cc (lower-capitalize start c, lower-capitalize_words (c == b'-') s)

lower-canonical_key : (k : Bytes) → map lower_byte (canonical_key k) ≡ map lower_byte k
unfolding canonical_key
lower-canonical_key k = elim (Bool-cases (all is_token_byte k)) [
  | inl t ↦ rw t (lower-capitalize_words true k)
  | inr f ↦ rw f refl
]

abbrev is_field_byte : ℕ → Bool
is_field_byte c = not (leb c 0x20 || c == b':' || leb 0x7f c)

field-ascii : (s : Bytes) → all is_field_byte s ≡ true → all is_ascii s ≡ true
field-ascii [] h = refl
field-ascii (c ∷ s) h = ground (arith, field-ascii s)

trim_right-field : (s : Bytes) → all is_field_byte s ≡ true → trim_right s ≡ s
unfolding trim_right
trim_right-field [] h = refl
trim_right-field (c ∷ []) h = ground arith
trim_right-field (c ∷ d ∷ s) h = rw (trim_right-field (d ∷ s) (ground arith)) refl

trim_left-field : (s : Bytes) → all is_field_byte s ≡ true → trim_left s ≡ s
unfolding trim_left
trim_left-field [] h = refl
trim_left-field (c ∷ s) h = ground arith

-- On a valid header name, trimming and the case of its letters are those of ASCII.
lower-trim_of_field :
    (u : Unicode) (k : Bytes)
    → valid_header_field k ≡ true
    → to_lower u (trim_space u k) ≡ map lower_byte k
unfolding valid_header_field to_lower trim_space
lower-trim_of_field u k h =
    let bytes : all is_field_byte k ≡ true = ground arith in
    let ascii = field-ascii k bytes in
    rw ascii (rw (trim_left-field k bytes, trim_right-field k bytes, ascii) refl)

-- What the code has checked of an outgoing header of the agent.
abbrev pub IsLeft : Bytes → Bytes × List Bytes → Type 0
IsLeft inj (key, values) =
    (is_stripped (map lower_byte key) inj ≡ false) × (all valid_header_value values ≡ true)

module _ (u : Unicode) (inj : Bytes) where
  set_header-IsLeft :
      (k v : Bytes) (h : Header)
      → All (IsLeft inj) h
      → is_stripped (to_lower u (trim_space u k)) inj ≡ false
      → valid_header_field k ≡ true
      → valid_header_value v ≡ true
      → All (IsLeft inj) (set_header k v h)
  unfolding set_header
  set_header-IsLeft k v h left kept field value =
      All-insert (IsLeft inj) (canonical_key k) (v ∷ []) h left
        (rw (lower-canonical_key k) (rw (lower-trim_of_field u k field) at kept), ground arith)

  build_from-IsLeft :
      (agent : Map Bytes) (h out : Header)
      → All (IsLeft inj) h
      → build_from u inj agent h ≡ ok out
      → All (IsLeft inj) out
  unfolding build_from
  build_from-IsLeft [] h out left e = let same : h ≡ out = ground arith in rw (← same) left
  build_from-IsLeft ((k, v) ∷ agent) h out left e =
      elim (Bool-cases (is_stripped (to_lower u (trim_space u k)) inj)) [
        | inl strip ↦ build_from-IsLeft agent h out left (rw strip at e)
        | inr keep ↦ elim (Bool-cases (valid_header_field k)) [
          | inr bad ↦ cc (rw (keep, bad) at e)
          | inl field ↦ elim (Bool-cases (valid_header_value v)) [
            | inr bad ↦ cc (rw (keep, field, bad) at e)
            | inl value ↦
                build_from-IsLeft agent (set_header k v h) out
                  (set_header-IsLeft k v h left keep field value) (rw (keep, field, value) at e)
          ]
        ]
      ]

-- Whatever the agent sends, and in whatever order it is read: no header that is left has a name on
-- the denylist or that of the credential's own header, in any case of its letters, and no value
-- holds a line break or a zero byte.
pub build_headers-IsLeft :
    (u : Unicode) (agent : Map Bytes) (inject_name : Bytes) (out : Header)
    → build_headers u agent inject_name ≡ ok out
    → All (IsLeft (to_lower u (trim_space u inject_name))) out
unfolding build_headers
build_headers-IsLeft u agent inject_name out e = build_from-IsLeft u _ agent [] out tt e

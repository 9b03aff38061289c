-- ===== src/Auth/Injection.antt =====
-- The outgoing headers as a whole: the credential's own, and what is left of the agent's.
use joyvend_secretvault.Shared.{
  ◌≡◌, refl, sym, ap, ◌∙◌, inl, inr, Option, none, some, List, [], ◌∷◌, ◌++◌, arith, if◌then◌else◌,
  not, ◌&&◌, Bool-cases, All, ok,
}
use joyvend_secretvault.Text.{Bytes, text, bytes_eq, to_lower, trim_space, Unicode}
use joyvend_secretvault.Maps.{Map, lookup, insert, lookup-insert}
use joyvend_secretvault.Model.{AuthType, bearer, header, basic, custom, unknown, Credential}
use joyvend_secretvault.Codec.{replace_all}
use joyvend_secretvault.Auth.{
  Header, canonical_key, set_header, valid_header_field, valid_header_value, is_stripped,
  basic_token, authorization, placeholder, build_from, build_headers, inject_as, inject_auth,
  inject_header_name,
}
use joyvend_secretvault.Auth.Stripping.{IsLeft, build_headers-IsLeft}

abbrev own_name : AuthType → Credential → Bytes
own_name header c = c.header_name
own_name _ c = authorization

-- The value that each type of credential is sent with.
abbrev pub wire_value : AuthType → Credential → List Bytes
wire_value bearer c = (text "Bearer " ++ c.secret) ∷ []
wire_value header c = c.secret ∷ []
wire_value basic c = (text "Basic " ++ basic_token c) ∷ []
wire_value custom c = replace_all c.template placeholder c.secret ∷ []
wire_value (unknown t) c = []

-- A type that the code knows.
abbrev pub IsKnown : AuthType → Type 0
IsKnown (unknown t) = ⊥
IsKnown _ = Unit

lookup-inject_as :
    (t : AuthType) (c : Credential) (h : Header) (j : Bytes)
    → IsKnown t
    → lookup j (inject_as t c h).0
      ≡ (if bytes_eq (canonical_key (own_name t c)) j then some (wire_value t c) else lookup j h)
unfolding inject_as
lookup-inject_as bearer c h j k = lookup-insert _ j _ h
lookup-inject_as header c h j k = lookup-insert _ j _ h
lookup-inject_as basic c h j k = lookup-insert _ j _ h
lookup-inject_as custom c h j k = lookup-insert _ j _ h
lookup-inject_as (unknown t) c h j k = absurd k

own_name_lem : (c : Credential) → inject_header_name c ≡ own_name c.auth_type c
unfolding inject_header_name
own_name_lem c = ground arith

-- What is sent under a canonical name of the agent's own: the value of the last of its headers with
-- that name that is not stripped, and `sent` if there is none.
abbrev pub kept_value :
    Unicode → Bytes → Bytes → Map Bytes → Option (List Bytes) → Option (List Bytes)
kept_value u inj j [] sent = sent
kept_value u inj j ((k, v) ∷ agent) sent = kept_value u inj j agent (
    if not (is_stripped (to_lower u (trim_space u k)) inj) && bytes_eq (canonical_key k) j
    then some (v ∷ [])
    else sent)

lookup-build_from :
    (u : Unicode) (inj j : Bytes) (agent : Map Bytes) (h out : Header)
    → build_from u inj agent h ≡ ok out
    → lookup j out ≡ kept_value u inj j agent (lookup j h)
unfolding build_from set_header
lookup-build_from u inj j [] h out e = let same : h ≡ out = ground arith in rw same refl
lookup-build_from u inj j ((k, v) ∷ agent) h out e =
    elim (Bool-cases (is_stripped (to_lower u (trim_space u k)) inj)) [
      | inl strip ↦ rw strip (lookup-build_from u inj j agent h out (rw strip at e))
      | inr keep ↦ elim (Bool-cases (valid_header_field k)) [
        | inr bad ↦ cc (rw (keep, bad) at e)
        | inl field ↦ elim (Bool-cases (valid_header_value v)) [
          | inr bad ↦ cc (rw (keep, field, bad) at e)
          | inl value ↦
              let ih =
                lookup-build_from u inj j agent (insert (canonical_key k) (v ∷ []) h) out
                  (rw (keep, field, value) at e) in
              rw keep (ih ∙ ap (kept_value u inj j agent) (lookup-insert (canonical_key k) j _ h))
        ]
      ]
    ]

-- Of a credential of a known type, whatever headers the agent sends: the outgoing request has the
-- credential's header with its wire value; under every other canonical name it has the value of the
-- last of the agent's headers with that name that is not stripped, and no header without such a one.
-- None of the agent's that are left has a name on the denylist or that of the credential's header, in
-- any case of its letters, or a value with a line break or a zero byte.
pub inject_auth-build_headers :
    (u : Unicode) (agent : Map Bytes) (c : Credential) (h : Header) (j : Bytes)
    → IsKnown c.auth_type
    → build_headers u agent (inject_header_name c) ≡ ok h
    → (lookup j (inject_auth c h).0 ≡ (
        if bytes_eq (canonical_key (inject_header_name c)) j
        then some (wire_value c.auth_type c)
        else kept_value u (to_lower u (trim_space u (inject_header_name c))) j agent none))
      × All (IsLeft (to_lower u (trim_space u (inject_header_name c)))) h
unfolding inject_auth build_headers
inject_auth-build_headers u agent c h j known built =
    let inj = to_lower u (trim_space u (inject_header_name c)) in
    let left : lookup j h ≡ kept_value u inj j agent none =
      unfold lookup in (lookup-build_from u inj j agent [] h built) in
    (
      lookup-inject_as c.auth_type c h j known
          ∙ ap
              (λ n.
                if bytes_eq (canonical_key n) j
                then some (wire_value c.auth_type c)
                else lookup j h)
              (sym (own_name_lem c))
          ∙ ap
              (λ o.
                if bytes_eq (canonical_key (inject_header_name c)) j
                then some (wire_value c.auth_type c)
                else o)
              left,
      build_headers-IsLeft u agent (inject_header_name c) h built,
    )

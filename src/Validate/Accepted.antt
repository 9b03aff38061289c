-- ===== src/Validate/Accepted.antt =====
-- What a credential is that the validation accepts.
use joyvend_secretvault.Shared.{
  ◌≡◌, ◌≢◌, refl, ◌⊎◌, inl, inr, true, false, some, List, [], ◌∷◌, ◌↔◌, arith, All, ok,
  Result-cases,
}
use joyvend_secretvault.Text.{Bytes}
use joyvend_secretvault.Net.{Parsers}
use joyvend_secretvault.Host.{normalize_pattern, is_reserved_header}
use joyvend_secretvault.Model.{Tier, unset, header, basic, custom, auto, confirm, deny, Credential}
use joyvend_secretvault.Auth.Injection.{IsKnown}
use joyvend_secretvault.Validate.{
  check_auth, check_hosts, fill_read_tier, fill_write_tier, validate_credential,
  contains_secret_placeholder,
}

-- A credential in the form in which it is stored.
pub record IsValid (p : Parsers) (c : Credential) : Type 0 where
  pub known : IsKnown c.auth_type
  pub some_secret : c.secret ≢ []
  pub own_header :
      c.auth_type ≡ header
      → (c.header_name ≢ []) × (is_reserved_header p.unicode c.header_name ≡ false)
  pub some_user : c.auth_type ≡ basic → c.username ≢ []
  pub has_placeholder : c.auth_type ≡ custom → contains_secret_placeholder c.template ≡ true
  pub some_host : c.allow_hosts ≢ []
  pub good_hosts : All (λ h. (np : Bytes) × (normalize_pattern p h ≡ ok np)) c.allow_hosts
  pub read : (c.read_tier ≡ auto) ⊎ (c.read_tier ≡ confirm)
  pub write : (c.write_tier ≡ auto) ⊎ (c.write_tier ≡ confirm) ⊎ (c.write_tier ≡ deny)

check_hosts_iff :
    (p : Parsers) (hosts : List Bytes)
    → (check_hosts p hosts ≡ ok tt)
      ↔ All (λ h. (np : Bytes) × (normalize_pattern p h ≡ ok np)) hosts
unfolding check_hosts
check_hosts_iff p [] = ((λ h. ground arith), (λ h. refl))
check_hosts_iff p (h ∷ hosts) = elim (Result-cases (normalize_pattern p h)) [
  | inl (np, e) ↦ (
    (λ g. ((np, e), (check_hosts_iff p hosts).0 (rw (e, check_hosts) at g))),
    (λ (_, m). rw (e, check_hosts) ((check_hosts_iff p hosts).1 m)),
  )
  | inr (x, e) ↦ ((λ g. cc (rw (e, check_hosts) at g)), (λ ((np, f), m). cc))
]

abbrev or_default : Tier → Tier → Tier
or_default unset t = t
or_default t _ = t

-- The credential with the defaults for the tiers that it leaves open.
abbrev pub filled : Credential → Credential
filled c = record c {
  read_tier = or_default c.read_tier auto;
  write_tier = or_default c.write_tier confirm;
}

validate_credential_sound :
    (p : Parsers) (c d : Credential)
    → validate_credential p (some c) ≡ ok d
    → IsValid p d × (d ≡ filled c)
unfolding validate_credential check_auth fill_read_tier fill_write_tier
validate_credential_sound p c d h = (
  record {
    known = ground arith;
    some_secret = ground arith;
    own_header = ground arith;
    some_user = ground arith;
    has_placeholder = ground arith;
    some_host = ground arith;
    good_hosts = (check_hosts_iff p d.allow_hosts).0 (ground arith);
    read = ground arith;
    write = ground arith;
  },
  ground arith,
)

validate_credential-filled :
    (p : Parsers) (c : Credential)
    → IsValid p (filled c)
    → validate_credential p (some c) ≡ ok (filled c)
unfolding validate_credential check_auth fill_read_tier fill_write_tier
validate_credential-filled p c v = ground (
  arith,
  (check_hosts_iff p c.allow_hosts).1 v.good_hosts,
  v.known,
  v.some_secret,
  v.own_header,
  v.some_user,
  v.has_placeholder,
  v.some_host,
  v.read,
  v.write,
)

-- The validation accepts a credential as another exactly if the other is the credential with the
-- defaults for the tiers that it leaves open, and is valid. So a valid credential is accepted as it
-- is, and what is accepted is accepted again.
pub validate_credential-ok_iff :
    (p : Parsers) (c d : Credential)
    → (validate_credential p (some c) ≡ ok d) ↔ (IsValid p d × (d ≡ filled c))
validate_credential-ok_iff p c d =
    (validate_credential_sound p c d, (λ (v, e). rw e (validate_credential-filled p c (rw e at v))))

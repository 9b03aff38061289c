-- ===== src/Fetch/Authorising.antt =====
-- Whether the tests of Fetch/Sending are all that a request has to pass.
use joyvend_secretvault.Shared.{◌≡◌, ◌≢◌, ◌⊎◌, ◌↔◌, refl, inl, inr, true, some, List, [], arith, ok}
use joyvend_secretvault.Text.{Bytes, text, bytes_eq, bytes_eq_iff}
use joyvend_secretvault.Net.{Url, Parsers}
use joyvend_secretvault.Limiter.{allow}
use joyvend_secretvault.Model.{
  Decision, Tier, unset, auto, confirm, deny, other, allowed, confirmed, Credential,
}
use joyvend_secretvault.Auth.{inject_auth}
use joyvend_secretvault.Store.{Library}
use joyvend_secretvault.Fetch.{
  FetchRequest, Approval, approved, Outgoing, check_state, check_url, check_scheme, check_port,
  classify_tier, check_tier,
}
use joyvend_secretvault.Fetch.Pipeline.{Engine, World, Admitted, admit, prepare, proceed, fetch}
use joyvend_secretvault.Fetch.Sending.{
  IsAcceptable, IsAuthorised, the_method, fetch-IsAuthorised, sent-forward,
}

check_scheme_complete :
    (cred : Credential) (u : Url)
    → (u.scheme ≡ text "https") ⊎ ((u.scheme ≡ text "http") × (cred.allow_insecure ≡ true))
    → check_scheme cred u ≡ ok tt
unfolding check_scheme bytes_eq
check_scheme_complete cred u (inl e) = rw e refl
check_scheme_complete cred u (inr (e, insecure)) = rw (e, insecure) refl

check_port_complete :
    (cred : Credential) (u : Url)
    → (cred.allow_priv ≡ true → (u.port ≡ []) ⊎ (u.port ≡ text "443") ⊎ (u.port ≡ text "80"))
    → check_port cred u ≡ ok tt
unfolding check_port
check_port_complete cred u standard =
    ground (arith, standard, bytes_eq_iff u.port (text "443"), bytes_eq_iff u.port (text "80"))

check_url_complete :
    (p : Parsers) (cred : Credential) (address : Bytes) (u : Url) (host : Bytes)
    → IsAcceptable p cred address u host
    → check_url p cred address ≡ ok (u, host)
unfolding check_url
check_url_complete p cred address u host h = ground (
  arith,
  h.parsed,
  h.has_host,
  h.no_user,
  h.canonical,
  check_scheme_complete cred u h.secure,
  check_port_complete cred u h.standard_port,
)

check_tier_complete :
    (host : Bytes) (t : Tier) (answer : Approval)
    → t ≢ deny
    → (t ≡ confirm → answer ≡ approved)
    → (d : Decision) × (check_tier host t answer ≡ ok d)
unfolding check_tier
check_tier_complete host deny answer h k = absurd (h refl)
check_tier_complete host confirm answer h k = (confirmed, rw (k refl) refl)
check_tier_complete host unset answer h k = (allowed, refl)
check_tier_complete host auto answer h k = (allowed, refl)
check_tier_complete host (other t) answer h k = (allowed, refl)

module _ (lib : Library) (w : World) (fr : FetchRequest) (source : Bytes) (e : Engine) where
  abbrev pub admitted : (out : Outgoing) → IsAuthorised lib w fr source e out → Decision → Admitted
  admitted out h d = record {
    cred = h.cred;
    target = h.target;
    host = h.host;
    pinned = out.pinned;
    tier = classify_tier h.cred (the_method lib w fr source e);
    decision = d;
  }

  pub admit_complete :
      (out : Outgoing) (h : IsAuthorised lib w fr source e out)
      → (d : Decision) × (admit lib w fr e.store (the_method lib w fr source e)
          ≡ ok (admitted out h d))
  unfolding admit check_state
  admit_complete out h =
      let (d, decided) =
        check_tier_complete h.host (classify_tier h.cred (the_method lib w fr source e)) _
          h.not_denied h.approved_if_asked in
      let url = check_url_complete lib.parsers h.cred fr.url h.target h.host h.acceptable in
      (d, ground (arith, h.enabled, h.not_expired, url, h.on_list, h.pinned, decided))

  pub prepare_complete :
      (out : Outgoing) (h : IsAuthorised lib w fr source e out) (d : Decision)
      → prepare lib w fr (admitted out h d) (the_method lib w fr source e)
        ≡ ok (out, (inject_auth h.cred h.agent_headers).1)
  unfolding prepare
  prepare_complete out h d = ground (
    arith, h.filtered, h.same_body, h.keeps_secret, h.well_formed, h.same_method, h.same_address,
    h.authenticated,
  )

  proceed_complete :
      (a : Admitted) (out : Outgoing) (injected : List Bytes)
      → (allow lib.floats fr.credential a.cred.rate_per_min w.rate_time (w.meanwhile e).limiter).1
        ≡ true
      → prepare lib w fr a (the_method lib w fr source e) ≡ ok (out, injected)
      → (proceed lib w fr source (the_method lib w fr source e) a (w.meanwhile e)).sent ≡ some out
  unfolding proceed
  proceed_complete a out injected within p =
      rw (within, p, proceed) (sent-forward lib w fr source e a (out, injected) _)

  fetch_complete :
      (out : Outgoing)
      → IsAuthorised lib w fr source e out
      → (fetch lib w fr source e).sent ≡ some out
  unfolding fetch
  fetch_complete out h =
      let (d, a) = admit_complete out h in
      let p = prepare_complete out h d in
      rw (a, fetch) (proceed_complete (admitted out h d) out _ h.within_rate p)

  -- A request reaches the transport exactly if the credential exists, is enabled and has not expired;
  -- the URL is acceptable, its host is on the credential's allowlist, and the address to dial was
  -- pinned for that host; the tier of the method does not deny it, and the approver approved it if
  -- the tier asks for that; the rate allows it; the agent's headers are valid, its body can be
  -- decoded, and the scan of its URL, body and headers for a secret of six bytes or more has found
  -- none; and Go's library accepts the method with the URL. It is then the agent's method, URL and
  -- body, with the headers of the agent that are left and the credential's written last.
  pub fetch-IsAuthorised_iff :
      (out : Outgoing)
      → ((fetch lib w fr source e).sent ≡ some out) ↔ IsAuthorised lib w fr source e out
  fetch-IsAuthorised_iff out = (fetch-IsAuthorised lib w fr source e out, fetch_complete out)

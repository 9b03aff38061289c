-- ===== src/Fetch/Sending.antt =====
-- When a request reaches the transport.
use joyvend_secretvault.Shared.{
  ◌≡◌, ◌≢◌, ◌⊎◌, inl, inr, true, false, some, List, [], is_empty, arith, ok, Result-cases,
}
use joyvend_secretvault.Text.{Bytes, text, bytes_eq_iff}
use joyvend_secretvault.Net.{Url, Parsers}
use joyvend_secretvault.Host.{normalize_host, host_allowed}
use joyvend_secretvault.Dial.{resolve_and_pin}
use joyvend_secretvault.Limiter.{allow}
use joyvend_secretvault.Model.{Decision, Tier, confirm, deny, Credential}
use joyvend_secretvault.Auth.{Header, build_headers, inject_auth, inject_header_name}
use joyvend_secretvault.Store.{Library, lookup_credential}
use joyvend_secretvault.Fetch.{
  FetchRequest, Approval, approved, Outgoing, is_after, request_method, check_url, check_scheme,
  check_port, classify_tier, check_tier, request_body, outbound_contains_secret,
}
use joyvend_secretvault.Fetch.Pipeline.{
  Engine, World, Admitted, admit, prepare, conclude_stop, conclude_ok, forward, proceed, fetch,
}
use joyvend_secretvault.Fetch.Admission.{admit_sound, confirm_request}

-- The URL that was parsed: with a host; over https, or http where the credential allows that; without user
-- information; for a credential with private addresses, on a standard port.
pub record IsAcceptable (p : Parsers) (c : Credential) (address : Bytes) (u : Url) (host : Bytes)
    : Type 0 where
  pub parsed : p.parse_url address ≡ some u
  pub has_host : is_empty u.host ≡ false
  pub no_user : u.has_user ≡ false
  pub secure : (u.scheme ≡ text "https") ⊎ ((u.scheme ≡ text "http") × (c.allow_insecure ≡ true))
  pub standard_port :
      c.allow_priv ≡ true → (u.port ≡ []) ⊎ (u.port ≡ text "443") ⊎ (u.port ≡ text "80")
  pub canonical : normalize_host p u.hostname ≡ ok host

check_url_sound :
    (p : Parsers) (c : Credential) (address : Bytes) (u : Url) (host : Bytes)
    → check_url p c address ≡ ok (u, host)
    → IsAcceptable p c address u host
unfolding check_url check_scheme check_port
check_url_sound p c address u host h = ground (
  arith,
  bytes_eq_iff u.scheme (text "http"),
  bytes_eq_iff u.scheme (text "https"),
  bytes_eq_iff u.port (text "443"),
  bytes_eq_iff u.port (text "80"),
)

check_tier_confirmed :
    (host : Bytes) (t : Tier) (answer : Approval) (d : Decision)
    → check_tier host t answer ≡ ok d
    → (t ≢ deny) × (t ≡ confirm → answer ≡ approved)
unfolding check_tier
check_tier_confirmed host t answer d h = (ground arith, ground arith)

module _ (lib : Library) (w : World) (fr : FetchRequest) (source : Bytes) (e : Engine) where
  abbrev pub the_method : Bytes
  the_method = request_method lib.parsers fr.method

  -- What is true of a request that was sent.
  pub record IsAuthorised (out : Outgoing) : Type 0 where
    pub cred : Credential
    pub enabled : lookup_credential fr.credential e.store ≡ some (cred, true)
    pub not_expired : is_after w.expiry_time cred.expires_at ≡ false
    pub target : Url
    pub host : Bytes
    pub acceptable : IsAcceptable lib.parsers cred fr.url target host
    pub same_method : out.method ≡ the_method
    pub same_address : out.address ≡ target.address
    pub well_formed : w.request_ok the_method target.address ≡ true
    pub on_list : host_allowed lib.parsers host cred.allow_hosts ≡ true
    pub pinned :
        resolve_and_pin lib.parsers w.resolve w.deny_ip host cred.allow_priv ≡ ok out.pinned
    pub not_denied : classify_tier cred the_method ≢ deny
    pub approved_if_asked :
        classify_tier cred the_method ≡ confirm
        → w.confirm_with (record { credential = fr.credential; method = the_method; host = host })
          ≡ approved
    pub within_rate :
        (allow lib.floats fr.credential cred.rate_per_min w.rate_time (w.meanwhile e).limiter).1
        ≡ true
    pub same_body : request_body w.decode_base64 fr ≡ some out.body
    pub keeps_secret : outbound_contains_secret cred fr out.body ≡ false
    pub agent_headers : Header
    pub filtered :
        build_headers lib.parsers.unicode fr.headers (inject_header_name cred) ≡ ok agent_headers
    pub authenticated : out.header ≡ (inject_auth cred agent_headers).0

  pub sent-forward :
      (a : Admitted) (p : Outgoing × List Bytes) (e' : Engine)
      → (forward lib w fr source the_method a p e').sent ≡ some (p.0)
  unfolding forward conclude_stop conclude_ok
  sent-forward a (out, injected) e' = ground arith

  sent-proceed :
      (a : Admitted) (out : Outgoing)
      → (proceed lib w fr source the_method a (w.meanwhile e)).sent ≡ some out
      → ((injected : List Bytes) × (prepare lib w fr a the_method ≡ ok (out, injected)))
        × ((allow lib.floats fr.credential a.cred.rate_per_min w.rate_time
              (w.meanwhile e).limiter).1
            ≡ true)
  unfolding proceed
  sent-proceed a out h = elim (Result-cases (prepare lib w fr a the_method)) [
    | inr (stop, f) ↦ absurd (unfold conclude_stop in ground arith)
    | inl ((o, injected), f) ↦
        let state : Engine = record (w.meanwhile e) {
          limiter =
              (allow lib.floats fr.credential a.cred.rate_per_min w.rate_time
                (w.meanwhile e).limiter).0;
        } in
        let same : o ≡ out =
          unfold conclude_stop in ground (arith, sent-forward a (o, injected) state) in
        ((injected, rw (← same) f), unfold conclude_stop in ground arith)
  ]

  prepare_sound :
      (a : Admitted) (out : Outgoing) (injected : List Bytes)
      → prepare lib w fr a the_method ≡ ok (out, injected)
      → (out.method ≡ the_method)
        × (out.address ≡ a.target.address)
        × (w.request_ok the_method a.target.address ≡ true)
        × (request_body w.decode_base64 fr ≡ some out.body)
        × (out.pinned ≡ a.pinned)
        × (outbound_contains_secret a.cred fr out.body ≡ false)
        × ((hdr : Header) × (build_headers lib.parsers.unicode fr.headers
                (inject_header_name a.cred)
              ≡ ok hdr)
            × (out.header ≡ (inject_auth a.cred hdr).0))
  unfolding prepare
  prepare_sound a out injected h =
      elim (Result-cases
        (build_headers lib.parsers.unicode fr.headers (inject_header_name a.cred))) [
          | inr (x, f) ↦ absurd (ground arith)
          | inl (hdr, f) ↦ (
            ground arith,
            ground arith,
            ground arith,
            ground arith,
            ground arith,
            ground arith,
            (hdr, f, ground arith),
          )
        ]

  -- A request reaches the transport only if the credential exists, is enabled and has not expired;
  -- the URL is acceptable, its host is on the credential's allowlist, and the address to dial was
  -- pinned for that host; the tier of the method does not deny it, and the approver approved it if
  -- the tier asks for that; the rate allows it; the scan of the agent's URL, body and headers for a
  -- secret of six bytes or more has found none; and the headers are those of the agent that are left,
  -- with the credential's written last.
  pub fetch-IsAuthorised :
      (out : Outgoing) → (fetch lib w fr source e).sent ≡ some out → IsAuthorised out
  unfolding fetch
  fetch-IsAuthorised out h = elim (Result-cases (admit lib w fr e.store the_method)) [
    | inr (stop, f) ↦ absurd (unfold conclude_stop in ground arith)
    | inl (a, f) ↦
        let passed = admit_sound lib w fr e.store the_method a f in
        let ((injected, made), within) = sent-proceed a out (rw (f, fetch) at h) in
        let (method, address, formed, body, dialled, kept, (hdr, filtered, header)) =
          prepare_sound a out injected made in
        let (allowed, approval) =
          check_tier_confirmed a.host a.tier
            (w.confirm_with (confirm_request lib w fr a the_method)) a.decision passed.decided in
        record {
          cred = a.cred;
          enabled = passed.enabled;
          not_expired = passed.not_expired;
          target = a.target;
          host = a.host;
          acceptable = check_url_sound lib.parsers a.cred fr.url a.target a.host passed.parsed;
          same_method = method;
          same_address = address;
          well_formed = formed;
          same_body = body;
          on_list = passed.on_list;
          pinned = rw dialled passed.resolved;
          not_denied = rw passed.tiered at allowed;
          approved_if_asked = rw passed.tiered at approval;
          within_rate = within;
          keeps_secret = kept;
          agent_headers = hdr;
          filtered = filtered;
          authenticated = header;
        }
  ]

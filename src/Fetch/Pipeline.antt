-- ===== src/Fetch/Pipeline.antt =====
-- internal/vault/fetch.go: `Fetch`, composed of its steps.
use joyvend_secretvault.Shared.{
  ℕ, ◌-◌, ◌/◌, Bool, false, not, Option, none, some, List, [], if◌then◌else◌, length, Result, ok,
  err, ◌>>=◌, ◌>>◌, guard, from_option, map_err,
}
use joyvend_secretvault.Text.{Bytes}
use joyvend_secretvault.Net.{Ip, Url}
use joyvend_secretvault.Host.{host_allowed}
use joyvend_secretvault.Dial.{Resolver, Deny, resolve_and_pin}
use joyvend_secretvault.Limiter.{Limiter, allow}
use joyvend_secretvault.Model.{
  Credential, Tier, Decision, AuditEntry, FetchError, err_bad_url, err_not_allowed, err_bad_header,
  err_rate_limited, err_exfil, err_upstream, err_reflect, error_status,
}
use joyvend_secretvault.Auth.{build_headers, inject_auth, inject_header_name}
use joyvend_secretvault.Reflect.{secret_needles, contains_any}
use joyvend_secretvault.Store.{Library, Store, Io, lookup_credential}
use joyvend_secretvault.Store.Audit.{append_audit}
use joyvend_secretvault.Fetch.{
  FetchRequest, FetchResponse, ConfirmRequest, Approval, Outgoing, Upstream, Stop, fail,
  request_method, check_state, check_url, classify_tier, check_tier, request_body,
  outbound_contains_secret, is_opaque, response_cap, read_capped, sanitize_resp_headers,
}

-- The parts of an Engine that change.
pub record Engine : Type 0 where
  pub store : Store
  pub limiter : Limiter

-- What one call of `Fetch` meets outside: the clock at each reading, the resolver, the address
-- policy, the approver, the transport, and what other goroutines do to the engine while this one
-- waits for the approval (`meanwhile`) and for the upstream (`in_flight`).
pub record World : Type 0 where
  pub started : ℕ
  pub expiry_time : ℕ
  pub rate_time : ℕ
  pub audit_time : ℕ
  pub end_time : ℕ
  pub resolve : Resolver
  pub deny_ip : Deny
  pub confirm_with : ConfirmRequest → Approval
  pub decode_base64 : Bytes → Option Bytes  -- base64.StdEncoding.DecodeString
  pub request_ok : Bytes → Bytes → Bool  -- http.NewRequestWithContext accepts method and URL
  pub round_trip : Outgoing → Option Upstream
  pub meanwhile : Engine → Engine
  pub in_flight : Engine → Engine
  pub io : Io

-- What the steps before the rate limit have established.
pub record Admitted : Type 0 where
  pub cred : Credential
  pub target : Url
  pub host : Bytes
  pub pinned : Ip
  pub tier : Tier
  pub decision : Decision

-- What `Fetch` leaves: the engine, the answer, and the request that reached the transport, if any.
pub record Outcome : Type 0 where
  pub engine : Engine
  pub response : FetchResponse
  pub error : Option FetchError
  pub sent : Option Outgoing

abbrev pub empty_response : Bytes → FetchResponse
empty_response id = record { status = 0; headers = []; body = []; truncated = false; audit_id = id }

module _ (lib : Library) (w : World) (fr : FetchRequest) where
  -- Steps 1 to 5.
  unfoldable pub admit : Store → Bytes → Result Stop Admitted
  admit s method = do
    cred ← check_state w.expiry_time (lookup_credential fr.credential s)
    (u, host) ← check_url lib.parsers cred fr.url
    guard (host_allowed lib.parsers host cred.allow_hosts) (fail host err_not_allowed)
    pinned ←
        map_err (fail host) (resolve_and_pin lib.parsers w.resolve w.deny_ip host cred.allow_priv)
    let asked : ConfirmRequest = record { credential = fr.credential; method = method; host = host }
    decision ← check_tier host (classify_tier cred method) (w.confirm_with asked)
    ok (record {
      cred = cred;
      target = u;
      host = host;
      pinned = pinned;
      tier = classify_tier cred method;
      decision = decision;
    })

  -- Step 7: the outgoing request, and the injected values.
  unfoldable pub prepare : Admitted → Bytes → Result Stop (Outgoing × List Bytes)
  prepare a method = do
    hdr ←
        map_err (λ _. fail a.host err_bad_header)
          (build_headers lib.parsers.unicode fr.headers (inject_header_name a.cred))
    body ← from_option (request_body w.decode_base64 fr) (fail a.host err_bad_url)
    guard (not (outbound_contains_secret a.cred fr body)) (fail a.host err_exfil)
    guard (w.request_ok method a.target.address) (fail a.host err_bad_url)
    let out : Outgoing = record {
      method = method;
      address = a.target.address;
      header = (inject_auth a.cred hdr).0;
      body = body;
      pinned = a.pinned;
    }
    ok (out, (inject_auth a.cred hdr).1)

  -- Steps 8 and 9, behind the round trip.
  unfoldable pub receive : Admitted → List Bytes → Option Upstream → Result Stop FetchResponse
  receive a injected answer = do
    resp ← from_option answer (fail a.host err_upstream)
    guard (not (is_opaque resp.headers)) (fail a.host err_reflect)
    let (body, truncated) = read_capped resp.body (response_cap fr.max_response_bytes)
    let needles = secret_needles injected
    guard (not (contains_any body needles)) (fail a.host err_reflect)
    ok (record {
      status = resp.status;
      headers = sanitize_resp_headers lib.parsers resp.headers a.cred needles;
      body = body;
      truncated = truncated;
      audit_id = [];
    })

  -- The entry that the closure `audit` builds.
  unfoldable pub audit_entry : Bytes → Bytes → Decision → Tier → Bytes → ℕ → ℕ → AuditEntry
  audit_entry source method decision tier host status bytes = record {
    time = w.audit_time;
    credential = fr.credential;
    method = method;
    host = host;
    decision = decision;
    tier = tier;
    status = status;
    bytes = bytes;
    source = source;
    latency_ms = (w.end_time - w.started) / 1_000_000;
    prev_hash = [];
    hash = [];
  }

  -- `AppendAudit` takes the entry by value, and its error is dropped.
  unfoldable pub log_entry : AuditEntry → Engine → Engine
  log_entry ent e = record e { store = (append_audit lib w.io ent e.store).0 }

  unfoldable pub conclude_stop : Bytes → Bytes → Option Outgoing → Stop → Engine → Outcome
  unfolding log_entry audit_entry
  conclude_stop source method sent stop e =
      let ent =
        audit_entry source method stop.decision stop.tier stop.host (error_status stop.error) 0 in
      record {
        engine = log_entry ent e;
        response = empty_response ent.hash;
        error = some stop.error;
        sent = sent;
      }

  unfoldable pub conclude_ok :
      Bytes → Bytes → Admitted → Outgoing → FetchResponse → Engine → Outcome
  unfolding log_entry audit_entry
  conclude_ok source method a out r e =
      let ent = audit_entry source method a.decision a.tier a.host r.status (length r.body) in
      record {
        engine = log_entry ent e;
        response = record r { audit_id = ent.hash };
        error = none;
        sent = some out;
      }

  -- Step 8 on: the transport is called.
  unfoldable pub forward : Bytes → Bytes → Admitted → Outgoing × List Bytes → Engine → Outcome
  forward source method a (out, injected) e = elim (receive a injected (w.round_trip out)) [
    | err stop ↦ conclude_stop source method (some out) stop (w.in_flight e)
    | ok r ↦ conclude_ok source method a out r (w.in_flight e)
  ]

  -- Step 6 on.
  unfoldable pub proceed : Bytes → Bytes → Admitted → Engine → Outcome
  proceed source method a e =
      let (l, passed) = allow lib.floats fr.credential a.cred.rate_per_min w.rate_time e.limiter in
      let e' = record e { limiter = l } in
      if passed
      then (elim (prepare a method) [
        | err stop ↦ conclude_stop source method none stop e'
        | ok p ↦ forward source method a p e'
      ])
      else conclude_stop source method none (fail a.host err_rate_limited) e'

  unfoldable pub fetch : Bytes → Engine → Outcome
  fetch source e =
      let method = request_method lib.parsers fr.method in
      elim (admit e.store method) [
        | err stop ↦ conclude_stop source method none stop (w.meanwhile e)
        | ok a ↦ proceed source method a (w.meanwhile e)
      ]

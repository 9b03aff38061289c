-- ===== src/Fetch/Returning.antt =====
-- What a fetch gives back to the agent.
use joyvend_secretvault.Shared.{
  ℕ, ◌+◌, ◌≤◌, ◌≡◌, refl, ◌⊎◌, inl, inr, true, false, Option, none, some, List, [], arith, ltb,
  length, take, ok, Result-cases, Bool-cases, length-take,
}
use joyvend_secretvault.Text.{Bytes}
use joyvend_secretvault.Maps.{lookup}
use joyvend_secretvault.Net.{Parsers}
use joyvend_secretvault.Limiter.{allow}
use joyvend_secretvault.Model.{Credential, FetchError, err_rate_limited}
use joyvend_secretvault.Auth.{Header, canonical_key, build_headers, inject_auth, inject_header_name}
use joyvend_secretvault.Reflect.{secret_needles, contains_any}
use joyvend_secretvault.Reflect.Guarding.{echoes, lookup-reflect_guard_headers}
use joyvend_secretvault.Store.{Library, Store, lookup_credential}
use joyvend_secretvault.Fetch.{
  FetchRequest, FetchResponse, Upstream, Outgoing, Stop, request_method, response_cap, read_capped,
  sanitize_resp_headers, drop_location,
}
use joyvend_secretvault.Fetch.Pipeline.{
  Engine, World, Admitted, Outcome, admit, prepare, receive, conclude_stop, conclude_ok, forward,
  proceed, fetch, empty_response,
}
use joyvend_secretvault.Fetch.Admission.{admit_sound}

length-read_capped : (body : Bytes) (max : ℕ) → length (read_capped body max).0 ≤ max
unfolding read_capped
length-read_capped body max =
    let buf = take (max + 1) body in
    elim (Bool-cases (ltb max (length buf))) [
      | inl long ↦ rw (long, length-take max buf) omega arith
      | inr short ↦ rw short (ground arith)
    ]

-- A response in which none of the injected values is found, in the body or under a canonical
-- header name, and that is as long as the request allows.
pub record IsClean (fr : FetchRequest) (injected : List Bytes) (r : FetchResponse) : Type 0 where
  pub clean_body : contains_any r.body (secret_needles injected) ≡ false
  pub clean_headers :
      (j : Bytes) (values : List Bytes)
      → canonical_key j ≡ j
      → lookup j r.headers ≡ some values
      → echoes (secret_needles injected) values ≡ false
  pub capped : length r.body ≤ response_cap fr.max_response_bytes

lookup-sanitize :
    (p : Parsers) (h : Header) (c : Credential) (needles : List Bytes) (j : Bytes)
    (values : List Bytes)
    → canonical_key j ≡ j
    → lookup j (sanitize_resp_headers p h c needles) ≡ some values
    → (lookup j (drop_location p c h) ≡ some values) × (echoes needles values ≡ false)
unfolding sanitize_resp_headers
lookup-sanitize p h c needles j values canonical found =
    lookup-reflect_guard_headers (drop_location p c h) needles j values canonical found

module _ (lib : Library) (w : World) (fr : FetchRequest) where
  receive-IsClean :
      (a : Admitted) (injected : List Bytes) (answer : Option Upstream) (r : FetchResponse)
      → receive lib w fr a injected answer ≡ ok r
      → IsClean fr injected r
  unfolding receive
  receive-IsClean a injected none r h = absurd (ground arith)
  receive-IsClean a injected (some resp) r h =
      let max = response_cap fr.max_response_bytes in
      let needles = secret_needles injected in
      let body = (read_capped resp.body max).0 in
      let headers = sanitize_resp_headers lib.parsers resp.headers a.cred needles in
      let same_body : body ≡ r.body = ground arith in
      let same_headers : headers ≡ r.headers = ground arith in
      record {
        clean_body = ground arith;
        clean_headers = λ j values canonical found.
            let there : lookup j headers ≡ some values = rw same_headers found in
            (lookup-sanitize lib.parsers resp.headers a.cred needles j values canonical there).1;
        capped = rw (← same_body) (length-read_capped resp.body max);
      }

  -- What the agent gets of a request that was sent with these injected values: a clean response, or
  -- an error and nothing else. In neither case does it get the identifier of the audit row.
  abbrev pub Returns : List Bytes → Outcome → Type 0
  Returns injected o =
      ((o.error ≡ none) × IsClean fr injected o.response × (o.response.audit_id ≡ []))
      ⊎ ((x : FetchError) × (o.error ≡ some x) × (o.response ≡ empty_response []))

  Returns-conclude_stop :
      (source method : Bytes) (sent : Option Outgoing) (stop : Stop) (e : Engine)
      (injected : List Bytes)
      → Returns injected (conclude_stop lib w fr source method sent stop e)
  unfolding conclude_stop
  Returns-conclude_stop source method sent stop e injected = inr (stop.error, refl, refl)

  Returns-conclude_ok :
      (source method : Bytes) (a : Admitted) (out : Outgoing) (r : FetchResponse) (e : Engine)
      (injected : List Bytes)
      → IsClean fr injected r
      → Returns injected (conclude_ok lib w fr source method a out r e)
  unfolding conclude_ok
  Returns-conclude_ok source method a out r e injected h = inl (
    refl,
    record { clean_body = h.clean_body; clean_headers = h.clean_headers; capped = h.capped },
    refl,
  )

  Returns-forward :
      (source method : Bytes) (a : Admitted) (out : Outgoing) (injected : List Bytes) (e : Engine)
      → Returns injected (forward lib w fr source method a (out, injected) e)
  unfolding forward
  Returns-forward source method a out injected e =
      elim (Result-cases (receive lib w fr a injected (w.round_trip out))) [
        | inl (r, f) ↦
            rw (f, forward)
              (Returns-conclude_ok source method a out r (w.in_flight e) injected
                (receive-IsClean a injected (w.round_trip out) r f))
        | inr (stop, f) ↦
            rw (f, forward)
              (Returns-conclude_stop source method (some out) stop (w.in_flight e) injected)
      ]

  -- The values that the credential of a state puts into a request.
  abbrev Injected : Store → List Bytes → Type 0
  Injected s injected =
      (c : Credential) × (hdr : Header) × (lookup_credential fr.credential s ≡ some (c, true))
      × (build_headers lib.parsers.unicode fr.headers (inject_header_name c) ≡ ok hdr)
      × (injected ≡ (inject_auth c hdr).1)

  -- How a fetch ends: with an error, or with an answer that is clean of the injected values.
  abbrev pub Ends : Store → Outcome → Type 0
  Ends s o =
      ((x : FetchError) × (o.error ≡ some x) × (o.response ≡ empty_response []))
      ⊎ ((injected : List Bytes) × Injected s injected × Returns injected o)

  prepare_injected :
      (a : Admitted) (method : Bytes) (out : Outgoing) (injected : List Bytes)
      → prepare lib w fr a method ≡ ok (out, injected)
      → (hdr : Header) × (build_headers lib.parsers.unicode fr.headers (inject_header_name a.cred)
          ≡ ok hdr)
        × (injected ≡ (inject_auth a.cred hdr).1)
  unfolding prepare
  prepare_injected a method out injected h =
      elim (Result-cases
        (build_headers lib.parsers.unicode fr.headers (inject_header_name a.cred))) [
          | inr (x, f) ↦ absurd (ground arith)
          | inl (hdr, f) ↦ (hdr, f, ground arith)
        ]

  Ends-proceed :
      (source method : Bytes) (s : Store) (a : Admitted) (e : Engine)
      → lookup_credential fr.credential s ≡ some (a.cred, true)
      → Ends s (proceed lib w fr source method a e)
  unfolding proceed
  Ends-proceed source method s a e there =
      let (l, passed) = allow lib.floats fr.credential a.cred.rate_per_min w.rate_time e.limiter in
      let e' : Engine = record e { limiter = l } in
      elim (Bool-cases passed) [
        | inr f ↦ rw f (unfold conclude_stop in inl (err_rate_limited, refl, refl))
        | inl t ↦ elim (Result-cases (prepare lib w fr a method)) [
          | inr (stop, f) ↦ rw (t, f) (unfold conclude_stop in inl (stop.error, refl, refl))
          | inl ((out, injected), f) ↦
              let (hdr, built, same) = prepare_injected a method out injected f in
              rw (t, f)
                (inr (
                  injected,
                  (a.cred, hdr, there, built, same),
                  Returns-forward source method a out injected e',
                ))
        ]
      ]

  -- A fetch that succeeds gives back a body and, under canonical names, headers in which no needle
  -- of the values that its credential injected is found, and the body is no longer than the limit of
  -- the request, or the engine's where that is lower. A fetch that fails gives back nothing but the
  -- error. The identifier of the audit row is empty in both.
  pub fetch-Ends : (source : Bytes) (e : Engine) → Ends e.store (fetch lib w fr source e)
  unfolding fetch
  fetch-Ends source e =
      let method = request_method lib.parsers fr.method in
      elim (Result-cases (admit lib w fr e.store method)) [
        | inr (stop, f) ↦ rw (f, fetch) (unfold conclude_stop in inl (stop.error, refl, refl))
        | inl (a, f) ↦
            rw (f, fetch)
              (Ends-proceed source method e.store a (w.meanwhile e)
                ((admit_sound lib w fr e.store method a f).enabled))
      ]

-- ===== src/Fetch/Logging.antt =====
-- The audit row of each fetch.
use joyvend_secretvault.Shared.{
  ℕ, ◌≡◌, refl, subst, ◌⊎◌, inl, inr, Bool, Option, none, some, List, [], ◌∷◌, ◌++◌, arith, ok, err,
  Result-cases, Bool-cases,
}
use joyvend_secretvault.Text.{Bytes}
use joyvend_secretvault.Net.{Parsers}
use joyvend_secretvault.Limiter.{allow}
use joyvend_secretvault.Model.{
  Decision, allowed, denied, blocked, confirmed, Tier, Credential, AuditEntry, FetchError,
  error_status, err_rate_limited,
}
use joyvend_secretvault.Store.{Library, Store, lookup_credential}
use joyvend_secretvault.Fetch.Admission.{admit_sound}
use joyvend_secretvault.Store.Audit.{append_audit, chain_entry, last_hash}
use joyvend_secretvault.Store.Operations.{audit-save}
use joyvend_secretvault.Fetch.{
  FetchRequest, FetchResponse, ConfirmRequest, classify_tier, Upstream, Approval, check_scheme,
  check_port, Outgoing, Stop, fail, request_method, check_tier, check_state, check_url,
}
use joyvend_secretvault.Fetch.Pipeline.{
  Engine, World, Admitted, Outcome, admit, prepare, receive, log_entry, conclude_stop, conclude_ok,
  forward, proceed, fetch,
}

-- Of the others' actions during the call, only those that leave the audit log alone.
abbrev pub IsQuiet : World → Type 0
IsQuiet w =
    ((e : Engine) → (w.meanwhile e).store.doc.audit ≡ e.store.doc.audit)
    × ((e : Engine) → (w.in_flight e).store.doc.audit ≡ e.store.doc.audit)

abbrev pub log : Engine → List AuditEntry
log e = e.store.doc.audit

-- What the new row says, beside the error that the caller gets.
abbrev pub Reports : AuditEntry → Outcome → Type 0
Reports row o =
    ((o.error ≡ none)
      × ((row.decision ≡ allowed) ⊎ (row.decision ≡ confirmed))
      × (row.status ≡ o.response.status))
    ⊎ ((x : FetchError) × (o.error ≡ some x)
        × ((row.decision ≡ denied) ⊎ (row.decision ≡ blocked))
        × (row.status ≡ error_status x)
        × (row.bytes ≡ 0))

-- The log has one more row, about this request, chained to the last.
pub record Logged (lib : Library) (fr : FetchRequest) (source method : Bytes)
    (before : List AuditEntry) (o : Outcome) : Type 0 where
  pub row : AuditEntry
  pub appended : log o.engine ≡ before ++ chain_entry lib (last_hash [] before) row ∷ []
  pub about : (row.credential ≡ fr.credential) × (row.source ≡ source) × (row.method ≡ method)
  pub reports : Reports row o

module _ (lib : Library) (w : World) (fr : FetchRequest) (source method : Bytes) where
  log-log_entry :
      (ent : AuditEntry) (e : Engine)
      → log (log_entry lib w fr ent e) ≡ log e ++ chain_entry lib (last_hash [] (log e)) ent ∷ []
  unfolding log_entry append_audit
  log-log_entry ent e = audit-save lib w.io _

  Logged-conclude_stop :
      (sent : Option Outgoing) (stop : Stop) (e : Engine)
      → (stop.decision ≡ denied) ⊎ (stop.decision ≡ blocked)
      → Logged lib fr source method (log e) (conclude_stop lib w fr source method sent stop e)
  unfolding conclude_stop
  Logged-conclude_stop sent stop e h = record {
    row = _;
    appended = log-log_entry _ e;
    about = (refl, refl, refl);
    reports = inr (stop.error, refl, h, refl, refl);
  }

  Logged-conclude_ok :
      (a : Admitted) (out : Outgoing) (r : FetchResponse) (e : Engine)
      → (a.decision ≡ allowed) ⊎ (a.decision ≡ confirmed)
      → Logged lib fr source method (log e) (conclude_ok lib w fr source method a out r e)
  unfolding conclude_ok
  Logged-conclude_ok a out r e h = record {
    row = _;
    appended = log-log_entry _ e;
    about = (refl, refl, refl);
    reports = inl (refl, h, refl);
  }

abbrev IsRefusal : Decision → Type 0
IsRefusal d = (d ≡ denied) ⊎ (d ≡ blocked)

check_state-refuses :
    (now : ℕ) (o : Option (Credential × Bool)) (stop : Stop)
    → check_state now o ≡ err stop
    → IsRefusal stop.decision
unfolding check_state
check_state-refuses now none stop h = ground arith
check_state-refuses now (some (c, on)) stop h = ground arith

check_url-refuses :
    (p : Parsers) (c : Credential) (address : Bytes) (stop : Stop)
    → check_url p c address ≡ err stop
    → IsRefusal stop.decision
unfolding check_url check_scheme check_port
check_url-refuses p c address stop h = ground arith

check_tier-refuses :
    (host : Bytes) (t : Tier) (a : Approval) (stop : Stop)
    → check_tier host t a ≡ err stop
    → IsRefusal stop.decision
unfolding check_tier
check_tier-refuses host t a stop h = ground arith

check_tier-allows :
    (host : Bytes) (t : Tier) (a : Approval) (d : Decision)
    → check_tier host t a ≡ ok d
    → (d ≡ allowed) ⊎ (d ≡ confirmed)
unfolding check_tier
check_tier-allows host t a d h = ground arith

module _ (lib : Library) (w : World) (fr : FetchRequest) where
  admit-refuses :
      (s : Store) (method : Bytes) (stop : Stop)
      → admit lib w fr s method ≡ err stop
      → IsRefusal stop.decision
  unfolding admit
  admit-refuses s method stop h =
      elim (Result-cases (check_state w.expiry_time (lookup_credential fr.credential s))) [
        | inr (x, e) ↦
            ground
              (arith, check_state-refuses w.expiry_time (lookup_credential fr.credential s) x e)
        | inl (cred, e) ↦ elim (Result-cases (check_url lib.parsers cred fr.url)) [
          | inr (x, f) ↦ ground (arith, check_url-refuses lib.parsers cred fr.url x f)
          | inl ((u, host), f) ↦
              let asked : ConfirmRequest = record {
                credential = fr.credential;
                method = method;
                host = host;
              } in
              ground (
                arith,
                check_tier-refuses host (classify_tier cred method) (w.confirm_with asked) stop,
              )
        ]
      ]

  prepare-refuses :
      (a : Admitted) (method : Bytes) (stop : Stop)
      → prepare lib w fr a method ≡ err stop
      → IsRefusal stop.decision
  unfolding prepare
  prepare-refuses a method stop h = ground arith

  receive-refuses :
      (a : Admitted) (injected : List Bytes) (answer : Option Upstream) (stop : Stop)
      → receive lib w fr a injected answer ≡ err stop
      → IsRefusal stop.decision
  unfolding receive
  receive-refuses a injected answer stop h = ground arith

module _ (lib : Library) (w : World) (fr : FetchRequest) (source method : Bytes) where
  Logged-forward :
      (a : Admitted) (p : Outgoing × List Bytes) (e : Engine)
      → (a.decision ≡ allowed) ⊎ (a.decision ≡ confirmed)
      → Logged lib fr source method (log (w.in_flight e)) (forward lib w fr source method a p e)
  unfolding forward
  Logged-forward a (out, injected) e h =
      elim (Result-cases (receive lib w fr a injected (w.round_trip out))) [
        | inl (r, f) ↦
            rw (f, forward) (Logged-conclude_ok lib w fr source method a out r (w.in_flight e) h)
        | inr (stop, f) ↦
            rw (f, forward)
              (Logged-conclude_stop lib w fr source method (some out) stop (w.in_flight e)
                (receive-refuses lib w fr a injected (w.round_trip out) stop f))
      ]

  Logged-proceed :
      (a : Admitted) (e : Engine)
      → IsQuiet w
      → (a.decision ≡ allowed) ⊎ (a.decision ≡ confirmed)
      → Logged lib fr source method (log e) (proceed lib w fr source method a e)
  unfolding proceed
  Logged-proceed a e (_, quiet) h =
      let (l, passed) = allow lib.floats fr.credential a.cred.rate_per_min w.rate_time e.limiter in
      let e' : Engine = record e { limiter = l } in
      elim (Bool-cases passed) [
        | inr f ↦ rw f (
            Logged-conclude_stop lib w fr source method none (fail a.host err_rate_limited) e'
              (inl refl))
        | inl t ↦ elim (Result-cases (prepare lib w fr a method)) [
          | inr (stop, f) ↦
              rw (t, f)
                (Logged-conclude_stop lib w fr source method none stop e'
                  (prepare-refuses lib w fr a method stop f))
          | inl (p, f) ↦
              rw (t, f)
                (subst (λ b. Logged lib fr source method b (forward lib w fr source method a p e'))
                  (quiet e') (Logged-forward a p e' h))
        ]
      ]

-- Every fetch, on every branch, appends exactly one row to the audit log, if the others that act
-- during the call leave the log alone. The row is chained to the last one; it names the credential,
-- the method and the source of the request; and it says allowed or confirmed with the upstream's
-- status if the call succeeds, and denied or blocked with the status of the error if it does not.
pub fetch-Logged :
    (lib : Library) (w : World) (fr : FetchRequest) (source : Bytes) (e : Engine)
    → IsQuiet w
    → Logged lib fr source (request_method lib.parsers fr.method) (log e) (fetch lib w fr source e)
unfolding fetch
fetch-Logged lib w fr source e quiet =
    let method = request_method lib.parsers fr.method in
    elim (Result-cases (admit lib w fr e.store method)) [
      | inr (stop, f) ↦
          rw (f, fetch)
            (subst
              (λ b.
                Logged lib fr source method b
                  (conclude_stop lib w fr source method none stop (w.meanwhile e)))
              (quiet.0 e)
              (Logged-conclude_stop lib w fr source method none stop (w.meanwhile e)
                (admit-refuses lib w fr e.store method stop f)))
      | inl (a, f) ↦
          let passed = admit_sound lib w fr e.store method a f in
          rw (f, fetch)
            (subst
              (λ b.
                Logged lib fr source method b (proceed lib w fr source method a (w.meanwhile e)))
              (quiet.0 e)
              (Logged-proceed lib w fr source method a (w.meanwhile e) quiet
                (check_tier-allows a.host a.tier _ a.decision passed.decided)))
    ]

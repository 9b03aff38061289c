-- ===== src/Fetch/Keeping.antt =====
-- What a fetch leaves alone in the store.
use joyvend_secretvault.Shared.{
  ◌≡◌, refl, ap, ◌∙◌, inl, inr, Option, List, Result-cases, Bool-cases,
}
use joyvend_secretvault.Text.{Bytes}
use joyvend_secretvault.Model.{AuditEntry, err_rate_limited}
use joyvend_secretvault.Limiter.{allow}
use joyvend_secretvault.Store.{Library, Store}
use joyvend_secretvault.Store.Audit.{append_audit}
use joyvend_secretvault.Store.Operations.{save-KeepsMemory}
use joyvend_secretvault.Fetch.{FetchRequest, FetchResponse, Outgoing, Stop, fail, request_method}
use joyvend_secretvault.Fetch.Pipeline.{
  Engine, World, Admitted, admit, prepare, receive, log_entry, conclude_stop, conclude_ok, forward,
  proceed, fetch,
}

-- What a human controls: the credentials, which of them are enabled, and the key.
pub record KeepsControl (s t : Store) : Type 0 where
  pub same_credentials : t.doc.credentials ≡ s.doc.credentials
  pub same_enabled : t.enabled ≡ s.enabled
  pub same_key : t.key ≡ s.key

pub KeepsControl-refl : (s : Store) → KeepsControl s s
KeepsControl-refl s = record { same_credentials = refl; same_enabled = refl; same_key = refl }

pub KeepsControl-trans : (s t u : Store) → KeepsControl s t → KeepsControl t u → KeepsControl s u
KeepsControl-trans s t u h k = record {
  same_credentials = k.same_credentials ∙ h.same_credentials;
  same_enabled = k.same_enabled ∙ h.same_enabled;
  same_key = k.same_key ∙ h.same_key;
}

-- Of the others' actions during the call, only those that change nothing of this.
abbrev pub IsCalm : World → Type 0
IsCalm w =
    ((e : Engine) → KeepsControl e.store (w.meanwhile e).store)
    × ((e : Engine) → KeepsControl e.store (w.in_flight e).store)

module _ (lib : Library) (w : World) (fr : FetchRequest) where
  log_entry-KeepsControl :
      (ent : AuditEntry) (e : Engine) → KeepsControl e.store (log_entry lib w fr ent e).store
  unfolding log_entry append_audit
  log_entry-KeepsControl ent e =
      let kept = save-KeepsMemory lib w.io _ in
      record {
        same_credentials = ap (λ d. d.credentials) kept.same_doc;
        same_enabled = kept.same_enabled;
        same_key = kept.same_key;
      }

  conclude_stop-KeepsControl :
      (source method : Bytes) (sent : Option Outgoing) (stop : Stop) (e : Engine)
      → KeepsControl e.store (conclude_stop lib w fr source method sent stop e).engine.store
  unfolding conclude_stop
  conclude_stop-KeepsControl source method sent stop e = log_entry-KeepsControl _ e

  conclude_ok-KeepsControl :
      (source method : Bytes) (a : Admitted) (out : Outgoing) (r : FetchResponse) (e : Engine)
      → KeepsControl e.store (conclude_ok lib w fr source method a out r e).engine.store
  unfolding conclude_ok
  conclude_ok-KeepsControl source method a out r e = log_entry-KeepsControl _ e

  module _ (calm : IsCalm w) (source method : Bytes) where
    forward-KeepsControl :
        (a : Admitted) (p : Outgoing × List Bytes) (e : Engine)
        → KeepsControl e.store (forward lib w fr source method a p e).engine.store
    unfolding forward
    forward-KeepsControl a (out, injected) e =
        KeepsControl-trans e.store (w.in_flight e).store _ (calm.1 e)
          (elim (Result-cases (receive lib w fr a injected (w.round_trip out))) [
            | inl (r, f) ↦
                rw (f, forward) (conclude_ok-KeepsControl source method a out r (w.in_flight e))
            | inr (stop, f) ↦
                rw (f, forward) (conclude_stop-KeepsControl source method _ stop (w.in_flight e))
          ])

    proceed-KeepsControl :
        (a : Admitted) (e : Engine)
        → KeepsControl e.store (proceed lib w fr source method a e).engine.store
    unfolding proceed
    proceed-KeepsControl a e =
        let (l, passed) =
          allow lib.floats fr.credential a.cred.rate_per_min w.rate_time e.limiter in
        let e' : Engine = record e { limiter = l } in
        elim (Bool-cases passed) [
          | inr f ↦
              rw f (conclude_stop-KeepsControl source method _ (fail a.host err_rate_limited) e')
          | inl t ↦ elim (Result-cases (prepare lib w fr a method)) [
            | inr (stop, f) ↦ rw (t, f) (conclude_stop-KeepsControl source method _ stop e')
            | inl (p, f) ↦ rw (t, f) (forward-KeepsControl a p e')
          ]
        ]

  -- A fetch changes no credential, enables and disables none, and leaves the key.
  pub fetch-KeepsControl :
      (source : Bytes) (e : Engine)
      → IsCalm w
      → KeepsControl e.store (fetch lib w fr source e).engine.store
  unfolding fetch
  fetch-KeepsControl source e calm =
      let method = request_method lib.parsers fr.method in
      KeepsControl-trans e.store (w.meanwhile e).store _ (calm.0 e)
        (elim (Result-cases (admit lib w fr e.store method)) [
          | inr (stop, f) ↦
              rw (f, fetch) (conclude_stop-KeepsControl source method _ stop (w.meanwhile e))
          | inl (a, f) ↦ rw (f, fetch) (proceed-KeepsControl calm source method a (w.meanwhile e))
        ])

-- ===== src/Fetch/Admission.antt =====
-- What the first five steps of a fetch have established when they let a request pass.
use joyvend_secretvault.Shared.{
  ℕ, ◌≡◌, inl, inr, Bool, true, false, Option, none, some, arith, ok, Result-cases,
}
use joyvend_secretvault.Text.{Bytes}
use joyvend_secretvault.Host.{host_allowed}
use joyvend_secretvault.Dial.{resolve_and_pin}
use joyvend_secretvault.Model.{Credential}
use joyvend_secretvault.Store.{Library, Store, lookup_credential}
use joyvend_secretvault.Fetch.{
  FetchRequest, ConfirmRequest, is_after, check_state, check_url, classify_tier, check_tier,
}
use joyvend_secretvault.Fetch.Pipeline.{World, Admitted, admit}

check_state_sound :
    (now : ℕ) (o : Option (Credential × Bool)) (c : Credential)
    → check_state now o ≡ ok c
    → (o ≡ some (c, true)) × (is_after now c.expires_at ≡ false)
unfolding check_state
check_state_sound now none c h = cc
check_state_sound now (some (d, on)) c h = ground arith

module _ (lib : Library) (w : World) (fr : FetchRequest) where
  abbrev pub confirm_request : Admitted → Bytes → ConfirmRequest
  confirm_request a method = record { credential = fr.credential; method = method; host = a.host }

  -- The tests that an admitted request has passed.
  pub record HasPassed (s : Store) (method : Bytes) (a : Admitted) : Type 0 where
    pub enabled : lookup_credential fr.credential s ≡ some (a.cred, true)
    pub not_expired : is_after w.expiry_time a.cred.expires_at ≡ false
    pub parsed : check_url lib.parsers a.cred fr.url ≡ ok (a.target, a.host)
    pub on_list : host_allowed lib.parsers a.host a.cred.allow_hosts ≡ true
    pub resolved :
        resolve_and_pin lib.parsers w.resolve w.deny_ip a.host a.cred.allow_priv ≡ ok a.pinned
    pub tiered : a.tier ≡ classify_tier a.cred method
    pub decided :
        check_tier a.host a.tier (w.confirm_with (confirm_request a method)) ≡ ok a.decision

  pub admit_sound :
      (s : Store) (method : Bytes) (a : Admitted)
      → admit lib w fr s method ≡ ok a
      → HasPassed s method a
  unfolding admit
  admit_sound s method a h =
      elim (Result-cases (check_state w.expiry_time (lookup_credential fr.credential s))) [
        | inr (stop, e) ↦ cc (rw (e, admit) at h)
        | inl (cred, e) ↦ elim (Result-cases (check_url lib.parsers cred fr.url)) [
          | inr (stop, f) ↦ cc (rw (e, f, admit) at h)
          | inl (target, f) ↦
              ground
                (arith, check_state_sound w.expiry_time (lookup_credential fr.credential s) cred e)
        ]
      ]

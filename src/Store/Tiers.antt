-- ===== src/Store/Tiers.antt =====
-- What the hash chain of internal/vault/store.go does not cover: the tiers of the rows.
use joyvend_secretvault.Shared.{ℕ, ◌+◌, ◌≡◌, refl, List, [], ◌∷◌, map}
use joyvend_secretvault.Text.{Bytes}
use joyvend_secretvault.Model.{AuditEntry, Tier}
use joyvend_secretvault.Store.{Library, Store}
use joyvend_secretvault.Store.Audit.{audit_hash, verify_from, verify_audit}

abbrev pub with_tier : Tier → AuditEntry → AuditEntry
with_tier t e = record e { tier = t }

module _ (lib : Library) where
  audit_hash-with_tier :
      (prev : Bytes) (t : Tier) (e : AuditEntry)
      → audit_hash lib prev (with_tier t e) ≡ audit_hash lib prev e
  unfolding audit_hash
  audit_hash-with_tier prev t e = refl

  verify_from-with_tier :
      (f : AuditEntry → Tier) (prev : Bytes) (i : ℕ) (l : List AuditEntry)
      → verify_from lib prev i (map (λ e. with_tier (f e) e) l) ≡ verify_from lib prev i l
  unfolding verify_from
  verify_from-with_tier f prev i [] = refl
  verify_from-with_tier f prev i (e ∷ l) =
      rw (audit_hash-with_tier prev (f e) e, verify_from-with_tier f e.hash (i + 1) l) refl

  -- Whatever tiers are written into the rows of a log, the verification answers as before.
  pub verify_audit-with_tier :
      (f : AuditEntry → Tier) (s : Store)
      → verify_audit lib
          (record s { doc = record s.doc { audit = map (λ e. with_tier (f e) e) s.doc.audit } })
        ≡ verify_audit lib s
  unfolding verify_audit
  verify_audit-with_tier f s = verify_from-with_tier f [] 0 s.doc.audit

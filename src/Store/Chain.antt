-- ===== src/Store/Chain.antt =====
-- The hash chain of the audit log: every operation keeps it whole, and clearing makes it anew.
use joyvend_secretvault.Shared.{
  ℕ, ◌+◌, ◌≡◌, refl, ◌∙◌, ◌++◌, none, List, [], ◌∷◌, map, arith, ltb, Bool-cases, inl, inr,
  if◌then◌else◌, length,
}
use joyvend_secretvault.Text.{Bytes, bytes_eq_refl}
use joyvend_secretvault.Model.{AuditEntry}
use joyvend_secretvault.Store.{Library, Store, Io, with_audit}
use joyvend_secretvault.Store.Audit.{
  last_hash, audit_hash, chain_entry, verify_from, verify_audit, clear_from, clear_audit_before,
}
use joyvend_secretvault.Store.Operations.{
  Op, append_op, clear_op, run_op, run_ops, log_after, audit-run_op, audit-save,
}

module _ (lib : Library) where
  -- The hash does not cover the two hashes of the entry.
  audit_hash-chain_entry :
      (prev p : Bytes) (e : AuditEntry)
      → audit_hash lib prev (chain_entry lib p e) ≡ audit_hash lib prev e
  unfolding audit_hash chain_entry
  audit_hash-chain_entry prev p e = refl

  audit_hash-linked :
      (prev p : Bytes) (e : AuditEntry)
      → audit_hash lib prev (record e { prev_hash = p }) ≡ audit_hash lib prev e
  unfolding audit_hash
  audit_hash-linked prev p e = refl

  verify_from-chain_entry :
      (prev : Bytes) (i : ℕ) (e : AuditEntry) (l : List AuditEntry)
      → verify_from lib prev i (chain_entry lib prev e ∷ l)
        ≡ verify_from lib (audit_hash lib prev e) (i + 1) l
  unfolding verify_from
  verify_from-chain_entry prev i e l = rw (audit_hash-chain_entry prev prev e) (
      unfold chain_entry in
      rw (audit_hash-linked prev prev e, bytes_eq_refl prev, bytes_eq_refl (audit_hash lib prev e)))

  pub verify_from-append :
      (prev : Bytes) (i : ℕ) (l : List AuditEntry) (e : AuditEntry)
      → verify_from lib prev i l ≡ none
      → verify_from lib prev i (l ++ chain_entry lib (last_hash prev l) e ∷ []) ≡ none
  unfolding verify_from
  verify_from-append prev i [] e h = verify_from-chain_entry prev i e []
  verify_from-append prev i (x ∷ l) e h = ground (arith, verify_from-append x.hash (i + 1) l e)

  pub verify_from-clear_from :
      (cutoff : ℕ) (prev : Bytes) (i : ℕ) (l : List AuditEntry)
      → verify_from lib prev i (clear_from lib cutoff prev l).0 ≡ none
  unfolding clear_from audit_hash
  verify_from-clear_from cutoff prev i [] = unfold verify_from in refl
  verify_from-clear_from cutoff prev i (e ∷ l) = elim (Bool-cases (ltb e.time cutoff)) [
    | inl old ↦ rw old (verify_from-clear_from cutoff prev i l)
    | inr new ↦ rw new (
        verify_from-chain_entry prev i e _
        ∙ verify_from-clear_from cutoff (audit_hash lib prev e) (i + 1) l)
  ]

  verify_from-log_after :
      (op : Op) (s : Store)
      → verify_from lib [] 0 s.doc.audit ≡ none
      → verify_from lib [] 0 (log_after lib op s) ≡ none
  verify_from-log_after (append_op io e) s h = verify_from-append [] 0 s.doc.audit e h
  verify_from-log_after (clear_op io cutoff) s h = verify_from-clear_from cutoff [] 0 s.doc.audit
  verify_from-log_after _ s h = h

  verify_audit-run_op :
      (op : Op) (s : Store)
      → verify_audit lib s ≡ none
      → verify_audit lib (run_op lib op s).0 ≡ none
  unfolding verify_audit
  verify_audit-run_op op s h = rw (audit-run_op lib op s) (verify_from-log_after op s h)

  -- A log that verifies still does after any sequence of operations, failed ones included.
  pub verify_audit-run_ops :
      (ops : List Op) (s : Store)
      → verify_audit lib s ≡ none
      → verify_audit lib (run_ops lib ops s) ≡ none
  unfolding run_ops
  verify_audit-run_ops [] s h = h
  verify_audit-run_ops (op ∷ ops) s h =
      verify_audit-run_ops ops (run_op lib op s).0 (verify_audit-run_op op s h)

-- The entry without its two hashes.
abbrev pub unlinked : AuditEntry → AuditEntry
unlinked e = record e { prev_hash = []; hash = [] }

-- The entries that are not older than the cutoff.
abbrev pub recent : ℕ → List AuditEntry → List AuditEntry
recent cutoff [] = []
recent cutoff (e ∷ l) = let rest = recent cutoff l in if ltb e.time cutoff then rest else e ∷ rest

clear_from-recent :
    (lib : Library) (cutoff : ℕ) (prev : Bytes) (l : List AuditEntry)
    → map unlinked (clear_from lib cutoff prev l).0 ≡ map unlinked (recent cutoff l)
unfolding clear_from chain_entry
clear_from-recent lib cutoff prev [] = refl
clear_from-recent lib cutoff prev (e ∷ l) = ground (
  arith,
  clear_from-recent lib cutoff prev l,
  clear_from-recent lib cutoff (audit_hash lib prev (record e { prev_hash = prev })) l,
)

clear_from-count :
    (lib : Library) (cutoff : ℕ) (prev : Bytes) (l : List AuditEntry)
    → length (clear_from lib cutoff prev l).0 + (clear_from lib cutoff prev l).1 ≡ length l
unfolding clear_from
clear_from-count lib cutoff prev [] = refl
clear_from-count lib cutoff prev (e ∷ l) = ground (
  arith,
  clear_from-count lib cutoff prev l,
  clear_from-count lib cutoff (audit_hash lib prev (record e { prev_hash = prev })) l,
)

-- Clearing keeps exactly the entries that are not older than the cutoff, in their order and with
-- all their fields but the hashes; it counts the others; and the log that it leaves verifies,
-- whether or not the old one did.
pub clear_audit_before_lem :
    (lib : Library) (io : Io) (cutoff : ℕ) (s : Store)
    → let (s', dropped, e) = clear_audit_before lib io cutoff s in
      (map unlinked s'.doc.audit ≡ map unlinked (recent cutoff s.doc.audit))
      × (length s'.doc.audit + dropped ≡ length s.doc.audit)
      × (verify_audit lib s' ≡ none)
unfolding clear_audit_before verify_audit
clear_audit_before_lem lib io cutoff s =
    let same = audit-save lib io (with_audit (clear_from lib cutoff [] s.doc.audit).0 s) in
    (
      rw same (clear_from-recent lib cutoff [] s.doc.audit),
      rw same (clear_from-count lib cutoff [] s.doc.audit),
      rw same (verify_from-clear_from lib cutoff [] 0 s.doc.audit),
    )

-- ===== src/Store/Audit.antt =====
-- The audit log of internal/vault/store.go: appending, verifying and clearing.
use joyvend_secretvault.Shared.{
  ℕ, suc, ◌+◌, not, ◌++◌, Option, none, some, List, [], ◌∷◌, ltb, if◌then◌else◌,
}
use joyvend_secretvault.Text.{Bytes, text, bytes_eq}
use joyvend_secretvault.Model.{Decision, allowed, denied, blocked, confirmed, AuditEntry}
use joyvend_secretvault.Codec.{encode_hex}
use joyvend_secretvault.Store.{Library, Store, StoreError, Io, with_audit, save}

unfoldable pub decision_text : Decision → Bytes
decision_text allowed = text "allowed"
decision_text denied = text "denied"
decision_text blocked = text "blocked"
decision_text confirmed = text "confirmed"

-- Where a log breaks: the row, and which of the two tests fails there.
pub data AuditBreak : Type 0 where
  prev_hash_break row_hash_mismatch : ℕ → AuditBreak

-- Fields behind a zero byte each, as the format string joins them.
unfoldable pub join_fields : List Bytes → Bytes
join_fields [] = []
join_fields (f ∷ fs) = 0 ∷ (f ++ join_fields fs)

abbrev pub last_hash : Bytes → List AuditEntry → Bytes
last_hash prev [] = prev
last_hash prev (e ∷ l) = last_hash e.hash l

-- Audit: a copy of the log.
abbrev pub audit_log : Store → List AuditEntry
audit_log s = s.doc.audit

module _ (lib : Library) where
  -- The fields that the hash covers, in the order of the format string.
  unfoldable pub hashed_fields : AuditEntry → List Bytes
  hashed_fields e =
      lib.format_time e.time
      ∷ e.credential
      ∷ e.method
      ∷ e.host
      ∷ decision_text e.decision
      ∷ lib.show_int e.status
      ∷ lib.show_int e.bytes
      ∷ e.source
      ∷ lib.show_int e.latency_ms
      ∷ []

  unfoldable pub audit_hash : Bytes → AuditEntry → Bytes
  unfolding join_fields hashed_fields decision_text
  audit_hash prev e = encode_hex (lib.sha256 (prev ++ join_fields (hashed_fields e)))

  -- The entry with its two hashes, behind a row of hash `prev`.
  unfoldable pub chain_entry : Bytes → AuditEntry → AuditEntry
  chain_entry prev e =
      let linked : AuditEntry = record e { prev_hash = prev } in
      record linked { hash = audit_hash prev linked }

  unfoldable pub append_audit : Io → AuditEntry → Store → Store × Option StoreError
  unfolding chain_entry
  append_audit io e s =
      save lib io (with_audit (s.doc.audit ++ chain_entry (last_hash [] s.doc.audit) e ∷ []) s)

  -- The loop of `VerifyAudit` from row i, where `prev` is the hash of the row before.
  unfoldable pub verify_from : Bytes → ℕ → List AuditEntry → Option AuditBreak
  unfolding bytes_eq
  verify_from prev i [] = none
  verify_from prev i (e ∷ l) =
      let rest = verify_from e.hash (i + 1) l in
      if not (bytes_eq e.prev_hash prev)
      then some (prev_hash_break i)
      else if not (bytes_eq e.hash (audit_hash prev e))
      then some (row_hash_mismatch i)
      else rest

  unfoldable pub verify_audit : Store → Option AuditBreak
  unfolding verify_from
  verify_audit s = verify_from [] 0 s.doc.audit

  -- The loop of `ClearAuditBefore`: the entries that are kept, chained anew, and how many are not.
  unfoldable pub clear_from : ℕ → Bytes → List AuditEntry → List AuditEntry × ℕ
  unfolding chain_entry
  clear_from cutoff prev [] = ([], 0)
  clear_from cutoff prev (e ∷ l) =
      let dropped = clear_from cutoff prev l in
      let linked = chain_entry prev e in
      let kept = clear_from cutoff (audit_hash prev (record e { prev_hash = prev })) l in
      if ltb e.time cutoff then (dropped.0, suc (dropped.1)) else (linked ∷ kept.0, kept.1)

  unfoldable pub clear_audit_before : Io → ℕ → Store → Store × ℕ × Option StoreError
  unfolding clear_from
  clear_audit_before io cutoff s =
      let (kept, dropped) = clear_from cutoff [] s.doc.audit in
      let (s', e) = save lib io (with_audit kept s) in (s', dropped, e)

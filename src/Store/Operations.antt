-- ===== src/Store/Operations.antt =====
-- The operations of internal/vault/store.go that change a store, as data, and what each of them
-- leaves alone.
use joyvend_secretvault.Shared.{
  ℕ, ◌≡◌, refl, ap, ◌++◌, Bool, inl, inr, Option, some, List, [], ◌∷◌, arith, Bool-cases, Result,
  ok, err,
}
use joyvend_secretvault.Text.{Bytes}
use joyvend_secretvault.Model.{Credential, AuditEntry}
use joyvend_secretvault.Validate.{ValidationError, validate_credential, matches_name}
use joyvend_secretvault.Store.{
  Library, Store, StoreError, Io, save, put, put_valid, without_credential, delete, enable,
}
use joyvend_secretvault.Store.Audit.{
  append_audit, clear_audit_before, chain_entry, last_hash, clear_from,
}
use joyvend_secretvault.Store.Lifecycle.{close}

pub data Op : Type 0 where
  put_op : Io → ℕ → Bytes → Option Credential → Op
  delete_op : Io → Bytes → Op
  enable_op : Bytes → Bool → Op
  append_op : Io → AuditEntry → Op
  clear_op : Io → ℕ → Op
  close_op : Io → Op

module _ (lib : Library) where
  unfoldable pub run_op : Op → Store → Store × Option StoreError
  run_op (put_op io now name c) s = put lib io now name c s
  run_op (delete_op io name) s = delete lib io name s
  run_op (enable_op name on) s = enable name on s
  run_op (append_op io e) s = append_audit lib io e s
  run_op (clear_op io cutoff) s =
      let (s', dropped, e) = clear_audit_before lib io cutoff s in (s', e)
  run_op (close_op io) s = close lib io s

  -- The store after a sequence of operations; an operation that fails is one of them.
  unfoldable pub run_ops : List Op → Store → Store
  unfolding run_op
  run_ops [] s = s
  run_ops (op ∷ ops) s = run_ops ops (run_op op s).0

-- A save changes nothing in memory.
pub record KeepsMemory (s t : Store) : Type 0 where
  pub same_doc : t.doc ≡ s.doc
  pub same_enabled : t.enabled ≡ s.enabled
  pub same_key : t.key ≡ s.key

pub save-KeepsMemory : (lib : Library) (io : Io) (s : Store) → KeepsMemory s (save lib io s).0
unfolding save
save-KeepsMemory lib io s = ground arith

-- A save that reports an error has left the file as it was.
pub save_failed :
    (lib : Library) (io : Io) (s : Store) (e : StoreError)
    → (save lib io s).1 ≡ some e
    → (save lib io s).0.disk ≡ s.disk
unfolding save
save_failed lib io s e h = ground arith

-- What one operation does to the audit log: nothing, or it appends or clears.
abbrev pub log_after : Library → Op → Store → List AuditEntry
log_after lib (append_op io e) s = s.doc.audit ++ chain_entry lib (last_hash [] s.doc.audit) e ∷ []
log_after lib (clear_op io cutoff) s = (clear_from lib cutoff [] s.doc.audit).0
log_after lib _ s = s.doc.audit

pub audit-save : (lib : Library) (io : Io) (s : Store) → (save lib io s).0.doc.audit ≡ s.doc.audit
audit-save lib io s = ap (λ d. d.audit) ((save-KeepsMemory lib io s).same_doc)

audit-put_valid :
    (lib : Library) (io : Io) (now : ℕ) (name : Bytes) (r : Result ValidationError Credential)
    (s : Store)
    → (put_valid lib io now name r s).0.doc.audit ≡ s.doc.audit
unfolding put_valid
audit-put_valid lib io now name (err e) s = refl
audit-put_valid lib io now name (ok c) s = audit-save lib io _

audit-put :
    (lib : Library) (io : Io) (now : ℕ) (name : Bytes) (c : Option Credential) (s : Store)
    → (put lib io now name c s).0.doc.audit ≡ s.doc.audit
unfolding put
audit-put lib io now name c s = elim (Bool-cases (matches_name name)) [
  | inl t ↦ rw t (audit-put_valid lib io now name (validate_credential lib.parsers c) s)
  | inr f ↦ rw f refl
]

audit-delete :
    (lib : Library) (io : Io) (name : Bytes) (s : Store)
    → (delete lib io name s).0.doc.audit ≡ s.doc.audit
unfolding delete
audit-delete lib io name s = ground (arith, audit-save lib io (without_credential name s))

audit-close : (lib : Library) (io : Io) (s : Store) → (close lib io s).0.doc.audit ≡ s.doc.audit
unfolding close
audit-close lib io s = ground (arith, audit-save lib io s)

-- Each operation leaves the log as it was, but for appending and clearing.
pub audit-run_op :
    (lib : Library) (op : Op) (s : Store) → (run_op lib op s).0.doc.audit ≡ log_after lib op s
unfolding run_op
audit-run_op lib (put_op io now name c) s = audit-put lib io now name c s
audit-run_op lib (delete_op io name) s = audit-delete lib io name s
audit-run_op lib (enable_op name on) s = unfold enable in ground arith
audit-run_op lib (append_op io e) s = unfold append_audit in audit-save lib io _
audit-run_op lib (clear_op io cutoff) s = unfold clear_audit_before in audit-save lib io _
audit-run_op lib (close_op io) s = audit-close lib io s

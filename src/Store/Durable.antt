-- ===== src/Store/Durable.antt =====
-- What a successful operation of internal/vault/store.go has written can be opened again, and a
-- failed one has written nothing.
use joyvend_secretvault.Shared.{
  ℕ, ◌≡◌, refl, ◌∙◌, true, Option, none, some, arith, ◌==◌, Bool-cases, Option-cases, inl, inr,
  length, ok, Result-cases,
}
use joyvend_secretvault.Text.{Bytes}
use joyvend_secretvault.Model.{AuditEntry, Credential, VaultDoc, current_version}
use joyvend_secretvault.Secret.{Keyring}
use joyvend_secretvault.Secret.Sealing.{IsAead, Wraps, open_file-seal}
use joyvend_secretvault.Validate.{validate_credential, matches_name}
use joyvend_secretvault.Store.{
  Library, Store, StoreError, Io, save, put, put_valid, delete, enable, stamp, with_credentials,
  without_credential, with_audit,
}
use joyvend_secretvault.Maps.{lookup, insert}
use joyvend_secretvault.Store.Audit.{append_audit, clear_audit_before}
use joyvend_secretvault.Store.Lifecycle.{fresh_store, open_store, close}
use joyvend_secretvault.Store.Operations.{
  Op, put_op, delete_op, enable_op, append_op, clear_op, close_op, run_op, save-KeepsMemory,
  save_failed, log_after,
}

-- The same document, but for the order of the entries of its map, which Go does not fix.
pub record SameDoc (d e : VaultDoc) : Type 0 where
  pub same_version : e.version ≡ d.version
  pub same_salt : e.fp_salt ≡ d.fp_salt
  pub same_credentials : (name : Bytes) → lookup name e.credentials ≡ lookup name d.credentials
  pub same_grants : e.grants ≡ d.grants
  pub same_audit : e.audit ≡ d.audit

-- encoding/json reads the text of this one document back, as the same document. (It does where the
-- strings are valid UTF-8.)
abbrev pub IsReadBack : Library → VaultDoc → Type 0
IsReadBack lib d =
    (b : Bytes) → lib.marshal d ≡ some b → (e : VaultDoc) × (lib.unmarshal b ≡ some e) × SameDoc d e

module _ (lib : Library) (laws : IsAead lib.primitives) where
  -- A save that reports no error has written a file that the password opens, to the document that
  -- was saved, with no credential enabled.
  open_store-save :
      (io : Io) (s : Store) (k : Keyring) (password nonce : Bytes)
      → IsReadBack lib s.doc
      → s.key ≡ some k
      → Wraps lib.primitives password k
      → s.doc.version ≡ current_version
      → io.nonce ≡ some nonce
      → length nonce ≡ 12
      → (save lib io s).1 ≡ none
      → (e : VaultDoc) × SameDoc s.doc e
        × (open_store lib (save lib io s).0.disk password
            ≡ ok (fresh_store k e (save lib io s).0.disk))
  unfolding save open_store
  open_store-save io s k password nonce json has_key w version drawn n saved =
      elim (Option-cases (lib.marshal s.doc)) [
        | inl f ↦ absurd (ground arith)
        | inr (pt, f) ↦
            let (file, sealed, opened) =
              open_file-seal lib.primitives laws password k nonce pt w n in
            let (e, read, same) = json pt f in
            let there : (save lib io s).0.disk ≡ some file = ground arith in
            let current : (e.version == current_version) ≡ true =
              rw (same.same_version ∙ version) refl in
            (e, same, rw there (rw opened (rw read (rw current refl))))
      ]

-- The file access of an operation that saves.
abbrev pub io_of : Op → Option Io
io_of (put_op io now name c) = some io
io_of (delete_op io name) = some io
io_of (enable_op name on) = none
io_of (append_op io e) = some io
io_of (clear_op io cutoff) = some io
io_of (close_op io) = some io

-- The operation ended in a save, of a store with the same key and version.
record Saves (lib : Library) (op : Op) (io : Io) (s : Store) : Type 0 where
  before : Store
  same_key : before.key ≡ s.key
  same_version : before.doc.version ≡ s.doc.version
  doc_after : (run_op lib op s).0.doc ≡ before.doc
  disk_after : (run_op lib op s).0.disk ≡ (save lib io before).0.disk
  saved : (save lib io before).1 ≡ (run_op lib op s).1

module _ (lib : Library) where
  put_Saves :
      (io : Io) (now : ℕ) (name : Bytes) (c : Option Credential) (s : Store)
      → (run_op lib (put_op io now name c) s).1 ≡ none
      → Saves lib (put_op io now name c) io s
  unfolding run_op put put_valid
  put_Saves io now name c s done = elim (Bool-cases (matches_name name)) [
    | inr f ↦ absurd (ground arith)
    | inl t ↦ elim (Result-cases (validate_credential lib.parsers c)) [
      | inr (e, bad) ↦ absurd (ground arith)
      | inl (d, good) ↦
          let m = with_credentials (insert name (stamp lib now d) s.doc.credentials) s in
          record {
            before = m;
            same_key = refl;
            same_version = refl;
            doc_after = ground (arith, save-KeepsMemory lib io m);
            disk_after = ground arith;
            saved = ground arith;
          }
    ]
  ]

  delete_Saves :
      (io : Io) (name : Bytes) (s : Store)
      → (run_op lib (delete_op io name) s).1 ≡ none
      → Saves lib (delete_op io name) io s
  unfolding run_op delete
  delete_Saves io name s done =
      let t = without_credential name s in
      record {
        before = t;
        same_key = refl;
        same_version = refl;
        doc_after = ground (arith, save-KeepsMemory lib io t);
        disk_after = ground arith;
        saved = ground arith;
      }

  append_Saves : (io : Io) (e : AuditEntry) (s : Store) → Saves lib (append_op io e) io s
  unfolding run_op append_audit
  append_Saves io e s =
      let t = with_audit (log_after lib (append_op io e) s) s in
      record {
        before = t;
        same_key = refl;
        same_version = refl;
        doc_after = (save-KeepsMemory lib io t).same_doc;
        disk_after = refl;
        saved = refl;
      }

  clear_Saves : (io : Io) (cutoff : ℕ) (s : Store) → Saves lib (clear_op io cutoff) io s
  unfolding run_op clear_audit_before
  clear_Saves io cutoff s =
      let t = with_audit (log_after lib (clear_op io cutoff) s) s in
      record {
        before = t;
        same_key = refl;
        same_version = refl;
        doc_after = (save-KeepsMemory lib io t).same_doc;
        disk_after = refl;
        saved = refl;
      }

  close_Saves : (io : Io) (s : Store) (k : Keyring) → s.key ≡ some k → Saves lib (close_op io) io s
  unfolding run_op close
  close_Saves io s k has_key = record {
    before = s;
    same_key = refl;
    same_version = refl;
    doc_after = ground (arith, save-KeepsMemory lib io s);
    disk_after = ground arith;
    saved = ground arith;
  }

  run_op-Saves :
      (op : Op) (io : Io) (s : Store) (k : Keyring)
      → io_of op ≡ some io
      → s.key ≡ some k
      → (run_op lib op s).1 ≡ none
      → Saves lib op io s
  run_op-Saves (put_op jo now name c) io s k same has_key done =
      let e : jo ≡ io = cc in rw (← e) (put_Saves jo now name c s done)
  run_op-Saves (delete_op jo name) io s k same has_key done =
      let e : jo ≡ io = cc in rw (← e) (delete_Saves jo name s done)
  run_op-Saves (enable_op name on) io s k same has_key done = cc
  run_op-Saves (append_op jo x) io s k same has_key done =
      let e : jo ≡ io = cc in rw (← e) (append_Saves jo x s)
  run_op-Saves (clear_op jo cutoff) io s k same has_key done =
      let e : jo ≡ io = cc in rw (← e) (clear_Saves jo cutoff s)
  run_op-Saves (close_op jo) io s k same has_key done =
      let e : jo ≡ io = cc in rw (← e) (close_Saves jo s k has_key)

-- Every operation that writes and reports no error, on an open store whose keyring wraps its key
-- under the password, leaves a file that this password opens: to the document as it is in memory, up
-- to the order of its map, with no credential enabled; if encoding/json reads that document back.
pub open_store-run_op :
    (lib : Library) (op : Op) (io : Io) (s : Store) (k : Keyring) (password nonce : Bytes)
    → IsAead lib.primitives
    → IsReadBack lib (run_op lib op s).0.doc
    → io_of op ≡ some io
    → io.nonce ≡ some nonce
    → length nonce ≡ 12
    → s.key ≡ some k
    → Wraps lib.primitives password k
    → s.doc.version ≡ current_version
    → (run_op lib op s).1 ≡ none
    → (e : VaultDoc) × SameDoc (run_op lib op s).0.doc e
      × (open_store lib (run_op lib op s).0.disk password
          ≡ ok (fresh_store k e (run_op lib op s).0.disk))
open_store-run_op lib op io s k password nonce laws json same drawn n has_key w version done =
    let v = run_op-Saves lib op io s k same has_key done in
    rw (v.doc_after, v.disk_after)
      (open_store-save lib laws io v.before k password nonce (rw v.doc_after at json)
        (v.same_key ∙ has_key) w (v.same_version ∙ version) drawn n (v.saved ∙ done))

-- An operation that reports an error leaves the file as it was.
pub run_op_failed :
    (lib : Library) (op : Op) (s : Store) (e : StoreError)
    → (run_op lib op s).1 ≡ some e
    → (run_op lib op s).0.disk ≡ s.disk
unfolding run_op
run_op_failed lib (put_op io now name c) s e h =
    unfold put put_valid in
    elim (Result-cases (validate_credential lib.parsers c)) [
      | inr (why, bad) ↦ ground arith
      | inl (d, good) ↦ ground (
        arith,
        save_failed lib io (with_credentials (insert name (stamp lib now d) s.doc.credentials) s) e,
      )
    ]
run_op_failed lib (delete_op io name) s e h =
    unfold delete in ground (arith, save_failed lib io (without_credential name s) e)
run_op_failed lib (enable_op name on) s e h = unfold enable in ground arith
run_op_failed lib (append_op io x) s e h = unfold append_audit in save_failed lib io _ e h
run_op_failed lib (clear_op io cutoff) s e h = unfold clear_audit_before in save_failed lib io _ e h
run_op_failed lib (close_op io) s e h = unfold close in ground (arith, save_failed lib io s e)

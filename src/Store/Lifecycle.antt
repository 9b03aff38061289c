-- ===== src/Store/Lifecycle.antt =====
-- The life of a vault in internal/vault/store.go: creating, opening and closing it, with a password
-- or with the key that the suite injects.
use joyvend_secretvault.Shared.{
  Option, none, some, [], ◌==◌, is_some, Result, ok, err, ◌>>=◌, ◌>>◌, guard, from_option, map_err,
  not,
}
use joyvend_secretvault.Text.{Bytes}
use joyvend_secretvault.Model.{VaultDoc, current_version}
use joyvend_secretvault.Secret.{
  Keyring, Randoms, create, open_file, from_dek, open_sealed, zero_key,
}
use joyvend_secretvault.Store.{
  Library, Store, StoreError, Io, already_exists, read_failed, no_salt, corrupt_document,
  unsupported_version, sealing, marshal_failed, save, write_file,
}

abbrev pub first_doc : Bytes → VaultDoc
first_doc salt = record {
  version = current_version;
  fp_salt = salt;
  credentials = [];
  grants = [];
  audit = [];
}

-- A store whose credentials are all disabled for the session.
abbrev pub fresh_store : Keyring → VaultDoc → Option Bytes → Store
fresh_store k doc disk = record { key = some k; doc = doc; enabled = []; disk = disk }

-- `if err != nil { return nil, err }` behind a write.
abbrev pub written : Store × Option StoreError → Result StoreError Store
written (s, none) = ok s
written (s, some e) = err e

module _ (lib : Library) where
  -- Create, where the path holds `disk`, with the salt and what the creation of the file draws.
  unfoldable pub create_store :
      Io → Option Bytes → Randoms → Option Bytes → Bytes → Result StoreError Store
  create_store io random_salt r disk password = do
    guard (not (is_some disk)) already_exists
    salt ← from_option random_salt no_salt
    pt ← from_option (lib.marshal (first_doc salt)) marshal_failed
    made ← map_err sealing (create lib.primitives r password pt)
    written (write_file io (made.1) (fresh_store (made.0) (first_doc salt) disk))

  -- What `Open` and `OpenWithDEK` do with a decrypted text.
  unfoldable pub load : Bytes → Keyring × Bytes → Result StoreError Store
  load file opened = do
    doc ← from_option (lib.unmarshal opened.1) corrupt_document
    guard (doc.version == current_version) (unsupported_version doc.version)
    ok (fresh_store opened.0 doc (some file))

  unfoldable pub open_store : Option Bytes → Bytes → Result StoreError Store
  unfolding load
  open_store disk password = do
    file ← from_option disk read_failed
    opened ← map_err sealing (open_file lib.primitives password file)
    load file opened

  unfoldable pub create_with_dek :
      Io → Option Bytes → Option Bytes → Bytes → Result StoreError Store
  create_with_dek io random_salt disk dek = do
    guard (not (is_some disk)) already_exists
    salt ← from_option random_salt no_salt
    k ← map_err sealing (from_dek dek)
    written (save lib io (fresh_store k (first_doc salt) disk))

  unfoldable pub open_with_dek : Option Bytes → Bytes → Result StoreError Store
  unfolding load
  open_with_dek disk dek = do
    file ← from_option disk read_failed
    opened ← map_err sealing (open_sealed lib.primitives dek file)
    load file opened

  -- `s.key.Zero()` and `s.key = nil`: the key that is let go holds only zeros.
  abbrev pub drop_key : Keyring → Option Keyring
  drop_key wiped = none

  -- Close: a closed store stays as it is.
  unfoldable pub close : Io → Store → Store × Option StoreError
  close io s = elim (s.key) [
    | none ↦ (s, none)
    | some k ↦ let (s', e) = save lib io s in (record s' { key = drop_key (zero_key k) }, e)
  ]

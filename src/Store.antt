-- ===== src/Store.antt =====
-- internal/vault/store.go: the vault in memory, its operations, its audit log, and the sealed file.
-- A method of *Store takes the store and returns the new one; every method runs under the mutex, so
-- it is one step. `disk` is the file at the store's path, `none` where there is none.
pub mod Audit
pub mod Operations
pub mod Lifecycle
pub mod Chain
pub mod Tamper
pub mod Tiers
pub mod Closing
pub mod Refinement
pub mod Durable
pub mod Writing
pub mod Sessions
use joyvend_secretvault.Shared.{
  ℕ, Bool, true, false, ◌++◌, Option, none, some, List, [], ◌∷◌, ◌==◌, if◌then◌else◌, Result, ok,
  err, take, is_some, not,
}
use joyvend_secretvault.Text.{Bytes, bytes_eq}
use joyvend_secretvault.Maps.{Map, lookup, insert, erase}
use joyvend_secretvault.Net.{Parsers}
use joyvend_secretvault.Limiter.{Floats}
use joyvend_secretvault.Model.{Credential, CredentialMeta, VaultDoc, AuditEntry}
use joyvend_secretvault.Secret.{Primitives, Keyring, SecretError, seal}
use joyvend_secretvault.Codec.{encode_hex}
use joyvend_secretvault.Validate.{ValidationError, matches_name, validate_credential}

-- What the store calls that is not code of the repository: the JSON of a document, SHA-256, the
-- formats %d and RFC3339Nano, the cryptography of the sealed file, and float64.
pub record Library : Type 0 where
  pub parsers : Parsers
  pub primitives : Primitives
  pub floats : Floats
  pub marshal : VaultDoc → Option Bytes
  pub unmarshal : Bytes → Option VaultDoc
  pub sha256 : Bytes → Bytes
  pub show_int : ℕ → Bytes
  pub format_time : ℕ → Bytes

pub data StoreError : Type 0 where
  locked marshal_failed write_failed not_found invalid_name already_exists read_failed : StoreError
  no_salt corrupt_document : StoreError
  unsupported_version : ℕ → StoreError
  sealing : SecretError → StoreError
  invalid_credential : ValidationError → StoreError

pub record Store : Type 0 where
  pub key : Option Keyring
  pub doc : VaultDoc
  pub enabled : Map Bool
  pub disk : Option Bytes

-- What one save meets: the nonce that the random source gives, and how the system calls of `writeFile`
-- end. A `Write` that fails has written some of the bytes.
pub record Io : Type 0 where
  pub nonce : Option Bytes
  pub created : Bool
  pub write_stops : Option ℕ
  pub synced : Bool
  pub closed : Bool
  pub renamed : Bool

-- The file at the store's path, and the temporary file beside it.
pub record Files : Type 0 where
  pub path : Option Bytes
  pub temp : Option Bytes

-- The calls that change a file: CreateTemp, Write, Rename, and the deferred Remove of the temporary
-- name.
pub data FileStep : Type 0 where
  create_temp rename_temp remove_temp : FileStep
  write_temp : Bytes → FileStep

abbrev pub file_step : FileStep → Files → Files
file_step create_temp fs = record fs { temp = some [] }
file_step (write_temp b) fs = record fs { temp = some b }
file_step rename_temp fs = record { path = fs.temp; temp = none }
file_step remove_temp fs = record fs { temp = none }

unfoldable pub file_steps : List FileStep → Files → Files
file_steps [] fs = fs
file_steps (x ∷ steps) fs = file_steps steps (file_step x fs)

-- The calls that `writeFile` makes, and whether it succeeds.
unfoldable pub write_steps : Io → Bytes → List FileStep × Bool
write_steps io file = if not io.created then ([], false) else elim (io.write_stops) [
  | some n ↦ (create_temp ∷ write_temp (take n file) ∷ remove_temp ∷ [], false)
  | none ↦
      if not io.synced
      then (create_temp ∷ write_temp file ∷ remove_temp ∷ [], false)
      else if not io.closed
      then (create_temp ∷ write_temp file ∷ remove_temp ∷ [], false)
      else if not io.renamed
      then (create_temp ∷ write_temp file ∷ remove_temp ∷ [], false)
      else (create_temp ∷ write_temp file ∷ rename_temp ∷ remove_temp ∷ [], true)
]

abbrev pub with_credentials : Map Credential → Store → Store
with_credentials m s = record s { doc = record s.doc { credentials = m } }

abbrev pub with_audit : List AuditEntry → Store → Store
with_audit l s = record s { doc = record s.doc { audit = l } }

abbrev pub without_credential : Bytes → Store → Store
without_credential name s = record (with_credentials (erase name s.doc.credentials) s) {
  enabled = erase name s.enabled;
}

unfoldable pub write_file : Io → Bytes → Store → Store × Option StoreError
unfolding file_steps write_steps
write_file io file s =
    let (steps, done) = write_steps io file in
    let after = file_steps steps (record { path = s.disk; temp = none }) in
    (record s { disk = after.path }, if done then none else some write_failed)

abbrev pub or_else_write : Io → Result SecretError Bytes → Store → Store × Option StoreError
or_else_write io (ok file) s = write_file io file s
or_else_write io (err e) s = (s, some (sealing e))

module _ (lib : Library) where
  unfoldable pub save_with : Io → Keyring → Store → Store × Option StoreError
  unfolding write_file
  save_with io k s = elim (lib.marshal s.doc) [
    | none ↦ (s, some marshal_failed)
    | some pt ↦ or_else_write io (seal lib.primitives k io.nonce pt) s
  ]

  unfoldable pub save : Io → Store → Store × Option StoreError
  unfolding save_with
  save io s = elim (s.key) [ none ↦ (s, some locked) | some k ↦ save_with io k s ]

  abbrev pub stamp : ℕ → Credential → Credential
  stamp now c = if c.created_at == 0 then record c { created_at = now } else c

  -- The part of `Put` behind the validation.
  unfoldable pub put_valid :
      Io → ℕ → Bytes → Result ValidationError Credential → Store → Store × Option StoreError
  unfolding insert bytes_eq
  put_valid io now name (err e) s = (s, some (invalid_credential e))
  put_valid io now name (ok c) s =
      save io (with_credentials (insert name (stamp now c) s.doc.credentials) s)

  unfoldable pub put : Io → ℕ → Bytes → Option Credential → Store → Store × Option StoreError
  unfolding put_valid
  put io now name c s =
      if matches_name name
      then put_valid io now name (validate_credential lib.parsers c) s
      else (s, some invalid_name)

  unfoldable pub delete : Io → Bytes → Store → Store × Option StoreError
  unfolding lookup erase bytes_eq
  delete io name s = elim (lookup name s.doc.credentials) [
    | none ↦ (s, some not_found)
    | some c ↦ save io (without_credential name s)
  ]

-- The map of flags gives false for a name that it does not hold.
abbrev pub flag : Option Bool → Bool
flag none = false
flag (some on) = on

unfoldable pub enable : Bytes → Bool → Store → Store × Option StoreError
unfolding lookup insert bytes_eq
enable name on s = elim (lookup name s.doc.credentials) [
  | none ↦ (s, some not_found)
  | some c ↦ (record s { enabled = insert name on s.enabled }, none)
]

-- The credential and its flag for this session.
unfoldable pub lookup_credential : Bytes → Store → Option (Credential × Bool)
unfolding lookup bytes_eq
lookup_credential name s = elim (lookup name s.doc.credentials) [
  | none ↦ none
  | some c ↦ some (c, flag (lookup name s.enabled))
]

module _ (lib : Library) where
  unfoldable pub fingerprint : Store → Bytes → Bytes
  fingerprint s value = take 12 (encode_hex (lib.sha256 (s.doc.fp_salt ++ value)))

  unfoldable pub meta_locked : Store → Bytes → Credential → CredentialMeta
  unfolding fingerprint
  meta_locked s name c = record {
    name = name;
    auth_type = c.auth_type;
    allow_hosts = c.allow_hosts;
    read_tier = c.read_tier;
    write_tier = c.write_tier;
    enabled = flag (lookup name s.enabled);
    expires_at = c.expires_at;
    fingerprint = fingerprint s c.secret;
    created_at = c.created_at;
  }

  unfoldable pub meta : Bytes → Store → Result StoreError CredentialMeta
  unfolding meta_locked
  meta name s = elim (lookup name s.doc.credentials) [
    | none ↦ err not_found
    | some c ↦ ok (meta_locked s name c)
  ]

  abbrev pub metas : Store → Map Credential → List CredentialMeta
  metas s [] = []
  metas s ((name, c) ∷ m) = meta_locked s name c ∷ metas s m

  -- List
  unfoldable pub list_meta : Store → List CredentialMeta
  unfolding meta_locked
  list_meta s = metas s s.doc.credentials

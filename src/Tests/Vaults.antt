-- ===== src/Tests/Vaults.antt =====
-- The theorems on sealed files and on the store, at concrete inputs.
use joyvend_secretvault.Shared.{
  ◌+◌, ◌≡◌, ◌≢◌, refl, ◌⊎◌, true, not, all, ◌==◌, none, some, List, [], ◌∷◌, ◌++◌, map, All, ok,
  err, arith, if◌then◌else◌, length, take,
}
use joyvend_secretvault.Text.{Bytes, text, bytes_eq}
use joyvend_secretvault.Maps.{lookup}
use joyvend_secretvault.Model.{deny, VaultDoc}
use joyvend_secretvault.Secret.{
  Keyring, magic, standalone_file, gcm, seal, create, open_file, from_dek, open_sealed,
}
use joyvend_secretvault.Secret.Sealing.{Wraps}
use joyvend_secretvault.Secret.Creation.{Drawn, randoms, open_file-seal-create, open_sealed-seal}
use joyvend_secretvault.Store.{
  locked, lookup_credential, Io, file_steps, write_steps, Store, save, delete,
}
use joyvend_secretvault.Store.Audit.{
  append_audit, chain_entry, clear_audit_before, hashed_fields, decision_text, verify_audit,
}
use joyvend_secretvault.Store.Lifecycle.{fresh_store, open_store, close}
use joyvend_secretvault.Store.Operations.{
  Op, delete_op, enable_op, append_op, clear_op, close_op, run_op, run_ops,
}
use joyvend_secretvault.Store.Chain.{unlinked, recent, verify_audit-run_ops, clear_audit_before_lem}
use joyvend_secretvault.Store.Tamper.{
  HasPlainFields, Collision, HasFormats, recorded, last_hash-determines,
}
use joyvend_secretvault.Store.Tiers.{with_tier, verify_audit-with_tier}
use joyvend_secretvault.Store.Closing.{close_lem}
use joyvend_secretvault.Store.Durable.{SameDoc, open_store-run_op}
use joyvend_secretvault.Store.Sessions.{IsConsistent}
use joyvend_secretvault.Store.Writing.{IsOldOrNew, before_writing, file_steps-write_steps}
use joyvend_secretvault.Tests.Documents.{
  document_library, three_store, old_name, two_document, two_document-IsReadBack,
}
use joyvend_secretvault.Tests.Fixtures.{
  good_io, zeros, plain_primitives, plain_primitives-IsAead, small_library, writing_library,
  small_store, unary_injective, small_key, key_name, api_host, sample_row,
}

abbrev drawn : Drawn
drawn = record {
  salt = zeros 16;
  dek = zeros 32;
  dek_nonce = zeros 12;
  body_nonce = zeros 12;
  salt_size = refl;
  dek_size = refl;
  dek_nonce_size = refl;
  body_nonce_size = refl;
}

abbrev pub password : Bytes
password = text "hunter2"

open_file-seal-create_example :
    (k : Keyring) × (file : Bytes) × (resealed : Bytes) × (create plain_primitives
        (randoms drawn)
        password
        (text "{}")
      ≡ ok (k, file))
    × (open_file plain_primitives password file ≡ ok (k, text "{}"))
    × (seal plain_primitives k (some (zeros 12)) (text "{1}") ≡ ok resealed)
    × (open_file plain_primitives password resealed ≡ ok (k, text "{1}"))
open_file-seal-create_example =
    open_file-seal-create plain_primitives plain_primitives-IsAead drawn password (text "{}")
      (zeros 12) (text "{1}") refl

abbrev pub small_file : Bytes
small_file = small_key.header ++ (zeros 12 ++ (text "{}" ++ zeros 16))

-- The nonce that the suite cannot read back.
abbrev marked_nonce : Bytes
marked_nonce = magic ++ zeros 8

open_sealed-seal_example :
    (k : Keyring) × (file : Bytes) × (from_dek (zeros 32) ≡ ok k)
    × (seal plain_primitives k (some marked_nonce) (text "{}") ≡ ok file)
    × (open_sealed plain_primitives (zeros 32) file
        ≡ (if bytes_eq (take 4 marked_nonce) magic then err standalone_file else ok (k, text "{}")))
open_sealed-seal_example =
    open_sealed-seal plain_primitives plain_primitives-IsAead (zeros 32) marked_nonce (text "{}")
      refl refl

pub small_key-Wraps : Wraps plain_primitives password small_key
small_key-Wraps = record {
  size = refl;
  marked = refl;
  usable = refl;
  kek_usable = refl;
  unwraps = refl;
}

-- Of three credentials two are left; encoding/json gives them back in the other order.
abbrev deleting : Op
deleting = delete_op good_io old_name

deleting_done : (run_op document_library deleting three_store).1 ≡ none
unfolding run_op delete save seal gcm
deleting_done = refl

two_left : (run_op document_library deleting three_store).0.doc ≡ two_document
unfolding run_op delete save seal gcm
two_left = refl

open_store-run_op_example :
    (e : VaultDoc) × SameDoc (run_op document_library deleting three_store).0.doc e
    × (open_store document_library (run_op document_library deleting three_store).0.disk password
        ≡ ok (fresh_store small_key e (run_op document_library deleting three_store).0.disk))
open_store-run_op_example =
    open_store-run_op document_library deleting good_io three_store small_key password (zeros 12)
      plain_primitives-IsAead (rw two_left two_document-IsReadBack) refl refl refl refl
      small_key-Wraps refl deleting_done

abbrev missing : Op
missing = delete_op good_io (text "gitlab")

-- The disk is full behind three bytes.
abbrev full_io : Io
full_io = record good_io { write_stops = some 3 }

file_steps-write_steps_example :
    IsOldOrNew
      (some small_file)
      (text "new file")
      (file_steps
        (take 2 (write_steps full_io (text "new file")).0)
        (before_writing (some small_file))).path
    × (file_steps (write_steps full_io (text "new file")).0 (before_writing (some small_file))
        ≡ before_writing (
            if (write_steps full_io (text "new file")).1
            then some (text "new file")
            else some small_file))
file_steps-write_steps_example =
    file_steps-write_steps full_io (text "new file") (some small_file) 2

abbrev appended : List Op
appended =
    append_op good_io (sample_row 1)
    ∷ append_op good_io (sample_row 2)
    ∷ clear_op good_io 2
    ∷ append_op good_io (sample_row 3)
    ∷ []

empty_verifies : verify_audit writing_library small_store ≡ none
unfolding verify_audit
empty_verifies = refl

verify_audit-run_ops_example :
    verify_audit writing_library (run_ops writing_library appended small_store) ≡ none
verify_audit-run_ops_example =
    verify_audit-run_ops writing_library appended small_store empty_verifies

-- Three rows without hashes.
abbrev broken_store : Store
broken_store = record small_store {
  doc = record small_store.doc { audit = sample_row 1 ∷ sample_row 2 ∷ sample_row 3 ∷ [] };
}

clear_audit_before_lem_example :
    let (s', dropped, e) = clear_audit_before writing_library good_io 2 broken_store in
    (map unlinked s'.doc.audit ≡ map unlinked (recent 2 broken_store.doc.audit))
    × (length s'.doc.audit + dropped ≡ length broken_store.doc.audit)
    × (verify_audit writing_library s' ≡ none)
clear_audit_before_lem_example = clear_audit_before_lem writing_library good_io 2 broken_store

verify_audit-with_tier_example :
    verify_audit writing_library (record broken_store {
      doc = record broken_store.doc { audit = map (λ e. with_tier deny e) broken_store.doc.audit };
    })
    ≡ verify_audit writing_library broken_store
verify_audit-with_tier_example = verify_audit-with_tier writing_library (λ e. deny) broken_store

abbrev logged_store : Store
logged_store = (run_op writing_library (append_op good_io (sample_row 1)) small_store).0

logged_verifies : verify_audit writing_library logged_store ≡ none
unfolding run_op run_ops
logged_verifies =
    verify_audit-run_ops writing_library (append_op good_io (sample_row 1) ∷ []) small_store
      empty_verifies

plain : (s : Bytes) → all (λ c. not (c == 0)) s ≡ true → All (λ c. c ≢ 0) s
plain [] h = tt
plain (c ∷ s) h = (ground arith, plain s (ground arith))

logged_plain : All (HasPlainFields writing_library) logged_store.doc.audit
unfolding run_op append_audit chain_entry save seal gcm hashed_fields decision_text
logged_plain =
    let name = plain key_name refl in
    let status = plain (text "11111111111111111111") refl in
    (
      (
        plain (text "1") refl,
        (
          name,
          (
            plain (text "GET") refl,
            (
              plain api_host refl,
              (
                plain (text "allowed") refl,
                (
                  status,
                  (plain (text "111") refl, (plain (text "mcp") refl, (plain (text "1") refl, tt))),
                ),
              ),
            ),
          ),
        ),
      ),
      tt,
    )

unary_formats : HasFormats writing_library
unary_formats = record {
  show_int_injective = unary_injective;
  format_time_injective = unary_injective;
}

last_hash-determines_example :
    (map recorded logged_store.doc.audit ≡ map recorded logged_store.doc.audit)
    ⊎ Collision writing_library logged_store.doc.audit logged_store.doc.audit
last_hash-determines_example =
    last_hash-determines writing_library (λ x. refl) logged_store logged_store unary_formats
      logged_verifies logged_verifies logged_plain logged_plain refl

pub fresh-IsConsistent : IsConsistent (record small_store { enabled = [] })
unfolding lookup
fresh-IsConsistent name on = cc

abbrev pub session : List Op
session = enable_op key_name true ∷ missing ∷ close_op good_io ∷ []

close_lem_example :
    ((close small_library good_io small_store).0.key ≡ none)
    × ((save small_library good_io (close small_library good_io small_store).0).1 ≡ some locked)
    × (lookup_credential key_name (close small_library good_io small_store).0
        ≡ lookup_credential key_name small_store)
close_lem_example = close_lem small_library good_io good_io small_store key_name

-- ===== src/Tests/Documents.antt =====
-- A library that writes documents with credentials, and reads their map back in the other order.
use joyvend_secretvault.Shared.{
  ℕ, ◌≡◌, refl, false, Option, none, some, List, [], ◌∷◌, ◌++◌, arith, length, take, drop,
}
use joyvend_secretvault.Text.{Bytes, text, bytes_eq, bytes_eq_iff}
use joyvend_secretvault.Maps.{Map, lookup}
use joyvend_secretvault.Model.{Credential, Grant, AuditEntry, VaultDoc}
use joyvend_secretvault.Store.{Library, Store}
use joyvend_secretvault.Store.Durable.{SameDoc, IsReadBack}
use joyvend_secretvault.Tests.Fixtures.{
  zeros, small_library, small_store, key_name, bearer_credential,
}

-- The last entry first, each text behind its length.
abbrev pub entries_text : Map Credential → Bytes
entries_text [] = []
entries_text ((name, c) ∷ m) =
    entries_text m ++ (length name ∷ (name ++ (length c.secret ∷ c.secret)))

-- A document of a new version 1 vault with bearer credentials, without grants and audit.
abbrev pub document_text : ℕ → Bytes → Map Credential → List Grant → List AuditEntry → Option Bytes
document_text v salt cs [] [] = some (v ∷ (salt ++ entries_text cs))
document_text v salt cs gs es = none

abbrev pub secret_part : Bytes → Bytes × Bytes
secret_part [] = ([], [])
secret_part (n ∷ b) = (take n b, drop n b)

abbrev pub read_entries : ℕ → Bytes → Map Credential
read_entries ℕ.zero b = []
read_entries (ℕ.suc fuel) [] = []
read_entries (ℕ.suc fuel) (n ∷ b) =
    let part = secret_part (drop n b) in
    (take n b, record bearer_credential { secret = part.0 }) ∷ read_entries fuel part.1

abbrev pub read_document : Bytes → Option VaultDoc
read_document [] = none
read_document (v ∷ b) = some (record {
  version = v;
  fp_salt = take 16 b;
  credentials = read_entries 9 (drop 16 b);
  grants = [];
  audit = [];
})

abbrev pub document_library : Library
document_library = record small_library {
  marshal = λ d. document_text d.version d.fp_salt d.credentials d.grants d.audit;
  unmarshal = read_document;
}

abbrev other_name : Bytes
other_name = text "gitlab"

abbrev other_credential : Credential
other_credential = record bearer_credential { secret = text "tok_abcdefgh" }

abbrev pub old_name : Bytes
old_name = text "old"

abbrev pub two_document : VaultDoc
two_document = record small_store.doc {
  credentials = (key_name, bearer_credential) ∷ (other_name, other_credential) ∷ [];
}

abbrev pub turned_document : VaultDoc
turned_document = record small_store.doc {
  credentials = (other_name, other_credential) ∷ (key_name, bearer_credential) ∷ [];
}

-- Three credentials, of which the last is to be deleted.
abbrev pub three_store : Store
three_store = record small_store {
  doc = record small_store.doc {
    credentials =
        (key_name, bearer_credential)
        ∷ (other_name, other_credential)
        ∷ (old_name, other_credential)
        ∷ [];
  };
}

lookup_turned :
    (j k name : Bytes) (c d : Credential)
    → bytes_eq j k ≡ false
    → lookup name ((k, d) ∷ (j, c) ∷ []) ≡ lookup name ((j, c) ∷ (k, d) ∷ [])
unfolding lookup
lookup_turned j k name c d differ =
    ground (arith, bytes_eq_iff j name, bytes_eq_iff k name, bytes_eq_iff j k)

names_differ : bytes_eq key_name other_name ≡ false
unfolding bytes_eq
names_differ = refl

two_document-SameDoc : SameDoc two_document turned_document
two_document-SameDoc = record {
  same_version = refl;
  same_salt = refl;
  same_credentials = λ name.
      lookup_turned key_name other_name name bearer_credential other_credential names_differ;
  same_grants = refl;
  same_audit = refl;
}

pub two_document-IsReadBack : IsReadBack document_library two_document
two_document-IsReadBack b written =
    let same : b ≡ 1 ∷ (zeros 16 ++ entries_text two_document.credentials) = cc in
    (turned_document, rw same refl, two_document-SameDoc)

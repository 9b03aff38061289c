-- ===== src/Component/Sessions.antt =====
-- From one session of component/component.go to the next.
use joyvend_secretvault.Shared.{
  ◌≡◌, refl, ◌∙◌, true, false, Option, none, some, [], arith, ◌==◌, length, take, Option-cases, inl,
  inr, ok,
}
use joyvend_secretvault.Text.{Bytes, bytes_eq}
use joyvend_secretvault.Model.{VaultDoc, current_version}
use joyvend_secretvault.Secret.{Keyring, magic, seal, open_sealed, from_dek}
use joyvend_secretvault.Secret.Sealing.{IsAead}
use joyvend_secretvault.Secret.Creation.{open_sealed-seal}
use joyvend_secretvault.Store.{Library, Store, StoreError, Io, save, save_with, write_file}
use joyvend_secretvault.Store.Lifecycle.{fresh_store, open_with_dek, load, close}
use joyvend_secretvault.Store.Durable.{SameDoc, IsReadBack}
use joyvend_secretvault.Server.{Server, store_of}
use joyvend_secretvault.Component.{
  Component, of_close, component_file, first_launch, UnlockEnv, component_server, unlocked_with,
  unlock_component, lock_component,
}

abbrev pub suite_key : Bytes → Keyring
suite_key dek = record { dek = dek; header = [] }

from_dek_suite :
    (dek : Bytes) (k : Keyring) → length dek ≡ 32 → from_dek dek ≡ ok k → k ≡ suite_key dek
unfolding from_dek
from_dek_suite dek k size made = ground arith

module _ (lib : Library) (laws : IsAead lib.primitives) where
  -- A store of the suite that is saved without an error is opened again by its DEK.
  open_with_dek-save :
      (io : Io) (s : Store) (dek nonce : Bytes)
      → IsReadBack lib s.doc
      → s.key ≡ some (suite_key dek)
      → s.doc.version ≡ current_version
      → length dek ≡ 32
      → io.nonce ≡ some nonce
      → length nonce ≡ 12
      → bytes_eq (take 4 nonce) magic ≡ false
      → (save lib io s).1 ≡ none
      → (file : Bytes) × (e : VaultDoc) × SameDoc s.doc e
        × ((save lib io s).0.disk ≡ some file)
        × (open_with_dek lib (some file) dek ≡ ok (fresh_store (suite_key dek) e (some file)))
  unfolding save save_with write_file open_with_dek load
  open_with_dek-save io s dek nonce json has_key version size drawn n plain saved =
      elim (Option-cases (lib.marshal s.doc)) [
        | inl f ↦ absurd (ground arith)
        | inr (pt, f) ↦
            let (k, file, made, sealed, opened) =
              open_sealed-seal lib.primitives laws dek nonce pt size n in
            let same = from_dek_suite dek k size made in
            let sealed' : seal lib.primitives (suite_key dek) (some nonce) pt ≡ ok file =
              rw same at sealed in
            let opened' : open_sealed lib.primitives dek file ≡ ok (suite_key dek, pt) =
              rw same at (rw plain at opened) in
            let there : (save lib io s).0.disk ≡ some file = ground arith in
            let (e, read, alike) = json pt f in
            let current : (e.version == current_version) ≡ true =
              rw (alike.same_version ∙ version) refl in
            (file, e, alike, there, rw opened' (rw read (rw current refl)))
      ]

lock_component_open :
    (lib : Library) (io : Io) (c : Component) (s : Server) (k : Keyring)
    → c.srv ≡ some s
    → (store_of s).key ≡ some k
    → lock_component lib io c ≡ (
      record c { srv = none; disk = (save lib io (store_of s)).0.disk },
      of_close (save lib io (store_of s)).1,
    )
unfolding lock_component close
lock_component_open lib io c s k unlocked has_key = rw (unlocked, has_key) refl

of_close-none : (e : Option StoreError) → of_close e ≡ none → e ≡ none
of_close-none none h = refl
of_close-none (some e) h = cc

unlock_component_there :
    (u : UnlockEnv) (dek file : Bytes) (c : Component) (st : Store)
    → c.srv ≡ none
    → c.disk ≡ some file
    → open_with_dek u.lib (some file) dek ≡ ok st
    → unlock_component u dek c ≡ (record c { srv = some (component_server u st c.opts) }, none)
unfolding unlock_component first_launch unlocked_with
unlock_component_there u dek file c st shut there opened =
    let at : component_file c ≡ some file = ground arith in rw (at, opened) refl

-- A component that is locked without an error and then unlocked with the same DEK: the unlocking
-- succeeds, and its server has the document as it was in memory, up to the order of its map, with nothing
-- enabled, no approvals and no spent rate limits; if encoding/json reads that document back. The last nonce is one that does not begin with the mark of standalone files.
pub unlock_component-lock_component :
    (u : UnlockEnv) (io : Io) (c : Component) (s : Server) (dek nonce : Bytes)
    → IsAead u.lib.primitives
    → IsReadBack u.lib (store_of s).doc
    → c.srv ≡ some s
    → (store_of s).key ≡ some (suite_key dek)
    → (store_of s).doc.version ≡ current_version
    → length dek ≡ 32
    → io.nonce ≡ some nonce
    → length nonce ≡ 12
    → bytes_eq (take 4 nonce) magic ≡ false
    → (lock_component u.lib io c).1 ≡ none
    → (file : Bytes) × (e : VaultDoc) × SameDoc (store_of s).doc e
      × ((lock_component u.lib io c).0.disk ≡ some file)
      × ((lock_component u.lib io c).0.srv ≡ none)
      × (unlock_component u dek (lock_component u.lib io c).0 ≡ (
        record c {
          srv = some (component_server u (fresh_store (suite_key dek) e (some file)) c.opts);
          disk = some file;
        },
        none,
      ))
unlock_component-lock_component u io c s dek nonce laws json unlocked has_key version size drawn n
      plain done =
    let locking = lock_component_open u.lib io c s (suite_key dek) unlocked has_key in
    let saved = of_close-none (save u.lib io (store_of s)).1 (rw locking at done) in
    let (file, e, alike, there, opened) =
      open_with_dek-save u.lib laws io (store_of s) dek nonce json has_key version size drawn n
        plain saved in
    (
      file,
      e,
      alike,
      rw locking there,
      rw locking refl,
      rw (locking, there) (unlock_component_there u dek file _ _ refl refl opened),
    )

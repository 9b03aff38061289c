-- ===== src/Store/Closing.antt =====
-- What `Close` of internal/vault/store.go wipes, and what it leaves.
use joyvend_secretvault.Shared.{◌≡◌, refl, some, none, arith}
use joyvend_secretvault.Text.{Bytes}
use joyvend_secretvault.Store.{Library, Store, Io, locked, save, lookup_credential}
use joyvend_secretvault.Store.Lifecycle.{close}
use joyvend_secretvault.Store.Operations.{save-KeepsMemory}

pub close_key : (lib : Library) (io : Io) (s : Store) → (close lib io s).0.key ≡ none
unfolding close
close_key lib io s = ground arith

pub close_memory :
    (lib : Library) (io : Io) (s : Store)
    → ((close lib io s).0.doc ≡ s.doc) × ((close lib io s).0.enabled ≡ s.enabled)
unfolding close
close_memory lib io s =
    let kept = save-KeepsMemory lib io s in
    (ground (arith, kept.same_doc), ground (arith, kept.same_enabled))

save_closed : (lib : Library) (io : Io) (s : Store) → s.key ≡ none → (save lib io s).1 ≡ some locked
unfolding save
save_closed lib io s e = ground arith

pub lookup_credential_memory :
    (s t : Store) (name : Bytes)
    → t.doc ≡ s.doc
    → t.enabled ≡ s.enabled
    → lookup_credential name t ≡ lookup_credential name s
unfolding lookup_credential
lookup_credential_memory s t name e f = rw (e, f) refl

-- A store that was closed has no key, and every later save fails as locked; but the credentials, with
-- their secrets, and the flags of the session are found as before, whether or not the last save
-- succeeded.
pub close_lem :
    (lib : Library) (io later : Io) (s : Store) (name : Bytes)
    → ((close lib io s).0.key ≡ none)
      × ((save lib later (close lib io s).0).1 ≡ some locked)
      × (lookup_credential name (close lib io s).0 ≡ lookup_credential name s)
close_lem lib io later s name =
    let none_left = close_key lib io s in
    let (same_doc, same_enabled) = close_memory lib io s in
    let closed = (close lib io s).0 in
    (
      none_left,
      save_closed lib later closed none_left,
      lookup_credential_memory s closed name same_doc same_enabled,
    )

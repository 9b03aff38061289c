-- ===== src/Gui/Reopening.antt =====
-- From one session of internal/gui/gui.go to the next: locking, and unlocking with the password.
use joyvend_secretvault.Shared.{
  ◌≡◌, refl, ap, true, false, none, some, is_empty, is_some, length, ok,
}
use joyvend_secretvault.Text.{Bytes}
use joyvend_secretvault.Model.{VaultDoc, current_version}
use joyvend_secretvault.Secret.{Keyring}
use joyvend_secretvault.Secret.Sealing.{IsAead, Wraps}
use joyvend_secretvault.Store.{Library, Store, Io}
use joyvend_secretvault.Store.Lifecycle.{fresh_store, open_store, close}
use joyvend_secretvault.Store.Closing.{close_memory}
use joyvend_secretvault.Store.Operations.{close_op, run_op}
use joyvend_secretvault.Store.Durable.{SameDoc, IsReadBack, open_store-run_op}
use joyvend_secretvault.Http.{Request}
use joyvend_secretvault.Server.{Server, store_of}
use joyvend_secretvault.Gui.{
  App, locked_app, lock_now, vault_file, is_unlocked, GuiEnv, rand_hex, has_launch_token,
}
use joyvend_secretvault.Gui.Handlers.{
  session_server, opened_with, open_with_password, open_vault, unlock,
}

lock_now_open :
    (lib : Library) (io : Io) (a : App) (s : Server)
    → a.srv ≡ some s
    → lock_now lib io a
      ≡ (locked_app (close lib io (store_of s)).0.disk a, (close lib io (store_of s)).1)
unfolding lock_now
lock_now_open lib io a s e = rw (e, lock_now) refl

open_store-close :
    (lib : Library) (io : Io) (s : Store) (k : Keyring) (password nonce : Bytes)
    → IsAead lib.primitives
    → IsReadBack lib s.doc
    → s.key ≡ some k
    → Wraps lib.primitives password k
    → s.doc.version ≡ current_version
    → io.nonce ≡ some nonce
    → length nonce ≡ 12
    → (close lib io s).1 ≡ none
    → (e : VaultDoc) × SameDoc s.doc e
      × (open_store lib (close lib io s).0.disk password
          ≡ ok (fresh_store k e (close lib io s).0.disk))
unfolding run_op
open_store-close lib io s k password nonce laws json has_key w version drawn n done =
    let kept = (close_memory lib io s).0 in
    rw kept at (
      open_store-run_op lib (close_op io) io s k password nonce laws (rw kept json) refl drawn n
        has_key w version done)

-- The app behind an unlocking that has opened this store.
abbrev pub reopened : GuiEnv → Store → App → App
reopened g st a = record a { srv = some (session_server g st); session = rand_hex g.session_random }

unlock-reopened :
    (g : GuiEnv) (r : Request) (a : App) (password : Bytes) (st : Store)
    → a.srv ≡ none
    → has_launch_token r a ≡ true
    → g.decode_password r.body ≡ some password
    → is_empty password ≡ false
    → open_store g.env.lib a.disk password ≡ ok st
    → (unlock g r a).0 ≡ reopened g st a
unfolding unlock open_vault open_with_password opened_with
unlock-reopened g r a password st shut token given some_word opens =
    let locked : is_unlocked a ≡ false = ap is_some shut in
    let file : vault_file a ≡ a.disk = rw shut refl in
    let opens' : open_store g.env.lib (vault_file a) password ≡ ok st = rw file opens in
    rw (token, unlock)
      (rw (given, open_vault)
        (rw (some_word, locked, opens', open_with_password, opened_with) refl))

-- A web app that is locked without an error, by the human, by the tick of the idle watcher, or at the
-- end, and then unlocked with the password of its vault and the launch token: the unlocking succeeds,
-- and its server has the document as it was in memory, up to the order of its map, with no
-- credential enabled, no approvals and no spent rate limits, under a new session; if encoding/json
-- reads that document back.
pub unlock-lock_now :
    (g : GuiEnv) (r : Request) (io : Io) (a : App) (s : Server) (k : Keyring)
    (password nonce : Bytes)
    → IsAead g.env.lib.primitives
    → IsReadBack g.env.lib (store_of s).doc
    → a.srv ≡ some s
    → (store_of s).key ≡ some k
    → Wraps g.env.lib.primitives password k
    → (store_of s).doc.version ≡ current_version
    → io.nonce ≡ some nonce
    → length nonce ≡ 12
    → (lock_now g.env.lib io a).1 ≡ none
    → has_launch_token r a ≡ true
    → g.decode_password r.body ≡ some password
    → is_empty password ≡ false
    → (e : VaultDoc) × SameDoc (store_of s).doc e
      × ((lock_now g.env.lib io a).0.srv ≡ none)
      × ((unlock g r (lock_now g.env.lib io a).0).0
          ≡ reopened g
              (fresh_store k e (lock_now g.env.lib io a).0.disk)
              (lock_now g.env.lib io a).0)
unfolding has_launch_token
unlock-lock_now g r io a s k password nonce laws json open_srv has_key w version drawn n done token
      given some_word =
    let locking = lock_now_open g.env.lib io a s open_srv in
    let closed = (close g.env.lib io (store_of s)).0 in
    let (e, alike, opens) =
      open_store-close g.env.lib io (store_of s) k password nonce laws json has_key w version drawn
        n (rw locking at done) in
    rw locking (
      e,
      alike,
      refl,
      unlock-reopened g r (locked_app closed.disk a) password (fresh_store k e closed.disk) refl
          token given some_word opens,
    )

-- ===== src/Store/Refinement.antt =====
-- The store of internal/vault/store.go as its clients see it: a function from names to the credential
-- and its flag, or nothing.
use joyvend_secretvault.Shared.{
  ℕ, ◌≡◌, refl, ap, ◌∙◌, Bool, false, Option, none, some, List, [], ◌∷◌, arith, Bool-cases, inl,
  inr, if◌then◌else◌, ok, err, Result,
}
use joyvend_secretvault.Text.{Bytes, bytes_eq, bytes_eq_iff}
use joyvend_secretvault.Maps.{lookup-insert, lookup-erase}
use joyvend_secretvault.Model.{Credential}
use joyvend_secretvault.Validate.{ValidationError, validate_credential, matches_name}
use joyvend_secretvault.Store.{
  Library, Store, Io, save, put, put_valid, delete, enable, stamp, lookup_credential,
  without_credential,
}
use joyvend_secretvault.Store.Audit.{append_audit, clear_audit_before}
use joyvend_secretvault.Store.Lifecycle.{close}
use joyvend_secretvault.Store.Operations.{
  Op, put_op, delete_op, enable_op, append_op, clear_op, close_op, run_op, run_ops,
  save-KeepsMemory,
}
use joyvend_secretvault.Store.Sessions.{IsConsistent, run_op-IsConsistent, run_ops-IsConsistent}
use joyvend_secretvault.Store.Closing.{lookup_credential_memory}

abbrev pub View : Type 0
View = Bytes → Option (Credential × Bool)

abbrev pub view : Store → View
view s name = lookup_credential name s

abbrev flag_of : Option (Credential × Bool) → Bool
flag_of none = false
flag_of (some (c, on)) = on

abbrev set_flag : Bool → Option (Credential × Bool) → Option (Credential × Bool)
set_flag on none = none
set_flag on (some (c, before)) = some (c, on)

abbrev spec_put : Bytes → Result ValidationError Credential → View → View
spec_put n (err e) v name = v name
spec_put n (ok c) v name = if bytes_eq n name then some (c, flag_of (v n)) else v name

module _ (lib : Library) where
  abbrev stamped : ℕ → Result ValidationError Credential → Result ValidationError Credential
  stamped now (err e) = err e
  stamped now (ok c) = ok (stamp lib now c)

  -- What an operation does to the view, whether or not its save succeeds.
  abbrev pub spec_op : Op → View → View
  spec_op (put_op io now n c) v name =
      if matches_name n
      then spec_put n (stamped now (validate_credential lib.parsers c)) v name
      else v name
  spec_op (delete_op io n) v name = if bytes_eq n name then none else v name
  spec_op (enable_op n on) v name = if bytes_eq n name then set_flag on (v name) else v name
  spec_op _ v name = v name

  abbrev pub spec_ops : List Op → View → View
  spec_ops [] v = v
  spec_ops (op ∷ ops) v = spec_ops ops (spec_op op v)

  view-save : (io : Io) (s : Store) (name : Bytes) → view (save lib io s).0 name ≡ view s name
  view-save io s name =
      let kept = save-KeepsMemory lib io s in
      lookup_credential_memory s (save lib io s).0 name kept.same_doc kept.same_enabled

  view-put_valid :
      (io : Io) (now : ℕ) (n : Bytes) (r : Result ValidationError Credential) (s : Store)
      (name : Bytes)
      → IsConsistent s
      → view (put_valid lib io now n r s).0 name ≡ spec_put n (stamped now r) (view s) name
  unfolding put_valid
  view-put_valid io now n (err e) s name h = refl
  view-put_valid io now n (ok c) s name h =
      unfold lookup_credential in
      view-save io _ name
      ∙ ground (
        arith,
        lookup-insert n name (stamp lib now c) s.doc.credentials,
        bytes_eq_iff n name,
        h n,
      )

  view-delete :
      (io : Io) (n : Bytes) (s : Store) (name : Bytes)
      → view (delete lib io n s).0 name ≡ (if bytes_eq n name then none else view s name)
  unfolding delete lookup_credential
  view-delete io n s name = ground (
    arith,
    view-save io (without_credential n s) name,
    lookup-erase n name s.doc.credentials,
    lookup-erase n name s.enabled,
    bytes_eq_iff n name,
  )

  view-enable :
      (n : Bytes) (on : Bool) (s : Store) (name : Bytes)
      → view (enable n on s).0 name ≡ spec_op (enable_op n on) (view s) name
  unfolding enable lookup_credential
  view-enable n on s name = ground (arith, lookup-insert n name on s.enabled, bytes_eq_iff n name)

  view-run_op :
      (op : Op) (s : Store) (name : Bytes)
      → IsConsistent s
      → view (run_op lib op s).0 name ≡ spec_op op (view s) name
  unfolding run_op lookup_credential
  view-run_op (put_op io now n c) s name h =
      unfold put in
      elim (Bool-cases (matches_name n)) [
        | inl t ↦ rw t (view-put_valid io now n (validate_credential lib.parsers c) s name h)
        | inr f ↦ rw f refl
      ]
  view-run_op (delete_op io n) s name h = view-delete io n s name
  view-run_op (enable_op n on) s name h = view-enable n on s name
  view-run_op (append_op io e) s name h = unfold append_audit in view-save io _ name
  view-run_op (clear_op io cutoff) s name h = unfold clear_audit_before in view-save io _ name
  view-run_op (close_op io) s name h = unfold close in ground (arith, view-save io s name)

  view_from :
      (ops : List Op) (s : Store)
      → IsConsistent s
      → view (run_ops lib ops s) ≡ spec_ops ops (view s)
  unfolding run_ops
  view_from [] s h = refl
  view_from (op ∷ ops) s h =
      view_from ops (run_op lib op s).0 (run_op-IsConsistent lib op s h)
      ∙ ap (spec_ops ops) (λ i name. view-run_op op s name h i)

  -- Every sequence of operations on a store whose enabled credentials exist does to the credentials
  -- and flags, as the names find them, exactly what it does to a function from names: a valid `put`
  -- sets the credential and keeps the flag, `delete` removes both, `enable` sets the flag of what is
  -- there, and the others change nothing, whatever the saves report. And it leaves a store whose
  -- enabled credentials exist.
  pub view-run_ops :
      (ops : List Op) (s : Store)
      → IsConsistent s
      → (view (run_ops lib ops s) ≡ spec_ops ops (view s)) × IsConsistent (run_ops lib ops s)
  view-run_ops ops s h = (view_from ops s h, run_ops-IsConsistent lib ops s h)

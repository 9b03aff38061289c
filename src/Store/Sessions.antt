-- ===== src/Store/Sessions.antt =====
-- Which credentials a session may use: none at first, and only what the human has enabled.
use joyvend_secretvault.Shared.{
  ℕ, ◌≡◌, ◌≢◌, refl, sym, ap, ◌∙◌, Bool, true, false, Option, List, [], ◌∷◌, arith, Bool-cases, inl,
  inr, if◌then◌else◌, ok, err, is_some, Result,
}
use joyvend_secretvault.Text.{Bytes, bytes_eq, bytes_eq_iff}
use joyvend_secretvault.Maps.{lookup, lookup-insert, lookup-erase}
use joyvend_secretvault.Model.{Credential}
use joyvend_secretvault.Validate.{ValidationError, validate_credential, matches_name}
use joyvend_secretvault.Store.{
  Library, Store, Io, save, put, put_valid, delete, enable, flag, stamp, without_credential,
}
use joyvend_secretvault.Store.Audit.{append_audit, clear_audit_before}
use joyvend_secretvault.Store.Lifecycle.{close}
use joyvend_secretvault.Store.Operations.{
  Op, put_op, delete_op, enable_op, append_op, clear_op, close_op, run_op, run_ops,
  save-KeepsMemory,
}

-- The flag of a name, and whether there is such a credential.
abbrev pub is_on : Bytes → Store → Bool
is_on name s = flag (lookup name s.enabled)

abbrev pub exists : Bytes → Store → Bool
exists name s = is_some (lookup name s.doc.credentials)

-- Only credentials that exist are enabled.
abbrev pub IsConsistent : Store → Type 0
IsConsistent s = (name : Bytes) → is_on name s ≡ true → exists name s ≡ true

-- What an operation makes of the flag of a name.
abbrev pub flag_after : Op → Bytes → Store → Bool
flag_after (enable_op n on) name s =
    if exists n s then (if bytes_eq n name then on else is_on name s) else is_on name s
flag_after (delete_op io n) name s = if bytes_eq n name then false else is_on name s
flag_after _ name s = is_on name s

module _ (lib : Library) where
  is_on-save : (io : Io) (s : Store) (name : Bytes) → is_on name (save lib io s).0 ≡ is_on name s
  is_on-save io s name = ap (λ m. flag (lookup name m)) ((save-KeepsMemory lib io s).same_enabled)

  exists-save : (io : Io) (s : Store) (name : Bytes) → exists name (save lib io s).0 ≡ exists name s
  exists-save io s name =
      ap (λ d. is_some (lookup name d.credentials)) ((save-KeepsMemory lib io s).same_doc)

  is_on-put_valid :
      (io : Io) (now : ℕ) (n : Bytes) (r : Result ValidationError Credential) (s : Store)
      (name : Bytes)
      → is_on name (put_valid lib io now n r s).0 ≡ is_on name s
  unfolding put_valid
  is_on-put_valid io now n (err e) s name = refl
  is_on-put_valid io now n (ok c) s name = is_on-save io _ name

  exists-put_valid :
      (io : Io) (now : ℕ) (n : Bytes) (r : Result ValidationError Credential) (s : Store)
      (name : Bytes)
      → exists name s ≡ true
      → exists name (put_valid lib io now n r s).0 ≡ true
  unfolding put_valid
  exists-put_valid io now n (err e) s name h = h
  exists-put_valid io now n (ok c) s name h =
      exists-save io _ name
      ∙ ground (arith, lookup-insert n name (stamp lib now c) s.doc.credentials)

  is_on-put :
      (io : Io) (now : ℕ) (n : Bytes) (c : Option Credential) (s : Store) (name : Bytes)
      → is_on name (put lib io now n c s).0 ≡ is_on name s
  unfolding put
  is_on-put io now n c s name = elim (Bool-cases (matches_name n)) [
    | inl t ↦ rw t (is_on-put_valid io now n (validate_credential lib.parsers c) s name)
    | inr f ↦ rw f refl
  ]

  exists-put :
      (io : Io) (now : ℕ) (n : Bytes) (c : Option Credential) (s : Store) (name : Bytes)
      → exists name s ≡ true
      → exists name (put lib io now n c s).0 ≡ true
  unfolding put
  exists-put io now n c s name h = elim (Bool-cases (matches_name n)) [
    | inl t ↦ rw t (exists-put_valid io now n (validate_credential lib.parsers c) s name h)
    | inr f ↦ rw f h
  ]

  is_on-delete :
      (io : Io) (n : Bytes) (s : Store) (name : Bytes)
      → (is_on n s ≡ true → exists n s ≡ true)
      → is_on name (delete lib io n s).0 ≡ (if bytes_eq n name then false else is_on name s)
  unfolding delete
  is_on-delete io n s name h = ground (
    arith,
    h,
    is_on-save io (without_credential n s) name,
    lookup-erase n name s.enabled,
    bytes_eq_iff n name,
  )

  exists-delete :
      (io : Io) (n : Bytes) (s : Store) (name : Bytes)
      → bytes_eq n name ≡ false
      → exists name (delete lib io n s).0 ≡ exists name s
  unfolding delete
  exists-delete io n s name h =
      ground
        (arith, exists-save io (without_credential n s) name, lookup-erase n name s.doc.credentials)

  is_on-enable :
      (n : Bytes) (on : Bool) (s : Store) (name : Bytes)
      → is_on name (enable n on s).0 ≡ flag_after (enable_op n on) name s
  unfolding enable
  is_on-enable n on s name = ground (arith, lookup-insert n name on s.enabled)

  exists-enable :
      (n : Bytes) (on : Bool) (s : Store) (name : Bytes)
      → exists name (enable n on s).0 ≡ exists name s
  unfolding enable
  exists-enable n on s name = ground arith

  -- The flag of a name after any operation, for a store whose enabled credentials exist.
  is_on-run_op :
      (op : Op) (s : Store) (name : Bytes)
      → IsConsistent s
      → is_on name (run_op lib op s).0 ≡ flag_after op name s
  unfolding run_op
  is_on-run_op (put_op io now n c) s name h = is_on-put io now n c s name
  is_on-run_op (delete_op io n) s name h = is_on-delete io n s name (h n)
  is_on-run_op (enable_op n on) s name h = is_on-enable n on s name
  is_on-run_op (append_op io e) s name h = unfold append_audit in is_on-save io _ name
  is_on-run_op (clear_op io cutoff) s name h = unfold clear_audit_before in is_on-save io _ name
  is_on-run_op (close_op io) s name h = unfold close in ground (arith, is_on-save io s name)

  exists-run_op :
      (op : Op) (s : Store) (name : Bytes)
      → flag_after op name s ≡ true
      → IsConsistent s
      → exists name (run_op lib op s).0 ≡ true
  unfolding run_op
  exists-run_op (put_op io now n c) s name on h = exists-put io now n c s name (h name on)
  exists-run_op (delete_op io n) s name on h = ground (arith, exists-delete io n s name, h name)
  exists-run_op (enable_op n b) s name on h =
      ground (arith, exists-enable n b s name, h name, bytes_eq_iff n name)
  exists-run_op (append_op io e) s name on h =
      unfold append_audit in exists-save io _ name ∙ h name on
  exists-run_op (clear_op io cutoff) s name on h =
      unfold clear_audit_before in exists-save io _ name ∙ h name on
  exists-run_op (close_op io) s name on h =
      unfold close in ground (arith, exists-save io s name, h name)

  pub run_op-IsConsistent :
      (op : Op) (s : Store) → IsConsistent s → IsConsistent (run_op lib op s).0
  run_op-IsConsistent op s h name on =
      exists-run_op op s name (sym (is_on-run_op op s name h) ∙ on) h

  -- Every sequence of operations on a store whose enabled credentials exist keeps it so.
  pub run_ops-IsConsistent :
      (ops : List Op) (s : Store) → IsConsistent s → IsConsistent (run_ops lib ops s)
  unfolding run_ops
  run_ops-IsConsistent [] s h = h
  run_ops-IsConsistent (op ∷ ops) s h =
      run_ops-IsConsistent ops (run_op lib op s).0 (run_op-IsConsistent op s h)

-- What the human last said of a name: enabled, or disabled or deleted; `said` is from before.
abbrev pub said_after : Op → Bytes → Bool → Bool
said_after (enable_op n on) name said = if bytes_eq n name then on else said
said_after (delete_op io n) name said = if bytes_eq n name then false else said
said_after _ name said = said

abbrev pub granted : Bytes → Bool → List Op → Bool
granted name said [] = said
granted name said (op ∷ ops) = granted name (said_after op name said) ops

said_of_flag :
    (op : Op) (name : Bytes) (s : Store) (said : Bool)
    → (is_on name s ≡ true → said ≡ true)
    → (is_on name s ≡ true → exists name s ≡ true)
    → flag_after op name s ≡ true
    → said_after op name said ≡ true
said_of_flag (enable_op n on) name s said before there h =
    ground (arith, before, there, bytes_eq_iff n name)
said_of_flag (delete_op io n) name s said before there h = ground (arith, before)
said_of_flag _ name s said before there h = before h

module _ (lib : Library) where
  granted-run_ops :
      (ops : List Op) (s : Store) (name : Bytes) (said : Bool)
      → IsConsistent s
      → (is_on name s ≡ true → said ≡ true)
      → is_on name (run_ops lib ops s) ≡ true
      → granted name said ops ≡ true
  unfolding run_ops
  granted-run_ops [] s name said h before on = before on
  granted-run_ops (op ∷ ops) s name said h before on =
      granted-run_ops ops (run_op lib op s).0 name (said_after op name said)
        (run_op-IsConsistent lib op s h)
        (λ e. said_of_flag op name s said before (h name) (sym (is_on-run_op lib op s name h) ∙ e))
        on

  -- In a session that starts with nothing enabled, a credential is enabled only if the last
  -- operation that enabled, disabled or deleted its name was one that enabled it.
  pub run_ops-granted :
      (ops : List Op) (s : Store) (name : Bytes)
      → s.enabled ≡ []
      → is_on name (run_ops lib ops s) ≡ true
      → granted name false ops ≡ true
  unfolding lookup
  run_ops-granted ops s name fresh on =
      granted-run_ops ops s name false (λ n e. absurd (off n e)) (λ e. absurd (off name e)) on
    where
      off : (n : Bytes) → is_on n s ≢ true
      off n e = ground arith

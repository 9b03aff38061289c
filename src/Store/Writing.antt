-- ===== src/Store/Writing.antt =====
-- `writeFile` of internal/vault/store.go, call by call: what a crash between two calls leaves.
use joyvend_secretvault.Shared.{
  ℕ, ◌≡◌, refl, ◌⊎◌, inl, inr, if◌then◌else◌, Option, none, some, [], ◌∷◌, take, Option-cases,
  Bool-cases,
}
use joyvend_secretvault.Text.{Bytes}
use joyvend_secretvault.Store.{
  Io, Files, create_temp, rename_temp, remove_temp, write_temp, file_steps, write_steps,
}

abbrev pub before_writing : Option Bytes → Files
before_writing disk = record { path = disk; temp = none }

abbrev pub IsOldOrNew : Option Bytes → Bytes → Option Bytes → Type 0
IsOldOrNew disk file there = (there ≡ disk) ⊎ (there ≡ some file)

prefix_unrenamed :
    (n : ℕ) (b : Bytes) (disk : Option Bytes)
    → (file_steps
        (take n (create_temp ∷ write_temp b ∷ remove_temp ∷ []))
        (before_writing disk)).path
      ≡ disk
unfolding file_steps
prefix_unrenamed ℕ.zero b disk = refl
prefix_unrenamed (ℕ.suc ℕ.zero) b disk = refl
prefix_unrenamed (ℕ.suc (ℕ.suc ℕ.zero)) b disk = refl
prefix_unrenamed (ℕ.suc (ℕ.suc (ℕ.suc ℕ.zero))) b disk = refl
prefix_unrenamed (ℕ.suc (ℕ.suc (ℕ.suc (ℕ.suc n)))) b disk = refl

prefix_renamed :
    (n : ℕ) (b : Bytes) (disk : Option Bytes)
    → IsOldOrNew disk b
        (file_steps
          (take n (create_temp ∷ write_temp b ∷ rename_temp ∷ remove_temp ∷ []))
          (before_writing disk)).path
unfolding file_steps
prefix_renamed ℕ.zero b disk = inl refl
prefix_renamed (ℕ.suc ℕ.zero) b disk = inl refl
prefix_renamed (ℕ.suc (ℕ.suc ℕ.zero)) b disk = inl refl
prefix_renamed (ℕ.suc (ℕ.suc (ℕ.suc ℕ.zero))) b disk = inr refl
prefix_renamed (ℕ.suc (ℕ.suc (ℕ.suc (ℕ.suc ℕ.zero)))) b disk = inr refl
prefix_renamed (ℕ.suc (ℕ.suc (ℕ.suc (ℕ.suc (ℕ.suc n))))) b disk = inr refl

-- However the calls of `writeFile` end, and after any number of them, as after a crash: the path holds
-- the file that was there or the whole new one. After all of them it holds the new one if `writeFile`
-- succeeds and the old one if not, and no temporary file is left. (Its removal does not fail.)
pub file_steps-write_steps :
    (io : Io) (file : Bytes) (disk : Option Bytes) (n : ℕ)
    → IsOldOrNew disk file (file_steps (take n (write_steps io file).0) (before_writing disk)).path
      × (file_steps (write_steps io file).0 (before_writing disk)
          ≡ before_writing (if (write_steps io file).1 then some file else disk))
unfolding file_steps write_steps
file_steps-write_steps io file disk n = elim (Bool-cases io.created) [
  | inr f ↦ rw f (inl (nothing n), refl)
  | inl t ↦ elim (Option-cases io.write_stops) [
    | inr (m, e) ↦ rw (t, e) (inl (prefix_unrenamed n (take m file) disk), refl)
    | inl e ↦ elim (Bool-cases io.synced) [
      | inr f ↦ rw (t, e, f) (inl (prefix_unrenamed n file disk), refl)
      | inl synced ↦ elim (Bool-cases io.closed) [
        | inr f ↦ rw (t, e, synced, f) (inl (prefix_unrenamed n file disk), refl)
        | inl closed ↦ elim (Bool-cases io.renamed) [
          | inr f ↦ rw (t, e, synced, closed, f) (inl (prefix_unrenamed n file disk), refl)
          | inl renamed ↦ rw (t, e, synced, closed, renamed) (prefix_renamed n file disk, refl)
        ]
      ]
    ]
  ]
]
  where
    nothing : (n : ℕ) → (file_steps (take n []) (before_writing disk)).path ≡ disk
    nothing ℕ.zero = refl
    nothing (ℕ.suc n) = refl

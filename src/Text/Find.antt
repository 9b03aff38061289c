-- ===== src/Text/Find.antt =====
-- `bytes.Contains` as a concatenation.
use joyvend_secretvault.Shared.{◌≡◌, refl, ap, true, Bool-cases, inl, inr, [], ◌∷◌, ◌++◌, arith}
use joyvend_secretvault.Text.{Bytes, has_prefix, contains}
use joyvend_secretvault.Text.Affix.{has_prefix_sound, has_prefix-append}

pub contains-append : (pre sub post : Bytes) → contains (pre ++ (sub ++ post)) sub ≡ true
unfolding contains
contains-append [] [] [] = refl
contains-append [] [] (c ∷ post) = refl
contains-append [] (d ∷ sub) post = ground (arith, has_prefix-append (d ∷ sub) post)
contains-append (c ∷ pre) sub post = ground (arith, contains-append pre sub post)

pub contains_sound :
    (s sub : Bytes)
    → contains s sub ≡ true
    → (pre : Bytes) × (post : Bytes) × (s ≡ pre ++ (sub ++ post))
unfolding contains
contains_sound [] sub h = let (r, e) = has_prefix_sound [] sub h in ([], r, e)
contains_sound (c ∷ s) sub h = elim (Bool-cases (has_prefix (c ∷ s) sub)) [
  | inl here ↦ let (r, e) = has_prefix_sound (c ∷ s) sub here in ([], r, e)
  | inr later ↦
      let (pre, post, e) = contains_sound s sub (ground arith) in (c ∷ pre, post, ap (λ t. c ∷ t) e)
]

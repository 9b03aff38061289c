-- ===== src/Text/Affix.antt =====
-- Prefixes and suffixes as concatenations.
use joyvend_secretvault.Shared.{
  ◌-◌, ◌≤◌, ◌≡◌, refl, sym, ap, ◌∙◌, true, some, [], ◌∷◌, ◌++◌, arith, length, take, drop,
  length-append, take-append-drop, take-append_length, drop-append_length,
}
use joyvend_secretvault.Text.{
  Bytes, bytes_eq_iff, bytes_eq_refl, cut_prefix, has_prefix, has_suffix, trim_suffix,
}

-- `cut_prefix` finds a rest exactly if the text is the prefix and that rest.
pub cut_prefix_sound : (s p r : Bytes) → cut_prefix s p ≡ some r → s ≡ p ++ r
unfolding cut_prefix
cut_prefix_sound s [] r h = ground arith
cut_prefix_sound [] (d ∷ p) r h = ground arith
cut_prefix_sound (c ∷ s) (d ∷ p) r h = ground (arith, cut_prefix_sound s p r)

pub cut_prefix-append : (p r : Bytes) → cut_prefix (p ++ r) p ≡ some r
unfolding cut_prefix
cut_prefix-append [] r = refl
cut_prefix-append (d ∷ p) r = ground (arith, cut_prefix-append p r)

pub has_prefix-append : (p r : Bytes) → has_prefix (p ++ r) p ≡ true
unfolding has_prefix
has_prefix-append [] r = refl
has_prefix-append (d ∷ p) r = ground (arith, has_prefix-append p r)

pub has_prefix_sound : (s p : Bytes) → has_prefix s p ≡ true → (r : Bytes) × (s ≡ p ++ r)
unfolding has_prefix
has_prefix_sound s [] h = (s, refl)
has_prefix_sound [] (d ∷ p) h = cc
has_prefix_sound (c ∷ s) (d ∷ p) h =
    let (r, e) = has_prefix_sound s p (ground arith) in (r, ground arith)

pub has_suffix_sound :
    (s p : Bytes)
    → has_suffix s p ≡ true
    → (s ≡ take (length s - length p) s ++ p) × (length p ≤ length s)
unfolding has_suffix
has_suffix_sound s p h =
    let e : drop (length s - length p) s ≡ p = (bytes_eq_iff _ p).0 (ground arith) in
    (
      sym (take-append-drop (length s - length p) s)
          ∙ ap (λ t. take (length s - length p) s ++ t) e,
      ground arith,
    )

pub has_suffix-append : (r p : Bytes) → has_suffix (r ++ p) p ≡ true
unfolding has_suffix
has_suffix-append r p =
    let n : length (r ++ p) - length p ≡ length r = omega (arith, length-append r p) in
    let e : drop (length (r ++ p) - length p) (r ++ p) ≡ p = drop-append_length _ r p (sym n) in
    rw e (ground (arith, length-append r p, bytes_eq_refl p))

pub trim_suffix-append : (r p : Bytes) → trim_suffix (r ++ p) p ≡ r
unfolding trim_suffix
trim_suffix-append r p =
    let n : length (r ++ p) - length p ≡ length r = omega (arith, length-append r p) in
    rw (has_suffix-append r p) (take-append_length _ r p (sym n))

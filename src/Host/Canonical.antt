-- ===== src/Host/Canonical.antt =====
-- Spellings of a host that `normalizeHost` does not tell apart.
use joyvend_secretvault.Shared.{
  ℕ, zero, suc, ◌-◌, ◌≡◌, ◌≢◌, refl, ap, ◌∙◌, true, false, [], ◌∷◌, ◌++◌, map, arith, length, take,
  drop, all,
}
use joyvend_secretvault.Text.{
  Bytes, is_ascii, lower_byte, bytes_eq, has_suffix, trim_suffix, to_lower,
}
use joyvend_secretvault.Text.Affix.{trim_suffix-append}
use joyvend_secretvault.Net.{Parsers}
use joyvend_secretvault.Host.{dot, normalize_host}

length-lower : (s : Bytes) → length (map lower_byte s) ≡ length s
length-lower [] = refl
length-lower (c ∷ s) = ap suc (length-lower s)

take-lower : (n : ℕ) (s : Bytes) → take n (map lower_byte s) ≡ map lower_byte (take n s)
take-lower zero s = refl
take-lower (suc n) [] = refl
take-lower (suc n) (c ∷ s) = ap (λ t. lower_byte c ∷ t) (take-lower n s)

drop-lower : (n : ℕ) (s : Bytes) → drop n (map lower_byte s) ≡ map lower_byte (drop n s)
drop-lower zero s = refl
drop-lower (suc n) [] = refl
drop-lower (suc n) (c ∷ s) = drop-lower n s

lower_byte_idem : (c : ℕ) → lower_byte (lower_byte c) ≡ lower_byte c
lower_byte_idem c = ground arith

lower_idem : (s : Bytes) → map lower_byte (map lower_byte s) ≡ map lower_byte s
lower_idem [] = refl
lower_idem (c ∷ s) = cc (lower_byte_idem c, lower_idem s)

ascii-lower : (s : Bytes) → all is_ascii s ≡ true → all is_ascii (map lower_byte s) ≡ true
ascii-lower [] h = refl
ascii-lower (c ∷ s) h = ground (arith, ascii-lower s)

ascii-take : (n : ℕ) (s : Bytes) → all is_ascii s ≡ true → all is_ascii (take n s) ≡ true
ascii-take zero s h = refl
ascii-take (suc n) [] h = refl
ascii-take (suc n) (c ∷ s) h = ground (arith, ascii-take n s)

bytes_eq-dot-lower : (s : Bytes) → bytes_eq (map lower_byte s) dot ≡ bytes_eq s dot
unfolding bytes_eq
bytes_eq-dot-lower [] = refl
bytes_eq-dot-lower (c ∷ []) = ground arith
bytes_eq-dot-lower (c ∷ d ∷ s) = ground arith

trim_dot-lower :
    (s : Bytes) → trim_suffix (map lower_byte s) dot ≡ map lower_byte (trim_suffix s dot)
unfolding trim_suffix
trim_dot-lower s =
    let n = length s - length dot in
    rw (length-lower s, drop-lower n s, bytes_eq-dot-lower (drop n s), take-lower n s)
      (ground arith)

ascii-trim_dot : (s : Bytes) → all is_ascii s ≡ true → all is_ascii (trim_suffix s dot) ≡ true
unfolding trim_suffix
ascii-trim_dot s h = ground (arith, ascii-take (length s - length dot) s h)

trim_suffix_none : (s p : Bytes) → has_suffix s p ≡ false → trim_suffix s p ≡ s
unfolding trim_suffix
trim_suffix_none s p h = ground arith

normalize_host-lower :
    (p : Parsers) (h : Bytes)
    → all is_ascii h ≡ true
    → normalize_host p (map lower_byte h) ≡ normalize_host p h
unfolding normalize_host
normalize_host-lower p [] e = refl
normalize_host-lower p (c ∷ h) e =
    let same : to_lower p.unicode (trim_suffix (map lower_byte (c ∷ h)) dot)
        ≡ to_lower p.unicode (trim_suffix (c ∷ h) dot) =
      ap (to_lower p.unicode) (trim_dot-lower (c ∷ h))
      ∙ to_lower-lower p (trim_suffix (c ∷ h) dot) (ascii-trim_dot (c ∷ h) e) in
    rw same refl
  where
    to_lower-lower :
        (p : Parsers) (s : Bytes)
        → all is_ascii s ≡ true
        → to_lower p.unicode (map lower_byte s) ≡ to_lower p.unicode s
    to_lower-lower p s h = unfold to_lower in rw (ascii-lower s h, h) (lower_idem s)

normalize_host-dot :
    (p : Parsers) (h : Bytes)
    → h ≢ []
    → has_suffix h dot ≡ false
    → normalize_host p (h ++ dot) ≡ normalize_host p h
unfolding normalize_host
normalize_host-dot p [] some_byte e = absurd (some_byte refl)
normalize_host-dot p (c ∷ h) some_byte e =
    rw (trim_suffix-append (c ∷ h) dot, trim_suffix_none (c ∷ h) dot e) refl

dot-lower : (s : Bytes) → has_suffix (map lower_byte s) dot ≡ has_suffix s dot
unfolding has_suffix
dot-lower s =
    let n = length s - length dot in
    rw (length-lower s, drop-lower n s, bytes_eq-dot-lower (drop n s)) refl

lower_nonempty : (h : Bytes) → h ≢ [] → map lower_byte h ≢ []
lower_nonempty [] n = absurd (n refl)
lower_nonempty (c ∷ h) n = λ e. cc

-- Neither the case of the letters of an ASCII host matters, nor one trailing dot, nor both, where the
-- host has another byte and no such dot already.
pub normalize_host_folds :
    (p : Parsers) (h : Bytes)
    → all is_ascii h ≡ true
    → h ≢ []
    → has_suffix h dot ≡ false
    → (normalize_host p (map lower_byte h) ≡ normalize_host p h)
      × (normalize_host p (h ++ dot) ≡ normalize_host p h)
      × (normalize_host p (map lower_byte h ++ dot) ≡ normalize_host p h)
normalize_host_folds p h ascii some_byte no_dot =
    let lower = normalize_host-lower p h ascii in
    (
      lower,
      normalize_host-dot p h some_byte no_dot,
      normalize_host-dot p (map lower_byte h) (lower_nonempty h some_byte) (dot-lower h ∙ no_dot)
          ∙ lower,
    )

-- ===== src/Host/Numeric.antt =====
-- What `looksNumericHost` tests, without its loop and flags.
use joyvend_secretvault.Shared.{
  ◌≡◌, refl, Bool, true, false, ◌&&◌, ◌||◌, [], ◌∷◌, arith, if◌then◌else◌, any, all,
}
use joyvend_secretvault.Text.{Bytes, text, has_prefix, is_digit}
use joyvend_secretvault.Host.{is_hexish, is_plain_letter, scan_numeric, looks_numeric_host}

abbrev pub is_numericish : Prim.Native.Nat.ℕ → Bool
is_numericish c = is_digit c || is_hexish c

scan_numeric_lem :
    (h : Bytes) (a d : Bool) → scan_numeric h a d ≡ (a && all is_numericish h, d || any is_digit h)
unfolding scan_numeric
scan_numeric_lem [] a d = ground arith
scan_numeric_lem (c ∷ h) a d = ground (
  arith,
  scan_numeric_lem h (if is_digit c || is_hexish c then a else false)
      (if is_digit c then true else d),
)

not_plain_of_numericish : (h : Bytes) → all is_numericish h ≡ true → any is_plain_letter h ≡ false
not_plain_of_numericish [] e = refl
not_plain_of_numericish (c ∷ h) e = ground (arith, not_plain_of_numericish h)

-- A host looks numeric exactly if it begins with "0x", or has a digit and consists of digits, dots,
-- the letters a to f and x. The search for the letters g to z never changes the answer.
pub looks_numeric_host_lem :
    (h : Bytes)
    → looks_numeric_host h ≡ has_prefix h (text "0x") || (any is_digit h && all is_numericish h)
unfolding looks_numeric_host
looks_numeric_host_lem h =
    rw (scan_numeric_lem h true false) (ground (arith, not_plain_of_numericish h))

-- ===== src/Net/HostPort.antt =====
-- `SplitHostPort` and `JoinHostPort` of Go's package `net`.
use joyvend_secretvault.Shared.{
  ℕ, ◌≡◌, refl, Bool, false, ◌||◌, Option, none, some, [], ◌∷◌, ◌++◌, arith, ◌==◌, if◌then◌else◌,
  any, Bool-cases, inl, inr,
}
use mathlib.Core.List.{append_assoc}
use joyvend_secretvault.Text.{Bytes}

abbrev pub is_bracket : ℕ → Bool
is_bracket c = c == b'[' || c == b']'

abbrev at_colon : ℕ → Bytes → Option (Bytes × Bytes) → Option (Bytes × Bytes)
at_colon c s (some (before, behind)) = some (c ∷ before, behind)
at_colon c s none = if c == b':' then some ([], s) else none

-- The parts before and behind the last colon.
abbrev cut_colon : Bytes → Option (Bytes × Bytes)
cut_colon [] = none
cut_colon (c ∷ s) = at_colon c s (cut_colon s)

abbrev cons_host : ℕ → Option Bytes → Option Bytes
cons_host c none = none
cons_host c (some h) = some (c ∷ h)

-- What stands between an opening bracket and the closing one at the end, without another bracket.
abbrev inside : Bytes → Option Bytes
inside [] = none
inside (c ∷ []) = if c == b']' then some [] else none
inside (c ∷ d ∷ s) = if is_bracket c then none else cons_host c (inside (d ∷ s))

abbrev pub has_colon : Bytes → Bool
has_colon = any (λ c. c == b':')

abbrev host_part : Bytes → Option Bytes
host_part [] = some []
host_part (c ∷ s) =
    if c == b'['
    then inside s
    else if has_colon (c ∷ s) || any is_bracket (c ∷ s)
    then none
    else some (c ∷ s)

abbrev with_port : Bytes → Option Bytes → Option (Bytes × Bytes)
with_port port none = none
with_port port (some host) = some (host, port)

abbrev split_cut : Option (Bytes × Bytes) → Option (Bytes × Bytes)
split_cut none = none
split_cut (some (before, port)) =
    if any is_bracket port then none else with_port port (host_part before)

-- net.SplitHostPort, with `none` for its errors
unfoldable pub split_host_port : Bytes → Option (Bytes × Bytes)
split_host_port s = split_cut (cut_colon s)

-- net.JoinHostPort
unfoldable pub join_host_port : Bytes → Bytes → Bytes
join_host_port host port =
    if has_colon host then b'[' ∷ (host ++ (b']' ∷ b':' ∷ port)) else host ++ (b':' ∷ port)

cut_none : (s : Bytes) → has_colon s ≡ false → cut_colon s ≡ none
cut_none [] h = refl
cut_none (c ∷ s) h = ground (arith, cut_none s)

cut-append :
    (before port : Bytes)
    → has_colon port ≡ false
    → cut_colon (before ++ b':' ∷ port) ≡ some (before, port)
cut-append [] port h = rw (cut_none port h) refl
cut-append (c ∷ before) port h = rw (cut-append before port h) refl

inside-append :
    (host : Bytes) → any is_bracket host ≡ false → inside (host ++ b']' ∷ []) ≡ some host
inside-append [] h = refl
inside-append (c ∷ []) h = ground arith
inside-append (c ∷ d ∷ s) h = ground (arith, inside-append (d ∷ s))

plain_host :
    (host : Bytes)
    → has_colon host ≡ false
    → any is_bracket host ≡ false
    → host_part host ≡ some host
plain_host [] h k = refl
plain_host (c ∷ s) h k = ground arith

-- The host may hold colons, as an IPv6 address does; brackets, or a port with a colon, may not occur.
pub split_host_port-join_host_port :
    (host port : Bytes)
    → any is_bracket host ≡ false
    → any is_bracket port ≡ false
    → has_colon port ≡ false
    → split_host_port (join_host_port host port) ≡ some (host, port)
unfolding split_host_port join_host_port
split_host_port-join_host_port host port h p q = elim (Bool-cases (has_colon host)) [
  | inl t ↦
      let cut : cut_colon (b'[' ∷ (host ++ (b']' ∷ b':' ∷ port)))
          ≡ some (b'[' ∷ (host ++ b']' ∷ []), port) =
        rw (← append_assoc host (b']' ∷ []) (b':' ∷ port))
          (cut-append (b'[' ∷ (host ++ b']' ∷ [])) port q) in
      rw (t, cut, p, inside-append host h) refl
  | inr f ↦ rw (f, cut-append host port q, p, plain_host host f h) refl
]

-- ===== src/Dial/Pinning.antt =====
-- What `resolveAndPin` guarantees of the address that is dialled.
use joyvend_secretvault.Shared.{
  ◌≡◌, refl, ◌↔◌, ◌⊎◌, inl, inr, Bool, true, false, none, some, List, [], ◌∷◌, arith, any, All, Any,
  ok, err, Option-cases,
}
use joyvend_secretvault.Text.{Bytes}
use joyvend_secretvault.Net.{Ip, Parsers}
use joyvend_secretvault.Model.{err_ssrf_blocked}
use joyvend_secretvault.Dial.{Deny, Resolver, pin_first, resolve_and_pin}

any-false_iff {ℓ} :
    {A : Type ℓ} (p : A → Bool) (xs : List A) → (any p xs ≡ false) ↔ All (λ x. p x ≡ false) xs
any-false_iff p [] = (λ _. tt, λ _. refl)
any-false_iff p (x ∷ xs) =
    let (to, from) = any-false_iff p xs in
    ((λ h. (ground arith, to (ground arith))), (λ h. ground (arith, from h.1)))

Any→any {ℓ} : {A : Type ℓ} (p : A → Bool) (xs : List A) → Any (λ x. p x ≡ true) xs → any p xs ≡ true
Any→any p [] h = absurd h
Any→any p (x ∷ xs) (inl e) = ground arith
Any→any p (x ∷ xs) (inr h) = ground (arith, Any→any p xs h)

pin_first-ok_iff :
    (deny : Deny) (priv : Bool) (ips : List Ip) (ip : Ip)
    → (pin_first deny priv ips ≡ ok ip)
      ↔ ((rest : List Ip) × (ips ≡ ip ∷ rest) × All (λ x. deny (some x) priv ≡ false) (ip ∷ rest))
unfolding pin_first
pin_first-ok_iff deny priv [] ip = ((λ h. cc), (λ (rest, e, _). cc))
pin_first-ok_iff deny priv (x ∷ rest) ip =
    let (to, from) = any-false_iff (λ y. deny (some y) priv) (x ∷ rest) in
    (
      (λ h. (
        rest,
        ground arith,
        (let same : x ≡ ip = ground arith in rw (← same) (to (ground arith))),
      )),
      (λ (others, e, h).
          let same : x ≡ ip = cc in
          let tails : rest ≡ others = cc in
          let clear : any (λ y. deny (some y) priv) (x ∷ rest) ≡ false =
            from (rw (same, tails) h) in
          ground arith),
    )

module _ (p : Parsers) (resolve : Resolver) (deny : Deny) (host : Bytes) (priv : Bool) where
  -- What may be dialled: a literal that is not denied, or the first address of a host of which no
  -- address is denied.
  abbrev pub IsPinned : Ip → Type 0
  IsPinned ip =
      ((p.parse_ip host ≡ some ip) × (deny (some ip) priv ≡ false))
      ⊎ ((p.parse_ip host ≡ none)
          × ((rest : List Ip) × (resolve host ≡ some (ip ∷ rest))
              × All (λ x. deny (some x) priv ≡ false) (ip ∷ rest)))

  -- An address is pinned exactly if it is the literal host and not denied, or the host is no
  -- literal, the address is the first that it resolves to, and none of those is denied.
  pub resolve_and_pin-ok_iff :
      (ip : Ip) → (resolve_and_pin p resolve deny host priv ≡ ok ip) ↔ IsPinned ip
  unfolding resolve_and_pin
  resolve_and_pin-ok_iff ip = elim (Option-cases (p.parse_ip host)) [
    | inr (lit, e) ↦ ((λ h. inl (ground arith, ground arith)), (λ h. ground arith))
    | inl e ↦ elim (Option-cases (resolve host)) [
      | inl f ↦ ((λ h. cc (rw (e, resolve_and_pin) at h)), (λ h. ground arith))
      | inr (ips, f) ↦
          let (to, from) = pin_first-ok_iff deny priv ips ip in
          (
            (λ h. let (rest, same, clear) = to (ground arith) in inr (e, (rest, cc, clear))),
            (λ h. elim h [
              | inl (g, _) ↦ absurd (cc (e, g))
              | inr (_, (rest, same, clear)) ↦ let back = from (rest, cc, clear) in ground arith
            ]),
          )
    ]
  ]

  -- One denied address among the answers is enough to block the request.
  pub resolve_and_pin_blocked :
      (ips : List Ip)
      → p.parse_ip host ≡ none
      → resolve host ≡ some ips
      → Any (λ x. deny (some x) priv ≡ true) ips
      → resolve_and_pin p resolve deny host priv ≡ err err_ssrf_blocked
  unfolding resolve_and_pin
  resolve_and_pin_blocked [] e f h = absurd h
  resolve_and_pin_blocked (x ∷ ips) e f h =
      rw (e, f, resolve_and_pin) (ground (arith, Any→any (λ y. deny (some y) priv) (x ∷ ips) h))

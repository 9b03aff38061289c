-- ===== src/Host/Allowlist.antt =====
-- The allowlist against a description by labels, the parts of a host name between its dots.
use joyvend_secretvault.Shared.{
  ℕ, ◌+◌, ◌<◌, ◌≡◌, ◌≢◌, refl, sym, ap, ◌∙◌, ◌↔◌, ◌⊎◌, inl, inr, Bool, true, false, ◌||◌, none,
  List, [], ◌∷◌, ◌++◌, arith, ◌==◌, Bool-cases, Option-cases, if◌then◌else◌, length, take,
  length-append, Any, Result, ok, err,
}
use mathlib.Core.List.{append_assoc}
use joyvend_secretvault.Text.{Bytes, bytes_eq_iff, cut_prefix, has_suffix}
use joyvend_secretvault.Text.Affix.{
  cut_prefix_sound, cut_prefix-append, has_suffix_sound, has_suffix-append,
}
use joyvend_secretvault.Net.{Parsers}
use joyvend_secretvault.Host.{
  HostError, dot, star_dot, normalize_pattern, pattern_admits, admits_if_ok, host_allowed,
}

abbrev pub onto_head : ℕ → List Bytes → List Bytes
onto_head c [] = (c ∷ []) ∷ []
onto_head c (l ∷ ls) = (c ∷ l) ∷ ls

-- strings.Split(host, ".")
unfoldable pub labels : Bytes → List Bytes
labels [] = [] ∷ []
labels (c ∷ s) = let rest = labels s in if c == b'.' then [] ∷ rest else onto_head c rest

-- strings.Join(labels, ".")
unfoldable pub join : List Bytes → Bytes
join [] = []
join (l ∷ []) = l
join (l ∷ m ∷ ls) = l ++ (dot ++ join (m ∷ ls))

labels_cons : (s : Bytes) → (l : Bytes) × (ls : List Bytes) × (labels s ≡ l ∷ ls)
unfolding labels
labels_cons [] = ([], [], refl)
labels_cons (c ∷ s) =
    let (l, ls, e) = labels_cons s in
    elim (Bool-cases (c == b'.')) [ inl t ↦ ([], labels s, rw t) | inr f ↦ (c ∷ l, ls, rw (f, e)) ]

join-onto_head : (c : ℕ) (l : Bytes) (ls : List Bytes) → join ((c ∷ l) ∷ ls) ≡ c ∷ join (l ∷ ls)
unfolding join
join-onto_head c l [] = refl
join-onto_head c l (m ∷ ls) = refl

join-labels : (s : Bytes) → join (labels s) ≡ s
unfolding labels join
join-labels [] = refl
join-labels (c ∷ s) =
    let (l, ls, e) = labels_cons s in
    let ih = join-labels s in ground (arith, e, ih, join-onto_head c l ls)

labels-append_dot : (s base : Bytes) → labels (s ++ (dot ++ base)) ≡ labels s ++ labels base
unfolding labels
labels-append_dot [] base = refl
labels-append_dot (c ∷ s) base =
    let (l, ls, e) = labels_cons s in ground (arith, e, labels-append_dot s base)

join-append :
    (l : Bytes) (ls : List Bytes) (m : Bytes) (ms : List Bytes)
    → join ((l ∷ ls) ++ (m ∷ ms)) ≡ join (l ∷ ls) ++ (dot ++ join (m ∷ ms))
unfolding join
join-append l [] m ms = refl
join-append l (k ∷ ls) m ms =
    ap (λ t. l ++ (dot ++ t)) (join-append k ls m ms)
    ∙ sym (append_assoc l (dot ++ join (k ∷ ls)) (dot ++ join (m ∷ ms)))

-- The host is the base with at least one more label in front. (The one empty label is not one.)
abbrev pub IsBelow : Bytes → Bytes → Type 0
IsBelow host base =
    (ls : List Bytes) × (labels host ≡ ls ++ labels base) × (ls ≢ []) × (ls ≢ [] ∷ [])

-- What a pattern in canonical form admits: the hosts below its base, or itself.
abbrev pub Admits : Bytes → Bytes → Type 0
Admits host np =
    ((base : Bytes) × (np ≡ star_dot ++ base) × IsBelow host base)
    ⊎ ((cut_prefix np star_dot ≡ none) × (host ≡ np))

IsBelow-of_suffix :
    (host base : Bytes)
    → has_suffix host (dot ++ base) ≡ true
    → length base + 1 < length host
    → IsBelow host base
IsBelow-of_suffix host base h long =
    let n = Prim.Native.Nat.◌-◌ (length host) (length (dot ++ base)) in
    let front = take n host in
    let e : host ≡ front ++ (dot ++ base) = (has_suffix_sound host (dot ++ base) h).0 in
    let size : length host ≡ length front + (1 + length base) =
      ap length e ∙ length-append front (dot ++ base) ∙ omega arith in
    (
      labels front,
      ap labels e ∙ labels-append_dot front base,
      (λ none_at_all. let (l, ls, q) = labels_cons front in cc (sym q ∙ none_at_all)),
      (λ empty.
          let nothing : front ≡ [] = sym (join-labels front) ∙ ap join empty ∙ join_empty in
          absurd (omega (arith, size, ap length nothing))),
    )
  where
    join_empty : join ([] ∷ []) ≡ []
    join_empty = unfold join in refl

suffix_of_below :
    (host base : Bytes)
    → IsBelow host base
    → (has_suffix host (dot ++ base) ≡ true) × (length base + 1 < length host)
suffix_of_below host base ([], e, some_label, more) = absurd (some_label refl)
suffix_of_below host base (l ∷ ls, e, some_label, more) =
    let (m, ms, q) = labels_cons base in
    let split : host ≡ join (l ∷ ls) ++ (dot ++ base) =
      sym (join-labels host)
      ∙ ap join (e ∙ ap (λ t. (l ∷ ls) ++ t) q)
      ∙ join-append l ls m ms
      ∙ ap (λ t. join (l ∷ ls) ++ (dot ++ t)) (ap join (sym q) ∙ join-labels base) in
    (
      rw split (has_suffix-append (join (l ∷ ls)) (dot ++ base)),
      omega
          (arith, ap length split, length-append (join (l ∷ ls)) (dot ++ base), join_pos l ls more),
    )
  where
    join_pos : (l : Bytes) (ls : List Bytes) → l ∷ ls ≢ [] ∷ [] → 0 < length (join (l ∷ ls))
    join_pos [] [] h = absurd (h refl)
    join_pos [] (m ∷ ls) h = unfold join in omega arith
    join_pos (c ∷ l) [] h = unfold join in omega arith
    join_pos (c ∷ l) (m ∷ ls) h = unfold join in omega arith

pattern_admits_iff : (host np : Bytes) → (pattern_admits host np ≡ true) ↔ Admits host np
unfolding pattern_admits
pattern_admits_iff host np = elim (Option-cases (cut_prefix np star_dot)) [
  | inl no_star ↦ (
    (λ h. inr (no_star, (bytes_eq_iff host np).0 (rw (no_star, pattern_admits) at h))),
    (λ a. elim a [
      | inl (base, e, below) ↦
          absurd (cc (no_star, ap (λ t. cut_prefix t star_dot) e, cut_prefix-append star_dot base))
      | inr (_, same) ↦ rw (no_star, pattern_admits) ((bytes_eq_iff host np).1 same)
    ]),
  )
  | inr (base, star) ↦ (
    (λ h. inl (
      base,
      cut_prefix_sound np star_dot base star,
      IsBelow-of_suffix host base (ground arith) (ground arith),
    )),
    (λ a. elim a [
      | inl (b, e, below) ↦
          let same : base ≡ b =
            cc (star, ap (λ t. cut_prefix t star_dot) e, cut_prefix-append star_dot b) in
          let (suffix, long) = suffix_of_below host b below in ground arith
      | inr (no_star, _) ↦ absurd (cc (star, no_star))
    ]),
  )
]

or_right : (b c : Bool) → b ≡ false → (b || c) ≡ true → c ≡ true
or_right b c f h = ground arith

or_left : (b c : Bool) → b ≡ true → (b || c) ≡ true
or_left b c t = ground arith

or_of_right : (b c : Bool) → c ≡ true → (b || c) ≡ true
or_of_right b c t = ground arith

admits_if_ok_iff :
    (host : Bytes) (r : Result HostError Bytes)
    → (admits_if_ok host r ≡ true) ↔ ((np : Bytes) × (r ≡ ok np) × Admits host np)
unfolding admits_if_ok
admits_if_ok_iff host (err e) = (λ h. absurd (cc h), λ (np, e, a). cc)
admits_if_ok_iff host (ok np) = (
  (λ h. (np, refl, (pattern_admits_iff host np).0 h)),
  (λ (m, e, a). let same : np ≡ m = cc in (pattern_admits_iff host np).1 (rw same a)),
)

-- A host is admitted exactly if some pattern has a canonical form that is the host itself, or that
-- is a wildcard "*.base" where the labels of the host are one or more labels and then those of base.
pub host_allowed_iff :
    (p : Parsers) (host : Bytes) (patterns : List Bytes)
    → (host_allowed p host patterns ≡ true)
      ↔ Any (λ pat. (np : Bytes) × (normalize_pattern p pat ≡ ok np) × Admits host np) patterns
unfolding host_allowed
host_allowed_iff p host [] = (λ h. cc, λ h. absurd h)
host_allowed_iff p host (pat ∷ patterns) =
    let (to, from) = admits_if_ok_iff host (normalize_pattern p pat) in
    let (later, earlier) = host_allowed_iff p host patterns in
    (
      (λ h. elim (Bool-cases (admits_if_ok host (normalize_pattern p pat))) [
        | inl t ↦ inl (to t)
        | inr f ↦ inr (later (or_right _ _ f h))
      ]),
      (λ a. elim a [
        | inl found ↦ or_left _ _ (from found)
        | inr rest ↦ or_of_right _ _ (earlier rest)
      ]),
    )

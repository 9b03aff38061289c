-- ===== src/Auth/Order.antt =====
-- `buildHeaders` ranges over a Go map, whose order is not fixed: headers as sets, without their order.
use mathlib.Core.Path.{fun_ext}
use mathlib.Core.Quot
use mathlib.Core.Quot.{Quot, Quot-set}
use mathlib.Core.Logic.{∥∥₁_elim}
use mathlib.Core.List.{Perm, Permᴰ}
use joyvend_secretvault.Shared.{
  ◌≡◌, refl, sym, ◌∙◌, ap, subst, Option, not, ◌||◌, some, List, [], ◌∷◌, arith, if◌then◌else◌,
  Result, ok, err, All,
}
use joyvend_secretvault.Text.{Bytes, bytes_eq, bytes_eq_iff, to_lower, trim_space, Unicode}
use joyvend_secretvault.Maps.{Map, lookup, lookup-insert}
use joyvend_secretvault.Model.{FetchError, err_bad_header}
use joyvend_secretvault.Auth.{
  Header, canonical_key, set_header, valid_header_field, valid_header_value, is_stripped,
  build_from, build_headers,
}

abbrev pub SameHeaders : Header → Header → Type 0
SameHeaders h h' = (k : Bytes) → lookup k h ≡ lookup k h'

-- Headers, without the order in which they were set.
abbrev pub HeaderSet : Type 0
HeaderSet = Quot SameHeaders

abbrev pub as_set : Result FetchError Header → Result FetchError HeaderSet
as_set (err e) = err e
as_set (ok h) = ok (Quot.mk h)

lookup-set_header :
    (k v : Bytes) (h : Header) (j : Bytes)
    → lookup j (set_header k v h)
      ≡ (if bytes_eq (canonical_key k) j then some (v ∷ []) else lookup j h)
unfolding set_header
lookup-set_header k v h j = lookup-insert (canonical_key k) j (v ∷ []) h

pub set_header-SameHeaders :
    (k v : Bytes) (h h' : Header)
    → SameHeaders h h'
    → SameHeaders (set_header k v h) (set_header k v h')
set_header-SameHeaders k v h h' same j =
    rw (lookup-set_header k v h j, lookup-set_header k v h' j, same j) refl

-- Two entries of the agent that would set the same header give it the same value.
abbrev pub Agree : Bytes × Bytes → Bytes × Bytes → Type 0
Agree (k, v) (j, w) = canonical_key k ≡ canonical_key j → v ≡ w

set_header-swap :
    (k v j w : Bytes) (h : Header)
    → Agree (k, v) (j, w)
    → SameHeaders (set_header k v (set_header j w h)) (set_header j w (set_header k v h))
set_header-swap k v j w h agree i =
    rw
      (
        lookup-set_header k v (set_header j w h) i,
        lookup-set_header j w h i,
        lookup-set_header j w (set_header k v h) i,
        lookup-set_header k v h i,
      )
      (ground (arith, agree, bytes_eq_iff (canonical_key k) i, bytes_eq_iff (canonical_key j) i))

-- What the loop does with an entry.
data Verdict : Type 0 where
  skip reject keep : Verdict

module _ (u : Unicode) (inj : Bytes) where
  abbrev verdict : Bytes × Bytes → Verdict
  verdict (k, v) =
      if is_stripped (to_lower u (trim_space u k)) inj
      then skip
      else if not (valid_header_field k) || not (valid_header_value v)
      then reject
      else keep

  abbrev Rest : Type 0
  Rest = Header → Result FetchError Header

  abbrev apply : Verdict → Bytes × Bytes → Header → Rest → Result FetchError Header
  apply skip (k, v) h rest = rest h
  apply reject (k, v) h rest = err err_bad_header
  apply keep (k, v) h rest = rest (set_header k v h)

  build_from-cons :
      (x : Bytes × Bytes) (agent : Map Bytes) (h : Header)
      → build_from u inj (x ∷ agent) h ≡ apply (verdict x) x h (build_from u inj agent)
  unfolding build_from
  build_from-cons (k, v) agent h = ground arith

  abbrev Respects : Rest → Type 0
  Respects rest = (h h' : Header) → SameHeaders h h' → as_set (rest h) ≡ as_set (rest h')

  apply-Respects :
      (d : Verdict) (x : Bytes × Bytes) (rest : Rest)
      → Respects rest
      → Respects (λ h. apply d x h rest)
  apply-Respects skip x rest r h h' same = r h h' same
  apply-Respects reject x rest r h h' same = refl
  apply-Respects keep (k, v) rest r h h' same =
      r (set_header k v h) (set_header k v h') (set_header-SameHeaders k v h h' same)

  apply-swap :
      (d e : Verdict) (x y : Bytes × Bytes) (h : Header) (rest : Rest)
      → Agree x y
      → Respects rest
      → as_set (apply d x h (λ g. apply e y g rest)) ≡ as_set (apply e y h (λ g. apply d x g rest))
  apply-swap skip e x y h rest agree r = refl
  apply-swap reject skip x y h rest agree r = refl
  apply-swap reject reject x y h rest agree r = refl
  apply-swap reject keep x y h rest agree r = refl
  apply-swap keep skip x y h rest agree r = refl
  apply-swap keep reject x y h rest agree r = refl
  apply-swap keep keep (k, v) (j, w) h rest agree r = sym (
      r (set_header k v (set_header j w h)) (set_header j w (set_header k v h))
        (set_header-swap k v j w h agree))

  build_from-Respects : (agent : Map Bytes) → Respects (build_from u inj agent)
  unfolding build_from
  build_from-Respects [] h h' same = ap ok (Quot.sound same)
  build_from-Respects (x ∷ agent) h h' same =
      ap as_set (build_from-cons x agent h)
      ∙ apply-Respects (verdict x) x (build_from u inj agent) (build_from-Respects agent) h h' same
      ∙ sym (ap as_set (build_from-cons x agent h'))

  build_from-cons_cons :
      (x y : Bytes × Bytes) (agent : Map Bytes) (h : Header)
      → build_from u inj (x ∷ y ∷ agent) h
        ≡ apply (verdict x) x h (λ g. apply (verdict y) y g (build_from u inj agent))
  build_from-cons_cons x y agent h =
      build_from-cons x (y ∷ agent) h
      ∙ ap (apply (verdict x) x h) (fun_ext (build_from-cons y agent))

  build_from-swap :
      (x y : Bytes × Bytes) (agent : Map Bytes) (h : Header)
      → Agree x y
      → as_set (build_from u inj (x ∷ y ∷ agent) h) ≡ as_set (build_from u inj (y ∷ x ∷ agent) h)
  build_from-swap x y agent h agree =
      ap as_set (build_from-cons_cons x y agent h)
      ∙ apply-swap (verdict x) (verdict y) x y h (build_from u inj agent) agree
          (build_from-Respects agent)
      ∙ sym (ap as_set (build_from-cons_cons y x agent h))

-- Agreement of all entries.
abbrev pub Consistent : Map Bytes → Type 0
Consistent agent = All (λ x. All (Agree x) agent) agent

All-map :
    {A : Type 0} {P Q : A → Type 0} → ((x : A) → P x → Q x) → (xs : List A) → All P xs → All Q xs
All-map f [] h = tt
All-map f (x ∷ xs) (p, h) = (f x p, All-map f xs h)

All-Permᴰ : {A : Type 0} (P : A → Type 0) {xs ys : List A} → Permᴰ xs ys → All P xs → All P ys
All-Permᴰ P Permᴰ.nil h = tt
All-Permᴰ P (Permᴰ.cons e d) (p, h) = (subst P e p, All-Permᴰ P d h)
All-Permᴰ P (Permᴰ.swap e f) (p, (q, h)) = (subst P f q, (subst P e p, h))
All-Permᴰ P (Permᴰ.trans d e) h = All-Permᴰ P e (All-Permᴰ P d h)

Consistent-Permᴰ : {xs ys : Map Bytes} → Permᴰ xs ys → Consistent xs → Consistent ys
Consistent-Permᴰ {xs} {ys} d h =
    All-Permᴰ (λ x. All (Agree x) ys) d (All-map (λ x. All-Permᴰ (Agree x) d) xs h)

Consistent-tail : (x : Bytes × Bytes) (xs : Map Bytes) → Consistent (x ∷ xs) → Consistent xs
Consistent-tail x xs (p, h) = All-map (λ y q. q.1) xs h

module _ (u : Unicode) (inj : Bytes) where
  apply-as_set :
      (d : Verdict) (x : Bytes × Bytes) (h : Header) (rest rest' : Rest u inj)
      → ((g : Header) → as_set (rest g) ≡ as_set (rest' g))
      → as_set (apply u inj d x h rest) ≡ as_set (apply u inj d x h rest')
  apply-as_set skip x h rest rest' same = same h
  apply-as_set reject x h rest rest' same = refl
  apply-as_set keep (k, v) h rest rest' same = same (set_header k v h)

  build_from-same_rest :
      (x : Bytes × Bytes) (xs ys : Map Bytes) (h : Header)
      → ((g : Header) → as_set (build_from u inj xs g) ≡ as_set (build_from u inj ys g))
      → as_set (build_from u inj (x ∷ xs) h) ≡ as_set (build_from u inj (x ∷ ys) h)
  build_from-same_rest x xs ys h same =
      ap as_set (build_from-cons u inj x xs h)
      ∙ apply-as_set (verdict u inj x) x h (build_from u inj xs) (build_from u inj ys) same
      ∙ sym (ap as_set (build_from-cons u inj x ys h))

  build_from-Permᴰ :
      {xs ys : Map Bytes}
      → Permᴰ xs ys
      → Consistent xs
      → (h : Header) → as_set (build_from u inj xs h) ≡ as_set (build_from u inj ys h)
  build_from-Permᴰ Permᴰ.nil c h = refl
  build_from-Permᴰ (Permᴰ.cons {a = a} {l₁ = xs} {l₂ = ys} e d) c h =
      rw (← e) (build_from-same_rest a xs ys h (build_from-Permᴰ d (Consistent-tail a xs c)))
  build_from-Permᴰ (Permᴰ.swap {a = a} {b = b} {l = agent} e f) c h =
      rw (← e, ← f) (build_from-swap u inj a b agent h c.0.1.0)
  build_from-Permᴰ (Permᴰ.trans d e) c h =
      build_from-Permᴰ d c h ∙ build_from-Permᴰ e (Consistent-Permᴰ d c) h

-- Whatever order the loop ranges over the agent's headers in, `buildHeaders` refuses them, or it makes
-- the same set of headers of them: provided that no two of the agent's names that stand for the same
-- header, as X-A and x-a do, come with different values.
pub build_headers-Perm :
    (u : Unicode) (inject_name : Bytes) (agent agent' : Map Bytes)
    → Perm agent agent'
    → Consistent agent
    → as_set (build_headers u agent inject_name) ≡ as_set (build_headers u agent' inject_name)
unfolding build_headers
build_headers-Perm u inject_name agent agent' p c =
    let set : IsSet (Result FetchError HeaderSet) = hlevel Quot-set in
    ∥∥₁_elim p (set _ _) (λ d. build_from-Permᴰ u (to_lower u (trim_space u inject_name)) d c [])

pub as_set-exact :
    (r r' : Result FetchError Header) (h : Header)
    → as_set r ≡ as_set r'
    → r ≡ ok h
    → (h' : Header) × (r' ≡ ok h') × SameHeaders h h'
as_set-exact r (err e) h same made = cc
as_set-exact r (ok h') h same made =
    let one : HeaderSet = Quot.mk h in
    let other : HeaderSet = Quot.mk h' in
    let sets : one ≡ other = cc (same, made) in (h', refl, (λ k. ap (get_values k) sets))
  where
    get_values : Bytes → HeaderSet → Option (List Bytes)
    get_values k = Quot.lift (hlevel) (lookup k) (λ a b q. q k)

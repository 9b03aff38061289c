-- ===== src/Store/Tamper.antt =====
-- What the hash chain of internal/vault/store.go detects.
use joyvend_secretvault.Shared.{
  ℕ, ◌+◌, ◌/◌, ◌%◌, ◌≡◌, ◌≢◌, refl, sym, ap, ◌∙◌, ◌++◌, none, List, [], ◌∷◌, map, arith, Bool-cases,
  inl, inr, ◌⊎◌, length, All, Any,
}
use mathlib.Core.List.{reverse, reverse_aux, reverse-reverse}
use mathlib.Core.Path.{ap₂}
use joyvend_secretvault.Text.{Bytes, bytes_eq, bytes_eq_iff}
use joyvend_secretvault.Model.{Decision, unset, AuditEntry}
use joyvend_secretvault.Codec.{encode_hex, hex_digit}
use joyvend_secretvault.Store.{Library, Store}
use joyvend_secretvault.Store.Audit.{
  decision_text, join_fields, last_hash, hashed_fields, audit_hash, verify_from, verify_audit,
}

abbrev NoNul : Bytes → Type 0
NoNul = All (λ c. c ≢ 0)

-- Behind a field stands nothing, or a zero byte.
abbrev IsTail : Bytes → Type 0
IsTail [] = Unit
IsTail (c ∷ s) = c ≡ 0

split_nul :
    (f g x y : Bytes)
    → NoNul f
    → NoNul g
    → IsTail x
    → IsTail y
    → f ++ x ≡ g ++ y
    → (f ≡ g) × (x ≡ y)
split_nul [] [] x y hf hg tx ty e = (refl, e)
split_nul [] (d ∷ g) [] y hf hg tx ty e = absurd (cc)
split_nul [] (d ∷ g) (c ∷ x) y hf (hd, hg) tx ty e = absurd (hd (ground arith))
split_nul (c ∷ f) [] x [] hf hg tx ty e = absurd (cc)
split_nul (c ∷ f) [] x (d ∷ y) (hc, hf) hg tx ty e = absurd (hc (ground arith))
split_nul (c ∷ f) (d ∷ g) x y (hc, hf) (hd, hg) tx ty e =
    let (same, rest) = split_nul f g x y hf hg tx ty (ground arith) in (ground arith, rest)

join_fields-IsTail : (fs : List Bytes) → IsTail (join_fields fs)
unfolding join_fields
join_fields-IsTail [] = tt
join_fields-IsTail (f ∷ fs) = refl

join_fields_injective :
    (fs gs : List Bytes) → All NoNul fs → All NoNul gs → join_fields fs ≡ join_fields gs → fs ≡ gs
unfolding join_fields
join_fields_injective [] [] hf hg e = refl
join_fields_injective [] (g ∷ gs) hf hg e = absurd (cc)
join_fields_injective (f ∷ fs) [] hf hg e = absurd (cc)
join_fields_injective (f ∷ fs) (g ∷ gs) (hf, hfs) (hg, hgs) e =
    let (same, rest) =
      split_nul f g (join_fields fs) (join_fields gs) hf hg (join_fields-IsTail fs)
        (join_fields-IsTail gs) (ground arith) in
    let later = join_fields_injective fs gs hfs hgs rest in ground arith

encode_hex-NoNul : (s : Bytes) → NoNul (encode_hex s)
unfolding encode_hex
encode_hex-NoNul [] = tt
encode_hex-NoNul (c ∷ s) = (hex_digit_pos (c / 16), (hex_digit_pos (c % 16), encode_hex-NoNul s))
  where
    hex_digit_pos : (n : ℕ) → hex_digit n ≢ 0
    hex_digit_pos n = ground arith

map-reverse_aux {ℓ κ} :
    {A : Type ℓ} {B : Type κ} (f : A → B) (l r : List A)
    → map f (reverse_aux l r) ≡ reverse_aux (map f l) (map f r)
map-reverse_aux f [] r = refl
map-reverse_aux f (x ∷ l) r = map-reverse_aux f l (x ∷ r)

All-reverse_aux {ℓ κ} :
    {A : Type ℓ} (P : A → Type κ) (l r : List A) → All P l → All P r → All P (reverse_aux l r)
All-reverse_aux P [] r hl hr = hr
All-reverse_aux P (x ∷ l) r (p, hl) hr = All-reverse_aux P l (x ∷ r) hl (p, hr)

Any-reverse_aux {ℓ} :
    {A : Type ℓ} (P : A → Type 0) (l r : List A) → Any P (reverse_aux l r) → Any P l ⊎ Any P r
Any-reverse_aux P [] r h = inr h
Any-reverse_aux P (x ∷ l) r h = elim (Any-reverse_aux P l (x ∷ r) h) [
  | inl a ↦ inl (inr a)
  | inr (inl p) ↦ inl (inl p)
  | inr (inr a) ↦ inr a
]

Any-reverse {ℓ} : {A : Type ℓ} (P : A → Type 0) (l : List A) → Any P (reverse l) → Any P l
Any-reverse P l h = elim (Any-reverse_aux P l [] h) [ inl a ↦ a | inr a ↦ absurd a ]

-- What a row records, but for its tier and its hashes.
abbrev pub recorded : AuditEntry → AuditEntry
recorded e = record e { tier = unset; prev_hash = []; hash = [] }

decision_text_injective : (a b : Decision) → decision_text a ≡ decision_text b → a ≡ b
unfolding decision_text
decision_text_injective a b e = ground arith

reverse_injective {ℓ} : {A : Type ℓ} (xs ys : List A) → reverse xs ≡ reverse ys → xs ≡ ys
reverse_injective xs ys e = sym (reverse-reverse xs) ∙ ap reverse e ∙ reverse-reverse ys

hex_some : (s : Bytes) → length s ≢ 0 → encode_hex s ≢ []
unfolding encode_hex
hex_some [] h e = h refl
hex_some (c ∷ s) h e = cc

abbrev head_hash : List AuditEntry → Bytes
head_hash [] = []
head_hash (e ∷ l) = e.hash

module _ (lib : Library) where
  -- A chain from its newest row on.
  abbrev IsChained : List AuditEntry → Type 0
  IsChained [] = Unit
  IsChained (e ∷ l) =
      (e.prev_hash ≡ head_hash l) × (e.hash ≡ audit_hash lib (head_hash l) e) × IsChained l

  verify_from-IsChained :
      (i : ℕ) (l older : List AuditEntry)
      → verify_from lib (head_hash older) i l ≡ none
      → IsChained older
      → IsChained (reverse_aux l older)
        × (head_hash (reverse_aux l older) ≡ last_hash (head_hash older) l)
  unfolding verify_from
  verify_from-IsChained i [] older h c = (c, refl)
  verify_from-IsChained i (e ∷ l) older h c =
      verify_from-IsChained (i + 1) l (e ∷ older) (ground arith) (
        (bytes_eq_iff e.prev_hash (head_hash older)).0 (ground arith),
        (bytes_eq_iff e.hash (audit_hash lib (head_hash older) e)).0 (ground arith),
        c,
      )

  -- The fields of the rows hold no zero byte. (Names, hosts and formats hold none; a method or a
  -- credential name of a request could.)
  abbrev pub HasPlainFields : AuditEntry → Type 0
  HasPlainFields e = All NoNul (hashed_fields lib e)

  -- A digest of SHA-256 has 32 bytes.
  abbrev pub HasDigests : Type 0
  HasDigests = (x : Bytes) → length (lib.sha256 x) ≡ 32

  -- Different numbers and different times have different texts.
  pub record HasFormats : Type 0 where
    pub show_int_injective : (m n : ℕ) → lib.show_int m ≡ lib.show_int n → m ≡ n
    pub format_time_injective : (m n : ℕ) → lib.format_time m ≡ lib.format_time n → m ≡ n

  same_record :
      (a b : AuditEntry)
      → HasFormats
      → hashed_fields lib a ≡ hashed_fields lib b
      → recorded a ≡ recorded b
  unfolding hashed_fields
  same_record a b formats e =
      let when = formats.format_time_injective a.time b.time (ground arith) in
      let what = decision_text_injective a.decision b.decision (ground arith) in
      let status = formats.show_int_injective a.status b.status (ground arith) in
      let size = formats.show_int_injective a.bytes b.bytes (ground arith) in
      let latency = formats.show_int_injective a.latency_ms b.latency_ms (ground arith) in
      ground arith

  same_records :
      (l m : List AuditEntry)
      → HasFormats
      → map (hashed_fields lib) l ≡ map (hashed_fields lib) m
      → map recorded l ≡ map recorded m
  same_records [] [] formats e = refl
  same_records [] (b ∷ m) formats e = cc
  same_records (a ∷ l) [] formats e = cc
  same_records (a ∷ l) (b ∷ m) formats e =
      ap₂ (λ x xs. x ∷ xs) (same_record a b formats (ground arith))
        (same_records l m formats (ground arith))

  -- The text whose digest a row records.
  abbrev pub hashed_text : AuditEntry → Bytes
  hashed_text e = e.prev_hash ++ join_fields (hashed_fields lib e)

  -- A text that is hashed for a row of one log, and another for a row of the other, with one digest.
  pub record Collision (l m : List AuditEntry) : Type 0 where
    pub left : Bytes
    pub right : Bytes
    pub in_left : Any (λ e. hashed_text e ≡ left) l
    pub in_right : Any (λ e. hashed_text e ≡ right) m
    pub distinct : left ≢ right
    pub same_digest : encode_hex (lib.sha256 left) ≡ encode_hex (lib.sha256 right)

  module _ (digests : HasDigests) where
    some_digest : (x : Bytes) → encode_hex (lib.sha256 x) ≢ []
    some_digest x e = hex_some (lib.sha256 x) (omega (arith, digests x)) e

    head_hash-NoNul : (l : List AuditEntry) → IsChained l → NoNul (head_hash l)
    head_hash-NoNul [] c = tt
    head_hash-NoNul (e ∷ l) (p, h, c) = unfold audit_hash in rw h (encode_hex-NoNul _)

    same_rows :
        (a b : AuditEntry) (l m : List AuditEntry)
        → IsChained (a ∷ l)
        → IsChained (b ∷ m)
        → HasPlainFields a
        → HasPlainFields b
        → head_hash l ++ join_fields (hashed_fields lib a)
          ≡ head_hash m ++ join_fields (hashed_fields lib b)
        → (head_hash l ≡ head_hash m) × (hashed_fields lib a ≡ hashed_fields lib b)
    same_rows a b l m (_, _, cl) (_, _, cm) fa fb e =
        let (prevs, fields) =
          split_nul (head_hash l) (head_hash m) _ _ (head_hash-NoNul l cl) (head_hash-NoNul m cm)
            (join_fields-IsTail (hashed_fields lib a)) (join_fields-IsTail (hashed_fields lib b))
            e in
        (prevs, join_fields_injective (hashed_fields lib a) (hashed_fields lib b) fa fb fields)

    chained_unique :
        (l m : List AuditEntry)
        → IsChained l
        → IsChained m
        → All HasPlainFields l
        → All HasPlainFields m
        → head_hash l ≡ head_hash m
        → (map (hashed_fields lib) l ≡ map (hashed_fields lib) m) ⊎ Collision l m
    unfolding audit_hash
    chained_unique [] [] cl cm pl pm e = inl refl
    chained_unique [] (b ∷ m) cl (_, h, cm) pl pm e = absurd (some_digest _ (sym (e ∙ h)))
    chained_unique (a ∷ l) [] (_, h, cl) cm pl pm e = absurd (some_digest _ (sym h ∙ e))
    chained_unique (a ∷ l) (b ∷ m) (qa, ha, cl) (qb, hb, cm) (fa, pl) (fb, pm) e =
        let x = head_hash l ++ join_fields (hashed_fields lib a) in
        let y = head_hash m ++ join_fields (hashed_fields lib b) in
        elim (Bool-cases (bytes_eq x y)) [
          | inr differ ↦ inr (record {
            left = x;
            right = y;
            in_left = inl (ap (λ p. p ++ join_fields (hashed_fields lib a)) qa);
            in_right = inl (ap (λ p. p ++ join_fields (hashed_fields lib b)) qb);
            distinct = λ same. cc ((bytes_eq_iff x y).1 same, differ);
            same_digest = sym ha ∙ e ∙ hb;
          })
          | inl equal ↦
              let (prevs, here) =
                same_rows a b l m (qa, ha, cl) (qb, hb, cm) fa fb ((bytes_eq_iff x y).0 equal) in
              elim (chained_unique l m cl cm pl pm prevs) [
                | inl later ↦ inl (ap₂ (λ z zs. z ∷ zs) here later)
                | inr c ↦ inr (record {
                  left = c.left;
                  right = c.right;
                  in_left = inr c.in_left;
                  in_right = inr c.in_right;
                  distinct = c.distinct;
                  same_digest = c.same_digest;
                })
              ]
        ]

    -- Two logs that verify, with plain fields and the same last hash, record the same rows in the
    -- same order, in all fields but the tier and the hashes, or a text that was hashed for a row of the
    -- one and a different text that was hashed for a row of the other have one digest. It is assumed that digests have 32 bytes
    -- and that different numbers and times are printed differently.
    pub last_hash-determines :
        (s t : Store)
        → HasFormats
        → verify_audit lib s ≡ none
        → verify_audit lib t ≡ none
        → All HasPlainFields s.doc.audit
        → All HasPlainFields t.doc.audit
        → last_hash [] s.doc.audit ≡ last_hash [] t.doc.audit
        → (map recorded s.doc.audit ≡ map recorded t.doc.audit) ⊎ Collision s.doc.audit t.doc.audit
    unfolding verify_audit
    last_hash-determines s t formats hs ht ps pt e =
        let (cs, es) = verify_from-IsChained 0 s.doc.audit [] hs tt in
        let (ct, et) = verify_from-IsChained 0 t.doc.audit [] ht tt in
        let rows = hashed_fields lib in
        elim (chained_unique (reverse s.doc.audit) (reverse t.doc.audit) cs ct
          (All-reverse_aux HasPlainFields s.doc.audit [] ps tt)
          (All-reverse_aux HasPlainFields t.doc.audit [] pt tt) (es ∙ e ∙ sym et)) [
            | inr c ↦ inr (record {
              left = c.left;
              right = c.right;
              in_left = Any-reverse (λ r. hashed_text r ≡ c.left) s.doc.audit c.in_left;
              in_right = Any-reverse (λ r. hashed_text r ≡ c.right) t.doc.audit c.in_right;
              distinct = c.distinct;
              same_digest = c.same_digest;
            })
            | inl same ↦
                let flipped = reverse_injective (map rows s.doc.audit) (map rows t.doc.audit) (
                  sym (map-reverse_aux rows s.doc.audit [])
                  ∙ same
                  ∙ map-reverse_aux rows t.doc.audit []) in
                inl (same_records s.doc.audit t.doc.audit formats flipped)
          ]

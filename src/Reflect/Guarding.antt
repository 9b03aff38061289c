-- ===== src/Reflect/Guarding.antt =====
-- What the reflect-guard finds, and what it lets through.
use joyvend_secretvault.Shared.{
  ℕ, ◌+◌, ◌≤◌, ◌≡◌, refl, ◌∙◌, inl, inr, Bool, true, false, ◌&&◌, ◌||◌, none, some, List, [], ◌∷◌,
  ◌++◌, arith, if◌then◌else◌, length, any, is_empty, Bool-cases, Any,
}
use joyvend_secretvault.Text.{Bytes, bytes_eq, bytes_eq_iff, bytes_eq_refl, contains}
use joyvend_secretvault.Text.Find.{contains-append}
use joyvend_secretvault.Maps.{lookup, lookup-erase}
use joyvend_secretvault.Codec.{std, url, encode_base64, encode_hex, query_escape}
use joyvend_secretvault.Auth.{Header, canonical_key, del_header}
use joyvend_secretvault.Reflect.{
  add_needle, encodings, add_all, needles_from, secret_needles, contains_any, guard_from,
  reflect_guard_headers,
}

abbrev is_in : Bytes → List Bytes → Bool
is_in b out = any (bytes_eq b) out

any-append {ℓ} :
    {A : Type ℓ} (p : A → Bool) (xs ys : List A) → any p (xs ++ ys) ≡ any p xs || any p ys
any-append p [] ys = refl
any-append p (x ∷ xs) ys = ground (arith, any-append p xs ys)

is_in-add_needle :
    (b c : Bytes) (out : List Bytes) → is_in b out ≡ true → is_in b (add_needle c out) ≡ true
unfolding add_needle
is_in-add_needle b c out h = ground (arith, any-append (bytes_eq b) out (c ∷ []))

add_needle_self : (b : Bytes) (out : List Bytes) → 6 ≤ length b → is_in b (add_needle b out) ≡ true
unfolding add_needle
add_needle_self b out h = ground (arith, any-append (bytes_eq b) out (b ∷ []), bytes_eq_refl b)

is_in-add_all :
    (b : Bytes) (bs out : List Bytes) → is_in b out ≡ true → is_in b (add_all bs out) ≡ true
unfolding add_all
is_in-add_all b [] out h = h
is_in-add_all b (c ∷ bs) out h = is_in-add_all b bs (add_needle c out) (is_in-add_needle b c out h)

add_all_self :
    (b : Bytes) (bs out : List Bytes)
    → 6 ≤ length b
    → Any (λ x. x ≡ b) bs
    → is_in b (add_all bs out) ≡ true
unfolding add_all
add_all_self b [] out h m = absurd m
add_all_self b (c ∷ bs) out h (inl e) =
    is_in-add_all b bs (add_needle c out) (rw e (add_needle_self b out h))
add_all_self b (c ∷ bs) out h (inr m) = add_all_self b bs (add_needle c out) h m

is_in-needles_from :
    (b : Bytes) (injected out : List Bytes)
    → is_in b out ≡ true
    → is_in b (needles_from injected out) ≡ true
unfolding needles_from
is_in-needles_from b [] out h = h
is_in-needles_from b (v ∷ injected) out h =
    is_in-needles_from b injected _ (ground (arith, is_in-add_all b (encodings v) out))

is_in-secret_needles :
    (v b : Bytes) (injected out : List Bytes)
    → Any (λ x. x ≡ v) injected
    → is_empty v ≡ false
    → Any (λ x. x ≡ b) (encodings v)
    → 6 ≤ length b
    → is_in b (needles_from injected out) ≡ true
unfolding needles_from
is_in-secret_needles v b [] out m some_byte e h = absurd m
is_in-secret_needles v b (w ∷ injected) out (inl same) some_byte e h =
    is_in-needles_from b injected _ (rw (same, some_byte) (add_all_self b (encodings v) out h e))
is_in-secret_needles v b (w ∷ injected) out (inr m) some_byte e h =
    is_in-secret_needles v b injected _ m some_byte e h

contains_any_of_is_in :
    (body b : Bytes) (needles : List Bytes)
    → is_in b needles ≡ true
    → contains body b ≡ true
    → contains_any body needles ≡ true
unfolding contains_any
contains_any_of_is_in body b [] m h = cc
contains_any_of_is_in body b (n ∷ needles) m h =
    ground (arith, bytes_eq_iff b n, contains_any_of_is_in body b needles)

-- The encodings that are looked for, by themselves.
pub data Encoding : Type 0 where
  plain : Encoding
  std_padded : Encoding
  std_unpadded : Encoding
  url_padded : Encoding
  url_unpadded : Encoding
  lower_hex : Encoding
  query : Encoding

abbrev pub encode_as : Encoding → Bytes → Bytes
encode_as plain v = v
encode_as std_padded v = encode_base64 std true v
encode_as std_unpadded v = encode_base64 std false v
encode_as url_padded v = encode_base64 url true v
encode_as url_unpadded v = encode_base64 url false v
encode_as lower_hex v = encode_hex v
encode_as query v = query_escape v

encodings-encode_as : (e : Encoding) (v : Bytes) → Any (λ x. x ≡ encode_as e v) (encodings v)
encodings-encode_as plain v = inl refl
encodings-encode_as std_padded v = inr (inl refl)
encodings-encode_as std_unpadded v = inr (inr (inl refl))
encodings-encode_as url_padded v = inr (inr (inr (inl refl)))
encodings-encode_as url_unpadded v = inr (inr (inr (inr (inl refl))))
encodings-encode_as lower_hex v = inr (inr (inr (inr (inr (inl refl)))))
encodings-encode_as query v = inr (inr (inr (inr (inr (inr (inl refl))))))

-- A text that holds an injected value as it is, in base64 (standard or URL alphabet, padded or not),
-- in hexadecimal or as a query escape, and with at least six bytes in that encoding, is found, whatever
-- stands around it.
pub contains_any-secret_needles :
    (e : Encoding) (v pre post : Bytes) (injected : List Bytes)
    → Any (λ x. x ≡ v) injected
    → is_empty v ≡ false
    → 6 ≤ length (encode_as e v)
    → contains_any (pre ++ (encode_as e v ++ post)) (secret_needles injected) ≡ true
unfolding secret_needles
contains_any-secret_needles e v pre post injected m some_byte h =
    contains_any_of_is_in (pre ++ (encode_as e v ++ post)) (encode_as e v)
      (needles_from injected [])
      (is_in-secret_needles v (encode_as e v) injected [] m some_byte (encodings-encode_as e v) h)
      (contains-append pre (encode_as e v) post)

-- A header that echoes a needle.
abbrev pub echoes : List Bytes → List Bytes → Bool
echoes needles values = any (λ v. contains_any v needles) values

abbrev dirty_at : List Bytes → Bytes → Bytes × List Bytes → Bool
dirty_at needles j (k, values) = bytes_eq (canonical_key k) j && echoes needles values

lookup-del_header :
    (k j : Bytes) (h : Header)
    → lookup j (del_header k h) ≡ (if bytes_eq (canonical_key k) j then none else lookup j h)
unfolding del_header
lookup-del_header k j h = lookup-erase (canonical_key k) j h

guard_step :
    (needles : List Bytes) (rest h : Header) (n : ℕ) (k j : Bytes) (dirty later : Bool)
    → ((g : Header) (m : ℕ)
        → lookup j (guard_from needles rest (g, m)).0 ≡ (if later then none else lookup j g))
    → lookup j (guard_from needles rest (if dirty then (del_header k h, n + 1) else (h, n))).0
      ≡ (if bytes_eq (canonical_key k) j && dirty || later then none else lookup j h)
guard_step needles rest h n k j true later ih =
    ih (del_header k h) (n + 1) ∙ ground (arith, lookup-del_header k j h)
guard_step needles rest h n k j false later ih = ih h n ∙ ground arith

lookup-guard_from :
    (needles : List Bytes) (rest h : Header) (n : ℕ) (j : Bytes)
    → lookup j (guard_from needles rest (h, n)).0
      ≡ (if any (dirty_at needles j) rest then none else lookup j h)
unfolding guard_from
lookup-guard_from needles [] h n j = refl
lookup-guard_from needles ((k, values) ∷ rest) h n j =
    guard_step needles rest h n k j (echoes needles values) (any (dirty_at needles j) rest)
      (λ g m. lookup-guard_from needles rest g m j)

clean_of_lookup :
    (needles : List Bytes) (h : Header) (j : Bytes) (values : List Bytes)
    → canonical_key j ≡ j
    → any (dirty_at needles j) h ≡ false
    → lookup j h ≡ some values
    → echoes needles values ≡ false
unfolding lookup
clean_of_lookup needles [] j values canonical clean found = cc
clean_of_lookup needles ((k, vs) ∷ h) j values canonical clean found =
    elim (Bool-cases (bytes_eq k j)) [
      | inl same ↦
          let key : k ≡ j = (bytes_eq_iff k j).0 same in
          let vals : vs ≡ values = ground arith in
          let match : bytes_eq (canonical_key k) j ≡ true = rw (key, canonical) (bytes_eq_refl j) in
          rw (← vals) (ground arith)
      | inr differ ↦ clean_of_lookup needles h j values canonical (ground arith) (ground arith)
    ]

-- A header that is left under a canonical name was in the response, and none of its values holds a
-- needle.
pub lookup-reflect_guard_headers :
    (h : Header) (needles : List Bytes) (j : Bytes) (values : List Bytes)
    → canonical_key j ≡ j
    → lookup j (reflect_guard_headers h needles).0 ≡ some values
    → (lookup j h ≡ some values) × (echoes needles values ≡ false)
unfolding reflect_guard_headers
lookup-reflect_guard_headers h needles j values canonical found =
    let e = lookup-guard_from needles h h 0 j in
    elim (Bool-cases (any (dirty_at needles j) h)) [
      | inl dirty ↦ absurd (ground arith)
      | inr clean ↦
          let there : lookup j h ≡ some values = ground arith in
          (there, clean_of_lookup needles h j values canonical clean there)
    ]

-- ===== src/Secret/Sealing.antt =====
-- Round trips of the sealed file, from what AES-GCM and argon2id document.
use joyvend_secretvault.Shared.{
  ℕ, ◌+◌, ◌≤◌, ◌≡◌, refl, sym, ap, ◌∙◌, true, false, Option, none, some, ◌++◌, arith, leb, ltb,
  Bool-cases, inl, inr, length, take, drop, length-append, length-take, take-append-drop,
  take-append_length, drop-append_length, take-append_le, take-drop-append_le, ok, >>=-eq-ok,
  from_option,
}
use joyvend_secretvault.Text.{Bytes, bytes_eq, bytes_eq_iff}
use joyvend_secretvault.Secret.{
  Primitives, Keyring, SecretError, magic, wrong_password, gcm, seal, open_body, open_file,
}

-- What the packages document: opening inverts sealing under one key and nonce, a sealed text is 16
-- bytes longer, argon2id gives the 32 bytes that are asked for, and AES accepts a key of 32 bytes.
pub record IsAead (c : Primitives) : Type 0 where
  pub opens : (key nonce pt : Bytes) → c.gcm_open key nonce (c.gcm_seal key nonce pt) ≡ some pt
  pub overhead : (key nonce pt : Bytes) → length (c.gcm_seal key nonce pt) ≡ length pt + 16
  pub kek_len : (password salt : Bytes) → length (c.derive_kek password salt) ≡ 32
  pub accepts : (key : Bytes) → length key ≡ 32 → c.valid_key key ≡ true

module _ (c : Primitives) where
  -- The header of the keyring wraps its DEK under the password.
  pub record Wraps (password : Bytes) (k : Keyring) : Type 0 where
    pub size : length k.header ≡ 80
    pub marked : take 4 k.header ≡ magic
    pub usable : c.valid_key k.dek ≡ true
    pub kek_usable : c.valid_key (c.derive_kek password (take 16 (drop 4 k.header))) ≡ true
    pub unwraps :
        c.gcm_open
          (c.derive_kek password (take 16 (drop 4 k.header)))
          (take 12 (drop 20 k.header))
          (take 48 (drop 32 k.header))
        ≡ some k.dek

pub long_enough : (n : ℕ) (xs : Bytes) → ltb (length xs) n ≡ false → n ≤ length xs
long_enough n xs h = ground arith

pub length-take_long : (n : ℕ) (xs : Bytes) → ltb (length xs) n ≡ false → length (take n xs) ≡ n
length-take_long n xs h = omega (arith, length-take n xs, long_enough n xs h)

pub gcm_of_valid : (c : Primitives) (key : Bytes) → c.valid_key key ≡ true → gcm c key ≡ ok key
unfolding gcm
gcm_of_valid c key h = rw h

leb-append : (n : ℕ) (xs ys : Bytes) → length xs ≡ n → leb n (length (xs ++ ys)) ≡ true
leb-append n xs ys h = ground (arith, length-append xs ys)

not_short : (n : ℕ) (xs ys : Bytes) → length xs ≡ n → ltb (length (xs ++ ys)) n ≡ false
not_short n xs ys h = ground (arith, length-append xs ys)

module _ (c : Primitives) (laws : IsAead c) where
  pub open_body-seal :
      (k : Keyring) (nonce pt : Bytes)
      → c.valid_key k.dek ≡ true
      → length nonce ≡ 12
      → open_body c k (nonce ++ c.gcm_seal k.dek nonce pt) ≡ ok pt
  unfolding open_body
  open_body-seal k nonce pt good n =
      let ct = c.gcm_seal k.dek nonce pt in
      rw (leb-append 12 nonce ct n, gcm_of_valid c k.dek good)
        (rw (take-append_length 12 nonce ct n, drop-append_length 12 nonce ct n)
          (rw (laws.opens k.dek nonce pt)))

  -- A keyring that wraps its DEK under the password seals files that the password opens, to the
  -- keyring itself and the text that was sealed.
  pub open_file-seal :
      (password : Bytes) (k : Keyring) (nonce pt : Bytes)
      → Wraps c password k
      → length nonce ≡ 12
      → (file : Bytes) × (seal c k (some nonce) pt ≡ ok file)
        × (open_file c password file ≡ ok (k, pt))
  unfolding seal open_file
  open_file-seal password k nonce pt w n =
      let rest = nonce ++ c.gcm_seal k.dek nonce pt in
      let front = λ (m j : ℕ) (h : j + m ≤ 80).
        take-drop-append_le m j k.header rest (omega (arith, w.size)) in
      (
        k.header ++ rest,
        rw (gcm_of_valid c k.dek w.usable) refl,
        rw
            (
              not_short 80 k.header rest w.size,
              take-append_le 4 k.header rest (omega (arith, w.size)),
              w.marked,
            )
            (rw
              (
                front 16 4 (omega arith),
                front 12 20 (omega arith),
                front 48 32 (omega arith),
                gcm_of_valid c _ w.kek_usable,
                w.unwraps,
              )
              (rw
                (
                  drop-append_length 80 k.header rest w.size,
                  take-append_length 80 k.header rest w.size,
                )
                (rw (open_body-seal k nonce pt w.usable n)))),
      )

  valid_of_gcm : (key key' : Bytes) → gcm c key ≡ ok key' → (key ≡ key') × (c.valid_key key ≡ true)
  unfolding gcm
  valid_of_gcm key key' h = ground arith

  open_body_valid :
      (k : Keyring) (body : Bytes) {pt : Bytes}
      → open_body c k body ≡ ok pt
      → c.valid_key k.dek ≡ true
  unfolding open_body gcm
  open_body_valid k body h = ground arith

  some_of_ok :
      (o : Option Bytes) (e : SecretError) {a : Bytes} → from_option o e ≡ ok a → o ≡ some a
  some_of_ok none e h = cc
  some_of_ok (some b) e h = cc

  opened_Wraps :
      (password file dek kek : Bytes) (k : Keyring)
      → ltb (length file) 80 ≡ false
      → take 4 file ≡ magic
      → gcm c (c.derive_kek password (take 16 (drop 4 file))) ≡ ok kek
      → from_option
          (c.gcm_open kek (take 12 (drop 20 file)) (take 48 (drop 32 file)))
          wrong_password
        ≡ ok dek
      → c.valid_key dek ≡ true
      → k ≡ record { dek = dek; header = take 80 file }
      → Wraps c password k
  opened_Wraps password file dek kek k long marked made unwrapped usable e =
      let size : length (take 80 file) ≡ 80 = length-take_long 80 file long in
      let whole = take-append-drop 80 file in
      let front = λ (m j : ℕ) (h : j + m ≤ 80).
        ap (λ t. take m (drop j t)) (sym whole)
        ∙ take-drop-append_le m j (take 80 file) (drop 80 file) (omega (arith, size)) in
      let start =
        ap (take 4) (sym whole)
        ∙ take-append_le 4 (take 80 file) (drop 80 file) (omega (arith, size)) in
      let (same, kek_usable) = valid_of_gcm _ kek made in
      rw e (record {
        size = size;
        marked = sym start ∙ marked;
        usable = usable;
        kek_usable = rw (← front 16 4 (omega arith)) kek_usable;
        unwraps =
            rw
              (
                ← front 16 4 (omega arith),
                ← front 12 20 (omega arith),
                ← front 48 32 (omega arith),
                same,
              )
              (some_of_ok _ wrong_password unwrapped);
      })

  -- What opens under a password can be sealed again with another text, and that password opens the
  -- new file.
  pub open_file-Wraps :
      (password file : Bytes) (k : Keyring) (pt : Bytes)
      → open_file c password file ≡ ok (k, pt)
      → Wraps c password k
  unfolding open_file
  open_file-Wraps password file k pt h = elim (Bool-cases (ltb (length file) 80)) [
    | inl short ↦ cc (rw (short) at h)
    | inr long ↦ elim (Bool-cases (bytes_eq (take 4 file) magic)) [
      | inr unmarked ↦ cc (rw (long, unmarked) at h)
      | inl marked ↦
          let (kek, made, h₁) = >>=-eq-ok _ _ (rw (long, marked) at h) in
          let (dek, unwrapped, h₂) = >>=-eq-ok _ _ h₁ in
          let (body, opened, h₃) = >>=-eq-ok _ _ h₂ in
          opened_Wraps password file dek kek k long ((bytes_eq_iff _ _).0 marked) made unwrapped
            (open_body_valid _ _ opened) (ground arith)
    ]
  ]

  -- What opens under a password can be sealed again with another text under a fresh nonce, and the
  -- password opens the new file to the same keyring and the new text.
  pub open_file-seal-open_file :
      (password file nonce new_text : Bytes) (k : Keyring) (pt : Bytes)
      → open_file c password file ≡ ok (k, pt)
      → length nonce ≡ 12
      → (resealed : Bytes) × (seal c k (some nonce) new_text ≡ ok resealed)
        × (open_file c password resealed ≡ ok (k, new_text))
  open_file-seal-open_file password file nonce new_text k pt h n =
      open_file-seal password k nonce new_text (open_file-Wraps password file k pt h) n

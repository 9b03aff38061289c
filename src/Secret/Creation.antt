-- ===== src/Secret/Creation.antt =====
-- The first file of a vault, and the headerless files of the suite.
use joyvend_secretvault.Shared.{
  ℕ, ◌+◌, ◌≡◌, refl, ap, ◌∙◌, true, some, [], ◌++◌, arith, leb, ◌==◌, if◌then◌else◌, length, take,
  drop, length-append, take_of_le, take-append_length, drop-append_length, take-append_le, ok, err,
}
use mathlib.Core.List.{append_assoc}
use joyvend_secretvault.Text.{Bytes, bytes_eq}
use joyvend_secretvault.Secret.{
  Primitives, Keyring, Randoms, magic, standalone_file, seal, create, open_file, from_dek,
  open_sealed,
}
use joyvend_secretvault.Secret.Sealing.{
  IsAead, Wraps, gcm_of_valid, open_body-seal, open_file-seal, open_file-seal-open_file,
}

drop-append_append :
    (n : ℕ) (xs ys zs : Bytes) → length xs + length ys ≡ n → drop n (xs ++ (ys ++ zs)) ≡ zs
drop-append_append n xs ys zs h =
    rw (← append_assoc xs ys zs)
      (drop-append_length n (xs ++ ys) zs (omega (arith, h, length-append xs ys)))

-- The random bytes of a creation, in the lengths that the code asks for.
pub record Drawn : Type 0 where
  pub salt : Bytes
  pub dek : Bytes
  pub dek_nonce : Bytes
  pub body_nonce : Bytes
  pub salt_size : length salt ≡ 16
  pub dek_size : length dek ≡ 32
  pub dek_nonce_size : length dek_nonce ≡ 12
  pub body_nonce_size : length body_nonce ≡ 12

abbrev pub randoms : Drawn → Randoms
randoms d = record {
  salt = some d.salt;
  dek = some d.dek;
  dek_nonce = some d.dek_nonce;
  body_nonce = some d.body_nonce;
}

four_bytes : (nonce ct : Bytes) → length nonce ≡ 12 → leb 4 (length (nonce ++ ct)) ≡ true
four_bytes nonce ct n = ground (arith, length-append nonce ct)

right_size : (dek : Bytes) → length dek ≡ 32 → (length dek == 32) ≡ true
right_size dek h = ground arith

module _ (c : Primitives) (laws : IsAead c) where
  abbrev pub first_keyring : Drawn → Bytes → Keyring
  first_keyring d password = record {
    dek = d.dek;
    header =
        magic
        ++ (d.salt ++ (d.dek_nonce ++ c.gcm_seal (c.derive_kek password d.salt) d.dek_nonce d.dek));
  }

  first_keyring-Wraps : (d : Drawn) (password : Bytes) → Wraps c password (first_keyring d password)
  first_keyring-Wraps d password =
      let kek = c.derive_kek password d.salt in
      let wrapped = c.gcm_seal kek d.dek_nonce d.dek in
      let salt_at : take 16 (d.salt ++ (d.dek_nonce ++ wrapped)) ≡ d.salt =
        take-append_length 16 d.salt (d.dek_nonce ++ wrapped) d.salt_size in
      let nonce_at : take 12 (drop 16 (d.salt ++ (d.dek_nonce ++ wrapped))) ≡ d.dek_nonce =
        ap (take 12) (drop-append_length 16 d.salt (d.dek_nonce ++ wrapped) d.salt_size)
        ∙ take-append_length 12 d.dek_nonce wrapped d.dek_nonce_size in
      let wrapped_at : take 48 (drop 28 (d.salt ++ (d.dek_nonce ++ wrapped))) ≡ wrapped =
        ap (take 48) (
          drop-append_append 28 d.salt d.dek_nonce wrapped
            (omega (arith, d.salt_size, d.dek_nonce_size)))
        ∙ take_of_le 48 wrapped (omega (arith, laws.overhead kek d.dek_nonce d.dek, d.dek_size)) in
      record {
        size = omega (
          arith,
          length-append d.salt (d.dek_nonce ++ wrapped),
          length-append d.dek_nonce wrapped,
          laws.overhead kek d.dek_nonce d.dek,
          d.dek_size,
          d.salt_size,
          d.dek_nonce_size,
        );
        marked = refl;
        usable = laws.accepts d.dek d.dek_size;
        kek_usable = rw salt_at (laws.accepts kek (laws.kek_len password d.salt));
        unwraps = rw (salt_at, nonce_at, wrapped_at) (laws.opens kek d.dek_nonce d.dek);
      }

  -- A vault that is created under a password, when the random source delivers, is opened by that
  -- password: to the keyring of the creation and the text that was sealed.
  pub open_file-create :
      (d : Drawn) (password plaintext : Bytes)
      → (k : Keyring) × (file : Bytes) × (create c (randoms d) password plaintext ≡ ok (k, file))
        × (open_file c password file ≡ ok (k, plaintext))
  unfolding create
  open_file-create d password plaintext =
      let k = first_keyring d password in
      let (file, sealed, opened) =
        open_file-seal c laws password k d.body_nonce plaintext (first_keyring-Wraps d password)
          d.body_nonce_size in
      (
        k,
        file,
        rw (
          gcm_of_valid c (c.derive_kek password d.salt)
              (laws.accepts _ (laws.kek_len password d.salt)),
          sealed,
        ),
        opened,
      )

  -- A vault that is created under a password, when the random source delivers, is opened by that
  -- password, to the keyring of the creation and the text that was sealed; and what this keyring seals
  -- later, under a fresh nonce of 12 bytes, is opened by the same password, to the same keyring and the
  -- new text.
  pub open_file-seal-create :
      (d : Drawn) (password plaintext nonce new_text : Bytes)
      → length nonce ≡ 12
      → (k : Keyring) × (file : Bytes) × (resealed : Bytes) × (create c
            (randoms d)
            password
            plaintext
          ≡ ok (k, file))
        × (open_file c password file ≡ ok (k, plaintext))
        × (seal c k (some nonce) new_text ≡ ok resealed)
        × (open_file c password resealed ≡ ok (k, new_text))
  open_file-seal-create d password plaintext nonce new_text n =
      let (k, file, made, opened) = open_file-create d password plaintext in
      let (resealed, sealed, reopened) =
        open_file-seal-open_file c laws password file nonce new_text k plaintext opened n in
      (k, file, resealed, made, opened, sealed, reopened)

  -- The suite: what is sealed under an injected DEK is opened by it, unless the nonce begins with the
  -- four bytes that mark a standalone file. Then the file is refused as standalone.
  pub open_sealed-seal :
      (dek nonce plaintext : Bytes)
      → length dek ≡ 32
      → length nonce ≡ 12
      → (k : Keyring) × (file : Bytes) × (from_dek dek ≡ ok k)
        × (seal c k (some nonce) plaintext ≡ ok file)
        × (open_sealed c dek file
            ≡ (if bytes_eq (take 4 nonce) magic then err standalone_file else ok (k, plaintext)))
  unfolding seal open_sealed from_dek
  open_sealed-seal dek nonce plaintext size n =
      let k : Keyring = record { dek = dek; header = [] } in
      let ct = c.gcm_seal dek nonce plaintext in
      let good = laws.accepts dek size in
      (
        k,
        nonce ++ ct,
        ground arith,
        rw (gcm_of_valid c dek good) refl,
        rw (four_bytes nonce ct n, take-append_le 4 nonce ct (omega arith), right_size dek size)
            (rw (open_body-seal c laws k nonce plaintext good n)),
      )

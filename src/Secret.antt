-- ===== src/Secret.antt =====
-- internal/secret/secret.go: the sealed file. AES-GCM, argon2id and the random source are not code
-- of the repository: the first two are the parameter `Primitives`, and random bytes are arguments,
-- `none` where the source fails.
pub mod Sealing
pub mod Creation
use joyvend_secretvault.Shared.{
  ℕ, ◌+◌, ◌≡◌, Bool, true, false, ◌||◌, ◌&&◌, not, Option, none, some, List, [], ◌∷◌, ◌++◌, map,
  leb, ltb, ◌==◌, if◌then◌else◌, length, take, drop, Result, ok, err, ◌>>=◌, ◌>>◌, guard,
  from_option,
}
use joyvend_secretvault.Text.{Bytes, text, bytes_eq}

pub record Primitives : Type 0 where
  pub derive_kek : Bytes → Bytes → Bytes  -- argon2.IDKey: password, salt
  pub valid_key : Bytes → Bool  -- aes.NewCipher accepts the key
  pub gcm_seal : Bytes → Bytes → Bytes → Bytes  -- key, nonce, plaintext
  pub gcm_open : Bytes → Bytes → Bytes → Option Bytes  -- key, nonce, ciphertext

abbrev pub magic : Bytes
magic = text "JVS1"

abbrev pub salt_len : ℕ
salt_len = 16

abbrev pub nonce_len : ℕ
nonce_len = 12

abbrev pub dek_len : ℕ
dek_len = 32

abbrev pub wrapped_len : ℕ
wrapped_len = 48

abbrev pub header_len : ℕ
header_len = 80

pub data SecretError : Type 0 where
  wrong_password standalone_file bad_dek_length bad_key no_random truncated unauthentic :
      SecretError

pub record Keyring : Type 0 where
  pub dek : Bytes
  pub header : Bytes  -- nil for a suite keyring

-- What the four reads of the random source give, in order.
pub record Randoms : Type 0 where
  pub salt : Option Bytes
  pub dek : Option Bytes
  pub dek_nonce : Option Bytes
  pub body_nonce : Option Bytes

-- FromDEK
unfoldable pub from_dek : Bytes → Result SecretError Keyring
from_dek dek =
    if length dek == dek_len then ok (record { dek = dek; header = [] }) else err bad_dek_length

module _ (c : Primitives) where
  -- gcm: the cipher of a key, here the key itself.
  unfoldable pub gcm : Bytes → Result SecretError Bytes
  gcm key = if c.valid_key key then ok key else err bad_key

  -- Keyring.Seal
  unfoldable pub seal : Keyring → Option Bytes → Bytes → Result SecretError Bytes
  seal k random plaintext = do
    key ← gcm k.dek
    nonce ← from_option random no_random
    ok (k.header ++ (nonce ++ c.gcm_seal key nonce plaintext))

  -- Keyring.open
  unfoldable pub open_body : Keyring → Bytes → Result SecretError Bytes
  open_body k body = do
    guard (leb nonce_len (length body)) truncated
    key ← gcm k.dek
    from_option (c.gcm_open key (take nonce_len body) (drop nonce_len body)) unauthentic

  unfoldable pub create : Randoms → Bytes → Bytes → Result SecretError (Keyring × Bytes)
  create r password plaintext = do
    salt ← from_option r.salt no_random
    dek ← from_option r.dek no_random
    dek_nonce ← from_option r.dek_nonce no_random
    kek ← gcm (c.derive_kek password salt)
    let wrapped = c.gcm_seal kek dek_nonce dek
    let k : Keyring = record { dek = dek; header = magic ++ (salt ++ (dek_nonce ++ wrapped)) }
    file ← seal k r.body_nonce plaintext
    ok (k, file)

  unfoldable pub open_file : Bytes → Bytes → Result SecretError (Keyring × Bytes)
  unfolding bytes_eq
  open_file password file =
      if ltb (length file) header_len || not (bytes_eq (take 4 file) magic)
      then err wrong_password
      else (do
        let salt = take salt_len (drop 4 file)
        let dek_nonce = take nonce_len (drop (4 + salt_len) file)
        let wrapped = take wrapped_len (drop (4 + salt_len + nonce_len) file)
        kek ← gcm (c.derive_kek password salt)
        dek ← from_option (c.gcm_open kek dek_nonce wrapped) wrong_password
        let k : Keyring = record { dek = dek; header = take header_len file }
        pt ← open_body k (drop header_len file)
        ok (k, pt))

  unfoldable pub open_sealed : Bytes → Bytes → Result SecretError (Keyring × Bytes)
  unfolding bytes_eq
  open_sealed dek file =
      if leb 4 (length file) && bytes_eq (take 4 file) magic
      then err standalone_file
      else (do k ← from_dek dek; pt ← open_body k file; ok (k, pt))

-- Keyring.Zero
unfoldable pub zero_key : Keyring → Keyring
zero_key k = record k { dek = map (λ _. 0) k.dek }

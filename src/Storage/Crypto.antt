-- ===== src/Storage/Crypto.antt =====
-- internal/storage/crypto.go. AES-GCM, the random source and encoding/hex are parameters.
use bunny_api_proxy.Base.{
  ℕ, ◌≤◌, ◌≡◌, refl, sym, ap, arith, Option, none, some, List, [], ◌∷◌, ◌++◌, not, ltb, ◌==ℕ◌,
  ==ℕ_iff, length, take, drop, if◌then◌else◌, false,
}

abbrev pub Bytes : Type 0
Bytes = List ℕ

pub data CryptoError : Type 0 where
  err_invalid_key err_decryption random_failed : CryptoError

pub data Crypted : Type 0 where
  done : Bytes → Crypted
  refused : CryptoError → Crypted

-- `random` is io.ReadFull of rand.Reader for a number of bytes, `none` its error.
pub record Library (R : Type 0) : Type 0 where
  pub random : ℕ → R → Option Bytes × R
  pub nonce_size : ℕ
  pub seal : (key nonce plaintext : Bytes) → Bytes
  pub open_sealed : (key nonce ciphertext : Bytes) → Option Bytes
  pub encode_hex : Bytes → Bytes
  pub decode_hex : Bytes → Option Bytes

module _ {R : Type 0} (lib : Library R) where
  -- `gcm.Seal(nonce, nonce, …)` puts the sealed text behind the nonce.
  unfoldable pub encrypt_api_key : (api_key encryption_key : Bytes) → R → Crypted × R
  encrypt_api_key api_key encryption_key r =
      let (read, r') = lib.random lib.nonce_size r in
      if not (length encryption_key ==ℕ 32) then (refused err_invalid_key, r) else elim read [
        | none ↦ (refused random_failed, r')
        | some nonce ↦ (done (lib.encode_hex (nonce ++ lib.seal encryption_key nonce api_key)), r')
      ]

  abbrev pub or_decryption : Option Bytes → Crypted
  or_decryption none = refused err_decryption
  or_decryption (some plaintext) = done plaintext

  unfoldable pub decrypt_api_key : (encrypted encryption_key : Bytes) → Crypted
  decrypt_api_key encrypted encryption_key =
      if not (length encryption_key ==ℕ 32)
      then refused err_invalid_key
      else elim (lib.decode_hex encrypted) [
        | none ↦ refused err_decryption
        | some raw ↦
            if ltb (length raw) lib.nonce_size
            then refused err_decryption
            else or_decryption
                (lib.open_sealed encryption_key (take lib.nonce_size raw) (drop lib.nonce_size raw))
      ]

  -- What the packages document: a read that succeeds fills the buffer, a text that was sealed is
  -- opened with the same key and nonce, and hex is read back.
  pub record KeepsText : Type 0 where
    pub fills : (n : ℕ) (r : R) (nonce : Bytes) → (lib.random n r).0 ≡ some nonce → length nonce ≡ n
    pub opens :
        (key nonce plaintext : Bytes)
        → length key ≡ 32
        → length nonce ≡ lib.nonce_size
        → lib.open_sealed key nonce (lib.seal key nonce plaintext) ≡ some plaintext
    pub decodes : (raw : Bytes) → lib.decode_hex (lib.encode_hex raw) ≡ some raw

take-append : (xs ys : Bytes) → take (length xs) (xs ++ ys) ≡ xs
take-append [] ys = refl
take-append (x ∷ xs) ys = ap (λ l. x ∷ l) (take-append xs ys)

drop-append : (xs ys : Bytes) → drop (length xs) (xs ++ ys) ≡ ys
drop-append [] ys = refl
drop-append (x ∷ xs) ys = drop-append xs ys

length-le-append : (xs ys : Bytes) → length xs ≤ length (xs ++ ys)
length-le-append [] ys = omega arith
length-le-append (x ∷ xs) ys = omega (arith, length-le-append xs ys)

module _ {R : Type 0} (lib : Library R) (keeps : KeepsText lib) where
  opened :
      (api_key key nonce : Bytes)
      → length key ≡ 32
      → length nonce ≡ lib.nonce_size
      → decrypt_api_key lib (lib.encode_hex (nonce ++ lib.seal key nonce api_key)) key
        ≡ done api_key
  unfolding decrypt_api_key
  opened api_key key nonce size filled =
      let sealed = lib.seal key nonce api_key in
      let long : ltb (length (nonce ++ sealed)) (length nonce) ≡ false =
        ground (arith, length-le-append nonce sealed) in
      rw
        (
          (==ℕ_iff (length key) 32).1 size,
          keeps.decodes (nonce ++ sealed),
          sym filled,
          long,
          take-append nonce sealed,
          drop-append nonce sealed,
          keeps.opens key nonce api_key size filled,
          decrypt_api_key,
        )
        refl

  -- With a key of 32 bytes and a random source that works, encryption succeeds, and decryption with
  -- the same key gives the API key back; with a key of any other size both are refused.
  pub decrypt_api_key-encrypt_api_key :
      (api_key key nonce : Bytes) (r : R)
      → (lib.random lib.nonce_size r).0 ≡ some nonce
      → (length key ≡ 32
          → (encrypted : Bytes) × ((encrypt_api_key lib api_key key r).0 ≡ done encrypted)
            × (decrypt_api_key lib encrypted key ≡ done api_key))
        × ((length key ==ℕ 32) ≡ false
            → ((encrypt_api_key lib api_key key r).0 ≡ refused err_invalid_key)
              × ((encrypted : Bytes) → decrypt_api_key lib encrypted key ≡ refused err_invalid_key))
  unfolding encrypt_api_key decrypt_api_key
  decrypt_api_key-encrypt_api_key api_key key nonce r read = (
    λ size. (
      lib.encode_hex (nonce ++ lib.seal key nonce api_key),
      rw ((==ℕ_iff (length key) 32).1 size, read, encrypt_api_key) refl,
      opened api_key key nonce size (keeps.fills lib.nonce_size r nonce read),
    ),
    λ wrong. (rw (wrong, encrypt_api_key) refl, λ e. rw (wrong, decrypt_api_key) refl),
  )

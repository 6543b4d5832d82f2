-- ===== src/Tests/Program.antt =====
-- The theorems on the start, the end and the health of the program, and on the encryption of keys, with
-- a database that carries out every statement.
use bunny_api_proxy.Base.{
  ℕ, pos, String, ◌==◌, ◌≡◌, refl, true, false, Option, none, some, [], ◌∷◌, ◌==ℕ◌, length,
  if◌then◌else◌, suc, zero, ap, ◌∙◌,
}
use bunny_api_proxy.Storage.Crypto
use bunny_api_proxy.Storage.Crypto.{
  Bytes, encrypt_api_key, decrypt_api_key, done, err_invalid_key, KeepsText,
  decrypt_api_key-encrypt_api_key,
}
use bunny_api_proxy.Storage.Connection.{Driver, Handle, new}
use bunny_api_proxy.Storage.Connection.Traced.{IsSetUp, new-IsSetUp}
use bunny_api_proxy.Program.{registered, interrupted, World, run}

-- The state counts the statements.
abbrev counting : Driver ℕ
counting = record {
  open_file = λ path. some 0;
  run = λ stmt n. (true, suc n);
  close_conn = λ n. (true, n);
  select_one = λ n. (some (pos 1), n);
}

new-IsSetUp_example : IsSetUp (some 0) (new counting "/data/proxy.db")
new-IsSetUp_example = new-IsSetUp counting "/data/proxy.db"

abbrev environment : String → String
environment name = if name == "BUNNY_API_KEY" then "master" else ""

-- A run until a signal, where the first server does not shut down in time.
abbrev world : World ℕ
world = record {
  getenv = environment;
  is_level = λ level. level == "info";
  metrics_init = registered;
  driver = counting;
  signal = interrupted;
  main_shuts_down = false;
  metrics_shuts_down = true;
}

abbrev idle : Handle ℕ
idle = record { conn = 0; trace = [] }

abbrev zeros : ℕ → Bytes
zeros zero = []
zeros (suc n) = 0 ∷ zeros n

-- A cipher that puts the key's first byte in front, and a hex that leaves the bytes alone.
abbrev put_first : Bytes → Bytes → Bytes
put_first [] text = 0 ∷ text
put_first (k ∷ ks) text = k ∷ text

abbrev behind_first : Bytes → Option Bytes
behind_first [] = none
behind_first (c ∷ text) = some text

abbrev plain_cipher : Crypto.Library ℕ
plain_cipher = record {
  random = λ n r. (some (zeros n), r);
  nonce_size = 12;
  seal = λ key nonce text. put_first key text;
  open_sealed = λ key nonce text. behind_first text;
  encode_hex = λ raw. raw;
  decode_hex = λ raw. some raw;
}

length-zeros : (n : ℕ) → length (zeros n) ≡ n
length-zeros zero = refl
length-zeros (suc n) = ap (λ m. suc m) (length-zeros n)

plain_cipher-KeepsText : KeepsText plain_cipher
plain_cipher-KeepsText = record {
  fills = λ n r nonce e. ap length (unwrapped nonce (zeros n) e) ∙ length-zeros n;
  opens = λ key nonce text k l. opened key text;
  decodes = λ raw. refl;
}
  where
    unwrapped : (x y : Bytes) → Path (Option Bytes) (some y) (some x) → x ≡ y
    unwrapped x y h = cc

    opened : (key text : Bytes) → behind_first (put_first key text) ≡ some text
    opened [] text = refl
    opened (k ∷ key) text = refl

decrypt_api_key-encrypt_api_key_example :
    (length (zeros 32) ≡ 32
      → (encrypted : Bytes) × ((encrypt_api_key plain_cipher (65 ∷ []) (zeros 32) 7).0
          ≡ done encrypted)
        × (decrypt_api_key plain_cipher encrypted (zeros 32) ≡ done (65 ∷ [])))
    × ((length (zeros 32) ==ℕ 32) ≡ false
        → ((encrypt_api_key plain_cipher (65 ∷ []) (zeros 32) 7).0 ≡ Crypto.refused err_invalid_key)
          × ((encrypted : Bytes)
              → decrypt_api_key plain_cipher encrypted (zeros 32) ≡ Crypto.refused err_invalid_key))
decrypt_api_key-encrypt_api_key_example =
    decrypt_api_key-encrypt_api_key plain_cipher plain_cipher-KeepsText (65 ∷ []) (zeros 32)
      (zeros 12) 7 refl

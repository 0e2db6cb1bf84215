-- ===== src/Files/Download.antt =====
-- The download of an encrypted file.
use session_cli.Base.{
  ℕ, ◌-◌, ◌≡◌, ◌≢◌, refl, Bool, true, false, List, some, Result, ok, err, ◌>>=◌, ensure, arith, leb,
  length, take, drop, length-take,
}
use session_cli.Base.Text.{text_eq}
use session_cli.Files.{
  DecryptError, creating_decryptor, buffer_too_small, invalid_key, zeros, Gcm, Cbc, plaintext_len,
  cbc_decrypt, cbc_decryptor, decrypt_to, encrypt_aes_gcm, FileResponse, is_success, with_body,
  get_encrypted_file,
}
use session_cli.Files.Encrypted.{decrypt_to-encrypt}

-- A file that was encrypted with a key of 32 bytes and a nonce of 12, and that is downloaded with a
-- status of success and the same key, is the file, under the same status.
pub get_encrypted_file-encrypt :
    (gcm : Gcm) (cbc : Cbc) (nonce key file : List ℕ) (status : ℕ)
    → length nonce ≡ 12
    → length key ≡ 32
    → is_success status ≡ true
    → get_encrypted_file gcm cbc
        (some (record { status = status; body = encrypt_aes_gcm gcm nonce key file }))
        (some key)
      ≡ ok (record { status = status; body = file })
unfolding get_encrypted_file
get_encrypted_file-encrypt gcm cbc nonce key file status ln lk s =
    rw (s, lk, decrypt_to-encrypt gcm nonce key file ln)

IsError {ℓ} : {A : Type ℓ} → Result DecryptError A → Type 0
IsError (ok _) = ⊥
IsError (err _) = Unit

ensure-IsError {ℓ} :
    {A : Type ℓ} (b : Bool) (e : DecryptError) (k : Result DecryptError A)
    → (b ≡ true → IsError k)
    → IsError (ensure b e >>= λ _. k)
unfolding IsError
ensure-IsError true e k h = h refl
ensure-IsError false e k h = tt

bind-IsError {ℓ κ} :
    {A : Type ℓ} {B : Type κ} (r : Result DecryptError A) (k : A → Result DecryptError B)
    → ((a : A) → IsError (k a))
    → IsError (r >>= k)
unfolding IsError
bind-IsError (ok a) k h = h a
bind-IsError (err e) k h = tt

first-IsError {ℓ κ} :
    {A : Type ℓ} {B : Type κ} (r : Result DecryptError A) (k : A → Result DecryptError B)
    → IsError r
    → IsError (r >>= k)
unfolding IsError
first-IsError (ok a) k h = absurd h
first-IsError (err e) k h = tt

with_body-IsError :
    (status : ℕ) (r : Result DecryptError (List ℕ)) (f : FileResponse)
    → IsError r
    → with_body status r ≢ ok f
unfolding IsError
with_body-IsError status (ok plain) f h e = h
with_body-IsError status (err x) f h e = cc

module _ (cbc : Cbc)
    (sized : (k iv : List ℕ) → cbc.new_from_slices k iv ≡ true → length iv ≡ 16) where
  cbc_decrypt-IsError :
      (aes_key hmac_key input output : List ℕ)
      → IsError (cbc_decrypt cbc aes_key hmac_key input output)
  unfolding cbc_decrypt
  cbc_decrypt-IsError aes_key hmac_key input output =
      let signed = take (length input - 32) input in
      let iv = take 12 signed in
      bind-IsError (plaintext_len 32 (length input)) _ (λ n.
        ensure-IsError (leb n (length output)) buffer_too_small _ (λ fits.
          ensure-IsError (text_eq (cbc.hmac hmac_key signed) (drop (length input - 32) input))
            invalid_key _
            (λ same.
              ensure-IsError (cbc.new_from_slices aes_key iv) creating_decryptor _ (λ created.
                absurd (omega (arith, sized aes_key iv created, length-take 12 signed))))))

  decrypt_to-IsError :
      (aes_key hmac_key input : List ℕ)
      → IsError (decrypt_to (cbc_decryptor cbc aes_key hmac_key) input)
  unfolding decrypt_to
  decrypt_to-IsError aes_key hmac_key input = bind-IsError (plaintext_len 32 (length input)) _ (λ n.
      first-IsError (cbc_decrypt cbc aes_key hmac_key input (zeros n)) _
        (cbc_decrypt-IsError aes_key hmac_key input (zeros n)))

-- The crate cbc creates a decryptor only for an initialisation vector of 16 bytes. So no file is
-- decrypted with a key of 64 bytes: with it a response of success is always an error.
pub get_encrypted_file_cbc :
    (gcm : Gcm) (cbc : Cbc) (r : FileResponse) (key : List ℕ) (f : FileResponse)
    → ((k iv : List ℕ) → cbc.new_from_slices k iv ≡ true → length iv ≡ 16)
    → length key ≡ 64
    → is_success r.status ≡ true
    → get_encrypted_file gcm cbc (some r) (some key) ≢ ok f
unfolding get_encrypted_file
get_encrypted_file_cbc gcm cbc r key f sized lk s e =
    with_body-IsError r.status (decrypt_to (cbc_decryptor cbc (take 32 key) (drop 32 key)) r.body) f
      (decrypt_to-IsError cbc sized (take 32 key) (drop 32 key) r.body) (ground (arith, e, lk, s))

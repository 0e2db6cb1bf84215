-- ===== src/Files.antt =====
-- libsession-ui-core/src/files/encrypt.rs and decrypt.rs, and `get_encrypted_file` of
-- libsession-ui-core/src/service/account/get_file.rs: the encryption of files and their download.
-- The ciphers are parameters, with what their crates document of lengths; a buffer is the list of its
-- bytes. A slice out of range does not occur: the splits are below the lengths that are tested first.
pub mod Encrypted
pub mod Download
mod Tests
use session_cli.Base.{
  ℕ, ◌+◌, ◌-◌, ◌≡◌, Bool, true, false, List, [], ◌∷◌, ◌++◌, Option, none, some, Result, ok, err,
  ok_or, ◌>>=◌, ◌>>◌, ensure, leb, ltb, ◌==◌, not, length, take, drop, replicate, if◌then◌else◌,
  ◌&&◌,
}
use session_cli.Base.Text.{text_eq}

pub data DecryptError : Type 0 where
  invalid_key too_short buffer_too_small creating_decryptor : DecryptError

abbrev pub aes_256_iv_len : ℕ
aes_256_iv_len = 12

abbrev pub hmac_tag_len : ℕ
hmac_tag_len = 32

abbrev pub aes_gcm_tag_len : ℕ
aes_gcm_tag_len = 16

-- `Aes256Gcm`, by key and nonce: what is encrypted has the length of the text, and a tag of 16 bytes.
pub record Gcm : Type 0 where
  pub encrypt : List ℕ → List ℕ → List ℕ → List ℕ × List ℕ
  pub decrypt : List ℕ → List ℕ → List ℕ → List ℕ → Option (List ℕ)
  pub decrypt-encrypt :
      (key nonce text : List ℕ)
      → decrypt key nonce (encrypt key nonce text).0 (encrypt key nonce text).1 ≡ some text
  pub length-encrypt : (key nonce text : List ℕ) → length (encrypt key nonce text).0 ≡ length text
  pub length-tag : (key nonce text : List ℕ) → length (encrypt key nonce text).1 ≡ 16
  pub length-decrypt :
      (key nonce cipher tag text : List ℕ)
      → decrypt key nonce cipher tag ≡ some text
      → length text ≡ length cipher

-- `Hmac<Sha256>`, and the CBC decryption with PKCS#7: by key and initialisation vector it can be
-- created or not, and then decrypts or not.
pub record Cbc : Type 0 where
  pub hmac : List ℕ → List ℕ → List ℕ
  pub new_from_slices : List ℕ → List ℕ → Bool
  pub decrypt_padded : List ℕ → List ℕ → List ℕ → Option (List ℕ)

-- `FileDecryptor`; `decrypt` gives the length and the buffer that was written.
pub record FileDecryptor : Type 0 where
  pub max_plaintext_len : ℕ → Result DecryptError ℕ
  pub decrypt : List ℕ → List ℕ → Result DecryptError (ℕ × List ℕ)

unfoldable pub plaintext_len : ℕ → ℕ → Result DecryptError ℕ
plaintext_len tag_len n =
    if ltb n (aes_256_iv_len + tag_len) then err too_short else ok (n - aes_256_iv_len - tag_len)

-- The buffer after its front was written.
abbrev pub overwrite : List ℕ → List ℕ → List ℕ
overwrite front buffer = front ++ drop (length front) buffer

unfoldable pub gcm_decrypt : Gcm → List ℕ → List ℕ → List ℕ → Result DecryptError (ℕ × List ℕ)
unfolding plaintext_len
gcm_decrypt gcm key input output = do
  n ← plaintext_len aes_gcm_tag_len (length input)
  ensure (leb n (length output)) buffer_too_small
  plain ←
      (let rest = drop aes_256_iv_len input in
        let size = length rest - aes_gcm_tag_len in
        ok_or (gcm.decrypt key (take aes_256_iv_len input) (take size rest) (drop size rest))
          invalid_key)
  ok (n, overwrite plain output)

-- `Aes256GcmDecryptor`
abbrev pub gcm_decryptor : Gcm → List ℕ → FileDecryptor
gcm_decryptor gcm key = record {
  max_plaintext_len = plaintext_len aes_gcm_tag_len;
  decrypt = gcm_decrypt gcm key;
}

unfoldable pub cbc_decrypt :
    Cbc → List ℕ → List ℕ → List ℕ → List ℕ → Result DecryptError (ℕ × List ℕ)
unfolding plaintext_len
cbc_decrypt cbc aes_key hmac_key input output = do
  n ← plaintext_len hmac_tag_len (length input)
  ensure (leb n (length output)) buffer_too_small
  ensure
      (text_eq (cbc.hmac hmac_key (take (length input - hmac_tag_len) input))
        (drop (length input - hmac_tag_len) input))
      invalid_key
  ensure
      (cbc.new_from_slices aes_key (take aes_256_iv_len (take (length input - hmac_tag_len) input)))
      creating_decryptor
  plain ←
      ok_or
        (cbc.decrypt_padded aes_key (take aes_256_iv_len (take (length input - hmac_tag_len) input))
          (drop aes_256_iv_len (take (length input - hmac_tag_len) input)))
        invalid_key
  ok (length plain, overwrite plain output)

-- `Aes256CbcHmacSha256Decryptor`
abbrev pub cbc_decryptor : Cbc → List ℕ → List ℕ → FileDecryptor
cbc_decryptor cbc aes_key hmac_key = record {
  max_plaintext_len = plaintext_len hmac_tag_len;
  decrypt = cbc_decrypt cbc aes_key hmac_key;
}

-- `vec![0u8; n]`
abbrev pub zeros : ℕ → List ℕ
zeros n = replicate n 0

unfoldable pub decrypt_to : FileDecryptor → List ℕ → Result DecryptError (List ℕ)
decrypt_to decryptor ciphertext = do
  n ← decryptor.max_plaintext_len (length ciphertext)
  (out_len, out) ← decryptor.decrypt ciphertext (zeros n)
  ok (take out_len out)

-- `encrypt_aes_gcm`, for the nonce and the key that are drawn.
unfoldable pub encrypt_aes_gcm : Gcm → List ℕ → List ℕ → List ℕ → List ℕ
encrypt_aes_gcm gcm nonce key input =
    let (cipher, tag) = gcm.encrypt key nonce input in nonce ++ (cipher ++ tag)

pub data FileError : Type 0 where
  request_failed invalid_key_length : FileError
  decrypting : DecryptError → FileError

-- A response: the status and the body.
pub record FileResponse : Type 0 where
  pub status : ℕ
  pub body : List ℕ

abbrev pub is_success : ℕ → Bool
is_success status = leb 200 status && ltb status 300

abbrev pub with_body : ℕ → Result DecryptError (List ℕ) → Result FileError FileResponse
with_body status (ok plain) = ok (record { status = status; body = plain })
with_body status (err e) = err (decrypting e)

-- `get_encrypted_file`, on what the executor answers.
unfoldable pub get_encrypted_file :
    Gcm → Cbc → Option FileResponse → Option (List ℕ) → Result FileError FileResponse
unfolding decrypt_to
get_encrypted_file gcm cbc none file_key = err request_failed
get_encrypted_file gcm cbc (some r) file_key =
    if not (is_success r.status) then ok r else elim file_key [
      | none ↦ ok r
      | some key ↦
          if length key == 64
          then with_body r.status
              (decrypt_to (cbc_decryptor cbc (take 32 key) (drop 32 key)) r.body)
          else if length key == 32
          then with_body r.status (decrypt_to (gcm_decryptor gcm key) r.body)
          else err invalid_key_length
    ]

-- ===== src/Files/Tests.antt =====
-- Witnesses for the theorems on files, with a cipher that leaves its text as it is.
use session_cli.Base.{ℕ, ◌≡◌, ◌≢◌, refl, List, some, ok, ◌==◌, ==_iff, length, replicate, arith}
use session_cli.Base.Text.{codes}
use session_cli.Files.{
  Gcm, Cbc, FileResponse, gcm_decryptor, decrypt_to, encrypt_aes_gcm, get_encrypted_file,
}
use session_cli.Files.Encrypted.{decrypt_to-encrypt}
use session_cli.Files.Download.{get_encrypted_file-encrypt, get_encrypted_file_cbc}

same_text : (c t : List ℕ) → some c ≡ some t → length t ≡ length c
same_text c t e = ground (arith, e)

abbrev plain_gcm : Gcm
plain_gcm = record {
  encrypt = λ key nonce text. (text, replicate 16 0);
  decrypt = λ key nonce cipher tag. some cipher;
  decrypt-encrypt = λ key nonce text. refl;
  length-encrypt = λ key nonce text. refl;
  length-tag = λ key nonce text. refl;
  length-decrypt = λ key nonce cipher tag text e. same_text cipher text e;
}

abbrev plain_cbc : Cbc
plain_cbc = record {
  hmac = λ key text. replicate 32 0;
  new_from_slices = λ key iv. length iv == 16;
  decrypt_padded = λ key iv text. some text;
}

greeting_decrypted :
    decrypt_to
      (gcm_decryptor plain_gcm (replicate 32 1))
      (encrypt_aes_gcm plain_gcm (replicate 12 9) (replicate 32 1) (codes "hi"))
    ≡ ok (codes "hi")
greeting_decrypted =
    decrypt_to-encrypt plain_gcm (replicate 12 9) (replicate 32 1) (codes "hi") refl

get_encrypted_file-encrypt_example :
    get_encrypted_file plain_gcm plain_cbc
      (some (record {
        status = 200;
        body = encrypt_aes_gcm plain_gcm (replicate 12 9) (replicate 32 1) (codes "hi");
      }))
      (some (replicate 32 1))
    ≡ ok (record { status = 200; body = codes "hi" })
get_encrypted_file-encrypt_example =
    get_encrypted_file-encrypt plain_gcm plain_cbc (replicate 12 9) (replicate 32 1) (codes "hi")
      200 refl refl refl

abbrev zeros_response : FileResponse
zeros_response = record { status = 200; body = replicate 60 0 }

get_encrypted_file_cbc_example :
    get_encrypted_file plain_gcm plain_cbc (some zeros_response) (some (replicate 64 1))
    ≢ ok zeros_response
get_encrypted_file_cbc_example =
    get_encrypted_file_cbc plain_gcm plain_cbc zeros_response (replicate 64 1) zeros_response
      (λ k iv h. (==_iff (length iv) 16).0 h) refl refl

-- ===== src/Files/Encrypted.antt =====
-- What was encrypted is decrypted, and of what length the output is.
use session_cli.Base.{
  ℕ, zero, suc, ◌+◌, ◌-◌, ◌≤◌, ◌≡◌, refl, sym, ap, ◌∙◌, true, false, List, [], ◌∷◌, ◌++◌, Option,
  none, some, ok, ok_or, ◌>>=◌, arith, leb, ltb, length, take, drop, length-append, length-take,
  length-drop, length-replicate, Option-cases, Bool-cases, inl, inr,
}
use session_cli.Files.{
  invalid_key, Gcm, plaintext_len, overwrite, zeros, gcm_decrypt, gcm_decryptor, decrypt_to,
  encrypt_aes_gcm,
}

pub take_append : (n : ℕ) (xs ys : List ℕ) → length xs ≡ n → take n (xs ++ ys) ≡ xs
take_append zero [] ys e = refl
take_append zero (x ∷ xs) ys e = ground (arith, e)
take_append (suc n) [] ys e = ground (arith, e)
take_append (suc n) (x ∷ xs) ys e = ap (◌∷◌ x) (take_append n xs ys (omega (arith, e)))

pub drop_append : (n : ℕ) (xs ys : List ℕ) → length xs ≡ n → drop n (xs ++ ys) ≡ ys
drop_append zero [] ys e = refl
drop_append zero (x ∷ xs) ys e = ground (arith, e)
drop_append (suc n) [] ys e = ground (arith, e)
drop_append (suc n) (x ∷ xs) ys e = drop_append n xs ys (omega (arith, e))

plaintext_len-add : (n tag : ℕ) → plaintext_len tag (12 + (n + tag)) ≡ ok n
unfolding plaintext_len
plaintext_len-add n tag = ground arith

module _ (gcm : Gcm) where
  -- The decryption of a nonce, a cipher and a tag of the right lengths.
  gcm_decrypt-parts :
      (key nonce cipher tag text output : List ℕ)
      → length nonce ≡ 12
      → length tag ≡ 16
      → length output ≡ length cipher
      → gcm.decrypt key nonce cipher tag ≡ some text
      → gcm_decrypt gcm key (nonce ++ (cipher ++ tag)) output
        ≡ ok (length cipher, overwrite text output)
  unfolding gcm_decrypt
  gcm_decrypt-parts key nonce cipher tag text output ln lt lo d =
      let total : length (nonce ++ (cipher ++ tag)) ≡ 12 + (length cipher + 16) =
        length-append nonce (cipher ++ tag) ∙ omega (arith, ln, lt, length-append cipher tag) in
      let len : plaintext_len 16 (length (nonce ++ (cipher ++ tag))) ≡ ok (length cipher) =
        ap (plaintext_len 16) total ∙ plaintext_len-add (length cipher) 16 in
      let fits : leb (length cipher) (length output) ≡ true = ground (arith, lo) in
      let rest : drop 12 (nonce ++ (cipher ++ tag)) ≡ cipher ++ tag =
        drop_append 12 nonce (cipher ++ tag) ln in
      let size : length (cipher ++ tag) - 16 ≡ length cipher =
        omega (arith, lt, length-append cipher tag) in
      let head = take_append 12 nonce (cipher ++ tag) ln in
      let front = take_append (length cipher) cipher tag refl in
      let back = drop_append (length cipher) cipher tag refl in
      rw (len, fits, rest, size, head, front, back, d) refl

  -- What a key and a nonce of twelve bytes encrypted is decrypted by the key.
  pub decrypt_to-encrypt :
      (nonce key input : List ℕ)
      → length nonce ≡ 12
      → decrypt_to (gcm_decryptor gcm key) (encrypt_aes_gcm gcm nonce key input) ≡ ok input
  unfolding decrypt_to encrypt_aes_gcm
  decrypt_to-encrypt nonce key input ln =
      let cipher = (gcm.encrypt key nonce input).0 in
      let tag = (gcm.encrypt key nonce input).1 in
      let n = length cipher in
      let total : length (nonce ++ (cipher ++ tag)) ≡ 12 + (n + 16) =
        length-append nonce (cipher ++ tag)
        ∙ omega (arith, ln, gcm.length-tag key nonce input, length-append cipher tag) in
      let len : plaintext_len 16 (length (nonce ++ (cipher ++ tag))) ≡ ok n =
        ap (plaintext_len 16) total ∙ plaintext_len-add n 16 in
      let parts =
        gcm_decrypt-parts key nonce cipher tag input (zeros n) ln (gcm.length-tag key nonce input)
          (length-replicate {A = ℕ} n 0) (gcm.decrypt-encrypt key nonce input) in
      rw (len, parts)
        (ap ok (
          take_append n input (drop (length input) (zeros n))
            (sym (gcm.length-encrypt key nonce input))))

  -- The decryption of an input that is long enough, by what the cipher answers.
  decrypted-long :
      (key input : List ℕ) (answer : Option (List ℕ))
      → ltb (length input) 28 ≡ false
      → gcm.decrypt key
          (take 12 input)
          (take (length (drop 12 input) - 16) (drop 12 input))
          (drop (length (drop 12 input) - 16) (drop 12 input))
        ≡ answer
      → decrypt_to (gcm_decryptor gcm key) input ≡ (
          ok_or answer invalid_key >>= λ plain.
          ok (take (length input - 12 - 16) (overwrite plain (zeros (length input - 12 - 16)))))
  unfolding decrypt_to gcm_decrypt plaintext_len
  decrypted-long key input none s d =
      let n = length input - 12 - 16 in
      let fits : leb n (length (zeros n)) ≡ true = ground (arith, length-replicate {A = ℕ} n 0) in
      rw (s, fits, d) refl
  decrypted-long key input (some text) s d =
      let n = length input - 12 - 16 in
      let fits : leb n (length (zeros n)) ≡ true = ground (arith, length-replicate {A = ℕ} n 0) in
      rw (s, fits, d) refl

  -- What is decrypted is 28 bytes shorter than its input.
  pub length-decrypt_to :
      (key input text : List ℕ)
      → decrypt_to (gcm_decryptor gcm key) input ≡ ok text
      → length text + 28 ≡ length input
  unfolding decrypt_to gcm_decrypt plaintext_len
  length-decrypt_to key input text e = elim (Bool-cases (ltb (length input) 28)) [
    | inl s ↦ ground (arith, s, e)
    | inr s ↦
        let n = length input - 12 - 16 in
        let rest = drop 12 input in
        let nonce = take 12 input in
        let cipher = take (length rest - 16) rest in
        let tag = drop (length rest - 16) rest in
        elim (Option-cases (gcm.decrypt key nonce cipher tag)) [
          | inl d ↦ ground (arith, e, decrypted-long key input none s d)
          | inr (t, d) ↦
              let same : take n (overwrite t (zeros n)) ≡ text =
                ground (arith, e, decrypted-long key input (some t) s d) in
              omega (
                arith,
                ap length same,
                length-take n (overwrite t (zeros n)),
                length-append t (drop (length t) (zeros n)),
                length-drop (length t) (zeros n),
                length-replicate {A = ℕ} n 0,
                gcm.length-decrypt key nonce cipher tag t d,
                length-take (length rest - 16) rest,
                length-drop 12 input,
                long s,
              )
        ]
  ]
    where
      long : ltb (length input) 28 ≡ false → 28 ≤ length input
      long q = ground (arith, q)

-- ===== src/Dave/Aead.antt =====
-- src/dave/aead_cipher.cpp: AES-128-GCM with a tag of eight bytes. The calls of OpenSSL are a
-- parameter; a cipher is its key.
use ekizu.Prelude.{ℕ, ◌+◌, ◌-◌, ◌≡◌, List, ◌++◌, Option, some, none, length, take, drop}
use ekizu.Prelude.{
  ltb, leb, if◌then◌else◌, true, false, refl, arith, length-append, take_append, drop_append,
}
use ekizu.Dave.Buffer.{◌>>=◌}

-- Key, nonce, additional data and text. Sealing gives the ciphertext and the tag, opening takes
-- them; `none` where one of the calls fails.
pub record Gcm : Type 0 where
  pub seal : List ℕ → List ℕ → List ℕ → List ℕ → Option (List ℕ × List ℕ)
  pub open_sealed : List ℕ → List ℕ → List ℕ → List ℕ → List ℕ → Option (List ℕ)

-- What OpenSSL documents: GCM keeps the length of the text, the tag has the length asked for, and
-- opening undoes sealing with the same key, nonce and additional data.
pub record IsGcm (gcm : Gcm) : Type 0 where
  pub seal_sizes :
      (key nonce aad text ciphertext tag : List ℕ)
      → gcm.seal key nonce aad text ≡ some (ciphertext, tag)
      → (length ciphertext ≡ length text) × (length tag ≡ 8)
  pub opens :
      (key nonce aad text ciphertext tag : List ℕ)
      → gcm.seal key nonce aad text ≡ some (ciphertext, tag)
      → gcm.open_sealed key nonce aad ciphertext tag ≡ some text

module _ (gcm : Gcm) where
  -- The bytes written to the front of an output of `room` bytes.
  unfoldable pub encrypt : List ℕ → List ℕ → List ℕ → List ℕ → ℕ → Option (List ℕ)
  encrypt key plaintext additional_data nonce room = do
    (ciphertext, tag) ← gcm.seal key nonce additional_data plaintext
    some (if leb (length ciphertext + 8) room then ciphertext ++ tag else ciphertext)

  unfoldable pub decrypt : List ℕ → List ℕ → List ℕ → List ℕ → Option (List ℕ)
  decrypt key ciphertext additional_data nonce =
      let n = length ciphertext - 8 in
      if ltb (length ciphertext) 8
      then none
      else gcm.open_sealed key nonce additional_data (take n ciphertext) (drop n ciphertext)

module _ (gcm : Gcm) (good : IsGcm gcm) (key nonce aad text ciphertext tag : List ℕ) where
  -- With room for the tag, the ciphertext and the tag are written.
  pub encrypt_lem :
      gcm.seal key nonce aad text ≡ some (ciphertext, tag)
      → encrypt gcm key text aad nonce (length text + 8) ≡ some (ciphertext ++ tag)
  unfolding encrypt
  encrypt_lem sealed =
      let sizes = good.seal_sizes key nonce aad text ciphertext tag sealed in
      let fits : leb (length ciphertext + 8) (length text + 8) ≡ true = ground arith in
      rw (sealed, fits) refl

  pub decrypt-encrypt :
      gcm.seal key nonce aad text ≡ some (ciphertext, tag)
      → decrypt gcm key (ciphertext ++ tag) aad nonce ≡ some text
  unfolding decrypt
  decrypt-encrypt sealed =
      let sizes = good.seal_sizes key nonce aad text ciphertext tag sealed in
      let long = length-append ciphertext tag in
      let front : take (length (ciphertext ++ tag) - 8) (ciphertext ++ tag) ≡ ciphertext =
        take_append (length (ciphertext ++ tag) - 8) ciphertext tag (omega arith) in
      let back : drop (length (ciphertext ++ tag) - 8) (ciphertext ++ tag) ≡ tag =
        drop_append (length (ciphertext ++ tag) - 8) ciphertext tag (omega arith) in
      let enough : ltb (length (ciphertext ++ tag)) 8 ≡ false = ground arith in
      rw (enough, front, back) (good.opens key nonce aad text ciphertext tag sealed)

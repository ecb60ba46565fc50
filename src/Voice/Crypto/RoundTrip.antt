-- ===== src/Voice/Crypto/RoundTrip.antt =====
-- Decrypting undoes the transport encryption of src/voice/voice_crypto.cpp.
use mathlib.Core.Path.{ap₂}
use ekizu.Prelude.{
  ℕ, zero, suc, ◌+◌, ◌-◌, ◌%◌, ◌^◌, ◌≡◌, refl, sym, ap, ◌∙◌, Bool, true, false, Option, none, some,
  List, [], ◌∷◌, ◌++◌, length, drop, replicate, if_true, if_false, le→ltb, ◌⊎◌, inl, inr, le→leb,
  arith, append_assoc, append-nil, length-append, length-replicate, take_append, drop_append,
}
use ekizu.Voice.Rtp.{put_u32be}
use ekizu.Voice.Crypto.{
  Mode, xchacha20_poly1305, aes256_gcm, ok, Sodium, IsSodium, tag_size, nonce_size, VoiceCrypto,
  iv_of, store, fill, pack, as_result, encrypt_with, encrypt_in, encrypt_rtp, decrypt_with,
  decrypt_in, decrypt_rtp,
}

-- A write over `old` in the middle of a buffer.
store_lem :
    (pre old post new : List ℕ) (i : ℕ)
    → i ≡ length pre
    → length old ≡ length new
    → store (pre ++ (old ++ post)) i new ≡ some (pre ++ (new ++ post))
unfolding store
store_lem pre old post new i e l =
    if_true _ _ (
      le→leb (i + length new) (length (pre ++ (old ++ post)))
        (omega (arith, length-append pre (old ++ post), length-append old post)))
    ∙ ap some (
        cut (take_append i pre (old ++ post) e) (
          ap (drop (i + length new)) (sym (append_assoc pre old post))
          ∙ drop_append (i + length new) (pre ++ old) post (omega (arith, length-append pre old))))
  where
    cut : {a b c d : List ℕ} → a ≡ b → c ≡ d → a ++ (new ++ c) ≡ b ++ (new ++ d)
    cut p q = cc

replicate_add : (m n k : ℕ) → k ≡ m + n → replicate {A = ℕ} k 0 ≡ replicate m 0 ++ replicate n 0
replicate_add zero n k e = ap (λ (j : ℕ). replicate j 0) (e ∙ omega arith)
replicate_add (suc m) n zero e = absurd (omega arith)
replicate_add (suc m) n (suc k) e = ap (◌∷◌ 0) (replicate_add m n k (omega arith))

bound :
    (o : Option (List ℕ)) (b : List ℕ) (f : List ℕ → Option (List ℕ))
    → o ≡ some b
    → elim o [ none ↦ none | some x ↦ f x ] ≡ f b
bound o b f e = ap (λ (q : Option (List ℕ)). elim q [ none ↦ none | some x ↦ f x ]) e

-- The buffer is filled from end to end.
fill_lem :
    (header sealed nonce_bytes : List ℕ) (n : ℕ)
    → length header ≡ 12
    → length sealed ≡ n + 16
    → length nonce_bytes ≡ 4
    → fill (replicate (12 + n + tag_size + nonce_size) 0) header sealed nonce_bytes
      ≡ some (header ++ (sealed ++ nonce_bytes))
unfolding fill
fill_lem header sealed nonce_bytes n lh ls ln =
    let zeros : List ℕ = replicate (n + 16) 0 in
    let room : List ℕ = replicate 4 0 in
    let whole : replicate (12 + n + tag_size + nonce_size) 0 ≡ replicate 12 0 ++ (zeros ++ room) =
      replicate_add 12 (n + 16 + 4) _ (omega arith)
      ∙ ap (λ l. replicate 12 0 ++ l) (replicate_add (n + 16) 4 _ refl) in
    let first =
      ap (λ b. store b 0 header) whole
      ∙ store_lem [] (replicate 12 0) (zeros ++ room) header 0 refl (sym lh) in
    let second =
      store_lem header zeros room sealed 12 (sym lh) (length-replicate (n + 16) 0 ∙ sym ls) in
    let third =
      ap (λ b. store b (12 + length sealed) nonce_bytes)
        (sym (append_assoc header sealed room)
          ∙ ap (λ l. (header ++ sealed) ++ l) (sym (append-nil room)))
      ∙ (store_lem (header ++ sealed) room [] nonce_bytes (12 + length sealed)
            (omega (arith, length-append header sealed)) (sym ln)
          ∙ ap some (
              append_assoc header sealed (nonce_bytes ++ [])
              ∙ ap (λ l. header ++ (sealed ++ l)) (append-nil nonce_bytes))) in
    bound _ _ _ first ∙ (bound _ _ _ second ∙ third)

length-put_u32be : (v : ℕ) → length (put_u32be v) ≡ 4
unfolding put_u32be
length-put_u32be v = refl

encrypt_with-ok :
    (c : Sodium) (x : Bool) (iv_size : ℕ) (key header payload s : List ℕ) (nonce : ℕ)
    → length header ≡ 12
    → c.seal x key (iv_of iv_size (put_u32be nonce)) header payload ≡ some s
    → length s ≡ length payload + 16
    → encrypt_with c x iv_size key header payload nonce
      ≡ some (ok (header ++ (s ++ put_u32be nonce)))
unfolding encrypt_with as_result
encrypt_with-ok c x iv_size key header payload s nonce lh e ls =
    let filled =
      fill_lem header s (put_u32be nonce) (length payload) lh ls (length-put_u32be nonce) in
    ap (λ o. pack o header (length payload) (put_u32be nonce)) e ∙ ap as_result filled

decrypt_with-ok :
    (c : Sodium) (x : Bool) (iv_size : ℕ) (key header payload s : List ℕ) (nonce : ℕ)
    → c.open_sealed x key (iv_of iv_size (put_u32be nonce)) header s ≡ some payload
    → length s ≡ length payload + 16
    → decrypt_with c x iv_size key header (s ++ put_u32be nonce) ≡ ok payload
unfolding decrypt_with
decrypt_with-ok c x iv_size key header payload s nonce e ls =
    let n = length-append s (put_u32be nonce) in
    let four = length-put_u32be nonce in
    let size : length (s ++ put_u32be nonce) - 4 ≡ length s = omega (arith, n, four) in
    if_false _ _ (le→ltb (length (s ++ put_u32be nonce)) 20 (omega (arith, n, four)))
    ∙ (rw (
      drop_append (length (s ++ put_u32be nonce) - 4) s (put_u32be nonce) size,
      take_append (length (s ++ put_u32be nonce) - 4) s (put_u32be nonce) size,
      e,
    ))

-- A cipher mode that the program knows.
abbrev pub Known : Mode → Type 0
Known m = (m ≡ xchacha20_poly1305) ⊎ (m ≡ aes256_gcm)

-- With a cipher that does what libsodium promises, a known mode and a header of 12 bytes,
-- encryption succeeds and stays in its buffer; the packet is the header, the sealed text and the
-- nonce; and what stands behind the header decrypts, with the same key, mode and header, to the
-- payload. The next packet has the next nonce, in 32 bits.
pub decrypt_rtp-encrypt_rtp :
    (c : Sodium) (v r : VoiceCrypto) (header payload : List ℕ)
    → IsSodium c
    → Known v.mode
    → r.mode ≡ v.mode
    → r.key ≡ v.key
    → length header ≡ 12
    → (s : List ℕ) × (encrypt_rtp c v header payload ≡ (
      record v { nonce = (v.nonce + 1) % 2 ^ 32 },
      some (ok (header ++ (s ++ put_u32be v.nonce))),
    ))
      × (decrypt_rtp c r header (s ++ put_u32be v.nonce) ≡ ok payload)
      × (length s ≡ length payload + 16)
unfolding encrypt_rtp decrypt_rtp encrypt_in decrypt_in
decrypt_rtp-encrypt_rtp c v r header payload laws (inl m) rm rk lh =
    let (s, sealed, ls) = laws.sealing true v.key (iv_of 24 (put_u32be v.nonce)) header payload in
    let opened = laws.opening true v.key (iv_of 24 (put_u32be v.nonce)) header payload s sealed in
    (
      s,
      ap (λ o. (record v { nonce = (v.nonce + 1) % 2 ^ 32 }, o))
          (ap (λ k. encrypt_in c k v.key header payload v.nonce) m
            ∙ encrypt_with-ok c true 24 v.key header payload s v.nonce lh sealed ls),
      ap₂ (λ k l. decrypt_in c k l header (s ++ put_u32be v.nonce)) (rm ∙ m) rk
          ∙ decrypt_with-ok c true 24 v.key header payload s v.nonce opened ls,
      ls,
    )
decrypt_rtp-encrypt_rtp c v r header payload laws (inr m) rm rk lh =
    let (s, sealed, ls) = laws.sealing false v.key (iv_of 12 (put_u32be v.nonce)) header payload in
    let opened = laws.opening false v.key (iv_of 12 (put_u32be v.nonce)) header payload s sealed in
    (
      s,
      ap (λ o. (record v { nonce = (v.nonce + 1) % 2 ^ 32 }, o))
          (ap (λ k. encrypt_in c k v.key header payload v.nonce) m
            ∙ encrypt_with-ok c false 12 v.key header payload s v.nonce lh sealed ls),
      ap₂ (λ k l. decrypt_in c k l header (s ++ put_u32be v.nonce)) (rm ∙ m) rk
          ∙ decrypt_with-ok c false 12 v.key header payload s v.nonce opened ls,
      ls,
    )

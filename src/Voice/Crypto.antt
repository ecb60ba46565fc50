-- ===== src/Voice/Crypto.antt =====
-- src/voice/voice_crypto.cpp: the transport encryption of voice packets. The two ciphers are calls
-- of libsodium and stand in a record, `Sodium`, with what the code relies on in `IsSodium`.
pub mod RoundTrip
use ekizu.Prelude.{
  ℕ, ◌+◌, ◌-◌, ◌%◌, ◌^◌, ◌<◌, ◌≤◌, ◌≡◌, refl, ap, ◌∙◌, Bool, true, false, Option, none, some, List,
  [], ◌∷◌, ◌++◌, length, take, drop, replicate, ltb, leb, if◌then◌else◌, arith,
}
use ekizu.Voice.Rtp.{put_u32be}

pub data Mode : Type 0 where
  xchacha20_poly1305 aes256_gcm unknown : Mode

pub data Error : Type 0 where
  not_supported io_error message_size : Error

pub data Sealed : Type 0 where
  ok : List ℕ → Sealed
  err : Error → Sealed

-- A cipher: whether the mode is XChaCha20, then the key, the nonce, the additional data and the text.
pub record Sodium : Type 0 where
  pub seal : Bool → List ℕ → List ℕ → List ℕ → List ℕ → Option (List ℕ)
  pub open_sealed : Bool → List ℕ → List ℕ → List ℕ → List ℕ → Option (List ℕ)

abbrev pub tag_size : ℕ
tag_size = 16

abbrev pub nonce_size : ℕ
nonce_size = 4

-- Sealing appends a tag and succeeds, opening undoes it, and what opens is longer by the tag.
pub record IsSodium (c : Sodium) : Type 0 where
  pub sealing :
      (x : Bool) (key iv aad text : List ℕ)
      → (s : List ℕ) × (c.seal x key iv aad text ≡ some s) × (length s ≡ length text + 16)
  pub opening :
      (x : Bool) (key iv aad text s : List ℕ)
      → c.seal x key iv aad text ≡ some s
      → c.open_sealed x key iv aad s ≡ some text

pub record VoiceCrypto : Type 0 where
  pub mode : Mode
  pub key : List ℕ
  pub nonce : ℕ

-- The nonce that the cipher gets: four bytes, and zeros to the size that it wants.
abbrev pub iv_of : ℕ → List ℕ → List ℕ
iv_of size bytes = bytes ++ replicate (size - 4) 0

-- `memcpy` into a buffer; none where it would write outside.
unfoldable pub store : List ℕ → ℕ → List ℕ → Option (List ℕ)
store buf i bytes =
    if leb (i + length bytes) (length buf)
    then some (take i buf ++ (bytes ++ drop (i + length bytes) buf))
    else none

-- The header, the sealed text and the nonce, put into a buffer.
fill : List ℕ → List ℕ → List ℕ → List ℕ → Option (List ℕ)
fill buf header sealed nonce_bytes = elim (store buf 0 header) [
  | none ↦ none
  | some b ↦ elim (store b 12 sealed) [
    | none ↦ none
    | some b' ↦ store b' (12 + length sealed) nonce_bytes
  ]
]

as_result : Option (List ℕ) → Option Sealed
as_result none = none
as_result (some packet) = some (ok packet)

-- The packet, once the cipher has answered.
pack : Option (List ℕ) → List ℕ → ℕ → List ℕ → Option Sealed
unfolding fill as_result
pack none header size nonce_bytes = some (err io_error)
pack (some sealed) header size nonce_bytes =
    as_result (fill (replicate (12 + size + tag_size + nonce_size) 0) header sealed nonce_bytes)

module _ (c : Sodium) where
  -- `encrypt_xchacha20` and `encrypt_aes256gcm`, which differ in the cipher and the size of its nonce.
  encrypt_with : Bool → ℕ → List ℕ → List ℕ → List ℕ → ℕ → Option Sealed
  unfolding pack
  encrypt_with x iv_size key header payload nonce =
      pack (c.seal x key (iv_of iv_size (put_u32be nonce)) header payload) header (length payload)
        (put_u32be nonce)

  encrypt_in : Mode → List ℕ → List ℕ → List ℕ → ℕ → Option Sealed
  encrypt_in xchacha20_poly1305 key header payload nonce =
      encrypt_with true 24 key header payload nonce
  encrypt_in aes256_gcm key header payload nonce = encrypt_with false 12 key header payload nonce
  encrypt_in unknown key header payload nonce = some (err not_supported)

  -- The nonce is counted up in 32 bits in any case. `none` is a write outside the buffer.
  unfoldable pub encrypt_rtp : VoiceCrypto → List ℕ → List ℕ → VoiceCrypto × Option Sealed
  unfolding encrypt_in encrypt_with
  encrypt_rtp v header payload =
      (record v { nonce = (v.nonce + 1) % 2 ^ 32 }, encrypt_in v.mode v.key header payload v.nonce)

  decrypt_with : Bool → ℕ → List ℕ → List ℕ → List ℕ → Sealed
  decrypt_with x iv_size key header sealed =
      if ltb (length sealed) (tag_size + nonce_size)
      then err message_size
      else let size = length sealed - nonce_size in
        elim (c.open_sealed x key (iv_of iv_size (drop size sealed)) header (take size sealed)) [
          | none ↦ err io_error
          | some text ↦ ok text
        ]

  decrypt_in : Mode → List ℕ → List ℕ → List ℕ → Sealed
  decrypt_in xchacha20_poly1305 key header sealed = decrypt_with true 24 key header sealed
  decrypt_in aes256_gcm key header sealed = decrypt_with false 12 key header sealed
  decrypt_in unknown key header sealed = err not_supported

  unfoldable pub decrypt_rtp : VoiceCrypto → List ℕ → List ℕ → Sealed
  unfolding decrypt_in decrypt_with
  decrypt_rtp v header sealed = decrypt_in v.mode v.key header sealed

-- ===== src/Voice/Receiver.antt =====
-- `ReceiverOp::process` of src/voice/voice_receiver.cpp: a datagram becomes a packet for the
-- application, or is dropped. The end-to-end layer is a parameter: whether it is on, the user of
-- each source, and what the user's `Decryptor` makes of a frame (Dave.Decryptor), none where there
-- is no decryptor or it fails.
use Prim.Native.String.{String}
use ekizu.Prelude.{
  ℕ, ◌+◌, ◌-◌, ◌*◌, ◌/◌, ◌%◌, ◌^◌, bit_and, Bool, true, false, not, ◌||◌, Option, none, some, List,
  [], ◌∷◌, length, get_or, take, drop, ltb, leb, ◌==◌, if◌then◌else◌,
}
use ekizu.Dave.Buffer.{bytes_equal}
use ekizu.Voice.Rtp.{rtp_header_size, silence_frame, read_u16be, read_u32be}
use ekizu.Voice.Crypto.{Sodium, VoiceCrypto, Sealed, ok, err, decrypt_rtp}
mod Transport
mod Tests

pub record Packet : Type 0 where
  pub sequence : ℕ
  pub timestamp : ℕ
  pub ssrc : ℕ
  pub opus : List ℕ
  pub user_id : Option String

pub record Dave : Type 0 where
  pub enabled : Bool
  pub user_of : ℕ → Option String
  pub decrypt : String → List ℕ → Option (List ℕ)

abbrev pub min_dave_frame_size : ℕ
min_dave_frame_size = 44

-- The last byte counts the padding, itself included.
unfoldable pub strip_rtp_padding : List ℕ → Bool → List ℕ
strip_rtp_padding payload padding =
    if not padding || (length payload == 0)
    then payload
    else let pad = get_or payload (length payload - 1) 0 in
      if pad == 0 || ltb (length payload) pad then payload else take (length payload - pad) payload

module _ (dave : Dave) where
  abbrev packet_of : List ℕ → List ℕ → Option String → Packet
  packet_of bytes opus user = record {
    sequence = read_u16be (drop 2 bytes);
    timestamp = read_u32be (drop 4 bytes);
    ssrc = read_u32be (drop 8 bytes);
    opus = opus;
    user_id = user;
  }

  opened : Option (List ℕ) → List ℕ → String → Option Packet
  opened none bytes user = none
  opened (some text) bytes user = some (packet_of bytes text (some user))

  -- With the end-to-end layer on. A silence packet passes with no audio.
  for_user : Option String → List ℕ → List ℕ → Option Packet
  unfolding opened
  for_user none bytes media = none
  for_user (some user) bytes media =
      if bytes_equal media silence_frame
      then some (packet_of bytes [] (some user))
      else if ltb (length media) min_dave_frame_size
      then none
      else opened (dave.decrypt user media) bytes user

  unfoldable pub deliver : List ℕ → List ℕ → Option Packet
  unfolding for_user
  deliver bytes media =
      let user = dave.user_of (read_u32be (drop 8 bytes)) in
      if dave.enabled then for_user user bytes media else some (packet_of bytes media user)

  -- The header extension stands at the front of the decrypted text.
  with_text : Bool → Bool → ℕ → List ℕ → Sealed → Option Packet
  unfolding strip_rtp_padding
  with_text padding extension words bytes (err e) = none
  with_text padding extension words bytes (ok text) =
      if extension
      then (if ltb (length text) (words * 4)
          then none
          else deliver bytes (strip_rtp_padding (drop (words * 4) text) padding))
      else deliver bytes (strip_rtp_padding text padding)

  module _ (c : Sodium) (crypto : VoiceCrypto) where
    -- The header that is authenticated has `aad_len` bytes, and the rest is encrypted.
    unseal : Bool → Bool → ℕ → ℕ → List ℕ → Option Packet
    unfolding with_text
    unseal padding extension words aad_len bytes =
        if leb (length bytes) aad_len
        then none
        else with_text padding extension words bytes
            (decrypt_rtp c crypto (take aad_len bytes) (drop aad_len bytes))

    -- The extension's preamble is authenticated too, and gives its size in words.
    with_extension : Bool → Bool → ℕ → List ℕ → Option Packet
    unfolding unseal
    with_extension padding extension aad_len bytes =
        if ltb (length bytes) aad_len
        then none
        else if extension
        then (if ltb (length bytes) (aad_len + 4)
            then none
            else unseal padding extension (read_u16be (take 2 (drop (aad_len + 2) bytes)))
                (aad_len + 4) bytes)
        else unseal padding extension 0 aad_len bytes

    -- Only version 2 of RTP with the payload type of Opus is read.
    unfoldable pub process : List ℕ → Option Packet
    unfolding with_extension
    process bytes =
        let b0 = get_or bytes 0 0 in
        let b1 = get_or bytes 1 0 in
        if ltb (length bytes) rtp_header_size
        then none
        else if not (b0 / 64 % 4 == 2)
        then none
        else if not (bit_and b1 0x7f == 120)
        then none
        else with_extension (not (bit_and b0 0x20 == 0)) (not (bit_and b0 0x10 == 0))
            (12 + bit_and b0 0x0f * 4) bytes

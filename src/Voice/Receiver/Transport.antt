-- ===== src/Voice/Receiver/Transport.antt =====
-- A voice packet from the sender of src/voice/voice_sender.cpp to the receiver of
-- src/voice/voice_receiver.cpp.
use Prim.Native.String.{String}
use ekizu.Prelude.{
  ℕ, ◌+◌, ◌%◌, ◌^◌, ◌<◌, ◌≤◌, ◌≡◌, refl, ap, ◌∙◌, true, false, Option, some, List, [], ◌∷◌, ◌++◌,
  length, drop, if_true, if_false, le→ltb, arith, length-append,
}
use ekizu.Dave.Buffer.{bytes_equal}
use ekizu.Voice.Rtp.{silence_frame, put_u32be, read_u32be, read-put_u16be, read-put_u32be}
use ekizu.Voice.Crypto.{Sodium, IsSodium, VoiceCrypto, decrypt_rtp}
use ekizu.Voice.Crypto.RoundTrip.{Known, decrypt_rtp-encrypt_rtp}
use ekizu.Voice.Sender.{
  Sender, AudioPacket, E2ee, not_ready, ciphertext, Next, transmit, rtp_header, send_payload,
  sealed_as, send,
}
use ekizu.Voice.Receiver.{
  Packet, Dave, strip_rtp_padding, packet_of, opened, for_user, deliver, with_text, process,
}

length-rtp_header : (s : Sender) → length (rtp_header s) ≡ 12
unfolding rtp_header
length-rtp_header s = refl

-- What the receiver makes of a header of the sender with anything behind it.
process-header :
    (dave : Dave) (c : Sodium) (crypto : VoiceCrypto) (s : Sender) (rest : List ℕ)
    → 0 < length rest
    → process dave c crypto (rtp_header s ++ rest)
      ≡ with_text dave false false 0
          (rtp_header s ++ rest)
          (decrypt_rtp c crypto (rtp_header s) rest)
unfolding process rtp_header
process-header dave c crypto s rest h = ground arith

-- A sender's header holds its numbers.
abbrev pub Holds : Sender → Type 0
Holds s = (s.rtp_sequence < 2 ^ 16) × (s.rtp_timestamp < 2 ^ 32) × (s.ssrc < 2 ^ 32)

packet_of-header :
    (dave : Dave) (s : Sender) (rest opus : List ℕ) (user : Option String)
    → Holds s
    → packet_of dave (rtp_header s ++ rest) opus user ≡ record {
      sequence = s.rtp_sequence;
      timestamp = s.rtp_timestamp;
      ssrc = s.ssrc;
      opus = opus;
      user_id = user;
    }
unfolding rtp_header
packet_of-header dave s rest opus user (a, b, d) = ground (
  arith,
  read-put_u16be s.rtp_sequence (put_u32be s.rtp_timestamp ++ (put_u32be s.ssrc ++ rest)) a,
  read-put_u32be s.rtp_timestamp (put_u32be s.ssrc ++ rest) b,
  read-put_u32be s.ssrc rest d,
)

-- The end-to-end layers of the sender and the receiver fit: both are off, or the receiver has a
-- decryptor that opens the ciphertext, which is of the least size of a frame at least. `opus` and
-- `user` are what the application gets.
pub data Fits (dave : Dave) (s : Sender) (encoded : List ℕ)
    : E2ee → List ℕ → Option String → Type 0 where
  plain : dave.enabled ≡ false → Fits dave s encoded not_ready encoded (dave.user_of s.ssrc)
  opens :
      (text opus : List ℕ) (user : String)
      → dave.enabled ≡ true
      → dave.user_of s.ssrc ≡ some user
      → 44 ≤ length text
      → dave.decrypt user text ≡ some opus
      → Fits dave s encoded (ciphertext text) opus (some user)

abbrev pub received : Sender → List ℕ → Option String → Packet
received s opus user = record {
  sequence = s.rtp_sequence;
  timestamp = s.rtp_timestamp;
  ssrc = s.ssrc;
  opus = opus;
  user_id = user;
}

ssrc-header :
    (s : Sender) (rest : List ℕ)
    → s.ssrc < 2 ^ 32
    → read_u32be (drop 8 (rtp_header s ++ rest)) ≡ s.ssrc
unfolding rtp_header
ssrc-header s rest h = read-put_u32be s.ssrc rest h

bytes_equal-length : (xs ys : List ℕ) → length ys < length xs → bytes_equal xs ys ≡ false
unfolding bytes_equal
bytes_equal-length [] ys h = absurd (omega arith)
bytes_equal-length (x ∷ xs) [] h = refl
bytes_equal-length (x ∷ xs) (y ∷ ys) h = ground (arith, bytes_equal-length xs ys)

deliver-plain :
    (dave : Dave) (s : Sender) (rest media : List ℕ)
    → Holds s
    → dave.enabled ≡ false
    → deliver dave (rtp_header s ++ rest) media ≡ some (received s media (dave.user_of s.ssrc))
unfolding deliver
deliver-plain dave s rest media h e =
    if_false _ _ e
    ∙ ap some (
        packet_of-header dave s rest media
          (dave.user_of (read_u32be (drop 8 (rtp_header s ++ rest)))) h
        ∙ ap (λ n. received s media (dave.user_of n)) (ssrc-header s rest h.2))

for_user-opens :
    (dave : Dave) (s : Sender) (rest text opus : List ℕ) (user : String)
    → Holds s
    → 44 ≤ length text
    → dave.decrypt user text ≡ some opus
    → for_user dave (some user) (rtp_header s ++ rest) text ≡ some (received s opus (some user))
unfolding for_user opened
for_user-opens dave s rest text opus user h l e =
    if_false _ _ (bytes_equal-length text silence_frame (omega arith))
    ∙ (if_false _ _ (le→ltb (length text) 44 l)
        ∙ (ap (λ o. opened dave o (rtp_header s ++ rest) user) e
            ∙ ap some (packet_of-header dave s rest opus (some user) h)))

deliver-opens :
    (dave : Dave) (s : Sender) (rest text opus : List ℕ) (user : String)
    → Holds s
    → dave.enabled ≡ true
    → dave.user_of s.ssrc ≡ some user
    → 44 ≤ length text
    → dave.decrypt user text ≡ some opus
    → deliver dave (rtp_header s ++ rest) text ≡ some (received s opus (some user))
unfolding deliver
deliver-opens dave s rest text opus user h on u l e =
    if_true _ _ on
    ∙ (ap (λ o. for_user dave o (rtp_header s ++ rest) text)
          (ap dave.user_of (ssrc-header s rest h.2) ∙ u)
        ∙ for_user-opens dave s rest text opus user h l e)

-- A datagram of a payload, up to the delivery.
payload_arrives :
    (dave : Dave) (c : Sodium) (r : VoiceCrypto) (s : Sender) (payload : List ℕ) (frame_count : ℕ)
    → IsSodium c
    → Known s.crypto.mode
    → r.mode ≡ s.crypto.mode
    → r.key ≡ s.crypto.key
    → (rest : List ℕ) × (send_payload c payload frame_count s
        ≡ some (
          record s { crypto = record s.crypto { nonce = (s.crypto.nonce + 1) % 2 ^ 32 } },
          transmit (rtp_header s ++ rest),
        ))
      × (process dave c r (rtp_header s ++ rest) ≡ deliver dave (rtp_header s ++ rest) payload)
unfolding send_payload with_text strip_rtp_padding
payload_arrives dave c r s payload frame_count laws known mode key =
    let (sealed, enc, dec, size) =
      decrypt_rtp-encrypt_rtp c s.crypto r (rtp_header s) payload laws known mode key
        (length-rtp_header s) in
    let rest : List ℕ = sealed ++ put_u32be s.crypto.nonce in
    (
      rest,
      ap (λ e. sealed_as frame_count (record s { crypto = e.0 }) e.1) enc,
      process-header dave c r s rest
            (omega (arith, length-append sealed (put_u32be s.crypto.nonce)))
          ∙ ap (with_text dave false false 0 (rtp_header s ++ rest)) dec,
    )

-- What the sender did with the packet, and what the receiver makes of the datagram.
abbrev pub Arrives :
    Dave → Sodium → VoiceCrypto → Sender → Option (Sender × Next) → List ℕ → Option String → Type 0
Arrives dave c r s step opus user =
    (datagram : List ℕ) × (step
      ≡ some (
        record s { crypto = record s.crypto { nonce = (s.crypto.nonce + 1) % 2 ^ 32 } },
        transmit datagram,
      ))
    × (process dave c r datagram ≡ some (received s opus user))

-- A packet that is sent arrives. With a cipher that does what libsodium promises, a known mode, the
-- same mode and key at both ends, header numbers within their widths and end-to-end layers that
-- fit, the sender transmits a datagram, in which only its nonce moves on; and the receiver makes of
-- it a packet with the sender's sequence number, timestamp and source, the audio that was given to
-- the sender, or that the end-to-end layer opens, and the user.
pub send-process :
    (dave : Dave) (c : Sodium) (r : VoiceCrypto) (s : Sender) (pkt : AudioPacket) (e : E2ee)
    (opus : List ℕ) (user : Option String)
    → IsSodium c
    → Known s.crypto.mode
    → r.mode ≡ s.crypto.mode
    → r.key ≡ s.crypto.key
    → Holds s
    → Fits dave s pkt.encoded e opus user
    → Arrives dave c r s (send c e pkt s) opus user
unfolding send
send-process dave c r s pkt not_ready opus user laws known mode key h (plain off) =
    let (rest, sent, got) =
      payload_arrives dave c r s pkt.encoded pkt.frame_count laws known mode key in
    (rtp_header s ++ rest, sent, got ∙ deliver-plain dave s rest pkt.encoded h off)
send-process dave c r s pkt e opus user laws known mode key h (opens text _ u on found l dec) =
    let (rest, sent, got) = payload_arrives dave c r s text pkt.frame_count laws known mode key in
    (rtp_header s ++ rest, sent, got ∙ deliver-opens dave s rest text opus u h on found l dec)

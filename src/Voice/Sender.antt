-- ===== src/Voice/Sender.antt =====
-- `SenderOp` of src/voice/voice_sender.cpp: an audio packet becomes a datagram. What the encryptor of
-- the end-to-end layer (Dave.Encryptor) makes of the packet is an argument: nothing where the layer
-- is not ready, which sends the packet without it.
use ekizu.Prelude.{
  ℕ, ◌+◌, ◌-◌, ◌*◌, ◌/◌, ◌%◌, ◌^◌, Bool, true, false, Option, none, some, List, ◌∷◌, ◌++◌, leb,
  if◌then◌else◌,
}
use ekizu.Voice.Rtp.{put_u16be, put_u32be}
use ekizu.Voice.Crypto.{Sodium, VoiceCrypto, Sealed, ok, err, encrypt_rtp}

pub record AudioPacket : Type 0 where
  pub encoded : List ℕ
  pub frame_count : ℕ

-- The fields that sending uses; the time of the next send counts milliseconds.
pub record Sender : Type 0 where
  pub crypto : VoiceCrypto
  pub ssrc : ℕ
  pub rtp_sequence : ℕ
  pub rtp_timestamp : ℕ
  pub next_send_time : ℕ
  pub pending_frames : ℕ
  pub packet_count : ℕ
  pub consecutive_failures : ℕ

abbrev pub sample_rate : ℕ
sample_rate = 48000

-- What the end-to-end layer gives: it is not ready, it fails, or a ciphertext.
pub data E2ee : Type 0 where
  not_ready e2ee_failed : E2ee
  ciphertext : List ℕ → E2ee

-- What a step of the loop does next: it goes on with the next packet, or sends a datagram and
-- goes on when that is done, or stops.
pub data Next : Type 0 where
  go_on stop : Next
  transmit : List ℕ → Next

unfoldable pub maintain_sync : ℕ → Sender → Sender
maintain_sync frame_count s = record s {
  rtp_sequence = (s.rtp_sequence + 1) % 2 ^ 16;
  rtp_timestamp = (s.rtp_timestamp + frame_count % 2 ^ 32) % 2 ^ 32;
  next_send_time = s.next_send_time + frame_count * 1000 % 2 ^ 64 / sample_rate;
}

-- `m_pending_frames--`.
unfoldable pub one_less : Sender → Sender
one_less s = record s { pending_frames = (s.pending_frames + (2 ^ 64 - 1)) % 2 ^ 64 }

unfoldable pub rtp_header : Sender → List ℕ
unfolding put_u16be put_u32be
rtp_header s =
    0x80 ∷ 0x78 ∷ (put_u16be s.rtp_sequence ++ (put_u32be s.rtp_timestamp ++ put_u32be s.ssrc))

-- The packet, once it is encrypted for the transport; none is a write outside the buffer.
unfoldable pub sealed_as : ℕ → Sender → Option Sealed → Option (Sender × Next)
sealed_as frame_count s none = none
sealed_as frame_count s (some (err e)) = some (maintain_sync frame_count (one_less s), go_on)
sealed_as frame_count s (some (ok packet)) = some (s, transmit packet)

module _ (c : Sodium) where
  unfoldable pub send_payload : List ℕ → ℕ → Sender → Option (Sender × Next)
  unfolding sealed_as
  send_payload payload frame_count s =
      let (crypto, sealed) = encrypt_rtp c s.crypto (rtp_header s) payload in
      sealed_as frame_count (record s { crypto = crypto }) sealed

  unfoldable pub send : E2ee → AudioPacket → Sender → Option (Sender × Next)
  unfolding send_payload maintain_sync one_less
  send e2ee_failed pkt s = some (maintain_sync pkt.frame_count (one_less s), go_on)
  send not_ready pkt s = send_payload pkt.encoded pkt.frame_count s
  send (ciphertext text) pkt s = send_payload text pkt.frame_count s

-- The completion of the datagram's send: ten failures in a row stop the loop.
unfoldable pub on_sent : Bool → ℕ → Sender → Sender × Next
unfolding maintain_sync one_less
on_sent true frame_count s = (
  maintain_sync frame_count (
      one_less
        (record s { consecutive_failures = 0; packet_count = (s.packet_count + 1) % 2 ^ 64 })),
  go_on,
)
on_sent false frame_count s =
    let failed = s.consecutive_failures + 1 in
    (
      maintain_sync frame_count (one_less (record s { consecutive_failures = failed })),
      if leb 10 failed then stop else go_on,
    )

-- ===== src/Voice/Rtp.antt =====
-- src/voice/voice_util.hpp: the RTP header and numbers in network order. A byte sequence is a list;
-- a number is held in network order by its bytes, whatever the machine's own order is.
use ekizu.Prelude.{
  ℕ, ◌+◌, ◌*◌, ◌/◌, ◌%◌, ◌^◌, ◌<◌, ◌≡◌, List, [], ◌∷◌, ◌++◌, length, get_or, drop, ltb,
  if◌then◌else◌, arith,
}

abbrev pub max_packet_size : ℕ
max_packet_size = 3 * 1276

abbrev pub rtp_header_size : ℕ
rtp_header_size = 12

abbrev pub silence_frame : List ℕ
silence_frame = 0xf8 ∷ 0xff ∷ 0xfe ∷ []

-- `put_be` at two and at four bytes.
unfoldable pub put_u16be : ℕ → List ℕ
put_u16be v = v / 2 ^ 8 % 256 ∷ v % 256 ∷ []

unfoldable pub put_u32be : ℕ → List ℕ
put_u32be v = v / 2 ^ 24 % 256 ∷ v / 2 ^ 16 % 256 ∷ v / 2 ^ 8 % 256 ∷ v % 256 ∷ []

-- Zero where bytes are missing.
unfoldable pub read_u16be : List ℕ → ℕ
read_u16be (a ∷ b ∷ s) = a * 2 ^ 8 + b
read_u16be _ = 0

unfoldable pub read_u32be : List ℕ → ℕ
read_u32be (a ∷ b ∷ c ∷ d ∷ s) = a * 2 ^ 24 + b * 2 ^ 16 + c * 2 ^ 8 + d
read_u32be _ = 0

pub record RtpHeader : Type 0 where
  pub version_padding_extension : ℕ
  pub marker_payload_type : ℕ
  pub sequence : ℕ
  pub timestamp : ℕ
  pub ssrc : ℕ

abbrev pub no_header : RtpHeader
no_header = record {
  version_padding_extension = 0;
  marker_payload_type = 0;
  sequence = 0;
  timestamp = 0;
  ssrc = 0;
}

unfoldable pub parse : List ℕ → RtpHeader
unfolding read_u16be read_u32be
parse bytes = if ltb (length bytes) rtp_header_size then no_header else record {
  version_padding_extension = get_or bytes 0 0;
  marker_payload_type = get_or bytes 1 0;
  sequence = read_u16be (drop 2 bytes);
  timestamp = read_u32be (drop 4 bytes);
  ssrc = read_u32be (drop 8 bytes);
}

-- The twelve bytes that are written.
unfoldable pub write_to : RtpHeader → List ℕ
unfolding put_u16be put_u32be
write_to h =
    h.version_padding_extension
    ∷ h.marker_payload_type
    ∷ (put_u16be h.sequence ++ (put_u32be h.timestamp ++ put_u32be h.ssrc))

-- The fields are within their widths.
pub record Fits (h : RtpHeader) : Type 0 where
  pub first : h.version_padding_extension < 256
  pub second : h.marker_payload_type < 256
  pub sequence : h.sequence < 2 ^ 16
  pub timestamp : h.timestamp < 2 ^ 32
  pub ssrc : h.ssrc < 2 ^ 32

pub read-put_u16be : (v : ℕ) (s : List ℕ) → v < 2 ^ 16 → read_u16be (put_u16be v ++ s) ≡ v
unfolding read_u16be put_u16be
read-put_u16be v s h = omega arith

pub read-put_u32be : (v : ℕ) (s : List ℕ) → v < 2 ^ 32 → read_u32be (put_u32be v ++ s) ≡ v
unfolding read_u32be put_u32be
read-put_u32be v s h = omega arith

-- Reading a header from the bytes that were written, and any more behind them, gives it back.
pub parse-write_to : (h : RtpHeader) (rest : List ℕ) → Fits h → parse (write_to h ++ rest) ≡ h
unfolding parse write_to
parse-write_to h rest f = ground (
  arith,
  read-put_u16be h.sequence (put_u32be h.timestamp ++ (put_u32be h.ssrc ++ rest)) f.sequence,
  read-put_u32be h.timestamp (put_u32be h.ssrc ++ rest) f.timestamp,
  read-put_u32be h.ssrc rest f.ssrc,
)

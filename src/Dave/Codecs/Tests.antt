-- ===== src/Dave/Codecs/Tests.antt =====
-- Frames of each codec, cut into readable bytes and bytes to encrypt.
use ekizu.Prelude.{ℕ, ◌≡◌, refl, List, [], ◌∷◌, ◌++◌, some, arith, true}
use ekizu.Dave.Buffer.{subspan}
use ekizu.Dave.Leb128.{read_leb128}
use ekizu.Dave.Outbound.{
  OutboundFrameProcessor, unknown, av1, reset, add_unencrypted_bytes, add_encrypted_bytes,
}
use ekizu.Dave.Outbound.Layout.{Layout}
use ekizu.Dave.Codecs.Nalu.{next_h26x_nalu_index, Bits}
use ekizu.Dave.Codecs.Nalu.Search.{Finds, next_h26x_nalu_index-Finds}
use ekizu.Dave.Codecs.H26x.{next_nalu_start, process_frame_h265}
use ekizu.Dave.Codecs.Av1.{ended, running, process_frame_av1}
use ekizu.Dave.Codecs.H26x.{each_unit, h264_unit}
use ekizu.Dave.Codecs.H26x.Output.{normal_units, each_unit_fuel}
use ekizu.Dave.Codecs.Av1.{each_obu}
use ekizu.Dave.Codecs.Av1.Endless.{wrapping_obu, each_obu_endless}
use ekizu.Dave.Codecs.H26x.Units.{Units}

abbrev fresh : OutboundFrameProcessor
fresh = record {
  frame_codec = unknown;
  frame_index = 0;
  unencrypted_bytes = [];
  encrypted_bytes = [];
  ciphertext_bytes = [];
  unencrypted_ranges = [];
}

-- A parameter set behind a short start code, and a slice behind a long one.
abbrev h264_frame : List ℕ
h264_frame = 0 ∷ 0 ∷ 1 ∷ 0x67 ∷ 0xaa ∷ 0 ∷ 0 ∷ 0 ∷ 1 ∷ 0x65 ∷ 0xe0 ∷ 0xbb ∷ 0xcc ∷ []

abbrev h265_frame : List ℕ
h265_frame = 0 ∷ 0 ∷ 1 ∷ 0x26 ∷ 1 ∷ 0xaa ∷ 0xbb ∷ []

-- A temporal delimiter, which is dropped, and a frame with its size.
abbrev av1_frame : List ℕ
av1_frame = 0x12 ∷ 0 ∷ 0x32 ∷ 2 ∷ 0xaa ∷ 0xbb ∷ []

abbrev h264_cut : OutboundFrameProcessor
h264_cut = record {
  frame_codec = unknown;
  frame_index = 14;
  unencrypted_bytes = 0 ∷ 0 ∷ 0 ∷ 1 ∷ 103 ∷ 170 ∷ 0 ∷ 0 ∷ 0 ∷ 1 ∷ 101 ∷ 224 ∷ [];
  encrypted_bytes = 187 ∷ 204 ∷ [];
  ciphertext_bytes = [];
  unencrypted_ranges = record { offset = 0; size = 12 } ∷ [];
}

abbrev h265_cut : OutboundFrameProcessor
h265_cut = record {
  frame_codec = unknown;
  frame_index = 8;
  unencrypted_bytes = 0 ∷ 0 ∷ 0 ∷ 1 ∷ 38 ∷ 1 ∷ [];
  encrypted_bytes = 170 ∷ 187 ∷ [];
  ciphertext_bytes = [];
  unencrypted_ranges = record { offset = 0; size = 6 } ∷ [];
}

h265_run : process_frame_h265 (reset fresh) h265_frame ≡ some (true, h265_cut)
unfolding process_frame_h265 reset next_h26x_nalu_index subspan next_nalu_start add_encrypted_bytes
    add_unencrypted_bytes
h265_run = refl

abbrev av1_cut : OutboundFrameProcessor
av1_cut = record {
  frame_codec = unknown;
  frame_index = 3;
  unencrypted_bytes = 48 ∷ [];
  encrypted_bytes = 170 ∷ 187 ∷ [];
  ciphertext_bytes = [];
  unencrypted_ranges = record { offset = 0; size = 1 } ∷ [];
}

av1_run : process_frame_av1 (reset fresh) av1_frame ≡ ended true av1_cut
unfolding process_frame_av1 reset read_leb128 subspan add_encrypted_bytes add_unencrypted_bytes
av1_run = refl

abbrev av1_processed : OutboundFrameProcessor
av1_processed = record {
  frame_codec = av1;
  frame_index = 3;
  unencrypted_bytes = 48 ∷ [];
  encrypted_bytes = 170 ∷ 187 ∷ [];
  ciphertext_bytes = 0 ∷ 0 ∷ [];
  unencrypted_ranges = record { offset = 0; size = 1 } ∷ [];
}

next_h26x_nalu_index-Finds_example : Finds h264_frame 3 (next_h26x_nalu_index h264_frame 3)
next_h26x_nalu_index-Finds_example = next_h26x_nalu_index-Finds h264_frame 3

abbrev at_start : Bits
at_start = record { payload_bit_index = 0; zero_bit_count = 0; parsed_exp_golomb_values = 0 }

each_unit_fuel_example :
    each_unit h264_unit 13 h264_frame (some (3, 3)) fresh
    ≡ each_unit h264_unit 40 h264_frame (some (3, 3)) fresh
each_unit_fuel_example =
    each_unit_fuel h264_unit 13 40 h264_frame (some (3, 3)) fresh (omega arith) (omega arith)

abbrev one_byte_frame : List ℕ
one_byte_frame = 0 ∷ 0 ∷ 1 ∷ 0x67 ∷ 0xaa ∷ 0 ∷ 0 ∷ 1 ∷ 0x0a ∷ []

-- A last NAL unit of one byte is lost.
one_byte_test :
    normal_units 10 one_byte_frame (next_h26x_nalu_index one_byte_frame 0)
    ≡ 0 ∷ 0 ∷ 0 ∷ 1 ∷ 0x67 ∷ 0xaa ∷ []
unfolding normal_units next_h26x_nalu_index next_nalu_start
one_byte_test = refl

each_obu_endless_example : each_obu 1000 (wrapping_obu ++ []) 0 fresh ≡ running
each_obu_endless_example = each_obu_endless 1000 [] fresh

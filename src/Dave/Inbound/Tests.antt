-- ===== src/Dave/Inbound/Tests.antt =====
-- An encrypted frame taken apart and rebuilt.
use ekizu.Prelude.{inr, ℕ, ◌-◌, ◌^◌, ◌≡◌, refl, List, [], ◌∷◌, some, arith, true, false}
use ekizu.Dave.Leb128.{read_leb128}
use ekizu.Dave.Buffer.{subspan}
use ekizu.Dave.Leb128.Bytes.{all_bytes-IsByte}
use ekizu.Dave.Ranges.{deserialize_unencrypted_ranges, validate_unencrypted_ranges}
use ekizu.Dave.Ranges.Reconstruct.{merge}
use ekizu.Dave.Inbound.{InboundFrameProcessor, parse_frame, reconstruct_frame}
use ekizu.Dave.Inbound.Safety.{IsParsed, parse_frame-IsParsed, reconstruct_frame-merge}

abbrev fresh : InboundFrameProcessor
fresh = record {
  encrypted = false;
  original_size = 0;
  tag = [];
  truncated_nonce = 0;
  unencrypted_ranges = [];
  authenticated = [];
  ciphertext = [];
  plaintext = [];
}

-- Three bytes, the first of them readable; the tag 11 to 18; the nonce 5; the range; the size 14.
abbrev sample : List ℕ
sample = 1 ∷ 2 ∷ 3 ∷ 11 ∷ 12 ∷ 13 ∷ 14 ∷ 15 ∷ 16 ∷ 17 ∷ 18 ∷ 5 ∷ 0 ∷ 1 ∷ 14 ∷ 0xfa ∷ 0xfa ∷ []

abbrev parsed_sample : InboundFrameProcessor
parsed_sample = record {
  encrypted = true;
  original_size = 17;
  tag = 11 ∷ 12 ∷ 13 ∷ 14 ∷ 15 ∷ 16 ∷ 17 ∷ 18 ∷ [];
  truncated_nonce = 5;
  unencrypted_ranges = record { offset = 0; size = 1 } ∷ [];
  authenticated = 1 ∷ [];
  ciphertext = 2 ∷ 3 ∷ [];
  plaintext = 0 ∷ 0 ∷ [];
}

parses_sample : parse_frame fresh sample ≡ some parsed_sample
unfolding parse_frame subspan read_leb128 deserialize_unencrypted_ranges validate_unencrypted_ranges
parses_sample = refl

unmarked_is_not_encrypted :
    parse_frame fresh (1 ∷ 2 ∷ 3 ∷ []) ≡ some (record fresh { truncated_nonce = 2 ^ 32 - 1 })
unfolding parse_frame
unmarked_is_not_encrypted = refl

parse_frame-IsParsed_example :
    (q : InboundFrameProcessor) × (parse_frame fresh sample ≡ some q) × IsParsed sample q
parse_frame-IsParsed_example =
    parse_frame-IsParsed sample (omega arith) fresh (all_bytes-IsByte sample refl)

sample-IsParsed : IsParsed sample parsed_sample
unfolding merge
sample-IsParsed =
    inr (3, ((omega arith, omega arith, omega arith, refl), refl, omega arith, refl), refl)

reconstruct_frame-merge_example :
    reconstruct_frame parsed_sample 20
    ≡ some (merge (record { offset = 0; size = 1 } ∷ []) 0 (1 ∷ []) (0 ∷ 0 ∷ []))
reconstruct_frame-merge_example =
    reconstruct_frame-merge sample (omega arith) parsed_sample 20 sample-IsParsed refl (omega arith)
